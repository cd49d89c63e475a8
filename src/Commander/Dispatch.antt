-- ===== src/Commander/Dispatch.antt =====
-- commander/dispatch.py: `Commander.dispatch`.
use personal_secretary.Prelude.{
  ℕ, zero, suc, String, Bool, true, false, not, ◌&&◌, Option, none, some, List, str_eq,
  if◌then◌else◌,
}
use personal_secretary.Prelude.Int.{ℤ}
use personal_secretary.Prelude.Results.{Result, err, ok}
use personal_secretary.Authority.Facts.{is_approved}
use personal_secretary.Authority.Leases.{
  LeasePrimitives, LeaseIssuer, LeaseViolation, LeaseVerification, verify,
}
use personal_secretary.Commander.{
  WorkerCapability, capability_value, WorkerRuntimeClass, is_live, WorkerResultStatus,
  WorkerAttemptStatus, WorkerRequest, authority_action_class, CredentialGrant, RuntimeDescriptor,
  WorkerAttemptResult, WorkerResult, DispatchAuthorization, WorkerRuntime,
}

-- The reasons that `dispatch` gives, with one constructor per text.
pub data Denial : Type 0 where
  live_code_execution_disabled live_capability_not_promoted capability_lease_required
        capability_lease_verifier_unavailable approved_proposal_required
        proposal_action_class_mismatch proposal_payload_mismatch lease_capability_mismatch
        lease_worker_mismatch :
      Denial
  lease_refused : LeaseViolation → Denial

abbrev pub no_worker_runtime : RuntimeDescriptor
no_worker_runtime = record {
  name = "none";
  version = "none";
  execution_class = WorkerRuntimeClass.noop;
}

abbrev pub is_code : WorkerCapability → Bool
is_code WorkerCapability.code = true
is_code _ = false

-- `in PROTECTED_CAPABILITIES`
abbrev pub is_protected : WorkerCapability → Bool
is_protected WorkerCapability.code = false
is_protected _ = true

abbrev pub is_live_control : WorkerCapability → Bool
is_live_control WorkerCapability.browser = true
is_live_control WorkerCapability.computer = true
is_live_control WorkerCapability.document = true
is_live_control _ = false

abbrev pub runs_live : Option WorkerRuntime → Bool
runs_live none = false
runs_live (some runtime) = is_live runtime.descriptor.execution_class

pub record Commander : Type 0 where
  pub runtime : Option WorkerRuntime
  pub lease_issuer : Option LeaseIssuer
  pub promoted : WorkerCapability → Bool

abbrev pub descriptor_of : Option WorkerRuntime → RuntimeDescriptor
descriptor_of none = no_worker_runtime
descriptor_of (some runtime) = runtime.descriptor

-- `_result`. The texts that the broker and the runtime give are taken to be as `NonEmpty` asks; of an
-- empty one, `WorkerResult` would raise.
unfoldable pub result :
    Commander → WorkerRequest → WorkerResultStatus → String → ℕ → Option String → WorkerResult
result commander request status detail attempts output_reference = record {
  status = status;
  detail = detail;
  attempts = attempts;
  provenance = record {
    request_id = request.request_id;
    runtime = descriptor_of commander.runtime;
  };
  output_reference = output_reference;
}

abbrev pub refused : LeaseIssuer × Result LeaseViolation LeaseVerification → Option Denial
refused (after, err violation) = some (Denial.lease_refused violation)
refused (after, ok verification) = none

-- One attempt's outcome by its status; `left` is how many attempts are left after it, and the last
-- argument is what they give.
abbrev pub after_attempt :
    Commander
    → WorkerRequest
    → WorkerAttemptResult
    → ℕ
    → WorkerAttemptStatus
    → ℕ
    → Option WorkerResult
    → Option WorkerResult
after_attempt commander request outcome attempt WorkerAttemptStatus.succeeded left later = some (
    result commander request WorkerResultStatus.succeeded outcome.detail attempt
      outcome.output_reference)
after_attempt commander request outcome attempt WorkerAttemptStatus.failed left later =
    some (result commander request WorkerResultStatus.failed outcome.detail attempt none)
after_attempt commander request outcome attempt WorkerAttemptStatus.retry zero later =
    some (result commander request WorkerResultStatus.retry_exhausted outcome.detail attempt none)
after_attempt commander request outcome attempt WorkerAttemptStatus.retry (suc left) later = later

-- `range(1, max_attempts + 1)`, by the number of attempts that are left. The last value is the
-- `AssertionError` after the loop.
unfoldable pub attempts_from :
    Commander → WorkerRequest → (ℕ → WorkerAttemptResult) → ℕ → ℕ → Option WorkerResult
attempts_from commander request execute attempt zero = none
attempts_from commander request execute attempt (suc left) =
    after_attempt commander request (execute attempt) attempt (execute attempt).status left
      (attempts_from commander request execute (suc attempt) left)

-- The arguments: the primitives of leases, the JSON text of a request, the text of a denial, and the
-- broker, whose error is a text.
module _ (primitives : LeasePrimitives) (canonical_payload : WorkerRequest → String)
    (denial_text : Denial → String)
    (broker : WorkerRequest → Result String (List CredentialGrant)) where
  unfoldable pub lease_denial :
      LeaseIssuer → ℤ → WorkerRequest → DispatchAuthorization → LeaseIssuer × Option Denial
  lease_denial issuer now request authorization =
      let proposal = authorization.proposal in
      let lease = authorization.lease in
      if not (is_approved proposal.state)
      then (issuer, some Denial.approved_proposal_required)
      else if not (str_eq proposal.action_class (authority_action_class request.capability))
      then (issuer, some Denial.proposal_action_class_mismatch)
      else if not (str_eq proposal.payload (canonical_payload request))
      then (issuer, some Denial.proposal_payload_mismatch)
      else if not (str_eq lease.capability (capability_value request.capability))
      then (issuer, some Denial.lease_capability_mismatch)
      else if not (str_eq lease.worker_id request.worker_id)
      then (issuer, some Denial.lease_worker_mismatch)
      else let verified = verify primitives issuer now lease proposal in
        (verified.0, refused verified)

  abbrev pub authorize :
      Commander
      → ℤ
      → WorkerRequest
      → Option LeaseIssuer
      → Option DispatchAuthorization
      → Commander × Option Denial
  authorize commander now request issuer none = (commander, some Denial.capability_lease_required)
  authorize commander now request none (some authorization) =
      (commander, some Denial.capability_lease_verifier_unavailable)
  authorize commander now request (some issuer) (some authorization) =
      let (after, denial) = lease_denial issuer now request authorization in
      (record commander { lease_issuer = some after }, denial)

  unfoldable pub authorization_denial :
      Commander → ℤ → WorkerRequest → Option DispatchAuthorization → Commander × Option Denial
  authorization_denial commander now request authorization =
      if is_code request.capability && runs_live commander.runtime
      then (commander, some Denial.live_code_execution_disabled)
      else if not (is_protected request.capability)
      then (commander, none)
      else if is_live_control request.capability
          && runs_live commander.runtime
          && not (commander.promoted request.capability)
      then (commander, some Denial.live_capability_not_promoted)
      else authorize commander now request commander.lease_issuer authorization

  abbrev pub run_with :
      Commander
      → WorkerRequest
      → WorkerRuntime
      → Result String (List CredentialGrant)
      → Option WorkerResult
  run_with commander request runtime (err reason) =
      some (result commander request WorkerResultStatus.denied reason 0 none)
  run_with commander request runtime (ok credentials) =
      attempts_from commander request (λ n. runtime.execute n request credentials) 1
        request.budget.max_attempts

  abbrev pub run : Commander → WorkerRequest → Option WorkerRuntime → Option WorkerResult
  run commander request none =
      some (result commander request WorkerResultStatus.unavailable "no_worker_configured" 0 none)
  run commander request (some runtime) = run_with commander request runtime (broker request)

  abbrev pub concluded : Commander × Option Denial → WorkerRequest → Commander × Option WorkerResult
  concluded (commander, some denial) request = (
    commander,
    some (result commander request WorkerResultStatus.denied (denial_text denial) 0 none),
  )
  concluded (commander, none) request = (commander, run commander request commander.runtime)

  -- `none` is the `AssertionError` after the loop.
  unfoldable pub dispatch :
      Commander → ℤ → WorkerRequest → Option DispatchAuthorization → Commander × Option WorkerResult
  dispatch commander now request authorization =
      concluded (authorization_denial commander now request authorization) request
