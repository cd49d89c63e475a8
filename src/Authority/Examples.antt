-- ===== src/Authority/Examples.antt =====
-- One device, one proposal and its facts, and the theorems about the authority at them. The
-- primitives are stand-ins: a hash that marks the payload, and signatures that repeat the key.
use Prim.Native.String.{◌++◌ as text_append}
use personal_secretary.Prelude.{
  ◌≡◌, refl, true, false, none, some, [], ◌∷◌, str_eq, any, find, contains, Pairwise,
}
use personal_secretary.Prelude.Int.{pos, ◌+ℤ◌}
use personal_secretary.Prelude.Results.{err, ok}
use personal_secretary.Authority.Devices.{
  DeviceError, Device, DeviceRegistry, find_device, put_device, device, new_device, revoked_device,
  revoke, require_active_device,
}
use personal_secretary.Authority.Devices.Revoked.{Change, change_all, revoke_forever}
use personal_secretary.Authority.Matrix.{
  ApprovalProof, default_approval_matrix, rule_for, required_tier, can_approve, decide,
  is_allowed_proof, proof_eq,
}
use personal_secretary.Authority.Consumption.{
  is_consumed, any_consumed, update, consume, count_namespace, generation,
}
use personal_secretary.Authority.Facts.{
  ProposalState, ProposalRecord, PayloadBoundFact, ApprovalClass, Approval, CapabilityLease,
  Primitives,
}
use personal_secretary.Authority.Lifecycle.{
  unless_all, idempotency_text, verify_device_signature, validate_approval, proposal_key,
  approve_keys, approve, check_fact, apply,
}
use personal_secretary.Authority.Lifecycle.Claims.{Disjoint}
use personal_secretary.Authority.Lifecycle.OneShot.{
  Call, perform, keys_of, granted_keys, granted_keys-Disjoint,
}
use personal_secretary.Authority.Lifecycle.Signed.{
  Authorized, SignedBy, is_consequential, approve_consequential,
}
use personal_secretary.Authority.Lifecycle.Exact.{IsNew, approve_exact}
use personal_secretary.Prelude.{◌↔◌}
use personal_secretary.Authority.Lifecycle.Transitions.{Step, proposal_of, perform-Step}
use personal_secretary.Authority.Leases.{
  LeasePrimitives, LeaseIssuer, LeaseRequest, lease_payload, join, lease_fact, new_lease, sign,
  verify_signature, issue, check_lease, lease_verification, verify,
}
use personal_secretary.Authority.Leases.Verified.{
  Use, is_verified, use_all, verify-issue, verify_once,
}

abbrev primitives : Primitives
primitives = record {
  sha256 = λ payload. text_append "h:" payload;
  verify = λ key signature bytes. str_eq key signature;
  decimal = λ n. "n";
}

abbrev phone : Device
phone = new_device (pos 0) "phone" "fp" "sage" (some "key")

abbrev registry : DeviceRegistry
registry = record { devices = phone ∷ []; by_fingerprint = ("fp", "phone") ∷ [] }

abbrev proposal : ProposalRecord
proposal = record {
  proposal_id = "p";
  action_class = "calendar.apply";
  payload = "move";
  state = ProposalState.proposed;
  created_at = pos 0;
}

abbrev approved_proposal : ProposalRecord
approved_proposal = record proposal { state = ProposalState.approved }

abbrev fact : PayloadBoundFact
fact = record {
  fact_id = "f";
  proposal_id = "p";
  payload_hash = "h:move";
  issued_at = pos 1;
  expires_at = pos 10;
  idempotency_key = "i";
  actor = "sage";
  correlation_id = "c";
}

abbrev approval : Approval
approval = record {
  approval_class = ApprovalClass.approval;
  fact = fact;
  proof = ApprovalProof.device_signed;
  device_id = some "phone";
  signature = "key";
}

abbrev lease : CapabilityLease
lease = record { fact = fact; capability = "calendar"; worker_id = "w"; signature = "s" }

abbrev approves : Call
approves = Call.approve_call registry default_approval_matrix (pos 2) proposal approval

abbrev applies : Call
applies = Call.apply_call (pos 3) approved_proposal lease

-- Of an approval, its replay, an apply and its replay, two succeed.
two_granted :
    granted_keys primitives [] (approves ∷ approves ∷ applies ∷ applies ∷ [])
    ≡ (("approve", "f") ∷ ("approve-proposal", "p") ∷ ("approve-idempotency", "phone:i") ∷ [])
      ∷ (("apply", "f") ∷ [])
      ∷ []
unfolding granted_keys perform keys_of approve apply approve_keys check_fact unless_all
    validate_approval can_approve rule_for find decide is_allowed_proof any proof_eq
    verify_device_signature require_active_device device find_device new_device proposal_key
    generation count_namespace idempotency_text consume any_consumed is_consumed update
two_granted = refl

granted_keys-Disjoint_example :
    Pairwise Disjoint (granted_keys primitives [] (approves ∷ approves ∷ applies ∷ applies ∷ []))
granted_keys-Disjoint_example =
    granted_keys-Disjoint primitives [] (approves ∷ approves ∷ applies ∷ applies ∷ [])

perform-Step_example : Step ProposalState.proposed ProposalState.approved
unfolding perform proposal_of approve approve_keys unless_all validate_approval can_approve rule_for
    find decide is_allowed_proof any proof_eq verify_device_signature require_active_device device
    find_device new_device proposal_key generation count_namespace idempotency_text consume
    any_consumed is_consumed update
perform-Step_example = perform-Step primitives approves [] ProposalState.approved refl

approve_exact_example :
    ((approve primitives registry default_approval_matrix (pos 2) proposal approval []).1
      ≡ ok ProposalState.approved)
    ↔ (Authorized primitives registry default_approval_matrix (pos 2) proposal approval
        × IsNew primitives registry default_approval_matrix (pos 2) proposal approval [])
approve_exact_example =
    approve_exact primitives registry default_approval_matrix (pos 2) proposal approval []

approve_consequential_example :
    (approval.proof ≡ ApprovalProof.device_signed)
    × SignedBy primitives registry "calendar.apply" approval
unfolding is_consequential required_tier approve approve_keys unless_all validate_approval
    can_approve rule_for find decide is_allowed_proof any proof_eq verify_device_signature
    require_active_device device find_device new_device proposal_key generation count_namespace
    idempotency_text consume any_consumed is_consumed update
approve_consequential_example =
    approve_consequential primitives registry (pos 2) proposal approval [] ProposalState.approved
      refl refl

abbrev pub lease_primitives : LeasePrimitives
lease_primitives = record {
  digest = λ key text. text_append key text;
  sha256 = λ payload. text_append "h:" payload;
  isoformat = λ time. "t";
  separator = "|";
}

abbrev pub issuer : LeaseIssuer
issuer = record {
  keys = record { current_key = "k"; generation = 0 };
  lease_ttl = 5;
  consumed = [];
}

abbrev request : LeaseRequest
request = record {
  capability = "calendar";
  worker_id = "w";
  actor = "sage";
  correlation_id = "c";
  idempotency_key = "i";
}

abbrev issued : CapabilityLease
issued = new_lease lease_primitives issuer (pos 1) "g" approved_proposal request

verify-issue_example :
    (verify lease_primitives issuer (pos 3) issued approved_proposal).1
    ≡ ok (lease_verification lease_primitives (pos 3) issued)
unfolding issue ◌+ℤ◌ contains
verify-issue_example =
    verify-issue lease_primitives issuer (pos 1) (pos 3) "g" approved_proposal request issued refl
      refl refl

verify_once_example :
    is_verified
      (verify lease_primitives
        (use_all lease_primitives
          ((verify lease_primitives issuer (pos 3) issued approved_proposal).0)
          (Use.rotates "new" ∷ []))
        (pos 4)
        issued
        approved_proposal).1
    ≡ false
unfolding verify check_lease verify_signature new_lease lease_fact sign contains lease_payload join
    ◌+ℤ◌
verify_once_example =
    verify_once lease_primitives issuer (pos 3) (pos 4) issued approved_proposal approved_proposal
      (Use.rotates "new" ∷ []) refl

abbrev off : DeviceRegistry
off = record registry { devices = revoked_device (pos 5) "sage" phone ∷ [] }

revoke_forever_example :
    require_active_device
      (change_all off (Change.enrolls (λ key. true) (pos 6) "phone" "other" "sage" none ∷ []))
      "phone"
    ≡ err (DeviceError.revoked "phone")
unfolding revoke device find_device put_device new_device revoked_device
revoke_forever_example =
    revoke_forever registry off (pos 5) "phone" "sage" (revoked_device (pos 5) "sage" phone)
      (Change.enrolls (λ key. true) (pos 6) "phone" "other" "sage" none ∷ []) refl
