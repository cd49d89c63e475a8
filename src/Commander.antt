-- ===== src/Commander.antt =====
-- commander/contracts.py and commander/dispatch.py: the dispatch of a worker request. The JSON text of
-- a request, the credential broker and the runtime's attempts are arguments.
pub mod Dispatch
pub mod Bounded
pub mod Protected
pub mod Examples
use personal_secretary.Prelude.{ℕ, String, Bool, true, false, Option, List}
use personal_secretary.Prelude.Int.{ℤ}
use personal_secretary.Authority.Facts.{CapabilityLease, ProposalRecord}

pub data WorkerCapability : Type 0 where
  code browser computer document external_send : WorkerCapability

abbrev pub capability_value : WorkerCapability → String
capability_value WorkerCapability.code = "code.execute"
capability_value WorkerCapability.browser = "browser.execute"
capability_value WorkerCapability.computer = "computer.execute"
capability_value WorkerCapability.document = "document.execute"
capability_value WorkerCapability.external_send = "message.send"

pub data WorkerRuntimeClass : Type 0 where
  noop sandbox live : WorkerRuntimeClass

abbrev pub is_live : WorkerRuntimeClass → Bool
is_live WorkerRuntimeClass.noop = false
is_live WorkerRuntimeClass.sandbox = false
is_live WorkerRuntimeClass.live = true

pub data WorkerResultStatus : Type 0 where
  succeeded failed retry_exhausted denied unavailable : WorkerResultStatus

pub data WorkerAttemptStatus : Type 0 where
  succeeded failed retry : WorkerAttemptStatus

pub record WorkerScope : Type 0 where
  pub resources : List String
  pub operations : List String

pub record WorkerBudget : Type 0 where
  pub max_attempts : ℕ
  pub max_tokens : ℕ
  pub max_cost_microunits : ℕ

pub record WorkerRequestProvenance : Type 0 where
  pub source : String
  pub source_id : String
  pub actor : String
  pub correlation_id : String

-- The record `WorkerTimeout` is its one field, the seconds.
pub record WorkerRequest : Type 0 where
  pub request_id : String
  pub worker_id : String
  pub capability : WorkerCapability
  pub objective : String
  pub scope : WorkerScope
  pub budget : WorkerBudget
  pub timeout_seconds : ℕ
  pub provenance : WorkerRequestProvenance
  pub credential_references : List String

abbrev pub authority_action_class : WorkerCapability → String
authority_action_class WorkerCapability.code = "worker.execute"
authority_action_class WorkerCapability.browser = "worker.execute"
authority_action_class WorkerCapability.computer = "worker.execute"
authority_action_class WorkerCapability.document = "worker.execute"
authority_action_class WorkerCapability.external_send = "message.send"

pub record CredentialGrant : Type 0 where
  pub reference : String
  pub handle : String
  pub expires_at : ℤ
  pub request_id : Option String
  pub capability : Option WorkerCapability
  pub issued_at : Option ℤ

pub record RuntimeDescriptor : Type 0 where
  pub name : String
  pub version : String
  pub execution_class : WorkerRuntimeClass

pub record WorkerAttemptResult : Type 0 where
  pub status : WorkerAttemptStatus
  pub detail : String
  pub output_reference : Option String

pub record WorkerResultProvenance : Type 0 where
  pub request_id : String
  pub runtime : RuntimeDescriptor

pub record WorkerResult : Type 0 where
  pub status : WorkerResultStatus
  pub detail : String
  pub attempts : ℕ
  pub provenance : WorkerResultProvenance
  pub output_reference : Option String

pub record DispatchAuthorization : Type 0 where
  pub proposal : ProposalRecord
  pub lease : CapabilityLease

-- What `execute` returns at each attempt is an argument of the runtime.
pub record WorkerRuntime : Type 0 where
  pub descriptor : RuntimeDescriptor
  pub execute : ℕ → WorkerRequest → List CredentialGrant → WorkerAttemptResult
