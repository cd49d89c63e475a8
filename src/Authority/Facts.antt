-- ===== src/Authority/Facts.antt =====
-- authority.py: proposals, the facts that authorize them, and what a transition raises.
use personal_secretary.Prelude.{ℕ, String, Bool, true, false, Option}
use personal_secretary.Prelude.Int.{ℤ}
use personal_secretary.Authority.Devices.{DeviceError}
use personal_secretary.Authority.Matrix.{ApprovalProof}

pub data ProposalState : Type 0 where
  proposed approved rejected expired applied reverted reconciled : ProposalState

abbrev pub is_proposed : ProposalState → Bool
is_proposed ProposalState.proposed = true
is_proposed _ = false

abbrev pub is_approved : ProposalState → Bool
is_approved ProposalState.approved = true
is_approved _ = false

abbrev pub is_applied : ProposalState → Bool
is_applied ProposalState.applied = true
is_applied _ = false

pub record ProposalRecord : Type 0 where
  pub proposal_id : String
  pub action_class : String
  pub payload : String
  pub state : ProposalState
  pub created_at : ℤ

pub record PayloadBoundFact : Type 0 where
  pub fact_id : String
  pub proposal_id : String
  pub payload_hash : String
  pub issued_at : ℤ
  pub expires_at : ℤ
  pub idempotency_key : String
  pub actor : String
  pub correlation_id : String

-- The class of an approval: `Approval` itself, or its subclass `ResetRequest`.
pub data ApprovalClass : Type 0 where
  approval reset_request : ApprovalClass

pub record Approval : Type 0 where
  pub approval_class : ApprovalClass
  pub fact : PayloadBoundFact
  pub proof : ApprovalProof
  pub device_id : Option String
  pub signature : String

pub record CapabilityLease : Type 0 where
  pub fact : PayloadBoundFact
  pub capability : String
  pub worker_id : String
  pub signature : String

pub record Rollback : Type 0 where
  pub fact : PayloadBoundFact
  pub reason : String

pub record Reconciliation : Type 0 where
  pub fact : PayloadBoundFact
  pub outcome : String

-- What `signing_bytes` serializes: the domain by the class, the action, and every field but the
-- signature.
pub record SigningBytes : Type 0 where
  pub domain : ApprovalClass
  pub action_class : String
  pub fact : PayloadBoundFact
  pub proof : ApprovalProof
  pub device_id : Option String

unfoldable pub signing_bytes : Approval → String → SigningBytes
signing_bytes a action_class = record {
  domain = a.approval_class;
  action_class = action_class;
  fact = a.fact;
  proof = a.proof;
  device_id = a.device_id;
}

-- The functions of the hash and signature libraries, and `str` of a number. `verify` is whether
-- the key reads and verifies the signature of the serialized fields.
pub record Primitives : Type 0 where
  pub sha256 : String → String
  pub verify : String → String → SigningBytes → Bool
  pub decimal : ℕ → String

-- `PolicyViolationError`, with one constructor per message.
pub data PolicyViolation : Type 0 where
  wrong_state : ProposalState → PolicyViolation
  denied : String → PolicyViolation
  device_inactive : DeviceError → PolicyViolation
  reset_cannot_approve proposal_mismatch payload_mismatch has_expired issuance_invalid
        device_required no_signing_key signature_invalid zero_effects_required replay :
      PolicyViolation
