-- ===== src/Authority/Lifecycle.antt =====
-- authority.py: the `ProposalLifecycle`. Each method is a function of the clock's time and of the
-- consumed keys, and returns what it raises or the new state.
pub mod Claims
pub mod OneShot
pub mod Signed
pub mod Exact
pub mod Transitions
use Prim.Native.String.{◌++◌ as text_append}
use personal_secretary.Prelude.{
  ℕ, String, Bool, true, false, not, ◌&&◌, is_some, Option, none, some, List, [], ◌∷◌, str_eq, ◌==◌,
  if◌then◌else◌,
}
use personal_secretary.Prelude.Int.{ℤ, leb_ℤ, ltb_ℤ}
use personal_secretary.Prelude.Results.{Result, err, ok}
use personal_secretary.Authority.Devices.{
  Device, DeviceError, DeviceRegistry, require_active_device,
}
use personal_secretary.Authority.Matrix.{ApprovalProof, ApprovalMatrix, can_approve}
use personal_secretary.Authority.Consumption.{ConsumptionKey, consume, generation}
use personal_secretary.Authority.Facts.{
  ProposalState, is_proposed, is_approved, is_applied, ProposalRecord, PayloadBoundFact,
  ApprovalClass, Approval, CapabilityLease, Rollback, Reconciliation, SigningBytes, signing_bytes,
  Primitives, PolicyViolation,
}

-- The conditions in their order: the first that fails is raised.
unfoldable pub unless_all : List (Bool × PolicyViolation) → Option PolicyViolation
unless_all [] = none
unless_all ((true, reason) ∷ rest) = unless_all rest
unless_all ((false, reason) ∷ rest) = some reason

abbrev pub then_check : Option PolicyViolation → Option PolicyViolation → Option PolicyViolation
then_check none later = later
then_check (some reason) later = some reason

abbrev pub is_reset : ApprovalClass → Bool
is_reset ApprovalClass.approval = false
is_reset ApprovalClass.reset_request = true

-- `if not self._consumption.consume(keys)`: raise, or go to the new state.
abbrev pub claim :
    List ConsumptionKey
    → ProposalState
    → Option PolicyViolation
    → List ConsumptionKey
    → List ConsumptionKey × Result PolicyViolation ProposalState
claim keys state (some reason) consumed = (consumed, err reason)
claim keys state none consumed =
    let (claimed, is_new) = consume keys consumed in
    (claimed, if is_new then ok state else err PolicyViolation.replay)

-- `f"{device_id}:{idempotency_key}"`
abbrev pub device_text : Option String → String
device_text none = "None"
device_text (some k) = k

unfoldable pub idempotency_text : Approval → String
idempotency_text a = text_append (device_text a.device_id) (text_append ":" a.fact.idempotency_key)

module _ (primitives : Primitives) where
  abbrev pub payload_hash : ProposalRecord → String
  payload_hash proposal = primitives.sha256 proposal.payload

  -- `_verify_device_signature`, from the innermost of its tests.
  abbrev pub check_key : ProposalRecord → Approval → Option String → Option PolicyViolation
  check_key proposal a none = some PolicyViolation.no_signing_key
  check_key proposal a (some key) =
      if primitives.verify key a.signature (signing_bytes a proposal.action_class)
      then none
      else some PolicyViolation.signature_invalid

  abbrev pub check_signature :
      ProposalRecord → Approval → Result DeviceError Device → Option PolicyViolation
  check_signature proposal a (err error) = some (PolicyViolation.device_inactive error)
  check_signature proposal a (ok d) = check_key proposal a d.approval_public_key

  abbrev pub check_device :
      DeviceRegistry → ProposalRecord → Approval → Option String → Option PolicyViolation
  check_device registry proposal a none = some PolicyViolation.device_required
  check_device registry proposal a (some k) =
      check_signature proposal a (require_active_device registry k)

  unfoldable pub verify_device_signature :
      DeviceRegistry → ProposalRecord → Approval → Option PolicyViolation
  verify_device_signature registry proposal a = check_device registry proposal a a.device_id

  abbrev pub check_proof :
      DeviceRegistry → ProposalRecord → Approval → ApprovalProof → Option PolicyViolation
  check_proof registry proposal a ApprovalProof.device_signed =
      verify_device_signature registry proposal a
  check_proof registry proposal a ApprovalProof.voice = none
  check_proof registry proposal a ApprovalProof.no_proof = none

  -- The conditions of `validate_approval` before that on the signature.
  abbrev pub validation_tests :
      ℤ → ProposalRecord → Approval → ApprovalMatrix → List (Bool × PolicyViolation)
  validation_tests now proposal a matrix =
      let decision = can_approve matrix proposal.action_class a.proof in
      (decision.allowed, PolicyViolation.denied decision.reason)
      ∷ (str_eq a.fact.proposal_id proposal.proposal_id, PolicyViolation.proposal_mismatch)
      ∷ (str_eq a.fact.payload_hash (payload_hash proposal), PolicyViolation.payload_mismatch)
      ∷ (ltb_ℤ now a.fact.expires_at, PolicyViolation.has_expired)
      ∷ (
        leb_ℤ a.fact.issued_at now && ltb_ℤ a.fact.issued_at a.fact.expires_at,
        PolicyViolation.issuance_invalid,
      )
      ∷ []

  unfoldable pub validate_approval :
      DeviceRegistry → ℤ → ProposalRecord → Approval → ApprovalMatrix → Option PolicyViolation
  validate_approval registry now proposal a matrix =
      then_check (unless_all (validation_tests now proposal a matrix))
        (check_proof registry proposal a a.proof)

  -- `proposal_key`: with the round's number after the first.
  unfoldable pub proposal_key : List ConsumptionKey → String → String
  proposal_key consumed proposal_id =
      let round = generation consumed proposal_id in
      if round == 0
      then proposal_id
      else text_append proposal_id (text_append ":" (primitives.decimal round))

  unfoldable pub approve_keys :
      List ConsumptionKey → ProposalRecord → Approval → List ConsumptionKey
  approve_keys consumed proposal a =
      ("approve", a.fact.fact_id)
      ∷ ("approve-proposal", proposal_key consumed proposal.proposal_id)
      ∷ ("approve-idempotency", idempotency_text a)
      ∷ []

  -- The conditions of `approve` before those of `validate_approval`.
  abbrev pub approve_tests : ProposalRecord → Approval → List (Bool × PolicyViolation)
  approve_tests proposal a =
      (is_proposed proposal.state, PolicyViolation.wrong_state proposal.state)
      ∷ (not (is_reset a.approval_class), PolicyViolation.reset_cannot_approve)
      ∷ []

  unfoldable pub approve :
      DeviceRegistry
      → ApprovalMatrix
      → ℤ
      → ProposalRecord
      → Approval
      → List ConsumptionKey
      → List ConsumptionKey × Result PolicyViolation ProposalState
  approve registry matrix now proposal a consumed =
      claim (approve_keys consumed proposal a) ProposalState.approved
        (then_check (unless_all (approve_tests proposal a))
          (validate_approval registry now proposal a matrix))
        consumed

  -- The checks that `apply`, `revert` and `reconcile` share.
  unfoldable pub check_fact :
      (ProposalState → Bool) → ℤ → ProposalRecord → PayloadBoundFact → Option PolicyViolation
  check_fact in_state now proposal fact = unless_all (
      (in_state proposal.state, PolicyViolation.wrong_state proposal.state)
      ∷ (str_eq fact.proposal_id proposal.proposal_id, PolicyViolation.proposal_mismatch)
      ∷ (str_eq fact.payload_hash (payload_hash proposal), PolicyViolation.payload_mismatch)
      ∷ (ltb_ℤ now fact.expires_at, PolicyViolation.has_expired)
      ∷ [])

  unfoldable pub apply :
      ℤ
      → ProposalRecord
      → CapabilityLease
      → List ConsumptionKey
      → List ConsumptionKey × Result PolicyViolation ProposalState
  apply now proposal lease =
      claim (("apply", lease.fact.fact_id) ∷ []) ProposalState.applied
        (check_fact is_approved now proposal lease.fact)

  unfoldable pub revert :
      ℤ
      → ProposalRecord
      → Rollback
      → List ConsumptionKey
      → List ConsumptionKey × Result PolicyViolation ProposalState
  revert now proposal rollback =
      claim (("revert", rollback.fact.fact_id) ∷ []) ProposalState.reverted
        (check_fact is_applied now proposal rollback.fact)

  unfoldable pub reconcile :
      ℤ
      → ProposalRecord
      → Reconciliation
      → List ConsumptionKey
      → List ConsumptionKey × Result PolicyViolation ProposalState
  reconcile now proposal reconciliation =
      claim (("reconcile", reconciliation.fact.fact_id) ∷ []) ProposalState.reconciled
        (check_fact is_applied now proposal reconciliation.fact)

  unfoldable pub reset_keys : ProposalRecord → Approval → List ConsumptionKey
  reset_keys proposal r =
      ("recover", r.fact.fact_id)
      ∷ (text_append "reset-round:" proposal.proposal_id, r.fact.fact_id)
      ∷ ("recover-idempotency", idempotency_text r)
      ∷ []

  -- `reset`: its request is a `ResetRequest`.
  unfoldable pub reset :
      DeviceRegistry
      → ApprovalMatrix
      → Bool
      → ℤ
      → ProposalRecord
      → Approval
      → List ConsumptionKey
      → List ConsumptionKey × Result PolicyViolation ProposalState
  reset registry matrix zero_effects_verified now proposal r =
      claim (reset_keys proposal r) ProposalState.proposed (
        then_check
          (unless_all (
            (is_approved proposal.state, PolicyViolation.wrong_state proposal.state)
            ∷ (zero_effects_verified, PolicyViolation.zero_effects_required)
            ∷ []))
          (then_check (validate_approval registry now proposal r matrix)
            (unless_all ((is_some r.device_id, PolicyViolation.device_required) ∷ []))))
