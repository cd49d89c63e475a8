-- ===== src/Authority/Lifecycle/Exact.antt =====
-- authority.py: the approvals that `approve` grants, described without the order of its checks.
use Prim.Native.String.{◌++◌ as text_append}
use mathlib.Core.Path.{subst}
use personal_secretary.Prelude.{
  ℕ, zero, suc, String, [], ◌∷◌, keep, length, str_eq, ◌==◌, Bool-cases, if◌then◌else◌, ◌≡◌, refl,
  ap, inl, inr, true, false, Option, none, some, List, arith,
}
use personal_secretary.Prelude.Int.{ℤ, ltb_ℤ}
use personal_secretary.Prelude.Results.{ok}
use personal_secretary.Authority.Devices.{DeviceRegistry, require_active_device, require_found}
use personal_secretary.Authority.Matrix.{ApprovalProof, ApprovalMatrix}
use personal_secretary.Authority.Consumption.{ConsumptionKey}
use personal_secretary.Authority.Facts.{ProposalState, ProposalRecord, Approval, Primitives}
use personal_secretary.Authority.Lifecycle.{
  claim, approve_keys, approve, then_check, unless_all, validate_approval, verify_device_signature,
  check_device, check_proof, check_signature, approve_tests, check_key, proposal_key,
  idempotency_text, device_text,
}
use personal_secretary.Authority.Lifecycle.Signed.{SignedBy, Authorized, approve-Authorized}
use personal_secretary.Authority.Lifecycle.Claims.{claim-cases}
use personal_secretary.Authority.Consumption.{
  any_consumed, is_consumed, consume, generation, count_namespace,
}
use personal_secretary.Authority.Facts.{PolicyViolation}
use personal_secretary.Prelude.{◌↔◌, sym, ap, inl, inr}

module _ (primitives : Primitives) (registry : DeviceRegistry) (proposal : ProposalRecord)
    (a : Approval) where
  SignedBy-verified :
      SignedBy primitives registry proposal.action_class a
      → verify_device_signature primitives registry proposal a ≡ none
  unfolding verify_device_signature require_active_device
  SignedBy-verified s =
      subst (λ o. check_device primitives registry proposal a o ≡ none) (sym s.named)
        (subst (λ o. check_signature primitives proposal a (require_found s.signer_id o) ≡ none)
          (sym s.found)
          (rw s.enrolled (
            subst (λ o. check_key primitives proposal a o ≡ none) (sym s.has_key) (rw s.verified))))

  check_proof-signed :
      (proof : ApprovalProof)
      → (proof ≡ ApprovalProof.device_signed → SignedBy primitives registry proposal.action_class a)
      → check_proof primitives registry proposal a proof ≡ none
  check_proof-signed ApprovalProof.device_signed h = SignedBy-verified (h refl)
  check_proof-signed ApprovalProof.voice h = refl
  check_proof-signed ApprovalProof.no_proof h = refl

claim-new :
    (keys : List ConsumptionKey) (state : ProposalState) (check : Option PolicyViolation)
    (s : List ConsumptionKey)
    → (claim keys state check s).1 ≡ ok state
    → any_consumed keys s ≡ false
claim-new keys state check s h = elim (claim-cases keys state check s) [
  | inl g ↦ g.new
  | inr r ↦ ground (arith, h, ap (λ x. x.1) r.outcome)
]

module _ (primitives : Primitives) (registry : DeviceRegistry) (matrix : ApprovalMatrix) (now : ℤ)
    (proposal : ProposalRecord) (a : Approval) where
  Authorized-checked :
      Authorized primitives registry matrix now proposal a
      → then_check
          (unless_all (approve_tests primitives proposal a))
          (validate_approval primitives registry now proposal a matrix)
        ≡ none
  unfolding unless_all validate_approval
  Authorized-checked h =
      let lasting : ltb_ℤ a.fact.issued_at a.fact.expires_at ≡ true =
        ground (arith, h.issued, h.unexpired) in
      rw (h.proposed, h.ordinary, h.allowed, h.ours, h.bound, h.unexpired, h.issued, lasting)
        (check_proof-signed primitives registry proposal a a.proof h.signed)

  -- The number of resets of the proposal that are on record.
  abbrev pub resets : List ConsumptionKey → ℕ
  resets s = length (keep (λ k. str_eq k.0 (text_append "reset-round:" proposal.proposal_id)) s)

  generation-resets : (s : List ConsumptionKey) → generation s proposal.proposal_id ≡ resets s
  unfolding generation count_namespace keep
  generation-resets [] = refl
  generation-resets (k ∷ ks) =
      elim (Bool-cases (str_eq k.0 (text_append "reset-round:" proposal.proposal_id))) [
        | inl e ↦ rw e (omega (arith, generation-resets ks))
        | inr e ↦ rw e (omega (arith, generation-resets ks))
      ]

  -- The name of the current round of the proposal.
  abbrev pub round_name : ℕ → String
  round_name zero = proposal.proposal_id
  round_name (suc n) =
      text_append proposal.proposal_id (text_append ":" (primitives.decimal (suc n)))

  proposal_key-round :
      (s : List ConsumptionKey)
      → proposal_key primitives s proposal.proposal_id ≡ round_name (resets s)
  unfolding proposal_key
  proposal_key-round s = rw (generation-resets s) (by_count (resets s))
    where
      by_count :
          (n : ℕ)
          → (if n == 0
              then proposal.proposal_id
              else text_append proposal.proposal_id (text_append ":" (primitives.decimal n)))
            ≡ round_name n
      by_count zero = refl
      by_count (suc n) = elim (Bool-cases (suc n == 0)) [
        | inl e ↦ absurd (ground (arith, e))
        | inr e ↦ rw e refl
      ]

  -- The idempotency key under the id of the device, or under `None` without one.
  abbrev pub idempotency_name : Option String → String
  idempotency_name none = text_append "None" (text_append ":" a.fact.idempotency_key)
  idempotency_name (some device_id) = text_append device_id (text_append ":" a.fact.idempotency_key)

  idempotency_text-name : idempotency_text a ≡ idempotency_name a.device_id
  unfolding idempotency_text
  idempotency_text-name = by_device a.device_id
    where
      by_device :
          (o : Option String)
          → text_append (device_text o) (text_append ":" a.fact.idempotency_key)
            ≡ idempotency_name o
      by_device none = refl
      by_device (some device_id) = refl

  -- The fact of the approval, the round of the proposal after its resets, and the idempotency key of
  -- the device are not consumed.
  pub record IsNew (s : List ConsumptionKey) : Type 0 where
    pub fact : is_consumed ("approve", a.fact.fact_id) s ≡ false
    pub round : is_consumed ("approve-proposal", round_name (resets s)) s ≡ false
    pub idempotency : is_consumed ("approve-idempotency", idempotency_name a.device_id) s ≡ false

  IsNew-not_consumed :
      (s : List ConsumptionKey)
      → any_consumed (approve_keys primitives s proposal a) s ≡ false
      → IsNew s
  unfolding any_consumed approve_keys
  IsNew-not_consumed s h = record {
    fact = ground (arith, h);
    round =
        subst (λ name. is_consumed ("approve-proposal", name) s ≡ false) (proposal_key-round s)
          (ground (arith, h));
    idempotency =
        subst (λ name. is_consumed ("approve-idempotency", name) s ≡ false) idempotency_text-name
          (ground (arith, h));
  }

  not_consumed-IsNew :
      (s : List ConsumptionKey)
      → IsNew s
      → any_consumed (approve_keys primitives s proposal a) s ≡ false
  unfolding any_consumed approve_keys
  not_consumed-IsNew s n =
      rw (proposal_key-round s, idempotency_text-name, n.fact, n.round, n.idempotency) refl

  -- `approve` grants exactly the authorized approvals whose fact, round of the proposal and
  -- idempotency key of the device are not consumed.
  pub approve_exact :
      (s : List ConsumptionKey)
      → ((approve primitives registry matrix now proposal a s).1 ≡ ok ProposalState.approved)
        ↔ (Authorized primitives registry matrix now proposal a × IsNew s)
  unfolding approve consume
  approve_exact s = (
    (λ h. (
      approve-Authorized primitives registry matrix now proposal a s ProposalState.approved h,
      IsNew-not_consumed s (
          claim-new (approve_keys primitives s proposal a) ProposalState.approved
            (then_check (unless_all (approve_tests primitives proposal a))
              (validate_approval primitives registry now proposal a matrix))
            s h),
    )),
    (λ (h, new). rw (Authorized-checked h, not_consumed-IsNew s new)),
  )
