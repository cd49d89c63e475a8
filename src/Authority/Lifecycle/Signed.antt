-- ===== src/Authority/Lifecycle/Signed.antt =====
-- authority.py: what an approval needs, and which actions need a device's signature.
use mathlib.Core.Path.{subst}
use personal_secretary.Prelude.{
  ◌≡◌, refl, ap, ◌⊎◌, inl, inr, String, Bool, true, false, not, ◌&&◌, Option, none, some, List, [],
  ◌∷◌, arith, str_eq, Bool-cases, Option-cases, find, any, all, ◌||◌,
}
use personal_secretary.Prelude.Int.{ℤ, ltb_ℤ, leb_ℤ}
use personal_secretary.Prelude.Results.{Result, err, ok}
use personal_secretary.Authority.Devices.{
  Device, is_enrolled, DeviceError, DeviceRegistry, device, require_active_device, require_found,
}
use personal_secretary.Authority.Matrix.{
  AuthorityTier, ApprovalProof, ApprovalRule, ApprovalMatrix, rule_for, required_tier, tier_of,
  can_approve, approve_decision, unknown_action, decide, is_allowed_proof, proof_eq,
  default_approval_matrix,
}
use personal_secretary.Authority.Consumption.{ConsumptionKey}
use personal_secretary.Authority.Facts.{
  ProposalState, ProposalRecord, Approval, Primitives, is_proposed, signing_bytes,
}
use personal_secretary.Authority.Lifecycle.{
  approve_keys, approve, then_check, unless_all, validate_approval, verify_device_signature,
  check_device, check_proof, check_signature, approve_tests, validation_tests, check_key, is_reset,
}
use personal_secretary.Authority.Lifecycle.Transitions.{claim-ok, then_check-both, unless_all-All}

-- What makes the device's proof: an enrolled device whose key verifies the approval's fields.
pub record SignedBy (primitives : Primitives) (registry : DeviceRegistry) (action_class : String)
    (a : Approval) : Type 0 where
  pub signer : Device
  pub signer_id : String
  pub key : String
  pub named : a.device_id ≡ some signer_id
  pub found : device registry signer_id ≡ some signer
  pub enrolled : is_enrolled signer.state ≡ true
  pub has_key : signer.approval_public_key ≡ some key
  pub verified : primitives.verify key a.signature (signing_bytes a action_class) ≡ true

Result-cases :
    {A : Type 0} (r : Result DeviceError A)
    → ((e : DeviceError) × (r ≡ err e)) ⊎ ((d : A) × (r ≡ ok d))
Result-cases (err e) = inl (e, refl)
Result-cases (ok d) = inr (d, refl)

require_found-ok :
    (k : String) (o : Option Device) (d : Device)
    → require_found k o ≡ ok d
    → (o ≡ some d) × (is_enrolled d.state ≡ true)
require_found-ok k none d h = ground arith
require_found-ok k (some e) d h = elim (Bool-cases (is_enrolled e.state)) [
  | inl on ↦ let same : e ≡ d = ground (arith, on, h) in (ap some same, (rw same at on))
  | inr off ↦ ground (arith, off, h)
]

module _ (primitives : Primitives) (proposal : ProposalRecord) (a : Approval) where
  check_key-verified :
      (o : Option String)
      → check_key primitives proposal a o ≡ none
      → (key : String) × ((o ≡ some key)
          × (primitives.verify key a.signature (signing_bytes a proposal.action_class) ≡ true))
  check_key-verified none h = ground arith
  check_key-verified (some key) h = (key, (refl, ground arith))

  verify_device_signature-SignedBy :
      (registry : DeviceRegistry)
      → verify_device_signature primitives registry proposal a ≡ none
      → SignedBy primitives registry proposal.action_class a
  unfolding verify_device_signature require_active_device
  verify_device_signature-SignedBy registry h = elim (Option-cases a.device_id) [
    | inl e ↦ ground (arith, subst (λ o. check_device primitives registry proposal a o ≡ none) e h)
    | inr (k, e) ↦
        let h₁ : check_signature primitives proposal a (require_active_device registry k) ≡ none =
          subst (λ o. check_device primitives registry proposal a o ≡ none) e h in
        elim (Result-cases (require_active_device registry k)) [
          | inl (v, f) ↦ ground (arith, (rw f at h₁))
          | inr (d, f) ↦
              let (key, (has_key, verified)) =
                check_key-verified d.approval_public_key (rw f at h₁) in
              let (found, enrolled) = require_found-ok k (device registry k) d f in
              record {
                signer = d;
                signer_id = k;
                key = key;
                named = e;
                found = found;
                enrolled = enrolled;
                has_key = has_key;
                verified = verified;
              }
        ]
  ]

-- What holds when `approve` succeeds.
pub record Authorized (primitives : Primitives) (registry : DeviceRegistry)
    (matrix : ApprovalMatrix) (now : ℤ) (proposal : ProposalRecord) (a : Approval) : Type 0 where
  pub proposed : is_proposed proposal.state ≡ true
  pub ordinary : is_reset a.approval_class ≡ false
  pub allowed : (can_approve matrix proposal.action_class a.proof).allowed ≡ true
  pub ours : str_eq a.fact.proposal_id proposal.proposal_id ≡ true
  pub bound : str_eq a.fact.payload_hash (primitives.sha256 proposal.payload) ≡ true
  pub unexpired : ltb_ℤ now a.fact.expires_at ≡ true
  pub issued : leb_ℤ a.fact.issued_at now ≡ true
  pub signed :
      a.proof ≡ ApprovalProof.device_signed → SignedBy primitives registry proposal.action_class a

module _ (primitives : Primitives) (registry : DeviceRegistry) (matrix : ApprovalMatrix) (now : ℤ)
    (proposal : ProposalRecord) (a : Approval) where
  -- An approval succeeds only for a proposed proposal, with an ordinary approval that the matrix
  -- allows, that names the proposal and the hash of its payload, that is issued and not expired, and
  -- that, if it claims a device's signature, is signed by an enrolled device's key.
  pub approve-Authorized :
      (s : List ConsumptionKey) (state : ProposalState)
      → (approve primitives registry matrix now proposal a s).1 ≡ ok state
      → Authorized primitives registry matrix now proposal a
  unfolding approve validate_approval
  approve-Authorized s state h =
      let passed =
        (claim-ok (approve_keys primitives s proposal a) ProposalState.approved
          (then_check (unless_all (approve_tests primitives proposal a))
            (validate_approval primitives registry now proposal a matrix))
          s state h).0 in
      let (start, valid) =
        then_check-both (unless_all (approve_tests primitives proposal a))
          (validate_approval primitives registry now proposal a matrix) passed in
      let first = unless_all-All (approve_tests primitives proposal a) start in
      let tried = validation_tests primitives now proposal a matrix in
      let (fine, proof) =
        then_check-both (unless_all tried) (check_proof primitives registry proposal a a.proof)
          valid in
      let tests = unless_all-All tried fine in
      record {
        proposed = first.0;
        ordinary = ground (arith, first.1.0);
        allowed = tests.0;
        ours = tests.1.0;
        bound = tests.1.1.0;
        unexpired = tests.1.1.1.0;
        issued = ground (arith, tests.1.1.1.1.0);
        signed = λ e.
            verify_device_signature-SignedBy primitives proposal a registry
              (subst (λ p. check_proof primitives registry proposal a p ≡ none) e proof);
      }

-- A rule of a consequential tier asks for a device's signature and nothing else.
unfoldable pub is_consequential : Result String AuthorityTier → Bool
is_consequential (err action_class) = false
is_consequential (ok AuthorityTier.observe) = false
is_consequential (ok AuthorityTier.recommend) = false
is_consequential (ok AuthorityTier.act) = true
is_consequential (ok AuthorityTier.external) = true

unfoldable only_signed : List ApprovalProof → Bool
only_signed (ApprovalProof.device_signed ∷ []) = true
only_signed _ = false

unfoldable needs_signature : ApprovalRule → Bool
needs_signature rule =
    not (is_consequential (ok rule.required_tier))
    || (rule.proof_required && only_signed rule.allowed_proofs)

find-all :
    (test check : ApprovalRule → Bool) (rules : List ApprovalRule) (rule : ApprovalRule)
    → all check rules ≡ true
    → find test rules ≡ some rule
    → check rule ≡ true
unfolding find all
find-all test check [] rule h e = ground arith
find-all test check (r ∷ rs) rule h e = elim (Bool-cases (test r)) [
  | inl hit ↦
      let same : r ≡ rule = ground (arith, hit, e) in
      subst (λ x. check x ≡ true) same (ground (arith, h))
  | inr missed ↦ find-all test check rs rule (ground (arith, h)) (ground (arith, missed, e))
]

only_signed-allowed :
    (proof : ApprovalProof) (proofs : List ApprovalProof)
    → only_signed proofs ≡ true
    → is_allowed_proof proof proofs ≡ true
    → proof ≡ ApprovalProof.device_signed
unfolding only_signed is_allowed_proof proof_eq any
only_signed-allowed ApprovalProof.device_signed (ApprovalProof.device_signed ∷ []) h e = refl
only_signed-allowed ApprovalProof.voice (ApprovalProof.device_signed ∷ []) h e = ground (arith, e)
only_signed-allowed ApprovalProof.no_proof (ApprovalProof.device_signed ∷ []) h e =
    ground (arith, e)
only_signed-allowed proof [] h e = ground (arith, h)
only_signed-allowed proof (ApprovalProof.device_signed ∷ p ∷ ps) h e = ground (arith, h)
only_signed-allowed proof (ApprovalProof.voice ∷ ps) h e = ground (arith, h)
only_signed-allowed proof (ApprovalProof.no_proof ∷ ps) h e = ground (arith, h)

decided_signed :
    (action_class : String) (proof : ApprovalProof) (o : Option ApprovalRule)
    → ((rule : ApprovalRule) → o ≡ some rule → needs_signature rule ≡ true)
    → is_consequential (tier_of action_class o) ≡ true
    → (approve_decision action_class proof o).allowed ≡ true
    → proof ≡ ApprovalProof.device_signed
unfolding needs_signature decide unknown_action
decided_signed action_class proof none h c e = ground (arith, e)
decided_signed action_class proof (some rule) h c e =
    only_signed-allowed proof rule.allowed_proofs (ground (arith, h rule refl, c))
      (ground (arith, h rule refl, c, e))

all_need : all needs_signature default_approval_matrix ≡ true
unfolding needs_signature is_consequential only_signed all
all_need = refl

default_matrix_signed :
    (action_class : String) (proof : ApprovalProof)
    → is_consequential (required_tier default_approval_matrix action_class) ≡ true
    → (can_approve default_approval_matrix action_class proof).allowed ≡ true
    → proof ≡ ApprovalProof.device_signed
unfolding required_tier can_approve rule_for
default_matrix_signed action_class proof =
    decided_signed action_class proof (rule_for default_approval_matrix action_class) (λ rule.
      find-all (λ r. str_eq r.action_class action_class) needs_signature default_approval_matrix
        rule all_need)

-- Under the default matrix, `approve` succeeds on an action of the tier ACT or EXTERNAL only with a
-- proof by device signature that the key of an enrolled device verifies.
pub approve_consequential :
    (primitives : Primitives) (registry : DeviceRegistry) (now : ℤ) (proposal : ProposalRecord)
    (a : Approval) (s : List ConsumptionKey) (state : ProposalState)
    → is_consequential (required_tier default_approval_matrix proposal.action_class) ≡ true
    → (approve primitives registry default_approval_matrix now proposal a s).1 ≡ ok state
    → (a.proof ≡ ApprovalProof.device_signed) × SignedBy primitives registry proposal.action_class a
approve_consequential primitives registry now proposal a s state c h =
    let authorized =
      approve-Authorized primitives registry default_approval_matrix now proposal a s state h in
    let by_device = default_matrix_signed proposal.action_class a.proof c authorized.allowed in
    (by_device, authorized.signed by_device)
