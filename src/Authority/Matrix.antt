-- ===== src/Authority/Matrix.antt =====
-- authority.py: the tiers and the `ApprovalMatrix`.
use Prim.Native.String.{◌++◌ as text_append}
use personal_secretary.Prelude.{
  String, Bool, true, false, not, Option, none, some, List, [], ◌∷◌, any, find, str_eq,
  if◌then◌else◌,
}
use personal_secretary.Prelude.Results.{Result, err, ok}

pub data AuthorityTier : Type 0 where
  observe recommend act external : AuthorityTier

pub data InvocationMethod : Type 0 where
  iphone_ui voice text channel worker api : InvocationMethod

abbrev pub method_value : InvocationMethod → String
method_value InvocationMethod.iphone_ui = "iphone_ui"
method_value InvocationMethod.voice = "voice"
method_value InvocationMethod.text = "text"
method_value InvocationMethod.channel = "channel"
method_value InvocationMethod.worker = "worker"
method_value InvocationMethod.api = "api"

pub data ApprovalProof : Type 0 where
  no_proof device_signed voice : ApprovalProof

abbrev pub proof_value : ApprovalProof → String
proof_value ApprovalProof.no_proof = "none"
proof_value ApprovalProof.device_signed = "device_signed"
proof_value ApprovalProof.voice = "voice"

unfoldable pub proof_eq : ApprovalProof → ApprovalProof → Bool
proof_eq ApprovalProof.no_proof ApprovalProof.no_proof = true
proof_eq ApprovalProof.device_signed ApprovalProof.device_signed = true
proof_eq ApprovalProof.voice ApprovalProof.voice = true
proof_eq _ _ = false

pub record ApprovalRule : Type 0 where
  pub action_class : String
  pub required_tier : AuthorityTier
  pub proof_required : Bool
  pub allowed_proofs : List ApprovalProof

pub record PolicyDecision : Type 0 where
  pub allowed : Bool
  pub action_class : String
  pub required_tier : AuthorityTier
  pub reason : String

abbrev pub ApprovalMatrix : Type 0
ApprovalMatrix = List ApprovalRule

unfoldable pub rule_for : ApprovalMatrix → String → Option ApprovalRule
rule_for rules action_class = find (λ rule. str_eq rule.action_class action_class) rules

-- The error is `UnknownActionError`.
abbrev pub tier_of : String → Option ApprovalRule → Result String AuthorityTier
tier_of action_class none = err action_class
tier_of action_class (some rule) = ok rule.required_tier

unfoldable pub required_tier : ApprovalMatrix → String → Result String AuthorityTier
required_tier rules action_class = tier_of action_class (rule_for rules action_class)

unfoldable pub unknown_action : String → PolicyDecision
unknown_action action_class = record {
  allowed = false;
  action_class = action_class;
  required_tier = AuthorityTier.observe;
  reason = text_append "unknown action class: " action_class;
}

abbrev pub request_decision : String → InvocationMethod → Option ApprovalRule → PolicyDecision
request_decision action_class method none = unknown_action action_class
request_decision action_class method (some rule) = record {
  allowed = true;
  action_class = action_class;
  required_tier = rule.required_tier;
  reason = text_append (method_value method) " may request; approval proof still required";
}

unfoldable pub can_request : ApprovalMatrix → String → InvocationMethod → PolicyDecision
can_request rules action_class method =
    request_decision action_class method (rule_for rules action_class)

unfoldable pub join_proofs : List ApprovalProof → String
join_proofs [] = "none"
join_proofs (p ∷ []) = proof_value p
join_proofs (p ∷ q ∷ ps) = text_append (proof_value p) (text_append ", " (join_proofs (q ∷ ps)))

unfoldable pub is_allowed_proof : ApprovalProof → List ApprovalProof → Bool
is_allowed_proof proof = any (λ p. proof_eq p proof)

unfoldable pub decide : String → ApprovalRule → Bool → String → PolicyDecision
decide action_class rule allowed reason = record {
  allowed = allowed;
  action_class = action_class;
  required_tier = rule.required_tier;
  reason = reason;
}

unfoldable pub refusal : String → ApprovalProof → List ApprovalProof → String
refusal action_class proof allowed_proofs = text_append "proof " (
    text_append (proof_value proof) (
      text_append " cannot approve "
        (text_append action_class (text_append "; allowed proofs: " (join_proofs allowed_proofs)))))

unfoldable pub acceptance : String → ApprovalProof → String
acceptance action_class proof =
    text_append "proof "
      (text_append (proof_value proof) (text_append " accepted for " action_class))

abbrev pub approve_decision : String → ApprovalProof → Option ApprovalRule → PolicyDecision
approve_decision action_class proof none = unknown_action action_class
approve_decision action_class proof (some rule) =
    if not rule.proof_required
    then decide action_class rule true "no approval required for this tier"
    else if not (is_allowed_proof proof rule.allowed_proofs)
    then decide action_class rule false (refusal action_class proof rule.allowed_proofs)
    else decide action_class rule true (acceptance action_class proof)

unfoldable pub can_approve : ApprovalMatrix → String → ApprovalProof → PolicyDecision
can_approve rules action_class proof =
    approve_decision action_class proof (rule_for rules action_class)

abbrev free_rule : String → AuthorityTier → ApprovalRule
free_rule action_class tier = record {
  action_class = action_class;
  required_tier = tier;
  proof_required = false;
  allowed_proofs = [];
}

abbrev signed_rule : String → AuthorityTier → ApprovalRule
signed_rule action_class tier = record {
  action_class = action_class;
  required_tier = tier;
  proof_required = true;
  allowed_proofs = ApprovalProof.device_signed ∷ [];
}

abbrev pub default_approval_matrix : ApprovalMatrix
default_approval_matrix =
    free_rule "observe.report" AuthorityTier.observe
    ∷ free_rule "plan.recommend" AuthorityTier.recommend
    ∷ signed_rule "task.move" AuthorityTier.act
    ∷ signed_rule "calendar.apply" AuthorityTier.act
    ∷ signed_rule "calendar.revert" AuthorityTier.act
    ∷ signed_rule "message.send" AuthorityTier.external
    ∷ signed_rule "worker.execute" AuthorityTier.external
    ∷ []
