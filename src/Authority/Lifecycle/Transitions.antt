-- ===== src/Authority/Lifecycle/Transitions.antt =====
-- authority.py: which states of a proposal follow one another.
use mathlib.Core.Path.{subst}
use personal_secretary.Prelude.{
  ◌≡◌, refl, sym, ap, inl, inr, Bool, true, false, Option, none, some, List, [], ◌∷◌, arith, All,
}
use personal_secretary.Prelude.Results.{ok}
use personal_secretary.Authority.Consumption.{ConsumptionKey}
use personal_secretary.Authority.Facts.{
  ProposalState, ProposalRecord, Primitives, PolicyViolation, is_proposed, is_approved, is_applied,
}
use personal_secretary.Authority.Lifecycle.{
  claim, approve, apply, revert, reconcile, reset, then_check, unless_all, check_fact,
}
use personal_secretary.Authority.Lifecycle.Claims.{claim-cases}
use personal_secretary.Authority.Lifecycle.OneShot.{Call, perform}

-- The transitions of the lifecycle.
pub data Step : ProposalState → ProposalState → Type 0 where
  approves : Step ProposalState.proposed ProposalState.approved
  applies : Step ProposalState.approved ProposalState.applied
  resets : Step ProposalState.approved ProposalState.proposed
  reverts : Step ProposalState.applied ProposalState.reverted
  reconciles : Step ProposalState.applied ProposalState.reconciled

unfoldable pub proposal_of : Call → ProposalRecord
proposal_of (Call.approve_call registry matrix now proposal a) = proposal
proposal_of (Call.apply_call now proposal lease) = proposal
proposal_of (Call.revert_call now proposal rollback) = proposal
proposal_of (Call.reconcile_call now proposal r) = proposal
proposal_of (Call.reset_call registry matrix verified now proposal r) = proposal

is_proposed-eq : (s : ProposalState) → is_proposed s ≡ true → s ≡ ProposalState.proposed
is_proposed-eq ProposalState.proposed h = refl
is_proposed-eq _ h = ground (arith, h)

is_approved-eq : (s : ProposalState) → is_approved s ≡ true → s ≡ ProposalState.approved
is_approved-eq ProposalState.approved h = refl
is_approved-eq _ h = ground (arith, h)

is_applied-eq : (s : ProposalState) → is_applied s ≡ true → s ≡ ProposalState.applied
is_applied-eq ProposalState.applied h = refl
is_applied-eq _ h = ground (arith, h)

pub then_check-both :
    (first later : Option PolicyViolation)
    → then_check first later ≡ none
    → (first ≡ none) × (later ≡ none)
then_check-both none later h = (refl, h)
then_check-both (some v) later h = ground arith

pub unless_all-All :
    (checks : List (Bool × PolicyViolation))
    → unless_all checks ≡ none
    → All (λ c. c.0 ≡ true) checks
unfolding unless_all
unless_all-All [] h = tt
unless_all-All ((true, v) ∷ rest) h = (refl, unless_all-All rest h)
unless_all-All ((false, v) ∷ rest) h = ground arith

pub claim-ok :
    (keys : List ConsumptionKey) (state : ProposalState) (check : Option PolicyViolation)
    (s : List ConsumptionKey) (t : ProposalState)
    → (claim keys state check s).1 ≡ ok t
    → (check ≡ none) × (state ≡ t)
claim-ok keys state check s t h = elim (claim-cases keys state check s) [
  | inl g ↦ (g.passed, ground (arith, h, ap (λ x. x.1) g.outcome))
  | inr r ↦ ground (arith, h, ap (λ x. x.1) r.outcome)
]

from_proposed :
    (s : ProposalState)
    → is_proposed s ≡ true
    → (t : ProposalState) → Step ProposalState.proposed t
    → Step s t
from_proposed s h t step = subst (λ x. Step x t) (sym (is_proposed-eq s h)) step

from_approved :
    (s : ProposalState)
    → is_approved s ≡ true
    → (t : ProposalState) → Step ProposalState.approved t
    → Step s t
from_approved s h t step = subst (λ x. Step x t) (sym (is_approved-eq s h)) step

from_applied :
    (s : ProposalState)
    → is_applied s ≡ true
    → (t : ProposalState) → Step ProposalState.applied t
    → Step s t
from_applied s h t step = subst (λ x. Step x t) (sym (is_applied-eq s h)) step

moves :
    (before : ProposalState) (keys : List ConsumptionKey) (after : ProposalState)
    (check : Option PolicyViolation) (s : List ConsumptionKey) (state : ProposalState)
    → (claim keys after check s).1 ≡ ok state
    → (check ≡ none → Step before after)
    → Step before state
moves before keys after check s state h step =
    let (passed, same) = claim-ok keys after check s state h in
    subst (Step before) same (step passed)

-- A call that succeeds moves its proposal along a step of the lifecycle.
pub perform-Step :
    (primitives : Primitives) (call : Call) (s : List ConsumptionKey) (state : ProposalState)
    → (perform primitives call s).1 ≡ ok state
    → Step (proposal_of call).state state
unfolding check_fact perform proposal_of approve apply revert reconcile reset
perform-Step primitives (Call.approve_call registry matrix now proposal a) s state h =
    moves proposal.state _ _ _ s state h (λ p.
      from_proposed proposal.state (unless_all-All _ (then_check-both _ _ p).0).0 _ Step.approves)
perform-Step primitives (Call.apply_call now proposal lease) s state h =
    moves proposal.state _ _ _ s state h
      (λ p. from_approved proposal.state (unless_all-All _ p).0 _ Step.applies)
perform-Step primitives (Call.revert_call now proposal rollback) s state h =
    moves proposal.state _ _ _ s state h
      (λ p. from_applied proposal.state (unless_all-All _ p).0 _ Step.reverts)
perform-Step primitives (Call.reconcile_call now proposal r) s state h =
    moves proposal.state _ _ _ s state h
      (λ p. from_applied proposal.state (unless_all-All _ p).0 _ Step.reconciles)
perform-Step primitives (Call.reset_call registry matrix verified now proposal r) s state h =
    moves proposal.state _ _ _ s state h (λ p.
      from_approved proposal.state (unless_all-All _ (then_check-both _ _ p).0).0 _ Step.resets)
