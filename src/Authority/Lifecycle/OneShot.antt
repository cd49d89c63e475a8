-- ===== src/Authority/Lifecycle/OneShot.antt =====
-- authority.py: the methods of `ProposalLifecycle`, called in any order on one consumption store.
use personal_secretary.Prelude.{
  ◌≡◌, refl, ap, ◌∙◌, ◌⊎◌, inl, inr, Bool, true, false, Option, List, [], ◌∷◌, All, Pairwise,
  if◌then◌else◌,
}
use personal_secretary.Prelude.Int.{ℤ}
use personal_secretary.Prelude.Results.{Result, err, ok}
use personal_secretary.Authority.Devices.{DeviceRegistry}
use personal_secretary.Authority.Matrix.{ApprovalMatrix}
use personal_secretary.Authority.Consumption.{ConsumptionKey, any_consumed, update}
use personal_secretary.Authority.Facts.{
  ProposalState, ProposalRecord, Approval, CapabilityLease, Rollback, Reconciliation, Primitives,
  PolicyViolation,
}
use personal_secretary.Authority.Lifecycle.{
  claim, approve_keys, approve, apply, revert, reconcile, reset_keys, reset,
}
use personal_secretary.Authority.Lifecycle.Claims.{
  AllConsumed, AllConsumed-update, update-AllConsumed, Disjoint, any_consumed-AllConsumed,
  claim-cases,
}

-- A call of a method, with the registry, the matrix and the time at which it runs.
pub data Call : Type 0 where
  approve_call : DeviceRegistry → ApprovalMatrix → ℤ → ProposalRecord → Approval → Call
  apply_call : ℤ → ProposalRecord → CapabilityLease → Call
  revert_call : ℤ → ProposalRecord → Rollback → Call
  reconcile_call : ℤ → ProposalRecord → Reconciliation → Call
  reset_call : DeviceRegistry → ApprovalMatrix → Bool → ℤ → ProposalRecord → Approval → Call

abbrev pub is_ok : Result PolicyViolation ProposalState → Bool
is_ok (err reason) = false
is_ok (ok state) = true

module _ (primitives : Primitives) where
  unfoldable pub perform :
      Call → List ConsumptionKey → List ConsumptionKey × Result PolicyViolation ProposalState
  perform (Call.approve_call registry matrix now proposal a) =
      approve primitives registry matrix now proposal a
  perform (Call.apply_call now proposal lease) = apply primitives now proposal lease
  perform (Call.revert_call now proposal rollback) = revert primitives now proposal rollback
  perform (Call.reconcile_call now proposal r) = reconcile primitives now proposal r
  perform (Call.reset_call registry matrix verified now proposal r) =
      reset primitives registry matrix verified now proposal r

  -- The keys that a call claims.
  unfoldable pub keys_of : Call → List ConsumptionKey → List ConsumptionKey
  keys_of (Call.approve_call registry matrix now proposal a) s =
      approve_keys primitives s proposal a
  keys_of (Call.apply_call now proposal lease) s = ("apply", lease.fact.fact_id) ∷ []
  keys_of (Call.revert_call now proposal rollback) s = ("revert", rollback.fact.fact_id) ∷ []
  keys_of (Call.reconcile_call now proposal r) s = ("reconcile", r.fact.fact_id) ∷ []
  keys_of (Call.reset_call registry matrix verified now proposal r) s =
      reset_keys primitives proposal r

  -- The keys of each call that succeeds, in the order of the calls.
  unfoldable pub granted_keys : List ConsumptionKey → List Call → List (List ConsumptionKey)
  granted_keys s [] = []
  granted_keys s (call ∷ rest) =
      let (after, outcome) = perform call s in
      let later = granted_keys after rest in if is_ok outcome then keys_of call s ∷ later else later

  record Succeeds (call : Call) (s : List ConsumptionKey) : Type 0 where
    new : any_consumed (keys_of call s) s ≡ false
    after : (perform call s).0 ≡ update (keys_of call s) s
    said : is_ok (perform call s).1 ≡ true

  record Fails (call : Call) (s : List ConsumptionKey) : Type 0 where
    after : (perform call s).0 ≡ s
    said : is_ok (perform call s).1 ≡ false

  by_claim :
      (call : Call) (s : List ConsumptionKey) (state : ProposalState)
      (check : Option PolicyViolation)
      → perform call s ≡ claim (keys_of call s) state check s
      → Succeeds call s ⊎ Fails call s
  by_claim call s state check e = elim (claim-cases (keys_of call s) state check s) [
    | inl g ↦ inl (record {
      new = g.new;
      after = ap (λ x. x.0) (e ∙ g.outcome);
      said = ap (λ x. is_ok x.1) (e ∙ g.outcome);
    })
    | inr r ↦ inr (record {
      after = ap (λ x. x.0) (e ∙ r.outcome);
      said = ap (λ x. is_ok x.1) (e ∙ r.outcome);
    })
  ]

  perform-cases : (call : Call) (s : List ConsumptionKey) → Succeeds call s ⊎ Fails call s
  unfolding perform keys_of approve apply revert reconcile reset
  perform-cases (Call.approve_call registry matrix now proposal a) s =
      by_claim (Call.approve_call registry matrix now proposal a) s _ _ refl
  perform-cases (Call.apply_call now proposal lease) s =
      by_claim (Call.apply_call now proposal lease) s _ _ refl
  perform-cases (Call.revert_call now proposal rollback) s =
      by_claim (Call.revert_call now proposal rollback) s _ _ refl
  perform-cases (Call.reconcile_call now proposal r) s =
      by_claim (Call.reconcile_call now proposal r) s _ _ refl
  perform-cases (Call.reset_call registry matrix verified now proposal r) s =
      by_claim (Call.reset_call registry matrix verified now proposal r) s _ _ refl

  granted_keys-Succeeds :
      (s : List ConsumptionKey) (call : Call) (rest : List Call)
      → Succeeds call s
      → granted_keys s (call ∷ rest)
        ≡ keys_of call s ∷ granted_keys (update (keys_of call s) s) rest
  unfolding granted_keys
  granted_keys-Succeeds s call rest h = rw (h.said, h.after)

  granted_keys-Fails :
      (s : List ConsumptionKey) (call : Call) (rest : List Call)
      → Fails call s
      → granted_keys s (call ∷ rest) ≡ granted_keys s rest
  unfolding granted_keys
  granted_keys-Fails s call rest h = rw (h.said, h.after)

  later-Disjoint :
      (ks s : List ConsumptionKey) (calls : List Call)
      → AllConsumed ks s
      → All (Disjoint ks) (granted_keys s calls)
  unfolding granted_keys
  later-Disjoint ks s [] h = tt
  later-Disjoint ks s (call ∷ rest) h = elim (perform-cases call s) [
    | inl y ↦ rw (granted_keys-Succeeds s call rest y) (
      any_consumed-AllConsumed (keys_of call s) ks s h y.new,
      later-Disjoint ks (update (keys_of call s) s) rest
          (AllConsumed-update ks (keys_of call s) s h),
    )
    | inr n ↦ rw (granted_keys-Fails s call rest n) (later-Disjoint ks s rest h)
  ]

  -- Whatever methods are called, in any order and from any store, no two calls that succeed claim a
  -- common key.
  pub granted_keys-Disjoint :
      (s : List ConsumptionKey) (calls : List Call) → Pairwise Disjoint (granted_keys s calls)
  unfolding granted_keys
  granted_keys-Disjoint s [] = tt
  granted_keys-Disjoint s (call ∷ rest) = elim (perform-cases call s) [
    | inl y ↦ rw (granted_keys-Succeeds s call rest y) (
      later-Disjoint (keys_of call s) (update (keys_of call s) s) rest
          (update-AllConsumed (keys_of call s) s),
      granted_keys-Disjoint (update (keys_of call s) s) rest,
    )
    | inr n ↦ rw (granted_keys-Fails s call rest n) (granted_keys-Disjoint s rest)
  ]
