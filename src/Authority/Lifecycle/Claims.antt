-- ===== src/Authority/Lifecycle/Claims.antt =====
-- authority_consumption.py: what claiming keys leaves in the store.
use personal_secretary.Prelude.{
  ◌≡◌, refl, ◌⊎◌, inl, inr, true, false, Option, none, some, List, [], ◌∷◌, eq_iff, if◌then◌else◌,
  arith, Bool-cases, All,
}
use personal_secretary.Prelude.Results.{err, ok}
use personal_secretary.Authority.Consumption.{
  ConsumptionKey, key_eq, is_consumed, any_consumed, update, consume,
}
use personal_secretary.Authority.Facts.{ProposalState, PolicyViolation}
use personal_secretary.Authority.Lifecycle.{claim}

key_eq-eq : (k l : ConsumptionKey) → key_eq k l ≡ true → k ≡ l
key_eq-eq (a, b) (c, d) h = rw ((eq_iff a c).0 (ground arith), (eq_iff b d).0 (ground arith))

key_eq_refl : (k : ConsumptionKey) → key_eq k k ≡ true
key_eq_refl (a, b) = rw ((eq_iff a a).1 refl, (eq_iff b b).1 refl)

pub is_consumed_first :
    (k : ConsumptionKey) (s : List ConsumptionKey) → is_consumed k (k ∷ s) ≡ true
unfolding is_consumed
is_consumed_first k s = rw (key_eq_refl k)

pub is_consumed-update :
    (k : ConsumptionKey) (ks s : List ConsumptionKey)
    → is_consumed k s ≡ true
    → is_consumed k (update ks s) ≡ true
unfolding update is_consumed
is_consumed-update k [] s h = h
is_consumed-update k (l ∷ ls) s h = is_consumed-update k ls _ (ground (arith, h))

-- Every key is in the store.
abbrev pub AllConsumed : List ConsumptionKey → List ConsumptionKey → Type 0
AllConsumed ks s = All (λ k. is_consumed k s ≡ true) ks

pub AllConsumed-update :
    (ks ls s : List ConsumptionKey) → AllConsumed ks s → AllConsumed ks (update ls s)
AllConsumed-update [] ls s h = tt
AllConsumed-update (k ∷ ks) ls s h = (is_consumed-update k ls s h.0, AllConsumed-update ks ls s h.1)

first_consumed :
    (k : ConsumptionKey) (s : List ConsumptionKey)
    → is_consumed k (if is_consumed k s then s else k ∷ s) ≡ true
first_consumed k s = elim (Bool-cases (is_consumed k s)) [
  | inl e ↦ rw e e
  | inr e ↦ rw e (is_consumed_first k s)
]

pub update-AllConsumed : (ks s : List ConsumptionKey) → AllConsumed ks (update ks s)
unfolding update
update-AllConsumed [] s = tt
update-AllConsumed (k ∷ ks) s =
    (is_consumed-update k ks _ (first_consumed k s), update-AllConsumed ks _)

-- No key of the second list is in the first.
abbrev pub Disjoint : List ConsumptionKey → List ConsumptionKey → Type 0
Disjoint ks ls = any_consumed ls ks ≡ false

is_consumed-AllConsumed :
    (l : ConsumptionKey) (ks s : List ConsumptionKey)
    → AllConsumed ks s
    → is_consumed l s ≡ false
    → is_consumed l ks ≡ false
unfolding is_consumed
is_consumed-AllConsumed l [] s h e = refl
is_consumed-AllConsumed l (k ∷ ks) s h e =
    let rest = is_consumed-AllConsumed l ks s h.1 e in
    elim (Bool-cases (key_eq k l)) [
      | inl same ↦
          let seen : is_consumed l s ≡ true = (rw (key_eq-eq k l same) at (h.0)) in
          ground (arith, seen, e)
      | inr differs ↦ rw (differs, rest)
    ]

pub any_consumed-AllConsumed :
    (ls ks s : List ConsumptionKey) → AllConsumed ks s → any_consumed ls s ≡ false → Disjoint ks ls
unfolding any_consumed
any_consumed-AllConsumed [] ks s h e = refl
any_consumed-AllConsumed (l ∷ ls) ks s h e =
    let first = is_consumed-AllConsumed l ks s h (ground (arith, e)) in
    let rest = any_consumed-AllConsumed ls ks s h (ground (arith, e)) in rw (first, rest)

-- What `claim` did: it recorded new keys after passing the checks, or it left the store.
pub record Granted (keys : List ConsumptionKey) (state : ProposalState)
    (check : Option PolicyViolation) (s : List ConsumptionKey) : Type 0 where
  pub passed : check ≡ none
  pub new : any_consumed keys s ≡ false
  pub outcome : claim keys state check s ≡ (update keys s, ok state)

pub record Refused (keys : List ConsumptionKey) (state : ProposalState)
    (check : Option PolicyViolation) (s : List ConsumptionKey) : Type 0 where
  pub reason : PolicyViolation
  pub outcome : claim keys state check s ≡ (s, err reason)

pub claim-cases :
    (keys : List ConsumptionKey) (state : ProposalState) (check : Option PolicyViolation)
    (s : List ConsumptionKey)
    → Granted keys state check s ⊎ Refused keys state check s
unfolding consume
claim-cases keys state (some reason) s = inr (record { reason = reason; outcome = refl })
claim-cases keys state none s = elim (Bool-cases (any_consumed keys s)) [
  | inl e ↦ inr (record { reason = PolicyViolation.replay; outcome = rw e })
  | inr e ↦ inl (record { passed = refl; new = e; outcome = rw e })
]
