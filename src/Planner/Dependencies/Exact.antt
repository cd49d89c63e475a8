-- ===== src/Planner/Dependencies/Exact.antt =====
-- planner_placement.py: the ids that `invalid_dependencies` reports, described on the placements alone.
use mathlib.Core.List.{foldl}
use mathlib.Core.Path.{subst}
use personal_secretary.Prelude.{
  ◌≡◌, ◌≢◌, ◌↔◌, ◌⊎◌, ◌&&◌, ◌||◌, refl, sym, ap, ◌∙◌, inl, inr, Bool, true, Bool-cases, Option,
  none, some, List, [], ◌∷◌, ◌++◌, arith, String, if◌then◌else◌, map, All, any, keep, contains,
  str_eq, eq_iff,
}
use personal_secretary.Prelude.Int.{◌≤ℤ◌, ltb_ℤ}
use personal_secretary.Sets.{set_add, set_of}
use personal_secretary.Planner.Reservation.{Placement, activity_id}
use personal_secretary.Planner.Dependencies.{placement_of, unmet, broken, invalid_dependencies}
use personal_secretary.Planner.Dependencies.Met.{Met-of_unmet}

module _ {A : Type 0} where
  -- Some item of the list has the property.
  abbrev pub Exists : (A → Type 0) → List A → Type 0
  Exists P [] = ⊥
  Exists P (x ∷ xs) = P x ⊎ Exists P xs

  Exists-weaken :
      (P Q : A → Type 0) → ((x : A) → P x → Q x) → (xs : List A) → Exists P xs → Exists Q xs
  Exists-weaken P Q h [] e = absurd e
  Exists-weaken P Q h (x ∷ xs) (inl e) = inl (h x e)
  Exists-weaken P Q h (x ∷ xs) (inr e) = inr (Exists-weaken P Q h xs e)

  any-Exists : (test : A → Bool) (xs : List A) → any test xs ≡ true → Exists (λ x. test x ≡ true) xs
  unfolding any
  any-Exists test [] h = absurd (ground (arith, h))
  any-Exists test (x ∷ xs) h = elim (Bool-cases (test x)) [
    | inl e ↦ inl e
    | inr e ↦ inr (any-Exists test xs (ground (arith, h, e)))
  ]

  Exists-any : (test : A → Bool) (xs : List A) → Exists (λ x. test x ≡ true) xs → any test xs ≡ true
  unfolding any
  Exists-any test [] e = absurd e
  Exists-any test (x ∷ xs) (inl e) = rw e refl
  Exists-any test (x ∷ xs) (inr e) = ground (arith, Exists-any test xs e)

  contains-map-keep :
      (name : A → String) (test : A → Bool) (k : String) (xs : List A)
      → contains k (map name (keep test xs)) ≡ any (λ x. str_eq (name x) k && test x) xs
  unfolding contains keep any
  contains-map-keep name test k [] = refl
  contains-map-keep name test k (x ∷ xs) = elim (Bool-cases (test x)) [
    | inl e ↦ rw e (ground (arith, contains-map-keep name test k xs))
    | inr e ↦ rw e (ground (arith, contains-map-keep name test k xs))
  ]

contains-append_one :
    (k x : String) (s : List String) → contains k (s ++ x ∷ []) ≡ contains k s || str_eq x k
unfolding contains
contains-append_one k x [] = ground arith
contains-append_one k x (y ∷ s) = ground (arith, contains-append_one k x s)

contains-set_add :
    (k x : String) (s : List String) → contains k (set_add x s) ≡ contains k s || str_eq x k
unfolding set_add
contains-set_add k x s = elim (Bool-cases (contains x s)) [
  | inl e ↦ rw e (elim (Bool-cases (str_eq x k)) [
    | inl f ↦ rw f (ground (arith, ap (λ y. contains y s) (sym ((eq_iff x k).0 f)) ∙ e))
    | inr f ↦ rw f (ground arith)
  ])
  | inr e ↦ rw e (contains-append_one k x s)
]

contains-fold :
    (k : String) (xs s : List String)
    → contains k (foldl (λ s k. set_add k s) s xs) ≡ contains k s || contains k xs
unfolding contains
contains-fold k [] s = ground arith
contains-fold k (x ∷ xs) s =
    contains-fold k xs (set_add x s) ∙ rw (contains-set_add k x s) (ground arith)

-- The last placement of an activity.
abbrev pub LastOf : String → List Placement → Placement → Type 0
LastOf d [] q = ⊥
LastOf d (p ∷ ps) q =
    LastOf d ps q ⊎ ((activity_id p ≡ d) × All (λ r. activity_id r ≢ d) ps × (p ≡ q))

absent-none :
    (d : String) (ps : List Placement) → All (λ r. activity_id r ≢ d) ps → placement_of d ps ≡ none
unfolding placement_of
absent-none d [] h = refl
absent-none d (p ∷ ps) h = elim (Bool-cases (str_eq (activity_id p) d)) [
  | inl e ↦ absurd (h.0 ((eq_iff (activity_id p) d).0 e))
  | inr e ↦ rw (absent-none d ps h.1, e) refl
]

LastOf-found :
    (d : String) (ps : List Placement) (q : Placement) → LastOf d ps q → placement_of d ps ≡ some q
unfolding placement_of
LastOf-found d [] q h = absurd h
LastOf-found d (p ∷ ps) q (inl h) = rw (LastOf-found d ps q h) refl
LastOf-found d (p ∷ ps) q (inr (named, absent, same)) =
    rw (absent-none d ps absent, (eq_iff (activity_id p) d).1 named, same) refl

module _ (d : String) where
  abbrev Found : List Placement → Option Placement → Type 0
  Found ps none = All (λ r. activity_id r ≢ d) ps
  Found ps (some q) = LastOf d ps q

  Found-cons :
      (p : Placement) (ps : List Placement) (o : Option Placement)
      → Found ps o
      → Found
          (p ∷ ps)
          (elim o [ none ↦ (if str_eq (activity_id p) d then some p else none) | some q ↦ some q ])
  Found-cons p ps none h = elim (Bool-cases (str_eq (activity_id p) d)) [
    | inl e ↦ rw e (inr ((eq_iff (activity_id p) d).0 e, h, refl))
    | inr e ↦ rw e ((λ same. absurd (cc ((eq_iff (activity_id p) d).1 same, e))), h)
  ]
  Found-cons p ps (some q) h = inl h

  placement_of-Found : (ps : List Placement) → Found ps (placement_of d ps)
  unfolding placement_of
  placement_of-Found [] = tt
  placement_of-Found (p ∷ ps) = Found-cons p ps (placement_of d ps) (placement_of-Found ps)

-- The prerequisite is placed, and its last placement ends before the placement `p` starts.
abbrev pub Ready : List Placement → Placement → String → Type 0
Ready ps p d = (q : Placement) × LastOf d ps q × (q.ends_at ≤ℤ p.starts_at)

-- A placement of the activity has a prerequisite that is not ready.
abbrev pub Reported : List Placement → String → Type 0
Reported ps k =
    Exists (λ p. (activity_id p ≡ k) × Exists (λ d. ¬ Ready ps p d) p.activity.dependencies) ps

unmet-Ready :
    (ps : List Placement) (p : Placement) (d : String) → unmet ps p d ≡ true → ¬ Ready ps p d
unfolding unmet
unmet-Ready ps p d h (q, last, ends) =
    let late : ltb_ℤ p.starts_at q.ends_at ≡ true =
      subst (λ o. elim o [ none ↦ true | some q ↦ ltb_ℤ p.starts_at q.ends_at ] ≡ true)
        (LastOf-found d ps q last) h in
    ground (arith, late, ends)

Ready-unmet :
    (ps : List Placement) (p : Placement) (d : String) → ¬ Ready ps p d → unmet ps p d ≡ true
Ready-unmet ps p d h = elim (Bool-cases (unmet ps p d)) [
  | inl e ↦ e
  | inr e ↦
      let (q, found, ends) = Met-of_unmet ps p d e in
      absurd (h (q, subst (Found d ps) found (placement_of-Found d ps), ends))
]

invalid_dependencies-any :
    (ps : List Placement) (k : String)
    → contains k (invalid_dependencies ps) ≡ any (λ p. str_eq (activity_id p) k && broken ps p) ps
unfolding invalid_dependencies set_of contains
invalid_dependencies-any ps k =
    contains-fold k (map activity_id (keep (broken ps) ps)) []
    ∙ contains-map-keep activity_id (broken ps) k ps

-- `invalid_dependencies` reports exactly the ids of the placements that have a prerequisite which is not
-- placed, or whose last placement ends after they start.
pub invalid_dependencies_exact :
    (ps : List Placement) (k : String)
    → (contains k (invalid_dependencies ps) ≡ true) ↔ Reported ps k
unfolding broken
invalid_dependencies_exact ps k = (
  λ h.
      Exists-weaken _ _
        (λ p b. (
          (eq_iff (activity_id p) k).0 (ground (arith, b)),
          Exists-weaken _ _ (unmet-Ready ps p) p.activity.dependencies
              (any-Exists (unmet ps p) p.activity.dependencies (ground (arith, b))),
        ))
        ps (any-Exists _ ps (sym (invalid_dependencies-any ps k) ∙ h)),
  λ r.
      invalid_dependencies-any ps k
      ∙ Exists-any _ ps (
          Exists-weaken _ _
            (λ p b.
              let named = (eq_iff (activity_id p) k).1 b.0 in
              let some_unmet =
                Exists-any (unmet ps p) p.activity.dependencies
                  (Exists-weaken _ _ (Ready-unmet ps p) p.activity.dependencies b.1) in
              ground (arith, named, some_unmet))
            ps r),
)
