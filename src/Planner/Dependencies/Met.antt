-- ===== src/Planner/Dependencies/Met.antt =====
-- planner_placement.py: what an empty result of `invalid_dependencies` says.
use mathlib.Core.List.{foldl}
use personal_secretary.Prelude.{
  ◌≡◌, ◌≢◌, refl, inl, inr, true, false, Bool-cases, Option, none, some, List, [], ◌∷◌, arith,
  String, map, All, All-weaken, any, keep, contains,
}
use personal_secretary.Prelude.Int.{◌≤ℤ◌, ltb_ℤ, ltb_ℤ→ge}
use personal_secretary.Sets.{set_add, set_of}
use personal_secretary.Planner.Reservation.{Placement, activity_id}
use personal_secretary.Planner.Dependencies.{placement_of, unmet, broken, invalid_dependencies}

set_add-ne : (k : String) (s : List String) → set_add k s ≢ []
unfolding set_add contains
set_add-ne k [] h = cc
set_add-ne k (x ∷ s) h = ground arith

set_of-nil : (xs s : List String) → foldl (λ s k. set_add k s) s xs ≡ [] → (s ≡ []) × (xs ≡ [])
set_of-nil [] s h = (h, refl)
set_of-nil (x ∷ xs) s h = absurd (set_add-ne x s (set_of-nil xs (set_add x s) h).0)

keep-nil {ℓ} :
    {A : Type ℓ} (test : A → _) (xs : List A) → keep test xs ≡ [] → All (λ x. test x ≡ false) xs
unfolding keep
keep-nil test [] h = tt
keep-nil test (x ∷ xs) h = elim (Bool-cases (test x)) [
  | inl e ↦ ground arith
  | inr e ↦ (e, keep-nil test xs (rw e at h))
]

any-All {ℓ} :
    {A : Type ℓ} (test : A → _) (xs : List A) → any test xs ≡ false → All (λ x. test x ≡ false) xs
unfolding any
any-All test [] h = tt
any-All test (x ∷ xs) h = (ground arith, any-All test xs (ground arith))

map-nil {ℓ} : {A : Type ℓ} (name : A → String) (xs : List A) → map name xs ≡ [] → xs ≡ []
map-nil name [] h = refl
map-nil name (x ∷ xs) h = cc

-- The prerequisite `d` of `p` is placed, and ends before `p` starts.
abbrev pub Met : List Placement → Placement → String → Type 0
Met ps p d = (q : Placement) × (placement_of d ps ≡ some q) × (q.ends_at ≤ℤ p.starts_at)

pub Met-of_unmet :
    (ps : List Placement) (p : Placement) (d : String) → unmet ps p d ≡ false → Met ps p d
unfolding unmet
Met-of_unmet ps p d h = by_placed (placement_of d ps) refl h
  where
    by_placed :
        (o : Option Placement)
        → placement_of d ps ≡ o
        → elim o [ none ↦ true | some q ↦ ltb_ℤ p.starts_at q.ends_at ] ≡ false
        → Met ps p d
    by_placed none e k = cc
    by_placed (some q) e k = (q, e, ltb_ℤ→ge p.starts_at q.ends_at k)

abbrev pub AllMet : List Placement → Type 0
AllMet ps = All (λ p. All (Met ps p) p.activity.dependencies) ps

-- Where `invalid_dependencies` reports nothing, each prerequisite of each placement is placed too,
-- and ends before the placement starts.
pub invalid_dependencies-AllMet : (ps : List Placement) → invalid_dependencies ps ≡ [] → AllMet ps
unfolding invalid_dependencies set_of broken
invalid_dependencies-AllMet ps h =
    let kept = keep (broken ps) ps in
    let none_broken : keep (broken ps) ps ≡ [] =
      map-nil activity_id kept (set_of-nil (map activity_id kept) [] h).1 in
    All-weaken (λ p. broken ps p ≡ false) (λ p. All (Met ps p) p.activity.dependencies) ps
      (λ p whole.
        All-weaken (λ d. unmet ps p d ≡ false) (Met ps p) p.activity.dependencies
          (Met-of_unmet ps p) (any-All (unmet ps p) p.activity.dependencies whole))
      (keep-nil (broken ps) ps none_broken)
