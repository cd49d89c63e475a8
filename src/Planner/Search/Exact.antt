-- ===== src/Planner/Search/Exact.antt =====
-- planner_placement.py: the results of `best_placement`, on every branch.
use personal_secretary.Prelude.{
  ℕ, ◌≡◌, refl, inl, inr, Option, none, some, List, arith, Bool-cases, String,
}
use personal_secretary.Prelude.Int.{
  ℤ, pos, ◌+ℤ◌, ◌-ℤ◌, ◌≤ℤ◌, ◌<ℤ◌, ltb_ℤ, ltb_ℤ→lt, ltb_ℤ→ge, int_laws, one_part,
}
use personal_secretary.Planner.Models.{Time, PlanActivity, DayPlanRequest}
use personal_secretary.Planner.Reservation.{Placement}
use personal_secretary.Planner.Search.{scan, rounds, placement_bounds, best_placement}
use personal_secretary.Planner.Search.Best.{Found, scan-Found}

after_rounds :
    (lower upper : ℤ) → lower ≤ℤ upper +ℤ pos 1 → lower +ℤ pos (rounds lower upper) ≡ upper +ℤ pos 1
unfolding rounds
after_rounds lower upper h = omega (int_laws, one_part (upper +ℤ pos 1 -ℤ lower))

no_rounds : (lower upper : ℤ) → upper +ℤ pos 1 <ℤ lower → rounds lower upper ≡ 0
unfolding rounds
no_rounds lower upper h = omega (int_laws, one_part (upper +ℤ pos 1 -ℤ lower))

module _ (activity : PlanActivity) (request : DayPlanRequest) (placements : List Placement)
    (counts : String → ℕ) where
  abbrev search : Time → Time → Option Placement
  search lower upper = scan activity request placements counts (rounds lower upper) lower none

  -- The loop from `lower` on has visited every minute up to `upper`.
  search-Found :
      (lower upper : Time)
      → Found activity request placements counts lower (upper +ℤ pos 1) (search lower upper)
  unfolding scan
  search-Found lower upper = elim (Bool-cases (ltb_ℤ (upper +ℤ pos 1) lower)) [
    | inl empty ↦
        rw (no_rounds lower upper (ltb_ℤ→lt (upper +ℤ pos 1) lower empty))
          (λ u hl hu. absurd (omega (int_laws, ltb_ℤ→lt (upper +ℤ pos 1) lower empty)))
    | inr some_left ↦ rw (after_rounds lower upper (ltb_ℤ→ge (upper +ℤ pos 1) lower some_left)) at (
        scan-Found activity request placements counts (rounds lower upper) lower lower none
          (omega arith) (λ u hl hu. absurd (omega arith)))
  ]

  -- With no bounds there is no placement; between bounds the first best free minute is returned,
  -- or none is free.
  abbrev pub Searched : Option (Time × Time) → Option Placement → Type 0
  Searched none r = r ≡ none
  Searched (some (lower, upper)) r =
      Found activity request placements counts lower (upper +ℤ pos 1) r

  -- With no bounds `best_placement` returns nothing. Between bounds it returns the first of the free
  -- minutes with the highest score, or nothing if no minute is free.
  pub best_placement-Searched :
      Searched
        (placement_bounds activity request placements)
        (best_placement activity request placements counts)
  unfolding best_placement
  best_placement-Searched = by_bounds (placement_bounds activity request placements)
    where
      by_bounds :
          (b : Option (Time × Time))
          → Searched b (elim b [ none ↦ none | some (lower, upper) ↦ search lower upper ])
      by_bounds none = refl
      by_bounds (some (lower, upper)) = search-Found lower upper
