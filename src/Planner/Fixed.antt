-- ===== src/Planner/Fixed.antt =====
-- planner_placement.py: `place_fixed`.
pub mod Schedule
pub mod Durations
use personal_secretary.Prelude.{
  ℕ, String, Bool, true, false, not, List, [], ◌∷◌, ◌++◌, keep, str_le, if◌then◌else◌,
}
use mathlib.Core.Option.{get_or}
use personal_secretary.Prelude.Int.{ltb_ℤ}
use personal_secretary.Prelude.Sort.{sort_by}
use personal_secretary.Planner.Models.{is_flexible, PlanActivity, DayPlanRequest}
use personal_secretary.Planner.Scoring.{score_activity}
use personal_secretary.Planner.Reservation.{
  Placement, activity_id, overlaps, satisfies_time_bounds, outside_window,
}
use personal_secretary.Sets.{set_add}

-- The body of the loop of `place_fixed` over the reservations made so far.
unfoldable pub add_overlaps : Placement → List Placement → List String → List String
add_overlaps p [] conflicts = conflicts
add_overlaps p (existing ∷ rest) conflicts = add_overlaps p rest (
    if overlaps p existing
    then set_add (activity_id existing) (set_add (activity_id p) conflicts)
    else conflicts)

unfoldable pub fixed_placement : DayPlanRequest → (String → ℕ) → PlanActivity → Placement
fixed_placement request counts activity =
    let starts_at = get_or activity.fixed_start request.window_start in
    record {
      activity = activity;
      starts_at = starts_at;
      ends_at = get_or activity.fixed_end starts_at;
      score = score_activity activity request starts_at (counts activity.activity_id);
    }

unfoldable pub window_conflicts : Placement → DayPlanRequest → List String → List String
window_conflicts p request conflicts =
    let outside =
      if outside_window p request then set_add (activity_id p) conflicts else conflicts in
    if satisfies_time_bounds p request then outside else set_add (activity_id p) outside

unfoldable pub place_each :
    DayPlanRequest
    → (String → ℕ)
    → List PlanActivity
    → List Placement
    → List String
    → List Placement × List String
place_each request counts [] placements conflicts = (placements, conflicts)
place_each request counts (activity ∷ rest) placements conflicts =
    let p = fixed_placement request counts activity in
    place_each request counts rest (placements ++ p ∷ [])
      (add_overlaps p placements (window_conflicts p request conflicts))

-- The sort key (start, id) of a fixed activity.
unfoldable pub fixed_le : DayPlanRequest → PlanActivity → PlanActivity → Bool
fixed_le request a b =
    let s = get_or a.fixed_start request.window_start in
    let t = get_or b.fixed_start request.window_start in
    if ltb_ℤ s t then true else if ltb_ℤ t s then false else str_le a.activity_id b.activity_id

unfoldable pub fixed_activities : DayPlanRequest → List PlanActivity
fixed_activities request =
    sort_by (fixed_le request) (keep (λ a. not (is_flexible a.flexibility)) request.activities)

-- What `place_fixed` returns: every conflicting id, or the reservations.
pub data FixedResult : Type 0 where
  conflicting : List String → FixedResult
  reserved : List Placement → FixedResult

abbrev pub fixed_result : List Placement × List String → FixedResult
fixed_result (placements, []) = reserved placements
fixed_result (placements, k ∷ ks) = conflicting (k ∷ ks)

unfoldable pub place_fixed : DayPlanRequest → (String → ℕ) → FixedResult
place_fixed request counts =
    fixed_result (place_each request counts (fixed_activities request) [] [])
