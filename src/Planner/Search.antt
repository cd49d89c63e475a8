-- ===== src/Planner/Search.antt =====
-- planner_placement.py: `placement_bounds` and `best_placement`.
pub mod Best
pub mod Exact
pub mod Bounds
use personal_secretary.Prelude.{
  ℕ, zero, suc, ◌+◌, String, Bool, true, not, ◌&&◌, Option, none, some, List, [], ◌∷◌, map, length,
  all, keep, contains, ◌==◌, if◌then◌else◌,
}
use personal_secretary.Prelude.Int.{pos, pos_part, ◌+ℤ◌, ◌-ℤ◌, min_ℤ, max_ℤ, ltb_ℤ}
use personal_secretary.Planner.Models.{Time, PlanActivity, DayPlanRequest}
use personal_secretary.Planner.Scoring.{score_activity}
use personal_secretary.Planner.Reservation.{Placement, activity_id, overlaps, hard_deadline}
use personal_secretary.Sets.{set_of}

-- The bounds on the start of a flexible activity.
unfoldable pub predecessors : PlanActivity → List Placement → List Placement
predecessors activity = keep (λ item. contains (activity_id item) activity.dependencies)

unfoldable pub latest_predecessor : Time → List Placement → Time
latest_predecessor lower [] = lower
latest_predecessor lower (p ∷ ps) = latest_predecessor (max_ℤ lower p.ends_at) ps

unfoldable pub earliest_successor : PlanActivity → Time → List Placement → Time
earliest_successor activity upper [] = upper
earliest_successor activity upper (p ∷ ps) =
    earliest_successor activity
      (if contains activity.activity_id p.activity.dependencies
        then min_ℤ upper (p.starts_at -ℤ pos activity.duration_minutes)
        else upper)
      ps

abbrev pub raise_to : Option Time → Time → Time
raise_to none lower = lower
raise_to (some bound) lower = max_ℤ lower bound

-- `upper = min(upper, end - duration)` for a latest end that is given.
abbrev pub finish_by : ℕ → Option Time → Time → Time
finish_by duration none upper = upper
finish_by duration (some end) upper = min_ℤ upper (end -ℤ pos duration)

unfoldable pub lower_bound : PlanActivity → DayPlanRequest → List Placement → Time
lower_bound activity request placements =
    latest_predecessor
      (raise_to activity.earliest_start
        (request.window_start +ℤ pos activity.travel_minutes_before))
      (predecessors activity placements)

unfoldable pub upper_bound : PlanActivity → DayPlanRequest → List Placement → Time
upper_bound activity request placements =
    earliest_successor activity
      (finish_by activity.duration_minutes (hard_deadline activity request) (
        finish_by activity.duration_minutes activity.latest_end
          (request.window_end -ℤ pos (activity.duration_minutes + activity.travel_minutes_after))))
      placements

unfoldable pub placement_bounds :
    PlanActivity → DayPlanRequest → List Placement → Option (Time × Time)
placement_bounds activity request placements =
    if length (set_of (map activity_id (predecessors activity placements)))
      == length (set_of activity.dependencies)
    then some (lower_bound activity request placements, upper_bound activity request placements)
    else none

unfoldable pub candidate_at : PlanActivity → DayPlanRequest → (String → ℕ) → Time → Placement
candidate_at activity request counts starts_at = record {
  activity = activity;
  starts_at = starts_at;
  ends_at = starts_at +ℤ pos activity.duration_minutes;
  score = score_activity activity request starts_at (counts activity.activity_id);
}

unfoldable pub is_free : Placement → List Placement → Bool
is_free candidate placements = all (λ existing. not (overlaps candidate existing)) placements

-- `best is None or candidate.score.total > best.score.total`
abbrev pub improves : Option Placement → Placement → Bool
improves none candidate = true
improves (some best) candidate = ltb_ℤ best.score.total candidate.score.total

unfoldable pub try_minute : List Placement → Placement → Option Placement → Option Placement
try_minute placements candidate best =
    if is_free candidate placements && improves best candidate then some candidate else best

-- The minutes from `starts_at` on, as many as are left.
unfoldable pub scan :
    PlanActivity
    → DayPlanRequest
    → List Placement
    → (String → ℕ)
    → ℕ
    → Time
    → Option Placement
    → Option Placement
scan activity request placements counts zero starts_at best = best
scan activity request placements counts (suc rounds) starts_at best =
    scan activity request placements counts rounds (starts_at +ℤ pos 1)
      (try_minute placements (candidate_at activity request counts starts_at) best)

-- How many minutes `while starts_at <= upper` visits from `lower` on.
unfoldable pub rounds : Time → Time → ℕ
rounds lower upper = pos_part (upper +ℤ pos 1 -ℤ lower)

unfoldable pub best_placement :
    PlanActivity → DayPlanRequest → List Placement → (String → ℕ) → Option Placement
best_placement activity request placements counts =
    elim (placement_bounds activity request placements) [
      | none ↦ none
      | some (lower, upper) ↦
          scan activity request placements counts (rounds lower upper) lower none
    ]
