-- ===== src/Planner/Scoring.antt =====
-- planner_scoring.py: the score of an activity at a candidate start.
pub mod Deadlines
use personal_secretary.Prelude.{
  ℕ, ◌+◌, ◌-◌, ◌*◌, ◌/◌, ◌&&◌, Option, none, some, List, [], ◌∷◌, map, leb, keep, if◌then◌else◌,
}
use personal_secretary.Prelude.Int.{ℤ, pos, negsuc, ◌+ℤ◌, ◌-ℤ◌, min_ℤ, max_ℤ, ltb_ℤ, leb_ℤ}
use personal_secretary.Prelude.Sort.{min_by}
use personal_secretary.Planner.Models.{Time, PlanActivity, DayPlanRequest, ScoreBreakdown}

-- `//` by a positive number rounds down.
unfoldable pub floor_div : ℤ → ℕ → ℤ
floor_div (pos n) d = pos (n / d)
floor_div (negsuc n) d = negsuc (n / d)

unfoldable pub deadline_score : DayPlanRequest → Option Time → ℤ
unfolding floor_div
deadline_score request none = pos 0
deadline_score request (some deadline) =
    let delta = deadline -ℤ request.window_start in
    if ltb_ℤ delta (pos 0)
    then pos 10000 +ℤ min_ℤ (pos 0 -ℤ delta) (pos 43200)
    else if leb_ℤ deadline request.window_end
    then pos 5000 -ℤ delta
    else max_ℤ (pos 0) (pos 1000 -ℤ floor_div delta 60)

-- abs(a - b)
unfoldable pub distance : ℕ → ℕ → ℕ
distance a b = (a - b) + (b - a)

-- The levels of the energy windows that hold the whole activity.
unfoldable pub matching_levels : PlanActivity → DayPlanRequest → Time → List ℕ
matching_levels activity request starts_at =
    map (λ w. w.level)
      (keep
        (λ w.
          leb_ℤ w.starts_at starts_at
          && leb_ℤ (starts_at +ℤ pos activity.duration_minutes) w.ends_at)
        request.energy_windows)

unfoldable pub energy_score : ℕ → List ℕ → ℕ
energy_score required [] = 0
energy_score required (level ∷ levels) =
    let closer = λ (x y : ℕ). leb (distance x required) (distance y required) in
    300 - 100 * distance (min_by closer level levels) required

unfoldable pub score_activity : PlanActivity → DayPlanRequest → Time → ℕ → ScoreBreakdown
score_activity activity request starts_at dependent_count =
    let deadline = deadline_score request activity.deadline in
    let dependency = dependent_count * 400 in
    let travel : ℤ =
      pos 0 -ℤ pos (5 * (activity.travel_minutes_before + activity.travel_minutes_after)) in
    let energy =
      energy_score activity.energy_required (matching_levels activity request starts_at) in
    let goal = activity.goal_weight * 100 in
    let importance = activity.importance * 100 in
    record {
      deadline = deadline;
      dependency = dependency;
      travel = travel;
      energy = energy;
      goal = goal;
      importance = importance;
      total = deadline +ℤ pos dependency +ℤ travel +ℤ pos energy +ℤ pos goal +ℤ pos importance;
    }
