-- ===== src/Planner/Examples.antt =====
-- A small request, and the planner's theorems at it.
use personal_secretary.Prelude.{
  ◌&&◌, any, keep, all, contains, ℕ, ◌+◌, ◌≡◌, refl, ◌↔◌, true, false, none, some, String, [], ◌∷◌,
  arith, count,
}
use personal_secretary.Prelude.Int.{leb_ℤ, max_ℤ, min_ℤ, ◌-ℤ◌, pos, ◌<ℤ◌, ◌+ℤ◌}
use personal_secretary.Planner.Models.{
  ActivityFlexibility, PlanActivity, DayPlanRequest, valid_request, valid_activity, distinct,
  valid_window,
}
use personal_secretary.Planner.Scoring.{
  deadline_score, score_activity, energy_score, matching_levels, distance,
}
use personal_secretary.Planner.Scoring.Deadlines.{deadline_score_week}
use personal_secretary.Planner.Reservation.{
  Placement, IsSchedule, dependent_counts, outside_window, satisfies_time_bounds, reservation_start,
  reservation_end, overlaps, hard_deadline,
}
use personal_secretary.Planner.Search.{
  placement_bounds, best_placement, scan, try_minute, candidate_at, lower_bound, upper_bound,
  predecessors, latest_predecessor, earliest_successor, rounds, is_free,
}
use personal_secretary.Planner.Search.Exact.{Searched, best_placement-Searched}
use personal_secretary.Planner.Fixed.{
  place_fixed, reserved, fixed_activities, fixed_le, place_each, fixed_placement, window_conflicts,
  add_overlaps,
}
use personal_secretary.Prelude.Sort.{sort_by, min_by}
use personal_secretary.Sets.{set_add, set_of}
use personal_secretary.Planner.Fixed.Schedule.{fixed_reservations, place_fixed_exact}
use personal_secretary.Planner.Fixed.Durations.{fixed_reservations-TakesTime}
use personal_secretary.Planner.Flexible.{place_flexible, flexible_activities}
use personal_secretary.Planner.Flexible.Schedule.{place_flexible-IsSchedule}
use personal_secretary.Planner.Flexible.Progress.{place_flexible_done}
use personal_secretary.Planner.Flexible.Listed.{ids}
use personal_secretary.Planner.Flexible.Accounting.{
  placed_ids, unscheduled_ids, place_flexible-accounts,
}
use personal_secretary.Planner.Dependencies.{invalid_dependencies, broken, unmet, placement_of}
use personal_secretary.Planner.Dependencies.Exact.{Reported, invalid_dependencies_exact}
use personal_secretary.Planner.Blocks.{Zone, build_internal_plan}
use personal_secretary.Planner.Blocks.Tiling.{Tiles, build_internal_plan-Tiles}
use personal_secretary.Planner.Day.{ProposedDay, proposed, propose_day, after_fixed}
use personal_secretary.Planner.Day.Sound.{Sound, propose_day-Sound}

abbrev plain : String → ActivityFlexibility → PlanActivity
plain id flexibility = record {
  activity_id = id;
  title = id;
  flexibility = flexibility;
  duration_minutes = 3;
  fixed_start = none;
  fixed_end = none;
  earliest_start = none;
  latest_end = none;
  deadline = none;
  recover_missed_deadline = false;
  dependencies = [];
  travel_minutes_before = 0;
  travel_minutes_after = 0;
  energy_required = 1;
  goal_weight = 0;
  importance = 0;
  display_group = none;
  display_title = none;
  guidance = [];
  calendar_eligible = true;
  personal_micro_event = false;
}

abbrev meeting : PlanActivity
meeting = record (plain "meeting" ActivityFlexibility.fixed) {
  fixed_start = some (pos 104);
  fixed_end = some (pos 107);
}

-- After the meeting, with a minute of travel before it.
abbrev review : PlanActivity
review = record (plain "review" ActivityFlexibility.flexible) {
  dependencies = "meeting" ∷ [];
  travel_minutes_before = 1;
  deadline = some (pos 118);
}

abbrev notes : PlanActivity
notes = plain "notes" ActivityFlexibility.flexible

abbrev request : DayPlanRequest
request = record {
  timezone = "UTC";
  window_start = pos 100;
  window_end = pos 120;
  state_revision = 1;
  expected_state_revision = 1;
  activities = notes ∷ review ∷ meeting ∷ [];
  energy_windows = record { starts_at = pos 108; ends_at = pos 116; level = 1 } ∷ [];
  baseline_blocks = [];
}

abbrev counts : String → ℕ
counts = dependent_counts request

abbrev utc : Zone
utc = record { wall = λ t. t; isoformat = λ t. "t"; same_time = λ s t. leb_ℤ s t && leb_ℤ t s }

abbrev mark : DayPlanRequest → String
mark r = r.timezone

request-valid : valid_request request ≡ true
unfolding valid_request all valid_activity contains distinct valid_window ◌-ℤ◌
request-valid = refl

-- The notes come first, then the meeting, then the review, in the window of high energy.
abbrev day : ProposedDay
day = after_fixed mark utc request (place_fixed request counts)

propose_day_runs : propose_day mark utc request ≡ proposed day
unfolding propose_day
propose_day_runs = refl

propose_day-Sound_example : Sound mark utc request day
propose_day-Sound_example = propose_day-Sound mark utc request day request-valid propose_day_runs

place_fixed_runs : place_fixed request counts ≡ reserved (fixed_reservations request counts)
unfolding place_fixed fixed_activities sort_by fixed_le keep place_each fixed_placement
    window_conflicts add_overlaps outside_window satisfies_time_bounds reservation_start
    reservation_end overlaps hard_deadline set_add ◌+ℤ◌ ◌-ℤ◌
place_fixed_runs = refl

meeting_reserved : IsSchedule request (fixed_reservations request counts)
meeting_reserved = (place_fixed_exact request counts).0 place_fixed_runs

place_fixed_exact_example :
    (place_fixed request counts ≡ reserved (fixed_reservations request counts))
    ↔ IsSchedule request (fixed_reservations request counts)
place_fixed_exact_example = place_fixed_exact request counts

place_flexible-IsSchedule_example :
    IsSchedule request
      (place_flexible request (fixed_reservations request counts) counts).placements
place_flexible-IsSchedule_example =
    place_flexible-IsSchedule request counts (fixed_reservations request counts) meeting_reserved

place_flexible_done_example :
    (place_flexible request (fixed_reservations request counts) counts).flexible ≡ []
place_flexible_done_example = place_flexible_done request counts (fixed_reservations request counts)

place_flexible-accounts_example :
    let placed = place_flexible request (fixed_reservations request counts) counts in
    count "review" (placed_ids placed.placements)
      + count "review" (unscheduled_ids placed.unscheduled)
    ≡ count "review" (ids (flexible_activities request))
      + count "review" (placed_ids (fixed_reservations request counts))
place_flexible-accounts_example =
    place_flexible-accounts request counts "review" (fixed_reservations request counts)

best_placement-Searched_example :
    Searched review request
      (fixed_reservations request counts)
      counts
      (placement_bounds review request (fixed_reservations request counts))
      (best_placement review request (fixed_reservations request counts) counts)
best_placement-Searched_example =
    best_placement-Searched review request (fixed_reservations request counts) counts

-- Where `best_placement` puts the review: at the first minute of the energy window.
abbrev review_placed : Placement
review_placed = record {
  activity = review;
  starts_at = pos 108;
  ends_at = pos 111;
  score = score_activity review request (pos 108) 0;
}

review_found :
    best_placement review request (fixed_reservations request counts) counts ≡ some review_placed
unfolding best_placement placement_bounds scan try_minute candidate_at lower_bound upper_bound
    predecessors latest_predecessor earliest_successor keep contains set_of set_add rounds is_free
    all overlaps reservation_start reservation_end hard_deadline fixed_activities sort_by fixed_le
    fixed_placement score_activity deadline_score energy_score matching_levels distance min_by max_ℤ
    min_ℤ dependent_counts ◌+ℤ◌ ◌-ℤ◌
review_found = refl

build_internal_plan-Tiles_example :
    Tiles (pos 100) (pos 120) (build_internal_plan utc request (fixed_reservations request counts))
build_internal_plan-Tiles_example =
    build_internal_plan-Tiles utc request (fixed_reservations request counts) (omega arith)
      meeting_reserved (fixed_reservations-TakesTime request counts request-valid)

abbrev week_request : DayPlanRequest
week_request = record request { window_end = pos 10180 }

deadline_score_week_example :
    deadline_score week_request (some (pos 9000))
    <ℤ deadline_score week_request (some (pos 10180 +ℤ pos 1))
unfolding ◌+ℤ◌
deadline_score_week_example =
    deadline_score_week week_request (pos 9000) refl (omega arith) (omega arith)

invalid_dependencies_exact_example :
    (contains "review" (invalid_dependencies (review_placed ∷ [])) ≡ true)
    ↔ Reported (review_placed ∷ []) "review"
invalid_dependencies_exact_example = invalid_dependencies_exact (review_placed ∷ []) "review"

-- A review without its prerequisite is reported.
review_reported : invalid_dependencies (review_placed ∷ []) ≡ "review" ∷ []
unfolding invalid_dependencies set_of set_add contains keep broken any unmet placement_of
review_reported = refl
