-- ===== src/Planner/Fixed/Durations.antt =====
-- planner_placement.py: the durations of the fixed reservations.
use mathlib.Core.Option.{get_or}
use personal_secretary.Prelude.{
  ◌≤◌, ◌≡◌, true, not, arith, String, ℕ, Option, none, some, All, All-and, All-map, All-weaken,
  All-keep, keep-All, all-All, all, keep,
}
use personal_secretary.Prelude.Int.{pos, ◌-ℤ◌, ◌<ℤ◌, ◌≤ℤ◌, leb_ℤ→le, int_laws}
use personal_secretary.Prelude.Sort.{All-sort_by, sort_by}
use personal_secretary.Planner.Models.{
  Time, is_flexible, PlanActivity, DayPlanRequest, valid_request, valid_activity,
  valid_fixed_interval,
}
use personal_secretary.Planner.Fixed.{fixed_placement, fixed_activities, fixed_le}
use personal_secretary.Planner.Fixed.Schedule.{reservation, fixed_reservations}
use personal_secretary.Planner.Blocks.Separate.{TakesTime}

interval_takes_time :
    (from to : Option Time) (start : Time) (d : ℕ)
    → valid_fixed_interval from to d ≡ true
    → 1 ≤ d
    → get_or from start <ℤ get_or to (get_or from start)
interval_takes_time (some s) (some e) start d h long =
    let le : pos d ≤ℤ e -ℤ s = leb_ℤ→le (pos d) (e -ℤ s) (ground arith) in omega int_laws
interval_takes_time (some s) none start d h long = cc
interval_takes_time none e start d h long = cc

valid_interval :
    (a : PlanActivity)
    → valid_activity a ≡ true
    → not (is_flexible a.flexibility) ≡ true
    → (valid_fixed_interval a.fixed_start a.fixed_end a.duration_minutes ≡ true)
      × (1 ≤ a.duration_minutes)
unfolding valid_activity
valid_interval a valid fixed = ground arith

module _ (request : DayPlanRequest) (counts : String → ℕ) where
  reservation-TakesTime :
      (a : PlanActivity)
      → valid_activity a ≡ true
      → not (is_flexible a.flexibility) ≡ true
      → TakesTime (reservation request counts a)
  unfolding fixed_placement
  reservation-TakesTime a valid fixed =
      let (interval, long) = valid_interval a valid fixed in
      interval_takes_time a.fixed_start a.fixed_end request.window_start a.duration_minutes interval
        long

  pub fixed_reservations-TakesTime :
      valid_request request ≡ true → All TakesTime (fixed_reservations request counts)
  unfolding valid_request fixed_activities
  fixed_reservations-TakesTime valid =
      let fixed = λ (a : PlanActivity). not (is_flexible a.flexibility) in
      let valid_all : all valid_activity request.activities ≡ true = ground arith in
      let kept = keep fixed request.activities in
      All-map TakesTime (reservation request counts) (sort_by (fixed_le request) kept) (
        All-sort_by (fixed_le request) (λ a. TakesTime (reservation request counts a)) kept
          (All-weaken (λ a. (valid_activity a ≡ true) × (fixed a ≡ true))
            (λ a. TakesTime (reservation request counts a)) kept
            (λ a h. reservation-TakesTime a h.0 h.1)
            (All-and (λ a. valid_activity a ≡ true) (λ a. fixed a ≡ true) kept
              (All-keep (λ a. valid_activity a ≡ true) fixed request.activities
                (all-All valid_activity request.activities valid_all))
              (keep-All fixed request.activities))))
