-- ===== src/Planner/Day/Sound.antt =====
-- planner.py: what a proposed day promises.
use personal_secretary.Prelude.{
  ◌+◌, ◌≡◌, refl, sym, ◌⊎◌, inl, inr, true, String, List, [], ◌∷◌, arith, count, All,
}
use mathlib.Core.Path.{subst}
use personal_secretary.Prelude.Int.{◌≤ℤ◌}
use personal_secretary.Planner.Models.{
  DayPlanRequest, PlanStatus, UnscheduledActivity, valid_request,
}
use personal_secretary.Planner.Reservation.{Placement, IsSchedule, dependent_counts}
use personal_secretary.Planner.Fixed.{FixedResult, conflicting, reserved, place_fixed}
use personal_secretary.Planner.Fixed.Schedule.{fixed_reservations, place_fixed-reserved}
use personal_secretary.Planner.Fixed.Durations.{fixed_reservations-TakesTime}
use personal_secretary.Planner.Flexible.{LoopState, place_flexible, flexible_activities}
use personal_secretary.Planner.Flexible.Schedule.{place_flexible-IsSchedule}
use personal_secretary.Planner.Flexible.Extends.{Extends, place_flexible-Extends}
use personal_secretary.Planner.Flexible.Durations.{place_flexible-TakesTime}
use personal_secretary.Planner.Flexible.Listed.{ids}
use personal_secretary.Planner.Flexible.Accounting.{
  placed_ids, unscheduled_ids, place_flexible-accounts,
}
use personal_secretary.Planner.Dependencies.{invalid_dependencies}
use personal_secretary.Planner.Dependencies.Met.{AllMet, invalid_dependencies-AllMet}
use personal_secretary.Planner.Blocks.{Zone, build_internal_plan}
use personal_secretary.Planner.Blocks.Separate.{TakesTime}
use personal_secretary.Planner.Blocks.Tiling.{Tiles, build_internal_plan-Tiles}
use personal_secretary.Planner.Projection.{project_calendar, build_diff}
use personal_secretary.Planner.Day.{
  ProposedDay, proposed, plan_status, infeasible_day, planned_day, check_dependencies, after_fixed,
  propose_day,
}

-- The placements `ps` are a plan for the request, and `us` lists what they leave out.
pub record IsPlan (request : DayPlanRequest) (ps : List Placement) (us : List UnscheduledActivity)
    : Type 0 where
  pub schedule : IsSchedule request ps
  pub takes_time : All TakesTime ps
  pub met : AllMet ps
  pub keeps_fixed : Extends (fixed_reservations request (dependent_counts request)) ps
  pub accounts :
      (k : String)
      → count k (placed_ids ps) + count k (unscheduled_ids us)
        ≡ count k (ids (flexible_activities request))
          + count k (placed_ids (fixed_reservations request (dependent_counts request)))

module _ (fingerprint : DayPlanRequest → String) (zone : Zone) (request : DayPlanRequest) where
  -- The day shows the plan of `ps`.
  pub record Shows (day : ProposedDay) (ps : List Placement) : Type 0 where
    pub plan : IsPlan request ps day.unscheduled
    pub status : day.status ≡ plan_status ps day.unscheduled
    pub blocks : day.internal_plan ≡ build_internal_plan zone request ps
    pub projection : day.calendar_projection ≡ project_calendar zone day.internal_plan
    pub diff : day.diff ≡ build_diff zone request.baseline_blocks day.internal_plan
    pub tiles : Tiles request.window_start request.window_end day.internal_plan

  abbrev pub Sound : ProposedDay → Type 0
  Sound day =
      ((day.status ≡ PlanStatus.infeasible) × (day.internal_plan ≡ []))
      ⊎ ((ps : List Placement) × Shows day ps)

  window_ordered : valid_request request ≡ true → request.window_start ≤ℤ request.window_end
  unfolding valid_request
  window_ordered valid = ground arith

  planned_day-Shows :
      (placed : LoopState)
      → valid_request request ≡ true
      → IsPlan request placed.placements placed.unscheduled
      → Shows (planned_day fingerprint zone request placed) placed.placements
  unfolding planned_day
  planned_day-Shows placed valid plan = record {
    plan = plan;
    status = refl;
    blocks = refl;
    projection = refl;
    diff = refl;
    tiles =
        build_internal_plan-Tiles zone request placed.placements (window_ordered valid)
          plan.schedule plan.takes_time;
  }

  flexible-IsPlan :
      (ps : List Placement)
      → valid_request request ≡ true
      → (ps ≡ fixed_reservations request (dependent_counts request)) × IsSchedule request ps
      → let placed = place_flexible request ps (dependent_counts request) in
        invalid_dependencies placed.placements ≡ []
        → IsPlan request placed.placements placed.unscheduled
  flexible-IsPlan ps valid (same, schedule) ok =
      let counts = dependent_counts request in
      let placed = place_flexible request ps counts in
      record {
        schedule = place_flexible-IsSchedule request counts ps schedule;
        takes_time =
            place_flexible-TakesTime request counts ps valid (
              subst (All TakesTime) (sym same) (fixed_reservations-TakesTime request counts valid));
        met = invalid_dependencies-AllMet placed.placements ok;
        keeps_fixed =
            subst (λ qs. Extends qs placed.placements) same
              (place_flexible-Extends request counts ps);
        accounts = λ k.
            subst
              (λ qs.
                count k (placed_ids placed.placements)
                  + count k (unscheduled_ids placed.unscheduled)
                ≡ count k (ids (flexible_activities request)) + count k (placed_ids qs))
              same (place_flexible-accounts request counts k ps);
      }

  check_dependencies-Sound :
      (placed : LoopState) (broken : List String)
      → valid_request request ≡ true
      → (broken ≡ [] → IsPlan request placed.placements placed.unscheduled)
      → Sound (check_dependencies fingerprint zone request placed broken)
  unfolding check_dependencies infeasible_day
  check_dependencies-Sound placed [] valid plan =
      inr (placed.placements, planned_day-Shows placed valid (plan refl))
  check_dependencies-Sound placed (k ∷ ks) valid plan = inl (refl, refl)

  after_fixed-Sound :
      (r : FixedResult)
      → valid_request request ≡ true
      → place_fixed request (dependent_counts request) ≡ r
      → Sound (after_fixed fingerprint zone request r)
  unfolding after_fixed infeasible_day
  after_fixed-Sound (conflicting ks) valid e = inl (refl, refl)
  after_fixed-Sound (reserved ps) valid e =
      let placed = place_flexible request ps (dependent_counts request) in
      check_dependencies-Sound placed (invalid_dependencies placed.placements) valid
        (flexible-IsPlan ps valid (place_fixed-reserved request (dependent_counts request) e))

  -- A valid request is answered by a day that is infeasible and shows no block, or that shows a
  -- plan: its reservations keep every fixed one, lie in the window, meet each activity's hard
  -- bounds and are apart; every prerequisite is placed and ends in time; each id is placed or
  -- unscheduled as often as it is flexible or fixed; its blocks tile the planning window, and the
  -- calendar and the diff are the projection and the diff of these blocks.
  pub propose_day-Sound :
      (day : ProposedDay)
      → valid_request request ≡ true
      → propose_day fingerprint zone request ≡ proposed day
      → Sound day
  unfolding propose_day
  propose_day-Sound day valid e =
      subst Sound (ground arith)
        (after_fixed-Sound (place_fixed request (dependent_counts request)) valid refl)
