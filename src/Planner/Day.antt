-- ===== src/Planner/Day.antt =====
-- planner.py: `propose_day` and `propose_week`, without the texts of the explanations.
pub mod Sound
pub mod Answered
use personal_secretary.Prelude.{
  ℕ, String, Bool, true, false, Option, none, some, List, [], ◌∷◌, map, contains, keep, not, str_eq,
  str_le, is_empty, ◌==◌, if◌then◌else◌,
}
use personal_secretary.Prelude.Sort.{sort_by}
use personal_secretary.Planner.Models.{
  PlanActivity, DayPlanRequest, PlanStatus, UnscheduledActivity, UnscheduledReason, valid_week,
}
use personal_secretary.Planner.Reservation.{Placement, dependent_counts}
use personal_secretary.Planner.Fixed.{FixedResult, conflicting, reserved, place_fixed}
use personal_secretary.Planner.Flexible.{LoopState, place_flexible}
use personal_secretary.Planner.Dependencies.{invalid_dependencies}
use personal_secretary.Planner.Blocks.{Zone, PlanBlock, build_internal_plan}
use personal_secretary.Planner.Projection.{CalendarBlock, PlanDiff, project_calendar, build_diff}

pub record ProposedDay : Type 0 where
  pub input_fingerprint : String
  pub state_revision : ℕ
  pub timezone : String
  pub status : PlanStatus
  pub internal_plan : List PlanBlock
  pub calendar_projection : List CalendarBlock
  pub unscheduled : List UnscheduledActivity
  pub diff : PlanDiff

-- `StalePlannerStateError`, or the proposal.
pub data Outcome : Type 0 where
  stale : ℕ → ℕ → Outcome
  proposed : ProposedDay → Outcome

unfoldable pub fixed_conflict : List String → String → UnscheduledActivity
fixed_conflict conflicts k = record {
  activity_id = k;
  reason = UnscheduledReason.fixed_conflict;
  detail =
      "Fixed or protected reservation violates a hard time constraint or overlaps another reservation.";
  blocking_activity_ids = sort_by str_le (keep (λ j. not (str_eq j k)) conflicts);
}

unfoldable pub unmet_schedule : List String → PlanActivity → UnscheduledActivity
unmet_schedule broken activity = record {
  activity_id = activity.activity_id;
  reason = UnscheduledReason.dependency_unscheduled;
  detail = "Required fixed schedule has unmet or reversed dependencies; no plan emitted.";
  blocking_activity_ids = sort_by str_le broken;
}

unfoldable pub plan_status : List Placement → List UnscheduledActivity → PlanStatus
plan_status placements [] = PlanStatus.feasible
plan_status [] (u ∷ us) = PlanStatus.infeasible
plan_status (p ∷ ps) (u ∷ us) = PlanStatus.partial

module _ (fingerprint : DayPlanRequest → String) (zone : Zone) where
  unfoldable pub infeasible_day : DayPlanRequest → List UnscheduledActivity → ProposedDay
  infeasible_day request unscheduled = record {
    input_fingerprint = fingerprint request;
    state_revision = request.state_revision;
    timezone = request.timezone;
    status = PlanStatus.infeasible;
    internal_plan = [];
    calendar_projection = [];
    unscheduled = unscheduled;
    diff = build_diff zone request.baseline_blocks [];
  }

  unfoldable pub planned_day : DayPlanRequest → LoopState → ProposedDay
  planned_day request placed = record {
    input_fingerprint = fingerprint request;
    state_revision = request.state_revision;
    timezone = request.timezone;
    status = plan_status placed.placements placed.unscheduled;
    internal_plan = build_internal_plan zone request placed.placements;
    calendar_projection =
        project_calendar zone (build_internal_plan zone request placed.placements);
    unscheduled = placed.unscheduled;
    diff =
        build_diff zone request.baseline_blocks
          (build_internal_plan zone request placed.placements);
  }

  -- After the flexible activities: a plan with broken dependencies is not emitted.
  unfoldable pub check_dependencies : DayPlanRequest → LoopState → List String → ProposedDay
  check_dependencies request placed [] = planned_day request placed
  check_dependencies request placed (k ∷ ks) =
      infeasible_day request (map (unmet_schedule (k ∷ ks)) request.activities)

  unfoldable pub after_fixed : DayPlanRequest → FixedResult → ProposedDay
  after_fixed request (conflicting conflicts) =
      infeasible_day request (map (fixed_conflict conflicts) (sort_by str_le conflicts))
  after_fixed request (reserved ps) =
      let placed = place_flexible request ps (dependent_counts request) in
      check_dependencies request placed (invalid_dependencies placed.placements)

  unfoldable pub propose_day : DayPlanRequest → Outcome
  propose_day request =
      if request.expected_state_revision == request.state_revision
      then proposed (after_fixed request (place_fixed request (dependent_counts request)))
      else stale request.expected_state_revision request.state_revision

  -- `none` is the validation error of `WeekPlanRequest`.
  unfoldable pub propose_week : DayPlanRequest → Option Outcome
  propose_week request = if valid_week request then some (propose_day request) else none
