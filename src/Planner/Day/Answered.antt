-- ===== src/Planner/Day/Answered.antt =====
-- planner.py: which of its answers `propose_day` gives.
use personal_secretary.Prelude.{◌≡◌, ◌⊎◌, String, List, [], All}
use personal_secretary.Planner.Models.{DayPlanRequest, PlanStatus, UnscheduledReason}
use personal_secretary.Planner.Reservation.{Placement, IsSchedule, dependent_counts}
use personal_secretary.Planner.Fixed.Schedule.{fixed_reservations}
use personal_secretary.Planner.Flexible.{LoopState, place_flexible}
use personal_secretary.Planner.Dependencies.Exact.{Reported}
use personal_secretary.Planner.Blocks.{Zone, build_internal_plan}
use personal_secretary.Planner.Day.{ProposedDay, fixed_conflict}

-- A day that shows no plan, with one reason for all activities that it lists.
pub record NoPlan (day : ProposedDay) (reason : UnscheduledReason) : Type 0 where
  pub status : day.status ≡ PlanStatus.infeasible
  pub no_blocks : day.internal_plan ≡ []
  pub no_calendar : day.calendar_projection ≡ []
  pub reasons : All (λ u. u.reason ≡ reason) day.unscheduled

module _ (fingerprint : DayPlanRequest → String) (zone : Zone) (request : DayPlanRequest) where
  abbrev pub fixed_placed : List Placement
  fixed_placed = fixed_reservations request (dependent_counts request)

  abbrev pub all_placed : LoopState
  all_placed = place_flexible request fixed_placed (dependent_counts request)

  -- The three answers to a request for the current revision.
  abbrev pub Conflicting : ProposedDay → Type 0
  Conflicting day =
      (¬ IsSchedule request fixed_placed) × NoPlan day UnscheduledReason.fixed_conflict

  abbrev pub Unordered : ProposedDay → Type 0
  Unordered day =
      IsSchedule request fixed_placed
      × ((k : String) × Reported all_placed.placements k)
      × NoPlan day UnscheduledReason.dependency_unscheduled

  abbrev pub Planned : ProposedDay → Type 0
  Planned day =
      IsSchedule request fixed_placed
      × ((k : String) → ¬ Reported all_placed.placements k)
      × (day.internal_plan ≡ build_internal_plan zone request all_placed.placements)
      × (day.unscheduled ≡ all_placed.unscheduled)

  abbrev pub Fresh : ProposedDay → Type 0
  Fresh day = Conflicting day ⊎ (Unordered day ⊎ Planned day)
