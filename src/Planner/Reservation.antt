-- ===== src/Planner/Reservation.antt =====
-- planner_placement.py: `Placement`, the tests on reservations, and the count of dependents.
use personal_secretary.Prelude.{
  All, Pairwise, List, arith, ◌≡◌, false, ℕ, String, Bool, true, ◌&&◌, ◌||◌, Option, none, some,
  length, keep, contains, if◌then◌else◌,
}
use personal_secretary.Prelude.Int.{◌≤ℤ◌, pos, ◌+ℤ◌, ◌-ℤ◌, ltb_ℤ, leb_ℤ}
use personal_secretary.Planner.Models.{Time, PlanActivity, DayPlanRequest, ScoreBreakdown}

pub record Placement : Type 0 where
  pub activity : PlanActivity
  pub starts_at : Time
  pub ends_at : Time
  pub score : ScoreBreakdown

abbrev pub activity_id : Placement → String
activity_id p = p.activity.activity_id

unfoldable pub reservation_start : Placement → Time
reservation_start p = p.starts_at -ℤ pos p.activity.travel_minutes_before

unfoldable pub reservation_end : Placement → Time
reservation_end p = p.ends_at +ℤ pos p.activity.travel_minutes_after

-- The dict of dependent counts, as a function of the id.
unfoldable pub dependent_counts : DayPlanRequest → String → ℕ
dependent_counts request k =
    length (keep (λ candidate. contains k candidate.dependencies) request.activities)

unfoldable pub overlaps : Placement → Placement → Bool
overlaps left right =
    ltb_ℤ (reservation_start left) (reservation_end right)
    && ltb_ℤ (reservation_start right) (reservation_end left)

unfoldable pub hard_deadline : PlanActivity → DayPlanRequest → Option Time
hard_deadline activity request = elim activity.deadline [
  | none ↦ none
  | some deadline ↦
      if activity.recover_missed_deadline && ltb_ℤ deadline request.window_start
      then none
      else some deadline
]

-- `bound is None or bound <= value`, and the other way round.
abbrev pub at_least : Option Time → Time → Bool
at_least none value = true
at_least (some bound) value = leb_ℤ bound value

abbrev pub at_most : Option Time → Time → Bool
at_most none value = true
at_most (some bound) value = leb_ℤ value bound

unfoldable pub satisfies_time_bounds : Placement → DayPlanRequest → Bool
satisfies_time_bounds p request =
    at_least p.activity.earliest_start p.starts_at
    && at_most p.activity.latest_end p.ends_at
    && at_most (hard_deadline p.activity request) p.ends_at

-- The two tests of a reservation against the planning window.
unfoldable pub outside_window : Placement → DayPlanRequest → Bool
outside_window p request =
    ltb_ℤ (reservation_start p) request.window_start || ltb_ℤ request.window_end (reservation_end p)

-- The hard constraints on one reservation: inside the window, and within its activity's bounds.
pub record InBounds (request : DayPlanRequest) (p : Placement) : Type 0 where
  pub window_start : request.window_start ≤ℤ reservation_start p
  pub window_end : reservation_end p ≤ℤ request.window_end
  pub time_bounds : satisfies_time_bounds p request ≡ true

-- Two reservations, travel included, share no minute.
abbrev pub Apart : Placement → Placement → Type 0
Apart p q = overlaps p q ≡ false

pub Apart-sym : (p q : Placement) → Apart p q → Apart q p
unfolding overlaps
Apart-sym p q h = ground arith

-- Reservations that meet the hard constraints and are apart from one another.
pub record IsSchedule (request : DayPlanRequest) (ps : List Placement) : Type 0 where
  pub in_bounds : All (InBounds request) ps
  pub apart : Pairwise Apart ps
