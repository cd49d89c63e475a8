-- ===== src/Planner/Models.antt =====
-- planner_models.py and planner_results.py: the planner's inputs and the records of its outcome.
-- A `datetime` is the minute, counted in UTC, that it denotes: every planner timestamp is aware and
-- has minute resolution, and the planner compares instants after `astimezone(UTC)`.
use personal_secretary.Prelude.{ℕ, String, Bool, Option, List}
use personal_secretary.Prelude.{◌&&◌, leb, not, contains, map, all, true, none, some}
use personal_secretary.Prelude.{false, [], ◌∷◌}
use personal_secretary.Prelude.Int.{ℤ, pos, ◌-ℤ◌, ltb_ℤ, leb_ℤ}

abbrev pub Time : Type 0
Time = ℤ

pub data ActivityFlexibility : Type 0 where
  fixed flexible protected : ActivityFlexibility

-- `flexibility is ActivityFlexibility.FLEXIBLE`
abbrev pub is_flexible : ActivityFlexibility → Bool
is_flexible ActivityFlexibility.flexible = true
is_flexible ActivityFlexibility.fixed = false
is_flexible ActivityFlexibility.protected = false

pub record EnergyWindow : Type 0 where
  pub starts_at : Time
  pub ends_at : Time
  pub level : ℕ

pub record PlanActivity : Type 0 where
  pub activity_id : String
  pub title : String
  pub flexibility : ActivityFlexibility
  pub duration_minutes : ℕ
  pub fixed_start : Option Time
  pub fixed_end : Option Time
  pub earliest_start : Option Time
  pub latest_end : Option Time
  pub deadline : Option Time
  pub recover_missed_deadline : Bool
  pub dependencies : List String
  pub travel_minutes_before : ℕ
  pub travel_minutes_after : ℕ
  pub energy_required : ℕ
  pub goal_weight : ℕ
  pub importance : ℕ
  pub display_group : Option String
  pub display_title : Option String
  pub guidance : List String
  pub calendar_eligible : Bool
  pub personal_micro_event : Bool

pub record ExistingPlanBlock : Type 0 where
  pub block_id : String
  pub activity_id : String
  pub title : String
  pub starts_at : Time
  pub ends_at : Time

pub record DayPlanRequest : Type 0 where
  pub timezone : String
  pub window_start : Time
  pub window_end : Time
  pub state_revision : ℕ
  pub expected_state_revision : ℕ
  pub activities : List PlanActivity
  pub energy_windows : List EnergyWindow
  pub baseline_blocks : List ExistingPlanBlock

-- `_validate_activity_placement`
abbrev pub valid_fixed_interval : Option Time → Option Time → ℕ → Bool
valid_fixed_interval (some s) (some e) d = leb_ℤ (e -ℤ s) (pos d) && leb_ℤ (pos d) (e -ℤ s)
valid_fixed_interval (some s) none d = false
valid_fixed_interval none e d = false

unfoldable pub valid_activity_placement : PlanActivity → Bool
valid_activity_placement a = elim a.flexibility [
  | ActivityFlexibility.flexible ↦ elim a.fixed_start [
    | none ↦ elim a.fixed_end [ none ↦ true | some _ ↦ false ]
    | some _ ↦ false
  ]
  | ActivityFlexibility.fixed ↦ valid_fixed_interval a.fixed_start a.fixed_end a.duration_minutes
  | ActivityFlexibility.protected ↦
      valid_fixed_interval a.fixed_start a.fixed_end a.duration_minutes
]

abbrev ordered : Option Time → Option Time → Bool
ordered (some early) (some late) = ltb_ℤ early late
ordered (some early) none = true
ordered none late = true

-- The field bounds of `PlanActivity` and its `validate_constraints`.
unfoldable pub valid_activity : PlanActivity → Bool
unfolding valid_activity_placement
valid_activity a =
    leb 1 a.duration_minutes
    && leb a.duration_minutes 1440
    && leb a.travel_minutes_before 1440
    && leb a.travel_minutes_after 1440
    && leb 1 a.energy_required
    && leb a.energy_required 5
    && leb a.goal_weight 10
    && leb a.importance 10
    && valid_activity_placement a
    && elim a.deadline [ none ↦ not a.recover_missed_deadline | some _ ↦ true ]
    && ordered a.earliest_start a.latest_end
    && not (contains a.activity_id a.dependencies)

-- `validate_interval` and the field bounds of the two interval records.
unfoldable pub valid_window : EnergyWindow → Bool
valid_window w = leb 1 w.level && leb w.level 5 && ltb_ℤ w.starts_at w.ends_at

unfoldable pub valid_block : ExistingPlanBlock → Bool
valid_block b = ltb_ℤ b.starts_at b.ends_at

unfoldable pub distinct : List String → Bool
distinct [] = true
distinct (x ∷ xs) = not (contains x xs) && distinct xs

-- `validate_snapshot`, less the checks of the time zone.
unfoldable pub valid_request : DayPlanRequest → Bool
valid_request r =
    leb 1 r.state_revision
    && leb 1 r.expected_state_revision
    && all valid_activity r.activities
    && ltb_ℤ r.window_start r.window_end
    && distinct (map (λ a. a.activity_id) r.activities)
    && distinct (map (λ b. b.block_id) r.baseline_blocks)
    && all valid_window r.energy_windows
    && all valid_block r.baseline_blocks

-- `WeekPlanRequest.validate_week`: exactly seven days.
unfoldable pub valid_week : DayPlanRequest → Bool
valid_week r =
    valid_request r
    && leb_ℤ (r.window_end -ℤ r.window_start) (pos 10080)
    && leb_ℤ (pos 10080) (r.window_end -ℤ r.window_start)

pub record ScoreBreakdown : Type 0 where
  pub deadline : ℤ
  pub dependency : ℕ
  pub travel : ℤ
  pub energy : ℕ
  pub goal : ℕ
  pub importance : ℕ
  pub total : ℤ

pub data UnscheduledReason : Type 0 where
  fixed_conflict missing_dependency dependency_unscheduled no_capacity : UnscheduledReason

pub record UnscheduledActivity : Type 0 where
  pub activity_id : String
  pub reason : UnscheduledReason
  pub detail : String
  pub blocking_activity_ids : List String

pub data PlanStatus : Type 0 where
  feasible partial infeasible : PlanStatus
