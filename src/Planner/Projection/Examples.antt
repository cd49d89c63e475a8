-- ===== src/Planner/Projection/Examples.antt =====
-- planner_projection.py: two adjacent blocks of one group and a private one, and the theorems about them.
use personal_secretary.Prelude.{
  ◌&&◌, String, Bool, true, false, none, some, List, [], ◌∷◌, ◌≡◌, contains, count, map,
  if◌then◌else◌,
}
use personal_secretary.Prelude.Int.{leb_ℤ, pos}
use personal_secretary.Planner.Models.{Time, ExistingPlanBlock}
use personal_secretary.Planner.Blocks.{Zone, PlanBlock, PlanBlockKind, ExplanationCode}
use personal_secretary.Planner.Projection.{project_calendar, build_diff}
use personal_secretary.Planner.Projection.Merged.{
  source_ids, eligible_ids, calendar_minutes, eligible_minutes, project_calendar_exact,
}
use personal_secretary.Planner.Projection.Diffed.{proposed_ids, baseline_ids, build_diff_exact}

abbrev utc : Zone
utc = record { wall = λ t. t; isoformat = λ t. ""; same_time = λ s t. leb_ℤ s t && leb_ℤ t s }

abbrev block : String → Time → Time → Bool → PlanBlock
block activity_id starts_at ends_at personal = record {
  block_id = activity_id;
  activity_id = some activity_id;
  title = activity_id;
  kind = PlanBlockKind.flexible;
  starts_at = starts_at;
  ends_at = ends_at;
  display_group = some "chores";
  display_title = some "Chores";
  guidance = [];
  deadline = none;
  explanation_code = some ExplanationCode.scheduled;
  calendar_eligible = true;
  personal_micro_event = personal;
}

abbrev three_blocks : List PlanBlock
three_blocks =
    block "dishes" (pos 0) (pos 10) false
    ∷ block "laundry" (pos 10) (pos 30) false
    ∷ block "break" (pos 30) (pos 35) true
    ∷ []

project_calendar_exact_example :
    (contains "break" (source_ids (project_calendar utc three_blocks))
      ≡ contains "break" (eligible_ids three_blocks))
    × (calendar_minutes (project_calendar utc three_blocks) ≡ eligible_minutes three_blocks)
project_calendar_exact_example = project_calendar_exact utc (λ s t h. h) three_blocks "break"

abbrev old_blocks : List ExistingPlanBlock
old_blocks =
    record {
      block_id = "dishes";
      activity_id = "dishes";
      title = "Dishes";
      starts_at = pos 5;
      ends_at = pos 15;
    }
    ∷ record {
      block_id = "walk";
      activity_id = "walk";
      title = "Walk";
      starts_at = pos 20;
      ends_at = pos 40;
    }
    ∷ []

build_diff_exact_example :
    let diff = build_diff utc old_blocks three_blocks in
    (count "laundry" (map (λ c. c.block_id) diff.added) ≡ (
      if contains "laundry" (baseline_ids old_blocks)
      then 0
      else if contains "laundry" (proposed_ids three_blocks)
      then 1
      else 0))
    × (count "laundry" (map (λ c. c.block_id) diff.removed) ≡ (
        if contains "laundry" (proposed_ids three_blocks)
        then 0
        else if contains "laundry" (baseline_ids old_blocks)
        then 1
        else 0))
build_diff_exact_example = build_diff_exact utc old_blocks three_blocks "laundry"
