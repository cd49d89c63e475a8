-- ===== src/Planner/Blocks.antt =====
-- planner_results.py and planner_explanation.py: the gapless minute blocks of a plan.
pub mod Separate
pub mod Tiling
use Prim.Native.String.{◌++◌ as text_append}
use personal_secretary.Prelude.{
  ℕ, String, Bool, true, false, Option, none, some, List, [], ◌∷◌, ◌++◌, ltb, str_le, if◌then◌else◌,
}
use personal_secretary.Prelude.Int.{pos, ltb_ℤ}
use personal_secretary.Prelude.Sort.{sort_by}
use personal_secretary.Planner.Models.{Time, ActivityFlexibility, PlanActivity, DayPlanRequest}
use personal_secretary.Planner.Reservation.{Placement, reservation_start, reservation_end}

pub data PlanBlockKind : Type 0 where
  fixed flexible protected travel available : PlanBlockKind

pub data ExplanationCode : Type 0 where
  fixed protected scheduled overdue infeasible : ExplanationCode

pub record PlanBlock : Type 0 where
  pub block_id : String
  pub activity_id : Option String
  pub title : String
  pub kind : PlanBlockKind
  pub starts_at : Time
  pub ends_at : Time
  pub display_group : Option String
  pub display_title : Option String
  pub guidance : List String
  pub deadline : Option Time
  pub explanation_code : Option ExplanationCode
  pub calendar_eligible : Bool
  pub personal_micro_event : Bool

-- What the planner asks of the request's time zone: the local wall clock at an instant, without
-- the offset, the ISO text of an instant, and whether a time that it proposes and one of the baseline
-- are equal as `datetime` compares them: by wall clocks within one time zone, else by instants.
pub record Zone : Type 0 where
  pub wall : Time → Time
  pub isoformat : Time → String
  pub same_time : Time → Time → Bool

unfoldable pub block_kind : ActivityFlexibility → PlanBlockKind
block_kind ActivityFlexibility.fixed = PlanBlockKind.fixed
block_kind ActivityFlexibility.flexible = PlanBlockKind.flexible
block_kind ActivityFlexibility.protected = PlanBlockKind.protected

abbrev pub flexibility_code : ActivityFlexibility → ExplanationCode
flexibility_code ActivityFlexibility.fixed = ExplanationCode.fixed
flexibility_code ActivityFlexibility.protected = ExplanationCode.protected
flexibility_code ActivityFlexibility.flexible = ExplanationCode.scheduled

abbrev pub is_overdue : Option Time → Time → Bool
is_overdue none start = false
is_overdue (some deadline) start = ltb_ℤ deadline start

unfoldable pub explanation_code_of : PlanActivity → DayPlanRequest → ExplanationCode
explanation_code_of activity request =
    if is_overdue activity.deadline request.window_start
    then ExplanationCode.overdue
    else flexibility_code activity.flexibility

abbrev or_else {ℓ} : {A : Type ℓ} → Option A → A → A
or_else none d = d
or_else (some a) d = a

-- `_travel_block`, before and after the activity.
unfoldable pub travel_before : Placement → ExplanationCode → PlanBlock
travel_before p code =
    let activity = p.activity in
    record {
      block_id = text_append "travel-before:" activity.activity_id;
      activity_id = some activity.activity_id;
      title = text_append "Travel to " activity.title;
      kind = PlanBlockKind.travel;
      starts_at = reservation_start p;
      ends_at = p.starts_at;
      display_group = activity.display_group;
      display_title = some (or_else activity.display_title activity.title);
      guidance = activity.guidance;
      deadline = activity.deadline;
      explanation_code = some code;
      calendar_eligible = activity.calendar_eligible;
      personal_micro_event = activity.personal_micro_event;
    }

unfoldable pub travel_after : Placement → ExplanationCode → PlanBlock
travel_after p code =
    let activity = p.activity in
    record {
      block_id = text_append "travel-after:" activity.activity_id;
      activity_id = some activity.activity_id;
      title = text_append "Travel from " activity.title;
      kind = PlanBlockKind.travel;
      starts_at = p.ends_at;
      ends_at = reservation_end p;
      display_group = activity.display_group;
      display_title = some (or_else activity.display_title activity.title);
      guidance = activity.guidance;
      deadline = activity.deadline;
      explanation_code = some code;
      calendar_eligible = activity.calendar_eligible;
      personal_micro_event = activity.personal_micro_event;
    }

unfoldable pub activity_block : Placement → ExplanationCode → PlanBlock
activity_block p code =
    let activity = p.activity in
    record {
      block_id = text_append "activity:" activity.activity_id;
      activity_id = some activity.activity_id;
      title = activity.title;
      kind = block_kind activity.flexibility;
      starts_at = p.starts_at;
      ends_at = p.ends_at;
      display_group = activity.display_group;
      display_title = activity.display_title;
      guidance = activity.guidance;
      deadline = activity.deadline;
      explanation_code = some code;
      calendar_eligible = activity.calendar_eligible;
      personal_micro_event = activity.personal_micro_event;
    }

unfoldable pub available_block : Zone → Time → Time → PlanBlock
available_block zone starts_at ends_at = record {
  block_id = text_append "available:" (zone.isoformat starts_at);
  activity_id = none;
  title = "Available";
  kind = PlanBlockKind.available;
  starts_at = starts_at;
  ends_at = ends_at;
  display_group = none;
  display_title = none;
  guidance = [];
  deadline = none;
  explanation_code = none;
  calendar_eligible = false;
  personal_micro_event = false;
}

-- The blocks of one placement: `if activity.travel_minutes_before:` and so on.
abbrev pub after_blocks : Placement → ExplanationCode → List PlanBlock
after_blocks p code = if ltb 0 p.activity.travel_minutes_after then travel_after p code ∷ [] else []

unfoldable pub placement_blocks : DayPlanRequest → Placement → List PlanBlock
placement_blocks request p =
    let code = explanation_code_of p.activity request in
    let rest = activity_block p code ∷ after_blocks p code in
    if ltb 0 p.activity.travel_minutes_before then travel_before p code ∷ rest else rest

unfoldable pub activity_blocks : DayPlanRequest → List Placement → List PlanBlock
activity_blocks request [] = []
activity_blocks request (p ∷ ps) = placement_blocks request p ++ activity_blocks request ps

-- The sort key (start, block id).
unfoldable pub block_le : PlanBlock → PlanBlock → Bool
block_le a b =
    if ltb_ℤ a.starts_at b.starts_at
    then true
    else if ltb_ℤ b.starts_at a.starts_at
    then false
    else str_le a.block_id b.block_id

-- The loop over the sorted blocks, with an available block in each gap.
unfoldable pub fill : Zone → Time → List PlanBlock → Time → List PlanBlock
fill zone cursor [] window_end =
    if ltb_ℤ cursor window_end then available_block zone cursor window_end ∷ [] else []
fill zone cursor (b ∷ bs) window_end =
    let rest = b ∷ fill zone b.ends_at bs window_end in
    if ltb_ℤ cursor b.starts_at then available_block zone cursor b.starts_at ∷ rest else rest

unfoldable pub build_internal_plan : Zone → DayPlanRequest → List Placement → List PlanBlock
build_internal_plan zone request placements =
    fill zone request.window_start (sort_by block_le (activity_blocks request placements))
      request.window_end
