-- ===== src/Planner/Projection.antt =====
-- planner_projection.py and the results of planner_results.py that it makes: the calendar projection of
-- the blocks, and the diff to a baseline.
pub mod Merged
pub mod Diffed
pub mod Examples
use Prim.Native.String.{◌++◌ as text_append}
use personal_secretary.Prelude.{
  String, Bool, true, false, not, ◌&&◌, ◌||◌, Option, none, some, List, [], ◌∷◌, ◌++◌, contains,
  keep, map, str_eq, str_le, if◌then◌else◌,
}
use personal_secretary.Prelude.Int.{leb_ℤ}
use personal_secretary.Prelude.Sort.{sort_by}
use personal_secretary.Planner.Models.{Time, ExistingPlanBlock}
use personal_secretary.Planner.Blocks.{Zone, PlanBlock, PlanBlockKind, ExplanationCode}

pub record CalendarBlock : Type 0 where
  pub block_id : String
  pub display_group : String
  pub title : String
  pub starts_at : Time
  pub ends_at : Time
  pub source_activity_ids : List String
  pub segment_titles : List String
  pub transitions : List String
  pub deadlines : List Time
  pub guidance : List String
  pub explanation_codes : List ExplanationCode

pub record BlockChange : Type 0 where
  pub block_id : String
  pub activity_id : String
  pub title : String
  pub starts_at : Time
  pub ends_at : Time

pub record MovedBlock : Type 0 where
  pub block_id : String
  pub activity_id : String
  pub title : String
  pub previous_starts_at : Time
  pub previous_ends_at : Time
  pub proposed_starts_at : Time
  pub proposed_ends_at : Time

pub record PlanDiff : Type 0 where
  pub added : List BlockChange
  pub removed : List BlockChange
  pub moved : List MovedBlock

abbrev pub is_available : PlanBlockKind → Bool
is_available PlanBlockKind.available = true
is_available PlanBlockKind.fixed = false
is_available PlanBlockKind.flexible = false
is_available PlanBlockKind.protected = false
is_available PlanBlockKind.travel = false

-- The activity of a block that the loop does not skip.
unfoldable pub eligible_id : PlanBlock → Option String
eligible_id b =
    if is_available b.kind || not b.calendar_eligible || b.personal_micro_event
    then none
    else b.activity_id

abbrev pub text_or : Option String → String → String
text_or none text = text
text_or (some t) text = t

abbrev pub time_eq : Time → Time → Bool
time_eq s t = leb_ℤ s t && leb_ℤ t s

abbrev pub code_eq : ExplanationCode → ExplanationCode → Bool
code_eq ExplanationCode.fixed ExplanationCode.fixed = true
code_eq ExplanationCode.protected ExplanationCode.protected = true
code_eq ExplanationCode.scheduled ExplanationCode.scheduled = true
code_eq ExplanationCode.overdue ExplanationCode.overdue = true
code_eq ExplanationCode.infeasible ExplanationCode.infeasible = true
code_eq _ _ = false

-- Two datetimes of one time zone are equal if their wall clocks are: the offset is not compared.
unfoldable pub can_merge : Zone → CalendarBlock → PlanBlock → String → String → Bool
can_merge zone previous block group title =
    time_eq (zone.wall previous.ends_at) (zone.wall block.starts_at)
    && str_eq previous.title title
    && str_eq previous.display_group group

unfoldable pub append_unique : List String → String → List String
append_unique values value = if contains value values then values else values ++ value ∷ []

unfoldable pub append_many_unique : List String → List String → List String
append_many_unique values [] = values
append_many_unique values (a ∷ rest) = append_many_unique (append_unique values a) rest

-- Deadlines and codes without those that are there.
unfoldable pub has_deadline : Time → List Time → Bool
has_deadline t [] = false
has_deadline t (d ∷ ds) = time_eq d t || has_deadline t ds

unfoldable pub add_deadline : Option Time → List Time → List Time
add_deadline none deadlines = deadlines
add_deadline (some t) deadlines =
    if has_deadline t deadlines then deadlines else deadlines ++ t ∷ []

unfoldable pub has_code : ExplanationCode → List ExplanationCode → Bool
has_code c [] = false
has_code c (d ∷ ds) = code_eq d c || has_code c ds

unfoldable pub add_code : Option ExplanationCode → List ExplanationCode → List ExplanationCode
add_code none codes = codes
add_code (some c) codes = if has_code c codes then codes else codes ++ c ∷ []

-- `values[0]` and `values[-1]`, of lists that have an item.
abbrev pub first_text : List String → String
first_text [] = ""
first_text (t ∷ ts) = t

unfoldable pub last_text : List String → String
last_text [] = ""
last_text (t ∷ []) = t
last_text (t ∷ u ∷ ts) = last_text (u ∷ ts)

unfoldable pub calendar_id : List String → String
calendar_id ids =
    text_append "calendar:" (text_append (first_text ids) (text_append ":" (last_text ids)))

unfoldable pub merged_block : CalendarBlock → PlanBlock → String → CalendarBlock
merged_block previous block activity_id =
    let ids = append_unique previous.source_activity_ids activity_id in
    record previous {
      block_id = calendar_id ids;
      ends_at = block.ends_at;
      source_activity_ids = ids;
      segment_titles = append_unique previous.segment_titles block.title;
      transitions =
          previous.transitions
          ++ text_append (last_text previous.segment_titles) (text_append " -> " block.title) ∷ [];
      deadlines = add_deadline block.deadline previous.deadlines;
      guidance = append_many_unique previous.guidance block.guidance;
      explanation_codes = add_code block.explanation_code previous.explanation_codes;
    }

unfoldable pub calendar_block : PlanBlock → String → String → String → CalendarBlock
calendar_block block activity_id group title = record {
  block_id = calendar_id (activity_id ∷ []);
  display_group = group;
  title = title;
  starts_at = block.starts_at;
  ends_at = block.ends_at;
  source_activity_ids = activity_id ∷ [];
  segment_titles = block.title ∷ [];
  transitions = [];
  deadlines = add_deadline block.deadline [];
  guidance = block.guidance;
  explanation_codes = add_code block.explanation_code [];
}

abbrev pub opened_block : PlanBlock → String → CalendarBlock
opened_block block activity_id =
    calendar_block block activity_id (text_or block.display_group activity_id)
      (text_or block.display_title block.title)

module _ (zone : Zone) where
  -- One block, after the last projected one: the projected blocks that stay, and the new last one.
  abbrev pub step_for :
      CalendarBlock → PlanBlock → Option String → List CalendarBlock × CalendarBlock
  step_for last block none = ([], last)
  step_for last block (some activity_id) =
      if can_merge zone last block (text_or block.display_group activity_id)
        (text_or block.display_title block.title)
      then ([], merged_block last block activity_id)
      else (last ∷ [], opened_block block activity_id)

  -- The loop, with the last projected block at hand.
  unfoldable pub project_after : CalendarBlock → List PlanBlock → List CalendarBlock
  project_after last [] = last ∷ []
  project_after last (b ∷ bs) =
      let (stay, next) = step_for last b (eligible_id b) in stay ++ project_after next bs

  abbrev pub project_first :
      PlanBlock → List PlanBlock → List CalendarBlock → Option String → List CalendarBlock
  project_first b bs rest none = rest
  project_first b bs rest (some activity_id) = project_after (opened_block b activity_id) bs

  unfoldable pub project_calendar : List PlanBlock → List CalendarBlock
  project_calendar [] = []
  project_calendar (b ∷ bs) = project_first b bs (project_calendar bs) (eligible_id b)

-- The dicts by block id: of two blocks with one id the later stands in the place of the first.
module _ {A : Type 0} (id : A → String) where
  unfoldable pub put_block : A → List A → List A
  put_block a [] = a ∷ []
  put_block a (b ∷ bs) =
      let rest = put_block a bs in if str_eq (id b) (id a) then a ∷ bs else b ∷ rest

  unfoldable pub dict_from : List A → List A → List A
  dict_from dict [] = dict
  dict_from dict (a ∷ rest) = dict_from (put_block a dict) rest

  unfoldable pub get_block : String → List A → Option A
  get_block k [] = none
  get_block k (b ∷ bs) = let rest = get_block k bs in if str_eq (id b) k then some b else rest

abbrev pub has_activity : Option String → Bool
has_activity none = false
has_activity (some activity_id) = true

unfoldable pub proposed_dict : List PlanBlock → List PlanBlock
proposed_dict blocks =
    dict_from (λ b. b.block_id) []
      (keep (λ b. has_activity b.activity_id && not (is_available b.kind)) blocks)

unfoldable pub baseline_dict : List ExistingPlanBlock → List ExistingPlanBlock
baseline_dict blocks = dict_from (λ b. b.block_id) [] blocks

unfoldable pub as_change : PlanBlock → BlockChange
as_change block = record {
  block_id = block.block_id;
  activity_id = text_or block.activity_id "unreachable";
  title = block.title;
  starts_at = block.starts_at;
  ends_at = block.ends_at;
}

unfoldable pub removed_change : ExistingPlanBlock → BlockChange
removed_change block = record {
  block_id = block.block_id;
  activity_id = block.activity_id;
  title = block.title;
  starts_at = block.starts_at;
  ends_at = block.ends_at;
}

-- The moved block, if the baseline has it at another time.
abbrev pub moved_from : Zone → PlanBlock → Option ExistingPlanBlock → List MovedBlock
moved_from zone block none = []
moved_from zone block (some old) =
    if zone.same_time block.starts_at old.starts_at && zone.same_time block.ends_at old.ends_at
    then []
    else record {
      block_id = block.block_id;
      activity_id = text_or block.activity_id "unreachable";
      title = block.title;
      previous_starts_at = old.starts_at;
      previous_ends_at = old.ends_at;
      proposed_starts_at = block.starts_at;
      proposed_ends_at = block.ends_at;
    }
      ∷ []

unfoldable pub moved_blocks : Zone → List ExistingPlanBlock → List PlanBlock → List MovedBlock
moved_blocks zone baseline [] = []
moved_blocks zone baseline (b ∷ bs) =
    moved_from zone b (get_block (λ o. o.block_id) b.block_id baseline)
    ++ moved_blocks zone baseline bs

-- `sorted` of the keys, with what they lead to.
unfoldable pub build_diff : Zone → List ExistingPlanBlock → List PlanBlock → PlanDiff
build_diff zone baseline_blocks blocks =
    let proposed = proposed_dict blocks in
    let baseline = baseline_dict baseline_blocks in
    let old_ids = map (λ b. b.block_id) baseline in
    let new_ids = map (λ b. b.block_id) proposed in
    let sorted = sort_by (λ b c. str_le b.block_id c.block_id) in
    record {
      added = map as_change (sorted (keep (λ b. not (contains b.block_id old_ids)) proposed));
      removed = map removed_change (
          sort_by (λ b c. str_le b.block_id c.block_id)
            (keep (λ b. not (contains b.block_id new_ids)) baseline));
      moved = moved_blocks zone baseline (sorted proposed);
    }
