-- ===== src/Planner/Flexible.antt =====
-- planner_placement.py: `place_flexible`.
pub mod Schedule
pub mod Listed
pub mod Accounting
pub mod Progress
pub mod Durations
pub mod Extends
use personal_secretary.Prelude.{
  Option, none, some, is_empty, ℕ, zero, suc, String, Bool, true, false, not, none, some, List, [],
  ◌∷◌, ◌++◌, map, length, keep, subset, str_eq, str_le, if◌then◌else◌,
}
use personal_secretary.Prelude.Int.{ltb_ℤ}
use personal_secretary.Prelude.Sort.{sort_by, min_by}
use personal_secretary.Planner.Models.{
  is_flexible, PlanActivity, DayPlanRequest, UnscheduledReason, UnscheduledActivity,
}
use personal_secretary.Planner.Reservation.{Placement, activity_id}
use personal_secretary.Sets.{sorted_difference}
use personal_secretary.Planner.Search.{best_placement}

-- The state of the loop of `place_flexible`. The dict `flexible` holds each activity under its own
-- id, in the order of insertion.
pub record LoopState : Type 0 where
  pub flexible : List PlanActivity
  pub placements : List Placement
  pub scheduled_ids : List String
  pub unscheduled : List UnscheduledActivity

-- `del flexible[k]`
unfoldable pub remove : String → List PlanActivity → List PlanActivity
remove k [] = []
remove k (a ∷ rest) =
    let others = remove k rest in if str_eq a.activity_id k then rest else a ∷ others

unfoldable pub remove_each : List PlanActivity → List PlanActivity → List PlanActivity
remove_each [] flexible = flexible
remove_each (a ∷ rest) flexible = remove_each rest (remove a.activity_id flexible)

-- `flexible[a.activity_id] = a` of the dict comprehension.
unfoldable pub put : List PlanActivity → PlanActivity → List PlanActivity
put [] a = a ∷ []
put (b ∷ bs) a =
    let rest = put bs a in if str_eq b.activity_id a.activity_id then a ∷ bs else b ∷ rest

unfoldable pub by_id : List PlanActivity → List PlanActivity → List PlanActivity
by_id flexible [] = flexible
by_id flexible (a ∷ rest) = by_id (put flexible a) rest

abbrev pub id_le : PlanActivity → PlanActivity → Bool
id_le a b = str_le a.activity_id b.activity_id

unfoldable pub missing_dependency : List String → PlanActivity → UnscheduledActivity
missing_dependency all_ids a = record {
  activity_id = a.activity_id;
  reason = UnscheduledReason.missing_dependency;
  detail = "Dependency does not exist in this canonical snapshot.";
  blocking_activity_ids = sorted_difference a.dependencies all_ids;
}

unfoldable pub no_capacity : PlanActivity → UnscheduledActivity
no_capacity a = record {
  activity_id = a.activity_id;
  reason = UnscheduledReason.no_capacity;
  detail = "No nonconflicting minute interval satisfies all hard constraints.";
  blocking_activity_ids = [];
}

unfoldable pub dependency_unscheduled : List String → PlanActivity → UnscheduledActivity
dependency_unscheduled scheduled_ids a = record {
  activity_id = a.activity_id;
  reason = UnscheduledReason.dependency_unscheduled;
  detail = "A required dependency was not scheduled.";
  blocking_activity_ids = sorted_difference a.dependencies scheduled_ids;
}

-- Who names an unknown dependency, sorted by id.
unfoldable pub missing_activities : List String → LoopState → List PlanActivity
missing_activities all_ids s =
    sort_by id_le (keep (λ a. not (subset a.dependencies all_ids)) s.flexible)

-- The first part of the loop's body gives those up.
unfoldable pub drop_missing : List String → LoopState → LoopState
drop_missing all_ids s =
    let missing = missing_activities all_ids s in
    record s {
      flexible = remove_each missing s.flexible;
      unscheduled = s.unscheduled ++ map (missing_dependency all_ids) missing;
    }

unfoldable pub eligible : LoopState → List PlanActivity
eligible s = keep (λ a. subset a.dependencies s.scheduled_ids) s.flexible

-- `if (placement := best_placement(...)) is not None`
abbrev pub add_found : Option Placement → List Placement → List Placement
add_found none rest = rest
add_found (some p) rest = p ∷ rest

unfoldable pub candidates :
    DayPlanRequest → (String → ℕ) → List Placement → List PlanActivity → List Placement
candidates request counts placements [] = []
candidates request counts placements (a ∷ rest) =
    add_found (best_placement a request placements counts)
      (candidates request counts placements rest)

-- The order of the key (-total, start, id).
unfoldable pub better : Placement → Placement → Bool
better p q =
    if ltb_ℤ q.score.total p.score.total
    then true
    else if ltb_ℤ p.score.total q.score.total
    then false
    else if ltb_ℤ p.starts_at q.starts_at
    then true
    else if ltb_ℤ q.starts_at p.starts_at
    then false
    else str_le (activity_id p) (activity_id q)

unfoldable pub accept : Placement → LoopState → LoopState
accept chosen s = record {
  flexible = remove (activity_id chosen) s.flexible;
  placements = s.placements ++ chosen ∷ [];
  scheduled_ids = s.scheduled_ids ++ activity_id chosen ∷ [];
  unscheduled = s.unscheduled;
}

unfoldable pub give_up_eligible : List PlanActivity → LoopState → LoopState
give_up_eligible es s =
    let sorted = sort_by id_le es in
    record s {
      flexible = remove_each sorted s.flexible;
      unscheduled = s.unscheduled ++ map no_capacity sorted;
    }

unfoldable pub give_up_rest : LoopState → LoopState
give_up_rest s = record s {
  flexible = [];
  unscheduled =
      s.unscheduled ++ map (dependency_unscheduled s.scheduled_ids) (sort_by id_le s.flexible);
}

-- The three ways in which an iteration ends, by the candidates and the eligible activities.
unfoldable pub conclude : List Placement → List PlanActivity → LoopState → LoopState
conclude (c ∷ cs) es s = accept (min_by better c cs) s
conclude [] (e ∷ es) s = give_up_eligible (e ∷ es) s
conclude [] [] s = give_up_rest s

unfoldable pub iteration : DayPlanRequest → (String → ℕ) → List String → LoopState → LoopState
iteration request counts all_ids s₀ =
    let s = drop_missing all_ids s₀ in
    conclude (candidates request counts s.placements (eligible s)) (eligible s) s

-- `while flexible:`, with fuel.
unfoldable pub loop : DayPlanRequest → (String → ℕ) → List String → ℕ → LoopState → LoopState
loop request counts all_ids zero s = s
loop request counts all_ids (suc fuel) s =
    let rest = loop request counts all_ids fuel (iteration request counts all_ids s) in
    if is_empty s.flexible then s else rest

unfoldable pub flexible_activities : DayPlanRequest → List PlanActivity
flexible_activities request = by_id [] (keep (λ a. is_flexible a.flexibility) request.activities)

unfoldable pub place_flexible : DayPlanRequest → List Placement → (String → ℕ) → LoopState
place_flexible request placements counts =
    let flexible = flexible_activities request in
    loop request counts (map (λ a. a.activity_id) request.activities) (length flexible) (record {
      flexible = flexible;
      placements = placements;
      scheduled_ids = map activity_id placements;
      unscheduled = [];
    })
