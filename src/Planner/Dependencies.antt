-- ===== src/Planner/Dependencies.antt =====
-- planner_placement.py: `invalid_dependencies`.
pub mod Met
pub mod Exact
use personal_secretary.Prelude.{
  String, Bool, true, Option, none, some, List, [], ◌∷◌, map, any, keep, str_eq, if◌then◌else◌,
}
use personal_secretary.Prelude.Int.{ltb_ℤ}
use personal_secretary.Planner.Reservation.{Placement, activity_id}
use personal_secretary.Sets.{set_of}

-- `by_id[dependency]`: the last placement of that id.
unfoldable pub placement_of : String → List Placement → Option Placement
placement_of k [] = none
placement_of k (p ∷ ps) =
    let rest = placement_of k ps in
    elim rest [ none ↦ (if str_eq (activity_id p) k then some p else none) | some q ↦ some q ]

-- `dependency not in by_id or by_id[dependency].ends_at > placement.starts_at`
unfoldable pub unmet : List Placement → Placement → String → Bool
unmet placements p dependency = elim (placement_of dependency placements) [
  | none ↦ true
  | some d ↦ ltb_ℤ p.starts_at d.ends_at
]

unfoldable pub broken : List Placement → Placement → Bool
broken placements p = any (unmet placements p) p.activity.dependencies

unfoldable pub invalid_dependencies : List Placement → List String
invalid_dependencies placements = set_of (map activity_id (keep (broken placements) placements))
