-- ===== src/Planner/Flexible/Listed.antt =====
-- planner_placement.py: removals from the dict `flexible`, and its length and ids.
use personal_secretary.Prelude.{
  ◌-◌, ◌≤◌, ◌<◌, ◌≡◌, false, List, [], ◌∷◌, arith, String, All, map, count, length, is_empty,
  eq_iff, str_eq, if◌then◌else◌,
}
use personal_secretary.Planner.Models.{PlanActivity}
use personal_secretary.Planner.Flexible.{remove, remove_each}

abbrev pub ids : List PlanActivity → List String
ids = map (λ a. a.activity_id)

-- The dict has an entry for the id.
abbrev pub Listed : List PlanActivity → String → Type 0
Listed fl k = 1 ≤ count k (ids fl)

pub count-remove :
    (k j : String) (fl : List PlanActivity)
    → count k (ids (remove j fl)) ≡ count k (ids fl) - (if str_eq j k then 1 else 0)
unfolding remove count
count-remove k j [] = ground arith
count-remove k j (a ∷ fl) =
    ground (arith, count-remove k j fl, eq_iff a.activity_id j, eq_iff a.activity_id k, eq_iff j k)

pub count-remove_each :
    (k : String) (xs fl : List PlanActivity)
    → count k (ids (remove_each xs fl)) ≡ count k (ids fl) - count k (ids xs)
unfolding remove_each count
count-remove_each k [] fl = omega arith
count-remove_each k (x ∷ xs) fl =
    ground
      (arith, count-remove_each k xs (remove x.activity_id fl), count-remove k x.activity_id fl)

length-remove-le : (j : String) (fl : List PlanActivity) → length (remove j fl) ≤ length fl
unfolding remove
length-remove-le j [] = omega arith
length-remove-le j (a ∷ fl) = ground (arith, length-remove-le j fl)

pub length-remove :
    (j : String) (fl : List PlanActivity) → Listed fl j → length (remove j fl) < length fl
unfolding remove count
length-remove j [] h = absurd (omega arith)
length-remove j (a ∷ fl) h = ground (arith, length-remove j fl)

pub length-remove_each-le : (xs fl : List PlanActivity) → length (remove_each xs fl) ≤ length fl
unfolding remove_each
length-remove_each-le [] fl = omega arith
length-remove_each-le (x ∷ xs) fl =
    omega
      (arith, length-remove_each-le xs (remove x.activity_id fl), length-remove-le x.activity_id fl)

pub length-remove_each :
    (xs fl : List PlanActivity)
    → is_empty xs ≡ false
    → All (λ a. Listed fl a.activity_id) xs
    → length (remove_each xs fl) < length fl
unfolding remove_each
length-remove_each [] fl e h = cc
length-remove_each (x ∷ xs) fl e h =
    omega (
      arith,
      length-remove_each-le xs (remove x.activity_id fl),
      length-remove x.activity_id fl h.0,
    )
