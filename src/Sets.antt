-- ===== src/Sets.antt =====
-- Python's sets of texts as lists without repetitions.
use mathlib.Core.List.{foldl}
use personal_secretary.Prelude.{
  String, not, List, [], ◌∷◌, ◌++◌, contains, keep, str_le, if◌then◌else◌,
}
use personal_secretary.Prelude.Sort.{sort_by}

-- A set of ids as a list without repetitions.
unfoldable pub set_add : String → List String → List String
set_add k s = if contains k s then s else s ++ k ∷ []

unfoldable pub set_of : List String → List String
set_of = foldl (λ s k. set_add k s) []

-- `tuple(sorted(set(xs) - ys))`
unfoldable pub sorted_difference : List String → List String → List String
sorted_difference xs ys = sort_by str_le (keep (λ x. not (contains x ys)) (set_of xs))
