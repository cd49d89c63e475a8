-- ===== src/Planner/Flexible/Accounting.antt =====
-- planner_placement.py: where the activities of `place_flexible` end up.
use personal_secretary.Prelude.{
  str_eq, eq_iff, ℕ, zero, suc, ◌+◌, ◌≤◌, ◌≡◌, refl, ◌∙◌, ap, not, Bool-cases, inl, inr, List, [],
  ◌∷◌, ◌++◌, arith, String, All, keep, count-keep-le, count-append, map-map_name, map, count,
  is_empty, subset, if◌then◌else◌,
}
use mathlib.Core.List.{map-append}
use personal_secretary.Prelude.Sort.{sort_by, count-sort_by, min_by, min_by_mem}
use personal_secretary.Planner.Models.{PlanActivity, DayPlanRequest, UnscheduledActivity}
use personal_secretary.Planner.Reservation.{Placement, activity_id}
use personal_secretary.Planner.Flexible.{
  id_le, remove_each, LoopState, missing_dependency, no_capacity, dependency_unscheduled,
  missing_activities, candidates, better, accept, conclude, iteration, drop_missing, eligible,
  give_up_eligible, give_up_rest, loop, place_flexible, flexible_activities,
}
use personal_secretary.Planner.Flexible.Listed.{ids, Listed, count-remove, count-remove_each}
use personal_secretary.Planner.Flexible.Progress.{
  eligible-AllListed, candidates-All, place_flexible_done,
}

abbrev pub placed_ids : List Placement → List String
placed_ids = map activity_id

abbrev pub unscheduled_ids : List UnscheduledActivity → List String
unscheduled_ids = map (λ u. u.activity_id)

-- How often an id stands in the three lists of the loop's state together.
abbrev pub tally : String → LoopState → ℕ
tally k s =
    count k (ids s.flexible)
    + count k (placed_ids s.placements)
    + count k (unscheduled_ids s.unscheduled)

count_nil : (k : String) → count k [] ≡ 0
unfolding count
count_nil k = refl

count_one : (k j : String) → count k (j ∷ []) ≡ (if str_eq j k then 1 else 0)
unfolding count
count_one k j = ground arith

module _ (k : String) where
  -- Entries appended for the activities `xs` count as `xs` do.
  give_up_count :
      (f : PlanActivity → UnscheduledActivity) (us : List UnscheduledActivity)
      (xs : List PlanActivity)
      → ((a : PlanActivity) → (f a).activity_id ≡ a.activity_id)
      → count k (unscheduled_ids (us ++ map f xs)) ≡ count k (unscheduled_ids us) + count k (ids xs)
  give_up_count f us xs h =
      rw (map-append, count-append, map-map_name (λ a. a.activity_id) (λ u. u.activity_id) f xs h)

  -- So removing them from `flexible` leaves the tally alone.
  give_up_tally :
      (f : PlanActivity → UnscheduledActivity) (s : LoopState) (xs : List PlanActivity)
      → ((a : PlanActivity) → (f a).activity_id ≡ a.activity_id)
      → count k (ids xs) ≤ count k (ids s.flexible)
      → tally k (record s {
        flexible = remove_each xs s.flexible;
        unscheduled = s.unscheduled ++ map f xs;
      })
        ≡ tally k s
  give_up_tally f s xs h le =
      omega (arith, give_up_count f s.unscheduled xs h, count-remove_each k xs s.flexible)

  drop_missing-tally :
      (all_ids : List String) (s : LoopState) → tally k (drop_missing all_ids s) ≡ tally k s
  unfolding drop_missing missing_activities missing_dependency
  drop_missing-tally all_ids s =
      let unknown = λ (a : PlanActivity). not (subset a.dependencies all_ids) in
      give_up_tally (missing_dependency all_ids) s (missing_activities all_ids s) (λ a. refl)
        (omega (
          arith,
          count-sort_by id_le (λ a. a.activity_id) k (keep unknown s.flexible),
          count-keep-le (λ a. a.activity_id) k unknown s.flexible,
        ))

  placed_append :
      (ps : List Placement) (p : Placement)
      → count k (placed_ids (ps ++ p ∷ []))
        ≡ count k (placed_ids ps) + (if str_eq (activity_id p) k then 1 else 0)
  placed_append ps p = rw (map-append, count-append, count_one)

  accept-tally :
      (p : Placement) (s : LoopState)
      → Listed s.flexible (activity_id p)
      → tally k (accept p s) ≡ tally k s
  unfolding accept
  accept-tally p s listed = elim (Bool-cases (str_eq (activity_id p) k)) [
    | inl same ↦
        let listed_k : Listed s.flexible k = (rw ((eq_iff (activity_id p) k).0 same) at listed) in
        omega (
          arith,
          (rw same at (count-remove k (activity_id p) s.flexible)),
          (rw same at (placed_append s.placements p)),
        )
    | inr other ↦ omega (
      arith,
      (rw other at (count-remove k (activity_id p) s.flexible)),
      (rw other at (placed_append s.placements p)),
    )
  ]

  conclude-tally :
      (cs : List Placement) (es : List PlanActivity) (s : LoopState)
      → All (λ (p : Placement). Listed s.flexible (activity_id p)) cs
      → count k (ids es) ≤ count k (ids s.flexible)
      → tally k (conclude cs es s) ≡ tally k s
  unfolding conclude give_up_eligible give_up_rest no_capacity dependency_unscheduled
  conclude-tally (c ∷ cs) es s listed le =
      accept-tally (min_by better c cs) s
        (min_by_mem better (λ p. Listed s.flexible (activity_id p)) c cs listed.0 listed.1)
  conclude-tally [] (e ∷ es) s listed le =
      give_up_tally no_capacity s (sort_by id_le (e ∷ es)) (λ a. refl)
        (omega (arith, count-sort_by id_le (λ a. a.activity_id) k (e ∷ es)))
  conclude-tally [] [] s listed le = omega (
    arith,
    give_up_count (dependency_unscheduled s.scheduled_ids) s.unscheduled (sort_by id_le s.flexible)
        (λ a. refl),
    count-sort_by id_le (λ a. a.activity_id) k s.flexible,
    count_nil k,
  )

module _ (request : DayPlanRequest) (counts : String → ℕ) (k : String) where
  iteration-tally :
      (all_ids : List String) (s : LoopState)
      → tally k (iteration request counts all_ids s) ≡ tally k s
  unfolding iteration eligible
  iteration-tally all_ids s =
      let t = drop_missing all_ids s in
      let es = eligible t in
      conclude-tally k (candidates request counts t.placements es) es t
        (candidates-All request counts (λ a. Listed t.flexible a.activity_id) t.placements es
          (eligible-AllListed t))
        (count-keep-le (λ a. a.activity_id) k (λ a. subset a.dependencies t.scheduled_ids)
          t.flexible)
      ∙ drop_missing-tally k all_ids s

  loop-tally :
      (all_ids : List String) (fuel : ℕ) (s : LoopState)
      → tally k (loop request counts all_ids fuel s) ≡ tally k s
  unfolding loop
  loop-tally all_ids zero s = refl
  loop-tally all_ids (suc fuel) s = elim (Bool-cases (is_empty s.flexible)) [
    | inl done ↦ rw done
    | inr more ↦
        rw more
          (loop-tally all_ids fuel (iteration request counts all_ids s) ∙ iteration-tally all_ids s)
  ]

  -- As often as an id is flexible or reserved at the start of `place_flexible`, it is placed or
  -- listed as unscheduled at its end.
  pub place_flexible-accounts :
      (ps : List Placement)
      → count k (placed_ids (place_flexible request ps counts).placements)
          + count k (unscheduled_ids (place_flexible request ps counts).unscheduled)
        ≡ count k (ids (flexible_activities request)) + count k (placed_ids ps)
  unfolding place_flexible
  place_flexible-accounts ps = omega (
    arith,
    loop-tally _ _ _,
    count_nil k,
    ap (λ fl. count k (ids fl)) (place_flexible_done request counts ps),
  )
