-- ===== src/Planner/Flexible/Progress.antt =====
-- planner_placement.py: the length of the dict `flexible` in the loop of `place_flexible`.
use mathlib.Core.Path.{subst}
use personal_secretary.Prelude.{
  ℕ, zero, suc, ◌≤◌, ◌-◌, ◌≡◌, refl, sym, Bool-cases, inl, inr, Option, none, some, List, [], ◌∷◌,
  arith, String, All, All-keep, count_positive, length, is_empty, subset,
}
use personal_secretary.Prelude.Sort.{sort_by, is_empty-sort_by, All-sort_by, min_by, min_by_mem}
use personal_secretary.Planner.Models.{PlanActivity, DayPlanRequest}
use personal_secretary.Planner.Reservation.{Placement, activity_id}
use personal_secretary.Planner.Search.{best_placement}
use personal_secretary.Planner.Search.Bounds.{best_placement-Fits, Fits}
use personal_secretary.Planner.Flexible.{
  add_found, id_le, LoopState, candidates, better, accept, conclude, iteration, drop_missing,
  missing_activities, eligible, give_up_eligible, give_up_rest, loop, place_flexible,
}
use personal_secretary.Planner.Flexible.Listed.{
  Listed, length-remove, length-remove_each, length-remove_each-le,
}

abbrev pub AllListed : List PlanActivity → List PlanActivity → Type 0
AllListed fl = All (λ a. Listed fl a.activity_id)

pub eligible-AllListed : (s : LoopState) → AllListed s.flexible (eligible s)
unfolding eligible
eligible-AllListed s =
    All-keep (λ a. Listed s.flexible a.activity_id) (λ a. subset a.dependencies s.scheduled_ids)
      s.flexible (count_positive (λ a. a.activity_id) s.flexible)

module _ (request : DayPlanRequest) (counts : String → ℕ) where
  -- What holds of the eligible activities holds of the candidates' activities.
  pub candidates-All :
      (P : PlanActivity → Type 0) (ps : List Placement) (es : List PlanActivity)
      → All P es
      → All (λ (p : Placement). P p.activity) (candidates request counts ps es)
  unfolding candidates
  candidates-All P ps [] h = tt
  candidates-All P ps (e ∷ es) h =
      by_best (best_placement e request ps counts) (λ p. best_placement-Fits e request ps counts)
        (candidates-All P ps es h.1)
    where
      by_best :
          (o : Option Placement)
          → ((p : Placement) → o ≡ some p → (p.activity ≡ e) × Fits request ps p)
          → All (λ (p : Placement). P p.activity) (candidates request counts ps es)
          → All (λ (p : Placement). P p.activity) (add_found o (candidates request counts ps es))
      by_best none found k = k
      by_best (some p) found k = (subst P (sym (found p refl).0) h.0, k)

  conclude-length :
      (cs : List Placement) (es : List PlanActivity) (s : LoopState)
      → All (λ (p : Placement). Listed s.flexible (activity_id p)) cs
      → AllListed s.flexible es
      → length (conclude cs es s).flexible ≤ length s.flexible - 1
  unfolding conclude accept give_up_eligible give_up_rest
  conclude-length (c ∷ cs) es s lc le =
      let listed : Listed s.flexible (activity_id (min_by better c cs)) =
        min_by_mem better (λ p. Listed s.flexible (activity_id p)) c cs lc.0 lc.1 in
      omega (arith, length-remove (activity_id (min_by better c cs)) s.flexible listed)
  conclude-length [] (e ∷ es) s lc le = omega (
    arith,
    length-remove_each (sort_by id_le (e ∷ es)) s.flexible (is_empty-sort_by id_le e es)
        (All-sort_by id_le (λ a. Listed s.flexible a.activity_id) (e ∷ es) le),
  )
  conclude-length [] [] s lc le = omega arith

  -- Every iteration from a dict that is not empty leaves a smaller one.
  pub iteration-length :
      (all_ids : List String) (s : LoopState)
      → length (iteration request counts all_ids s).flexible ≤ length s.flexible - 1
  unfolding iteration drop_missing
  iteration-length all_ids s =
      let t = drop_missing all_ids s in
      let es = eligible t in
      omega (
        arith,
        conclude-length (candidates request counts t.placements es) es t
            (candidates-All (λ a. Listed t.flexible a.activity_id) t.placements es
              (eligible-AllListed t))
            (eligible-AllListed t),
        length-remove_each-le (missing_activities all_ids s) s.flexible,
      )

  loop-is_empty :
      (all_ids : List String) (fuel : ℕ) (s : LoopState)
      → length s.flexible ≤ fuel
      → (loop request counts all_ids fuel s).flexible ≡ []
  unfolding loop
  loop-is_empty all_ids zero s h = no_items s.flexible h
    where
      no_items : (fl : List PlanActivity) → length fl ≤ 0 → fl ≡ []
      no_items [] h = refl
      no_items (a ∷ fl) h = absurd (omega arith)
  loop-is_empty all_ids (suc fuel) s h = elim (Bool-cases (is_empty s.flexible)) [
    | inl done ↦ rw done (ground arith)
    | inr more ↦ rw more (
        loop-is_empty all_ids fuel (iteration request counts all_ids s)
          (omega (arith, iteration-length all_ids s)))
  ]

  -- The loop ends by its own test: when `place_flexible` returns, no activity is left over.
  pub place_flexible_done : (ps : List Placement) → (place_flexible request ps counts).flexible ≡ []
  unfolding place_flexible
  place_flexible_done ps = loop-is_empty _ _ _ (omega arith)
