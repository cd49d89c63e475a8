-- ===== src/Planner/Flexible/Schedule.antt =====
-- planner_placement.py: the reservations that the loop of `place_flexible` makes.
use personal_secretary.Prelude.{
  refl, some, none, Option, is_empty, ℕ, zero, suc, ◌≡◌, true, Bool-cases, inl, inr, List, [], ◌∷◌,
  ◌++◌, arith, String, All, All-append, Pairwise-append_one, all,
}
use personal_secretary.Prelude.Sort.{min_by, min_by_mem}
use personal_secretary.Planner.Models.{PlanActivity, DayPlanRequest}
use personal_secretary.Planner.Reservation.{IsSchedule, Placement, InBounds, Apart, Apart-sym}
use personal_secretary.Planner.Search.{is_free, best_placement}
use personal_secretary.Planner.Search.Bounds.{Fits, best_placement-Fits}
use personal_secretary.Planner.Flexible.{
  add_found, LoopState, candidates, better, accept, conclude, iteration, drop_missing, eligible,
  give_up_eligible, give_up_rest, loop, place_flexible,
}

is_free-Apart :
    (p : Placement) (ps : List Placement) → is_free p ps ≡ true → All (λ q. Apart q p) ps
unfolding is_free all
is_free-Apart p [] h = tt
is_free-Apart p (q ∷ qs) h = (Apart-sym p q (ground arith), is_free-Apart p qs (ground arith))

module _ (request : DayPlanRequest) (counts : String → ℕ) where
  pub candidates-Fits :
      (ps : List Placement) (es : List PlanActivity)
      → All (Fits request ps) (candidates request counts ps es)
  unfolding candidates
  candidates-Fits ps [] = tt
  candidates-Fits ps (e ∷ es) =
      by_best (best_placement e request ps counts) (λ p. best_placement-Fits e request ps counts)
        (candidates-Fits ps es)
    where
      by_best :
          (o : Option Placement)
          → ((p : Placement) → o ≡ some p → (p.activity ≡ e) × Fits request ps p)
          → All (Fits request ps) (candidates request counts ps es)
          → All (Fits request ps) (add_found o (candidates request counts ps es))
      by_best none found h = h
      by_best (some p) found h = ((found p refl).1, h)

  append-IsSchedule :
      (ps : List Placement) (p : Placement)
      → IsSchedule request ps
      → Fits request ps p
      → IsSchedule request (ps ++ p ∷ [])
  append-IsSchedule ps p h fits = record {
    in_bounds = All-append (InBounds request) ps (p ∷ []) h.in_bounds (fits.in_bounds, tt);
    apart = Pairwise-append_one Apart ps p h.apart (is_free-Apart p ps fits.free);
  }

  conclude-IsSchedule :
      (cs : List Placement) (es : List PlanActivity) (s : LoopState)
      → All (Fits request s.placements) cs
      → IsSchedule request s.placements
      → IsSchedule request (conclude cs es s).placements
  unfolding conclude accept give_up_eligible give_up_rest
  conclude-IsSchedule (c ∷ cs) es s f h =
      append-IsSchedule s.placements (min_by better c cs) h
        (min_by_mem better (Fits request s.placements) c cs f.0 f.1)
  conclude-IsSchedule [] (e ∷ es) s f h = h
  conclude-IsSchedule [] [] s f h = h

  iteration-IsSchedule :
      (all_ids : List String) (s : LoopState)
      → IsSchedule request s.placements
      → IsSchedule request (iteration request counts all_ids s).placements
  unfolding iteration drop_missing
  iteration-IsSchedule all_ids s h =
      let t = drop_missing all_ids s in
      conclude-IsSchedule (candidates request counts t.placements (eligible t)) (eligible t) t
        (candidates-Fits t.placements (eligible t)) h

  loop-IsSchedule :
      (all_ids : List String) (fuel : ℕ) (s : LoopState)
      → IsSchedule request s.placements
      → IsSchedule request (loop request counts all_ids fuel s).placements
  unfolding loop
  loop-IsSchedule all_ids zero s h = h
  loop-IsSchedule all_ids (suc fuel) s h = elim (Bool-cases (is_empty s.flexible)) [
    | inl done ↦ rw done h
    | inr more ↦ rw more (
        loop-IsSchedule all_ids fuel (iteration request counts all_ids s)
          (iteration-IsSchedule all_ids s h))
  ]

  -- From reservations that meet the hard constraints and share no minute, `place_flexible` makes
  -- such reservations: every placement lies in the planning window with its travel, satisfies the
  -- earliest start, latest end and hard deadline of its activity, and no two overlap.
  pub place_flexible-IsSchedule :
      (ps : List Placement)
      → IsSchedule request ps
      → IsSchedule request (place_flexible request ps counts).placements
  unfolding place_flexible
  place_flexible-IsSchedule ps h = loop-IsSchedule _ _ _ h
