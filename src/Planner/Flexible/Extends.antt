-- ===== src/Planner/Flexible/Extends.antt =====
-- planner_placement.py: the reservations that `place_flexible` starts from, and its result.
use mathlib.Core.List.{append-nil, append_assoc}
use personal_secretary.Prelude.{
  ℕ, zero, suc, ◌≡◌, refl, sym, ◌∙◌, ap, inl, inr, Bool-cases, List, [], ◌∷◌, ◌++◌, String,
  is_empty,
}
use personal_secretary.Prelude.Sort.{min_by}
use personal_secretary.Planner.Models.{PlanActivity, DayPlanRequest}
use personal_secretary.Planner.Reservation.{Placement}
use personal_secretary.Planner.Flexible.{
  LoopState, candidates, better, accept, conclude, iteration, drop_missing, eligible,
  give_up_eligible, give_up_rest, loop, place_flexible,
}

abbrev pub Extends : List Placement → List Placement → Type 0
Extends ps qs = (more : List Placement) × (qs ≡ ps ++ more)

Extends-refl : (ps : List Placement) → Extends ps ps
Extends-refl ps = ([], sym (append-nil ps))

Extends-trans : (ps qs rs : List Placement) → Extends ps qs → Extends qs rs → Extends ps rs
Extends-trans ps qs rs (m, e) (n, f) = (m ++ n, f ∙ ap (λ xs. xs ++ n) e ∙ append_assoc ps m n)

conclude-Extends :
    (cs : List Placement) (es : List PlanActivity) (s : LoopState)
    → Extends s.placements (conclude cs es s).placements
unfolding conclude accept give_up_eligible give_up_rest
conclude-Extends (c ∷ cs) es s = (min_by better c cs ∷ [], refl)
conclude-Extends [] (e ∷ es) s = Extends-refl s.placements
conclude-Extends [] [] s = Extends-refl s.placements

module _ (request : DayPlanRequest) (counts : String → ℕ) where
  loop-Extends :
      (all_ids : List String) (fuel : ℕ) (s : LoopState)
      → Extends s.placements (loop request counts all_ids fuel s).placements
  unfolding loop iteration drop_missing
  loop-Extends all_ids zero s = Extends-refl s.placements
  loop-Extends all_ids (suc fuel) s = elim (Bool-cases (is_empty s.flexible)) [
    | inl done ↦ rw done (Extends-refl s.placements)
    | inr more ↦
        let t = drop_missing all_ids s in
        rw more (
          Extends-trans s.placements (iteration request counts all_ids s).placements
            (loop request counts all_ids fuel (iteration request counts all_ids s)).placements
            (conclude-Extends (candidates request counts t.placements (eligible t)) (eligible t) t)
            (loop-Extends all_ids fuel (iteration request counts all_ids s)))
  ]

  -- The placements that it returns are those that it was given, and others after them.
  pub place_flexible-Extends :
      (ps : List Placement) → Extends ps (place_flexible request ps counts).placements
  unfolding place_flexible
  place_flexible-Extends ps = loop-Extends _ _ _
