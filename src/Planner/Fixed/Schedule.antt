-- ===== src/Planner/Fixed/Schedule.antt =====
-- planner_placement.py: `place_fixed` and the schedules of the fixed activities.
use mathlib.Core.Path.{subst}
use mathlib.Core.List.{append-nil, append_assoc}
use personal_secretary.Prelude.{
  ◌≡◌, ◌≢◌, refl, sym, ap, ◌∙◌, inl, inr, Bool-cases, List, [], ◌∷◌, ◌++◌, map, arith, String, ℕ,
  All, All-append, Pairwise-append_one, All_middle, Pairwise-middle, ◌↔◌, contains,
}
use personal_secretary.Sets.{set_add}
use personal_secretary.Planner.Models.{PlanActivity, DayPlanRequest}
use personal_secretary.Planner.Reservation.{
  Placement, activity_id, overlaps, outside_window, InBounds, Apart, Apart-sym, IsSchedule,
}
use personal_secretary.Planner.Fixed.{
  add_overlaps, fixed_placement, window_conflicts, place_each, fixed_activities, reserved,
  fixed_result, place_fixed,
}

set_add-ne : (k : String) (s : List String) → set_add k s ≢ []
unfolding set_add contains
set_add-ne k [] h = cc
set_add-ne k (x ∷ s) h = ground arith

add_overlaps-nil :
    (p : Placement) (ps : List Placement) (cs : List String)
    → add_overlaps p ps cs ≡ []
    → (cs ≡ []) × All (λ q. Apart q p) ps
unfolding add_overlaps
add_overlaps-nil p [] cs h = (h, tt)
add_overlaps-nil p (q ∷ ps) cs h = elim (Bool-cases (overlaps p q)) [
  | inl clash ↦ absurd (set_add-ne _ _ (add_overlaps-nil p ps _ (rw clash at h)).0)
  | inr apart ↦
      let (nil, rest) = add_overlaps-nil p ps cs (rw apart at h) in
      (nil, (Apart-sym p q apart, rest))
]

add_overlaps-of_Apart :
    (p : Placement) (ps : List Placement) → All (λ q. Apart q p) ps → add_overlaps p ps [] ≡ []
unfolding add_overlaps
add_overlaps-of_Apart p [] h = refl
add_overlaps-of_Apart p (q ∷ ps) h = rw (Apart-sym q p h.0) (add_overlaps-of_Apart p ps h.1)

window_conflicts-nil :
    (p : Placement) (request : DayPlanRequest) (cs : List String)
    → window_conflicts p request cs ≡ []
    → (cs ≡ []) × InBounds request p
unfolding window_conflicts outside_window
window_conflicts-nil p request cs h =
    ground (
      arith,
      set_add-ne (activity_id p) cs,
      set_add-ne (activity_id p) (set_add (activity_id p) cs),
    )

window_conflicts-of_InBounds :
    (p : Placement) (request : DayPlanRequest)
    → InBounds request p
    → window_conflicts p request [] ≡ []
unfolding window_conflicts outside_window
window_conflicts-of_InBounds p request h = ground arith

module _ (request : DayPlanRequest) (counts : String → ℕ) where
  abbrev pub reservation : PlanActivity → Placement
  reservation = fixed_placement request counts

  -- A conflict is never forgotten.
  place_each-nil :
      (rest : List PlanActivity) (ps : List Placement) (cs : List String)
      → (place_each request counts rest ps cs).1 ≡ []
      → cs ≡ []
  unfolding place_each
  place_each-nil [] ps cs e = e
  place_each-nil (a ∷ rest) ps cs e =
      let p = reservation a in
      let found = window_conflicts p request cs in
      (window_conflicts-nil p request cs
        (add_overlaps-nil p ps found
          (place_each-nil rest (ps ++ p ∷ []) (add_overlaps p ps found) e)).0).0

  -- If the loop ends with no conflict, its reservations are a schedule.
  place_each-IsSchedule :
      (rest : List PlanActivity) (ps : List Placement) (cs : List String)
      → IsSchedule request ps
      → (place_each request counts rest ps cs).1 ≡ []
      → IsSchedule request (place_each request counts rest ps cs).0
  unfolding place_each
  place_each-IsSchedule [] ps cs h e = h
  place_each-IsSchedule (a ∷ rest) ps cs h e =
      let p = reservation a in
      let found = window_conflicts p request cs in
      let (nil, apart) =
        add_overlaps-nil p ps found
          (place_each-nil rest (ps ++ p ∷ []) (add_overlaps p ps found) e) in
      let grown : IsSchedule request (ps ++ p ∷ []) = record {
        in_bounds =
            All-append (InBounds request) ps (p ∷ []) h.in_bounds
              ((window_conflicts-nil p request cs nil).1, tt);
        apart = Pairwise-append_one Apart ps p h.apart apart;
      } in
      place_each-IsSchedule rest (ps ++ p ∷ []) (add_overlaps p ps found) grown e

  -- The loop finds no conflict among reservations that are a schedule.
  place_each_complete :
      (rest : List PlanActivity) (ps : List Placement) (cs : List String)
      → cs ≡ []
      → IsSchedule request (ps ++ map reservation rest)
      → (place_each request counts rest ps cs).1 ≡ []
  unfolding place_each
  place_each_complete [] ps cs e h = e
  place_each_complete (a ∷ rest) ps cs e h =
      let p = reservation a in
      let fits = All_middle (InBounds request) ps p (map reservation rest) h.in_bounds in
      let apart = Pairwise-middle Apart ps p (map reservation rest) h.apart in
      let found = window_conflicts p request cs in
      let none_found : found ≡ [] =
        ap (window_conflicts p request) e ∙ window_conflicts-of_InBounds p request fits in
      place_each_complete rest (ps ++ p ∷ []) (add_overlaps p ps found)
        (ap (add_overlaps p ps) none_found ∙ add_overlaps-of_Apart p ps apart)
        (rw (append_assoc ps (p ∷ []) (map reservation rest)) h)

  place_each-placements :
      (rest : List PlanActivity) (ps : List Placement) (cs : List String)
      → (place_each request counts rest ps cs).0 ≡ ps ++ map reservation rest
  unfolding place_each
  place_each-placements [] ps cs = sym (append-nil ps)
  place_each-placements (a ∷ rest) ps cs =
      place_each-placements rest (ps ++ reservation a ∷ [])
        (add_overlaps (reservation a) ps (window_conflicts (reservation a) request cs))
      ∙ append_assoc ps (reservation a ∷ []) (map reservation rest)

  -- The reservations of all fixed and protected activities.
  abbrev pub fixed_reservations : List Placement
  fixed_reservations = map reservation (fixed_activities request)

  pub IsSchedule-nil : IsSchedule request []
  IsSchedule-nil = record { in_bounds = tt; apart = tt }

  fixed_result-reserved :
      (r : List Placement × List String) {ps : List Placement}
      → fixed_result r ≡ reserved ps
      → (r.1 ≡ []) × (r.0 ≡ ps)
  fixed_result-reserved (qs, []) e = (refl, ground arith)
  fixed_result-reserved (qs, k ∷ ks) e = cc

  fixed_result-of_nil :
      (r : List Placement × List String) → r.1 ≡ [] → fixed_result r ≡ reserved r.0
  fixed_result-of_nil (qs, []) e = refl
  fixed_result-of_nil (qs, k ∷ ks) e = cc

  -- What `place_fixed` reserves is the interval of every fixed or protected activity, each inside
  -- the window and within its activity's bounds, and no two overlapping.
  pub place_fixed-reserved :
      {ps : List Placement}
      → place_fixed request counts ≡ reserved ps
      → (ps ≡ fixed_reservations) × IsSchedule request ps
  unfolding place_fixed
  place_fixed-reserved {ps} e =
      let (nil, same) =
        fixed_result-reserved (place_each request counts (fixed_activities request) [] []) e in
      (
        sym same ∙ place_each-placements (fixed_activities request) [] [],
        subst (IsSchedule request) same
            (place_each-IsSchedule (fixed_activities request) [] [] IsSchedule-nil nil),
      )

  -- `place_fixed` returns the reservations of all fixed activities exactly when they lie in the window
  -- and the time bounds and no two overlap.
  pub place_fixed_exact :
      (place_fixed request counts ≡ reserved fixed_reservations)
      ↔ IsSchedule request fixed_reservations
  unfolding place_fixed
  place_fixed_exact = (
    λ e. (place_fixed-reserved e).1,
    λ h.
        fixed_result-of_nil (place_each request counts (fixed_activities request) [] [])
          (place_each_complete (fixed_activities request) [] [] refl h)
        ∙ ap reserved (place_each-placements (fixed_activities request) [] []),
  )
