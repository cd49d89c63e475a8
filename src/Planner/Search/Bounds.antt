-- ===== src/Planner/Search/Bounds.antt =====
-- planner_placement.py: the bounds of `best_placement` and the constraints of an activity.
use mathlib.Core.Path.{subst}
use personal_secretary.Prelude.{
  sym, ap, ◌+◌, ◌≡◌, refl, true, Option, none, some, List, [], ◌∷◌, arith, String, ℕ, Bool-cases,
  All, All-of_keep, All-weaken, contains, inl, inr,
}
use personal_secretary.Prelude.Int.{
  pos, ◌+ℤ◌, ◌-ℤ◌, ◌≤ℤ◌, min_ℤ, max_ℤ, int_laws, int_bounds, le→leb_ℤ,
}
use personal_secretary.Planner.Models.{Time, PlanActivity, DayPlanRequest}
use personal_secretary.Planner.Reservation.{
  InBounds, Placement, activity_id, reservation_start, reservation_end, hard_deadline,
  satisfies_time_bounds, at_least, at_most,
}
use personal_secretary.Planner.Search.{
  is_free, predecessors, latest_predecessor, earliest_successor, raise_to, finish_by, lower_bound,
  upper_bound, placement_bounds, candidate_at, best_placement,
}
use personal_secretary.Planner.Search.Exact.{Searched, best_placement-Searched}

latest_predecessor-ge : (lower : Time) (ps : List Placement) → lower ≤ℤ latest_predecessor lower ps
unfolding latest_predecessor
latest_predecessor-ge lower [] = omega arith
latest_predecessor-ge lower (p ∷ ps) =
    omega (int_bounds, latest_predecessor-ge (max_ℤ lower p.ends_at) ps)

latest_predecessor-All :
    (lower : Time) (ps : List Placement) → All (λ p. p.ends_at ≤ℤ latest_predecessor lower ps) ps
unfolding latest_predecessor
latest_predecessor-All lower [] = tt
latest_predecessor-All lower (p ∷ ps) = (
  omega (int_bounds, latest_predecessor-ge (max_ℤ lower p.ends_at) ps),
  latest_predecessor-All (max_ℤ lower p.ends_at) ps,
)

raise_to-ge : (o : Option Time) (lower : Time) → lower ≤ℤ raise_to o lower
raise_to-ge none lower = omega arith
raise_to-ge (some b) lower = omega int_bounds

raise_to-at_least : (o : Option Time) (lower t : Time) → raise_to o lower ≤ℤ t → at_least o t ≡ true
raise_to-at_least none lower t h = refl
raise_to-at_least (some b) lower t h = le→leb_ℤ b t (omega int_bounds)

-- `a` depends on the placed activity, and the other way round.
abbrev pub EndsBefore : PlanActivity → Time → Placement → Type 0
EndsBefore a t q = contains (activity_id q) a.dependencies ≡ true → q.ends_at ≤ℤ t

abbrev pub StartsAfter : PlanActivity → Time → Placement → Type 0
StartsAfter a t q = contains a.activity_id q.activity.dependencies ≡ true → t ≤ℤ q.starts_at

earliest_successor-le :
    (a : PlanActivity) (upper : Time) (ps : List Placement) → earliest_successor a upper ps ≤ℤ upper
unfolding earliest_successor
earliest_successor-le a upper [] = omega arith
earliest_successor-le a upper (p ∷ ps) =
    elim (Bool-cases (contains a.activity_id p.activity.dependencies)) [
      | inl e ↦ rw e (
          omega (
            int_bounds,
            earliest_successor-le a (min_ℤ upper (p.starts_at -ℤ pos a.duration_minutes)) ps,
          ))
      | inr e ↦ rw e (earliest_successor-le a upper ps)
    ]

earliest_successor-All :
    (a : PlanActivity) (upper t : Time) (ps : List Placement)
    → t ≤ℤ earliest_successor a upper ps
    → All (StartsAfter a (t +ℤ pos a.duration_minutes)) ps
unfolding earliest_successor
earliest_successor-All a upper t [] h = tt
earliest_successor-All a upper t (p ∷ ps) h =
    elim (Bool-cases (contains a.activity_id p.activity.dependencies)) [
      | inl e ↦
          let early = min_ℤ upper (p.starts_at -ℤ pos a.duration_minutes) in
          let k : t ≤ℤ earliest_successor a early ps = (rw e at h) in
          (
            λ _. omega (int_bounds, earliest_successor-le a early ps),
            earliest_successor-All a early t ps k,
          )
      | inr e ↦ (λ depends. cc, earliest_successor-All a upper t ps (rw e at h))
    ]

finish_by-le : (d : ℕ) (o : Option Time) (upper : Time) → finish_by d o upper ≤ℤ upper
finish_by-le d none upper = omega arith
finish_by-le d (some b) upper = omega int_bounds

finish_by-at_most :
    (d : ℕ) (o : Option Time) (upper t : Time)
    → t ≤ℤ finish_by d o upper
    → at_most o (t +ℤ pos d) ≡ true
finish_by-at_most d none upper t h = refl
finish_by-at_most d (some b) upper t h = le→leb_ℤ (t +ℤ pos d) b (omega int_bounds)

-- What a flexible placement `p`, made after `placements`, satisfies.
pub record Fits (request : DayPlanRequest) (placements : List Placement) (p : Placement)
    : Type 0 where
  pub in_bounds : InBounds request p
  pub duration : p.ends_at ≡ p.starts_at +ℤ pos p.activity.duration_minutes
  pub free : is_free p placements ≡ true
  pub after : All (EndsBefore p.activity p.starts_at) placements
  pub before : All (StartsAfter p.activity p.ends_at) placements

module _ (a : PlanActivity) (request : DayPlanRequest) (ps : List Placement) (t : Time) where
  after_lower :
      lower_bound a request ps ≤ℤ t
      → (request.window_start +ℤ pos a.travel_minutes_before ≤ℤ t)
        × (at_least a.earliest_start t ≡ true)
        × All (EndsBefore a t) ps
  unfolding lower_bound predecessors
  after_lower h =
      let first = request.window_start +ℤ pos a.travel_minutes_before in
      let start = raise_to a.earliest_start first in
      let preds = predecessors a ps in
      let start_le : start ≤ℤ t = omega (arith, latest_predecessor-ge start preds) in
      (
        omega (arith, raise_to-ge a.earliest_start first),
        raise_to-at_least a.earliest_start first t start_le,
        All-of_keep (λ q. q.ends_at ≤ℤ t) (λ q. contains (activity_id q) a.dependencies) ps
            (All-weaken (λ q. q.ends_at ≤ℤ latest_predecessor start preds) (λ q. q.ends_at ≤ℤ t)
              preds (λ q le. omega arith) (latest_predecessor-All start preds)),
      )

  before_upper :
      t ≤ℤ upper_bound a request ps
      → (t +ℤ pos a.duration_minutes +ℤ pos a.travel_minutes_after ≤ℤ request.window_end)
        × (at_most a.latest_end (t +ℤ pos a.duration_minutes) ≡ true)
        × (at_most (hard_deadline a request) (t +ℤ pos a.duration_minutes) ≡ true)
        × All (StartsAfter a (t +ℤ pos a.duration_minutes)) ps
  unfolding upper_bound
  before_upper h =
      let d = a.duration_minutes in
      let last = request.window_end -ℤ pos (d + a.travel_minutes_after) in
      let by_end = finish_by d a.latest_end last in
      let by_deadline = finish_by d (hard_deadline a request) by_end in
      let deadline_ge : t ≤ℤ by_deadline = omega (arith, earliest_successor-le a by_deadline ps) in
      let end_ge : t ≤ℤ by_end = omega (arith, finish_by-le d (hard_deadline a request) by_end) in
      (
        omega (int_laws, finish_by-le d a.latest_end last),
        finish_by-at_most d a.latest_end last t end_ge,
        finish_by-at_most d (hard_deadline a request) by_end t deadline_ge,
        earliest_successor-All a by_deadline t ps h,
      )

  module _ (counts : String → ℕ) where
    candidate-Fits :
        lower_bound a request ps ≤ℤ t
        → t ≤ℤ upper_bound a request ps
        → is_free (candidate_at a request counts t) ps ≡ true
        → Fits request ps (candidate_at a request counts t)
    unfolding candidate_at reservation_start reservation_end satisfies_time_bounds
    candidate-Fits low up free =
        let (start, early, after) = after_lower low in
        let (end, late, deadline, before) = before_upper up in
        record {
          in_bounds = record {
            window_start = omega int_laws;
            window_end = end;
            time_bounds = rw (early, late, deadline);
          };
          duration = refl;
          free = free;
          after = after;
          before = before;
        }

module _ (a : PlanActivity) (request : DayPlanRequest) (ps : List Placement)
    (counts : String → ℕ) where
  bounds_of :
      {lower upper : Time}
      → placement_bounds a request ps ≡ some (lower, upper)
      → (lower ≡ lower_bound a request ps) × (upper ≡ upper_bound a request ps)
  unfolding placement_bounds
  bounds_of h = ground arith

  -- Whatever `best_placement` returns is a placement of its activity that satisfies every hard
  -- constraint and meets no earlier reservation.
  pub best_placement-Fits :
      {p : Placement}
      → best_placement a request ps counts ≡ some p
      → (p.activity ≡ a) × Fits request ps p
  best_placement-Fits {p} h =
      by_bounds (placement_bounds a request ps) refl
        (rw h at (best_placement-Searched a request ps counts))
    where
      by_bounds :
          (b : Option (Time × Time))
          → placement_bounds a request ps ≡ b
          → Searched a request ps counts b (some p)
          → (p.activity ≡ a) × Fits request ps p
      by_bounds none e s = cc
      by_bounds (some (lower, upper)) e s =
          let (low, up) = bounds_of e in
          let before_upper_end : p.starts_at ≤ℤ upper = omega (int_laws, s.before_t) in
          let fits : Fits request ps (candidate_at a request counts p.starts_at) =
            candidate-Fits a request ps p.starts_at counts (rw low at s.after_low)
              (rw up at before_upper_end) (rw s.from_candidate at s.free) in
          (
            unfold candidate_at in ap (λ (q : Placement). q.activity) s.from_candidate,
            subst (Fits request ps) (sym s.from_candidate) fits,
          )
