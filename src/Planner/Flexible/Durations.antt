-- ===== src/Planner/Flexible/Durations.antt =====
-- planner_placement.py: the durations of the placements of `place_flexible`.
use personal_secretary.Prelude.{
  subset, ℕ, zero, suc, ◌≤◌, ◌≡◌, true, Bool-cases, inl, inr, List, [], ◌∷◌, arith, String, All,
  All-append, All-weaken, All-keep, all-All, all, is_empty, str_eq,
}
use personal_secretary.Prelude.Int.{int_laws}
use personal_secretary.Planner.Models.{PlanActivity, DayPlanRequest, valid_request, valid_activity}
use personal_secretary.Planner.Reservation.{Placement, activity_id}
use personal_secretary.Planner.Flexible.{
  put, by_id, remove, remove_each, flexible_activities, LoopState, conclude, accept,
  give_up_eligible, give_up_rest, iteration, drop_missing, eligible, missing_activities, candidates,
  better, id_le, loop, place_flexible,
}
use personal_secretary.Planner.Flexible.Progress.{candidates-All}
use personal_secretary.Planner.Flexible.Schedule.{candidates-Fits}
use personal_secretary.Planner.Search.Bounds.{Fits}
use personal_secretary.Planner.Blocks.Separate.{TakesTime}
use personal_secretary.Prelude.Sort.{min_by, min_by_mem, sort_by}

module _ (P : PlanActivity → Type 0) where
  All-put : (fl : List PlanActivity) (a : PlanActivity) → All P fl → P a → All P (put fl a)
  unfolding put
  All-put [] a h p = (p, tt)
  All-put (b ∷ fl) a h p = elim (Bool-cases (str_eq b.activity_id a.activity_id)) [
    | inl same ↦ rw same (p, h.1)
    | inr other ↦ rw other (h.0, All-put fl a h.1 p)
  ]

  pub All-by_id : (fl xs : List PlanActivity) → All P fl → All P xs → All P (by_id fl xs)
  unfolding by_id
  All-by_id fl [] h k = h
  All-by_id fl (x ∷ xs) h k = All-by_id (put fl x) xs (All-put fl x h k.0) k.1

  pub All-remove : (k : String) (fl : List PlanActivity) → All P fl → All P (remove k fl)
  unfolding remove
  All-remove k [] h = tt
  All-remove k (a ∷ fl) h = elim (Bool-cases (str_eq a.activity_id k)) [
    | inl same ↦ rw same h.1
    | inr other ↦ rw other (h.0, All-remove k fl h.1)
  ]

  pub All-remove_each : (xs fl : List PlanActivity) → All P fl → All P (remove_each xs fl)
  unfolding remove_each
  All-remove_each [] fl h = h
  All-remove_each (x ∷ xs) fl h =
      All-remove_each xs (remove x.activity_id fl) (All-remove x.activity_id fl h)

abbrev pub HasDuration : PlanActivity → Type 0
HasDuration a = 1 ≤ a.duration_minutes

valid_activity-HasDuration : (a : PlanActivity) → valid_activity a ≡ true → HasDuration a
unfolding valid_activity
valid_activity-HasDuration a h = ground arith

pub activities-HasDuration :
    (request : DayPlanRequest) → valid_request request ≡ true → All HasDuration request.activities
unfolding valid_request
activities-HasDuration request h =
    let valid : all valid_activity request.activities ≡ true = ground arith in
    All-weaken (λ a. valid_activity a ≡ true) HasDuration request.activities
      valid_activity-HasDuration (all-All valid_activity request.activities valid)

pub flexible_activities-HasDuration :
    (request : DayPlanRequest)
    → All HasDuration request.activities
    → All HasDuration (flexible_activities request)
unfolding flexible_activities
flexible_activities-HasDuration request h =
    All-by_id HasDuration [] _ tt (All-keep HasDuration _ request.activities h)

module _ (request : DayPlanRequest) (counts : String → ℕ) where
  -- What the loop keeps: the activities left and the placements made all take time.
  abbrev IsLong : LoopState → Type 0
  IsLong s = All HasDuration s.flexible × All TakesTime s.placements

  chosen-TakesTime :
      (ps : List Placement) (cs : List Placement)
      → All (Fits request ps) cs
      → All (λ (p : Placement). HasDuration p.activity) cs
      → All TakesTime cs
  chosen-TakesTime ps [] f d = tt
  chosen-TakesTime ps (c ∷ cs) f d =
      (rw (f.0.duration) (omega int_laws), chosen-TakesTime ps cs f.1 d.1)

  conclude-IsLong :
      (cs : List Placement) (es : List PlanActivity) (s : LoopState)
      → All TakesTime cs
      → IsLong s
      → IsLong (conclude cs es s)
  unfolding conclude accept give_up_eligible give_up_rest
  conclude-IsLong (c ∷ cs) es s h long = (
    All-remove HasDuration (activity_id (min_by better c cs)) s.flexible long.0,
    All-append TakesTime s.placements (min_by better c cs ∷ []) long.1
        (min_by_mem better TakesTime c cs h.0 h.1, tt),
  )
  conclude-IsLong [] (e ∷ es) s h long =
      (All-remove_each HasDuration (sort_by id_le (e ∷ es)) s.flexible long.0, long.1)
  conclude-IsLong [] [] s h long = (tt, long.1)

  iteration-IsLong :
      (all_ids : List String) (s : LoopState)
      → IsLong s
      → IsLong (iteration request counts all_ids s)
  unfolding iteration drop_missing eligible
  iteration-IsLong all_ids s long =
      let t = drop_missing all_ids s in
      let es = eligible t in
      let left = All-remove_each HasDuration (missing_activities all_ids s) s.flexible long.0 in
      conclude-IsLong (candidates request counts t.placements es) es t
        (chosen-TakesTime t.placements (candidates request counts t.placements es)
          (candidates-Fits request counts t.placements es)
          (candidates-All request counts HasDuration t.placements es
            (All-keep HasDuration (λ a. subset a.dependencies t.scheduled_ids) t.flexible left)))
        (left, long.1)

  loop-IsLong :
      (all_ids : List String) (fuel : ℕ) (s : LoopState)
      → IsLong s
      → IsLong (loop request counts all_ids fuel s)
  unfolding loop
  loop-IsLong all_ids zero s h = h
  loop-IsLong all_ids (suc fuel) s h = elim (Bool-cases (is_empty s.flexible)) [
    | inl done ↦ rw done h
    | inr more ↦ rw more (
        loop-IsLong all_ids fuel (iteration request counts all_ids s)
          (iteration-IsLong all_ids s h))
  ]

  -- The placements made for a valid request take time if those that it starts from do.
  pub place_flexible-TakesTime :
      (ps : List Placement)
      → valid_request request ≡ true
      → All TakesTime ps
      → All TakesTime (place_flexible request ps counts).placements
  unfolding place_flexible
  place_flexible-TakesTime ps valid h =
      (loop-IsLong _ _ _
        (flexible_activities-HasDuration request (activities-HasDuration request valid), h)).1
