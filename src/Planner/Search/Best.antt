-- ===== src/Planner/Search/Best.antt =====
-- planner_placement.py: the loop of `best_placement` and the minutes that it has tried.
use personal_secretary.Prelude.{
  ℕ, zero, suc, ◌≡◌, refl, ◌⊎◌, inl, inr, true, false, Option, none, some, List, arith, Bool-cases,
  String,
}
use personal_secretary.Prelude.Int.{
  ℤ, pos, ◌+ℤ◌, ◌≤ℤ◌, ◌<ℤ◌, ltb_ℤ, int_laws, eq_of_parts, ltb_ℤ→lt, ltb_ℤ→ge,
}
use personal_secretary.Planner.Models.{Time, PlanActivity, DayPlanRequest}
use personal_secretary.Planner.Reservation.{Placement}
use personal_secretary.Planner.Search.{candidate_at, is_free, try_minute, scan}

-- A minute before `t + 1` is before `t` or is `t`.
last_or_before : (u t : ℤ) → u <ℤ t +ℤ pos 1 → (u <ℤ t) ⊎ (u ≡ t)
last_or_before u t h = elim (Bool-cases (ltb_ℤ u t)) [
  | inl lt ↦ inl (ltb_ℤ→lt u t lt)
  | inr ge ↦ inr (eq_of_parts u t (omega (int_laws, ltb_ℤ→ge u t ge)))
]

module _ (activity : PlanActivity) (request : DayPlanRequest) (placements : List Placement)
    (counts : String → ℕ) where
  abbrev pub candidate : Time → Placement
  candidate = candidate_at activity request counts

  abbrev pub total_at : Time → ℤ
  total_at u = (candidate u).score.total

  abbrev pub IsFree : Time → Type 0
  IsFree u = is_free (candidate u) placements ≡ true

  -- The minute `u` is no better than `p`; if it is earlier it is worse.
  abbrev pub Beats : Placement → Time → Type 0
  Beats p u = (total_at u ≤ℤ p.score.total) × (u <ℤ p.starts_at → total_at u <ℤ p.score.total)

  -- `p` is the first best one of the free minutes from `low` up to `t`, `t` excluded.
  pub record IsBest (low t : Time) (p : Placement) : Type 0 where
    pub from_candidate : p ≡ candidate p.starts_at
    pub after_low : low ≤ℤ p.starts_at
    pub before_t : p.starts_at <ℤ t
    pub free : is_free p placements ≡ true
    pub best : (u : Time) → low ≤ℤ u → u <ℤ t → IsFree u → Beats p u

  abbrev pub Found : Time → Time → Option Placement → Type 0
  Found low t none = (u : Time) → low ≤ℤ u → u <ℤ t → is_free (candidate u) placements ≡ false
  Found low t (some p) = IsBest low t p

  starts_candidate : (t : Time) → (candidate t).starts_at ≡ t
  unfolding candidate_at
  starts_candidate t = refl

  itself_candidate : (t : Time) → candidate t ≡ candidate (candidate t).starts_at
  unfolding candidate_at
  itself_candidate t = refl

  Beats-itself : (t u : Time) → u ≡ t → Beats (candidate t) u
  Beats-itself t u e =
      (rw e (omega arith), λ lt. absurd (omega (arith, (rw (starts_candidate t, e) at lt))))

  newly-IsBest :
      (low t : Time)
      → low ≤ℤ t
      → IsFree t
      → ((u : Time) → low ≤ℤ u → u <ℤ t → IsFree u → total_at u <ℤ total_at t)
      → IsBest low (t +ℤ pos 1) (candidate t)
  newly-IsBest low t h free worse = record {
    from_candidate = itself_candidate t;
    after_low = rw starts_candidate h;
    before_t = rw starts_candidate (omega int_laws);
    free = free;
    best = λ u hl hu fu. elim (last_or_before u t hu) [
      | inl lt ↦ (omega (arith, worse u hl lt fu), λ _. worse u hl lt fu)
      | inr e ↦ Beats-itself t u e
    ];
  }

  still-IsBest :
      (low t : Time) (p : Placement)
      → IsBest low t p
      → (IsFree t → total_at t ≤ℤ p.score.total)
      → IsBest low (t +ℤ pos 1) p
  still-IsBest low t p b no_better = record {
    from_candidate = b.from_candidate;
    after_low = b.after_low;
    before_t = omega (int_laws, b.before_t);
    free = b.free;
    best = λ u hl hu fu. elim (last_or_before u t hu) [
      | inl lt ↦ b.best u hl lt fu
      | inr e ↦
          (rw e (no_better (rw e at fu)), λ lt. absurd (omega (arith, b.before_t, (rw e at lt))))
    ];
  }

  still_none :
      (low t : Time)
      → Found low t none
      → is_free (candidate t) placements ≡ false
      → Found low (t +ℤ pos 1) none
  still_none low t h taken u hl hu = elim (last_or_before u t hu) [
    | inl lt ↦ h u hl lt
    | inr e ↦ rw e taken
  ]

  try_minute-Found :
      (low t : Time) (best : Option Placement)
      → low ≤ℤ t
      → Found low t best
      → Found low (t +ℤ pos 1) (try_minute placements (candidate t) best)
  unfolding try_minute
  try_minute-Found low t none h f = elim (Bool-cases (is_free (candidate t) placements)) [
    | inl free ↦ rw free (newly-IsBest low t h free (λ u hl lt fu. cc (f u hl lt)))
    | inr taken ↦ rw taken (still_none low t f taken)
  ]
  try_minute-Found low t (some p) h b = elim (Bool-cases (is_free (candidate t) placements)) [
    | inr taken ↦ rw taken (still-IsBest low t p b (λ free. cc))
    | inl free ↦ rw free (elim (Bool-cases (ltb_ℤ p.score.total (total_at t))) [
      | inl better ↦ rw better (
          newly-IsBest low t h free (λ u hl lt fu.
            omega (arith, (b.best u hl lt fu).0, ltb_ℤ→lt p.score.total (total_at t) better)))
      | inr worse ↦
          rw worse (still-IsBest low t p b (λ _. ltb_ℤ→ge p.score.total (total_at t) worse))
    ])
  ]

  -- The loop from `t` on keeps the invariant to its last minute.
  pub scan-Found :
      (n : ℕ) (low t : Time) (best : Option Placement)
      → low ≤ℤ t
      → Found low t best
      → Found low (t +ℤ pos n) (scan activity request placements counts n t best)
  unfolding scan
  scan-Found zero low t best h f = rw (eq_of_parts (t +ℤ pos zero) t (omega int_laws)) f
  scan-Found (suc n) low t best h f =
      rw (eq_of_parts (t +ℤ pos (suc n)) (t +ℤ pos 1 +ℤ pos n) (omega int_laws)) (
        scan-Found n low (t +ℤ pos 1) (try_minute placements (candidate t) best) (omega int_laws)
          (try_minute-Found low t best h f))
