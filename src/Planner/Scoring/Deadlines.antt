-- ===== src/Planner/Scoring/Deadlines.antt =====
-- planner_scoring.py: how `deadline_score` ranks deadlines.
use personal_secretary.Prelude.{ap, ◌/◌, ◌≡◌, inl, inr, Bool-cases, some, arith}
use personal_secretary.Prelude.Int.{
  ℤ, pos, negsuc, pos_part, neg_part, ◌+ℤ◌, ◌-ℤ◌, ◌≤ℤ◌, ◌<ℤ◌, ltb_ℤ, leb_ℤ, min_ℤ, max_ℤ, int_laws,
  eq_of_parts, ltb_ℤ→lt, ltb_ℤ→ge, leb_ℤ→le,
}
use personal_secretary.Planner.Models.{Time, DayPlanRequest}
use personal_secretary.Planner.Scoring.{floor_div, deadline_score}

floor_div_parts : (a : ℤ) → pos 0 ≤ℤ a → floor_div a 60 ≡ pos (pos_part a / 60)
unfolding floor_div
floor_div_parts (pos n) h = ground arith
floor_div_parts (negsuc n) h = absurd (omega arith)

-- The three branches of the score, as functions of the minutes from the window's start.
abbrev overdue_score : ℤ → ℤ
overdue_score d = pos 10000 +ℤ min_ℤ (pos 0 -ℤ d) (pos 43200)

abbrev later_score : ℤ → ℤ
later_score d = max_ℤ (pos 0) (pos 1000 -ℤ pos (pos_part d / 60))

overdue_score_antitone : (a b : ℤ) → a ≤ℤ b → overdue_score b ≤ℤ overdue_score a
unfolding min_ℤ
overdue_score_antitone a b h = grind int_laws

later_score_antitone : (a b : ℤ) → pos 0 ≤ℤ a → a ≤ℤ b → later_score b ≤ℤ later_score a
unfolding max_ℤ
later_score_antitone a b h k = grind int_laws

overdue_score-ge : (a : ℤ) → a <ℤ pos 0 → pos 10000 ≤ℤ overdue_score a
unfolding min_ℤ
overdue_score-ge a h = grind int_laws

later_score-le : (a : ℤ) → later_score a ≤ℤ pos 1000
unfolding max_ℤ
later_score-le a = grind int_laws

beyond_score : pos 832 ≤ℤ later_score (pos 10081)
unfolding max_ℤ ◌-ℤ◌
beyond_score = omega arith

module _ (request : DayPlanRequest) where
  abbrev delta : Time → ℤ
  delta t = t -ℤ request.window_start

  -- Which branch a deadline takes.
  data Branch (t : Time) : Type 0 where
    overdue :
        delta t <ℤ pos 0 → deadline_score request (some t) ≡ overdue_score (delta t) → Branch t
    inside :
        pos 0 ≤ℤ delta t
        → t ≤ℤ request.window_end
        → deadline_score request (some t) ≡ pos 5000 -ℤ delta t
        → Branch t
    later :
        pos 0 ≤ℤ delta t
        → request.window_end <ℤ t
        → deadline_score request (some t) ≡ later_score (delta t)
        → Branch t

  branch : (t : Time) → Branch t
  unfolding deadline_score
  branch t = elim (Bool-cases (ltb_ℤ (delta t) (pos 0))) [
    | inl missed ↦ overdue (ltb_ℤ→lt (delta t) (pos 0) missed) (rw missed)
    | inr ahead ↦ elim (Bool-cases (leb_ℤ t request.window_end)) [
      | inl within ↦
          inside (ltb_ℤ→ge (delta t) (pos 0) ahead) (leb_ℤ→le t request.window_end within)
            (rw (ahead, within))
      | inr after ↦
          later (ltb_ℤ→ge (delta t) (pos 0) ahead) (ground arith)
            (rw (ahead, after, floor_div_parts (delta t) (ltb_ℤ→ge (delta t) (pos 0) ahead)))
    ]
  ]

  -- In a window of at most 4,000 minutes an earlier deadline never scores less than a later one.
  pub deadline_score_antitone :
      (early late : Time)
      → request.window_start ≤ℤ request.window_end
      → request.window_end ≤ℤ request.window_start +ℤ pos 4000
      → early ≤ℤ late
      → deadline_score request (some late) ≤ℤ deadline_score request (some early)
  deadline_score_antitone early late window short h = compare_branches (branch early) (branch late)
    where
      compare_branches :
          Branch early
          → Branch late
          → deadline_score request (some late) ≤ℤ deadline_score request (some early)
      compare_branches (overdue a e) (overdue b f) =
          rw (e, f) (overdue_score_antitone (delta early) (delta late) (omega int_laws))
      compare_branches (overdue a e) (inside b c f) =
          rw (e, f) (omega (int_laws, overdue_score-ge (delta early) a))
      compare_branches (overdue a e) (later b c f) =
          rw (e, f)
            (omega (int_laws, overdue_score-ge (delta early) a, later_score-le (delta late)))
      compare_branches (inside a c e) (overdue b f) = absurd (omega int_laws)
      compare_branches (inside a c e) (inside b d f) = rw (e, f) (omega int_laws)
      compare_branches (inside a c e) (later b d f) =
          rw (e, f) (omega (int_laws, later_score-le (delta late)))
      compare_branches (later a c e) (overdue b f) = absurd (omega int_laws)
      compare_branches (later a c e) (inside b d f) = absurd (omega int_laws)
      compare_branches (later a c e) (later b d f) =
          rw (e, f) (later_score_antitone (delta early) (delta late) a (omega int_laws))

  -- In a seven-day window every deadline more than 4,168 minutes ahead scores less than the first
  -- deadline that lies beyond the window.
  pub deadline_score_week :
      (t : Time)
      → request.window_end ≡ request.window_start +ℤ pos 10080
      → request.window_start +ℤ pos 4168 <ℤ t
      → t ≤ℤ request.window_end
      → deadline_score request (some t)
        <ℤ deadline_score request (some (request.window_end +ℤ pos 1))
  deadline_score_week t week ahead within = compare_last (branch t) (branch beyond)
    where
      beyond : Time
      beyond = request.window_end +ℤ pos 1

      beyond_delta : delta beyond ≡ pos 10081
      beyond_delta =
          eq_of_parts (delta beyond) (pos 10081)
            (omega (int_laws, ap pos_part week, ap neg_part week))

      compare_last :
          Branch t
          → Branch beyond
          → deadline_score request (some t) <ℤ deadline_score request (some beyond)
      compare_last (overdue a e) last = absurd (omega int_laws)
      compare_last (later a c e) last = absurd (omega arith)
      compare_last (inside a c e) (overdue b f) = absurd (omega (arith, (rw beyond_delta at b)))
      compare_last (inside a c e) (inside b d f) = absurd (omega int_laws)
      compare_last (inside a c e) (later b d f) =
          rw (e, f, beyond_delta) (omega (int_laws, beyond_score))
