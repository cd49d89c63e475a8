-- ===== src/Planner/Blocks/Tiling.antt =====
-- planner_explanation.py: the blocks of the internal plan and the planning window.
use personal_secretary.Prelude.{
  ◌≡◌, refl, inl, inr, Bool-cases, List, [], ◌∷◌, arith, All, Pairwise,
}
use personal_secretary.Prelude.Int.{◌≤ℤ◌, ◌<ℤ◌, ltb_ℤ, ltb_ℤ→lt, ltb_ℤ→ge, eq_of_parts}
use personal_secretary.Planner.Models.{Time, DayPlanRequest}
use personal_secretary.Planner.Reservation.{Placement, IsSchedule}
use personal_secretary.Planner.Blocks.{Zone, PlanBlock, available_block, fill, build_internal_plan}
use personal_secretary.Planner.Blocks.Separate.{
  Before, InWindow, TakesTime, sorted_blocks, sorted_blocks-Before,
}

-- The blocks run from `start` to `end`, each beginning where the one before it ends, none empty.
abbrev pub Tiles : Time → Time → List PlanBlock → Type 0
Tiles start end [] = start ≡ end
Tiles start end (b ∷ bs) = (b.starts_at ≡ start) × (start <ℤ b.ends_at) × Tiles b.ends_at end bs

-- A block, or the rest after it, starts where a gap of available time ends.
fill-Tiles :
    (zone : Zone) (request : DayPlanRequest) (cursor : Time) (bs : List PlanBlock)
    → cursor ≤ℤ request.window_end
    → All (InWindow request) bs
    → All (λ b. cursor ≤ℤ b.starts_at) bs
    → Pairwise Before bs
    → Tiles cursor request.window_end (fill zone cursor bs request.window_end)
unfolding fill available_block
fill-Tiles zone request cursor [] h w first order =
    elim (Bool-cases (ltb_ℤ cursor request.window_end)) [
      | inl gap ↦ rw gap (refl, ltb_ℤ→lt cursor request.window_end gap, refl)
      | inr full ↦ rw full (
          eq_of_parts cursor request.window_end
            (omega (arith, ltb_ℤ→ge cursor request.window_end full)))
    ]
fill-Tiles zone request cursor (b ∷ bs) h w first order =
    let rest = fill-Tiles zone request b.ends_at bs w.0.2 w.1 order.0 order.1 in
    elim (Bool-cases (ltb_ℤ cursor b.starts_at)) [
      | inl gap ↦ rw gap (refl, ltb_ℤ→lt cursor b.starts_at gap, (refl, w.0.1, rest))
      | inr full ↦ rw full (
        eq_of_parts b.starts_at cursor (omega (arith, first.0, ltb_ℤ→ge cursor b.starts_at full)),
        omega (arith, first.0, w.0.1),
        rest,
      )
    ]

module _ (zone : Zone) (request : DayPlanRequest) (ps : List Placement) where
  window_first :
      (bs : List PlanBlock)
      → All (InWindow request) bs
      → All (λ b. request.window_start ≤ℤ b.starts_at) bs
  window_first [] h = tt
  window_first (b ∷ bs) h = (h.0.0, window_first bs h.1)

  -- The internal plan of a schedule whose activities take time tiles the planning window.
  pub build_internal_plan-Tiles :
      request.window_start ≤ℤ request.window_end
      → IsSchedule request ps
      → All TakesTime ps
      → Tiles request.window_start request.window_end (build_internal_plan zone request ps)
  unfolding build_internal_plan
  build_internal_plan-Tiles h schedule long =
      let (window, order) = sorted_blocks-Before request ps schedule long in
      fill-Tiles zone request request.window_start (sorted_blocks request ps) h window
        (window_first (sorted_blocks request ps) window) order
