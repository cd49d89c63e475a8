-- ===== src/Planner/Blocks/Separate.antt =====
-- planner_explanation.py: the blocks of a schedule before and after sorting.
use personal_secretary.Prelude.{
  ◌≡◌, ◌⊎◌, inl, inr, true, false, List, [], ◌∷◌, arith, All, All-append, All-weaken, Pairwise,
  Pairwise-append, Pairwise-weaken,
}
use personal_secretary.Prelude.Int.{◌≤ℤ◌, ◌<ℤ◌, int_laws}
use personal_secretary.Prelude.Sort.{sort_by, All-sort_by, Pairwise-sort_by, in_order-sort_by}
use personal_secretary.Planner.Models.{DayPlanRequest}
use personal_secretary.Planner.Reservation.{
  Placement, reservation_start, reservation_end, overlaps, InBounds, Apart, IsSchedule,
}
use personal_secretary.Planner.Blocks.{
  PlanBlock, placement_blocks, travel_before, travel_after, activity_block, activity_blocks,
  block_le,
}

abbrev pub Before : PlanBlock → PlanBlock → Type 0
Before a b = a.ends_at ≤ℤ b.starts_at

abbrev Separate : PlanBlock → PlanBlock → Type 0
Separate a b = Before a b ⊎ Before b a

-- The block lies inside the reservation and is not empty.
abbrev Within : Placement → PlanBlock → Type 0
Within p b =
    (reservation_start p ≤ℤ b.starts_at)
    × (b.starts_at <ℤ b.ends_at)
    × (b.ends_at ≤ℤ reservation_end p)

-- The activity of the placement takes time.
abbrev pub TakesTime : Placement → Type 0
TakesTime p = p.starts_at <ℤ p.ends_at

placement_blocks-Within :
    (request : DayPlanRequest) (p : Placement)
    → TakesTime p
    → All (Within p) (placement_blocks request p) × Pairwise Before (placement_blocks request p)
unfolding placement_blocks travel_before travel_after activity_block reservation_start
    reservation_end
placement_blocks-Within request p h = grind int_laws

Separate-of_Apart :
    (p q : Placement) (a b : PlanBlock) → Apart p q → Within p a → Within q b → Separate a b
unfolding overlaps
Separate-of_Apart p q a b apart wa wb = grind arith

module _ (request : DayPlanRequest) where
  Separate-from :
      (p : Placement) (b : PlanBlock) (qs : List Placement)
      → Within p b
      → All (Apart p) qs
      → All TakesTime qs
      → All (Separate b) (activity_blocks request qs)
  unfolding activity_blocks
  Separate-from p b [] w apart long = tt
  Separate-from p b (q ∷ qs) w apart long =
      All-append (Separate b) (placement_blocks request q) (activity_blocks request qs)
        (All-weaken (Within q) (Separate b) (placement_blocks request q)
          (λ c wc. Separate-of_Apart p q b c apart.0 w wc)
          (placement_blocks-Within request q long.0).0)
        (Separate-from p b qs w apart.1 long.1)

  activity_blocks-Separate :
      (ps : List Placement)
      → Pairwise Apart ps
      → All TakesTime ps
      → Pairwise Separate (activity_blocks request ps)
  unfolding activity_blocks
  activity_blocks-Separate [] apart long = tt
  activity_blocks-Separate (p ∷ ps) apart long =
      let (within, ordered) = placement_blocks-Within request p long.0 in
      Pairwise-append Separate (placement_blocks request p) (activity_blocks request ps)
        (Pairwise-weaken Before Separate (λ a b before. inl before) (placement_blocks request p)
          ordered)
        (activity_blocks-Separate ps apart.1 long.1)
        (All-weaken (Within p) (λ b. All (Separate b) (activity_blocks request ps))
          (placement_blocks request p) (λ b w. Separate-from p b ps w apart.0 long.1) within)

  -- The block lies in the planning window and is not empty.
  abbrev pub InWindow : PlanBlock → Type 0
  InWindow b =
      (request.window_start ≤ℤ b.starts_at)
      × (b.starts_at <ℤ b.ends_at)
      × (b.ends_at ≤ℤ request.window_end)

  activity_blocks-InWindow :
      (ps : List Placement)
      → All (InBounds request) ps
      → All TakesTime ps
      → All InWindow (activity_blocks request ps)
  unfolding activity_blocks
  activity_blocks-InWindow [] bounds long = tt
  activity_blocks-InWindow (p ∷ ps) bounds long =
      All-append InWindow (placement_blocks request p) (activity_blocks request ps)
        (All-weaken (Within p) InWindow (placement_blocks request p)
          (λ b w. omega (arith, bounds.0.window_start, bounds.0.window_end))
          (placement_blocks-Within request p long.0).0)
        (activity_blocks-InWindow ps bounds.1 long.1)

  abbrev StartsFirst : PlanBlock → PlanBlock → Type 0
  StartsFirst a b = a.starts_at ≤ℤ b.starts_at

  -- Separate blocks, sorted by their starts, follow one another.
  follow_one :
      (a : PlanBlock) (bs : List PlanBlock)
      → InWindow a
      → All InWindow bs
      → All (Separate a) bs
      → All (StartsFirst a) bs
      → All (Before a) bs
  follow_one a [] wa wb separate first = tt
  follow_one a (b ∷ bs) wa wb separate first =
      (grind arith, follow_one a bs wa wb.1 separate.1 first.1)

  follow :
      (bs : List PlanBlock)
      → All InWindow bs
      → Pairwise Separate bs
      → Pairwise StartsFirst bs
      → Pairwise Before bs
  follow [] w separate first = tt
  follow (b ∷ bs) w separate first =
      (follow_one b bs w.0 w.1 separate.0 first.0, follow bs w.1 separate.1 first.1)

  block_le-StartsFirst : (a b : PlanBlock) → block_le a b ≡ true → StartsFirst a b
  unfolding block_le
  block_le-StartsFirst a b h = ground arith

  block_gt-StartsFirst : (a b : PlanBlock) → block_le a b ≡ false → StartsFirst b a
  unfolding block_le
  block_gt-StartsFirst a b h = ground arith

  Separate-sym : (a b : PlanBlock) → Separate a b → Separate b a
  Separate-sym a b (inl h) = inr h
  Separate-sym a b (inr h) = inl h

  -- The sorted blocks of a schedule whose activities all take time.
  abbrev pub sorted_blocks : List Placement → List PlanBlock
  sorted_blocks ps = sort_by block_le (activity_blocks request ps)

  pub sorted_blocks-Before :
      (ps : List Placement)
      → IsSchedule request ps
      → All TakesTime ps
      → All InWindow (sorted_blocks ps) × Pairwise Before (sorted_blocks ps)
  sorted_blocks-Before ps h long =
      let blocks = activity_blocks request ps in
      let window =
        All-sort_by block_le InWindow blocks (activity_blocks-InWindow ps h.in_bounds long) in
      (
        window,
        follow (sort_by block_le blocks) window
            (Pairwise-sort_by block_le Separate Separate-sym blocks
              (activity_blocks-Separate ps h.apart long))
            (in_order-sort_by block_le StartsFirst (λ a b c ab bc. omega arith) block_le-StartsFirst
              block_gt-StartsFirst blocks),
      )
