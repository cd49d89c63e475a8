-- ===== src/Prelude/Sort.antt =====
-- Python's `sorted(xs, key=...)` and `min(xs, key=...)` by a Boolean order: stable.
use Prim.Native.String.{String}
use mathlib.Core.Path.{◌≡◌, refl}
use mathlib.Core.Logic.{inl, inr}
use mathlib.Core.Bool.{Bool, true, false}
use mathlib.Core.List.{List, [], ◌∷◌, map}
use native.Mathlib.Omega.{arith}
use personal_secretary.Prelude.Tests.{Bool-cases, if◌then◌else◌}
use personal_secretary.Prelude.Lists.{All-weaken, is_empty, All, Pairwise, count}

module _ {ℓ} {A : Type ℓ} (le : A → A → Bool) where
  -- Put `x` before the first item that it does not come after.
  unfoldable pub insert_by : A → List A → List A
  insert_by x [] = x ∷ []
  insert_by x (y ∷ ys) = let rest = insert_by x ys in if le x y then x ∷ y ∷ ys else y ∷ rest

  unfoldable pub sort_by : List A → List A
  unfolding insert_by
  sort_by [] = []
  sort_by (x ∷ xs) = insert_by x (sort_by xs)

  is_empty-insert_by : (x : A) (ys : List A) → is_empty (insert_by x ys) ≡ false
  unfolding insert_by
  is_empty-insert_by x [] = refl
  is_empty-insert_by x (y ∷ ys) = ground arith

  pub is_empty-sort_by : (x : A) (xs : List A) → is_empty (sort_by (x ∷ xs)) ≡ false
  unfolding sort_by
  is_empty-sort_by x xs = is_empty-insert_by x (sort_by xs)

  -- The first of the least items of `x ∷ xs`.
  unfoldable pub min_by : A → List A → A
  min_by x [] = x
  min_by x (y ∷ ys) = min_by (if le x y then x else y) ys

  module _ {κ} (P : A → Type κ) where
    All-insert_by : (x : A) (xs : List A) → P x → All P xs → All P (insert_by x xs)
    unfolding insert_by
    All-insert_by x [] hx h = (hx, tt)
    All-insert_by x (y ∷ ys) hx h = ground (arith, All-insert_by x ys hx h.1)

    -- Sorting invents no item.
    pub All-sort_by : (xs : List A) → All P xs → All P (sort_by xs)
    unfolding sort_by
    All-sort_by [] h = tt
    All-sort_by (x ∷ xs) h = All-insert_by x (sort_by xs) h.0 (All-sort_by xs h.1)

    pub min_by_mem : (x : A) (xs : List A) → P x → All P xs → P (min_by x xs)
    unfolding min_by
    min_by_mem x [] hx h = hx
    min_by_mem x (y ∷ ys) hx h = min_by_mem (if le x y then x else y) ys (ground arith) h.1

  -- A symmetric relation between every two items survives a change of order.
  module _ {κ} (R : A → A → Type κ) (R_sym : (x y : A) → R x y → R y x) where
    Pairwise-insert_by :
        (x : A) (xs : List A) → All (R x) xs → Pairwise R xs → Pairwise R (insert_by x xs)
    unfolding insert_by
    Pairwise-insert_by x [] hx h = (tt, tt)
    Pairwise-insert_by x (y ∷ ys) hx h =
        ground
          (arith, Pairwise-insert_by x ys hx.1 h.1, All-insert_by (R y) x ys (R_sym x y hx.0) h.0)

    pub Pairwise-sort_by : (xs : List A) → Pairwise R xs → Pairwise R (sort_by xs)
    unfolding sort_by
    Pairwise-sort_by [] h = tt
    Pairwise-sort_by (x ∷ xs) h =
        Pairwise-insert_by x (sort_by xs) (All-sort_by (R x) xs h.0) (Pairwise-sort_by xs h.1)

  -- Sorting keeps how often each name occurs.
  module _ (name : A → String) (k : String) where
    count-insert_by :
        (x : A) (xs : List A) → count k (map name (insert_by x xs)) ≡ count k (map name (x ∷ xs))
    unfolding insert_by count
    count-insert_by x [] = refl
    count-insert_by x (y ∷ ys) = ground (arith, count-insert_by x ys)

    pub count-sort_by : (xs : List A) → count k (map name (sort_by xs)) ≡ count k (map name xs)
    unfolding sort_by count
    count-sort_by [] = refl
    count-sort_by (x ∷ xs) = ground (arith, count-insert_by x (sort_by xs), count-sort_by xs)

  -- A sorted list is in order, for an order that `le` decides.
  module _ {κ} (R : A → A → Type κ) (R_trans : (x y z : A) → R x y → R y z → R x z)
      (le→R : (x y : A) → le x y ≡ true → R x y) (gt→R : (x y : A) → le x y ≡ false → R y x) where
    in_order-insert_by : (x : A) (xs : List A) → Pairwise R xs → Pairwise R (insert_by x xs)
    unfolding insert_by
    in_order-insert_by x [] h = (tt, tt)
    in_order-insert_by x (y ∷ ys) h = elim (Bool-cases (le x y)) [
      | inl first ↦
          let x_y : R x y = le→R x y first in
          rw first ((x_y, All-weaken (R y) (R x) ys (λ z y_z. R_trans x y z x_y y_z) h.0), h)
      | inr after ↦
          rw after (All-insert_by (R y) x ys (gt→R x y after) h.0, in_order-insert_by x ys h.1)
    ]

    pub in_order-sort_by : (xs : List A) → Pairwise R (sort_by xs)
    unfolding sort_by
    in_order-sort_by [] = tt
    in_order-sort_by (x ∷ xs) = in_order-insert_by x (sort_by xs) (in_order-sort_by xs)
