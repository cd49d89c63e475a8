-- ===== src/Prelude/Lists.antt =====
-- Lists: lengths over the native numbers, predicates by recursion, tests that run, and texts.
use text.Mathlib.TextPositions.{eq_refl}
use Prim.Native.Nat.{◌≤◌, ℕ, suc, ◌+◌}
use Prim.Native.String.{String}
use mathlib.Core.Path.{◌≡◌, refl}
use mathlib.Core.Logic.{inl, inr}
use mathlib.Core.Bool.{Bool, true, false, ◌&&◌, ◌||◌}
use mathlib.Core.List.{List, [], ◌∷◌, ◌++◌, map}
use mathlib.Core.Option.{Option, none, some}
use native.Mathlib.Omega.{arith}
use personal_secretary.Prelude.Tests.{if◌then◌else◌, str_eq, Bool-cases}

module _ {ℓ} {A : Type ℓ} where
  abbrev pub length : List A → ℕ
  length [] = 0
  length (x ∷ xs) = suc (length xs)

  abbrev pub is_empty : List A → Bool
  is_empty [] = true
  is_empty (x ∷ xs) = false

  -- Python's `any(test(x) for x in xs)` and `all(...)`.
  unfoldable pub any : (A → Bool) → List A → Bool
  any test [] = false
  any test (x ∷ xs) = test x || any test xs

  unfoldable pub all : (A → Bool) → List A → Bool
  all test [] = true
  all test (x ∷ xs) = test x && all test xs

  -- `[x for x in xs if test(x)]`
  unfoldable pub keep : (A → Bool) → List A → List A
  keep test [] = []
  keep test (x ∷ xs) = let rest = keep test xs in if test x then x ∷ rest else rest

  -- `next((x for x in xs if test(x)), None)`
  unfoldable pub find : (A → Bool) → List A → Option A
  find test [] = none
  find test (x ∷ xs) = let rest = find test xs in if test x then some x else rest

  pub length-append : (xs ys : List A) → length (xs ++ ys) ≡ length xs + length ys
  length-append [] ys = omega arith
  length-append (x ∷ xs) ys = omega (arith, length-append xs ys)

-- Every item satisfies `P`.
abbrev pub All {ℓ κ} : {A : Type ℓ} → (A → Type κ) → List A → Type κ
All P [] = Unit
All P (x ∷ xs) = P x × All P xs

module _ {ℓ κ} {A : Type ℓ} (P : A → Type κ) where
  pub All-append : (xs ys : List A) → All P xs → All P ys → All P (xs ++ ys)
  All-append [] ys hx hy = hy
  All-append (x ∷ xs) ys hx hy = (hx.0, All-append xs ys hx.1 hy)

  pub All-keep : (test : A → Bool) (xs : List A) → All P xs → All P (keep test xs)
  unfolding keep
  All-keep test [] h = tt
  All-keep test (x ∷ xs) h = ground (arith, All-keep test xs h.1)

  -- What holds of everything holds of each item.
  pub All-of : (xs : List A) → ((x : A) → P x) → All P xs
  All-of [] h = tt
  All-of (x ∷ xs) h = (h x, All-of xs h)

module _ {ℓ κ μ} {A : Type ℓ} (P : A → Type κ) (Q : A → Type μ) where
  pub All-weaken : (xs : List A) → ((x : A) → P x → Q x) → All P xs → All Q xs
  All-weaken [] f h = tt
  All-weaken (x ∷ xs) f h = (f x h.0, All-weaken xs f h.1)

-- Every two items at different positions are related, the earlier one first.
abbrev pub Pairwise {ℓ κ} : {A : Type ℓ} → (A → A → Type κ) → List A → Type κ
Pairwise R [] = Unit
Pairwise R (x ∷ xs) = All (R x) xs × Pairwise R xs

module _ {ℓ κ} {A : Type ℓ} (R : A → A → Type κ) where
  -- A new last item that every item is related to.
  pub Pairwise-append_one :
      (xs : List A) (y : A) → Pairwise R xs → All (λ x. R x y) xs → Pairwise R (xs ++ y ∷ [])
  Pairwise-append_one [] y h hy = (tt, tt)
  Pairwise-append_one (x ∷ xs) y h hy =
      (All-append (R x) xs (y ∷ []) h.0 (hy.0, tt), Pairwise-append_one xs y h.1 hy.1)

-- `text in texts`
unfoldable pub contains : String → List String → Bool
contains k [] = false
contains k (x ∷ xs) = str_eq x k || contains k xs

-- `set(xs) <= set(ys)`
unfoldable pub subset : List String → List String → Bool
subset xs ys = all (λ x. contains x ys) xs

-- How often a text occurs.
unfoldable pub count : String → List String → ℕ
count k [] = 0
count k (x ∷ xs) = (if str_eq x k then 1 else 0) + count k xs

pub count-append : (k : String) (xs ys : List String) → count k (xs ++ ys) ≡ count k xs + count k ys
unfolding count
count-append k [] ys = omega arith
count-append k (x ∷ xs) ys = omega (arith, count-append k xs ys)

module _ {ℓ κ} {A : Type ℓ} (P : A → Type κ) (test : A → Bool) where
  -- What holds of the items kept holds of every item that passes the test.
  pub All-of_keep : (xs : List A) → All P (keep test xs) → All (λ x. test x ≡ true → P x) xs
  unfolding keep
  All-of_keep [] h = tt
  All-of_keep (x ∷ xs) h = elim (Bool-cases (test x)) [
    | inl e ↦ let k : P x × All P (keep test xs) = (rw e at h) in (λ _. k.0, All-of_keep xs k.1)
    | inr e ↦ (λ passes. cc, All-of_keep xs (rw e at h))
  ]

-- The texts that a field names, and how often each occurs.
module _ {ℓ} {A : Type ℓ} (name : A → String) where
  pub count-keep-le :
      (k : String) (test : A → Bool) (xs : List A)
      → count k (map name (keep test xs)) ≤ count k (map name xs)
  unfolding keep count
  count-keep-le k test [] = omega arith
  count-keep-le k test (x ∷ xs) = ground (arith, count-keep-le k test xs)

  count_positive-weaken :
      (x : A) (ys zs : List A)
      → All (λ y. 1 ≤ count (name y) (map name zs)) ys
      → All (λ y. 1 ≤ count (name y) (map name (x ∷ zs))) ys
  unfolding count
  count_positive-weaken x [] zs h = tt
  count_positive-weaken x (y ∷ ys) zs h = (omega arith, count_positive-weaken x ys zs h.1)

  -- Every item of a list is counted at its own name.
  pub count_positive : (xs : List A) → All (λ x. 1 ≤ count (name x) (map name xs)) xs
  unfolding count
  count_positive [] = tt
  count_positive (x ∷ xs) =
      (rw eq_refl (omega arith), count_positive-weaken x xs xs (count_positive xs))

  pub map-map_name {κ} :
      {B : Type κ} (field : B → String) (f : A → B) (xs : List A)
      → ((x : A) → field (f x) ≡ name x)
      → map field (map f xs) ≡ map name xs
  map-map_name field f [] h = refl
  map-map_name field f (x ∷ xs) h = cc (h x, map-map_name field f xs h)

-- In a list whose items are related pairwise, those before an item are related to it.
module _ {ℓ κ} {A : Type ℓ} (P : A → Type κ) where
  pub All_middle : (xs : List A) (y : A) (ys : List A) → All P (xs ++ y ∷ ys) → P y
  All_middle [] y ys h = h.0
  All_middle (x ∷ xs) y ys h = All_middle xs y ys h.1

module _ {ℓ κ} {A : Type ℓ} (R : A → A → Type κ) where
  pub Pairwise-middle :
      (xs : List A) (y : A) (ys : List A) → Pairwise R (xs ++ y ∷ ys) → All (λ x. R x y) xs
  Pairwise-middle [] y ys h = tt
  Pairwise-middle (x ∷ xs) y ys h = (All_middle (R x) xs y ys h.0, Pairwise-middle xs y ys h.1)

module _ {ℓ κ} {A : Type ℓ} (R : A → A → Type κ) where
  pub Pairwise-append :
      (xs ys : List A)
      → Pairwise R xs
      → Pairwise R ys
      → All (λ x. All (R x) ys) xs
      → Pairwise R (xs ++ ys)
  Pairwise-append [] ys hx hy h = hy
  Pairwise-append (x ∷ xs) ys hx hy h =
      (All-append (R x) xs ys hx.0 h.0, Pairwise-append xs ys hx.1 hy h.1)

module _ {ℓ κ μ} {A : Type ℓ} (R : A → A → Type κ) (S : A → A → Type μ) where
  pub Pairwise-weaken : ((x y : A) → R x y → S x y) → (xs : List A) → Pairwise R xs → Pairwise S xs
  Pairwise-weaken f [] h = tt
  Pairwise-weaken f (x ∷ xs) h = (All-weaken (R x) (S x) xs (f x) h.0, Pairwise-weaken f xs h.1)

module _ {ℓ} {A : Type ℓ} (test : A → Bool) where
  -- What is kept has passed the test.
  pub keep-All : (xs : List A) → All (λ x. test x ≡ true) (keep test xs)
  unfolding keep
  keep-All [] = tt
  keep-All (x ∷ xs) = ground (arith, keep-All xs)

  pub all-All : (xs : List A) → all test xs ≡ true → All (λ x. test x ≡ true) xs
  unfolding all
  all-All [] h = tt
  all-All (x ∷ xs) h = (ground arith, all-All xs (ground arith))

module _ {ℓ κ μ} {A : Type ℓ} {B : Type κ} (P : B → Type μ) (f : A → B) where
  pub All-map : (xs : List A) → All (λ x. P (f x)) xs → All P (map f xs)
  All-map [] h = tt
  All-map (x ∷ xs) h = (h.0, All-map xs h.1)

module _ {ℓ κ μ} {A : Type ℓ} (P : A → Type κ) (Q : A → Type μ) where
  pub All-and : (xs : List A) → All P xs → All Q xs → All (λ x. P x × Q x) xs
  All-and [] h k = tt
  All-and (x ∷ xs) h k = ((h.0, k.0), All-and xs h.1 k.1)
