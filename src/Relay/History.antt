-- ===== src/Relay/History.antt =====
-- relay_store.py: cutting and sorting rows, and what a journal that replayed a history says of it.
use mathlib.Core.Path.{subst}
use personal_secretary.Prelude.{
  ℕ, zero, suc, ◌≤◌, ◌<◌, Bool, true, false, some, List, [], ◌∷◌, ◌++◌, ◌≡◌, refl, sym, ap, ◌∙◌,
  inl, inr, arith, Bool-cases, All, keep, length,
}
use personal_secretary.Prelude.Int.{ℤ, pos, negsuc, leb_ℤ, ◌<ℤ◌}
use personal_secretary.Prelude.Sort.{sort_by, insert_by}
use personal_secretary.Conversation.Events.{ConversationEvent, is_next}
use personal_secretary.Conversation.{ConversationJournal}
use personal_secretary.Conversation.Accepted.{
  after, is_accepted, IsRecorded, accept-cases, IsRecorded-InOrder,
}
use personal_secretary.Conversation.Recorded.{IsRecorded-RecordsOne}
use personal_secretary.Relay.{first_items, replay}

module _ {A : Type 0} where
  pub first_items-all : (n : ℕ) (xs : List A) → length xs ≤ n → first_items n xs ≡ xs
  unfolding first_items
  first_items-all zero [] h = refl
  first_items-all zero (x ∷ xs) h = absurd (omega (arith, h))
  first_items-all (suc n) [] h = refl
  first_items-all (suc n) (x ∷ xs) h = ap (λ ys. x ∷ ys) (first_items-all n xs (omega (arith, h)))

  -- A cut shorter than the limit has cut nothing.
  pub first_items-short :
      (n : ℕ) (xs : List A) → length (first_items n xs) < n → first_items n xs ≡ xs
  unfolding first_items
  first_items-short zero xs h = absurd (omega (arith, h))
  first_items-short (suc n) [] h = refl
  first_items-short (suc n) (x ∷ xs) h =
      ap (λ ys. x ∷ ys) (first_items-short n xs (omega (arith, h)))

  pub keep-append_one :
      (test : A → Bool) (xs : List A) (y : A)
      → test y ≡ true
      → keep test (xs ++ y ∷ []) ≡ keep test xs ++ y ∷ []
  unfolding keep
  keep-append_one test [] y h = rw h refl
  keep-append_one test (x ∷ xs) y h = elim (Bool-cases (test x)) [
    | inl e ↦ rw e (ap (λ ys. x ∷ ys) (keep-append_one test xs y h))
    | inr e ↦ rw e (keep-append_one test xs y h)
  ]

  pub keep-append_out :
      (test : A → Bool) (xs : List A) (y : A)
      → test y ≡ false
      → keep test (xs ++ y ∷ []) ≡ keep test xs
  unfolding keep
  keep-append_out test [] y h = rw h refl
  keep-append_out test (x ∷ xs) y h = elim (Bool-cases (test x)) [
    | inl e ↦ rw e (ap (λ ys. x ∷ ys) (keep-append_out test xs y h))
    | inr e ↦ rw e (keep-append_out test xs y h)
  ]

module _ {A : Type 0} (le : A → A → Bool) where
  insert-last :
      (x : A) (ys : List A) (y : A)
      → le x y ≡ true
      → insert_by le x (ys ++ y ∷ []) ≡ insert_by le x ys ++ y ∷ []
  unfolding insert_by
  insert-last x [] y h = rw h refl
  insert-last x (z ∷ zs) y h = elim (Bool-cases (le x z)) [
    | inl e ↦ rw e refl
    | inr e ↦ rw e (ap (λ ys. z ∷ ys) (insert-last x zs y h))
  ]

  -- An item that no other comes after is sorted to the end.
  pub sort-last :
      (xs : List A) (y : A)
      → All (λ x. le x y ≡ true) xs
      → sort_by le (xs ++ y ∷ []) ≡ sort_by le xs ++ y ∷ []
  unfolding sort_by insert_by
  sort-last [] y h = refl
  sort-last (x ∷ xs) y h = rw (sort-last xs y h.1) (insert-last x (sort_by le xs) y h.0)

  All-inserted : (P : A → Type 0) (x : A) (ys : List A) → All P (insert_by le x ys) → P x × All P ys
  unfolding insert_by
  All-inserted P x [] h = h
  All-inserted P x (y ∷ ys) h = elim (Bool-cases (le x y)) [
    | inl e ↦ (rw e at h)
    | inr e ↦
        let later : P y × All P (insert_by le x ys) = (rw e at h) in
        let rest = All-inserted P x ys later.1 in (rest.0, (later.0, rest.1))
  ]

  pub All-sorted : (P : A → Type 0) (xs : List A) → All P (sort_by le xs) → All P xs
  unfolding sort_by
  All-sorted P [] h = tt
  All-sorted P (x ∷ xs) h =
      let both = All-inserted P x (sort_by le xs) h in (both.0, All-sorted P xs both.1)

next_below : (z : ℤ) (n m : ℕ) → is_next z n ≡ true → n < m → z <ℤ pos m
next_below (pos k) n m h less = ground (arith, h, less)
next_below (negsuc k) n m h less = ground (arith, h)

pub next_positive : (z : ℤ) (n : ℕ) → is_next z n ≡ true → 1 ≤ n → pos 0 <ℤ z
next_positive (pos k) n h more = ground (arith, h, more)
next_positive (negsuc k) n h more = ground (arith, h)

pub next_above : (z x : ℤ) (n : ℕ) → is_next z n ≡ true → x <ℤ pos n → leb_ℤ x z ≡ true
next_above (pos k) x n h less = ground (arith, h, less)
next_above (negsuc k) x n h less = ground (arith, h)

pub accepted-IsRecorded :
    (j : ConversationJournal) (event : ConversationEvent)
    → is_accepted j event ≡ true
    → IsRecorded j event
accepted-IsRecorded j event h = elim (accept-cases j event) [ inl r ↦ r | inr r ↦ cc (h, r.said) ]

-- What a journal that replayed events says of them.
pub record Replayed (j k : ConversationJournal) (events : List ConversationEvent) : Type 0 where
  pub below : All (λ e. e.sequence <ℤ pos k.next_sequence) events
  pub later : j.next_sequence ≤ k.next_sequence
  pub same : k.conversation ≡ j.conversation

replay-accepted :
    (j k : ConversationJournal) (event : ConversationEvent) (rest : List ConversationEvent)
    → replay j (event ∷ rest) ≡ some k
    → (is_accepted j event ≡ true) × (replay (after j event) rest ≡ some k)
unfolding replay
replay-accepted j k event rest h = elim (Bool-cases (is_accepted j event)) [
  | inl e ↦ (e, rw e at h)
  | inr e ↦ absurd (ground (arith, h, e))
]

pub replay-Replayed :
    (j k : ConversationJournal) (events : List ConversationEvent)
    → replay j events ≡ some k
    → Replayed j k events
unfolding replay
replay-Replayed j k [] h =
    let same : j ≡ k = ground (arith, h) in
    subst (λ i. Replayed j i []) same (record { below = tt; later = omega arith; same = refl })
replay-Replayed j k (event ∷ rest) h =
    let (accepted, replays) = replay-accepted j k event rest h in
    let r = accepted-IsRecorded j event accepted in
    let in_order = IsRecorded-InOrder j event r in
    let one = IsRecorded-RecordsOne j event r in
    let tail = replay-Replayed (after j event) k rest replays in
    record {
      below = (
        next_below event.sequence j.next_sequence k.next_sequence in_order.next
            (omega (arith, one.next_sequence, tail.later)),
        tail.below,
      );
      later = omega (arith, one.next_sequence, tail.later);
      same = tail.same ∙ one.conversation;
    }

pub replay-append_one :
    (j k : ConversationJournal) (events : List ConversationEvent) (event : ConversationEvent)
    → replay j events ≡ some k
    → is_accepted k event ≡ true
    → replay j (events ++ event ∷ []) ≡ some (after k event)
unfolding replay
replay-append_one j k [] event h accepted =
    let same : j ≡ k = ground (arith, h) in
    subst (λ i. replay i (event ∷ []) ≡ some (after k event)) (sym same) (rw accepted refl)
replay-append_one j k (e ∷ es) event h accepted =
    let (first, replays) = replay-accepted j k e es h in
    rw first (replay-append_one (after j e) k es event replays accepted)
