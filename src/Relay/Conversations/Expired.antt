-- ===== src/Relay/Conversations/Expired.antt =====
-- relay_store.py: what `expire` leaves.
use mathlib.Core.Path.{subst}
use personal_secretary.Prelude.{
  ℕ, String, Bool, true, false, not, Option, none, some, List, [], ◌∷◌, ◌||◌, ◌≡◌, refl, sym, ap,
  ◌∙◌, inl, inr, arith, Bool-cases, All, All-weaken, str_eq, eq_iff, keep, length, any,
}
use personal_secretary.Prelude.Int.{ℤ, leb_ℤ}
use personal_secretary.Prelude.Sort.{sort_by, insert_by}
use personal_secretary.Prelude.Results.{Result, err, ok}
use personal_secretary.Ledger.{TransitionContext}
use personal_secretary.Relay.{RelayError, RelayPrimitives, ConversationRecord, conversation}
use personal_secretary.Relay.Conversations.{
  RetentionRow, RelayTables, purge, then_purge, purge_all, due_rows, counted, expire,
}
use personal_secretary.Relay.Conversations.Deleted.{Forgotten, purge-Forgotten}

module _ {A : Type 0} (test : A → Bool) where
  any-inserted :
      (le : A → A → Bool) (x : A) (ys : List A)
      → any test (insert_by le x ys) ≡ test x || any test ys
  unfolding any insert_by
  any-inserted le x [] = refl
  any-inserted le x (y ∷ ys) = elim (Bool-cases (le x y)) [
    | inl e ↦ rw e refl
    | inr e ↦ rw e (ground (arith, any-inserted le x ys))
  ]

  any-sorted : (le : A → A → Bool) (xs : List A) → any test (sort_by le xs) ≡ any test xs
  unfolding any sort_by
  any-sorted le [] = refl
  any-sorted le (x ∷ xs) =
      any-inserted le x (sort_by le xs) ∙ ap (λ b. test x || b) (any-sorted le xs)

  any-keep_more :
      (q : A → Bool) (x : A) (xs : List A)
      → any test (keep q xs) ≡ true
      → any test (keep q (x ∷ xs)) ≡ true
  unfolding any keep
  any-keep_more q x xs h = elim (Bool-cases (q x)) [
    | inl e ↦ rw e (ground (arith, h))
    | inr e ↦ rw e h
  ]

abbrev same_row : RetentionRow → RetentionRow → Bool
same_row x row = str_eq row.conversation_id x.conversation_id

module _ (now : ℤ) where
  abbrev is_due : RetentionRow → Bool
  is_due row = leb_ℤ row.expires_at now

  -- A due row is of a conversation in the list.
  abbrev Pending : List RetentionRow → RetentionRow → Type 0
  Pending rows row = is_due row ≡ true → any (same_row row) rows ≡ true

  Pending-kept : (rows : List RetentionRow) → All (Pending (keep is_due rows)) rows
  unfolding any keep
  Pending-kept [] = tt
  Pending-kept (row ∷ rows) = (
    λ due. rw (due, (eq_iff row.conversation_id row.conversation_id).1 refl) refl,
    All-weaken _ _ rows (λ x h due. any-keep_more (same_row x) is_due row rows (h due))
        (Pending-kept rows),
  )

  Pending-due : (tables : RelayTables) → All (Pending (due_rows now tables)) tables.retention
  Pending-due tables =
      All-weaken _ _ tables.retention
        (λ x h due. any-sorted (same_row x) _ (keep is_due tables.retention) ∙ h due)
        (Pending-kept tables.retention)

  Pending-purged :
      (row : RetentionRow) (rows retention : List RetentionRow)
      → All (Pending (row ∷ rows)) retention
      → All
          (Pending rows)
          (keep (λ x. not (str_eq x.conversation_id row.conversation_id)) retention)
  unfolding any keep
  Pending-purged row rows [] h = tt
  Pending-purged row rows (x ∷ xs) h =
      elim (Bool-cases (str_eq x.conversation_id row.conversation_id)) [
        | inl e ↦ rw e (Pending-purged row rows xs h.1)
        | inr e ↦ rw e (
          λ due. elim (Bool-cases (str_eq row.conversation_id x.conversation_id)) [
            | inl f ↦ absurd (
                cc (
                  (eq_iff x.conversation_id row.conversation_id).1
                      (sym ((eq_iff row.conversation_id x.conversation_id).0 f)),
                  e,
                ))
            | inr f ↦ ground (arith, h.0 due, f)
          ],
          Pending-purged row rows xs h.1,
        )
      ]

  none_due :
      (retention : List RetentionRow)
      → All (Pending []) retention
      → All (λ row. is_due row ≡ false) retention
  unfolding any
  none_due retention h =
      All-weaken _ _ retention
        (λ x p. elim (Bool-cases (is_due x)) [ inl e ↦ absurd (ground (arith, p e)) | inr e ↦ e ]) h

  -- No row is due, and a conversation without a row in the list reads as before.
  pub record Expired (before after : RelayTables) (rows : List RetentionRow) : Type 0 where
    pub none_left : All (λ row. leb_ℤ row.expires_at now ≡ false) after.retention
    pub others :
        (other : String)
        → All (λ row. str_eq other row.conversation_id ≡ false) rows
        → (device_id : String)
        → conversation after.relay other device_id ≡ conversation before.relay other device_id

  module _ (primitives : RelayPrimitives) (record_json : ConversationRecord → String)
      (decimal : ℕ → String) (context : TransitionContext) where
    then-Expired :
        (row : RetentionRow) (rows : List RetentionRow) (tables : RelayTables)
        (r : Result RelayError (RelayTables × ℕ))
        → purge primitives record_json decimal tables row.conversation_id context ≡ r
        → ((later : RelayTables) (n : ℕ)
            → Forgotten tables later row.conversation_id n
            → (purge_all primitives record_json decimal context rows later).1 ≡ none
            → Expired later (purge_all primitives record_json decimal context rows later).0 rows)
        → (then_purge primitives record_json decimal tables r
            (purge_all primitives record_json decimal context rows)).1
          ≡ none
        → Expired tables
            (then_purge primitives record_json decimal tables r
              (purge_all primitives record_json decimal context rows)).0
            (row ∷ rows)
    then-Expired row rows tables (err e) purged next h = absurd (ground (arith, h))
    then-Expired row rows tables (ok (later, n)) purged next h =
        let gone =
          purge-Forgotten primitives record_json decimal tables later row.conversation_id context n
            purged in
        let rest = next later n gone h in
        record {
          none_left = rest.none_left;
          others = λ other all_apart device_id.
              rest.others other all_apart.1 device_id ∙ gone.others other all_apart.0 device_id;
        }

    purge_all-Expired :
        (rows : List RetentionRow) (tables : RelayTables)
        → All (Pending rows) tables.retention
        → (purge_all primitives record_json decimal context rows tables).1 ≡ none
        → Expired tables (purge_all primitives record_json decimal context rows tables).0 rows
    unfolding purge_all
    purge_all-Expired [] tables pending h = record {
      none_left = none_due tables.retention pending;
      others = λ other all_apart device_id. refl;
    }
    purge_all-Expired (row ∷ rows) tables pending h =
        then-Expired row rows tables _ refl
          (λ later n gone h'.
            purge_all-Expired rows later
              (subst (All (Pending rows)) (sym gone.retention)
                (Pending-purged row rows tables.retention pending))
              h')
          h

    counted-cases :
        (n m : ℕ) (p : RelayTables × Option RelayError)
        → (counted n p).1 ≡ ok m
        → ((counted n p).0 ≡ p.0) × (p.1 ≡ none)
    counted-cases n m (tables, none) h = (refl, refl)
    counted-cases n m (tables, some e) h = absurd (ground (arith, h))

    -- When `expire` raises no error, no row of the retention table is due any more, and a conversation
    -- that had no due row reads as before.
    pub expire-Expired :
        (tables : RelayTables) (n : ℕ)
        → (expire primitives record_json decimal now context tables).1 ≡ ok n
        → Expired tables
            (expire primitives record_json decimal now context tables).0
            (due_rows now tables)
    unfolding expire
    expire-Expired tables n h =
        let rows = due_rows now tables in
        let (same, done) =
          counted-cases (length rows) n
            (purge_all primitives record_json decimal context rows tables) h in
        subst (λ t. Expired tables t rows) (sym same)
          (purge_all-Expired rows tables (Pending-due tables) done)
