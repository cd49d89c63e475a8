-- ===== src/Ledger/Pruned.antt =====
-- AuditLedger.prune_before (ledger.py) on a chain that verifies.
use mathlib.Core.Path.{subst}
use personal_secretary.Prelude.{
  ℕ, String, Bool, true, false, not, List, [], ◌∷◌, ◌++◌, ◌⊎◌, ◌≡◌, refl, inl, inr, arith, Option,
  none, some, Bool-cases, All, All-weaken, keep, length, sym, ap,
}
use personal_secretary.Prelude.Int.{ℤ, pos, ◌+ℤ◌, ◌≤ℤ◌, ◌<ℤ◌, ltb_ℤ, leb_ℤ, int_laws}
use personal_secretary.Prelude.Results.{ok}
use personal_secretary.Ledger.{
  AuditPrimitives, AuditEntry, AuditTables, AuditVerification, anchor_or_genesis, verify,
  verify_from, expired, last_entry, last_or, pruned, prune_before,
}
use personal_secretary.Ledger.Chain.{verify_from-cons}
use personal_secretary.Ledger.Appended.{verify_ok}

keep_same {ℓ} :
    {A : Type ℓ} (test : A → Bool) (xs : List A) → All (λ x. test x ≡ true) xs → keep test xs ≡ xs
unfolding keep
keep_same test [] h = refl
keep_same test (x ∷ xs) h = rw (h.0) (ap (λ ys. x ∷ ys) (keep_same test xs h.1))

keep_drop {ℓ} :
    {A : Type ℓ} (test : A → Bool) (x : A) (xs : List A)
    → test x ≡ false
    → keep test (x ∷ xs) ≡ keep test xs
unfolding keep
keep_drop test x xs h = rw h

abbrev beyond : AuditEntry → AuditEntry → Bool
beyond l e = not (leb_ℤ e.sequence l.sequence)

beyond_after : (l e : AuditEntry) → l.sequence <ℤ e.sequence → beyond l e ≡ true
beyond_after l e h = ground arith

beyond_before : (l e : AuditEntry) → e.sequence <ℤ l.sequence → beyond l e ≡ false
beyond_before l e h = ground arith

abbrev pub Unexpired : ℤ → AuditEntry → Type 0
Unexpired cutoff e = cutoff ≤ℤ e.occurred_at

module _ (primitives : AuditPrimitives) (key : String) where
  later_rows :
      (s : ℤ) (p h : String) (rows : List AuditEntry)
      → verify_from primitives key (s +ℤ pos 1) p rows ≡ ok h
      → All (λ e. s <ℤ e.sequence) rows
  later_rows s p h [] verified = tt
  later_rows s p h (e ∷ es) verified =
      let (signed, rest) = verify_from-cons primitives key (s +ℤ pos 1) p h e es verified in
      let first : s <ℤ e.sequence = subst (λ q. s <ℤ q) (sym signed.0) (omega int_laws) in
      (
        first,
        All-weaken (λ r. e.sequence <ℤ r.sequence) (λ r. s <ℤ r.sequence) es
            (λ r after. omega (arith, first, after)) (later_rows e.sequence e.entry_hash h es rest),
      )

  -- What stays when the rows up to this one go.
  abbrev Leaves : ℤ → ℤ → String → List AuditEntry → Option AuditEntry → Type 0
  Leaves cutoff s h rows none = All (Unexpired cutoff) rows
  Leaves cutoff s h rows (some l) =
      (s <ℤ l.sequence)
      × (verify_from primitives key (l.sequence +ℤ pos 1) l.entry_hash (keep (beyond l) rows)
          ≡ ok h)
      × All (Unexpired cutoff) (keep (beyond l) rows)
      × (l.occurred_at <ℤ cutoff)
      × ((before : List AuditEntry) × (rows ≡ before ++ l ∷ keep (beyond l) rows))

  rows_beyond :
      (e : AuditEntry) (h : String) (es : List AuditEntry)
      → verify_from primitives key (e.sequence +ℤ pos 1) e.entry_hash es ≡ ok h
      → keep (beyond e) (e ∷ es) ≡ es
  rows_beyond e h es rest = rw (
    keep_drop (beyond e) e es (ground arith),
    keep_same (beyond e) es (
        All-weaken (λ r. e.sequence <ℤ r.sequence) (λ r. beyond e r ≡ true) es (beyond_after e)
          (later_rows e.sequence e.entry_hash h es rest)),
  )

  Leaves-head :
      (cutoff s : ℤ) (p h : String) (e : AuditEntry) (es : List AuditEntry) (o : Option AuditEntry)
      → s <ℤ e.sequence
      → verify_from primitives key (e.sequence +ℤ pos 1) e.entry_hash es ≡ ok h
      → e.occurred_at <ℤ cutoff
      → Leaves cutoff e.sequence h es o
      → Leaves cutoff s h (e ∷ es) (last_or e o)
  Leaves-head cutoff s p h e es none first rest old left =
      rw (rows_beyond e h es rest) (first, rest, left, old, ([], refl))
  Leaves-head cutoff s p h e es (some l) first rest old left =
      rw (keep_drop (beyond l) e es (beyond_before l e left.0)) (
        omega (arith, first, left.0),
        left.1,
        left.2,
        left.3,
        (e ∷ left.4.0, ap (λ rs. e ∷ rs) left.4.1),
      )

  Leaves-skip :
      (cutoff s : ℤ) (p h : String) (e : AuditEntry) (es : List AuditEntry) (o : Option AuditEntry)
      → s <ℤ e.sequence
      → Unexpired cutoff e
      → Leaves cutoff e.sequence h es o
      → Leaves cutoff s h (e ∷ es) o
  Leaves-skip cutoff s p h e es none first fresh left = (fresh, left)
  Leaves-skip cutoff s p h e es (some l) first fresh left =
      rw (keep_drop (beyond l) e es (beyond_before l e left.0)) (
        omega (arith, first, left.0),
        left.1,
        left.2,
        left.3,
        (e ∷ left.4.0, ap (λ rs. e ∷ rs) left.4.1),
      )

  Leaves-expired :
      (cutoff s : ℤ) (p h : String) (rows : List AuditEntry)
      → verify_from primitives key (s +ℤ pos 1) p rows ≡ ok h
      → Leaves cutoff s h rows (last_entry (expired cutoff rows))
  unfolding expired keep last_entry
  Leaves-expired cutoff s p h [] verified = tt
  Leaves-expired cutoff s p h (e ∷ es) verified =
      let (signed, rest) = verify_from-cons primitives key (s +ℤ pos 1) p h e es verified in
      let first = (later_rows s p h (e ∷ es) verified).0 in
      let left = Leaves-expired cutoff e.sequence e.entry_hash h es rest in
      elim (Bool-cases (ltb_ℤ e.occurred_at cutoff)) [
        | inl old ↦ rw old (
            Leaves-head cutoff s p h e es (last_entry (expired cutoff es)) first rest
              (ground (arith, old)) left)
        | inr young ↦ rw young (
            Leaves-skip cutoff s p h e es (last_entry (expired cutoff es)) first
              (ground (arith, young)) left)
      ]

  -- Nothing goes, or the rows up to one that occurred before the cutoff go.
  abbrev pub Cut : ℤ → List AuditEntry → List AuditEntry → Type 0
  Cut cutoff rows kept =
      (kept ≡ rows)
      ⊎ ((before : List AuditEntry) × (l : AuditEntry) × (l.occurred_at <ℤ cutoff)
          × (rows ≡ before ++ l ∷ kept))

  abbrev pub PrunedWell : ℤ → AuditTables → String → AuditTables → Type 0
  PrunedWell cutoff tables h result =
      (verify primitives key result
        ≡ ok (record { entries_verified = length result.rows; final_hash = h }))
      × All (Unexpired cutoff) result.rows
      × Cut cutoff tables.rows result.rows

  Leaves-PrunedWell :
      (cutoff s : ℤ) (tables : AuditTables) (anchor : ℤ × String) (v : AuditVerification)
      (o : Option AuditEntry)
      → tables.anchor ≡ some anchor
      → verify primitives key tables ≡ ok v
      → Leaves cutoff s v.final_hash tables.rows o
      → PrunedWell cutoff tables v.final_hash (pruned cutoff tables o).0
  unfolding verify
  Leaves-PrunedWell cutoff s tables anchor v none anchored verified left =
      (rw (verify_ok primitives key tables v verified), left, inl refl)
  Leaves-PrunedWell cutoff s tables anchor v (some l) anchored verified left =
      (rw (anchored, left.1), left.2, inr (left.4.0, l, left.3, left.4.1))

  -- With an anchor, pruning a chain that verifies succeeds and leaves a chain that verifies with the
  -- same final hash, in which no entry occurred before the cutoff: either all of the rows, or those that
  -- follow a row that occurred before the cutoff.
  pub prune_before-PrunedWell :
      (cutoff : ℤ) (tables : AuditTables) (anchor : ℤ × String) (v : AuditVerification)
      → tables.anchor ≡ some anchor
      → verify primitives key tables ≡ ok v
      → (result : AuditTables × ℕ) × (prune_before primitives key cutoff tables ≡ ok result)
        × PrunedWell cutoff tables v.final_hash result.0
  unfolding prune_before
  prune_before-PrunedWell cutoff tables anchor v anchored verified =
      let start = anchor_or_genesis tables.anchor in
      let left =
        Leaves-expired cutoff start.0 start.1 v.final_hash tables.rows
          (verify_ok primitives key tables v verified) in
      (
        pruned cutoff tables (last_entry (expired cutoff tables.rows)),
        rw verified,
        Leaves-PrunedWell cutoff start.0 tables anchor v (last_entry (expired cutoff tables.rows))
            anchored verified left,
      )
