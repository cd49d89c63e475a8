-- ===== src/Ledger/Chain.antt =====
-- AuditLedger.verify (ledger.py): what the loop finds of a row, and where the chain ends.
use mathlib.Core.Path.{subst}
use personal_secretary.Prelude.{
  String, true, List, [], ◌∷◌, ◌++◌, ◌≡◌, refl, inl, inr, eq_iff, arith, Bool-cases, some, ◌∙◌,
}
use personal_secretary.Prelude.Int.{ℤ, pos, ◌+ℤ◌, ◌≤ℤ◌, ltb_ℤ, eq_of_parts, int_laws, +ℤ_parts}
use personal_secretary.Prelude.Results.{Result, ok}
use personal_secretary.Ledger.{
  AuditPrimitives, AuditEntry, sign_entry, verify_from, is_valid, tip, same_sequence, insert_row,
}

pub same_sequence-eq : (a b : ℤ) → same_sequence a b ≡ true → a ≡ b
same_sequence-eq a b h = ground (arith, eq_of_parts a b)

pub same_sequence_refl : (a : ℤ) → same_sequence a a ≡ true
same_sequence_refl a = ground arith

abbrev pub Signed : AuditPrimitives → String → ℤ → String → AuditEntry → Type 0
Signed primitives key s p e =
    (e.sequence ≡ s) × (e.previous_hash ≡ p) × (e.entry_hash ≡ sign_entry primitives key e)

pub ok_unique : (r : Result ℤ String) (a b : String) → r ≡ ok a → r ≡ ok b → a ≡ b
ok_unique r a b h k = ground (arith, h, k)

equal_sequence : (a b : ℤ) → a ≡ b → same_sequence a b ≡ true
equal_sequence a b h = rw (h, same_sequence_refl b)

module _ (primitives : AuditPrimitives) (key : String) where
  pub is_valid-Signed :
      (s : ℤ) (p : String) (e : AuditEntry)
      → is_valid primitives key s p e ≡ true
      → Signed primitives key s p e
  is_valid-Signed s p e h = ground (
    arith,
    same_sequence-eq e.sequence s,
    eq_iff e.previous_hash p,
    eq_iff e.entry_hash (sign_entry primitives key e),
  )

  pub Signed-is_valid :
      (s : ℤ) (p : String) (e : AuditEntry)
      → Signed primitives key s p e
      → is_valid primitives key s p e ≡ true
  Signed-is_valid s p e h = rw (
    equal_sequence e.sequence s h.0,
    (eq_iff e.previous_hash p).1 h.1,
    (eq_iff e.entry_hash (sign_entry primitives key e)).1 h.2,
  )

  pub verify_from-cons :
      (s : ℤ) (p h : String) (e : AuditEntry) (es : List AuditEntry)
      → verify_from primitives key s p (e ∷ es) ≡ ok h
      → Signed primitives key s p e
        × (verify_from primitives key (e.sequence +ℤ pos 1) e.entry_hash es ≡ ok h)
  unfolding verify_from
  verify_from-cons s p h e es verified = elim (Bool-cases (is_valid primitives key s p e)) [
    | inl v ↦ let signed = is_valid-Signed s p e v in (signed, rw (signed.0) (rw v at verified))
    | inr v ↦ ground (arith, v)
  ]

  pub verify_cons :
      (s : ℤ) (p : String) (e : AuditEntry) (es : List AuditEntry)
      → Signed primitives key s p e
      → verify_from primitives key s p (e ∷ es)
        ≡ verify_from primitives key (e.sequence +ℤ pos 1) e.entry_hash es
  unfolding verify_from
  verify_cons s p e es signed = rw (Signed-is_valid s p e signed, signed.0)

  -- The chain that verifies ends in the hash of its tip, which is not before its start.
  pub tip-verified :
      (s : ℤ) (p h : String) (rows : List AuditEntry)
      → verify_from primitives key (s +ℤ pos 1) p rows ≡ ok h
      → ((tip (s, p) rows).1 ≡ h) × (s ≤ℤ (tip (s, p) rows).0)
  unfolding tip verify_from
  tip-verified s p h [] verified = (ok_unique (ok p) p h refl verified, omega arith)
  tip-verified s p h (e ∷ es) verified =
      let (signed, rest) = verify_from-cons (s +ℤ pos 1) p h e es verified in
      let (ends, after) = tip-verified e.sequence e.entry_hash h es rest in
      let later : (s +ℤ pos 1) ≤ℤ (tip (e.sequence, e.entry_hash) es).0 =
        subst (λ q. q ≤ℤ (tip (e.sequence, e.entry_hash) es).0) signed.0 after in
      (ends, omega (int_laws, later))

insert_row_later :
    (e r : AuditEntry) (rs rest : List AuditEntry)
    → ltb_ℤ r.sequence e.sequence ≡ true
    → insert_row e rs ≡ some rest
    → insert_row e (r ∷ rs) ≡ some (r ∷ rest)
unfolding insert_row
insert_row_later e r rs rest before inserted = rw (inserted, before)

module _ (primitives : AuditPrimitives) (key : String) where
  -- A signed row that follows the tip goes to the end, and the chain then ends in its hash.
  pub insert_tip :
      (s : ℤ) (p h : String) (rows : List AuditEntry) (e : AuditEntry)
      → verify_from primitives key (s +ℤ pos 1) p rows ≡ ok h
      → Signed primitives key ((tip (s, p) rows).0 +ℤ pos 1) (tip (s, p) rows).1 e
      → (insert_row e rows ≡ some (rows ++ e ∷ []))
        × (verify_from primitives key (s +ℤ pos 1) p (rows ++ e ∷ []) ≡ ok e.entry_hash)
  unfolding tip verify_from insert_row
  insert_tip s p h [] e verified signed =
      (refl, verify_cons primitives key (s +ℤ pos 1) p e [] signed)
  insert_tip s p h (r ∷ rs) e verified signed =
      let (head, rest) = verify_from-cons primitives key (s +ℤ pos 1) p h r rs verified in
      let (inserted, chained) = insert_tip r.sequence r.entry_hash h rs e rest signed in
      let after = (tip-verified primitives key r.sequence r.entry_hash h rs rest).1 in
      (
        insert_row_later e r rs (rs ++ e ∷ [])
            (ground
              (arith, +ℤ_parts (tip (r.sequence, r.entry_hash) rs).0 (pos 1), after, signed.0))
            inserted,
        verify_cons primitives key (s +ℤ pos 1) p r (rs ++ e ∷ []) head ∙ chained,
      )
