-- ===== src/Ledger/Tampered.antt =====
-- AuditLedger.verify and audit_payload (audit.py, ledger.py): rows that were changed after they were written.
use Prim.Native.Char.{Char}
use personal_secretary.Prelude.{
  String, true, false, List, [], ◌∷◌, ◌++◌, ◌≡◌, ◌≢◌, inl, inr, arith, Bool-cases, sym, ap, ◌∙◌,
  All, All_middle,
}
use personal_secretary.Prelude.Int.{ℤ, pos, ◌+ℤ◌, ◌≤ℤ◌, int_laws}
use personal_secretary.Prelude.Results.{err, ok}
use personal_secretary.Ledger.{
  AuditPrimitives, AuditEntry, AuditTables, AuditVerification, anchor_or_genesis, verify,
  verify_from, is_valid, sign_entry, audit_payload,
}
use personal_secretary.Ledger.Unambiguous.{SameFields, Readable, Plain, audit_payload-SameFields}
use personal_secretary.Ledger.Chain.{
  verify_from-cons, verify_cons, is_valid-Signed, Signed-is_valid,
}
use personal_secretary.Ledger.Appended.{verify_ok}

after_successor : (a b : ℤ) → a ≡ b → a ≤ℤ b
after_successor a b h = rw h (omega arith)

no_successor : (a : ℤ) → a +ℤ pos 1 ≢ a
no_successor a h = omega (int_laws, after_successor (a +ℤ pos 1) a h)

module _ (primitives : AuditPrimitives) (key : String) where
  verify_bad :
      (s : ℤ) (p : String) (e : AuditEntry) (es : List AuditEntry)
      → is_valid primitives key s p e ≡ false
      → verify_from primitives key s p (e ∷ es) ≡ err s
  unfolding verify_from
  verify_bad s p e es bad = rw bad

  -- Rows that verify up to a row that is not valid after them.
  verify_from-bad :
      (s : ℤ) (p h : String) (before after rest : List AuditEntry) (e d : AuditEntry)
      → verify_from primitives key (s +ℤ pos 1) p (before ++ e ∷ after) ≡ ok h
      → ((t : ℤ) (q : String)
          → is_valid primitives key t q e ≡ true
          → is_valid primitives key t q d ≡ false)
      → verify_from primitives key (s +ℤ pos 1) p (before ++ d ∷ rest) ≡ err e.sequence
  verify_from-bad s p h [] after rest e d verified bad =
      let signed = (verify_from-cons primitives key (s +ℤ pos 1) p h e after verified).0 in
      verify_bad (s +ℤ pos 1) p d rest
        (bad (s +ℤ pos 1) p (Signed-is_valid primitives key (s +ℤ pos 1) p e signed))
      ∙ ap (λ t. err t) (sym signed.0)
  verify_from-bad s p h (b ∷ bs) after rest e d verified bad =
      let (signed, later) =
        verify_from-cons primitives key (s +ℤ pos 1) p h b (bs ++ e ∷ after) verified in
      verify_cons primitives key (s +ℤ pos 1) p b (bs ++ d ∷ rest) signed
      ∙ verify_from-bad b.sequence b.entry_hash h bs after rest e d later bad

  other_payload :
      (e d : AuditEntry)
      → d.entry_hash ≡ e.entry_hash
      → audit_payload primitives key d ≢ audit_payload primitives key e
      → (sign_entry primitives key e ≡ sign_entry primitives key d
          → audit_payload primitives key e ≡ audit_payload primitives key d)
      → (t : ℤ) (q : String) → is_valid primitives key t q e ≡ true
      → is_valid primitives key t q d ≡ false
  other_payload e d same differs collision t q valid =
      elim (Bool-cases (is_valid primitives key t q d)) [
        | inl v ↦ absurd (
            differs (
              sym (
                collision (
                  sym (is_valid-Signed primitives key t q e valid).2
                  ∙ sym same
                  ∙ (is_valid-Signed primitives key t q d v).2))))
        | inr v ↦ v
      ]

  next_row :
      (e n : AuditEntry)
      → n.sequence ≡ e.sequence +ℤ pos 1
      → (t : ℤ) (q : String) → is_valid primitives key t q e ≡ true
      → is_valid primitives key t q n ≡ false
  next_row e n next t q valid = elim (Bool-cases (is_valid primitives key t q n)) [
    | inl v ↦ absurd (
        no_successor e.sequence (
          sym next
          ∙ (is_valid-Signed primitives key t q n v).0
          ∙ sym (is_valid-Signed primitives key t q e valid).0))
    | inr v ↦ v
  ]

  second_row :
      (s : ℤ) (p h : String) (before after : List AuditEntry) (e n : AuditEntry)
      → verify_from primitives key (s +ℤ pos 1) p (before ++ e ∷ n ∷ after) ≡ ok h
      → n.sequence ≡ e.sequence +ℤ pos 1
  second_row s p h [] after e n verified =
      let rest = (verify_from-cons primitives key (s +ℤ pos 1) p h e (n ∷ after) verified).1 in
      (verify_from-cons primitives key (e.sequence +ℤ pos 1) e.entry_hash h n after rest).0.0
  second_row s p h (b ∷ bs) after e n verified =
      second_row b.sequence b.entry_hash h bs after e n
        (verify_from-cons primitives key (s +ℤ pos 1) p h b (bs ++ e ∷ n ∷ after) verified).1

-- The rows before, the rows after, and the sequence of the row that was changed or removed. A
-- changed row keeps its hash and differs in another field; a removed row is not the last.
pub data Tampering : List AuditEntry → List AuditEntry → ℤ → Type 0 where
  changed :
      (before after : List AuditEntry) (e d : AuditEntry)
      → d.entry_hash ≡ e.entry_hash
      → ¬ SameFields d e
      → Tampering (before ++ e ∷ after) (before ++ d ∷ after) e.sequence
  removed :
      (before after : List AuditEntry) (e n : AuditEntry)
      → Tampering (before ++ e ∷ n ∷ after) (before ++ n ∷ after) e.sequence

-- No entry of one table has the signature but not the payload of an entry of the other.
abbrev pub CollisionFree : AuditPrimitives → String → List AuditEntry → List AuditEntry → Type 0
CollisionFree primitives key rows tampered =
    All
      (λ e.
        All
          (λ d.
            sign_entry primitives key e ≡ sign_entry primitives key d
            → audit_payload primitives key e ≡ audit_payload primitives key d)
          tampered)
      rows

module _ (primitives : AuditPrimitives) (key : String) (c : Char)
    (readable : Readable primitives c) where
  tampered_from :
      (s : ℤ) (p h : String) (rows others : List AuditEntry) (sequence : ℤ)
      → Tampering rows others sequence
      → CollisionFree primitives key rows others
      → All (Plain primitives c) rows
      → All (Plain primitives c) others
      → verify_from primitives key (s +ℤ pos 1) p rows ≡ ok h
      → verify_from primitives key (s +ℤ pos 1) p others ≡ err sequence
  tampered_from s p h _ _ _ (Tampering.changed before after e d same differs) free plain
        others_plain verified =
      verify_from-bad primitives key s p h before after after e d verified (
        other_payload primitives key e d same
          (λ one. differs (
            audit_payload-SameFields primitives key c readable d e
              (All_middle (Plain primitives c) before d after others_plain)
              (All_middle (Plain primitives c) before e after plain) one))
          (All_middle (λ x. _) before d after (All_middle (λ x. _) before e after free)))
  tampered_from s p h _ _ _ (Tampering.removed before after e n) free plain others_plain verified =
      verify_from-bad primitives key s p h before (n ∷ after) after e n verified
        (next_row primitives key e n (second_row primitives key s p h before after e n verified))

  -- When a row of a chain that verifies is changed in any other field than its hash, which stays, or
  -- is removed from before the last one, `verify` raises the error at the sequence of that row, if
  -- the separator is one character that occurs in no field of the rows before the previous hash, the
  -- texts of numbers and times tell them apart, and no entry has the signature of an entry with another payload.
  pub verify-tampered :
      (tables : AuditTables) (v : AuditVerification) (others : List AuditEntry) (sequence : ℤ)
      → verify primitives key tables ≡ ok v
      → Tampering tables.rows others sequence
      → CollisionFree primitives key tables.rows others
      → All (Plain primitives c) tables.rows
      → All (Plain primitives c) others
      → verify primitives key (record tables { rows = others }) ≡ err sequence
  unfolding verify
  verify-tampered tables v others sequence verified tampering free plain others_plain =
      let start = anchor_or_genesis tables.anchor in
      rw (
        tampered_from start.0 start.1 v.final_hash tables.rows others sequence tampering free plain
          others_plain (verify_ok primitives key tables v verified))
