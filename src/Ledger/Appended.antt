-- ===== src/Ledger/Appended.antt =====
-- AuditLedger.append (ledger.py) on a chain that verifies.
use personal_secretary.Prelude.{
  ℕ, ◌+◌, String, List, ◌++◌, ◌∷◌, [], ◌≡◌, refl, some, arith, length, suc, length-append,
}
use personal_secretary.Prelude.Int.{ℤ, pos, ◌+ℤ◌}
use personal_secretary.Prelude.Results.{Result, err, ok}
use personal_secretary.Ledger.{
  AuditPrimitives, AuditEntry, AuditTables, AuditMutation, AuditVerification, anchor_or_genesis,
  append, next_entry, verify, verification, sign_entry, verify_from, tip, unsigned_entry,
  signed_entry, audit_payload,
}
use personal_secretary.Ledger.Chain.{insert_tip, Signed}

add_one : (n : ℕ) → n + 1 ≡ suc n
add_one n = omega arith

verification-ok :
    (rows : List AuditEntry) (r : Result ℤ String) (v : AuditVerification)
    → verification rows r ≡ ok v
    → r ≡ ok v.final_hash
verification-ok rows (err s) v h = ground arith
verification-ok rows (ok x) v h = ground arith

module _ (primitives : AuditPrimitives) (key : String) where
  pub verify_ok :
      (tables : AuditTables) (v : AuditVerification)
      → verify primitives key tables ≡ ok v
      → verify_from primitives key
          ((anchor_or_genesis tables.anchor).0 +ℤ pos 1)
          (anchor_or_genesis tables.anchor).1
          tables.rows
        ≡ ok v.final_hash
  unfolding verify
  verify_ok tables v h = verification-ok tables.rows _ v h

  next_entry-Signed :
      (tables : AuditTables) (mutation : AuditMutation)
      → let end = tip (anchor_or_genesis tables.anchor) tables.rows in
        Signed primitives key (end.0 +ℤ pos 1) end.1 (next_entry primitives key tables mutation)
  unfolding next_entry signed_entry unsigned_entry sign_entry audit_payload
  next_entry-Signed tables mutation = (refl, refl, refl)

  -- An entry appended to a chain that verifies is the last row of a chain that verifies, has one more
  -- entry and ends in the hash of the new entry.
  pub append-verify :
      (tables : AuditTables) (mutation : AuditMutation) (v : AuditVerification)
      → verify primitives key tables ≡ ok v
      → let e = next_entry primitives key tables mutation in
        let appended = record tables { rows = tables.rows ++ e ∷ [] } in
        (append primitives key tables mutation ≡ some appended)
        × (verify primitives key appended
            ≡ ok
                (record { entries_verified = suc (length tables.rows); final_hash = e.entry_hash }))
  unfolding append verify
  append-verify tables mutation v verified =
      let e = next_entry primitives key tables mutation in
      let anchor = anchor_or_genesis tables.anchor in
      let (inserted, chained) =
        insert_tip primitives key anchor.0 anchor.1 v.final_hash tables.rows e
          (verify_ok tables v verified) (next_entry-Signed tables mutation) in
      (rw inserted, rw (chained, length-append tables.rows (e ∷ []), add_one (length tables.rows)))
