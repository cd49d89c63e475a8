-- ===== src/Ledger/Examples.antt =====
-- ledger.py: a ledger of two entries, with a digest that is the text itself.
use Prim.Native.Char.{code}
use personal_secretary.Prelude.{
  zero, suc, Bool, not, ◌&&◌, sym, ap, ◌∙◌, arith, ◌==◌, String, [], ◌∷◌, ◌≡◌, refl, some, ℕ,
  eq_iff, true,
}
use personal_secretary.Prelude.Int.{ℤ, pos, negsuc, ◌+ℤ◌}
use personal_secretary.Prelude.Results.{ok, err}
use personal_secretary.Ledger.{
  RecordKind, kind_value, AuditPrimitives, AuditEntry, AuditTables, AuditMutation,
  AuditVerification, genesis, append, next_entry, verify, verify_from, prune_before, sign_entry,
  signed_entry, unsigned_entry, audit_payload, tip,
}
use personal_secretary.Ledger.Appended.{append-verify}
use personal_secretary.Ledger.Pruned.{prune_before-PrunedWell, PrunedWell}
use personal_secretary.Ledger.Unambiguous.{Free, SameFields, Readable, Plain}
use personal_secretary.Ledger.Tampered.{verify-tampered, Tampering, CollisionFree}

-- A text for each number, by its strokes.
unfoldable pub strokes : ℕ → String
strokes zero = ""
strokes (suc n) = String.◌∷◌ "1" (strokes n)

unfoldable pub numeral : ℤ → String
numeral (pos n) = strokes n
numeral (negsuc n) = String.◌∷◌ "-" (strokes n)

abbrev the_primitives : AuditPrimitives
the_primitives = record {
  digest = λ key text. text;
  decimal = numeral;
  isoformat = numeral;
  json_state = λ state. state;
  separator = "|";
}

abbrev mutation : String → ℤ → AuditMutation
mutation state time = record {
  record_kind = RecordKind.task;
  record_id = "r";
  state = state;
  action_class = "create";
  source_fingerprint = "f";
  context = record { actor = "a"; correlation_id = "c"; occurred_at = time };
}

abbrev no_rows : AuditTables
no_rows = record { rows = []; anchor = some (pos 0, genesis) }

abbrev first : AuditEntry
first = next_entry the_primitives "k" no_rows (mutation "new" (pos 10))

abbrev one_row : AuditTables
one_row = record no_rows { rows = first ∷ [] }

abbrev second : AuditEntry
second = next_entry the_primitives "k" one_row (mutation "done" (pos 20))

abbrev two_rows : AuditTables
two_rows = record no_rows { rows = first ∷ second ∷ [] }

abbrev two_verified : AuditVerification
two_verified = record { entries_verified = 2; final_hash = second.entry_hash }

two_rows_verify : verify the_primitives "k" two_rows ≡ ok two_verified
unfolding numeral strokes verify verify_from next_entry signed_entry sign_entry unsigned_entry
    audit_payload tip ◌+ℤ◌
two_rows_verify = refl

append-verify_example :
    let e = next_entry the_primitives "k" two_rows (mutation "late" (pos 30)) in
    let appended = record two_rows { rows = first ∷ second ∷ e ∷ [] } in
    (append the_primitives "k" two_rows (mutation "late" (pos 30)) ≡ some appended)
    × (verify the_primitives "k" appended
        ≡ ok (record { entries_verified = 3; final_hash = e.entry_hash }))
append-verify_example =
    append-verify the_primitives "k" two_rows (mutation "late" (pos 30)) two_verified
      two_rows_verify

prune_before-PrunedWell_example :
    (result : AuditTables × ℕ) × (prune_before the_primitives "k" (pos 15) two_rows ≡ ok result)
    × PrunedWell the_primitives "k" (pos 15) two_rows two_verified.final_hash result.0
prune_before-PrunedWell_example =
    prune_before-PrunedWell the_primitives "k" (pos 15) two_rows (pos 0, genesis) two_verified refl
      two_rows_verify

abbrev forged : AuditEntry
forged = record first { source_fingerprint = "g" }

-- Whether the separator of the example is in a text.
unfoldable pub has_no_bar : String → Bool
has_no_bar String.[] = true
has_no_bar (String.◌∷◌ x s) = not (code x == 124) && has_no_bar s

has_no_bar-Free : (s : String) → has_no_bar s ≡ true → Free "|" s
unfolding has_no_bar Free
has_no_bar-Free String.[] h = tt
has_no_bar-Free (String.◌∷◌ x s) h =
    (λ same. ground (arith, h, ap code same), has_no_bar-Free s (ground (arith, h)))

tail_of : String → String
tail_of String.[] = ""
tail_of (String.◌∷◌ x s) = s

is_stroke : String → Bool
is_stroke String.[] = true
is_stroke (String.◌∷◌ x s) = code x == 49

strokes_unique : (m n : ℕ) → strokes m ≡ strokes n → m ≡ n
unfolding strokes tail_of
strokes_unique zero zero h = refl
strokes_unique zero (suc n) h = absurd (cc h)
strokes_unique (suc m) zero h = absurd (cc h)
strokes_unique (suc m) (suc n) h = ap (λ k. suc k) (strokes_unique m n (ap tail_of h))

stroke_first : (n : ℕ) → is_stroke (strokes n) ≡ true
unfolding strokes is_stroke
stroke_first zero = refl
stroke_first (suc n) = refl

numeral_unique : (m n : ℤ) → numeral m ≡ numeral n → m ≡ n
unfolding numeral tail_of is_stroke
numeral_unique (pos m) (pos n) h = ap pos (strokes_unique m n h)
numeral_unique (pos m) (negsuc n) h = absurd (cc (sym (stroke_first m) ∙ ap is_stroke h))
numeral_unique (negsuc m) (pos n) h = absurd (cc (sym (stroke_first n) ∙ ap is_stroke (sym h)))
numeral_unique (negsuc m) (negsuc n) h = ap negsuc (strokes_unique m n (ap tail_of h))

the_primitives-Readable : Readable the_primitives "|"
the_primitives-Readable = record {
  separator = refl;
  decimal = numeral_unique;
  isoformat = numeral_unique;
}

abbrev is_plain : AuditEntry → Bool
is_plain e =
    has_no_bar (numeral e.sequence)
    && has_no_bar (numeral e.occurred_at)
    && has_no_bar e.action_class
    && has_no_bar (kind_value e.record_kind)
    && has_no_bar e.record_id
    && has_no_bar e.actor
    && has_no_bar e.correlation_id
    && has_no_bar e.source_fingerprint
    && has_no_bar e.action_metadata

is_plain-Plain : (e : AuditEntry) → is_plain e ≡ true → Plain the_primitives "|" e
is_plain-Plain e h = record {
  sequence = has_no_bar-Free (numeral e.sequence) (ground (arith, h));
  occurred_at = has_no_bar-Free (numeral e.occurred_at) (ground (arith, h));
  action_class = has_no_bar-Free e.action_class (ground (arith, h));
  kind = has_no_bar-Free (kind_value e.record_kind) (ground (arith, h));
  record_id = has_no_bar-Free e.record_id (ground (arith, h));
  actor = has_no_bar-Free e.actor (ground (arith, h));
  correlation_id = has_no_bar-Free e.correlation_id (ground (arith, h));
  source_fingerprint = has_no_bar-Free e.source_fingerprint (ground (arith, h));
  action_metadata = has_no_bar-Free e.action_metadata (ground (arith, h));
}

first_plain : is_plain first ≡ true
unfolding has_no_bar numeral strokes next_entry signed_entry unsigned_entry tip ◌+ℤ◌
first_plain = refl

second_plain : is_plain second ≡ true
unfolding has_no_bar numeral strokes next_entry signed_entry unsigned_entry tip ◌+ℤ◌
second_plain = refl

forged_plain : is_plain forged ≡ true
unfolding has_no_bar numeral strokes next_entry signed_entry unsigned_entry tip ◌+ℤ◌
forged_plain = refl

forged_differs : ¬ SameFields forged first
unfolding next_entry signed_entry unsigned_entry
forged_differs h = cc ((eq_iff "g" "f").1 h.source_fingerprint)

no_collisions : CollisionFree the_primitives "k" (first ∷ second ∷ []) (forged ∷ second ∷ [])
unfolding sign_entry
no_collisions = ((λ h. h, (λ h. h, tt)), ((λ h. h, (λ h. h, tt)), tt))

verify-tampered_example :
    verify the_primitives "k" (record two_rows { rows = forged ∷ second ∷ [] }) ≡ err first.sequence
verify-tampered_example =
    verify-tampered the_primitives "k" "|" the_primitives-Readable two_rows two_verified
      (forged ∷ second ∷ []) first.sequence two_rows_verify
      (Tampering.changed [] (second ∷ []) first forged refl forged_differs) no_collisions
      (is_plain-Plain first first_plain, (is_plain-Plain second second_plain, tt))
      (is_plain-Plain forged forged_plain, (is_plain-Plain second second_plain, tt))
