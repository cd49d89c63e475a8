-- ===== src/Ledger/Unambiguous.antt =====
-- audit_payload (audit.py): the fields that a payload determines.
use Prim.Native.Char.{Char}
use Prim.Native.String.append
use Prim.Native.String.{◌++◌ as text_append}
use personal_secretary.Prelude.{String, ◌≡◌, ◌≢◌, refl, sym, ap, ◌∙◌}
use personal_secretary.Prelude.Int.{ℤ}
use personal_secretary.Ledger.{AuditPrimitives, AuditEntry, audit_payload, kind_value}

head_or : Char → String → Char
head_or c String.[] = c
head_or c (String.◌∷◌ x s) = x

tail_of : String → String
tail_of String.[] = String.[]
tail_of (String.◌∷◌ x s) = s

append_empty : (t : String) → text_append String.[] t ≡ t
append_empty t = λ i. append.nil t i

append_char :
    (x : Char) (s t : String) → text_append (String.◌∷◌ x s) t ≡ String.◌∷◌ x (text_append s t)
append_char x s t = λ i. append.cons x s t i

module _ (c : Char) where
  -- The character does not occur in the text.
  unfoldable pub Free : String → Type 0
  Free String.[] = Unit
  Free (String.◌∷◌ x s) = (x ≢ c) × Free s

  -- A field that has no separator ends at the first separator.
  field_unique :
      (a b r t : String)
      → Free a
      → Free b
      → text_append a (String.◌∷◌ c r) ≡ text_append b (String.◌∷◌ c t)
      → (a ≡ b) × (r ≡ t)
  unfolding Free tail_of head_or
  field_unique String.[] String.[] r t fa fb h =
      (refl, ap tail_of (sym (append_empty _) ∙ h ∙ append_empty _))
  field_unique String.[] (String.◌∷◌ y b) r t fa fb h =
      absurd (fb.0 (sym (ap (head_or c) (sym (append_empty _) ∙ h ∙ append_char y b _))))
  field_unique (String.◌∷◌ x a) String.[] r t fa fb h =
      absurd (fa.0 (ap (head_or c) (sym (append_char x a _) ∙ h ∙ append_empty _)))
  field_unique (String.◌∷◌ x a) (String.◌∷◌ y b) r t fa fb h =
      let chars = sym (append_char x a _) ∙ h ∙ append_char y b _ in
      let rest = field_unique a b r t fa.1 fb.1 (ap tail_of chars) in
      (λ i. String.◌∷◌ (ap (head_or c) chars i) (rest.0 i), rest.1)

-- The fields that a signature covers: all but the hash.
pub record SameFields (d e : AuditEntry) : Type 0 where
  pub sequence : d.sequence ≡ e.sequence
  pub occurred_at : d.occurred_at ≡ e.occurred_at
  pub action_class : d.action_class ≡ e.action_class
  pub kind : kind_value d.record_kind ≡ kind_value e.record_kind
  pub record_id : d.record_id ≡ e.record_id
  pub actor : d.actor ≡ e.actor
  pub correlation_id : d.correlation_id ≡ e.correlation_id
  pub source_fingerprint : d.source_fingerprint ≡ e.source_fingerprint
  pub action_metadata : d.action_metadata ≡ e.action_metadata
  pub previous_hash : d.previous_hash ≡ e.previous_hash

-- The separator is one character, and numbers and times are told apart by their texts.
pub record Readable (primitives : AuditPrimitives) (c : Char) : Type 0 where
  pub separator : primitives.separator ≡ String.◌∷◌ c String.[]
  pub decimal : (m n : ℤ) → primitives.decimal m ≡ primitives.decimal n → m ≡ n
  pub isoformat : (m n : ℤ) → primitives.isoformat m ≡ primitives.isoformat n → m ≡ n

-- No field of the entry before the last one has the separator in its text.
pub record Plain (primitives : AuditPrimitives) (c : Char) (e : AuditEntry) : Type 0 where
  pub sequence : Free c (primitives.decimal e.sequence)
  pub occurred_at : Free c (primitives.isoformat e.occurred_at)
  pub action_class : Free c e.action_class
  pub kind : Free c (kind_value e.record_kind)
  pub record_id : Free c e.record_id
  pub actor : Free c e.actor
  pub correlation_id : Free c e.correlation_id
  pub source_fingerprint : Free c e.source_fingerprint
  pub action_metadata : Free c e.action_metadata

module _ (primitives : AuditPrimitives) (key : String) (c : Char)
    (readable : Readable primitives c) where
  field_split :
      (a b r t : String)
      → Free c a
      → Free c b
      → text_append a (text_append primitives.separator r)
        ≡ text_append b (text_append primitives.separator t)
      → (a ≡ b) × (r ≡ t)
  field_split a b r t fa fb h =
      let joined = (λ (x : String).
        ap (λ (s : String). text_append s x) readable.separator
        ∙ append_char c String.[] x
        ∙ ap (λ (y : String). String.◌∷◌ c y) (append_empty x)) in
      field_unique c a b r t fa fb
        (ap (λ x. text_append a x) (sym (joined r)) ∙ h ∙ ap (λ x. text_append b x) (joined t))

  -- Of two plain entries with one payload, all fields but the hash are the same.
  pub audit_payload-SameFields :
      (d e : AuditEntry)
      → Plain primitives c d
      → Plain primitives c e
      → audit_payload primitives key d ≡ audit_payload primitives key e
      → SameFields d e
  unfolding audit_payload
  audit_payload-SameFields d e p q h =
      let (sequence, h1) = field_split _ _ _ _ p.sequence q.sequence h in
      let (occurred_at, h2) = field_split _ _ _ _ p.occurred_at q.occurred_at h1 in
      let (action_class, h3) = field_split _ _ _ _ p.action_class q.action_class h2 in
      let (kind, h4) = field_split _ _ _ _ p.kind q.kind h3 in
      let (record_id, h5) = field_split _ _ _ _ p.record_id q.record_id h4 in
      let (actor, h6) = field_split _ _ _ _ p.actor q.actor h5 in
      let (correlation_id, h7) = field_split _ _ _ _ p.correlation_id q.correlation_id h6 in
      let (source_fingerprint, h8) =
        field_split _ _ _ _ p.source_fingerprint q.source_fingerprint h7 in
      let (action_metadata, previous_hash) =
        field_split _ _ _ _ p.action_metadata q.action_metadata h8 in
      record {
        sequence = readable.decimal d.sequence e.sequence sequence;
        occurred_at = readable.isoformat d.occurred_at e.occurred_at occurred_at;
        action_class = action_class;
        kind = kind;
        record_id = record_id;
        actor = actor;
        correlation_id = correlation_id;
        source_fingerprint = source_fingerprint;
        action_metadata = action_metadata;
        previous_hash = previous_hash;
      }
