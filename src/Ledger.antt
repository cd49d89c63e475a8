-- ===== src/Ledger.antt =====
-- audit.py and ledger.py: the chained audit records. The table of entries is the list of its rows in
-- the order of their key, the sequence; the texts of numbers, times and JSON, and HMAC, are arguments.
pub mod Chain
pub mod Appended
pub mod Pruned
pub mod Unambiguous
pub mod Tampered
pub mod Examples
use Prim.Native.String.{◌++◌ as text_append}
use personal_secretary.Prelude.{
  ℕ, suc, String, Bool, true, false, not, ◌&&◌, Option, none, some, List, [], ◌∷◌, keep, length,
  str_eq, if◌then◌else◌,
}
use personal_secretary.Prelude.Int.{ℤ, pos, ◌+ℤ◌, ltb_ℤ, leb_ℤ}
use personal_secretary.Prelude.Results.{Result, err, ok}

pub data RecordKind : Type 0 where
  identity connector capability source_item normalized_fact task event proposal approval execution
        energy_check_in goal pattern_snapshot consent_record :
      RecordKind

abbrev pub kind_value : RecordKind → String
kind_value RecordKind.identity = "identity"
kind_value RecordKind.connector = "connector"
kind_value RecordKind.capability = "capability"
kind_value RecordKind.source_item = "source_item"
kind_value RecordKind.normalized_fact = "normalized_fact"
kind_value RecordKind.task = "task"
kind_value RecordKind.event = "event"
kind_value RecordKind.proposal = "proposal"
kind_value RecordKind.approval = "approval"
kind_value RecordKind.execution = "execution"
kind_value RecordKind.energy_check_in = "energy_check_in"
kind_value RecordKind.goal = "goal"
kind_value RecordKind.pattern_snapshot = "pattern_snapshot"
kind_value RecordKind.consent_record = "consent_record"

pub record TransitionContext : Type 0 where
  pub actor : String
  pub correlation_id : String
  pub occurred_at : ℤ

pub record AuditEntry : Type 0 where
  pub sequence : ℤ
  pub occurred_at : ℤ
  pub action_class : String
  pub record_kind : RecordKind
  pub record_id : String
  pub actor : String
  pub correlation_id : String
  pub source_fingerprint : String
  pub action_metadata : String
  pub previous_hash : String
  pub entry_hash : String

pub record AuditVerification : Type 0 where
  pub entries_verified : ℕ
  pub final_hash : String

pub record AuditMutation : Type 0 where
  pub record_kind : RecordKind
  pub record_id : String
  pub state : String
  pub action_class : String
  pub source_fingerprint : String
  pub context : TransitionContext

pub record AuditPrimitives : Type 0 where
  pub digest : String → String → String
  pub decimal : ℤ → String
  pub isoformat : ℤ → String
  pub json_state : String → String
  pub separator : String

-- The table of entries and the row of the anchor.
pub record AuditTables : Type 0 where
  pub rows : List AuditEntry
  pub anchor : Option (ℤ × String)

abbrev pub genesis : String
genesis = "0000000000000000000000000000000000000000000000000000000000000000"

abbrev pub anchor_or_genesis : Option (ℤ × String) → ℤ × String
anchor_or_genesis none = (pos 0, genesis)
anchor_or_genesis (some anchor) = anchor

-- The sequence and hash of the last row, or those of the anchor.
unfoldable pub tip : ℤ × String → List AuditEntry → ℤ × String
tip anchor [] = anchor
tip anchor (e ∷ es) = tip (e.sequence, e.entry_hash) es

abbrev pub same_sequence : ℤ → ℤ → Bool
same_sequence a b = leb_ℤ a b && leb_ℤ b a

abbrev pub cons_rows : AuditEntry → Option (List AuditEntry) → Option (List AuditEntry)
cons_rows r none = none
cons_rows r (some rest) = some (r ∷ rest)

-- `INSERT`: `none` is the error on a key that is taken.
unfoldable pub insert_row : AuditEntry → List AuditEntry → Option (List AuditEntry)
insert_row e [] = some (e ∷ [])
insert_row e (r ∷ rs) =
    let rest = insert_row e rs in
    if ltb_ℤ r.sequence e.sequence
    then cons_rows r rest
    else if same_sequence r.sequence e.sequence
    then none
    else some (e ∷ r ∷ rs)

abbrev pub last_or : AuditEntry → Option AuditEntry → Option AuditEntry
last_or e none = some e
last_or e (some l) = some l

unfoldable pub last_entry : List AuditEntry → Option AuditEntry
last_entry [] = none
last_entry (e ∷ es) = last_or e (last_entry es)

abbrev pub verification : List AuditEntry → Result ℤ String → Result ℤ AuditVerification
verification rows (err sequence) = err sequence
verification rows (ok final_hash) =
    ok (record { entries_verified = length rows; final_hash = final_hash })

unfoldable pub expired : ℤ → List AuditEntry → List AuditEntry
expired cutoff = keep (λ e. ltb_ℤ e.occurred_at cutoff)

-- `UPDATE audit_chain_anchor`: no row is made.
abbrev pub move_anchor : AuditEntry → Option (ℤ × String) → Option (ℤ × String)
move_anchor last none = none
move_anchor last (some anchor) = some (last.sequence, last.entry_hash)

-- Rows up to the last expired one go; the count is that of the expired ones.
abbrev pub pruned : ℤ → AuditTables → Option AuditEntry → AuditTables × ℕ
pruned cutoff tables none = (tables, 0)
pruned cutoff tables (some last) = (
  record {
    rows = keep (λ e. not (leb_ℤ e.sequence last.sequence)) tables.rows;
    anchor = move_anchor last tables.anchor;
  },
  length (expired cutoff tables.rows),
)

abbrev pub prune_verified :
    ℤ → AuditTables → Result ℤ AuditVerification → Result ℤ (AuditTables × ℕ)
prune_verified cutoff tables (err sequence) = err sequence
prune_verified cutoff tables (ok v) =
    ok (pruned cutoff tables (last_entry (expired cutoff tables.rows)))

module _ (primitives : AuditPrimitives) (key : String) where
  -- `audit_payload`: the fields but the last, joined by the separator.
  unfoldable pub audit_payload : AuditEntry → String
  audit_payload e =
      let then_field =
        λ (text rest : String). text_append text (text_append primitives.separator rest) in
      then_field (primitives.decimal e.sequence) (
        then_field (primitives.isoformat e.occurred_at) (
          then_field e.action_class (
            then_field (kind_value e.record_kind) (
              then_field e.record_id (
                then_field e.actor (
                  then_field e.correlation_id (
                    then_field e.source_fingerprint
                      (then_field e.action_metadata e.previous_hash))))))))

  unfoldable pub sign_entry : AuditEntry → String
  sign_entry e = primitives.digest key (audit_payload e)

  unfoldable pub signed_entry : AuditEntry → AuditEntry
  signed_entry unsigned = record unsigned { entry_hash = sign_entry unsigned }

  unfoldable pub unsigned_entry : ℤ × String → AuditMutation → AuditEntry
  unsigned_entry (sequence, previous_hash) mutation = record {
    sequence = sequence +ℤ pos 1;
    occurred_at = mutation.context.occurred_at;
    action_class = mutation.action_class;
    record_kind = mutation.record_kind;
    record_id = mutation.record_id;
    actor = mutation.context.actor;
    correlation_id = mutation.context.correlation_id;
    source_fingerprint = mutation.source_fingerprint;
    action_metadata = primitives.json_state mutation.state;
    previous_hash = previous_hash;
    entry_hash = "";
  }

  unfoldable pub next_entry : AuditTables → AuditMutation → AuditEntry
  next_entry tables mutation =
      signed_entry (unsigned_entry (tip (anchor_or_genesis tables.anchor) tables.rows) mutation)

  abbrev pub with_rows : AuditTables → Option (List AuditEntry) → Option AuditTables
  with_rows tables none = none
  with_rows tables (some rows) = some (record tables { rows = rows })

  unfoldable pub append : AuditTables → AuditMutation → Option AuditTables
  append tables mutation = with_rows tables (insert_row (next_entry tables mutation) tables.rows)

  abbrev pub is_valid : ℤ → String → AuditEntry → Bool
  is_valid expected previous_hash e =
      same_sequence e.sequence expected
      && str_eq e.previous_hash previous_hash
      && str_eq e.entry_hash (sign_entry e)

  -- The loop of `verify`: the last hash, or the sequence at which `AuditTamperError` is raised.
  unfoldable pub verify_from : ℤ → String → List AuditEntry → Result ℤ String
  verify_from expected previous_hash [] = ok previous_hash
  verify_from expected previous_hash (e ∷ es) =
      let rest = verify_from (expected +ℤ pos 1) e.entry_hash es in
      if is_valid expected previous_hash e then rest else err expected

  unfoldable pub verify : AuditTables → Result ℤ AuditVerification
  verify tables =
      let (sequence, hash) = anchor_or_genesis tables.anchor in
      verification tables.rows (verify_from (sequence +ℤ pos 1) hash tables.rows)

  unfoldable pub prune_before : ℤ → AuditTables → Result ℤ (AuditTables × ℕ)
  prune_before cutoff tables = prune_verified cutoff tables (verify tables)
