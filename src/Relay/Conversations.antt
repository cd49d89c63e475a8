-- ===== src/Relay/Conversations.antt =====
-- relay_store.py: creating, deleting and expiring conversations (`create`, `delete`, `expire`). Times are
-- UTC microseconds. The rows of canonical conversations and events that the relay has not put there are
-- kept by their ids; each row of `relay_conversations` has its canonical conversation.
pub mod Deleted
pub mod Created
pub mod Expired
pub mod Examples
use Prim.Native.String.{◌++◌ as text_append}
use personal_secretary.Prelude.{
  ℕ, ◌+◌, String, Bool, not, Option, none, some, List, [], ◌∷◌, ◌++◌, ◌&&◌, ◌||◌, str_eq, contains,
  keep, map, length, any, if◌then◌else◌,
}
use personal_secretary.Prelude.Int.{ℤ, pos, ◌+ℤ◌, leb_ℤ}
use personal_secretary.Prelude.Sort.{sort_by}
use personal_secretary.Prelude.Results.{Result, err, ok}
use personal_secretary.Conversation.Events.{ConversationState, ConversationDevice, Conversation}
use personal_secretary.Ledger.{RecordKind, TransitionContext, AuditMutation, AuditTables}
use personal_secretary.Relay.{
  RelayError, RelayStore, RelayPrimitives, ConversationRecord, stored_device, conversation, audit,
}

-- 180 days.
abbrev pub conversation_retention : ℤ
conversation_retention = pos 15552000000000

pub record RetentionRow : Type 0 where
  pub conversation_id : String
  pub expires_at : ℤ

-- What deletion reads of an event of `canonical_conversation_events` that has no row in `relay_events`, such
-- as an agent turn.
pub record CanonicalEvent : Type 0 where
  pub record_id : String
  pub conversation_id : String

pub record RelayTables : Type 0 where
  pub relay : RelayStore
  pub retention : List RetentionRow
  pub other_events : List CanonicalEvent
  -- The canonical conversations that are not the relay's.
  pub unlinked : List String

abbrev pub exists_conversation : RelayTables → String → Bool
exists_conversation tables conversation_id =
    any (λ r. str_eq r.record_id conversation_id) tables.relay.conversations
    || contains conversation_id tables.unlinked

abbrev pub same_title :
    RelayTables
    → String
    → Result RelayError Conversation
    → Result RelayError (RelayTables × Conversation)
same_title tables title (err e) = err e
same_title tables title (ok current) =
    if str_eq current.title title then ok (tables, current) else err RelayError.conflict

abbrev pub new_record :
    String → String → ConversationDevice → TransitionContext → ConversationRecord
new_record conversation_id title device context = record {
  record_id = conversation_id;
  created_at = context.occurred_at;
  state = ConversationState.active;
  title = some title;
  participant_ids = device.participant_id ∷ [];
}

abbrev pub with_conversation :
    RelayTables → ConversationRecord → TransitionContext → AuditTables → RelayTables
with_conversation tables r context entries = record tables {
  relay = record tables.relay {
    conversations = tables.relay.conversations ++ r ∷ [];
    audit = entries;
  };
  retention =
      tables.retention
      ++ record {
        conversation_id = r.record_id;
        expires_at = context.occurred_at +ℤ conversation_retention;
      }
        ∷ [];
}

abbrev pub returned :
    RelayTables → Result RelayError Conversation → Result RelayError (RelayTables × Conversation)
returned tables (err e) = err e
returned tables (ok c) = ok (tables, c)

-- The tables without the content of a conversation.
unfoldable pub without_conversation : RelayTables → String → RelayTables
without_conversation tables conversation_id = record {
  relay = record tables.relay {
    events = keep (λ e. not (str_eq e.conversation_id conversation_id)) tables.relay.events;
    conversations = keep (λ r. not (str_eq r.record_id conversation_id)) tables.relay.conversations;
  };
  retention = keep (λ row. not (str_eq row.conversation_id conversation_id)) tables.retention;
  other_events = keep (λ e. not (str_eq e.conversation_id conversation_id)) tables.other_events;
  unlinked = keep (λ i. not (str_eq i conversation_id)) tables.unlinked;
}

-- `len(event_rows)`
unfoldable pub event_count : RelayTables → String → ℕ
event_count tables conversation_id =
    length (keep (λ e. str_eq e.conversation_id conversation_id) tables.relay.events)
    + length (keep (λ e. str_eq e.conversation_id conversation_id) tables.other_events)

abbrev pub due_rows : ℤ → RelayTables → List RetentionRow
due_rows now tables =
    sort_by (λ a b. leb_ℤ a.expires_at b.expires_at)
      (keep (λ row. leb_ℤ row.expires_at now) tables.retention)

abbrev pub counted : ℕ → RelayTables × Option RelayError → RelayTables × Result RelayError ℕ
counted n (tables, none) = (tables, ok n)
counted n (tables, some e) = (tables, err e)

module _ (primitives : RelayPrimitives) (record_json : ConversationRecord → String)
    (decimal : ℕ → String) where
  -- The argument of the ledger in `_audit`.
  abbrev pub content_mutation : String → String → String → TransitionContext → AuditMutation
  content_mutation record_id action content context = record {
    record_kind = RecordKind.event;
    record_id = record_id;
    state = "accepted";
    action_class = action;
    source_fingerprint = primitives.hmac content;
    context = context;
  }

  abbrev pub created :
      RelayTables
      → ConversationRecord
      → String
      → TransitionContext
      → Result RelayError AuditTables
      → Result RelayError (RelayTables × Conversation)
  created tables r device_id context (err e) = err e
  created tables r device_id context (ok entries) =
      let later = with_conversation tables r context entries in
      returned later (conversation later.relay r.record_id device_id)

  abbrev pub create_for :
      RelayTables
      → String
      → String
      → String
      → TransitionContext
      → Option ConversationDevice
      → Result RelayError (RelayTables × Conversation)
  create_for tables conversation_id title device_id context none = err RelayError.access
  create_for tables conversation_id title device_id context (some device) =
      let r = new_record conversation_id title device context in
      let mutation =
        content_mutation conversation_id "conversation.created" (record_json r) context in
      let again = same_title tables title (conversation tables.relay conversation_id device_id) in
      let result =
        created tables r device_id context (audit primitives tables.relay.audit mutation) in
      if exists_conversation tables conversation_id
      then again
      else if str_eq title ""
      then err RelayError.invalid
      else if any (λ row. str_eq row.conversation_id conversation_id) tables.retention
      then err RelayError.taken_key
      else result

  unfoldable pub create :
      RelayTables
      → String
      → String
      → String
      → TransitionContext
      → Result RelayError (RelayTables × Conversation)
  create tables conversation_id title device_id context =
      create_for tables conversation_id title device_id context
        (stored_device tables.relay device_id)

  abbrev pub deleted :
      RelayTables → ℕ → Result RelayError AuditTables → Result RelayError (RelayTables × ℕ)
  deleted tables count (err e) = err e
  deleted tables count (ok entries) =
      ok (record tables { relay = record tables.relay { audit = entries } }, count)

  -- `_delete`
  unfoldable pub purge :
      RelayTables → String → TransitionContext → Result RelayError (RelayTables × ℕ)
  purge tables conversation_id context =
      let count = event_count tables conversation_id in
      let content = text_append conversation_id (text_append ":" (decimal count)) in
      deleted (without_conversation tables conversation_id) count (
        audit primitives tables.relay.audit
          (content_mutation conversation_id "conversation.deleted" content context))

  abbrev pub delete_for :
      RelayTables
      → String
      → TransitionContext
      → Result RelayError Conversation
      → Result RelayError (RelayTables × ℕ)
  delete_for tables conversation_id context (err e) = err e
  delete_for tables conversation_id context (ok c) = purge tables conversation_id context

  unfoldable pub delete :
      RelayTables → String → String → TransitionContext → Result RelayError (RelayTables × ℕ)
  delete tables conversation_id device_id context =
      delete_for tables conversation_id context
        (conversation tables.relay conversation_id device_id)

  abbrev pub then_purge :
      RelayTables
      → Result RelayError (RelayTables × ℕ)
      → (RelayTables → RelayTables × Option RelayError)
      → RelayTables × Option RelayError
  then_purge tables (err e) next = (tables, some e)
  then_purge tables (ok (later, count)) next = next later

  -- Each conversation is purged in a transaction of its own, up to the first error.
  unfoldable pub purge_all :
      TransitionContext → List RetentionRow → RelayTables → RelayTables × Option RelayError
  purge_all context [] tables = (tables, none)
  purge_all context (row ∷ rows) tables =
      then_purge tables (purge tables row.conversation_id context) (purge_all context rows)

  unfoldable pub expire : ℤ → TransitionContext → RelayTables → RelayTables × Result RelayError ℕ
  expire now context tables =
      let rows = due_rows now tables in counted (length rows) (purge_all context rows tables)
