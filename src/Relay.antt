-- ===== src/Relay.antt =====
-- relay_store.py: the conversations that devices append to, over the conversation journal and the ledger.
-- Each table is the list of its rows. A method that raises leaves the store as it was, since it runs in
-- one transaction. The equality, size, JSON text and time zone of an event, and HMAC, are arguments.
pub mod History
pub mod Appended
pub mod Acknowledged
pub mod Retried
pub mod Conversations
pub mod Examples
use Prim.Native.String.{◌++◌ as text_append}
use personal_secretary.Prelude.{
  ℕ, zero, suc, String, Bool, true, false, not, Option, none, some, List, [], ◌∷◌, ◌++◌, ◌&&◌, ◌||◌,
  ltb, leb, str_eq, contains, keep, find, map, length, any, if◌then◌else◌,
}
use personal_secretary.Prelude.Int.{ℤ, pos, ◌+ℤ◌, ltb_ℤ, leb_ℤ}
use personal_secretary.Prelude.Sort.{sort_by}
use personal_secretary.Prelude.Results.{Result, err, ok}
use personal_secretary.Planner.Models.{distinct}
use personal_secretary.Conversation.Events.{
  ConversationState, ConversationDevice, Conversation, ConversationEvent, ConversationEventKind,
}
use personal_secretary.Conversation.{
  ConversationJournal, ConversationAcceptance, new_journal, accept,
}
use personal_secretary.Ledger.{
  RecordKind, TransitionContext, AuditMutation, AuditPrimitives, AuditTables, AuditVerification,
  append as append_audit, verify as verify_audit,
}

abbrev pub max_conversation_events : ℕ
max_conversation_events = 10000

abbrev pub max_batch_events : ℕ
max_batch_events = 100

abbrev pub max_event_bytes : ℕ
max_event_bytes = 16384

abbrev pub is_client_kind : ConversationEventKind → Bool
is_client_kind ConversationEventKind.transcript_partial = true
is_client_kind ConversationEventKind.transcript_final = true
is_client_kind ConversationEventKind.cancellation = true
is_client_kind ConversationEventKind.resume = true
is_client_kind ConversationEventKind.attachment = false
is_client_kind ConversationEventKind.tool_result = false
is_client_kind ConversationEventKind.error = false

-- `RelayConflictError`, `RelayAccessError`, `AuditTamperError`, the error of the database on a taken key,
-- and `ValidationError`.
pub data RelayError : Type 0 where
  conflict access tampered taken_key invalid : RelayError

pub record ConversationRecord : Type 0 where
  pub record_id : String
  pub created_at : ℤ
  pub state : ConversationState
  pub title : Option String
  pub participant_ids : List String

pub record RelayStore : Type 0 where
  pub devices : List ConversationDevice
  pub conversations : List ConversationRecord
  pub events : List ConversationEvent
  pub audit : AuditTables

pub record RelayPrimitives : Type 0 where
  pub same_event : ConversationEvent → ConversationEvent → Bool
  pub is_aware : ConversationEvent → Bool
  pub event_bytes : ConversationEvent → ℕ
  pub event_json : ConversationEvent → String
  pub hmac : String → String
  pub audit : AuditPrimitives
  pub audit_key : String

unfoldable pub stored_device : RelayStore → String → Option ConversationDevice
stored_device store device_id = find (λ d. str_eq d.device_id device_id) store.devices

-- `_devices_for`
unfoldable pub devices_for : RelayStore → List String → List ConversationDevice
devices_for store participant_ids =
    keep (λ d. contains d.participant_id participant_ids) store.devices

abbrev pub title_or_empty : Option String → String
title_or_empty none = ""
title_or_empty (some title) = title

unfoldable pub conversation_of : RelayStore → ConversationRecord → Conversation
conversation_of store r = record {
  conversation_id = r.record_id;
  title = title_or_empty r.title;
  participant_ids = r.participant_ids;
  device_ids = map (λ d. d.device_id) (devices_for store r.participant_ids);
  created_at = r.created_at;
  state = r.state;
}

abbrev pub authorized :
    RelayStore
    → Option ConversationDevice
    → Option ConversationRecord
    → Result RelayError Conversation
authorized store none r = err RelayError.access
authorized store (some device) none = err RelayError.access
authorized store (some device) (some r) =
    if contains device.participant_id r.participant_ids
    then ok (conversation_of store r)
    else err RelayError.access

unfoldable pub conversation : RelayStore → String → String → Result RelayError Conversation
conversation store conversation_id device_id =
    authorized store (stored_device store device_id)
      (find (λ r. str_eq r.record_id conversation_id) store.conversations)

-- `LIMIT`
unfoldable pub first_items {ℓ} : {A : Type ℓ} → ℕ → List A → List A
first_items zero xs = []
first_items (suc n) [] = []
first_items (suc n) (x ∷ xs) = x ∷ first_items n xs

abbrev pub sequence_le : ConversationEvent → ConversationEvent → Bool
sequence_le a b = leb_ℤ a.sequence b.sequence

-- The rows of a conversation after a sequence, in the order of their sequences.
unfoldable pub events_after : RelayStore → String → ℤ → ℕ → List ConversationEvent
events_after store conversation_id cursor limit = first_items limit (
    sort_by sequence_le (
      keep (λ e. str_eq e.conversation_id conversation_id && ltb_ℤ cursor e.sequence) store.events))

abbrev pub page_of :
    RelayStore
    → String
    → ℤ
    → ℕ
    → Result RelayError Conversation
    → Result RelayError (List ConversationEvent)
page_of store conversation_id cursor limit (err e) = err e
page_of store conversation_id cursor limit (ok c) =
    if ltb_ℤ cursor (pos 0) || not (leb 1 limit && leb limit max_conversation_events)
    then err RelayError.conflict
    else ok (events_after store conversation_id cursor limit)

unfoldable pub events_page :
    RelayStore → String → String → ℤ → ℕ → Result RelayError (List ConversationEvent)
events_page store conversation_id device_id cursor limit =
    page_of store conversation_id cursor limit (conversation store conversation_id device_id)

-- The journal after the history; `none` if it rejects an event.
unfoldable pub replay : ConversationJournal → List ConversationEvent → Option ConversationJournal
replay journal [] = some journal
replay journal (event ∷ rest) =
    let (next, acceptance) = accept journal event in
    let later = replay next rest in if acceptance.accepted then later else none

-- `known.get(event_id)`
unfoldable pub known_event : String → List ConversationEvent → Option ConversationEvent
known_event event_id known = find (λ e. str_eq e.event_id event_id) known

-- What the loop over a batch changes.
pub record Batch : Type 0 where
  pub store : RelayStore
  pub journal : ConversationJournal
  pub known : List ConversationEvent

module _ (primitives : RelayPrimitives) where
  unfoldable pub event_mutation : ConversationEvent → TransitionContext → AuditMutation
  event_mutation event context = record {
    record_kind = RecordKind.event;
    record_id = event.event_id;
    state = "accepted";
    action_class = "conversation.event.accepted";
    source_fingerprint = primitives.hmac (primitives.event_json event);
    context = context;
  }

  abbrev pub appended_audit : Option AuditTables → Result RelayError AuditTables
  appended_audit none = err RelayError.taken_key
  appended_audit (some tables) = ok tables

  abbrev pub audited :
      AuditTables → AuditMutation → Result ℤ AuditVerification → Result RelayError AuditTables
  audited tables mutation (err sequence) = err RelayError.tampered
  audited tables mutation (ok verification) =
      appended_audit (append_audit primitives.audit primitives.audit_key tables mutation)

  -- `_audit`
  unfoldable pub audit : AuditTables → AuditMutation → Result RelayError AuditTables
  audit tables mutation =
      audited tables mutation (verify_audit primitives.audit primitives.audit_key tables)

  abbrev pub inserted :
      RelayStore → ConversationEvent → Result RelayError AuditTables → Result RelayError RelayStore
  inserted store event (err e) = err e
  inserted store event (ok tables) =
      ok (record store { events = store.events ++ event ∷ []; audit = tables })

  -- `_insert_event`: the event id is the key of the table, and a sequence is unique in its conversation.
  unfoldable pub insert_event :
      RelayStore → ConversationEvent → TransitionContext → Result RelayError RelayStore
  insert_event store event context =
      let result = inserted store event (audit store.audit (event_mutation event context)) in
      if any
        (λ e.
          str_eq e.event_id event.event_id
          || (str_eq e.conversation_id event.conversation_id
              && leb_ℤ e.sequence event.sequence
              && leb_ℤ event.sequence e.sequence))
        store.events
      then err RelayError.taken_key
      else result

  abbrev pub recorded :
      Batch
      → ConversationJournal
      → ConversationEvent
      → Result RelayError RelayStore
      → Result RelayError Batch
  recorded batch journal event (err e) = err e
  recorded batch journal event (ok store) =
      ok (record { store = store; journal = journal; known = batch.known ++ event ∷ [] })

  abbrev pub take_event :
      TransitionContext
      → Batch
      → ConversationEvent
      → Option ConversationEvent
      → Result RelayError Batch
  take_event context batch event (some old) =
      if primitives.same_event event old then ok batch else err RelayError.conflict
  take_event context batch event none =
      let (journal, acceptance) = accept batch.journal event in
      let result = recorded batch journal event (insert_event batch.store event context) in
      if leb max_conversation_events (length batch.known) || not acceptance.accepted
      then err RelayError.conflict
      else result

  -- One event of the batch.
  unfoldable pub append_event :
      String → TransitionContext → Batch → ConversationEvent → Result RelayError Batch
  append_event device_id context batch event =
      let result = take_event context batch event (known_event event.event_id batch.known) in
      if not (str_eq event.device_id device_id && is_client_kind event.kind)
      then err RelayError.access
      else if not (primitives.is_aware event) || ltb max_event_bytes (primitives.event_bytes event)
      then err RelayError.conflict
      else result

  abbrev pub then_batch :
      Result RelayError Batch → (Batch → Result RelayError Batch) → Result RelayError Batch
  then_batch (err e) next = err e
  then_batch (ok batch) next = next batch

  unfoldable pub append_events :
      String → TransitionContext → List ConversationEvent → Batch → Result RelayError Batch
  append_events device_id context [] batch = ok batch
  append_events device_id context (event ∷ rest) batch =
      then_batch (append_event device_id context batch event) (append_events device_id context rest)

  abbrev pub acknowledged : Result RelayError Batch → Result RelayError (RelayStore × ℕ)
  acknowledged (err e) = err e
  acknowledged (ok batch) = ok (batch.store, suc (length batch.known))

  abbrev pub replayed :
      String
      → TransitionContext
      → List ConversationEvent
      → RelayStore
      → List ConversationEvent
      → Option ConversationJournal
      → Result RelayError (RelayStore × ℕ)
  replayed device_id context events store history none = err RelayError.conflict
  replayed device_id context events store history (some journal) =
      let result = acknowledged (
        append_events device_id context events
          (record { store = store; journal = journal; known = history })) in
      if not (leb 1 (length events) && leb (length events) max_batch_events)
        || not (distinct (map (λ e. e.event_id) events))
      then err RelayError.conflict
      else result

  abbrev pub append_to :
      String
      → TransitionContext
      → List ConversationEvent
      → RelayStore
      → Result RelayError Conversation
      → Result RelayError (RelayStore × ℕ)
  append_to device_id context events store (err e) = err e
  append_to device_id context events store (ok c) =
      let history = events_after store c.conversation_id (pos 0) max_conversation_events in
      replayed device_id context events store history
        (replay (new_journal c (devices_for store c.participant_ids)) history)

  -- `append`: the store after the batch, and the next sequence.
  unfoldable pub append_batch :
      RelayStore
      → String
      → String
      → List ConversationEvent
      → TransitionContext
      → Result RelayError (RelayStore × ℕ)
  append_batch store conversation_id device_id events context =
      append_to device_id context events store (conversation store conversation_id device_id)
