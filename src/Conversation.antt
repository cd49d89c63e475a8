-- ===== src/Conversation.antt =====
-- conversation_api.py: the ordering gate `ConversationJournal`, without pydantic's decoding.
-- UUIDs are texts and times are UTC minutes.
pub mod Events
pub mod Accepted
pub mod Recorded
pub mod Order
pub mod Turns
pub mod Exact
pub mod Examples
use personal_secretary.Prelude.{
  ℕ, suc, String, Bool, true, false, not, ◌||◌, Option, none, some, List, [], ◌∷◌, contains, str_eq,
  if◌then◌else◌,
}
use personal_secretary.Conversation.Events.{
  ConversationState, is_active, ConversationDevice, Conversation, ConversationEventPayload,
  ConversationEvent, payload_kind, kind_eq, is_next,
}

pub data ConversationRejection : Type 0 where
  unknown_conversation conversation_closed duplicate_event out_of_order foreign_participant
        foreign_device device_participant_mismatch kind_mismatch final_without_partial turn_closed
        event_after_cancellation resume_without_cancellation :
      ConversationRejection

pub record ConversationAcceptance : Type 0 where
  pub accepted : Bool
  pub rejection : Option ConversationRejection
  pub next_sequence : ℕ

-- The dict `_devices` is the list that it is built from: of two devices with one id the later counts.
pub record ConversationJournal : Type 0 where
  pub conversation : Conversation
  pub devices : List ConversationDevice
  pub next_sequence : ℕ
  pub seen_event_ids : List String
  pub open_turn_id : Option String
  pub cancelled_turn_id : Option String

unfoldable pub new_journal : Conversation → List ConversationDevice → ConversationJournal
new_journal conversation devices = record {
  conversation = conversation;
  devices = devices;
  next_sequence = 1;
  seen_event_ids = [];
  open_turn_id = none;
  cancelled_turn_id = none;
}

-- `self._devices.get(device_id)`
unfoldable pub get_device : String → List ConversationDevice → Option ConversationDevice
get_device k [] = none
get_device k (d ∷ ds) = elim (get_device k ds) [
  | some later ↦ some later
  | none ↦ if str_eq d.device_id k then some d else none
]

-- The checks that follow the lookup of the device.
unfoldable pub device_rejection :
    ConversationJournal
    → ConversationEvent
    → Option ConversationDevice
    → Option ConversationRejection
device_rejection j event none = some ConversationRejection.foreign_device
device_rejection j event (some device) =
    if not (contains event.device_id j.conversation.device_ids)
    then some ConversationRejection.foreign_device
    else if not (str_eq device.participant_id event.participant_id)
    then some ConversationRejection.device_participant_mismatch
    else if not (kind_eq event.kind (payload_kind event.payload))
    then some ConversationRejection.kind_mismatch
    else if not (is_next event.sequence j.next_sequence)
    then some ConversationRejection.out_of_order
    else none

unfoldable pub envelope_rejection :
    ConversationJournal → ConversationEvent → Option ConversationRejection
envelope_rejection j event =
    if not (str_eq event.conversation_id j.conversation.conversation_id)
    then some ConversationRejection.unknown_conversation
    else if not (is_active j.conversation.state)
    then some ConversationRejection.conversation_closed
    else if contains event.event_id j.seen_event_ids
    then some ConversationRejection.duplicate_event
    else if not (contains event.participant_id j.conversation.participant_ids)
    then some ConversationRejection.foreign_participant
    else device_rejection j event (get_device event.device_id j.devices)

-- `turn is not None and turn == turn_id`
abbrev pub is_turn : Option String → String → Bool
is_turn none turn_id = false
is_turn (some turn) turn_id = str_eq turn turn_id

-- A transcript of a turn: only a partial one opens a turn.
unfoldable pub open_turn_rejection : Option String → Bool → String → Option ConversationRejection
open_turn_rejection none true turn_id = some ConversationRejection.final_without_partial
open_turn_rejection none false turn_id = none
open_turn_rejection (some turn) is_final turn_id =
    if str_eq turn_id turn then none else some ConversationRejection.turn_closed

unfoldable pub transcript_rejection :
    Option String → Option String → Bool → String → Option ConversationRejection
transcript_rejection open_turn cancelled_turn is_final turn_id =
    if is_turn cancelled_turn turn_id
    then some ConversationRejection.event_after_cancellation
    else open_turn_rejection open_turn is_final turn_id

unfoldable pub payload_rejection :
    ConversationJournal → ConversationEventPayload → Option ConversationRejection
payload_rejection j (ConversationEventPayload.transcript_partial turn_id text) =
    transcript_rejection j.open_turn_id j.cancelled_turn_id false turn_id
payload_rejection j (ConversationEventPayload.transcript_final turn_id text) =
    transcript_rejection j.open_turn_id j.cancelled_turn_id true turn_id
payload_rejection j (ConversationEventPayload.resume turn_id resume_from_turn_id) =
    if is_turn j.cancelled_turn_id resume_from_turn_id
    then none
    else some ConversationRejection.resume_without_cancellation
payload_rejection j _ = none

unfoldable pub apply_payload_state :
    ConversationJournal → ConversationEventPayload → ConversationJournal
apply_payload_state j (ConversationEventPayload.transcript_partial turn_id text) = record j {
  open_turn_id = some turn_id;
}
apply_payload_state j (ConversationEventPayload.transcript_final turn_id text) = record j {
  open_turn_id = none;
}
apply_payload_state j (ConversationEventPayload.cancellation turn_id reason) = record j {
  open_turn_id = none;
  cancelled_turn_id = some turn_id;
}
apply_payload_state j (ConversationEventPayload.resume turn_id resume_from_turn_id) = record j {
  open_turn_id = some turn_id;
  cancelled_turn_id = none;
}
apply_payload_state j _ = j

unfoldable pub reject : ConversationJournal → ConversationRejection → ConversationAcceptance
reject j rejection = record {
  accepted = false;
  rejection = some rejection;
  next_sequence = j.next_sequence;
}

-- The journal after an event that nothing rejects.
unfoldable pub record_event : ConversationJournal → ConversationEvent → ConversationJournal
record_event j event =
    apply_payload_state
      (record j {
        seen_event_ids = event.event_id ∷ j.seen_event_ids;
        next_sequence = suc j.next_sequence;
      })
      event.payload

abbrev pub first_rejection :
    Option ConversationRejection → Option ConversationRejection → Option ConversationRejection
first_rejection (some rejection) later = some rejection
first_rejection none later = later

unfoldable pub rejection_of : ConversationJournal → ConversationEvent → Option ConversationRejection
rejection_of j event =
    first_rejection (envelope_rejection j event) (payload_rejection j event.payload)

abbrev pub concluded :
    ConversationJournal
    → ConversationEvent
    → Option ConversationRejection
    → ConversationJournal × ConversationAcceptance
concluded j event (some rejection) = (j, reject j rejection)
concluded j event none =
    let after = record_event j event in
    (after, record { accepted = true; rejection = none; next_sequence = after.next_sequence })

unfoldable pub accept :
    ConversationJournal → ConversationEvent → ConversationJournal × ConversationAcceptance
accept j event = concluded j event (rejection_of j event)
