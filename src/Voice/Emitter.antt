-- ===== src/Voice/Emitter.antt =====
-- voice/state.py: the state of a session, and the emitter of its events to the conversation's journal.
-- The reading of a device id as a UUID, and the UUID of a number, are arguments.
pub mod Ordered
pub mod Linked
use personal_secretary.Prelude.{
  ℕ, suc, ◌-◌, String, Bool, true, false, Option, none, some, List, [], ◌∷◌, ◌++◌, if◌then◌else◌,
}
use personal_secretary.Prelude.Int.{ℤ, pos}
use personal_secretary.Prelude.Results.{Result, err, ok}
use personal_secretary.Conversation.Events.{
  ConversationEventPayload, ConversationEvent, payload_kind,
}
use personal_secretary.Conversation.{
  ConversationRejection, ConversationAcceptance, ConversationJournal, accept,
}
use personal_secretary.Voice.Models.{
  Bytes, SessionMode, SessionStartRequest, VoiceEvent, VoiceEventKind, VoiceError,
}

pub record VoiceSessionState : Type 0 where
  pub session_id : String
  pub request : SessionStartRequest
  pub mode : SessionMode
  pub provider_handle : Option String
  pub disconnected_at : Option ℤ
  pub ended : Bool
  pub last_client_event_id : ℤ
  pub queued_tts : Bytes
  pub action_progress : List VoiceEvent
  pub events : List VoiceEvent
  pub partial_turns : List String
  pub cancelled_turns : List String
  pub final_events : List (String × VoiceEvent)

unfoldable pub new_session :
    String → SessionStartRequest → SessionMode → Option String → VoiceSessionState
new_session session_id request mode provider_handle = record {
  session_id = session_id;
  request = request;
  mode = mode;
  provider_handle = provider_handle;
  disconnected_at = none;
  ended = false;
  last_client_event_id = pos 0;
  queued_tts = [];
  action_progress = [];
  events = [];
  partial_turns = [];
  cancelled_turns = [];
  final_events = [];
}

pub record ConversationVoiceEmitter : Type 0 where
  pub journal : ConversationJournal
  pub next_event_id : ℕ
  pub next_conversation_sequence : ℕ

unfoldable pub new_emitter : ConversationJournal → ConversationVoiceEmitter
new_emitter journal = record {
  journal = journal;
  next_event_id = 1;
  next_conversation_sequence = 1;
}

pub record EventPrimitives : Type 0 where
  pub parse_uuid : String → Option String
  pub uuid_of_int : ℕ → String

-- The value of the enumeration.
abbrev pub rejection_value : ConversationRejection → String
rejection_value ConversationRejection.unknown_conversation = "unknown_conversation"
rejection_value ConversationRejection.conversation_closed = "conversation_closed"
rejection_value ConversationRejection.duplicate_event = "duplicate_event"
rejection_value ConversationRejection.out_of_order = "out_of_order"
rejection_value ConversationRejection.foreign_participant = "foreign_participant"
rejection_value ConversationRejection.foreign_device = "foreign_device"
rejection_value ConversationRejection.device_participant_mismatch = "device_participant_mismatch"
rejection_value ConversationRejection.kind_mismatch = "kind_mismatch"
rejection_value ConversationRejection.final_without_partial = "final_without_partial"
rejection_value ConversationRejection.turn_closed = "turn_closed"
rejection_value ConversationRejection.event_after_cancellation = "event_after_cancellation"
rejection_value ConversationRejection.resume_without_cancellation = "resume_without_cancellation"

abbrev pub rejection_reason : Option ConversationRejection → String
rejection_reason none = "conversation event rejected"
rejection_reason (some rejection) = rejection_value rejection

-- `events.pop()`
unfoldable pub drop_last : List VoiceEvent → List VoiceEvent
drop_last [] = []
drop_last (e ∷ []) = []
drop_last (e ∷ f ∷ es) = e ∷ drop_last (f ∷ es)

-- The emitter and the session that a method of the emitter leaves, and what it returns or raises.
abbrev pub Emission : Type 0
Emission = (ConversationVoiceEmitter × VoiceSessionState) × Result VoiceError VoiceEvent

unfoldable pub voice_event :
    ConversationVoiceEmitter → VoiceEventKind → String → String → VoiceEvent
voice_event e kind turn_id text = record {
  event_id = e.next_event_id;
  kind = kind;
  turn_id = turn_id;
  text = text;
}

-- `_voice`: the emitter and the session with the new event.
unfoldable pub voice :
    ConversationVoiceEmitter
    → VoiceSessionState
    → VoiceEvent
    → ConversationVoiceEmitter × VoiceSessionState
voice e session event = (
  record e { next_event_id = suc e.next_event_id },
  record session { events = session.events ++ event ∷ [] },
)

module _ (primitives : EventPrimitives) where
  unfoldable pub conversation_event :
      ℤ
      → ConversationVoiceEmitter
      → VoiceSessionState
      → VoiceEvent
      → ConversationEventPayload
      → String
      → ConversationEvent
  conversation_event now e session event payload device_id = record {
    event_id = primitives.uuid_of_int event.event_id;
    conversation_id = session.request.conversation_id;
    participant_id = session.request.participant_id;
    device_id = device_id;
    sequence = pos e.next_conversation_sequence;
    occurred_at = now;
    kind = payload_kind payload;
    payload = payload;
  }

  -- A rejected event gives its id back and leaves the session's events; the journal has judged it.
  abbrev pub judged :
      ConversationVoiceEmitter
      → VoiceSessionState
      → VoiceEvent
      → ConversationJournal × ConversationAcceptance
      → Emission
  judged e session event (journal, acceptance) =
      if acceptance.accepted
      then (
        (
          record e {
            journal = journal;
            next_conversation_sequence = suc e.next_conversation_sequence;
          },
          session,
        ),
        ok event,
      )
      else (
        (
          record e { journal = journal; next_event_id = e.next_event_id - 1 },
          record session { events = drop_last session.events },
        ),
        err (VoiceError.order (rejection_reason acceptance.rejection)),
      )

  -- A device id that is no UUID raises before the journal is asked, and nothing is taken back.
  abbrev pub canonical_for :
      ℤ
      → ConversationVoiceEmitter × VoiceSessionState
      → VoiceEvent
      → ConversationEventPayload
      → Option String
      → Emission
  canonical_for now (e, session) event payload none = ((e, session), err VoiceError.invalid_uuid)
  canonical_for now (e, session) event payload (some device_id) =
      judged e session event
        (accept e.journal (conversation_event now e session event payload device_id))

  unfoldable pub canonical :
      ℤ
      → ConversationVoiceEmitter × VoiceSessionState
      → VoiceEvent
      → ConversationEventPayload
      → Emission
  canonical now (e, session) event payload =
      canonical_for now (e, session) event payload (primitives.parse_uuid session.request.device_id)

  unfoldable pub emit_partial :
      ℤ → ConversationVoiceEmitter → VoiceSessionState → String → String → Emission
  emit_partial now e session turn_id text =
      let event = voice_event e VoiceEventKind.transcript_partial turn_id text in
      canonical now (voice e session event) event
        (ConversationEventPayload.transcript_partial turn_id text)

  unfoldable pub emit_final :
      ℤ → ConversationVoiceEmitter → VoiceSessionState → String → String → Emission
  emit_final now e session turn_id text =
      let event = voice_event e VoiceEventKind.transcript_final turn_id text in
      canonical now (voice e session event) event
        (ConversationEventPayload.transcript_final turn_id text)

  unfoldable pub emit_cancellation :
      ℤ → ConversationVoiceEmitter → VoiceSessionState → String → String → Emission
  emit_cancellation now e session turn_id reason =
      let event = voice_event e VoiceEventKind.cancellation turn_id reason in
      canonical now (voice e session event) event
        (ConversationEventPayload.cancellation turn_id reason)

unfoldable pub emit_action_progress :
    ConversationVoiceEmitter
    → VoiceSessionState
    → String
    → String
    → (ConversationVoiceEmitter × VoiceSessionState) × VoiceEvent
emit_action_progress e session turn_id text =
    let event = voice_event e VoiceEventKind.action_progress turn_id text in
    let (after, emitted) = voice e session event in
    ((after, record emitted { action_progress = emitted.action_progress ++ event ∷ [] }), event)
