-- ===== src/Conversation/Examples.antt =====
-- A conversation of one person with one device, and the theorems about journals at it.
use personal_secretary.Prelude.{
  ℕ, ◌≡◌, refl, String, true, not, List, [], ◌∷◌, map, length, contains, all,
}
use personal_secretary.Prelude.Int.{pos}
use personal_secretary.Conversation.Events.{
  Conversation, ConversationState, ConversationDevice, DeviceKind, ConversationEventPayload,
  ConversationEvent, payload_kind, kind_eq,
}
use personal_secretary.Conversation.{
  ConversationJournal, new_journal, get_device, device_rejection, envelope_rejection,
  transcript_rejection, open_turn_rejection, payload_rejection, apply_payload_state, reject,
  record_event, rejection_of, accept,
}
use personal_secretary.Conversation.Accepted.{is_accepted, after, accepted_events}
use personal_secretary.Conversation.Order.{count_from, accepted_events_numbered}
use personal_secretary.Conversation.Exact.{Acceptable, accept_exact}
use personal_secretary.Prelude.{◌↔◌}
use personal_secretary.Conversation.Turns.{
  is_transcript_of, changes_cancelled, accepted_cancellation_silences,
}

abbrev chat : Conversation
chat = record {
  conversation_id = "chat";
  title = "Plans";
  participant_ids = "sage" ∷ [];
  device_ids = "phone" ∷ [];
  created_at = pos 0;
  state = ConversationState.active;
}

abbrev devices : List ConversationDevice
devices =
    record {
      device_id = "phone";
      participant_id = "sage";
      kind = DeviceKind.ios;
      name = "Phone";
      created_at = pos 0;
    }
    ∷ []

abbrev event : String → ℕ → ConversationEventPayload → ConversationEvent
event event_id sequence payload = record {
  event_id = event_id;
  conversation_id = "chat";
  participant_id = "sage";
  device_id = "phone";
  sequence = pos sequence;
  occurred_at = pos sequence;
  kind = payload_kind payload;
  payload = payload;
}

abbrev says : ConversationEvent
says = event "a" 1 (ConversationEventPayload.transcript_partial "t" "move")

abbrev cancels : ConversationEvent
cancels = event "b" 2 (ConversationEventPayload.cancellation "t" "stop")

abbrev goes_on : ConversationEvent
goes_on = event "c" 3 (ConversationEventPayload.transcript_partial "t" "move it")

abbrev attaches : ConversationEvent
attaches = event "d" 3 (ConversationEventPayload.attachment "x" "image/png" (pos 10) "ref")

abbrev fresh : ConversationJournal
fresh = new_journal chat devices

-- The whole conversation, with an event too early and one of a cancelled turn.
abbrev events : List ConversationEvent
events = says ∷ goes_on ∷ cancels ∷ goes_on ∷ attaches ∷ []

accepted_three : map (λ e. e.event_id) (accepted_events fresh events) ≡ "a" ∷ "b" ∷ "d" ∷ []
unfolding accepted_events accept rejection_of envelope_rejection device_rejection get_device
    contains payload_rejection transcript_rejection open_turn_rejection record_event
    apply_payload_state kind_eq new_journal reject
accepted_three = refl

accepted_events_numbered_example :
    map (λ e. e.sequence) (accepted_events fresh events)
    ≡ map pos (count_from 1 (length (accepted_events fresh events)))
accepted_events_numbered_example = accepted_events_numbered chat devices events

accepted_cancellation_silences_example :
    all
      (λ e. not (is_transcript_of "t" e.payload))
      (accepted_events (after (after fresh says) cancels) (goes_on ∷ attaches ∷ []))
    ≡ true
unfolding accept rejection_of envelope_rejection device_rejection get_device contains
    payload_rejection transcript_rejection open_turn_rejection record_event apply_payload_state
    kind_eq new_journal all changes_cancelled
accepted_cancellation_silences_example =
    accepted_cancellation_silences (after fresh says) cancels "t" "stop" (goes_on ∷ attaches ∷ [])
      refl refl refl

accept_exact_example : (is_accepted fresh says ≡ true) ↔ Acceptable fresh says
accept_exact_example = accept_exact fresh says
