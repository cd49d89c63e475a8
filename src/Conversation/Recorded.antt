-- ===== src/Conversation/Recorded.antt =====
-- conversation_api.py: the journal after an event that it records.
use personal_secretary.Prelude.{ℕ, suc, ◌≡◌, refl, sym, String, none, List, ◌∷◌, arith}
use mathlib.Core.Path.{subst}
use personal_secretary.Conversation.Events.{ConversationEventPayload, ConversationEvent}
use personal_secretary.Conversation.{
  ConversationJournal, payload_rejection, apply_payload_state, record_event, rejection_of,
}
use personal_secretary.Conversation.Accepted.{after, IsRecorded}

-- What the payload's state leaves alone.
pub record SameEnvelope (j k : ConversationJournal) : Type 0 where
  pub conversation : k.conversation ≡ j.conversation
  pub devices : k.devices ≡ j.devices
  pub next_sequence : k.next_sequence ≡ j.next_sequence
  pub seen : k.seen_event_ids ≡ j.seen_event_ids

pub apply_payload_state-SameEnvelope :
    (j : ConversationJournal) (payload : ConversationEventPayload)
    → SameEnvelope j (apply_payload_state j payload)
unfolding apply_payload_state
apply_payload_state-SameEnvelope j (ConversationEventPayload.transcript_partial a b) = record {
  conversation = refl;
  devices = refl;
  next_sequence = refl;
  seen = refl;
}
apply_payload_state-SameEnvelope j (ConversationEventPayload.transcript_final a b) = record {
  conversation = refl;
  devices = refl;
  next_sequence = refl;
  seen = refl;
}
apply_payload_state-SameEnvelope j (ConversationEventPayload.attachment a b c d) = record {
  conversation = refl;
  devices = refl;
  next_sequence = refl;
  seen = refl;
}
apply_payload_state-SameEnvelope j (ConversationEventPayload.tool_result a b c d) = record {
  conversation = refl;
  devices = refl;
  next_sequence = refl;
  seen = refl;
}
apply_payload_state-SameEnvelope j (ConversationEventPayload.cancellation a b) = record {
  conversation = refl;
  devices = refl;
  next_sequence = refl;
  seen = refl;
}
apply_payload_state-SameEnvelope j (ConversationEventPayload.resume a b) = record {
  conversation = refl;
  devices = refl;
  next_sequence = refl;
  seen = refl;
}
apply_payload_state-SameEnvelope j (ConversationEventPayload.error a b c) = record {
  conversation = refl;
  devices = refl;
  next_sequence = refl;
  seen = refl;
}

-- The journal after a recorded event.
pub record RecordsOne (j : ConversationJournal) (event : ConversationEvent)
    (k : ConversationJournal) : Type 0 where
  pub conversation : k.conversation ≡ j.conversation
  pub next_sequence : k.next_sequence ≡ suc j.next_sequence
  pub seen : k.seen_event_ids ≡ event.event_id ∷ j.seen_event_ids

record_event-RecordsOne :
    (j : ConversationJournal) (event : ConversationEvent)
    → RecordsOne j event (record_event j event)
unfolding record_event
record_event-RecordsOne j event =
    let same =
      apply_payload_state-SameEnvelope
        (record j {
          seen_event_ids = event.event_id ∷ j.seen_event_ids;
          next_sequence = suc j.next_sequence;
        })
        event.payload in
    record {
      conversation = same.conversation;
      next_sequence = same.next_sequence;
      seen = same.seen;
    }

pub IsRecorded-RecordsOne :
    (j : ConversationJournal) (event : ConversationEvent)
    → IsRecorded j event
    → RecordsOne j event (after j event)
IsRecorded-RecordsOne j event r =
    subst (RecordsOne j event) (sym r.recorded) (record_event-RecordsOne j event)

-- The journals that agree on the turns agree on them after a payload.
module _ (j : ConversationJournal) (seen : List String) (next : ℕ) where
  payload_turns :
      (p : ConversationEventPayload)
      → let k = apply_payload_state (record j { seen_event_ids = seen; next_sequence = next }) p in
        (k.open_turn_id ≡ (apply_payload_state j p).open_turn_id)
        × (k.cancelled_turn_id ≡ (apply_payload_state j p).cancelled_turn_id)
  unfolding apply_payload_state
  payload_turns (ConversationEventPayload.transcript_partial a b) = (refl, refl)
  payload_turns (ConversationEventPayload.transcript_final a b) = (refl, refl)
  payload_turns (ConversationEventPayload.attachment a b c d) = (refl, refl)
  payload_turns (ConversationEventPayload.tool_result a b c d) = (refl, refl)
  payload_turns (ConversationEventPayload.cancellation a b) = (refl, refl)
  payload_turns (ConversationEventPayload.resume a b) = (refl, refl)
  payload_turns (ConversationEventPayload.error a b c) = (refl, refl)

same_turns :
    (j : ConversationJournal) (event : ConversationEvent)
    → ((record_event j event).open_turn_id ≡ (apply_payload_state j event.payload).open_turn_id)
      × ((record_event j event).cancelled_turn_id
          ≡ (apply_payload_state j event.payload).cancelled_turn_id)
unfolding record_event
same_turns j event =
    payload_turns j (event.event_id ∷ j.seen_event_ids) (suc j.next_sequence) event.payload

-- The turns after a recorded event are those that its payload leaves.
pub IsRecorded-turns :
    (j : ConversationJournal) (event : ConversationEvent)
    → IsRecorded j event
    → ((after j event).open_turn_id ≡ (apply_payload_state j event.payload).open_turn_id)
      × ((after j event).cancelled_turn_id
          ≡ (apply_payload_state j event.payload).cancelled_turn_id)
IsRecorded-turns j event r =
    subst
      (λ k.
        (k.open_turn_id ≡ (apply_payload_state j event.payload).open_turn_id)
        × (k.cancelled_turn_id ≡ (apply_payload_state j event.payload).cancelled_turn_id))
      (sym r.recorded) (same_turns j event)

pub IsRecorded-payload :
    (j : ConversationJournal) (event : ConversationEvent)
    → IsRecorded j event
    → payload_rejection j event.payload ≡ none
unfolding rejection_of
IsRecorded-payload j event r = ground (arith, r.checked)
