-- ===== src/Conversation/Turns.antt =====
-- conversation_api.py: the turns of a conversation, and what cancels them.
use personal_secretary.Prelude.{
  eq_iff, ℕ, ◌+◌, ◌≡◌, refl, ap, ◌∙◌, inl, inr, String, Bool, true, false, not, Option, none, some,
  List, [], ◌∷◌, str_eq, arith,
}
use personal_secretary.Conversation.Events.{
  Conversation, ConversationDevice, ConversationEventPayload, ConversationEvent,
}
use personal_secretary.Conversation.{
  ConversationJournal, transcript_rejection, open_turn_rejection, new_journal, payload_rejection,
  apply_payload_state,
}
use personal_secretary.Conversation.Recorded.{IsRecorded-turns, IsRecorded-payload}
use personal_secretary.Conversation.Accepted.{
  is_accepted, after, accepted_events, accept-cases, accepted_events-recorded,
  accepted_events-rejected,
}
use personal_secretary.Prelude.{all, ◌≤◌}

-- A transcript of the turn, partial or final.
unfoldable pub is_transcript_of : String → ConversationEventPayload → Bool
is_transcript_of turn (ConversationEventPayload.transcript_partial turn_id text) =
    str_eq turn_id turn
is_transcript_of turn (ConversationEventPayload.transcript_final turn_id text) = str_eq turn_id turn
is_transcript_of turn _ = false

-- What changes the cancelled turn.
unfoldable pub changes_cancelled : ConversationEventPayload → Bool
changes_cancelled (ConversationEventPayload.cancellation turn_id reason) = true
changes_cancelled (ConversationEventPayload.resume turn_id resume_from_turn_id) = true
changes_cancelled _ = false

apply_payload_state-cancelled :
    (j : ConversationJournal) (payload : ConversationEventPayload)
    → changes_cancelled payload ≡ false
    → (apply_payload_state j payload).cancelled_turn_id ≡ j.cancelled_turn_id
unfolding apply_payload_state changes_cancelled
apply_payload_state-cancelled j (ConversationEventPayload.transcript_partial a b) h = refl
apply_payload_state-cancelled j (ConversationEventPayload.transcript_final a b) h = refl
apply_payload_state-cancelled j (ConversationEventPayload.attachment a b c d) h = refl
apply_payload_state-cancelled j (ConversationEventPayload.tool_result a b c d) h = refl
apply_payload_state-cancelled j (ConversationEventPayload.cancellation a b) h = ground (arith, h)
apply_payload_state-cancelled j (ConversationEventPayload.resume a b) h = ground (arith, h)
apply_payload_state-cancelled j (ConversationEventPayload.error a b c) h = refl

payload_rejection-cancelled :
    (j : ConversationJournal) (turn : String) (payload : ConversationEventPayload)
    → j.cancelled_turn_id ≡ some turn
    → payload_rejection j payload ≡ none
    → is_transcript_of turn payload ≡ false
unfolding payload_rejection transcript_rejection is_transcript_of
payload_rejection-cancelled j turn (ConversationEventPayload.transcript_partial a b) e h =
    ground (arith, (rw e at h), eq_iff a turn, eq_iff turn a)
payload_rejection-cancelled j turn (ConversationEventPayload.transcript_final a b) e h =
    ground (arith, (rw e at h), eq_iff a turn, eq_iff turn a)
payload_rejection-cancelled j turn (ConversationEventPayload.attachment a b c d) e h = refl
payload_rejection-cancelled j turn (ConversationEventPayload.tool_result a b c d) e h = refl
payload_rejection-cancelled j turn (ConversationEventPayload.cancellation a b) e h = refl
payload_rejection-cancelled j turn (ConversationEventPayload.resume a b) e h = refl
payload_rejection-cancelled j turn (ConversationEventPayload.error a b c) e h = refl

cancelled_from :
    (j : ConversationJournal) (turn : String) (events : List ConversationEvent)
    → j.cancelled_turn_id ≡ some turn
    → all (λ e. not (changes_cancelled e.payload)) events ≡ true
    → all (λ e. not (is_transcript_of turn e.payload)) (accepted_events j events) ≡ true
unfolding all accepted_events
cancelled_from j turn [] e h = refl
cancelled_from j turn (event ∷ rest) e h = elim (accept-cases j event) [
  | inl r ↦
      let same : (after j event).cancelled_turn_id ≡ some turn =
        (IsRecorded-turns j event r).1
        ∙ apply_payload_state-cancelled j event.payload (ground (arith, h))
        ∙ e in
      let later = cancelled_from (after j event) turn rest same (ground (arith, h)) in
      let first =
        payload_rejection-cancelled j turn event.payload e (IsRecorded-payload j event r) in
      rw (accepted_events-recorded j event rest r) (rw (first, later))
  | inr r ↦
      rw (accepted_events-rejected j event rest r)
        (cancelled_from j turn rest e (ground (arith, h)))
]

-- After the gate accepts the cancellation of a turn, it accepts no transcript of that turn among any
-- later events without another cancellation or resume.
pub accepted_cancellation_silences :
    (j : ConversationJournal) (event : ConversationEvent) (turn reason : String)
    (events : List ConversationEvent)
    → event.payload ≡ ConversationEventPayload.cancellation turn reason
    → is_accepted j event ≡ true
    → all (λ e. not (changes_cancelled e.payload)) events ≡ true
    → all (λ e. not (is_transcript_of turn e.payload)) (accepted_events (after j event) events)
      ≡ true
unfolding apply_payload_state
accepted_cancellation_silences j event turn reason events cancels said quiet =
    elim (accept-cases j event) [
      | inl r ↦
          cancelled_from (after j event) turn events
            ((IsRecorded-turns j event r).1
              ∙ ap (λ p. (apply_payload_state j p).cancelled_turn_id) cancels)
            quiet
      | inr r ↦ ground (arith, said, r.said)
    ]

-- How many of the events are final transcripts, and how many open a turn.
unfoldable pub final_count : ConversationEventPayload → ℕ
final_count (ConversationEventPayload.transcript_final turn_id text) = 1
final_count _ = 0

unfoldable pub opening_count : ConversationEventPayload → ℕ
opening_count (ConversationEventPayload.transcript_partial turn_id text) = 1
opening_count (ConversationEventPayload.resume turn_id resume_from_turn_id) = 1
opening_count _ = 0

unfoldable pub total : (ConversationEventPayload → ℕ) → List ConversationEvent → ℕ
total measure [] = 0
total measure (event ∷ rest) = measure event.payload + total measure rest

abbrev open_count : Option String → ℕ
open_count none = 0
open_count (some turn) = 1

transcript_rejection-open :
    (open_turn cancelled_turn : Option String) (turn : String)
    → transcript_rejection open_turn cancelled_turn true turn ≡ none
    → open_count open_turn ≡ 1
unfolding transcript_rejection open_turn_rejection
transcript_rejection-open none cancelled_turn turn h = ground (arith, h)
transcript_rejection-open (some t) cancelled_turn turn h = refl

open_count-le : (o : Option String) → open_count o ≤ 1
open_count-le none = omega arith
open_count-le (some t) = omega arith

payload-open_count :
    (j : ConversationJournal) (p : ConversationEventPayload)
    → payload_rejection j p ≡ none
    → final_count p + open_count (apply_payload_state j p).open_turn_id
      ≤ opening_count p + open_count j.open_turn_id
unfolding payload_rejection apply_payload_state final_count opening_count
payload-open_count j (ConversationEventPayload.transcript_partial a b) h = omega arith
payload-open_count j (ConversationEventPayload.transcript_final a b) h =
    omega (arith, transcript_rejection-open j.open_turn_id j.cancelled_turn_id a h)
payload-open_count j (ConversationEventPayload.attachment a b c d) h = omega arith
payload-open_count j (ConversationEventPayload.tool_result a b c d) h = omega arith
payload-open_count j (ConversationEventPayload.cancellation a b) h = omega arith
payload-open_count j (ConversationEventPayload.resume a b) h = omega arith
payload-open_count j (ConversationEventPayload.error a b c) h = omega arith

finals_from :
    (j : ConversationJournal) (events : List ConversationEvent)
    → total final_count (accepted_events j events)
      ≤ total opening_count (accepted_events j events) + open_count j.open_turn_id
unfolding total accepted_events
finals_from j [] = omega arith
finals_from j (event ∷ rest) = elim (accept-cases j event) [
  | inl r ↦
      let first = payload-open_count j event.payload (IsRecorded-payload j event r) in
      let turns = ap open_count (IsRecorded-turns j event r).0 in
      rw (accepted_events-recorded j event rest r)
        (omega (arith, first, turns, finals_from (after j event) rest))
  | inr r ↦ rw (accepted_events-rejected j event rest r) (finals_from j rest)
]

-- Of the events that a new journal accepts, at most as many are final transcripts as open a turn,
-- by a partial transcript or by a resume.
pub accepted_finals_opened :
    (conversation : Conversation) (devices : List ConversationDevice)
    (events : List ConversationEvent)
    → let accepted = accepted_events (new_journal conversation devices) events in
      total final_count accepted ≤ total opening_count accepted
unfolding new_journal
accepted_finals_opened conversation devices events =
    omega (arith, finals_from (new_journal conversation devices) events)
