-- ===== src/Conversation/Exact.antt =====
-- conversation_api.py: the events that the gate accepts, described without the order of its checks.
use personal_secretary.Prelude.{
  ◌≡◌, refl, ap, ◌↔◌, inl, inr, String, Bool, true, false, not, ◌&&◌, ◌||◌, Option, none, some,
  contains, str_eq, eq_iff, arith, is_some,
}
use personal_secretary.Conversation.Events.{
  is_active, ConversationDevice, ConversationEventPayload, ConversationEvent, payload_kind, kind_eq,
  is_next,
}
use personal_secretary.Conversation.{
  ConversationJournal, get_device, device_rejection, envelope_rejection, transcript_rejection,
  open_turn_rejection, is_turn, payload_rejection, rejection_of,
}
use personal_secretary.Conversation.Accepted.{is_accepted, accept-cases, recorded_by}

-- Whether the turns allow the payload: a partial transcript continues the open turn or opens one, a
-- final one closes the open turn, neither is of the cancelled turn, and a resume names that turn.
unfoldable pub allows : ConversationJournal → ConversationEventPayload → Bool
allows j (ConversationEventPayload.transcript_partial turn_id text) =
    not (is_turn j.cancelled_turn_id turn_id)
    && (not (is_some j.open_turn_id) || is_turn j.open_turn_id turn_id)
allows j (ConversationEventPayload.transcript_final turn_id text) =
    not (is_turn j.cancelled_turn_id turn_id) && is_turn j.open_turn_id turn_id
allows j (ConversationEventPayload.resume turn_id resume_from_turn_id) =
    is_turn j.cancelled_turn_id resume_from_turn_id
allows j _ = true

-- The event comes from an enrolled device of its own participant, both of this open conversation,
-- it is new and next in order, and the turns allow it.
pub record Acceptable (j : ConversationJournal) (event : ConversationEvent) : Type 0 where
  pub ours : str_eq event.conversation_id j.conversation.conversation_id ≡ true
  pub active : is_active j.conversation.state ≡ true
  pub fresh : contains event.event_id j.seen_event_ids ≡ false
  pub participant : contains event.participant_id j.conversation.participant_ids ≡ true
  pub device : ConversationDevice
  pub found : get_device event.device_id j.devices ≡ some device
  pub bound : contains event.device_id j.conversation.device_ids ≡ true
  pub owned : str_eq device.participant_id event.participant_id ≡ true
  pub kind : kind_eq event.kind (payload_kind event.payload) ≡ true
  pub next : is_next event.sequence j.next_sequence ≡ true
  pub allowed : allows j event.payload ≡ true

transcript-allows :
    (open_turn cancelled : Option String) (is_final : Bool) (turn : String)
    → (transcript_rejection open_turn cancelled is_final turn ≡ none) ↔ (
        not (is_turn cancelled turn)
          && (not (is_final || is_some open_turn) || is_turn open_turn turn)
        ≡ true)
unfolding transcript_rejection open_turn_rejection
transcript-allows none cancelled true turn = (ground arith, ground arith)
transcript-allows none cancelled false turn = (ground arith, ground arith)
transcript-allows (some t) cancelled is_final turn =
    (ground (arith, eq_iff turn t, eq_iff t turn), ground (arith, eq_iff turn t, eq_iff t turn))

payload_rejection-allows :
    (j : ConversationJournal) (p : ConversationEventPayload)
    → (payload_rejection j p ≡ none) ↔ (allows j p ≡ true)
unfolding payload_rejection allows
payload_rejection-allows j (ConversationEventPayload.transcript_partial a b) =
    transcript-allows j.open_turn_id j.cancelled_turn_id false a
payload_rejection-allows j (ConversationEventPayload.transcript_final a b) =
    transcript-allows j.open_turn_id j.cancelled_turn_id true a
payload_rejection-allows j (ConversationEventPayload.attachment a b c d) = (λ h. refl, λ h. refl)
payload_rejection-allows j (ConversationEventPayload.tool_result a b c d) = (λ h. refl, λ h. refl)
payload_rejection-allows j (ConversationEventPayload.cancellation a b) = (λ h. refl, λ h. refl)
payload_rejection-allows j (ConversationEventPayload.resume a b) = (ground arith, ground arith)
payload_rejection-allows j (ConversationEventPayload.error a b c) = (λ h. refl, λ h. refl)

Acceptable-checked :
    (j : ConversationJournal) (event : ConversationEvent)
    → Acceptable j event
    → rejection_of j event ≡ none
unfolding rejection_of envelope_rejection device_rejection
Acceptable-checked j event a =
    rw (a.ours, a.active, a.fresh, a.participant, a.found, a.bound, a.owned, a.kind, a.next)
      ((payload_rejection-allows j event.payload).1 a.allowed)

-- What the checks of the device say of an event that passes them.
record Owned (j : ConversationJournal) (event : ConversationEvent) (o : Option ConversationDevice)
    : Type 0 where
  device : ConversationDevice
  found : o ≡ some device
  bound : contains event.device_id j.conversation.device_ids ≡ true
  owned : str_eq device.participant_id event.participant_id ≡ true
  kind : kind_eq event.kind (payload_kind event.payload) ≡ true
  next : is_next event.sequence j.next_sequence ≡ true

device_rejection-Owned :
    (j : ConversationJournal) (event : ConversationEvent) (o : Option ConversationDevice)
    → device_rejection j event o ≡ none
    → Owned j event o
unfolding device_rejection
device_rejection-Owned j event none h = ground arith
device_rejection-Owned j event (some d) h = record {
  device = d;
  found = refl;
  bound = ground arith;
  owned = ground arith;
  kind = ground arith;
  next = ground arith;
}

checked-Acceptable :
    (j : ConversationJournal) (event : ConversationEvent)
    → rejection_of j event ≡ none
    → Acceptable j event
unfolding rejection_of envelope_rejection
checked-Acceptable j event h =
    let owned =
      device_rejection-Owned j event (get_device event.device_id j.devices) (ground arith) in
    record {
      ours = ground arith;
      active = ground arith;
      fresh = ground arith;
      participant = ground arith;
      device = owned.device;
      found = owned.found;
      bound = owned.bound;
      owned = owned.owned;
      kind = owned.kind;
      next = owned.next;
      allowed = (payload_rejection-allows j event.payload).0 (ground arith);
    }

-- The gate accepts an event exactly when it comes from an enrolled device of its own participant,
-- both of this open conversation, is new and next in order, has the kind of its payload, and is
-- allowed by the turns: a partial transcript continues the open turn or opens one, a final one closes
-- the open turn, neither is of the cancelled turn, and a resume names the cancelled turn.
pub accept_exact :
    (j : ConversationJournal) (event : ConversationEvent)
    → (is_accepted j event ≡ true) ↔ Acceptable j event
accept_exact j event = (
  (λ said. elim (accept-cases j event) [
    | inl r ↦ checked-Acceptable j event r.checked
    | inr r ↦ ground (arith, said, r.said)
  ]),
  (λ a. ap (λ x. x.1.accepted) (recorded_by j event (Acceptable-checked j event a))),
)
