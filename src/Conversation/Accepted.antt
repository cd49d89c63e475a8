-- ===== src/Conversation/Accepted.antt =====
-- conversation_api.py: what an accepted event says of the journal that accepts it.
use personal_secretary.Prelude.{
  ◌≡◌, ap, ◌⊎◌, inl, inr, Bool, true, false, Option, none, some, List, [], ◌∷◌, contains, str_eq,
  if◌then◌else◌, arith, Option-cases,
}
use personal_secretary.Conversation.Events.{
  is_active, ConversationDevice, ConversationEvent, is_next,
}
use personal_secretary.Conversation.{
  ConversationRejection, ConversationJournal, get_device, device_rejection, envelope_rejection,
  reject, record_event, rejection_of, concluded, accept,
}

-- Whether the gate accepts the event, and the journal that it leaves.
abbrev pub is_accepted : ConversationJournal → ConversationEvent → Bool
is_accepted j event = (accept j event).1.accepted

abbrev pub after : ConversationJournal → ConversationEvent → ConversationJournal
after j event = (accept j event).0

unfoldable pub after_all : ConversationJournal → List ConversationEvent → ConversationJournal
after_all j [] = j
after_all j (event ∷ rest) = after_all (after j event) rest

unfoldable pub accepted_events :
    ConversationJournal → List ConversationEvent → List ConversationEvent
accepted_events j [] = []
accepted_events j (event ∷ rest) =
    let accepted = accepted_events (after j event) rest in
    if is_accepted j event then event ∷ accepted else accepted

-- Either every check passes and the event is recorded, or the journal stays.
pub record IsRecorded (j : ConversationJournal) (event : ConversationEvent) : Type 0 where
  pub checked : rejection_of j event ≡ none
  pub recorded : after j event ≡ record_event j event
  pub said : is_accepted j event ≡ true

pub record IsRejected (j : ConversationJournal) (event : ConversationEvent) : Type 0 where
  pub kept : after j event ≡ j
  pub said : is_accepted j event ≡ false

module _ (j : ConversationJournal) (event : ConversationEvent) where
  pub recorded_by : rejection_of j event ≡ none → accept j event ≡ concluded j event none
  unfolding accept
  recorded_by e = rw e

  pub rejected_by :
      {r : ConversationRejection} → rejection_of j event ≡ some r → accept j event ≡ (j, reject j r)
  unfolding accept
  rejected_by e = rw e

pub accept-cases :
    (j : ConversationJournal) (event : ConversationEvent) → IsRecorded j event ⊎ IsRejected j event
unfolding accept reject
accept-cases j event = elim (Option-cases (rejection_of j event)) [
  | inl e ↦ inl (record {
    checked = e;
    recorded = ap (λ r. r.0) (recorded_by j event e);
    said = ap (λ r. r.1.accepted) (recorded_by j event e);
  })
  | inr (r, e) ↦ inr (record {
    kept = ap (λ x. x.0) (rejected_by j event e);
    said = ap (λ x. x.1.accepted) (rejected_by j event e);
  })
]

-- What the envelope's checks find of an event that passes them.
pub record InOrder (j : ConversationJournal) (event : ConversationEvent) : Type 0 where
  pub ours : str_eq event.conversation_id j.conversation.conversation_id ≡ true
  pub active : is_active j.conversation.state ≡ true
  pub fresh : contains event.event_id j.seen_event_ids ≡ false
  pub next : is_next event.sequence j.next_sequence ≡ true

device_rejection-next :
    (j : ConversationJournal) (event : ConversationEvent) (device : Option ConversationDevice)
    → device_rejection j event device ≡ none
    → is_next event.sequence j.next_sequence ≡ true
unfolding device_rejection
device_rejection-next j event none h = ground arith
device_rejection-next j event (some device) h = ground arith

envelope_rejection-InOrder :
    (j : ConversationJournal) (event : ConversationEvent)
    → envelope_rejection j event ≡ none
    → InOrder j event
unfolding envelope_rejection
envelope_rejection-InOrder j event h = record {
  ours = ground arith;
  active = ground arith;
  fresh = ground arith;
  next = device_rejection-next j event (get_device event.device_id j.devices) (ground arith);
}

pub IsRecorded-InOrder :
    (j : ConversationJournal) (event : ConversationEvent) → IsRecorded j event → InOrder j event
unfolding rejection_of
IsRecorded-InOrder j event r = envelope_rejection-InOrder j event (ground (arith, r.checked))

pub accepted_events-recorded :
    (j : ConversationJournal) (event : ConversationEvent) (rest : List ConversationEvent)
    → IsRecorded j event
    → accepted_events j (event ∷ rest) ≡ event ∷ accepted_events (after j event) rest
unfolding accepted_events
accepted_events-recorded j event rest r = rw r.said

pub accepted_events-rejected :
    (j : ConversationJournal) (event : ConversationEvent) (rest : List ConversationEvent)
    → IsRejected j event
    → accepted_events j (event ∷ rest) ≡ accepted_events j rest
unfolding accepted_events
accepted_events-rejected j event rest r = rw (r.said, r.kept)
