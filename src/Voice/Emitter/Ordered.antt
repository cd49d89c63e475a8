-- ===== src/Voice/Emitter/Ordered.antt =====
-- conversation_api.py: the events that the journal does not reject for their order.
use personal_secretary.Prelude.{
  String, Bool, true, false, Option, none, some, List, [], ◌∷◌, ◌≡◌, ◌≢◌, refl, inl, inr, arith,
  Bool-cases, str_eq, eq_iff, contains, All,
}
use personal_secretary.Conversation.Events.{
  ConversationDevice, ConversationEventPayload, ConversationEvent, is_next,
}
use personal_secretary.Conversation.{
  ConversationRejection, ConversationJournal, rejection_of, envelope_rejection, device_rejection,
  get_device, payload_rejection, transcript_rejection, open_turn_rejection, is_turn,
  first_rejection,
}
use personal_secretary.Voice.Emitter.{rejection_reason}

-- The two rejections for a wrong order.
abbrev pub is_order_error : Option ConversationRejection → Bool
is_order_error (some ConversationRejection.out_of_order) = true
is_order_error (some ConversationRejection.duplicate_event) = true
is_order_error _ = false

turn-ordered :
    (turn : Option String) (is_final : Bool) (turn_id : String)
    → is_order_error (open_turn_rejection turn is_final turn_id) ≡ false
unfolding open_turn_rejection
turn-ordered none true turn_id = refl
turn-ordered none false turn_id = refl
turn-ordered (some turn) is_final turn_id = elim (Bool-cases (str_eq turn_id turn)) [
  | inl e ↦ rw e refl
  | inr e ↦ rw e refl
]

transcript-ordered :
    (turn cancelled : Option String) (is_final : Bool) (turn_id : String)
    → is_order_error (transcript_rejection turn cancelled is_final turn_id) ≡ false
unfolding transcript_rejection
transcript-ordered turn cancelled is_final turn_id = elim (Bool-cases (is_turn cancelled turn_id)) [
  | inl e ↦ rw e refl
  | inr e ↦ rw e (turn-ordered turn is_final turn_id)
]

payload-ordered :
    (j : ConversationJournal) (payload : ConversationEventPayload)
    → is_order_error (payload_rejection j payload) ≡ false
unfolding payload_rejection transcript_rejection
payload-ordered j (ConversationEventPayload.transcript_partial turn_id text) =
    transcript-ordered j.open_turn_id j.cancelled_turn_id false turn_id
payload-ordered j (ConversationEventPayload.transcript_final turn_id text) =
    transcript-ordered j.open_turn_id j.cancelled_turn_id true turn_id
payload-ordered j (ConversationEventPayload.attachment a b c d) = refl
payload-ordered j (ConversationEventPayload.tool_result a b c d) = refl
payload-ordered j (ConversationEventPayload.cancellation a b) = refl
payload-ordered j (ConversationEventPayload.resume turn_id from) = ground arith
payload-ordered j (ConversationEventPayload.error a b c) = refl

device-ordered :
    (j : ConversationJournal) (event : ConversationEvent) (d : Option ConversationDevice)
    → is_next event.sequence j.next_sequence ≡ true
    → is_order_error (device_rejection j event d) ≡ false
unfolding device_rejection
device-ordered j event none next = refl
device-ordered j event (some d) next = ground (arith, next)

envelope-ordered :
    (j : ConversationJournal) (event : ConversationEvent)
    → is_next event.sequence j.next_sequence ≡ true
    → contains event.event_id j.seen_event_ids ≡ false
    → is_order_error (envelope_rejection j event) ≡ false
unfolding envelope_rejection
envelope-ordered j event next fresh =
    ground (arith, fresh, device-ordered j event (get_device event.device_id j.devices) next)

first-ordered :
    (a b : Option ConversationRejection)
    → is_order_error a ≡ false
    → is_order_error b ≡ false
    → is_order_error (first_rejection a b) ≡ false
first-ordered none b ha hb = hb
first-ordered (some r) b ha hb = ha

pub rejection-ordered :
    (j : ConversationJournal) (event : ConversationEvent)
    → is_next event.sequence j.next_sequence ≡ true
    → contains event.event_id j.seen_event_ids ≡ false
    → is_order_error (rejection_of j event) ≡ false
unfolding rejection_of
rejection-ordered j event next fresh =
    first-ordered (envelope_rejection j event) (payload_rejection j event.payload)
      (envelope-ordered j event next fresh) (payload-ordered j event.payload)

pub not_contained : (k : String) (xs : List String) → All (λ x. x ≢ k) xs → contains k xs ≡ false
unfolding contains
not_contained k [] h = refl
not_contained k (x ∷ xs) h = elim (Bool-cases (str_eq x k)) [
  | inl e ↦ absurd (h.0 ((eq_iff x k).0 e))
  | inr e ↦ rw e (not_contained k xs h.1)
]

-- Neither text is the value of another rejection.
abbrev pub OtherReason : String → Type 0
OtherReason r = (str_eq r "out_of_order" ≡ false) × (str_eq r "duplicate_event" ≡ false)

pub reason-OtherReason :
    (o : Option ConversationRejection) → is_order_error o ≡ false → OtherReason (rejection_reason o)
reason-OtherReason none h = (refl, refl)
reason-OtherReason (some ConversationRejection.unknown_conversation) h = (refl, refl)
reason-OtherReason (some ConversationRejection.conversation_closed) h = (refl, refl)
reason-OtherReason (some ConversationRejection.duplicate_event) h = cc h
reason-OtherReason (some ConversationRejection.out_of_order) h = cc h
reason-OtherReason (some ConversationRejection.foreign_participant) h = (refl, refl)
reason-OtherReason (some ConversationRejection.foreign_device) h = (refl, refl)
reason-OtherReason (some ConversationRejection.device_participant_mismatch) h = (refl, refl)
reason-OtherReason (some ConversationRejection.kind_mismatch) h = (refl, refl)
reason-OtherReason (some ConversationRejection.final_without_partial) h = (refl, refl)
reason-OtherReason (some ConversationRejection.turn_closed) h = (refl, refl)
reason-OtherReason (some ConversationRejection.event_after_cancellation) h = (refl, refl)
reason-OtherReason (some ConversationRejection.resume_without_cancellation) h = (refl, refl)
