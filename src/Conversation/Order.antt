-- ===== src/Conversation/Order.antt =====
-- conversation_api.py: the order and the identities of the events that a journal accepts.
use personal_secretary.Prelude.{
  eq_iff, ℕ, suc, zero, ◌≡◌, refl, sym, ap, inl, inr, String, true, false, some, List, [], ◌∷◌,
  contains, str_eq, arith, Bool-cases, map, length,
}
use mathlib.Core.Path.{subst}
use personal_secretary.Prelude.Int.{ℤ, pos, negsuc}
use personal_secretary.Conversation.Events.{
  Conversation, is_active, ConversationDevice, ConversationEvent, is_next,
}
use personal_secretary.Conversation.{
  ConversationRejection, ConversationJournal, new_journal, envelope_rejection, reject, rejection_of,
  accept,
}
use personal_secretary.Conversation.Recorded.{IsRecorded-RecordsOne}
use personal_secretary.Conversation.Accepted.{
  rejected_by, is_accepted, after, after_all, accepted_events, IsRecorded, accept-cases,
  IsRecorded-InOrder, accepted_events-recorded, accepted_events-rejected,
}
use personal_secretary.Planner.Models.{distinct}

-- The numbers from `n` on, as many as told.
unfoldable pub count_from : ℕ → ℕ → List ℕ
count_from n zero = []
count_from n (suc k) = n ∷ count_from (suc n) k

is_next-pos : (z : ℤ) (n : ℕ) → is_next z n ≡ true → z ≡ pos n
is_next-pos (pos m) n h = ground arith
is_next-pos (negsuc m) n h = ground arith

accepted_sequences_from :
    (j : ConversationJournal) (events : List ConversationEvent)
    → map (λ e. e.sequence) (accepted_events j events)
      ≡ map pos (count_from j.next_sequence (length (accepted_events j events)))
unfolding accepted_events count_from
accepted_sequences_from j [] = refl
accepted_sequences_from j (event ∷ rest) =
    let later = accepted_sequences_from (after j event) rest in
    let same = accepted_sequences_from j rest in
    elim (accept-cases j event) [
      | inl r ↦
          let in_order = IsRecorded-InOrder j event r in
          let first = is_next-pos event.sequence j.next_sequence in_order.next in
          rw
            (
              accepted_events-recorded j event rest r,
              later,
              (IsRecorded-RecordsOne j event r).next_sequence,
            )
            (ap
              (λ z.
                z
                ∷ map pos (
                    count_from (suc j.next_sequence)
                      (length (accepted_events (after j event) rest))))
              first)
      | inr r ↦ rw (accepted_events-rejected j event rest r) same
    ]

-- The events that a new journal accepts, of any events in any order, are numbered 1, 2, 3, ... without
-- gap or repetition, in the order of acceptance.
pub accepted_events_numbered :
    (conversation : Conversation) (devices : List ConversationDevice)
    (events : List ConversationEvent)
    → let accepted = accepted_events (new_journal conversation devices) events in
      map (λ e. e.sequence) accepted ≡ map pos (count_from 1 (length accepted))
unfolding new_journal
accepted_events_numbered conversation devices events =
    accepted_sequences_from (new_journal conversation devices) events

contains_first : (k : String) (xs : List String) → contains k (k ∷ xs) ≡ true
unfolding contains
contains_first k xs = ground (arith, eq_iff k k)

contains-other :
    (a k : String) (xs : List String)
    → contains a xs ≡ false
    → contains k xs ≡ true
    → str_eq a k ≡ false
contains-other a k xs ha hk = elim (Bool-cases (str_eq a k)) [
  | inl e ↦ let same : contains k xs ≡ false = (rw ((eq_iff a k).0 e) at ha) in ground arith
  | inr e ↦ e
]

-- Nothing that a journal has seen is accepted again.
accepted_events-unseen :
    (k : String) (j : ConversationJournal) (events : List ConversationEvent)
    → contains k j.seen_event_ids ≡ true
    → contains k (map (λ e. e.event_id) (accepted_events j events)) ≡ false
unfolding accepted_events contains
accepted_events-unseen k j [] h = refl
accepted_events-unseen k j (event ∷ rest) h = elim (accept-cases j event) [
  | inl r ↦
      let in_order = IsRecorded-InOrder j event r in
      let later =
        accepted_events-unseen k (after j event) rest
          (rw ((IsRecorded-RecordsOne j event r).seen) (ground arith)) in
      rw (accepted_events-recorded j event rest r)
        (rw (contains-other event.event_id k j.seen_event_ids in_order.fresh h) later)
  | inr r ↦ rw (accepted_events-rejected j event rest r) (accepted_events-unseen k j rest h)
]

-- No event id occurs twice among the events that a journal accepts.
pub accepted_ids_distinct :
    (j : ConversationJournal) (events : List ConversationEvent)
    → distinct (map (λ e. e.event_id) (accepted_events j events)) ≡ true
unfolding accepted_events distinct
accepted_ids_distinct j [] = refl
accepted_ids_distinct j (event ∷ rest) = elim (accept-cases j event) [
  | inl r ↦
      let unseen = accepted_events-unseen event.event_id (after j event) rest (
        rw ((IsRecorded-RecordsOne j event r).seen)
          (contains_first event.event_id j.seen_event_ids)) in
      rw (accepted_events-recorded j event rest r, unseen)
        (accepted_ids_distinct (after j event) rest)
  | inr r ↦ rw (accepted_events-rejected j event rest r) (accepted_ids_distinct j rest)
]

-- A journal that has seen the event, and whose other checks before that one it passes.
record Seen (event : ConversationEvent) (j : ConversationJournal) : Type 0 where
  ours : str_eq event.conversation_id j.conversation.conversation_id ≡ true
  active : is_active j.conversation.state ≡ true
  seen : contains event.event_id j.seen_event_ids ≡ true

accepted-Seen :
    (j : ConversationJournal) (event : ConversationEvent)
    → IsRecorded j event
    → Seen event (after j event)
accepted-Seen j event r =
    let in_order = IsRecorded-InOrder j event r in
    let one = IsRecorded-RecordsOne j event r in
    record {
      ours = rw one.conversation in_order.ours;
      active = rw one.conversation in_order.active;
      seen = rw one.seen (contains_first event.event_id j.seen_event_ids);
    }

after-Seen :
    (event : ConversationEvent) (j : ConversationJournal) (next : ConversationEvent)
    → Seen event j
    → Seen event (after j next)
unfolding contains
after-Seen event j next s = elim (accept-cases j next) [
  | inl r ↦
      let one = IsRecorded-RecordsOne j next r in
      record {
        ours = rw one.conversation s.ours;
        active = rw one.conversation s.active;
        seen = rw one.seen (ground (arith, s.seen));
      }
  | inr r ↦ subst (Seen event) (sym r.kept) s
]

after_all-Seen :
    (event : ConversationEvent) (j : ConversationJournal) (events : List ConversationEvent)
    → Seen event j
    → Seen event (after_all j events)
unfolding after_all
after_all-Seen event j [] s = s
after_all-Seen event j (next ∷ rest) s =
    after_all-Seen event (after j next) rest (after-Seen event j next s)

Seen-duplicate :
    (event : ConversationEvent) (j : ConversationJournal)
    → Seen event j
    → rejection_of j event ≡ some ConversationRejection.duplicate_event
unfolding rejection_of envelope_rejection
Seen-duplicate event j s = rw (s.ours, s.active, s.seen)

-- Once an event is accepted, sending it again after any further events is rejected as a duplicate,
-- and changes nothing.
pub accept_replayed :
    (j : ConversationJournal) (event : ConversationEvent) (events : List ConversationEvent)
    → is_accepted j event ≡ true
    → let later = after_all (after j event) events in
      accept later event ≡ (later, reject later ConversationRejection.duplicate_event)
accept_replayed j event events h = elim (accept-cases j event) [
  | inl r ↦
      let later = after_all (after j event) events in
      rejected_by later event (
        Seen-duplicate event later
          (after_all-Seen event (after j event) events (accepted-Seen j event r)))
  | inr r ↦ ground (arith, h, r.said)
]
