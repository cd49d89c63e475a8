-- ===== src/Relay/Appended.antt =====
-- relay_store.py: the history of a conversation after a batch.
use mathlib.Core.Path.{subst}
use mathlib.Core.List.{append_assoc}
use personal_secretary.Prelude.{
  ℕ, ◌≤◌, ◌<◌, String, Bool, true, false, not, Option, none, some, List, [], ◌∷◌, ◌++◌, ◌&&◌, ◌||◌,
  ◌≡◌, refl, sym, ap, ◌∙◌, inl, inr, arith, Bool-cases, All, All-weaken, leb, ltb, str_eq, eq_iff,
  keep, length, length-append, any,
}
use personal_secretary.Prelude.Int.{pos, ltb_ℤ, leb_ℤ, ◌<ℤ◌}
use personal_secretary.Prelude.Sort.{sort_by}
use personal_secretary.Prelude.Results.{Result, err, ok}
use personal_secretary.Conversation.Events.{Conversation, ConversationEvent, is_next}
use personal_secretary.Conversation.{ConversationJournal}
use personal_secretary.Conversation.Accepted.{after, is_accepted, IsRecorded-InOrder}
use personal_secretary.Ledger.{AuditTables, TransitionContext}
use personal_secretary.Relay.{
  RelayError, RelayStore, RelayPrimitives, Batch, events_after, sequence_le, replay, known_event,
  insert_event, inserted, recorded, take_event, append_event, then_batch, append_events,
  max_conversation_events, max_event_bytes, is_client_kind, audit, event_mutation,
}
use personal_secretary.Relay.History.{
  first_items-all, first_items-short, keep-append_one, keep-append_out, sort-last, All-sorted,
  next_positive, next_above, accepted-IsRecorded, replay-Replayed, replay-append_one,
}

-- A store with one more event, and the same devices and conversations.
record HasInserted (before after : RelayStore) (event : ConversationEvent) : Type 0 where
  events : after.events ≡ before.events ++ event ∷ []
  devices : after.devices ≡ before.devices
  conversations : after.conversations ≡ before.conversations

-- The rows of the conversation of an event that is inserted at its end.
module _ (limit : ℕ) (before later : RelayStore) (event : ConversationEvent)
    (j : ConversationJournal) (known : List ConversationEvent) where
  abbrev is_row : ConversationEvent → Bool
  is_row e = str_eq e.conversation_id event.conversation_id && ltb_ℤ (pos 0) e.sequence

  history-inserted :
      HasInserted before later event
      → events_after before event.conversation_id (pos 0) limit ≡ known
      → length known < limit
      → is_next event.sequence j.next_sequence ≡ true
      → 1 ≤ j.next_sequence
      → All (λ e. e.sequence <ℤ pos j.next_sequence) known
      → events_after later event.conversation_id (pos 0) limit ≡ known ++ event ∷ []
  unfolding events_after
  history-inserted inserted stored short next positive below =
      let rows = keep is_row before.events in
      let all_rows : sort_by sequence_le rows ≡ known =
        sym (
          first_items-short limit (sort_by sequence_le rows)
            (subst (λ xs. length xs < limit) (sym stored) short))
        ∙ stored in
      let before_event : All (λ e. sequence_le e event ≡ true) rows =
        All-sorted sequence_le (λ e. sequence_le e event ≡ true) rows
          (subst (All (λ e. sequence_le e event ≡ true)) (sym all_rows) (
            All-weaken _ _ known
              (λ e less. next_above event.sequence e.sequence j.next_sequence next less) below)) in
      let is_new : is_row event ≡ true = ground (
        arith,
        next_positive event.sequence j.next_sequence next positive,
        (eq_iff event.conversation_id event.conversation_id).1 refl,
      ) in
      rw
        (
          inserted.events,
          keep-append_one is_row before.events event is_new,
          sort-last sequence_le rows event before_event,
          all_rows,
        )
        (first_items-all limit (known ++ event ∷ [])
          (omega (arith, length-append known (event ∷ []), short)))

history-other :
    (limit : ℕ) (before later : RelayStore) (event : ConversationEvent) (i : String)
    → HasInserted before later event
    → str_eq event.conversation_id i ≡ false
    → events_after later i (pos 0) limit ≡ events_after before i (pos 0) limit
unfolding events_after
history-other limit before later event i inserted apart =
    rw
      (
        inserted.events,
        keep-append_out (λ e. str_eq e.conversation_id i && ltb_ℤ (pos 0) e.sequence) before.events
            event (ground (arith, apart)),
      )
      refl

module _ (primitives : RelayPrimitives) (j0 : ConversationJournal) (store0 : RelayStore)
    (history : List ConversationEvent) where
  -- What the loop over a batch keeps.
  pub record Kept (b : Batch) : Type 0 where
    pub replays : replay j0 b.known ≡ some b.journal
    pub stored :
        events_after b.store j0.conversation.conversation_id (pos 0) max_conversation_events
        ≡ b.known
    pub devices : b.store.devices ≡ store0.devices
    pub conversations : b.store.conversations ≡ store0.conversations
    pub others :
        (i : String)
        → str_eq j0.conversation.conversation_id i ≡ false
        → events_after b.store i (pos 0) max_conversation_events
          ≡ events_after store0 i (pos 0) max_conversation_events
    pub extends : (added : List ConversationEvent) × (b.known ≡ history ++ added)

  the_store : RelayStore → Result RelayError RelayStore → RelayStore
  the_store d (err e) = d
  the_store d (ok s) = s

  inserted-HasInserted :
      (store later : RelayStore) (event : ConversationEvent)
      (tables : Result RelayError AuditTables)
      → inserted primitives store event tables ≡ ok later
      → HasInserted store later event
  unfolding the_store
  inserted-HasInserted store later event (err e) h = absurd (ground (arith, h))
  inserted-HasInserted store later event (ok tables) h = record {
    events = sym (ap (λ r. (the_store store r).events) h);
    devices = sym (ap (λ r. (the_store store r).devices) h);
    conversations = sym (ap (λ r. (the_store store r).conversations) h);
  }

  insert-HasInserted :
      (store later : RelayStore) (event : ConversationEvent) (context : TransitionContext)
      → insert_event primitives store event context ≡ ok later
      → HasInserted store later event
  unfolding insert_event
  insert-HasInserted store later event context h =
      let taken =
        any
          (λ e.
            str_eq e.event_id event.event_id
            || (str_eq e.conversation_id event.conversation_id
                && leb_ℤ e.sequence event.sequence
                && leb_ℤ event.sequence e.sequence))
          store.events in
      elim (Bool-cases taken) [
        | inl e ↦ absurd (ground (arith, h, e))
        | inr e ↦
            inserted-HasInserted store later event
              (audit primitives store.audit (event_mutation primitives event context)) (rw e at h)
      ]

  recorded-Kept :
      (b : Batch) (event : ConversationEvent) (s : RelayStore)
      → 1 ≤ j0.next_sequence
      → Kept b
      → is_accepted b.journal event ≡ true
      → length b.known < max_conversation_events
      → HasInserted b.store s event
      → Kept (record { store = s; journal = after b.journal event; known = b.known ++ event ∷ [] })
  recorded-Kept b event s positive kept accepted short inserted =
      let r = accepted-IsRecorded b.journal event accepted in
      let in_order = IsRecorded-InOrder b.journal event r in
      let past = replay-Replayed j0 b.journal b.known kept.replays in
      let ours : event.conversation_id ≡ j0.conversation.conversation_id =
        (eq_iff event.conversation_id b.journal.conversation.conversation_id).0 in_order.ours
        ∙ ap (λ (c : Conversation). c.conversation_id) past.same in
      record {
        replays = replay-append_one j0 b.journal b.known event kept.replays accepted;
        stored =
            subst (λ i. events_after s i (pos 0) max_conversation_events ≡ b.known ++ event ∷ [])
              ours
              (history-inserted max_conversation_events b.store s event b.journal b.known inserted
                (subst (λ i. events_after b.store i (pos 0) max_conversation_events ≡ b.known)
                  (sym ours) kept.stored)
                short in_order.next (omega (arith, positive, past.later)) past.below);
        devices = inserted.devices ∙ kept.devices;
        conversations = inserted.conversations ∙ kept.conversations;
        others = λ i apart.
            history-other max_conversation_events b.store s event i inserted
              (subst (λ x. str_eq x i ≡ false) (sym ours) apart)
            ∙ kept.others i apart;
        extends = (
          kept.extends.0 ++ event ∷ [],
          ap (λ xs. xs ++ event ∷ []) kept.extends.1
              ∙ append_assoc history kept.extends.0 (event ∷ []),
        );
      }

  the_batch : Batch → Result RelayError Batch → Batch
  the_batch d (err e) = d
  the_batch d (ok b) = b

  ok_batch : (b c : Batch) → ◌≡◌ {A = Result RelayError Batch} (ok b) (ok c) → b ≡ c
  unfolding the_batch
  ok_batch b c h = ap (the_batch b) h

  inserted-Kept :
      (b c : Batch) (event : ConversationEvent) (result : Result RelayError RelayStore)
      → 1 ≤ j0.next_sequence
      → Kept b
      → is_accepted b.journal event ≡ true
      → length b.known < max_conversation_events
      → ((s : RelayStore) → result ≡ ok s → HasInserted b.store s event)
      → recorded primitives b (after b.journal event) event result ≡ ok c
      → Kept c
  inserted-Kept b c event (err e) positive kept accepted short insert h = absurd (ground (arith, h))
  inserted-Kept b c event (ok s) positive kept accepted short insert h =
      subst Kept (ok_batch _ c h)
        (recorded-Kept b event s positive kept accepted short (insert s refl))

  take-Kept :
      (context : TransitionContext) (b c : Batch) (event : ConversationEvent)
      (old : Option ConversationEvent)
      → 1 ≤ j0.next_sequence
      → Kept b
      → take_event primitives context b event old ≡ ok c
      → Kept c
  take-Kept context b c event (some old) positive kept h =
      elim (Bool-cases (primitives.same_event event old)) [
        | inl e ↦ subst Kept (ok_batch b c (rw e at h)) kept
        | inr e ↦ absurd (ground (arith, h, e))
      ]
  take-Kept context b c event none positive kept h =
      let result = insert_event primitives b.store event context in
      elim (Bool-cases
        (leb max_conversation_events (length b.known) || not (is_accepted b.journal event))) [
          | inl e ↦ absurd (ground (arith, h, e))
          | inr e ↦
              inserted-Kept b c event result positive kept (ground (arith, e)) (ground (arith, e))
                (λ s inserts. insert-HasInserted b.store s event context inserts) (rw e at h)
        ]

  append_event-Kept :
      (device_id : String) (context : TransitionContext) (b c : Batch) (event : ConversationEvent)
      → 1 ≤ j0.next_sequence
      → Kept b
      → append_event primitives device_id context b event ≡ ok c
      → Kept c
  unfolding append_event
  append_event-Kept device_id context b c event positive kept h =
      let foreign = not (str_eq event.device_id device_id && is_client_kind event.kind) in
      let odd =
        not (primitives.is_aware event) || ltb max_event_bytes (primitives.event_bytes event) in
      elim (Bool-cases foreign) [
        | inl f ↦ absurd (ground (arith, h, f))
        | inr f ↦ elim (Bool-cases odd) [
          | inl o ↦ absurd (ground (arith, h, f, o))
          | inr o ↦
              take-Kept context b c event (known_event event.event_id b.known) positive kept
                (rw (f, o) at h)
        ]
      ]

  then-Kept :
      (device_id : String) (context : TransitionContext) (rest : List ConversationEvent)
      (r : Result RelayError Batch) (c : Batch)
      → ((b : Batch) → r ≡ ok b → Kept b)
      → ((b : Batch) → Kept b → append_events primitives device_id context rest b ≡ ok c → Kept c)
      → then_batch primitives r (append_events primitives device_id context rest) ≡ ok c
      → Kept c
  then-Kept device_id context rest (err e) c first later h = absurd (ground (arith, h))
  then-Kept device_id context rest (ok b) c first later h = later b (first b refl) h

  pub append_events-Kept :
      (device_id : String) (context : TransitionContext) (events : List ConversationEvent)
      (b c : Batch)
      → 1 ≤ j0.next_sequence
      → Kept b
      → append_events primitives device_id context events b ≡ ok c
      → Kept c
  unfolding append_events
  append_events-Kept device_id context [] b c positive kept h = subst Kept (ok_batch b c h) kept
  append_events-Kept device_id context (event ∷ rest) b c positive kept h =
      then-Kept device_id context rest (append_event primitives device_id context b event) c
        (λ d first. append_event-Kept device_id context b d event positive kept first)
        (λ d here. append_events-Kept device_id context rest d c positive here) h
