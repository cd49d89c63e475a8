-- ===== src/Relay/Retried.antt =====
-- relay_store.py: the run of a batch that is acknowledged.
pub mod Known
pub mod Reading
pub mod Resent
use mathlib.Core.Path.{subst}
use mathlib.Core.List.{append-nil, append_assoc}
use personal_secretary.Prelude.{
  ◌≤◌, contains, All-weaken, length-append, ℕ, suc, String, Bool, true, false, not, Option, none,
  some, List, [], ◌∷◌, ◌++◌, ◌&&◌, ◌||◌, ◌≡◌, refl, sym, ap, ◌∙◌, inl, inr, arith, Bool-cases, All,
  leb, ltb, str_eq, eq_iff, length, find, map,
}
use personal_secretary.Prelude.Results.{Result, err, ok}
use personal_secretary.Planner.Models.{distinct}
use personal_secretary.Conversation.Events.{Conversation, ConversationDevice, ConversationEvent}
use personal_secretary.Conversation.{ConversationJournal, new_journal, accept}
use personal_secretary.Conversation.Accepted.{is_accepted}
use personal_secretary.Ledger.{TransitionContext}
use personal_secretary.Relay.{
  ConversationRecord, authorized, conversation_of, stored_device, events_after, RelayError,
  RelayStore, RelayPrimitives, Batch, conversation, devices_for, replay, known_event, insert_event,
  recorded, take_event, append_event, then_batch, append_events, acknowledged, replayed, append_to,
  append_batch, max_conversation_events, max_batch_events, max_event_bytes, is_client_kind,
}
use personal_secretary.Relay.Acknowledged.{history, conversation-same, devices_for-same}
use personal_secretary.Relay.Appended.{Kept, append_events-Kept}
use personal_secretary.Relay.Retried.Known.{append_events-Known, again-events}

module _ (primitives : RelayPrimitives)
    (same_refl : (e : ConversationEvent) → primitives.same_event e e ≡ true)
    (device_id : String) where
  abbrev pub bad_batch : List ConversationEvent → Bool
  bad_batch events =
      not (leb 1 (length events) && leb (length events) max_batch_events)
      || not (distinct (map (λ e. e.event_id) events))

  -- The run of an acknowledged batch.
  pub record Ran (context : TransitionContext) (events : List ConversationEvent)
      (store : RelayStore) (c : Conversation) (after : RelayStore) (n : ℕ) : Type 0 where
    pub fit_batch : bad_batch events ≡ false
    pub journal : ConversationJournal
    pub past :
        replay (new_journal c (devices_for store c.participant_ids)) (history store c)
        ≡ some journal
    pub batch : Batch
    pub done :
        append_events primitives device_id context events
          (record { store = store; journal = journal; known = history store c })
        ≡ ok batch
    pub ends : ◌≡◌ {A = RelayStore × ℕ} (batch.store, suc (length batch.known)) (after, n)

  pair_of : RelayStore × ℕ → Result RelayError (RelayStore × ℕ) → RelayStore × ℕ
  pair_of d (err e) = d
  pair_of d (ok p) = p

  acknowledged-cases :
      (r : Result RelayError Batch) (p : RelayStore × ℕ)
      → acknowledged primitives r ≡ ok p
      → (b : Batch) × (r ≡ ok b) × ((b.store, suc (length b.known)) ≡ p)
  unfolding pair_of
  acknowledged-cases (err e) p h = absurd (ground (arith, h))
  acknowledged-cases (ok b) p h = (b, refl, ap (pair_of p) h)

  replayed-Ran :
      (context : TransitionContext) (events : List ConversationEvent) (store : RelayStore)
      (c : Conversation) (o : Option ConversationJournal) (after : RelayStore) (n : ℕ)
      → replay (new_journal c (devices_for store c.participant_ids)) (history store c) ≡ o
      → replayed primitives device_id context events store (history store c) o ≡ ok (after, n)
      → Ran context events store c after n
  replayed-Ran context events store c none after n past h = absurd (ground (arith, h))
  replayed-Ran context events store c (some journal) after n past h =
      elim (Bool-cases (bad_batch events)) [
        | inl e ↦ absurd (ground (arith, h, e))
        | inr e ↦
            let start : Batch = record {
              store = store;
              journal = journal;
              known = history store c;
            } in
            let (b, done, result) =
              acknowledged-cases (append_events primitives device_id context events start)
                (after, n) (rw e at h) in
            record {
              fit_batch = e;
              journal = journal;
              past = past;
              batch = b;
              done = done;
              ends = result;
            }
      ]

  pub append-Ran :
      (context : TransitionContext) (events : List ConversationEvent) (store : RelayStore)
      (r : Result RelayError Conversation) (after : RelayStore) (n : ℕ)
      → append_to primitives device_id context events store r ≡ ok (after, n)
      → (c : Conversation) × (r ≡ ok c) × Ran context events store c after n
  append-Ran context events store (err e) after n h = absurd (ground (arith, h))
  append-Ran context events store (ok c) after n h =
      (c, refl, replayed-Ran context events store c _ after n refl h)

  pub Ran-Kept :
      (context : TransitionContext) (events : List ConversationEvent) (store : RelayStore)
      (c : Conversation) (journal : ConversationJournal) (b : Batch)
      → replay (new_journal c (devices_for store c.participant_ids)) (history store c)
        ≡ some journal
      → append_events primitives device_id context events
          (record { store = store; journal = journal; known = history store c })
        ≡ ok b
      → Kept primitives
          (new_journal c (devices_for store c.participant_ids))
          store
          (history store c)
          b
  unfolding new_journal
  Ran-Kept context events store c journal b past done =
      append_events-Kept primitives (new_journal c (devices_for store c.participant_ids)) store
        (history store c) device_id context events
        (record { store = store; journal = journal; known = history store c }) b (omega arith)
        (record {
          replays = past;
          stored = refl;
          devices = refl;
          conversations = refl;
          others = λ i apart. refl;
          extends = ([], sym (append-nil (history store c)));
        })
        done
