-- ===== src/Relay/Acknowledged.antt =====
-- relay_store.py: what an acknowledged batch says of the store.
use mathlib.Core.Path.{subst}
use mathlib.Core.List.{append-nil}
use personal_secretary.Prelude.{
  ℕ, suc, String, not, Option, none, some, List, [], ◌++◌, ◌&&◌, ◌||◌, ◌≡◌, refl, sym, ap, ◌∙◌, inl,
  inr, arith, Bool-cases, leb, str_eq, length, find, map,
}
use personal_secretary.Prelude.Int.{pos}
use personal_secretary.Prelude.Results.{Result, err, ok}
use personal_secretary.Planner.Models.{distinct}
use personal_secretary.Conversation.Events.{Conversation, ConversationDevice, ConversationEvent}
use personal_secretary.Conversation.{ConversationJournal, new_journal}
use personal_secretary.Ledger.{TransitionContext}
use personal_secretary.Relay.{
  RelayError, RelayStore, RelayPrimitives, Batch, ConversationRecord, conversation, stored_device,
  authorized, conversation_of, devices_for, events_after, replay, append_events, acknowledged,
  replayed, append_to, append_batch, max_conversation_events, max_batch_events,
}
use personal_secretary.Relay.Appended.{Kept, append_events-Kept}

authorized-same :
    (s t : RelayStore) (device : Option ConversationDevice) (r : Option ConversationRecord)
    → s.devices ≡ t.devices
    → authorized s device r ≡ authorized t device r
unfolding conversation_of devices_for
authorized-same s t none r h = refl
authorized-same s t (some device) none h = refl
authorized-same s t (some device) (some r) h = rw h refl

pub conversation-same :
    (s t : RelayStore) (conversation_id device_id : String)
    → s.devices ≡ t.devices
    → s.conversations ≡ t.conversations
    → conversation s conversation_id device_id ≡ conversation t conversation_id device_id
unfolding conversation stored_device
conversation-same s t conversation_id device_id devices conversations =
    authorized-same s t _ _ devices
    ∙ ap
        (λ ds.
          authorized t (find (λ d. str_eq d.device_id device_id) ds)
            (find (λ r. str_eq r.record_id conversation_id) s.conversations))
        devices
    ∙ ap
        (λ cs.
          authorized t (find (λ d. str_eq d.device_id device_id) t.devices)
            (find (λ r. str_eq r.record_id conversation_id) cs))
        conversations

pub devices_for-same :
    (s t : RelayStore) (participants : List String)
    → s.devices ≡ t.devices
    → devices_for s participants ≡ devices_for t participants
unfolding devices_for
devices_for-same s t participants h = rw h refl

-- The history of a conversation in the store.
abbrev pub history : RelayStore → Conversation → List ConversationEvent
history store c = events_after store c.conversation_id (pos 0) max_conversation_events

-- The new store has the conversation as before, a longer history that a new journal accepts, and the
-- number is the next sequence.
pub record Acknowledged (before after : RelayStore) (conversation_id device_id : String) (n : ℕ)
    (c : Conversation) : Type 0 where
  pub found : conversation before conversation_id device_id ≡ ok c
  pub kept : conversation after conversation_id device_id ≡ ok c
  pub next : n ≡ suc (length (history after c))
  pub replays :
      (j : ConversationJournal) × (replay
          (new_journal c (devices_for after c.participant_ids))
          (history after c)
        ≡ some j)
  pub extends : (added : List ConversationEvent) × (history after c ≡ history before c ++ added)

module _ (primitives : RelayPrimitives) (store after : RelayStore)
    (conversation_id device_id : String) (events : List ConversationEvent)
    (context : TransitionContext) (n : ℕ) where
  the_pair : RelayStore × ℕ → Result RelayError (RelayStore × ℕ) → RelayStore × ℕ
  the_pair d (err e) = d
  the_pair d (ok p) = p

  Kept-Acknowledged :
      (c : Conversation) (b : Batch)
      → conversation store conversation_id device_id ≡ ok c
      → Kept primitives
          (new_journal c (devices_for store c.participant_ids))
          store
          (history store c)
          b
      → Acknowledged store b.store conversation_id device_id (suc (length b.known)) c
  unfolding new_journal
  Kept-Acknowledged c b found kept = record {
    found = found;
    kept =
        conversation-same b.store store conversation_id device_id kept.devices kept.conversations
        ∙ found;
    next = ap (λ (es : List ConversationEvent). suc (length es)) (sym kept.stored);
    replays = (
      b.journal,
      rw (kept.stored, devices_for-same b.store store c.participant_ids kept.devices) kept.replays,
    );
    extends = (kept.extends.0, kept.stored ∙ kept.extends.1);
  }

  result-Acknowledged :
      (c : Conversation) (r : Result RelayError Batch)
      → conversation store conversation_id device_id ≡ ok c
      → ((b : Batch)
          → r ≡ ok b
          → Kept primitives
              (new_journal c (devices_for store c.participant_ids))
              store
              (history store c)
              b)
      → acknowledged primitives r ≡ ok (after, n)
      → Acknowledged store after conversation_id device_id n c
  unfolding the_pair
  result-Acknowledged c (err e) found kept h = absurd (ground (arith, h))
  result-Acknowledged c (ok b) found kept h =
      let same : (b.store, suc (length b.known)) ≡ (after, n) = ap (the_pair (store, n)) h in
      subst (λ p. Acknowledged store p.0 conversation_id device_id p.1 c) same
        (Kept-Acknowledged c b found (kept b refl))

  replayed-Acknowledged :
      (c : Conversation) (o : Option ConversationJournal)
      → conversation store conversation_id device_id ≡ ok c
      → replay (new_journal c (devices_for store c.participant_ids)) (history store c) ≡ o
      → replayed primitives device_id context events store (history store c) o ≡ ok (after, n)
      → Acknowledged store after conversation_id device_id n c
  unfolding new_journal
  replayed-Acknowledged c none found past h = absurd (ground (arith, h))
  replayed-Acknowledged c (some journal) found past h =
      let start : Batch = record { store = store; journal = journal; known = history store c } in
      let j0 = new_journal c (devices_for store c.participant_ids) in
      let batch_bad =
        not (leb 1 (length events) && leb (length events) max_batch_events)
        || not (distinct (map (λ e. e.event_id) events)) in
      elim (Bool-cases batch_bad) [
        | inl e ↦ absurd (ground (arith, h, e))
        | inr e ↦
            result-Acknowledged c (append_events primitives device_id context events start) found
              (λ b done.
                append_events-Kept primitives j0 store (history store c) device_id context events
                  start b (omega arith)
                  (record {
                    replays = past;
                    stored = refl;
                    devices = refl;
                    conversations = refl;
                    others = λ i apart. refl;
                    extends = ([], sym (append-nil (history store c)));
                  })
                  done)
              (rw e at h)
      ]

  conversation-Acknowledged :
      (r : Result RelayError Conversation)
      → conversation store conversation_id device_id ≡ r
      → append_to primitives device_id context events store r ≡ ok (after, n)
      → (c : Conversation) × Acknowledged store after conversation_id device_id n c
  conversation-Acknowledged (err e) found h = absurd (ground (arith, h))
  conversation-Acknowledged (ok c) found h = (c, replayed-Acknowledged c _ found refl h)

  -- A batch is acknowledged only for a conversation of the device. The history of the conversation
  -- then extends the one before, a new journal accepts all of it in its order, and the cursor that is
  -- returned is one more than its length.
  pub append_batch-Acknowledged :
      append_batch primitives store conversation_id device_id events context ≡ ok (after, n)
      → (c : Conversation) × Acknowledged store after conversation_id device_id n c
  unfolding append_batch
  append_batch-Acknowledged h =
      conversation-Acknowledged (conversation store conversation_id device_id) refl h
