-- ===== src/Relay/Retried/Resent.antt =====
-- relay_store.py: a batch that is sent again after other batches.
use mathlib.Core.Path.{subst}
use mathlib.Core.List.{append-nil}
use personal_secretary.Prelude.{
  ◌≤◌, All-weaken, length-append, ℕ, suc, String, true, false, some, List, [], ◌∷◌, ◌++◌, ◌≡◌, refl,
  sym, ap, ◌∙◌, inl, inr, arith, Bool-cases, All, str_eq, eq_iff, length,
}
use personal_secretary.Prelude.Results.{Result, err, ok}
use personal_secretary.Conversation.Events.{Conversation, ConversationEvent}
use personal_secretary.Conversation.{ConversationJournal, new_journal}
use personal_secretary.Ledger.{TransitionContext}
use personal_secretary.Relay.{
  RelayError, RelayStore, RelayPrimitives, conversation, devices_for, replay, append_batch,
}
use personal_secretary.Relay.Acknowledged.{history, conversation-same, devices_for-same}
use personal_secretary.Relay.Retried.Known.{Known, Known-append, append_events-Known, again-events}
use personal_secretary.Relay.Retried.{bad_batch, Ran, append-Ran, Ran-Kept}
use personal_secretary.Relay.Retried.Reading.{conversation-Read, Read-id, Read-unique}

-- A call of `append`.
pub record AppendCall : Type 0 where
  pub conversation_id : String
  pub device_id : String
  pub events : List ConversationEvent
  pub context : TransitionContext

abbrev pub stored_or : RelayStore → Result RelayError (RelayStore × ℕ) → RelayStore
stored_or store (err e) = store
stored_or store (ok (after, n)) = after

-- The store after calls of `append`, of which those that raise leave it as it was.
unfoldable pub append_all : RelayPrimitives → List AppendCall → RelayStore → RelayStore
append_all primitives [] store = store
append_all primitives (call ∷ calls) store = append_all primitives calls (
    stored_or store
      (append_batch primitives store call.conversation_id call.device_id call.events call.context))

module _ (primitives : RelayPrimitives)
    (same_refl : (e : ConversationEvent) → primitives.same_event e e ≡ true) where
  module _ (conversation_id device_id : String) (events : List ConversationEvent) (n : ℕ)
      (c : Conversation) where
    -- The batch is in the history of the conversation, and can be sent again.
    record Resendable (store : RelayStore) : Type 0 where
      found : conversation store conversation_id device_id ≡ ok c
      fit_batch : bad_batch primitives same_refl device_id events ≡ false
      replays :
          (j : ConversationJournal) × (replay
              (new_journal c (devices_for store c.participant_ids))
              (history store c)
            ≡ some j)
      known : All (Known primitives same_refl device_id (history store c)) events
      reached : n ≤ suc (length (history store c))

    again-Resendable :
        (store : RelayStore) (context : TransitionContext)
        → Resendable store
        → append_batch primitives store conversation_id device_id events context
          ≡ ok (store, suc (length (history store c)))
    unfolding append_batch new_journal
    again-Resendable store context r =
        rw (r.found, r.replays.1, r.fit_batch)
          (rw
            (again-events primitives same_refl device_id context events
              (record { store = store; journal = r.replays.0; known = history store c }) r.known)
            refl)

    Ran-Resendable :
        (context : TransitionContext) (store after : RelayStore)
        → conversation store conversation_id device_id ≡ ok c
        → Ran primitives same_refl device_id context events store c after n
        → Resendable after
    unfolding new_journal
    Ran-Resendable context store after found ran =
        let kept =
          Ran-Kept primitives same_refl device_id context events store c ran.journal ran.batch
            ran.past ran.done in
        let all_known =
          (append_events-Known primitives same_refl device_id context events _ ran.batch
            ran.done).1 in
        let at_batch : Resendable ran.batch.store = record {
          found =
              conversation-same ran.batch.store store conversation_id device_id kept.devices
                kept.conversations
              ∙ found;
          fit_batch = ran.fit_batch;
          replays = (
            ran.batch.journal,
            rw (kept.stored, devices_for-same ran.batch.store store c.participant_ids kept.devices)
                kept.replays,
          );
          known =
              subst (λ es. All (Known primitives same_refl device_id es) events) (sym kept.stored)
                all_known;
          reached = rw (kept.stored, sym (ap (λ (p : RelayStore × ℕ). p.1) ran.ends)) (omega arith);
        } in
        subst Resendable (ap (λ (p : RelayStore × ℕ). p.0) ran.ends) at_batch

    longer-Resendable :
        (store later : RelayStore) (added : List ConversationEvent)
        → Resendable store
        → later.devices ≡ store.devices
        → later.conversations ≡ store.conversations
        → history later c ≡ history store c ++ added
        → ((j : ConversationJournal) × (replay
                (new_journal c (devices_for later c.participant_ids))
                (history later c)
              ≡ some j))
        → Resendable later
    longer-Resendable store later added r devices conversations extends replays = record {
      found =
          conversation-same later store conversation_id device_id devices conversations ∙ r.found;
      fit_batch = r.fit_batch;
      replays = replays;
      known =
          subst (λ es. All (Known primitives same_refl device_id es) events) (sym extends)
            (All-weaken _ _ events
              (λ e k. Known-append primitives same_refl device_id (history store c) added e k)
              r.known);
      reached = rw extends (omega (arith, length-append (history store c) added, r.reached));
    }

    same-Resendable :
        (store after : RelayStore) (call : AppendCall) (m : ℕ)
        → Resendable store
        → Ran primitives same_refl call.device_id call.context call.events store c after m
        → Resendable after
    unfolding new_journal
    same-Resendable store after call m r ran =
        let kept =
          Ran-Kept primitives same_refl call.device_id call.context call.events store c ran.journal
            ran.batch ran.past ran.done in
        subst Resendable (ap (λ (p : RelayStore × ℕ). p.0) ran.ends) (
          longer-Resendable store ran.batch.store kept.extends.0 r kept.devices kept.conversations
            (kept.stored ∙ kept.extends.1)
            (
              ran.batch.journal,
              rw
                  (
                    kept.stored,
                    devices_for-same ran.batch.store store c.participant_ids kept.devices,
                  )
                  kept.replays,
            ))

    other-Resendable :
        (store after : RelayStore) (call : AppendCall) (d : Conversation) (m : ℕ)
        → Resendable store
        → str_eq d.conversation_id c.conversation_id ≡ false
        → Ran primitives same_refl call.device_id call.context call.events store d after m
        → Resendable after
    unfolding new_journal
    other-Resendable store after call d m r apart ran =
        let kept =
          Ran-Kept primitives same_refl call.device_id call.context call.events store d ran.journal
            ran.batch ran.past ran.done in
        let same : history ran.batch.store c ≡ history store c =
          kept.others c.conversation_id apart in
        subst Resendable (ap (λ (p : RelayStore × ℕ). p.0) ran.ends) (
          longer-Resendable store ran.batch.store [] r kept.devices kept.conversations
            (same ∙ sym (append-nil (history store c)))
            (
              r.replays.0,
              rw (same, devices_for-same ran.batch.store store c.participant_ids kept.devices)
                  r.replays.1,
            ))

    call-Resendable :
        (store : RelayStore) (call : AppendCall) (r : Result RelayError (RelayStore × ℕ))
        → Resendable store
        → append_batch primitives store call.conversation_id call.device_id call.events call.context
          ≡ r
        → Resendable (stored_or store r)
    unfolding append_batch
    call-Resendable store call (err e) resendable h = resendable
    call-Resendable store call (ok (after, m)) resendable h =
        let (d, found, ran) =
          append-Ran primitives same_refl call.device_id call.context call.events store
            (conversation store call.conversation_id call.device_id) after m h in
        elim (Bool-cases (str_eq d.conversation_id c.conversation_id)) [
          | inl e ↦
              let theirs = conversation-Read store call.conversation_id call.device_id d found in
              let ours = conversation-Read store conversation_id device_id c resendable.found in
              let one : call.conversation_id ≡ conversation_id =
                sym (Read-id store call.conversation_id d theirs)
                ∙ (eq_iff d.conversation_id c.conversation_id).0 e
                ∙ Read-id store conversation_id c ours in
              same-Resendable store after call m resendable (
                subst
                  (λ x.
                    Ran primitives same_refl call.device_id call.context call.events store x after
                      m)
                  (Read-unique store call.conversation_id conversation_id d c theirs ours one) ran)
          | inr e ↦ other-Resendable store after call d m resendable e ran
        ]

    append_all-Resendable :
        (calls : List AppendCall) (store : RelayStore)
        → Resendable store
        → Resendable (append_all primitives calls store)
    unfolding append_all
    append_all-Resendable [] store r = r
    append_all-Resendable (call ∷ calls) store r =
        append_all-Resendable calls _ (call-Resendable store call _ r refl)

  -- If each event equals itself, then when a device sends a batch again that was acknowledged, under any
  -- request context and after any other calls of `append` by any devices on any conversations, the batch is acknowledged again, with
  -- a number that is not smaller and is one more than the length of the conversation's history, and
  -- the store stays as it is: no event and no audit entry is added.
  pub append_batch_again :
      (conversation_id device_id : String) (events : List ConversationEvent) (n : ℕ)
      (store after : RelayStore) (context again : TransitionContext) (calls : List AppendCall)
      → append_batch primitives store conversation_id device_id events context ≡ ok (after, n)
      → let later = append_all primitives calls after in
        (c : Conversation) × (conversation later conversation_id device_id ≡ ok c)
        × (append_batch primitives later conversation_id device_id events again
            ≡ ok (later, suc (length (history later c))))
        × (n ≤ suc (length (history later c)))
  unfolding append_batch
  append_batch_again conversation_id device_id events n store after context again calls h =
      let (c, found, ran) =
        append-Ran primitives same_refl device_id context events store
          (conversation store conversation_id device_id) after n h in
      let r =
        append_all-Resendable conversation_id device_id events n c calls after
          (Ran-Resendable conversation_id device_id events n c context store after found ran) in
      (
        c,
        r.found,
        again-Resendable conversation_id device_id events n c (append_all primitives calls after)
            again r,
        r.reached,
      )
