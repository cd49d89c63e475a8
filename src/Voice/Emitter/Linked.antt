-- ===== src/Voice/Emitter/Linked.antt =====
-- voice/state.py and conversation_api.py: the emitter and the journal that it feeds.
use mathlib.Core.Path.{subst}
use personal_secretary.Prelude.{
  ℕ, suc, ◌-◌, ◌<◌, String, true, false, Option, none, some, List, [], ◌∷◌, ◌≡◌, ◌≢◌, refl, sym,
  inl, inr, ◌∙◌, ap, arith, Bool-cases, contains, All, All-weaken,
}
use personal_secretary.Prelude.Int.{ℤ}
use personal_secretary.Prelude.Results.{Result, err, ok}
use personal_secretary.Conversation.Events.{
  Conversation, ConversationDevice, ConversationEventPayload, ConversationEvent,
}
use personal_secretary.Conversation.{
  ConversationRejection, ConversationAcceptance, ConversationJournal, accept, new_journal,
  rejection_of, concluded, reject,
}
use personal_secretary.Conversation.Accepted.{
  after, is_accepted, IsRecorded, IsRejected, accept-cases,
}
use personal_secretary.Conversation.Recorded.{IsRecorded-RecordsOne}
use personal_secretary.Voice.Models.{VoiceEvent, VoiceEventKind, VoiceError}
use personal_secretary.Voice.Emitter.{
  VoiceSessionState, ConversationVoiceEmitter, new_emitter, EventPrimitives, voice_event, voice,
  conversation_event, judged, canonical_for, canonical, emit_partial, emit_final, emit_cancellation,
  emit_action_progress,
}
use personal_secretary.Voice.Emitter.Ordered.{
  is_order_error, rejection-ordered, not_contained, OtherReason, reason-OtherReason,
}

-- A call of the emitter for any session.
pub data EmitterCall : Type 0 where
  partial final cancellation : ℤ → VoiceSessionState → String → String → EmitterCall
  action_progress : VoiceSessionState → String → String → EmitterCall

-- The emitter's sequence is the journal's, and the journal has seen the UUIDs of smaller numbers only.
record Linked (primitives : EventPrimitives) (e : ConversationVoiceEmitter) : Type 0 where
  sequence : e.next_conversation_sequence ≡ e.journal.next_sequence
  seen :
      All
        (λ id. (n : ℕ) × (n < e.next_event_id) × (id ≡ primitives.uuid_of_int n))
        e.journal.seen_event_ids

-- What an emission raises is for another reason than the order.
abbrev pub InOrder : Result VoiceError VoiceEvent → Type 0
InOrder (err (VoiceError.order r)) = OtherReason r
InOrder _ = Unit

module _ (primitives : EventPrimitives) where
  judged-Linked :
      (e : ConversationVoiceEmitter) (s : VoiceSessionState) (event : VoiceEvent)
      (verdict : ConversationJournal × ConversationAcceptance)
      → (verdict.1.accepted ≡ true
          → Linked primitives (record e {
            journal = verdict.0;
            next_conversation_sequence = suc e.next_conversation_sequence;
          }))
      → (verdict.1.accepted ≡ false
          → Linked primitives
              (record e { journal = verdict.0; next_event_id = e.next_event_id - 1 }))
      → Linked primitives (judged primitives e s event verdict).0.0
  judged-Linked e s event (journal, acceptance) taken left = elim (Bool-cases acceptance.accepted) [
    | inl h ↦ rw h (taken h)
    | inr h ↦ rw h (left h)
  ]

  judged-InOrder :
      (e : ConversationVoiceEmitter) (s : VoiceSessionState) (event : VoiceEvent)
      (verdict : ConversationJournal × ConversationAcceptance)
      → is_order_error verdict.1.rejection ≡ false
      → InOrder (judged primitives e s event verdict).1
  judged-InOrder e s event (journal, acceptance) h = elim (Bool-cases acceptance.accepted) [
    | inl a ↦ rw a tt
    | inr a ↦ rw a (reason-OtherReason acceptance.rejection h)
  ]

  concluded-rejection :
      (j : ConversationJournal) (event : ConversationEvent) (o : Option ConversationRejection)
      → (concluded j event o).1.rejection ≡ o
  unfolding reject
  concluded-rejection j event none = refl
  concluded-rejection j event (some r) = refl

  accept-rejection :
      (j : ConversationJournal) (event : ConversationEvent)
      → (accept j event).1.rejection ≡ rejection_of j event
  unfolding accept
  accept-rejection j event = concluded-rejection j event (rejection_of j event)

module _ (primitives : EventPrimitives)
    (injective : (m n : ℕ) → primitives.uuid_of_int m ≡ primitives.uuid_of_int n → m ≡ n) where
  Linked-fresh :
      (e : ConversationVoiceEmitter)
      → Linked primitives e
      → contains (primitives.uuid_of_int e.next_event_id) e.journal.seen_event_ids ≡ false
  Linked-fresh e linked =
      not_contained (primitives.uuid_of_int e.next_event_id) e.journal.seen_event_ids (
        All-weaken _ (λ id. id ≢ primitives.uuid_of_int e.next_event_id) e.journal.seen_event_ids
          (λ id old same.
            absurd (omega (arith, old.1, injective old.0 e.next_event_id (sym old.2 ∙ same))))
          linked.seen)

  sent :
      (e : ConversationVoiceEmitter)
      → (now : ℤ) (s : VoiceSessionState) (kind : VoiceEventKind) (turn text : String)
        (payload : ConversationEventPayload) (device_id : String)
      → Linked primitives e
      → let event = voice_event e kind turn text in
        let (e1, s1) = voice e s event in
        is_order_error
          (rejection_of e.journal (conversation_event primitives now e1 s1 event payload device_id))
        ≡ false
  unfolding voice voice_event conversation_event
  sent e now s kind turn text payload device_id linked =
      let event = voice_event e kind turn text in
      rejection-ordered e.journal
        (conversation_event primitives now (voice e s event).0 (voice e s event).1 event payload
          device_id)
        (ground (arith, linked.sequence)) (Linked-fresh e linked)

  Linked-later :
      (e : ConversationVoiceEmitter) (ids : List String)
      → All (λ id. (n : ℕ) × (n < e.next_event_id) × (id ≡ primitives.uuid_of_int n)) ids
      → All (λ id. (n : ℕ) × (n < suc e.next_event_id) × (id ≡ primitives.uuid_of_int n)) ids
  Linked-later e ids seen = All-weaken _ _ ids (λ id old. (old.0, omega (arith, old.1), old.2)) seen

  IsRecorded-cases :
      (j : ConversationJournal) (event : ConversationEvent)
      → is_accepted j event ≡ true
      → IsRecorded j event
  IsRecorded-cases j event h = elim (accept-cases j event) [ inl r ↦ r | inr r ↦ cc (h, r.said) ]

  IsRejected-cases :
      (j : ConversationJournal) (event : ConversationEvent)
      → is_accepted j event ≡ false
      → IsRejected j event
  IsRejected-cases j event h = elim (accept-cases j event) [ inl r ↦ cc (h, r.said) | inr r ↦ r ]

  taken-Linked :
      (e : ConversationVoiceEmitter) (event : ConversationEvent)
      → Linked primitives e
      → event.event_id ≡ primitives.uuid_of_int e.next_event_id
      → IsRecorded e.journal event
      → Linked primitives (record e {
        journal = after e.journal event;
        next_event_id = suc e.next_event_id;
        next_conversation_sequence = suc e.next_conversation_sequence;
      })
  taken-Linked e event linked id r =
      let one = IsRecorded-RecordsOne e.journal event r in
      record {
        sequence = ap suc linked.sequence ∙ sym one.next_sequence;
        seen =
            subst (All (λ i. (n : ℕ) × (n < suc e.next_event_id) × (i ≡ primitives.uuid_of_int n)))
              (sym one.seen)
              (
                (e.next_event_id, omega arith, id),
                Linked-later e e.journal.seen_event_ids linked.seen,
              );
      }

  left-Linked :
      (e : ConversationVoiceEmitter) (event : ConversationEvent)
      → Linked primitives e
      → IsRejected e.journal event
      → Linked primitives
          (record e { journal = after e.journal event; next_event_id = suc e.next_event_id - 1 })
  left-Linked e event linked r =
      let back : suc e.next_event_id - 1 ≡ e.next_event_id = omega arith in
      subst
        (λ j. Linked primitives (record e { journal = j; next_event_id = suc e.next_event_id - 1 }))
        (sym r.kept)
        (subst (λ n. Linked primitives (record e { next_event_id = n })) (sym back) linked)

  emission-Linked :
      (e : ConversationVoiceEmitter) (now : ℤ) (s : VoiceSessionState) (kind : VoiceEventKind)
      (turn text : String) (payload : ConversationEventPayload) (o : Option String)
      → Linked primitives e
      → let event = voice_event e kind turn text in
        Linked primitives (canonical_for primitives now (voice e s event) event payload o).0.0
        × InOrder (canonical_for primitives now (voice e s event) event payload o).1
  unfolding voice voice_event conversation_event
  emission-Linked e now s kind turn text payload none linked = (
    record {
      sequence = linked.sequence;
      seen = Linked-later e e.journal.seen_event_ids linked.seen;
    },
    tt,
  )
  emission-Linked e now s kind turn text payload (some device_id) linked =
      let event = voice_event e kind turn text in
      let (e1, s1) = voice e s event in
      let message = conversation_event primitives now e1 s1 event payload device_id in
      let said : is_order_error (accept e.journal message).1.rejection ≡ false =
        subst (λ o. is_order_error o ≡ false) (sym (accept-rejection primitives e.journal message))
          (sent e now s kind turn text payload device_id linked) in
      (
        judged-Linked primitives e1 s1 event (accept e.journal message)
            (λ taken. taken-Linked e message linked refl (IsRecorded-cases e.journal message taken))
            (λ left. left-Linked e message linked (IsRejected-cases e.journal message left)),
        judged-InOrder primitives e1 s1 event (accept e.journal message) said,
      )

  -- A call of the emitter: the emitter that it leaves, and what it returns or raises.
  abbrev pub emit :
      ConversationVoiceEmitter
      → EmitterCall
      → ConversationVoiceEmitter × Result VoiceError VoiceEvent
  emit e (EmitterCall.partial now s turn text) =
      let emission = emit_partial primitives now e s turn text in (emission.0.0, emission.1)
  emit e (EmitterCall.final now s turn text) =
      let emission = emit_final primitives now e s turn text in (emission.0.0, emission.1)
  emit e (EmitterCall.cancellation now s turn reason) =
      let emission = emit_cancellation primitives now e s turn reason in (emission.0.0, emission.1)
  emit e (EmitterCall.action_progress s turn text) =
      let emission = emit_action_progress e s turn text in (emission.0.0, ok emission.1)

  unfoldable pub emit_all : List EmitterCall → ConversationVoiceEmitter → ConversationVoiceEmitter
  emit_all [] e = e
  emit_all (call ∷ calls) e = emit_all calls (emit e call).0

  emit-Linked :
      (e : ConversationVoiceEmitter) (call : EmitterCall)
      → Linked primitives e
      → Linked primitives (emit e call).0 × InOrder (emit e call).1
  unfolding emit_partial emit_final emit_cancellation emit_action_progress canonical voice
      voice_event
  emit-Linked e (EmitterCall.partial now s turn text) linked =
      emission-Linked e now s VoiceEventKind.transcript_partial turn text _ _ linked
  emit-Linked e (EmitterCall.final now s turn text) linked =
      emission-Linked e now s VoiceEventKind.transcript_final turn text _ _ linked
  emit-Linked e (EmitterCall.cancellation now s turn reason) linked =
      emission-Linked e now s VoiceEventKind.cancellation turn reason _ _ linked
  emit-Linked e (EmitterCall.action_progress s turn text) linked = (
    record {
      sequence = linked.sequence;
      seen = Linked-later e e.journal.seen_event_ids linked.seen;
    },
    tt,
  )

  emit_all-Linked :
      (calls : List EmitterCall) (e : ConversationVoiceEmitter)
      → Linked primitives e
      → Linked primitives (emit_all calls e)
  unfolding emit_all
  emit_all-Linked [] e linked = linked
  emit_all-Linked (call ∷ calls) e linked =
      emit_all-Linked calls (emit e call).0 (emit-Linked e call linked).0

  -- An emitter that alone feeds a new journal, whatever its calls, for whatever sessions and however
  -- they end, never raises that an event is out of order or a duplicate.
  pub emit-InOrder :
      (conversation : Conversation) (devices : List ConversationDevice) (calls : List EmitterCall)
      (call : EmitterCall)
      → InOrder (emit (emit_all calls (new_emitter (new_journal conversation devices))) call).1
  unfolding new_emitter new_journal
  emit-InOrder conversation devices calls call =
      let start = new_emitter (new_journal conversation devices) in
      (emit-Linked (emit_all calls start) call
        (emit_all-Linked calls start (record { sequence = refl; seen = tt }))).1
