-- ===== src/Relay/Conversations/Created.antt =====
-- relay_store.py: a creation that is sent again.
use mathlib.Core.Path.{subst}
use personal_secretary.Prelude.{
  ℕ, String, Bool, true, false, Option, none, some, List, [], ◌∷◌, ◌++◌, ◌≡◌, refl, ap, inl, inr,
  arith, Bool-cases, str_eq, eq_iff, contains, find, any,
}
use personal_secretary.Prelude.Results.{Result, err, ok}
use personal_secretary.Conversation.Events.{Conversation, ConversationDevice}
use personal_secretary.Ledger.{AuditTables, TransitionContext}
use personal_secretary.Relay.{
  RelayError, RelayPrimitives, ConversationRecord, conversation, stored_device, conversation_of,
}
use personal_secretary.Relay.Conversations.{
  RelayTables, exists_conversation, same_title, new_record, with_conversation, created, create_for,
  create,
}

module _ {A : Type 0} (test : A → Bool) (y : A) (passes : test y ≡ true) where
  find-append_new : (xs : List A) → any test xs ≡ false → find test (xs ++ y ∷ []) ≡ some y
  unfolding find any
  find-append_new [] h = rw passes refl
  find-append_new (x ∷ xs) h = elim (Bool-cases (test x)) [
    | inl e ↦ absurd (ground (arith, h, e))
    | inr e ↦ rw e (find-append_new xs (ground (arith, h, e)))
  ]

  any-append_new : (xs : List A) → any test (xs ++ y ∷ []) ≡ true
  unfolding any
  any-append_new [] = rw passes refl
  any-append_new (x ∷ xs) = rw (any-append_new xs) (ground arith)

module _ (primitives : RelayPrimitives) (record_json : ConversationRecord → String)
    (decimal : ℕ → String) (conversation_id title device_id : String)
    (again : TransitionContext) where
  pair_of :
      RelayTables × Conversation
      → Result RelayError (RelayTables × Conversation)
      → RelayTables × Conversation
  pair_of d (err e) = d
  pair_of d (ok p) = p

  same_title-cases :
      (tables after : RelayTables) (c : Conversation) (r : Result RelayError Conversation)
      → same_title tables title r ≡ ok (after, c)
      → tables ≡ after
  unfolding pair_of
  same_title-cases tables after c (err e) h = absurd (ground (arith, h))
  same_title-cases tables after c (ok current) h = elim (Bool-cases (str_eq current.title title)) [
    | inl e ↦ ap (λ r. (pair_of (tables, c) r).0) (rw e at h)
    | inr e ↦ absurd (ground (arith, h, e))
  ]

  again-existing :
      (tables after : RelayTables) (c : Conversation) (device : ConversationDevice)
      → stored_device tables.relay device_id ≡ some device
      → exists_conversation tables conversation_id ≡ true
      → same_title tables title (conversation tables.relay conversation_id device_id)
        ≡ ok (after, c)
      → create primitives record_json decimal after conversation_id title device_id again
        ≡ ok (after, c)
  unfolding create
  again-existing tables after c device bound existing h =
      let same = same_title-cases tables after c _ h in
      subst
        (λ (t : RelayTables).
          create primitives record_json decimal t conversation_id title device_id again
          ≡ ok (after, c))
        same (rw (bound, existing) h)

  module _ (tables : RelayTables) (device : ConversationDevice) (context : TransitionContext)
      (entries : AuditTables) (bound : stored_device tables.relay device_id ≡ some device)
      (fresh : exists_conversation tables conversation_id ≡ false) where
    abbrev row : ConversationRecord
    row = new_record conversation_id title device context

    abbrev later : RelayTables
    later = with_conversation tables row context entries

    later-bound : stored_device later.relay device_id ≡ some device
    unfolding stored_device
    later-bound = bound

    later-conversation :
        conversation later.relay conversation_id device_id ≡ ok (conversation_of later.relay row)
    unfolding conversation contains
    later-conversation =
        rw
          (
            later-bound,
            find-append_new (λ r. str_eq r.record_id conversation_id) row
                ((eq_iff conversation_id conversation_id).1 refl) tables.relay.conversations
                (ground (arith, fresh)),
            (eq_iff device.participant_id device.participant_id).1 refl,
          )
          refl

    again-new :
        create primitives record_json decimal later conversation_id title device_id again
        ≡ ok (later, conversation_of later.relay row)
    unfolding create conversation_of
    again-new =
        rw
          (
            later-bound,
            any-append_new (λ r. str_eq r.record_id conversation_id) row
                ((eq_iff conversation_id conversation_id).1 refl) tables.relay.conversations,
            later-conversation,
            (eq_iff title title).1 refl,
          )
          refl

  created-again :
      (tables after : RelayTables) (c : Conversation) (device : ConversationDevice)
      (context : TransitionContext) (r : Result RelayError AuditTables)
      → stored_device tables.relay device_id ≡ some device
      → exists_conversation tables conversation_id ≡ false
      → created primitives record_json decimal tables
          (new_record conversation_id title device context)
          device_id
          context
          r
        ≡ ok (after, c)
      → create primitives record_json decimal after conversation_id title device_id again
        ≡ ok (after, c)
  unfolding pair_of
  created-again tables after c device context (err e) bound fresh h = absurd (ground (arith, h))
  created-again tables after c device context (ok entries) bound fresh h =
      let same =
        ap (pair_of (tables, c))
          (rw (later-conversation tables device context entries bound fresh) at h) in
      subst
        (λ (p : RelayTables × Conversation).
          create primitives record_json decimal p.0 conversation_id title device_id again ≡ ok p)
        same (again-new tables device context entries bound fresh)

  for-again :
      (tables after : RelayTables) (c : Conversation) (context : TransitionContext)
      (o : Option ConversationDevice)
      → stored_device tables.relay device_id ≡ o
      → create_for primitives record_json decimal tables conversation_id title device_id context o
        ≡ ok (after, c)
      → create primitives record_json decimal after conversation_id title device_id again
        ≡ ok (after, c)
  for-again tables after c context none bound h = absurd (ground (arith, h))
  for-again tables after c context (some device) bound h =
      elim (Bool-cases (exists_conversation tables conversation_id)) [
        | inl e ↦ again-existing tables after c device bound e (rw e at h)
        | inr e ↦ elim (Bool-cases (str_eq title "")) [
          | inl f ↦ absurd (ground (arith, h, e, f))
          | inr f ↦
              elim (Bool-cases
                (any (λ row. str_eq row.conversation_id conversation_id) tables.retention)) [
                  | inl g ↦ absurd (ground (arith, h, e, f, g))
                  | inr g ↦
                      created-again tables after c device context _ bound e (rw (e, f, g) at h)
                ]
        ]
      ]

  -- A creation that succeeded returns the same conversation when the same device sends it again with the
  -- same title, and the tables stay as they are.
  pub create_again :
      (tables after : RelayTables) (c : Conversation) (context : TransitionContext)
      → create primitives record_json decimal tables conversation_id title device_id context
        ≡ ok (after, c)
      → create primitives record_json decimal after conversation_id title device_id again
        ≡ ok (after, c)
  unfolding create
  create_again tables after c context h = for-again tables after c context _ refl h
