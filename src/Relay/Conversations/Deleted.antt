-- ===== src/Relay/Conversations/Deleted.antt =====
-- relay_store.py: what the tables say after a conversation is deleted.
use mathlib.Core.Path.{subst}
use personal_secretary.Prelude.{
  ℕ, ◌+◌, String, Bool, true, false, not, Option, none, some, List, [], ◌∷◌, ◌&&◌, ◌≡◌, refl, sym,
  ap, ◌∙◌, inl, inr, arith, Bool-cases, All, keep-All, str_eq, eq_iff, keep, length, find,
}
use personal_secretary.Prelude.Int.{ℤ, ltb_ℤ}
use personal_secretary.Prelude.Sort.{sort_by}
use personal_secretary.Prelude.Results.{Result, err, ok}
use personal_secretary.Conversation.Events.{Conversation, ConversationDevice}
use personal_secretary.Ledger.{AuditTables, TransitionContext}
use personal_secretary.Relay.{
  RelayError, RelayStore, RelayPrimitives, ConversationRecord, authorized, conversation,
  stored_device, conversation_of, devices_for, events_after, first_items, sequence_le,
}
use personal_secretary.Relay.Conversations.{
  RelayTables, without_conversation, event_count, deleted, purge, delete_for, delete,
}

module _ {A : Type 0} where
  find-keep_missing :
      (test : A → Bool) (xs : List A) → find test (keep (λ x. not (test x)) xs) ≡ none
  unfolding find keep
  find-keep_missing test [] = refl
  find-keep_missing test (x ∷ xs) = elim (Bool-cases (test x)) [
    | inl e ↦ rw e (find-keep_missing test xs)
    | inr e ↦ rw (e, e) (find-keep_missing test xs)
  ]

  find-keep_other :
      (p q : A → Bool)
      → ((x : A) → p x ≡ true → q x ≡ true)
      → (xs : List A) → find p (keep q xs) ≡ find p xs
  unfolding find keep
  find-keep_other p q h [] = refl
  find-keep_other p q h (x ∷ xs) = elim (Bool-cases (p x)) [
    | inl e ↦ rw (h x e, e) refl
    | inr e ↦ elim (Bool-cases (q x)) [
      | inl f ↦ rw (f, e) (find-keep_other p q h xs)
      | inr f ↦ rw (f, e) (find-keep_other p q h xs)
    ]
  ]

  keep-keep_other :
      (p q : A → Bool)
      → ((x : A) → p x ≡ true → q x ≡ true)
      → (xs : List A) → keep p (keep q xs) ≡ keep p xs
  unfolding keep
  keep-keep_other p q h [] = refl
  keep-keep_other p q h (x ∷ xs) = elim (Bool-cases (p x)) [
    | inl e ↦ rw (h x e, e) (ap (λ ys. x ∷ ys) (keep-keep_other p q h xs))
    | inr e ↦ elim (Bool-cases (q x)) [
      | inl f ↦ rw (f, e) (keep-keep_other p q h xs)
      | inr f ↦ rw (f, e) (keep-keep_other p q h xs)
    ]
  ]

  length-keep_both :
      (p : A → Bool) (xs : List A)
      → length xs ≡ length (keep p xs) + length (keep (λ x. not (p x)) xs)
  unfolding keep
  length-keep_both p [] = refl
  length-keep_both p (x ∷ xs) = ground (arith, length-keep_both p xs)

another : (a i j : String) → str_eq i j ≡ false → str_eq a i ≡ true → not (str_eq a j) ≡ true
another a i j apart same = elim (Bool-cases (str_eq a j)) [
  | inl e ↦ absurd (cc ((eq_iff i j).1 (sym ((eq_iff a i).0 same) ∙ (eq_iff a j).0 e), apart))
  | inr e ↦ rw e refl
]

-- No device reads the conversation, none of its rows is left, the number is that of the events that are
-- gone, and every other conversation reads as before.
pub record Forgotten (before after : RelayTables) (conversation_id : String) (n : ℕ) : Type 0 where
  pub unreadable :
      (device_id : String)
      → conversation after.relay conversation_id device_id ≡ err RelayError.access
  pub events : All (λ e. not (str_eq e.conversation_id conversation_id) ≡ true) after.relay.events
  pub other_events :
      All (λ e. not (str_eq e.conversation_id conversation_id) ≡ true) after.other_events
  pub retention :
      after.retention
      ≡ keep (λ row. not (str_eq row.conversation_id conversation_id)) before.retention
  pub count :
      length before.relay.events + length before.other_events
      ≡ n + (length after.relay.events + length after.other_events)
  pub others :
      (other : String)
      → str_eq other conversation_id ≡ false
      → (device_id : String)
      → conversation after.relay other device_id ≡ conversation before.relay other device_id
  pub other_pages :
      (other : String)
      → str_eq other conversation_id ≡ false
      → (cursor : ℤ) (limit : ℕ)
      → events_after after.relay other cursor limit ≡ events_after before.relay other cursor limit

unreadable-authorized :
    (s : RelayStore) (device : Option ConversationDevice)
    → authorized s device none ≡ err RelayError.access
unreadable-authorized s none = refl
unreadable-authorized s (some device) = refl

authorized-same_devices :
    (s t : RelayStore) (device : Option ConversationDevice) (r : Option ConversationRecord)
    → s.devices ≡ t.devices
    → authorized s device r ≡ authorized t device r
unfolding conversation_of devices_for
authorized-same_devices s t none r h = refl
authorized-same_devices s t (some device) none h = refl
authorized-same_devices s t (some device) (some r) h = rw h refl

abbrev left : RelayTables → String → AuditTables → RelayTables
left tables conversation_id entries =
    let rest = without_conversation tables conversation_id in
    record rest { relay = record rest.relay { audit = entries } }

left-Forgotten :
    (tables : RelayTables) (conversation_id : String) (entries : AuditTables)
    → Forgotten tables
        (left tables conversation_id entries)
        conversation_id
        (event_count tables conversation_id)
unfolding without_conversation event_count conversation stored_device events_after
left-Forgotten tables conversation_id entries = record {
  unreadable = λ device_id.
      ap (authorized (left tables conversation_id entries).relay _)
        (find-keep_missing (λ r. str_eq r.record_id conversation_id) tables.relay.conversations)
      ∙ unreadable-authorized _ _;
  events = keep-All _ tables.relay.events;
  other_events = keep-All _ tables.other_events;
  retention = refl;
  count = omega (
    arith,
    length-keep_both (λ e. str_eq e.conversation_id conversation_id) tables.relay.events,
    length-keep_both (λ e. str_eq e.conversation_id conversation_id) tables.other_events,
  );
  others = λ other apart device_id.
      ap (authorized (left tables conversation_id entries).relay _) (
        find-keep_other (λ r. str_eq r.record_id other) _
          (λ r. another r.record_id other conversation_id apart) tables.relay.conversations)
      ∙ authorized-same_devices _ tables.relay _ _ refl;
  other_pages = λ other apart cursor limit.
      ap (λ rows. first_items limit (sort_by sequence_le rows))
        (keep-keep_other (λ e. str_eq e.conversation_id other && ltb_ℤ cursor e.sequence) _
          (λ e h. another e.conversation_id other conversation_id apart (ground (arith, h)))
          tables.relay.events);
}

module _ (primitives : RelayPrimitives) (record_json : ConversationRecord → String)
    (decimal : ℕ → String) where
  pair_of : RelayTables × ℕ → Result RelayError (RelayTables × ℕ) → RelayTables × ℕ
  pair_of d (err e) = d
  pair_of d (ok p) = p

  deleted-Forgotten :
      (tables after : RelayTables) (conversation_id : String) (n : ℕ)
      (r : Result RelayError AuditTables)
      → deleted primitives record_json decimal
          (without_conversation tables conversation_id)
          (event_count tables conversation_id)
          r
        ≡ ok (after, n)
      → Forgotten tables after conversation_id n
  unfolding pair_of
  deleted-Forgotten tables after conversation_id n (err e) h = absurd (ground (arith, h))
  deleted-Forgotten tables after conversation_id n (ok entries) h =
      subst (λ (p : RelayTables × ℕ). Forgotten tables p.0 conversation_id p.1)
        (ap (pair_of (tables, n)) h) (left-Forgotten tables conversation_id entries)

  pub purge-Forgotten :
      (tables after : RelayTables) (conversation_id : String) (context : TransitionContext) (n : ℕ)
      → purge primitives record_json decimal tables conversation_id context ≡ ok (after, n)
      → Forgotten tables after conversation_id n
  unfolding purge
  purge-Forgotten tables after conversation_id context n h =
      deleted-Forgotten tables after conversation_id n _ h

  for-Forgotten :
      (tables after : RelayTables) (conversation_id : String) (context : TransitionContext) (n : ℕ)
      (r : Result RelayError Conversation)
      → delete_for primitives record_json decimal tables conversation_id context r ≡ ok (after, n)
      → Forgotten tables after conversation_id n
  for-Forgotten tables after conversation_id context n (err e) h = absurd (ground (arith, h))
  for-Forgotten tables after conversation_id context n (ok c) h =
      purge-Forgotten tables after conversation_id context n h

  -- After a conversation is deleted, no device reads it, none of its events or other canonical events is left,
  -- its retention rows are gone and the others stay, the number that is returned is that of the events that are gone, and every
  -- other conversation and its pages are as before.
  pub delete-Forgotten :
      (tables after : RelayTables) (conversation_id device_id : String)
      (context : TransitionContext) (n : ℕ)
      → delete primitives record_json decimal tables conversation_id device_id context
        ≡ ok (after, n)
      → Forgotten tables after conversation_id n
  unfolding delete
  delete-Forgotten tables after conversation_id device_id context n h =
      for-Forgotten tables after conversation_id context n _ h
