-- ===== src/Relay/Retried/Reading.antt =====
-- relay_store.py: the row of a conversation that is read.
use mathlib.Core.Path.{subst}
use personal_secretary.Prelude.{
  contains, String, Bool, true, Option, none, some, List, [], ◌∷◌, ◌≡◌, refl, sym, ap, ◌∙◌, inl,
  inr, arith, Bool-cases, str_eq, eq_iff, find,
}
use personal_secretary.Prelude.Results.{Result, err, ok}
use personal_secretary.Conversation.Events.{Conversation, ConversationDevice}
use personal_secretary.Relay.{
  ConversationRecord, authorized, conversation_of, RelayError, RelayStore, conversation,
}

record_or : ConversationRecord → Option ConversationRecord → ConversationRecord
record_or d none = d
record_or d (some r) = r

conversation_or : Conversation → Result RelayError Conversation → Conversation
conversation_or d (err e) = d
conversation_or d (ok c) = c

-- The record of a conversation that is read.
pub record Read (store : RelayStore) (conversation_id : String) (c : Conversation) : Type 0 where
  pub row : ConversationRecord
  pub found : find (λ r. str_eq r.record_id conversation_id) store.conversations ≡ some row
  pub same : conversation_of store row ≡ c

authorized-Read :
    (store : RelayStore) (conversation_id : String) (device : Option ConversationDevice)
    (o : Option ConversationRecord) (c : Conversation)
    → find (λ r. str_eq r.record_id conversation_id) store.conversations ≡ o
    → authorized store device o ≡ ok c
    → Read store conversation_id c
unfolding conversation_or
authorized-Read store conversation_id none o c found h = absurd (ground (arith, h))
authorized-Read store conversation_id (some device) none c found h = absurd (ground (arith, h))
authorized-Read store conversation_id (some device) (some r) c found h =
    elim (Bool-cases (contains device.participant_id r.participant_ids)) [
      | inl e ↦ record { row = r; found = found; same = ap (conversation_or c) (rw e at h) }
      | inr e ↦ absurd (ground (arith, h, e))
    ]

pub conversation-Read :
    (store : RelayStore) (conversation_id device_id : String) (c : Conversation)
    → conversation store conversation_id device_id ≡ ok c
    → Read store conversation_id c
unfolding conversation
conversation-Read store conversation_id device_id c h =
    authorized-Read store conversation_id _ _ c refl h

find-passes {ℓ} :
    {A : Type ℓ} (test : A → Bool) (xs : List A) (x : A) → find test xs ≡ some x → test x ≡ true
unfolding find
find-passes test [] x h = absurd (ground (arith, h))
find-passes test (y ∷ ys) x h = elim (Bool-cases (test y)) [
  | inl e ↦
      let found : some y ≡ some x = (rw e at h) in
      let same : y ≡ x = ground (arith, found) in subst (λ z. test z ≡ true) same e
  | inr e ↦ find-passes test ys x (rw e at h)
]

pub Read-id :
    (store : RelayStore) (conversation_id : String) (c : Conversation)
    → Read store conversation_id c
    → c.conversation_id ≡ conversation_id
unfolding conversation_of
Read-id store conversation_id c r =
    sym (ap (λ (x : Conversation). x.conversation_id) r.same)
    ∙ (eq_iff r.row.record_id conversation_id).0 (find-passes _ store.conversations r.row r.found)

pub Read-unique :
    (store : RelayStore) (a b : String) (c d : Conversation)
    → Read store a c
    → Read store b d
    → a ≡ b
    → c ≡ d
unfolding record_or
Read-unique store a b c d r s same =
    let rows : r.row ≡ s.row = ap (record_or r.row) (
      sym r.found
      ∙ ap (λ i. find (λ row. str_eq row.record_id i) store.conversations) same
      ∙ s.found) in
    sym r.same ∙ ap (conversation_of store) rows ∙ s.same
