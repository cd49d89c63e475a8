-- ===== src/Relay/Retried/Known.antt =====
-- relay_store.py: the events of a batch that was appended are known, and are skipped when sent again.
use mathlib.Core.Path.{subst}
use mathlib.Core.List.{append-nil, append_assoc}
use personal_secretary.Prelude.{
  String, Bool, true, false, not, Option, none, some, List, [], ◌∷◌, ◌++◌, ◌&&◌, ◌||◌, ◌≡◌, refl,
  sym, ap, ◌∙◌, inl, inr, arith, Bool-cases, All, leb, ltb, str_eq, eq_iff, length, find,
}
use personal_secretary.Prelude.Results.{Result, err, ok}
use personal_secretary.Conversation.Events.{ConversationEvent}
use personal_secretary.Conversation.{ConversationJournal, accept}
use personal_secretary.Conversation.Accepted.{is_accepted}
use personal_secretary.Ledger.{TransitionContext}
use personal_secretary.Relay.{
  RelayError, RelayStore, RelayPrimitives, Batch, known_event, insert_event, recorded, take_event,
  append_event, then_batch, append_events, max_conversation_events, max_event_bytes, is_client_kind,
}

find-append {ℓ} :
    {A : Type ℓ} (test : A → Bool) (xs ys : List A) (x : A)
    → find test xs ≡ some x
    → find test (xs ++ ys) ≡ some x
unfolding find
find-append test [] ys x h = absurd (ground (arith, h))
find-append test (z ∷ zs) ys x h = elim (Bool-cases (test z)) [
  | inl e ↦ rw e (rw e at h)
  | inr e ↦ rw e (find-append test zs ys x (rw e at h))
]

find-append_one {ℓ} :
    {A : Type ℓ} (test : A → Bool) (xs : List A) (x : A)
    → find test xs ≡ none
    → test x ≡ true
    → find test (xs ++ x ∷ []) ≡ some x
unfolding find
find-append_one test [] x h passes = rw passes refl
find-append_one test (z ∷ zs) x h passes = elim (Bool-cases (test z)) [
  | inl e ↦ absurd (ground (arith, h, e))
  | inr e ↦ rw e (find-append_one test zs x (rw e at h) passes)
]

-- The tests before the lookup of an event.
abbrev foreign : String → ConversationEvent → Bool
foreign device_id event = not (str_eq event.device_id device_id && is_client_kind event.kind)

abbrev unfit : RelayPrimitives → ConversationEvent → Bool
unfit primitives event =
    not (primitives.is_aware event) || ltb max_event_bytes (primitives.event_bytes event)

module _ (primitives : RelayPrimitives)
    (same_refl : (e : ConversationEvent) → primitives.same_event e e ≡ true)
    (device_id : String) where
  -- The event is known, as it is.
  pub record Known (known : List ConversationEvent) (event : ConversationEvent) : Type 0 where
    ours : foreign device_id event ≡ false
    fit : unfit primitives event ≡ false
    found :
        (old : ConversationEvent) × (known_event event.event_id known ≡ some old)
        × (primitives.same_event event old ≡ true)

  pub Known-append :
      (known more : List ConversationEvent) (event : ConversationEvent)
      → Known known event
      → Known (known ++ more) event
  unfolding known_event
  Known-append known more event k = record {
    ours = k.ours;
    fit = k.fit;
    found = (
      k.found.0,
      find-append (λ e. str_eq e.event_id event.event_id) known more k.found.0 k.found.1,
      k.found.2,
    );
  }

  -- What a step of the loop does to the known events.
  abbrev Grows : Batch → Batch → Type 0
  Grows b c = (more : List ConversationEvent) × (c.known ≡ b.known ++ more)

  known_of : List ConversationEvent → Result RelayError Batch → List ConversationEvent
  known_of d (err e) = d
  known_of d (ok b) = b.known

  known_same : (b c : Batch) → ◌≡◌ {A = Result RelayError Batch} (ok b) (ok c) → b.known ≡ c.known
  unfolding known_of
  known_same b c h = ap (known_of []) h

  recorded-known :
      (b c : Batch) (journal : ConversationJournal) (event : ConversationEvent)
      (r : Result RelayError RelayStore)
      → recorded primitives b journal event r ≡ ok c
      → c.known ≡ b.known ++ event ∷ []
  recorded-known b c journal event (err e) h = absurd (ground (arith, h))
  recorded-known b c journal event (ok s) h = sym (known_same _ c h)

  take-Known :
      (context : TransitionContext) (b c : Batch) (event : ConversationEvent)
      (o : Option ConversationEvent)
      → known_event event.event_id b.known ≡ o
      → foreign device_id event ≡ false
      → unfit primitives event ≡ false
      → take_event primitives context b event o ≡ ok c
      → Grows b c × Known c.known event
  unfolding known_event
  take-Known context b c event (some old) found ours fit h =
      elim (Bool-cases (primitives.same_event event old)) [
        | inl e ↦
            let same = known_same b c (rw e at h) in
            (
              ([], sym same ∙ sym (append-nil b.known)),
              subst (λ known. Known known event) same
                  (record { ours = ours; fit = fit; found = (old, found, e) }),
            )
        | inr e ↦ absurd (ground (arith, h, e))
      ]
  take-Known context b c event none fresh ours fit h =
      elim (Bool-cases
        (leb max_conversation_events (length b.known) || not (is_accepted b.journal event))) [
          | inl e ↦ absurd (ground (arith, h, e))
          | inr e ↦
              let grown =
                recorded-known b c (accept b.journal event).0 event
                  (insert_event primitives b.store event context) (rw e at h) in
              (
                (event ∷ [], grown),
                subst (λ known. Known known event) (sym grown)
                    (record {
                      ours = ours;
                      fit = fit;
                      found = (
                        event,
                        find-append_one (λ e. str_eq e.event_id event.event_id) b.known event fresh
                            ((eq_iff event.event_id event.event_id).1 refl),
                        same_refl event,
                      );
                    }),
              )
        ]

  append_event-Known :
      (context : TransitionContext) (b c : Batch) (event : ConversationEvent)
      → append_event primitives device_id context b event ≡ ok c
      → Grows b c × Known c.known event
  unfolding append_event
  append_event-Known context b c event h = elim (Bool-cases (foreign device_id event)) [
    | inl f ↦ absurd (ground (arith, h, f))
    | inr f ↦ elim (Bool-cases (unfit primitives event)) [
      | inl o ↦ absurd (ground (arith, h, f, o))
      | inr o ↦
          take-Known context b c event (known_event event.event_id b.known) refl f o
            (rw (f, o) at h)
    ]
  ]

  then-cases :
      (context : TransitionContext) (rest : List ConversationEvent) (r : Result RelayError Batch)
      (c : Batch)
      → then_batch primitives r (append_events primitives device_id context rest) ≡ ok c
      → (b : Batch) × (r ≡ ok b) × (append_events primitives device_id context rest b ≡ ok c)
  then-cases context rest (err e) c h = absurd (ground (arith, h))
  then-cases context rest (ok b) c h = (b, refl, h)

  pub append_events-Known :
      (context : TransitionContext) (events : List ConversationEvent) (b c : Batch)
      → append_events primitives device_id context events b ≡ ok c
      → Grows b c × All (Known c.known) events
  unfolding append_events
  append_events-Known context [] b c h =
      (([], sym (known_same b c h) ∙ sym (append-nil b.known)), tt)
  append_events-Known context (event ∷ rest) b c h =
      let (d, first, later) =
        then-cases context rest (append_event primitives device_id context b event) c h in
      let step = append_event-Known context b d event first in
      let tail = append_events-Known context rest d c later in
      (
        (
          step.0.0 ++ tail.0.0,
          tail.0.1 ∙ ap (λ xs. xs ++ tail.0.0) step.0.1 ∙ append_assoc b.known step.0.0 tail.0.0,
        ),
        (
          subst (λ known. Known known event) (sym tail.0.1)
              (Known-append d.known tail.0.0 event step.1),
          tail.1,
        ),
      )

  again-event :
      (context : TransitionContext) (b : Batch) (event : ConversationEvent)
      → Known b.known event
      → append_event primitives device_id context b event ≡ ok b
  unfolding append_event
  again-event context b event k = rw (k.ours, k.fit, k.found.1, k.found.2) refl

  pub again-events :
      (context : TransitionContext) (events : List ConversationEvent) (b : Batch)
      → All (Known b.known) events
      → append_events primitives device_id context events b ≡ ok b
  unfolding append_events
  again-events context [] b h = refl
  again-events context (event ∷ rest) b h =
      rw (again-event context b event h.0) (again-events context rest b h.1)
