-- ===== src/Voice/Session/Follows.antt =====
-- voice/session.py, voice/state.py: what no method changes in a session, and the steps of the sessions.
use mathlib.Core.Path.{subst}
use personal_secretary.Prelude.{
  String, true, Option, none, some, List, [], ◌∷◌, ◌≡◌, refl, sym, inl, inr, ◌∙◌, contains, str_eq,
  eq_iff, arith, Bool-cases,
}
use personal_secretary.Prelude.Int.{ℤ}
use personal_secretary.Prelude.Results.{Result, err, ok}
use personal_secretary.Conversation.Events.{ConversationEventPayload}
use personal_secretary.Conversation.{ConversationJournal, ConversationAcceptance, accept}
use personal_secretary.Voice.Models.{VoiceEvent, VoiceError, SessionToken}
use personal_secretary.Voice.Emitter.{
  VoiceSessionState, ConversationVoiceEmitter, EventPrimitives, canonical, canonical_for, judged,
  emit_partial, emit_final, emit_cancellation, conversation_event, voice,
}
use personal_secretary.Voice.Session.{
  VoiceSessionService, VoicePrimitives, get_session, session_of, session_or_missing, connected,
  session_for_token, active_session, on_session,
}

-- A later state of one session.
pub record Follows (s t : VoiceSessionState) : Type 0 where
  pub session_id : t.session_id ≡ s.session_id
  pub request : t.request ≡ s.request
  pub ended : s.ended ≡ true → t.ended ≡ true
  pub cancelled :
      (turn : String)
      → contains turn s.cancelled_turns ≡ true
      → contains turn t.cancelled_turns ≡ true

-- What keeps the four fields follows.
pub kept-Follows :
    (s t : VoiceSessionState)
    → t.session_id ≡ s.session_id
    → t.request ≡ s.request
    → t.ended ≡ s.ended
    → t.cancelled_turns ≡ s.cancelled_turns
    → Follows s t
kept-Follows s t id request ended cancelled = record {
  session_id = id;
  request = request;
  ended = λ h. ended ∙ h;
  cancelled = λ turn h. subst (λ turns. contains turn turns ≡ true) (sym cancelled) h;
}

pub Follows-trans : (s t u : VoiceSessionState) → Follows s t → Follows t u → Follows s u
Follows-trans s t u f g = record {
  session_id = g.session_id ∙ f.session_id;
  request = g.request ∙ f.request;
  ended = λ h. g.ended (f.ended h);
  cancelled = λ turn h. g.cancelled turn (f.cancelled turn h);
}

module _ (primitives : EventPrimitives) where
  judged-Follows :
      (e : ConversationVoiceEmitter) (s : VoiceSessionState) (event : VoiceEvent)
      (verdict : ConversationJournal × ConversationAcceptance)
      → Follows s (judged primitives e s event verdict).0.1
  judged-Follows e s event (journal, acceptance) = elim (Bool-cases acceptance.accepted) [
    | inl h ↦ rw h (kept-Follows s s refl refl refl refl)
    | inr h ↦ rw h (kept-Follows s _ refl refl refl refl)
  ]

  canonical-Follows :
      (now : ℤ) (e : ConversationVoiceEmitter) (s : VoiceSessionState) (event : VoiceEvent)
      (payload : ConversationEventPayload) (device_id : Option String)
      → Follows s (canonical_for primitives now (e, s) event payload device_id).0.1
  canonical-Follows now e s event payload none = kept-Follows s s refl refl refl refl
  canonical-Follows now e s event payload (some device_id) =
      judged-Follows e s event
        (accept e.journal (conversation_event primitives now e s event payload device_id))

  pub emit_partial-Follows :
      (now : ℤ) (e : ConversationVoiceEmitter) (s : VoiceSessionState) (turn text : String)
      → Follows s (emit_partial primitives now e s turn text).0.1
  unfolding emit_partial canonical voice
  emit_partial-Follows now e s turn text =
      Follows-trans s _ _ (kept-Follows s _ refl refl refl refl)
        (canonical-Follows now _ _ _ _ (primitives.parse_uuid s.request.device_id))

  pub emit_final-Follows :
      (now : ℤ) (e : ConversationVoiceEmitter) (s : VoiceSessionState) (turn text : String)
      → Follows s (emit_final primitives now e s turn text).0.1
  unfolding emit_final canonical voice
  emit_final-Follows now e s turn text =
      Follows-trans s _ _ (kept-Follows s _ refl refl refl refl)
        (canonical-Follows now _ _ _ _ (primitives.parse_uuid s.request.device_id))

  pub emit_cancellation-Follows :
      (now : ℤ) (e : ConversationVoiceEmitter) (s : VoiceSessionState) (turn text : String)
      → Follows s (emit_cancellation primitives now e s turn text).0.1
  unfolding emit_cancellation canonical voice
  emit_cancellation-Follows now e s turn text =
      Follows-trans s _ _ (kept-Follows s _ refl refl refl refl)
        (canonical-Follows now _ _ _ _ (primitives.parse_uuid s.request.device_id))

-- A method that finds no session changes nothing; else it goes on with a session of the service.
pub get_session-id :
    (k : String) (ss : List VoiceSessionState) (s : VoiceSessionState)
    → get_session k ss ≡ some s
    → s.session_id ≡ k
unfolding get_session
get_session-id k [] s h = ground arith
get_session-id k (t ∷ ts) s h = elim (Bool-cases (str_eq t.session_id k)) [
  | inl e ↦
      let found : some t ≡ some s = (rw e at h) in
      let same : t ≡ s = ground (arith, found) in
      subst (λ u. u.session_id ≡ k) same ((eq_iff t.session_id k).0 e)
  | inr e ↦ get_session-id k ts s (rw e at h)
]

ok_injective : (t s : VoiceSessionState) → session_or_missing (some t) ≡ ok s → t ≡ s
ok_injective t s h = ground (arith, h)

pub session_or_missing-found :
    (k : String) (ss : List VoiceSessionState) (o : Option VoiceSessionState)
    (s : VoiceSessionState)
    → get_session k ss ≡ o
    → session_or_missing o ≡ ok s
    → get_session s.session_id ss ≡ some s
session_or_missing-found k ss none s h found = ground (arith, found)
session_or_missing-found k ss (some t) s h found =
    let same : t ≡ s = ok_injective t s found in
    subst (λ u. get_session u.session_id ss ≡ some u) same
      (subst (λ i. get_session i ss ≡ some t) (sym (get_session-id k ss t h)) h)

session_of-found :
    (service : VoiceSessionService) (token : Result VoiceError SessionToken) (s : VoiceSessionState)
    → session_of service token ≡ ok s
    → get_session s.session_id service.sessions ≡ some s
session_of-found service (err e) s found = ground (arith, found)
session_of-found service (ok token) s found =
    session_or_missing-found token.session_id service.sessions
      (get_session token.session_id service.sessions) s refl found

connected-found :
    (r : Result VoiceError VoiceSessionState) (s : VoiceSessionState)
    → connected r ≡ ok s
    → r ≡ ok s
connected-found (err e) s found = found
connected-found (ok t) s found = ground (arith, found)

-- A method on a session has what holds of its failure and of its work on a session of the service.
pub on_session-cases {ℓ κ} :
    {A : Type ℓ} (P : A → Type κ) (service : VoiceSessionService)
    (r : Result VoiceError VoiceSessionState) (act : VoiceSessionState → A) (fail : VoiceError → A)
    → ((e : VoiceError) → P (fail e))
    → ((s : VoiceSessionState) → r ≡ ok s → P (act s))
    → P (on_session service r act fail)
on_session-cases P service (err e) act fail failed done = failed e
on_session-cases P service (ok s) act fail failed done = done s refl

module _ (primitives : VoicePrimitives) where
  pub session_for_token-found :
      (service : VoiceSessionService) (value : String) (now : ℤ) (s : VoiceSessionState)
      → session_for_token primitives service value now ≡ ok s
      → get_session s.session_id service.sessions ≡ some s
  unfolding session_for_token
  session_for_token-found service value now s found = session_of-found service _ s found

  pub active_session-found :
      (service : VoiceSessionService) (value : String) (now : ℤ) (s : VoiceSessionState)
      → active_session primitives service value now ≡ ok s
      → get_session s.session_id service.sessions ≡ some s
  unfolding active_session
  active_session-found service value now s found =
      session_for_token-found service value now s (connected-found _ s found)
