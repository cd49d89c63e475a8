-- ===== src/Voice/Session/Silenced.antt =====
-- voice/session.py: a turn after its barge-in.
use mathlib.Core.Path.{subst}
use personal_secretary.Prelude.{
  String, true, Option, none, some, List, [], ◌∷◌, ◌++◌, ◌≡◌, ◌≢◌, refl, sym, inl, inr, ◌∙◌, map,
  str_eq, eq_iff, contains, arith, Bool-cases, All,
}
use personal_secretary.Prelude.Int.{ℤ}
use personal_secretary.Prelude.Results.{err, ok}
use personal_secretary.Voice.Models.{Bytes, VoiceError}
use personal_secretary.Voice.Emitter.{VoiceSessionState, Emission, emit_cancellation}
use personal_secretary.Voice.Session.{
  VoiceSessionService, VoicePrimitives, get_session, put_session, expire_session, active_session,
  emitted, save,
}
use personal_secretary.Voice.Session.Speech.{accept_partial, accept_partial_in}
use personal_secretary.Voice.Session.Output.{
  queue_tts, queue_tts_in, queue_action_progress, queue_action_progress_in, barge_in, barge_in_on,
  interrupted, cancelling,
}
use personal_secretary.Voice.Session.Operations.{Operation, opens, perform, perform_all}
use personal_secretary.Voice.Session.Follows.{emit_cancellation-Follows, active_session-found}
use personal_secretary.Voice.Session.Steps.{SessionStep}
use personal_secretary.Voice.Session.Performed.{perform-Steps}
use personal_secretary.Voice.Session.Stored.{get-put_same, get-put_other, get-expired}

-- The session of this id has cancelled the turn.
abbrev Cancelled : String → String → List VoiceSessionState → Type 0
Cancelled k turn ss =
    (t : VoiceSessionState) → get_session k ss ≡ some t → contains turn t.cancelled_turns ≡ true

put-Cancelled :
    (k turn : String) (s : VoiceSessionState) (ss : List VoiceSessionState)
    → s.session_id ≡ k
    → contains turn s.cancelled_turns ≡ true
    → Cancelled k turn (put_session s ss)
put-Cancelled k turn s ss id h t found =
    let both : some s ≡ some t = sym (get-put_same k s ss id) ∙ found in
    let same : s ≡ t = ground (arith, both) in
    subst (λ u. contains turn u.cancelled_turns ≡ true) same h

expired-Cancelled :
    (k turn : String) (now : ℤ) (ss : List VoiceSessionState)
    → Cancelled k turn ss
    → Cancelled k turn (map (expire_session now) ss)
expired-Cancelled k turn now ss h t found =
    let (s, before, follows) = get-expired now k ss t found in follows.cancelled turn (h s before)

step-Cancelled :
    (k turn : String) (opened : Option String) (ss ts : List VoiceSessionState)
    → opened ≢ some k
    → SessionStep opened ss ts
    → Cancelled k turn ss
    → Cancelled k turn ts
step-Cancelled k turn opened _ _ other (SessionStep.same ss) h = h
step-Cancelled k turn opened _ _ other (SessionStep.changed ss s t found follows) h =
    elim (Bool-cases (str_eq t.session_id k)) [
      | inl e ↦
          let id = (eq_iff t.session_id k).0 e in
          let before = subst (λ i. get_session i ss ≡ some s) (sym follows.session_id ∙ id) found in
          put-Cancelled k turn t ss id (follows.cancelled turn (h s before))
      | inr e ↦ λ u later.
          h u (sym (get-put_other k t ss (λ id. cc (e, (eq_iff t.session_id k).1 id))) ∙ later)
    ]
step-Cancelled k turn opened _ _ other (SessionStep.expired now ss) h =
    expired-Cancelled k turn now ss h
step-Cancelled k turn opened _ _ other (SessionStep.started now ss s idle drawn) h = λ u later.
    expired-Cancelled k turn now ss h u (
      sym (
        get-put_other k s (map (expire_session now) ss)
          (λ id. other (drawn ∙ subst (λ i. some s.session_id ≡ some i) id refl)))
      ∙ later)

module _ (primitives : VoicePrimitives) where
  performed-Cancelled :
      (k turn : String) (ops : List Operation) (service : VoiceSessionService)
      → All (λ op. opens op ≢ some k) ops
      → Cancelled k turn service.sessions
      → Cancelled k turn (perform_all primitives ops service).sessions
  unfolding perform_all
  performed-Cancelled k turn [] service others h = h
  performed-Cancelled k turn (op ∷ ops) service others h =
      performed-Cancelled k turn ops (perform primitives op service) others.1 (
        step-Cancelled k turn (opens op) service.sessions _ others.0
          (perform-Steps primitives op service) h)

  emitted-put :
      (service : VoiceSessionService) (emission : Emission)
      → (emitted service (λ s. s) emission).0.sessions ≡ put_session emission.0.1 service.sessions
  unfolding save
  emitted-put service ((e, s), err x) = refl
  emitted-put service ((e, s), ok event) = refl

  interrupted-cancelled :
      (s : VoiceSessionState) (turn : String)
      → contains turn (interrupted primitives turn s).cancelled_turns ≡ true
  unfolding interrupted contains
  interrupted-cancelled s turn = elim (Bool-cases (contains turn s.cancelled_turns)) [
    | inl e ↦ rw e e
    | inr e ↦ rw (e, (eq_iff turn turn).1 refl) refl
  ]

  barge_in-Cancelled :
      (service : VoiceSessionService) (now later : ℤ) (value turn : String) (s : VoiceSessionState)
      → active_session primitives service value now ≡ ok s
      → Cancelled s.session_id turn (barge_in primitives now later value turn service).0.sessions
  unfolding barge_in barge_in_on interrupted
  barge_in-Cancelled service now later value turn s active =
      let cut = interrupted primitives turn s in
      let emission = emit_cancellation primitives.event later service.emitter cut turn "barge_in" in
      let follows =
        emit_cancellation-Follows primitives.event later service.emitter cut turn "barge_in" in
      let kept =
        put-Cancelled s.session_id turn emission.0.1 service.sessions follows.session_id
          (follows.cancelled turn (interrupted-cancelled s turn)) in
      rw active (
        subst (Cancelled s.session_id turn)
          (sym (
            emitted-put
              (record service {
                provider_calls = service.provider_calls ++ cancelling primitives s.provider_handle;
              })
              emission))
          kept)

  cancelled_silent :
      (service : VoiceSessionService) (t : VoiceSessionState) (now later : ℤ)
      (value turn text : String) (pcm : Bytes)
      → active_session primitives service value now ≡ ok t
      → contains turn t.cancelled_turns ≡ true
      → (queue_tts primitives now value turn pcm service ≡ (service, ok none))
        × (queue_action_progress primitives now value turn text service ≡ (service, ok none))
        × (accept_partial primitives now later value turn text service
            ≡ (service, err (VoiceError.order "partial received for a closed turn")))
  unfolding queue_tts queue_tts_in queue_action_progress queue_action_progress_in accept_partial
      accept_partial_in
  cancelled_silent service t now later value turn text pcm active h =
      (rw (active, h) refl, rw (active, h) refl, rw (active, h) refl)

  -- After a barge-in on a turn, and any further calls that draw no session id a second time, a token
  -- of the same session queues no speech and no progress for the turn and adds no partial transcript
  -- of it: the service stays as it is.
  pub barge_in_silences :
      (service : VoiceSessionService) (now later : ℤ) (value turn : String) (s : VoiceSessionState)
      (ops : List Operation) (moment moment_later : ℤ) (token text : String) (pcm : Bytes)
      (t : VoiceSessionState)
      → let after =
          perform_all primitives ops (barge_in primitives now later value turn service).0 in
        active_session primitives service value now ≡ ok s
        → All (λ op. opens op ≢ some s.session_id) ops
        → active_session primitives after token moment ≡ ok t
        → t.session_id ≡ s.session_id
        → (queue_tts primitives moment token turn pcm after ≡ (after, ok none))
          × (queue_action_progress primitives moment token turn text after ≡ (after, ok none))
          × (accept_partial primitives moment moment_later token turn text after
              ≡ (after, err (VoiceError.order "partial received for a closed turn")))
  barge_in_silences service now later value turn s ops moment moment_later token text pcm t active
        fresh again same =
      let interrupted_service = (barge_in primitives now later value turn service).0 in
      let after = perform_all primitives ops interrupted_service in
      let cancelled =
        performed-Cancelled s.session_id turn ops interrupted_service fresh
          (barge_in-Cancelled service now later value turn s active) in
      let found =
        subst (λ i. get_session i after.sessions ≡ some t) same
          (active_session-found primitives after token moment t again) in
      cancelled_silent after t moment moment_later token turn text pcm again (cancelled t found)
