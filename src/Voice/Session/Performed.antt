-- ===== src/Voice/Session/Performed.antt =====
-- voice/session.py: every method steps the sessions.
use personal_secretary.Prelude.{
  ℕ, String, Option, none, some, List, ◌++◌, ◌≡◌, refl, inl, inr, contains, any, map, str_eq, arith,
  Bool-cases,
}
use personal_secretary.Prelude.Int.{ℤ, pos, ◌+ℤ◌, ltb_ℤ, leb_ℤ}
use personal_secretary.Prelude.Results.{Result, err, ok}
use personal_secretary.Authority.Devices.{Device, DeviceError}
use personal_secretary.Voice.Models.{
  Bytes, VoiceEvent, VoiceError, SessionToken, AudioFrame, SessionStartRequest, ResumeResult,
  reconnect_window,
}
use personal_secretary.Voice.Tokens.{TokenRecord}
use personal_secretary.Voice.Emitter.{VoiceSessionState, emit_action_progress, voice, new_session}
use personal_secretary.Voice.Session.{
  VoiceSessionService, VoicePrimitives, MethodResult, get_session, save, session_or_missing,
  session_for_token, active_session, on_session, expire_session, ended_session,
  expire_disconnected_sessions,
}
use personal_secretary.Voice.Session.Start.{
  start, start_for, start_verified, started_session, is_active_on,
}
use personal_secretary.Voice.Session.Speech.{
  append_audio, append_audio_to, accept_partial, finalize, finalize_in,
}
use personal_secretary.Voice.Session.Output.{
  queue_tts, queue_tts_in, queue_action_progress, queue_action_progress_in, barge_in, barge_in_on,
  cancelling, interrupted,
}
use personal_secretary.Voice.Session.Reconnect.{
  disconnect, disconnect_at, resume, resume_token, resume_verified, resume_disconnected,
  reconnected, end, end_session,
}
use personal_secretary.Voice.Session.Operations.{Operation, opens, perform}
use personal_secretary.Voice.Session.Follows.{
  Follows, kept-Follows, Follows-trans, emit_cancellation-Follows, on_session-cases,
  session_for_token-found, active_session-found, session_or_missing-found,
}
use personal_secretary.Voice.Session.Steps.{
  SessionStep, Steps, Found, emitted-Steps, partial-Steps, audio-Steps, finalize_turn-Steps,
}

module _ (primitives : VoicePrimitives) (opened : Option String) where
  append_audio-Steps :
      (service : VoiceSessionService) (s : VoiceSessionState) (frame : AudioFrame)
      → Found service s
      → Steps opened service (append_audio_to primitives frame service s).0
  unfolding append_audio_to
  append_audio-Steps service s frame found =
      elim (Bool-cases (leb_ℤ frame.event_id s.last_client_event_id)) [
        | inl e ↦ rw e (SessionStep.same service.sessions)
        | inr e ↦ rw e (audio-Steps primitives opened service s frame s.provider_handle found)
      ]

  queue_tts-Steps :
      (service : VoiceSessionService) (s : VoiceSessionState) (turn : String) (pcm : Bytes)
      → Found service s
      → Steps opened service (queue_tts_in primitives turn pcm service s).0
  unfolding queue_tts_in save
  queue_tts-Steps service s turn pcm found = elim (Bool-cases (contains turn s.cancelled_turns)) [
    | inl e ↦ rw e (SessionStep.same service.sessions)
    | inr e ↦
        rw e (SessionStep.changed service.sessions s _ found (kept-Follows s _ refl refl refl refl))
  ]

  queue_progress-Steps :
      (service : VoiceSessionService) (s : VoiceSessionState) (turn text : String)
      → Found service s
      → Steps opened service (queue_action_progress_in primitives turn text service s).0
  unfolding queue_action_progress_in save emit_action_progress voice
  queue_progress-Steps service s turn text found =
      elim (Bool-cases (contains turn s.cancelled_turns)) [
        | inl e ↦ rw e (SessionStep.same service.sessions)
        | inr e ↦
            rw e (
              SessionStep.changed service.sessions s _ found (kept-Follows s _ refl refl refl refl))
      ]

  -- A method of an active session.
  active-Steps :
      {A : Type 0} (service : VoiceSessionService) (value : String) (now : ℤ)
      (act : VoiceSessionState → MethodResult A)
      → ((s : VoiceSessionState) → Found service s → Steps opened service (act s).0)
      → Steps opened service
          (on_session service
            (active_session primitives service value now)
            act
            (λ e. (service, err e))).0
  active-Steps service value now act done =
      on_session-cases (λ o. Steps opened service o.0) service
        (active_session primitives service value now) act (λ e. (service, err e))
        (λ e. SessionStep.same service.sessions)
        (λ s found. done s (active_session-found primitives service value now s found))

  interrupted-Follows :
      (s : VoiceSessionState) (turn : String) → Follows s (interrupted primitives turn s)
  unfolding interrupted contains
  interrupted-Follows s turn = record {
    session_id = refl;
    request = refl;
    ended = λ h. h;
    cancelled = λ other h. elim (Bool-cases (contains turn s.cancelled_turns)) [
      | inl e ↦ rw e h
      | inr e ↦ rw e (ground (arith, h))
    ];
  }

  barge_in-Steps :
      (service : VoiceSessionService) (s : VoiceSessionState) (later : ℤ) (turn : String)
      → Found service s
      → Steps opened service (barge_in_on primitives later turn service s).0
  unfolding barge_in_on
  barge_in-Steps service s later turn found =
      emitted-Steps opened
        (record service {
          provider_calls = service.provider_calls ++ cancelling primitives s.provider_handle;
        })
        s (λ t. t) _ found (λ t. kept-Follows t t refl refl refl refl)
        (Follows-trans s (interrupted primitives turn s) _ (interrupted-Follows s turn) (
          emit_cancellation-Follows primitives.event later service.emitter
            (interrupted primitives turn s) turn "barge_in"))

  reconnected-Steps :
      (service : VoiceSessionService) (s : VoiceSessionState) (last : ℕ)
      (replaced : List TokenRecord × Result VoiceError SessionToken)
      → Found service s
      → Steps opened service (reconnected primitives last service s replaced).0
  unfolding save
  reconnected-Steps service s last (tokens, err e) found = SessionStep.same service.sessions
  reconnected-Steps service s last (tokens, ok token) found =
      SessionStep.changed service.sessions s _ found (kept-Follows s _ refl refl refl refl)

  resume_disconnected-Steps :
      (service : VoiceSessionService) (s : VoiceSessionState) (now : ℤ) (nonce : Bytes)
      (value device_id : String) (last : ℕ) (old : SessionToken) (at : Option ℤ)
      → Found service s
      → Steps opened service
          (resume_disconnected primitives now nonce value device_id last service old s at).0
  resume_disconnected-Steps service s now nonce value device_id last old none found =
      SessionStep.same service.sessions
  resume_disconnected-Steps service s now nonce value device_id last old (some at) found =
      elim (Bool-cases (str_eq device_id old.device_id)) [
        | inl e ↦ elim (Bool-cases (ltb_ℤ (at +ℤ pos reconnect_window) now)) [
          | inl l ↦ rw (e, l) (SessionStep.same service.sessions)
          | inr l ↦ rw (e, l) (reconnected-Steps service s last _ found)
        ]
        | inr e ↦ rw e (SessionStep.same service.sessions)
      ]

  resume_verified-Steps :
      (service : VoiceSessionService) (s : VoiceSessionState) (now : ℤ) (nonce : Bytes)
      (value device_id : String) (last : ℕ) (old : SessionToken)
      (verified : Result DeviceError Device)
      → Found service s
      → Steps opened service
          (resume_verified primitives now nonce value device_id last service old s verified).0
  resume_verified-Steps service s now nonce value device_id last old (err e) found =
      SessionStep.same service.sessions
  resume_verified-Steps service s now nonce value device_id last old (ok device) found =
      resume_disconnected-Steps service s now nonce value device_id last old s.disconnected_at found

  resume_token-Steps :
      (service : VoiceSessionService) (now : ℤ) (nonce : Bytes)
      (value device_id fingerprint : String) (last : ℕ) (token : Result VoiceError SessionToken)
      → Steps opened service
          (resume_token primitives now nonce value device_id fingerprint last service token).0
  resume_token-Steps service now nonce value device_id fingerprint last (err e) =
      SessionStep.same service.sessions
  resume_token-Steps service now nonce value device_id fingerprint last (ok old) =
      on_session-cases (λ (o : MethodResult ResumeResult). Steps opened service o.0) service
        (session_or_missing (get_session old.session_id service.sessions)) _ _
        (λ e. SessionStep.same service.sessions)
        (λ s found.
          resume_verified-Steps service s now nonce value device_id last old _
            (session_or_missing-found old.session_id service.sessions _ s refl found))

  end-Steps :
      (service : VoiceSessionService) (s : VoiceSessionState) (value : String)
      → Found service s
      → Steps opened service (end_session primitives value service s).0
  unfolding end_session save ended_session
  end-Steps service s value found =
      SessionStep.changed service.sessions s _ found
        (record { session_id = refl; request = refl; ended = λ h. refl; cancelled = λ turn h. h })

  start-Steps :
      (service : VoiceSessionService) (now : ℤ) (session_id : String) (nonce : Bytes)
      (request : SessionStartRequest) (verified : Result DeviceError Device)
      → opened ≡ some session_id
      → Steps opened service (start_for primitives now session_id nonce request service verified).0
  unfolding start_verified started_session expire_disconnected_sessions new_session
  start-Steps service now session_id nonce request (err e) drawn = SessionStep.same service.sessions
  start-Steps service now session_id nonce request (ok device) drawn =
      elim (Bool-cases
        (any (is_active_on request.device_id) (map (expire_session now) service.sessions))) [
          | inl e ↦ rw e (SessionStep.expired now service.sessions)
          | inr e ↦ rw e (SessionStep.started now service.sessions _ e drawn)
        ]

module _ (primitives : VoicePrimitives) where
  -- Every call steps the sessions.
  pub perform-Steps :
      (op : Operation) (service : VoiceSessionService)
      → Steps (opens op) service (perform primitives op service)
  unfolding start append_audio accept_partial finalize finalize_in queue_tts queue_action_progress
      barge_in disconnect disconnect_at resume end save
  perform-Steps (Operation.start now session_id nonce request) service =
      start-Steps primitives (some session_id) service now session_id nonce request _ refl
  perform-Steps (Operation.append_audio now value frame) service =
      active-Steps primitives none service value now _
        (λ s found. append_audio-Steps primitives none service s frame found)
  perform-Steps (Operation.accept_partial now later value turn text) service =
      active-Steps primitives none service value now _
        (λ s found. partial-Steps primitives none service s later turn text found)
  perform-Steps (Operation.finalize now later value turn text) service =
      active-Steps primitives none service value now _
        (λ s found. finalize_turn-Steps primitives none service s later turn text _ found)
  perform-Steps (Operation.queue_tts now value turn pcm) service =
      active-Steps primitives none service value now _
        (λ s found. queue_tts-Steps primitives none service s turn pcm found)
  perform-Steps (Operation.queue_action_progress now value turn text) service =
      active-Steps primitives none service value now _
        (λ s found. queue_progress-Steps primitives none service s turn text found)
  perform-Steps (Operation.barge_in now later value turn) service =
      active-Steps primitives none service value now _
        (λ s found. barge_in-Steps primitives none service s later turn found)
  perform-Steps (Operation.disconnect now later value) service =
      active-Steps primitives none service value now _ (λ s found.
        SessionStep.changed service.sessions s _ found (kept-Follows s _ refl refl refl refl))
  perform-Steps (Operation.resume now nonce value device_id fingerprint last) service =
      resume_token-Steps primitives none service now nonce value device_id fingerprint last _
  perform-Steps (Operation.end now value) service =
      on_session-cases (λ (o : MethodResult (Option VoiceEvent)). Steps none service o.0) service
        (session_for_token primitives service value now) _ _
        (λ e. SessionStep.same service.sessions)
        (λ s found.
          end-Steps primitives none service s value
            (session_for_token-found primitives service value now s found))
  perform-Steps (Operation.configure devices consent) service = SessionStep.same service.sessions
