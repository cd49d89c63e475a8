-- ===== src/Voice/Session/Reconnect.antt =====
-- voice/session.py: disconnection, resumption, the snapshot and the end.
use personal_secretary.Prelude.{
  ℕ, String, not, Option, none, some, List, ◌++◌, str_eq, keep, ltb, length, if◌then◌else◌,
}
use personal_secretary.Prelude.Int.{ℤ, pos, ◌+ℤ◌, ltb_ℤ}
use personal_secretary.Prelude.Results.{Result, err, ok}
use personal_secretary.Authority.Devices.{Device, DeviceError, verify_mtls_identity}
use personal_secretary.Voice.Models.{
  Bytes, VoiceEvent, VoiceError, SessionToken, ResumeResult, SessionSnapshot, reconnect_window,
}
use personal_secretary.Voice.Tokens.{TokenRecord, verify_for_resume, replace_token, invalidate}
use personal_secretary.Voice.Emitter.{VoiceSessionState}
use personal_secretary.Voice.Session.{
  VoiceSessionService, VoicePrimitives, get_session, save, session_or_missing, session_for_token,
  active_session, on_session, closing, ended_session, MethodResult,
}

module _ (primitives : VoicePrimitives) where
  unfoldable pub disconnect_at :
      ℤ → VoiceSessionService → VoiceSessionState → MethodResult (Option VoiceEvent)
  disconnect_at later service session =
      (save service service.emitter (record session { disconnected_at = some later }), ok none)

  unfoldable pub disconnect :
      ℤ → ℤ → String → VoiceSessionService → MethodResult (Option VoiceEvent)
  disconnect now later token_value service =
      on_session service (active_session primitives service token_value now)
        (disconnect_at later service) (λ e. (service, err e))

  -- `resume` after the token has been replaced.
  abbrev pub reconnected :
      ℕ
      → VoiceSessionService
      → VoiceSessionState
      → List TokenRecord × Result VoiceError SessionToken
      → MethodResult ResumeResult
  reconnected last_event_id service session (tokens, err e) =
      (record service { tokens = tokens }, err e)
  reconnected last_event_id service session (tokens, ok replacement) = (
    record (save service service.emitter (record session { disconnected_at = none })) {
      tokens = tokens;
    },
    ok (record {
      token = replacement;
      replayed_events = keep (λ event. ltb last_event_id event.event_id) session.events;
    }),
  )

  abbrev pub resume_disconnected :
      ℤ
      → Bytes
      → String
      → String
      → ℕ
      → VoiceSessionService
      → SessionToken
      → VoiceSessionState
      → Option ℤ
      → MethodResult ResumeResult
  resume_disconnected now nonce token_value device_id last_event_id service old session none =
      (service, err (VoiceError.access "voice reconnect identity mismatch"))
  resume_disconnected now nonce token_value device_id last_event_id service old session (some at) =
      let after =
        reconnected last_event_id service session
          (replace_token primitives.token nonce service.tokens token_value now) in
      if not (str_eq device_id old.device_id)
      then (service, err (VoiceError.access "voice reconnect identity mismatch"))
      else if ltb_ℤ (at +ℤ pos reconnect_window) now
      then (service, err (VoiceError.access "voice reconnect window expired"))
      else after

  abbrev pub resume_verified :
      ℤ
      → Bytes
      → String
      → String
      → ℕ
      → VoiceSessionService
      → SessionToken
      → VoiceSessionState
      → Result DeviceError Device
      → MethodResult ResumeResult
  resume_verified now nonce token_value device_id last_event_id service old session (err e) =
      (service, err (VoiceError.device e))
  resume_verified now nonce token_value device_id last_event_id service old session (ok device) =
      resume_disconnected now nonce token_value device_id last_event_id service old session
        session.disconnected_at

  abbrev pub resume_token :
      ℤ
      → Bytes
      → String
      → String
      → String
      → ℕ
      → VoiceSessionService
      → Result VoiceError SessionToken
      → MethodResult ResumeResult
  resume_token now nonce token_value device_id fingerprint last_event_id service (err e) =
      (service, err e)
  resume_token now nonce token_value device_id fingerprint last_event_id service (ok old) =
      on_session service (session_or_missing (get_session old.session_id service.sessions))
        (λ session.
          resume_verified now nonce token_value device_id last_event_id service old session
            (verify_mtls_identity service.devices device_id fingerprint))
        (λ e. (service, err e))

  unfoldable pub resume :
      ℤ → Bytes → String → String → String → ℕ → VoiceSessionService → MethodResult ResumeResult
  resume now nonce token_value device_id fingerprint last_event_id service =
      resume_token now nonce token_value device_id fingerprint last_event_id service
        (verify_for_resume primitives.token service.tokens token_value)

  unfoldable pub snapshot_of : VoiceSessionService → VoiceSessionState → SessionSnapshot
  snapshot_of service session = record {
    retained_audio_bytes = 0;
    queued_tts_bytes = length session.queued_tts;
    queued_action_progress = length session.action_progress;
    next_event_id = service.emitter.next_event_id;
  }

  unfoldable pub snapshot : ℤ → String → VoiceSessionService → Result VoiceError SessionSnapshot
  snapshot now token_value service =
      on_session service (session_for_token primitives service token_value now)
        (λ session. ok (snapshot_of service session)) (λ e. err e)

  unfoldable pub end_session :
      String → VoiceSessionService → VoiceSessionState → MethodResult (Option VoiceEvent)
  end_session token_value service session = (
    record (save service service.emitter (ended_session session)) {
      provider_calls = service.provider_calls ++ closing session.provider_handle;
      tokens = invalidate primitives.token service.tokens token_value;
    },
    ok none,
  )

  unfoldable pub end : ℤ → String → VoiceSessionService → MethodResult (Option VoiceEvent)
  end now token_value service =
      on_session service (session_for_token primitives service token_value now)
        (end_session token_value service) (λ e. (service, err e))
