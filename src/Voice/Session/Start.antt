-- ===== src/Voice/Session/Start.antt =====
-- voice/session.py: the start of a session.
use personal_secretary.Prelude.{
  String, Bool, not, Option, List, [], ◌∷◌, ◌++◌, ◌&&◌, str_eq, any, if◌then◌else◌,
}
use personal_secretary.Prelude.Int.{ℤ}
use personal_secretary.Prelude.Results.{Result, err, ok}
use personal_secretary.Authority.Devices.{Device, DeviceError, verify_mtls_identity}
use personal_secretary.Voice.Models.{
  Bytes, VoiceError, SessionMode, SessionStartRequest, SessionStartResult,
}
use personal_secretary.Voice.Privacy.{ProviderCall, start_provider_session}
use personal_secretary.Voice.Tokens.{issue_token}
use personal_secretary.Voice.Transcripts.{latest_context}
use personal_secretary.Voice.Emitter.{VoiceSessionState, new_session}
use personal_secretary.Voice.Session.{
  VoiceSessionService, VoicePrimitives, put_session, MethodResult, expire_disconnected_sessions,
}

abbrev pub is_active_on : String → VoiceSessionState → Bool
is_active_on device_id session = str_eq session.request.device_id device_id && not session.ended

module _ (primitives : VoicePrimitives) where
  -- `start` from the call of the provider on.
  unfoldable pub started_session :
      ℤ
      → String
      → Bytes
      → SessionStartRequest
      → VoiceSessionService
      → List ProviderCall × SessionMode × Option String × String
      → VoiceSessionService × SessionStartResult
  started_session now session_id nonce request service (calls, mode, handle, reason) =
      let session = new_session session_id request mode handle in
      let (tokens, token) =
        issue_token primitives.token nonce service.tokens session_id request.device_id now in
      (
        record service {
          sessions = put_session session service.sessions;
          tokens = tokens;
          provider_calls = service.provider_calls ++ calls;
          logs =
              service.logs
              ++ record {
                event = "voice_session_start";
                session_id = session_id;
                device_id = request.device_id;
                byte_count = 0;
              }
                ∷ [];
        },
        record { token = token; mode = mode; reason = reason },
      )

  -- `start` after the check of the device, on the sessions that have not expired.
  unfoldable pub start_verified :
      ℤ
      → String
      → Bytes
      → SessionStartRequest
      → VoiceSessionService
      → MethodResult SessionStartResult
  start_verified now session_id nonce request service =
      let (after, result) = started_session now session_id nonce request service (
        start_provider_session primitives.start service.consent service.retention service.project_id
          (latest_context now service.transcripts) request.surface now) in
      if any (is_active_on request.device_id) service.sessions
      then (service, err (VoiceError.access "device already has an active voice session"))
      else (after, ok result)

  abbrev pub start_for :
      ℤ
      → String
      → Bytes
      → SessionStartRequest
      → VoiceSessionService
      → Result DeviceError Device
      → MethodResult SessionStartResult
  start_for now session_id nonce request service (err e) = (service, err (VoiceError.device e))
  start_for now session_id nonce request service (ok device) =
      start_verified now session_id nonce request (expire_disconnected_sessions now service)

  unfoldable pub start :
      ℤ
      → String
      → Bytes
      → SessionStartRequest
      → VoiceSessionService
      → MethodResult SessionStartResult
  start now session_id nonce request service =
      start_for now session_id nonce request service
        (verify_mtls_identity service.devices request.device_id request.public_key_fingerprint)
