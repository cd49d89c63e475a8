-- ===== src/Voice/Session/Operations.antt =====
-- voice/session.py: any call of a method, and any change of the devices or the consent between calls.
use personal_secretary.Prelude.{ℕ, String, Option, none, some, List, [], ◌∷◌}
use personal_secretary.Prelude.Int.{ℤ}
use personal_secretary.Authority.Devices.{DeviceRegistry}
use personal_secretary.Voice.Models.{Bytes, SessionStartRequest, AudioFrame}
use personal_secretary.Voice.Privacy.{ConsentRecord}
use personal_secretary.Voice.Session.{VoiceSessionService, VoicePrimitives}
use personal_secretary.Voice.Session.Start
use personal_secretary.Voice.Session.Speech
use personal_secretary.Voice.Session.Output
use personal_secretary.Voice.Session.Reconnect

-- The arguments of each method, times first.
pub data Operation : Type 0 where
  start : ℤ → String → Bytes → SessionStartRequest → Operation
  append_audio : ℤ → String → AudioFrame → Operation
  accept_partial finalize : ℤ → ℤ → String → String → String → Operation
  queue_tts : ℤ → String → String → Bytes → Operation
  queue_action_progress : ℤ → String → String → String → Operation
  barge_in : ℤ → ℤ → String → String → Operation
  disconnect : ℤ → ℤ → String → Operation
  resume : ℤ → Bytes → String → String → String → ℕ → Operation
  end : ℤ → String → Operation
  configure : DeviceRegistry → List ConsentRecord → Operation

-- The session id that a start draws.
abbrev pub opens : Operation → Option String
opens (Operation.start now session_id nonce request) = some session_id
opens _ = none

module _ (primitives : VoicePrimitives) where
  -- The service after the call.
  abbrev pub perform : Operation → VoiceSessionService → VoiceSessionService
  perform (Operation.start now session_id nonce request) service =
      (Start.start primitives now session_id nonce request service).0
  perform (Operation.append_audio now value frame) service =
      (Speech.append_audio primitives now value frame service).0
  perform (Operation.accept_partial now later value turn text) service =
      (Speech.accept_partial primitives now later value turn text service).0
  perform (Operation.finalize now later value turn text) service =
      (Speech.finalize primitives now later value turn text service).0
  perform (Operation.queue_tts now value turn pcm) service =
      (Output.queue_tts primitives now value turn pcm service).0
  perform (Operation.queue_action_progress now value turn text) service =
      (Output.queue_action_progress primitives now value turn text service).0
  perform (Operation.barge_in now later value turn) service =
      (Output.barge_in primitives now later value turn service).0
  perform (Operation.disconnect now later value) service =
      (Reconnect.disconnect primitives now later value service).0
  perform (Operation.resume now nonce value device_id fingerprint last) service =
      (Reconnect.resume primitives now nonce value device_id fingerprint last service).0
  perform (Operation.end now value) service = (Reconnect.end primitives now value service).0
  perform (Operation.configure devices consent) service = record service {
    devices = devices;
    consent = consent;
  }

  unfoldable pub perform_all : List Operation → VoiceSessionService → VoiceSessionService
  perform_all [] service = service
  perform_all (op ∷ ops) service = perform_all ops (perform op service)
