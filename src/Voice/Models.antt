-- ===== src/Voice/Models.antt =====
-- voice/models.py, voice/errors.py: records, bounds and errors.
use personal_secretary.Prelude.{
  ℕ, String, Bool, Option, none, some, List, ◌&&◌, ◌==◌, ◌%◌, leb, length, if◌then◌else◌,
}
use personal_secretary.Prelude.Int.{ℤ, pos, leb_ℤ}
use personal_secretary.Authority.Devices.{DeviceError}

abbrev pub Bytes : Type 0
Bytes = List ℕ

abbrev pub max_pcm_frame_bytes : ℕ
max_pcm_frame_bytes = 4800

abbrev pub session_token_ttl : ℕ
session_token_ttl = 600000000

abbrev pub reconnect_window : ℕ
reconnect_window = 30000000

-- 180 days.
abbrev pub transcript_retention : ℕ
transcript_retention = 15552000000000

-- 90 days.
abbrev pub root_key_rotation_interval : ℕ
root_key_rotation_interval = 7776000000000

pub data VoiceSurface : Type 0 where
  push_to_talk app_shortcut back_tap action_button control_center lock_screen notification :
      VoiceSurface

-- The equality of surfaces, by their places in the enumeration.
abbrev pub surface_index : VoiceSurface → ℕ
surface_index VoiceSurface.push_to_talk = 0
surface_index VoiceSurface.app_shortcut = 1
surface_index VoiceSurface.back_tap = 2
surface_index VoiceSurface.action_button = 3
surface_index VoiceSurface.control_center = 4
surface_index VoiceSurface.lock_screen = 5
surface_index VoiceSurface.notification = 6

unfoldable pub surface_eq : VoiceSurface → VoiceSurface → Bool
surface_eq a b = surface_index a == surface_index b

pub data SessionMode : Type 0 where
  provider_audio local_text : SessionMode

pub data VoiceEventKind : Type 0 where
  transcript_partial transcript_final action_progress cancellation : VoiceEventKind

pub data ProviderRetentionType : Type 0 where
  zero_data_retention modified_abuse_monitoring organization_default : ProviderRetentionType

pub record SessionStartRequest : Type 0 where
  pub device_id : String
  pub public_key_fingerprint : String
  pub participant_id : String
  pub conversation_id : String
  pub surface : VoiceSurface

pub record SessionToken : Type 0 where
  pub value : String
  pub session_id : String
  pub device_id : String
  pub issued_at : ℤ
  pub expires_at : ℤ

pub record AudioFrame : Type 0 where
  pub event_id : ℤ
  pub turn_id : String
  pub pcm : Bytes

-- The bounds of the fields and `require_pcm16_alignment`: `none` is the error of a frame that fails them.
unfoldable pub new_audio_frame : ℤ → String → Bytes → Option AudioFrame
new_audio_frame event_id turn_id pcm =
    if leb_ℤ (pos 1) event_id
      && leb 2 (length pcm)
      && leb (length pcm) max_pcm_frame_bytes
      && (length pcm % 2 == 0)
    then some (record { event_id = event_id; turn_id = turn_id; pcm = pcm })
    else none

pub record ProviderSessionConfig : Type 0 where
  pub project_id : String
  pub transcript_context : List String

pub record VoiceEvent : Type 0 where
  pub event_id : ℕ
  pub kind : VoiceEventKind
  pub turn_id : String
  pub text : String

pub record SessionStartResult : Type 0 where
  pub token : SessionToken
  pub mode : SessionMode
  pub reason : String

pub record ResumeResult : Type 0 where
  pub token : SessionToken
  pub replayed_events : List VoiceEvent

pub record SessionSnapshot : Type 0 where
  pub retained_audio_bytes : ℕ
  pub queued_tts_bytes : ℕ
  pub queued_action_progress : ℕ
  pub next_event_id : ℕ

pub record RedactedLogEntry : Type 0 where
  pub event : String
  pub session_id : String
  pub device_id : String
  pub byte_count : ℕ

-- `VoiceAccessError` and `VoiceOrderError`; the errors of the device registry; the `KeyError` of a
-- session that is missing; the `ValueError` of a text that is no UUID or is empty.
pub data VoiceError : Type 0 where
  access order : String → VoiceError
  device : DeviceError → VoiceError
  missing_session invalid_uuid empty_text : VoiceError
