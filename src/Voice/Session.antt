-- ===== src/Voice/Session.antt =====
-- voice/session.py: `VoiceSessionService`, method by method. Each method takes the readings of the clock,
-- the random session id or nonce, and what the provider answers as arguments.
pub mod Start
pub mod Speech
pub mod Output
pub mod Reconnect
pub mod Operations
pub mod Follows
pub mod Steps
pub mod Performed
pub mod Stored
pub mod Unique
pub mod Silenced
use personal_secretary.Prelude.{
  ℕ, String, Bool, true, false, not, Option, none, some, List, [], ◌∷◌, ◌++◌, ◌&&◌, ◌||◌, str_eq,
  contains, any, map, is_some, keep, if◌then◌else◌,
}
use personal_secretary.Prelude.Int.{ℤ, pos, ◌+ℤ◌, ltb_ℤ}
use personal_secretary.Prelude.Results.{Result, err, ok}
use personal_secretary.Authority.Devices.{DeviceRegistry}
use personal_secretary.Voice.Models.{
  VoiceEvent, VoiceError, RedactedLogEntry, SessionToken, ProviderSessionConfig, reconnect_window,
}
use personal_secretary.Voice.Privacy.{ConsentRecord, RetentionVerification, ProviderCall}
use personal_secretary.Voice.Tokens.{TokenPrimitives, TokenRecord, verify_token}
use personal_secretary.Voice.Transcripts.{TranscriptEntry}
use personal_secretary.Voice.Emitter.{
  VoiceSessionState, ConversationVoiceEmitter, Emission, EventPrimitives,
}

-- The service with the parts of its dependencies that its methods read or change.
pub record VoiceSessionService : Type 0 where
  pub devices : DeviceRegistry
  pub consent : List ConsentRecord
  pub retention : RetentionVerification
  pub project_id : String
  pub transcripts : List TranscriptEntry
  pub tokens : List TokenRecord
  pub sessions : List VoiceSessionState
  pub emitter : ConversationVoiceEmitter
  pub provider_calls : List ProviderCall
  pub logs : List RedactedLogEntry

pub record VoicePrimitives : Type 0 where
  pub token : TokenPrimitives
  pub event : EventPrimitives
  pub start : ProviderSessionConfig → Option String

-- `self._sessions[session_id]`, of sessions that hold their own key.
unfoldable pub get_session : String → List VoiceSessionState → Option VoiceSessionState
get_session session_id [] = none
get_session session_id (s ∷ ss) =
    let rest = get_session session_id ss in if str_eq s.session_id session_id then some s else rest

-- `self._sessions[session.session_id] = session`
unfoldable pub put_session : VoiceSessionState → List VoiceSessionState → List VoiceSessionState
put_session session [] = session ∷ []
put_session session (s ∷ ss) =
    let rest = put_session session ss in
    if str_eq s.session_id session.session_id then session ∷ ss else s ∷ rest

-- The service after a method has changed the emitter and one session.
unfoldable pub save :
    VoiceSessionService → ConversationVoiceEmitter → VoiceSessionState → VoiceSessionService
save service emitter session = record service {
  emitter = emitter;
  sessions = put_session session service.sessions;
}

abbrev pub session_or_missing : Option VoiceSessionState → Result VoiceError VoiceSessionState
session_or_missing none = err VoiceError.missing_session
session_or_missing (some session) = ok session

abbrev pub session_of :
    VoiceSessionService → Result VoiceError SessionToken → Result VoiceError VoiceSessionState
session_of service (err e) = err e
session_of service (ok token) = session_or_missing (get_session token.session_id service.sessions)

abbrev pub connected : Result VoiceError VoiceSessionState → Result VoiceError VoiceSessionState
connected (err e) = err e
connected (ok session) =
    if session.ended || is_some session.disconnected_at
    then err (VoiceError.access "voice session is not connected")
    else ok session

module _ (primitives : VoicePrimitives) where
  unfoldable pub session_for_token :
      VoiceSessionService → String → ℤ → Result VoiceError VoiceSessionState
  session_for_token service token_value now =
      session_of service (verify_token primitives.token service.tokens token_value now)

  unfoldable pub active_session :
      VoiceSessionService → String → ℤ → Result VoiceError VoiceSessionState
  active_session service token_value now = connected (session_for_token service token_value now)

-- A method goes on with its session, or raises and changes nothing.
abbrev pub on_session {ℓ} :
    {A : Type ℓ}
    → VoiceSessionService
    → Result VoiceError VoiceSessionState
    → (VoiceSessionState → A)
    → (VoiceError → A)
    → A
on_session service (err e) act fail = fail e
on_session service (ok session) act fail = act session

abbrev pub closing : Option String → List ProviderCall
closing none = []
closing (some handle) = ProviderCall.close handle ∷ []

abbrev pub is_past_window : ℤ → Option ℤ → Bool
is_past_window now none = false
is_past_window now (some disconnected_at) = ltb_ℤ (disconnected_at +ℤ pos reconnect_window) now

unfoldable pub ended_session : VoiceSessionState → VoiceSessionState
ended_session session = record session { queued_tts = []; action_progress = []; ended = true }

unfoldable pub expire_session : ℤ → VoiceSessionState → VoiceSessionState
expire_session now session =
    if is_past_window now session.disconnected_at then ended_session session else session

-- The calls that close the handles of the sessions past their window, in order.
unfoldable pub expiry_calls : ℤ → List VoiceSessionState → List ProviderCall
expiry_calls now [] = []
expiry_calls now (s ∷ ss) =
    let rest = expiry_calls now ss in
    if is_past_window now s.disconnected_at then closing s.provider_handle ++ rest else rest

unfoldable pub expire_disconnected_sessions : ℤ → VoiceSessionService → VoiceSessionService
expire_disconnected_sessions now service = record service {
  sessions = map (expire_session now) service.sessions;
  provider_calls = service.provider_calls ++ expiry_calls now service.sessions;
}

-- The sets and the dict of turns.
abbrev pub add_turn : String → List String → List String
add_turn turn_id turns = if contains turn_id turns then turns else turn_id ∷ turns

unfoldable pub discard_turn : String → List String → List String
discard_turn turn_id = keep (λ t. not (str_eq t turn_id))

unfoldable pub get_final : String → List (String × VoiceEvent) → Option VoiceEvent
get_final turn_id [] = none
get_final turn_id ((t, event) ∷ rest) =
    let later = get_final turn_id rest in if str_eq t turn_id then some event else later

-- What a method leaves, and what it returns or raises.
abbrev pub MethodResult : Type 0 → Type 0
MethodResult A = VoiceSessionService × Result VoiceError A

-- The session that an emission leaves, changed only if the event was accepted.
abbrev pub emitted :
    VoiceSessionService
    → (VoiceSessionState → VoiceSessionState)
    → Emission
    → MethodResult VoiceEvent
emitted service change ((e, session), err x) = (save service e session, err x)
emitted service change ((e, session), ok event) = (save service e (change session), ok event)
