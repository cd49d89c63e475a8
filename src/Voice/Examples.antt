-- ===== src/Voice/Examples.antt =====
-- voice/: two sessions of one device, and the theorems about them.
use Prim.Native.String.{[] as empty_text, ◌∷◌ as char_cons}
use personal_secretary.Prelude.{
  ◌⊎◌, zero, suc, ap, sym, ◌∙◌, ℕ, String, false, Option, none, some, List, [], ◌∷◌, ◌++◌, ◌≡◌,
  refl, Pairwise, contains, keep,
}
use personal_secretary.Prelude.Int.{pos, ◌+ℤ◌, leb_ℤ}
use personal_secretary.Prelude.Results.{err, ok}
use personal_secretary.Authority.Devices.{Device, DeviceState}
use personal_secretary.Conversation.Events.{
  Conversation, ConversationDevice, ConversationState, DeviceKind, kind_eq,
}
use personal_secretary.Conversation.{
  new_journal, accept, rejection_of, envelope_rejection, device_rejection, get_device,
  payload_rejection, record_event, apply_payload_state, reject,
}
use personal_secretary.Voice.Models.{
  Bytes, VoiceSurface, SessionMode, SessionStartRequest, VoiceError, VoiceEventKind,
  ProviderRetentionType, ProviderSessionConfig, session_token_ttl,
}
use personal_secretary.Voice.Privacy.{RetentionVerification, start_provider_session}
use personal_secretary.Voice.Privacy.Facts.{ConsentFact, consent_of}
use personal_secretary.Voice.Privacy.Consented.{
  Open, Answered, Closed, start_provider_session_exact,
}
use personal_secretary.Voice.Tokens.{
  TokenPrimitives, issue_token, verify_token, verified_record, get_token, put_token, new_token,
  token_value, take_bytes, drop_bytes, bytes_eq,
}
use personal_secretary.Voice.Tokens.Issued.{verify_token-issue_token}
use personal_secretary.Voice.Emitter.{
  VoiceSessionState, new_session, new_emitter, EventPrimitives, emit_cancellation, voice,
  voice_event, canonical, conversation_event,
}
use personal_secretary.Voice.Emitter.Linked.{EmitterCall, emit, emit_all, InOrder, emit-InOrder}
use personal_secretary.Voice.Session.{
  VoiceSessionService, VoicePrimitives, active_session, session_for_token, get_session, put_session,
  save, discard_turn,
}
use personal_secretary.Voice.Session.Output.{
  queue_tts, queue_tts_in, barge_in_on, interrupted, queue_action_progress, barge_in,
}
use personal_secretary.Voice.Session.Speech.{accept_partial}
use personal_secretary.Voice.Session.Operations.{Operation, perform_all}
use personal_secretary.Voice.Session.Unique.{Apart, sessions-Apart}
use personal_secretary.Voice.Session.Silenced.{barge_in_silences}

abbrev nonce : Bytes
nonce =
    1 ∷ 1 ∷ 1 ∷ 1 ∷ 1 ∷ 1 ∷ 1 ∷ 1 ∷ 1 ∷ 1 ∷ 1 ∷ 1 ∷ 1 ∷ 1 ∷ 1 ∷ 1 ∷ 1 ∷ 1 ∷ 1 ∷ 1 ∷ 1 ∷ 1 ∷ 1 ∷ 1
    ∷ 1 ∷ 1 ∷ 1 ∷ 1 ∷ 1 ∷ 1 ∷ 1 ∷ 1 ∷ []

abbrev signature : Bytes
signature = 7 ∷ []

abbrev token_primitives : TokenPrimitives
token_primitives = record {
  hmac = λ bytes. signature;
  sha256 = λ text. text;
  urlsafe_b64encode = λ bytes. "token";
  b64decode = λ text. some (nonce ++ signature);
  encode = λ text. [];
  isoformat = λ time. "t";
}

early : leb_ℤ (pos 0 +ℤ pos session_token_ttl) (pos 60) ≡ false
unfolding ◌+ℤ◌
early = refl

verify_token-issue_token_example :
    let (after, token) = issue_token token_primitives nonce [] "s" "phone" (pos 0) in
    verify_token token_primitives after token.value (pos 60) ≡ ok token
verify_token-issue_token_example =
    verify_token-issue_token token_primitives nonce [] "s" "phone" (pos 0) (pos 60) refl refl early

abbrev retention : RetentionVerification
retention = record {
  project_id = "p";
  retention_type = ProviderRetentionType.zero_data_retention;
  store = false;
  verified_at = pos 0;
  valid_until = pos 100;
}

abbrev facts : List ConsentFact
facts =
    ConsentFact.granted VoiceSurface.back_tap (pos 5)
    ∷ ConsentFact.withdrawn VoiceSurface.back_tap (pos 4)
    ∷ ConsentFact.granted VoiceSurface.lock_screen (pos 3)
    ∷ []

abbrev answer : ProviderSessionConfig → Option String
answer config = some "handle"

start_provider_session_exact_example :
    let r =
      start_provider_session answer
        (consent_of facts)
        retention
        "p"
        []
        VoiceSurface.back_tap
        (pos 9) in
    let config : ProviderSessionConfig = record { project_id = "p"; transcript_context = [] } in
    (Open facts retention "p" VoiceSurface.back_tap (pos 9) × Answered config (answer config) r)
    ⊎ ((¬ Open facts retention "p" VoiceSurface.back_tap (pos 9)) × Closed r)
start_provider_session_exact_example =
    start_provider_session_exact answer facts retention "p" [] VoiceSurface.back_tap (pos 9)

abbrev conversation : Conversation
conversation = record {
  conversation_id = "c";
  title = "t";
  participant_ids = "u" ∷ [];
  device_ids = "phone" ∷ [];
  created_at = pos 0;
  state = ConversationState.active;
}

abbrev devices : List ConversationDevice
devices =
    record {
      device_id = "phone";
      participant_id = "u";
      kind = DeviceKind.ios;
      name = "n";
      created_at = pos 0;
    }
    ∷ []

-- The UUID of a number, in unary.
unfoldable numeral : ℕ → String
numeral zero = ""
numeral (suc n) = char_cons "a" (numeral n)

unfoldable characters : String → ℕ
characters empty_text = 0
characters (char_cons c text) = suc (characters text)

characters-numeral : (n : ℕ) → characters (numeral n) ≡ n
unfolding characters numeral
characters-numeral zero = refl
characters-numeral (suc n) = ap suc (characters-numeral n)

numeral_injective : (m n : ℕ) → numeral m ≡ numeral n → m ≡ n
numeral_injective m n h = sym (characters-numeral m) ∙ ap characters h ∙ characters-numeral n

abbrev event_primitives : EventPrimitives
event_primitives = record { parse_uuid = λ text. some text; uuid_of_int = numeral }

abbrev request : SessionStartRequest
request = record {
  device_id = "phone";
  public_key_fingerprint = "k";
  participant_id = "u";
  conversation_id = "c";
  surface = VoiceSurface.back_tap;
}

abbrev session : VoiceSessionState
session = new_session "s" request SessionMode.local_text none

emit-InOrder_example :
    InOrder
      (emit event_primitives numeral_injective
        (emit_all event_primitives numeral_injective
          (EmitterCall.partial (pos 0) session "turn" "hel"
            ∷ EmitterCall.final (pos 1) session "other" "x"
            ∷ [])
          (new_emitter (new_journal conversation devices)))
        (EmitterCall.final (pos 2) session "turn" "hello")).1
emit-InOrder_example =
    emit-InOrder event_primitives numeral_injective conversation devices
      (EmitterCall.partial (pos 0) session "turn" "hel"
        ∷ EmitterCall.final (pos 1) session "other" "x"
        ∷ [])
      (EmitterCall.final (pos 2) session "turn" "hello")

abbrev primitives : VoicePrimitives
primitives = record { token = token_primitives; event = event_primitives; start = answer }

abbrev phone : Device
phone = record {
  device_id = "phone";
  public_key_fingerprint = "k";
  enrolled_at = pos 0;
  enrolled_by = "u";
  state = DeviceState.enrolled;
  revoked_at = none;
  revoked_by = none;
  approval_public_key = none;
}

abbrev no_sessions : VoiceSessionService
no_sessions = record {
  devices = record { devices = phone ∷ []; by_fingerprint = ("k", "phone") ∷ [] };
  consent = [];
  retention = retention;
  project_id = "p";
  transcripts = [];
  tokens = [];
  sessions = [];
  emitter = new_emitter (new_journal conversation devices);
  provider_calls = [];
  logs = [];
}

abbrev two_starts : List Operation
two_starts =
    Operation.start (pos 0) "s" nonce request
    ∷ Operation.disconnect (pos 1) (pos 1) "token"
    ∷ Operation.start (pos 40000000) "r" nonce request
    ∷ []

sessions-Apart_example : Pairwise Apart (perform_all primitives two_starts no_sessions).sessions
sessions-Apart_example = sessions-Apart primitives two_starts no_sessions refl

abbrev one_session : VoiceSessionService
one_session = record no_sessions {
  tokens = (issue_token token_primitives nonce [] "s" "phone" (pos 0)).0;
  sessions = session ∷ [];
}

one_active : active_session primitives one_session "token" (pos 60) ≡ ok session
unfolding active_session session_for_token verify_token issue_token verified_record get_token
    put_token new_token token_value take_bytes bytes_eq drop_bytes ◌+ℤ◌ get_session new_session
one_active = refl

abbrev later_speech : List Operation
later_speech = Operation.queue_tts (pos 62) "token" "other" nonce ∷ []

abbrev silenced : VoiceSessionService
silenced =
    perform_all primitives later_speech
      (barge_in primitives (pos 60) (pos 61) "token" "turn" one_session).0

abbrev silenced_session : VoiceSessionState
silenced_session = record session {
  queued_tts = nonce;
  cancelled_turns = "turn" ∷ [];
  events =
      record {
        event_id = 1;
        kind = VoiceEventKind.cancellation;
        turn_id = "turn";
        text = "barge_in";
      }
      ∷ [];
}

silenced_active : active_session primitives silenced "token" (pos 63) ≡ ok silenced_session
unfolding active_session session_for_token verify_token issue_token verified_record get_token
    put_token new_token token_value take_bytes bytes_eq drop_bytes ◌+ℤ◌ get_session new_session
    perform_all queue_tts queue_tts_in barge_in barge_in_on interrupted emit_cancellation voice
    voice_event canonical conversation_event accept rejection_of envelope_rejection device_rejection
    get_device payload_rejection contains record_event apply_payload_state kind_eq put_session save
    keep discard_turn new_emitter new_journal numeral reject
silenced_active = refl

barge_in_silences_example :
    (queue_tts primitives (pos 63) "token" "turn" nonce silenced ≡ (silenced, ok none))
    × (queue_action_progress primitives (pos 63) "token" "turn" "text" silenced
        ≡ (silenced, ok none))
    × (accept_partial primitives (pos 63) (pos 64) "token" "turn" "text" silenced
        ≡ (silenced, err (VoiceError.order "partial received for a closed turn")))
barge_in_silences_example =
    barge_in_silences primitives one_session (pos 60) (pos 61) "token" "turn" session later_speech
      (pos 63) (pos 64) "token" "text" nonce silenced_session one_active ((λ h. cc h), tt)
      silenced_active refl
