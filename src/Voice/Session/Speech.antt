-- ===== src/Voice/Session/Speech.antt =====
-- voice/session.py: audio and transcripts that come in.
use personal_secretary.Prelude.{
  String, Bool, true, false, Option, none, some, List, [], ◌∷◌, ◌++◌, ◌||◌, str_eq, contains,
  length, is_some, if◌then◌else◌,
}
use personal_secretary.Prelude.Int.{ℤ, leb_ℤ}
use personal_secretary.Prelude.Results.{Result, err, ok}
use personal_secretary.Voice.Models.{VoiceEvent, VoiceError, AudioFrame}
use personal_secretary.Voice.Privacy.{ProviderCall}
use personal_secretary.Voice.Transcripts.{TranscriptEntry, append_final}
use personal_secretary.Voice.Emitter.{
  VoiceSessionState, ConversationVoiceEmitter, Emission, emit_partial, emit_final,
}
use personal_secretary.Voice.Session.{
  VoiceSessionService, VoicePrimitives, save, active_session, on_session, MethodResult, emitted,
  add_turn, discard_turn, get_final,
}

module _ (primitives : VoicePrimitives) where
  abbrev pub forward_audio :
      AudioFrame → VoiceSessionService → VoiceSessionState → Option String → MethodResult Bool
  forward_audio frame service session none = (save service service.emitter session, ok false)
  forward_audio frame service session (some handle) = (
    record (save service service.emitter session) {
      provider_calls = service.provider_calls ++ ProviderCall.send_audio handle frame.pcm ∷ [];
      logs =
          service.logs
          ++ record {
            event = "voice_audio_forward";
            session_id = session.session_id;
            device_id = session.request.device_id;
            byte_count = length frame.pcm;
          }
            ∷ [];
    },
    ok true,
  )

  unfoldable pub append_audio_to :
      AudioFrame → VoiceSessionService → VoiceSessionState → MethodResult Bool
  append_audio_to frame service session =
      let moved = record session { last_client_event_id = frame.event_id } in
      let forwarded = forward_audio frame service moved session.provider_handle in
      if leb_ℤ frame.event_id session.last_client_event_id
      then (service, err (VoiceError.order "client event ids must increase monotonically"))
      else forwarded

  unfoldable pub append_audio : ℤ → String → AudioFrame → VoiceSessionService → MethodResult Bool
  append_audio now token_value frame service =
      on_session service (active_session primitives service token_value now)
        (append_audio_to frame service) (λ e. (service, err e))

  unfoldable pub accept_partial_in :
      ℤ → String → String → VoiceSessionService → VoiceSessionState → MethodResult VoiceEvent
  accept_partial_in later turn_id text service session =
      let after =
        emitted service (λ s. record s { partial_turns = add_turn turn_id s.partial_turns })
          (emit_partial primitives.event later service.emitter session turn_id text) in
      if contains turn_id session.cancelled_turns
        || is_some (get_final turn_id session.final_events)
      then (service, err (VoiceError.order "partial received for a closed turn"))
      else after

  -- `later` is the second reading of the clock.
  unfoldable pub accept_partial :
      ℤ → ℤ → String → String → String → VoiceSessionService → MethodResult VoiceEvent
  accept_partial now later token_value turn_id text service =
      on_session service (active_session primitives service token_value now)
        (accept_partial_in later turn_id text service) (λ e. (service, err e))

  -- `finalize` after the store has taken the transcript, or has raised.
  abbrev pub finalized :
      VoiceSessionService
      → ConversationVoiceEmitter
      → VoiceSessionState
      → String
      → VoiceEvent
      → List TranscriptEntry × Result VoiceError TranscriptEntry
      → MethodResult VoiceEvent
  finalized service e session turn_id event (rows, err x) =
      (record (save service e session) { transcripts = rows }, err x)
  finalized service e session turn_id event (rows, ok entry) = (
    record (save service e (record session {
      final_events = session.final_events ++ (turn_id, event) ∷ [];
      partial_turns = discard_turn turn_id session.partial_turns;
      queued_tts = [];
    })) { transcripts = rows },
    ok event,
  )

  abbrev pub finalize_emitted :
      ℤ → String → String → VoiceSessionService → Emission → MethodResult VoiceEvent
  finalize_emitted later turn_id text service ((e, session), err x) =
      (save service e session, err x)
  finalize_emitted later turn_id text service ((e, session), ok event) =
      finalized service e session turn_id event
        (append_final later service.transcripts session.session_id turn_id text)

  abbrev pub finalize_turn :
      ℤ
      → String
      → String
      → VoiceSessionService
      → VoiceSessionState
      → Option VoiceEvent
      → MethodResult VoiceEvent
  finalize_turn later turn_id text service session (some existing) =
      if str_eq existing.text text
      then (service, ok existing)
      else (service, err (VoiceError.order "conflicting final transcript"))
  finalize_turn later turn_id text service session none =
      let after =
        finalize_emitted later turn_id text service
          (emit_final primitives.event later service.emitter session turn_id text) in
      if contains turn_id session.partial_turns
      then after
      else (service, err (VoiceError.order "final transcript requires a partial"))

  unfoldable pub finalize_in :
      ℤ → String → String → VoiceSessionService → VoiceSessionState → MethodResult VoiceEvent
  finalize_in later turn_id text service session =
      finalize_turn later turn_id text service session (get_final turn_id session.final_events)

  -- `later` is the reading of the clock by the emitter and by the store.
  unfoldable pub finalize :
      ℤ → ℤ → String → String → String → VoiceSessionService → MethodResult VoiceEvent
  finalize now later token_value turn_id text service =
      on_session service (active_session primitives service token_value now)
        (finalize_in later turn_id text service) (λ e. (service, err e))
