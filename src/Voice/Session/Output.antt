-- ===== src/Voice/Session/Output.antt =====
-- voice/session.py: audio and progress that go out, and the barge-in that cancels them.
use personal_secretary.Prelude.{
  String, Option, none, some, List, [], ◌∷◌, ◌++◌, contains, if◌then◌else◌,
}
use personal_secretary.Prelude.Int.{ℤ}
use personal_secretary.Prelude.Results.{err, ok}
use personal_secretary.Voice.Models.{Bytes, VoiceEvent}
use personal_secretary.Voice.Privacy.{ProviderCall}
use personal_secretary.Voice.Emitter.{VoiceSessionState, emit_cancellation, emit_action_progress}
use personal_secretary.Voice.Session.{
  VoiceSessionService, VoicePrimitives, save, active_session, on_session, MethodResult, emitted,
  add_turn, discard_turn,
}

module _ (primitives : VoicePrimitives) where
  unfoldable pub queue_tts_in :
      String → Bytes → VoiceSessionService → VoiceSessionState → MethodResult (Option VoiceEvent)
  queue_tts_in turn_id pcm service session =
      if contains turn_id session.cancelled_turns then (service, ok none) else (
        save service service.emitter (record session { queued_tts = session.queued_tts ++ pcm }),
        ok none,
      )

  -- It returns nothing, like `queue_action_progress` on a cancelled turn.
  unfoldable pub queue_tts :
      ℤ → String → String → Bytes → VoiceSessionService → MethodResult (Option VoiceEvent)
  queue_tts now token_value turn_id pcm service =
      on_session service (active_session primitives service token_value now)
        (queue_tts_in turn_id pcm service) (λ e. (service, err e))

  unfoldable pub queue_action_progress_in :
      String → String → VoiceSessionService → VoiceSessionState → MethodResult (Option VoiceEvent)
  queue_action_progress_in turn_id text service session =
      let ((e, after), event) = emit_action_progress service.emitter session turn_id text in
      if contains turn_id session.cancelled_turns
      then (service, ok none)
      else (save service e after, ok (some event))

  unfoldable pub queue_action_progress :
      ℤ → String → String → String → VoiceSessionService → MethodResult (Option VoiceEvent)
  queue_action_progress now token_value turn_id text service =
      on_session service (active_session primitives service token_value now)
        (queue_action_progress_in turn_id text service) (λ e. (service, err e))

  unfoldable pub interrupted : String → VoiceSessionState → VoiceSessionState
  interrupted turn_id session = record session {
    cancelled_turns = add_turn turn_id session.cancelled_turns;
    partial_turns = discard_turn turn_id session.partial_turns;
    queued_tts = [];
    action_progress = [];
  }

  abbrev pub cancelling : Option String → List ProviderCall
  cancelling none = []
  cancelling (some handle) = ProviderCall.cancel_response handle ∷ []

  unfoldable pub barge_in_on :
      ℤ → String → VoiceSessionService → VoiceSessionState → MethodResult VoiceEvent
  barge_in_on later turn_id service session =
      let cancelled = record service {
        provider_calls = service.provider_calls ++ cancelling session.provider_handle;
      } in
      emitted cancelled (λ s. s)
        (emit_cancellation primitives.event later service.emitter (interrupted turn_id session)
          turn_id "barge_in")

  unfoldable pub barge_in : ℤ → ℤ → String → String → VoiceSessionService → MethodResult VoiceEvent
  barge_in now later token_value turn_id service =
      on_session service (active_session primitives service token_value now)
        (barge_in_on later turn_id service) (λ e. (service, err e))
