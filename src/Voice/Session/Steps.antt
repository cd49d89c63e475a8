-- ===== src/Voice/Session/Steps.antt =====
-- voice/session.py: how each method changes the sessions, as a step relation.
use personal_secretary.Prelude.{
  String, false, Option, none, some, List, ◌||◌, ◌≡◌, refl, inl, inr, contains, any, map, str_eq,
  is_some, Bool-cases,
}
use personal_secretary.Prelude.Int.{ℤ}
use personal_secretary.Prelude.Results.{Result, err, ok}
use personal_secretary.Voice.Models.{VoiceEvent, VoiceError, AudioFrame}
use personal_secretary.Voice.Transcripts.{TranscriptEntry, append_final}
use personal_secretary.Voice.Emitter.{VoiceSessionState, ConversationVoiceEmitter, Emission}
use personal_secretary.Voice.Session.{
  VoiceSessionService, VoicePrimitives, get_session, put_session, save, emitted, expire_session,
  get_final, add_turn,
}
use personal_secretary.Voice.Session.Start.{is_active_on}
use personal_secretary.Voice.Session.Speech.{
  forward_audio, accept_partial_in, finalize_turn, finalize_emitted, finalized,
}
use personal_secretary.Voice.Session.Follows.{
  Follows, kept-Follows, Follows-trans, emit_partial-Follows, emit_final-Follows,
}

-- The sessions before and after a call that draws this session id, if any.
pub data SessionStep (opened : Option String)
    : List VoiceSessionState → List VoiceSessionState → Type 0 where
  same : (ss : List VoiceSessionState) → SessionStep opened ss ss
  changed :
      (ss : List VoiceSessionState) (s t : VoiceSessionState)
      → get_session s.session_id ss ≡ some s
      → Follows s t
      → SessionStep opened ss (put_session t ss)
  expired :
      (now : ℤ) (ss : List VoiceSessionState) → SessionStep opened ss (map (expire_session now) ss)
  started :
      (now : ℤ) (ss : List VoiceSessionState) (s : VoiceSessionState)
      → any (is_active_on s.request.device_id) (map (expire_session now) ss) ≡ false
      → opened ≡ some s.session_id
      → SessionStep opened ss (put_session s (map (expire_session now) ss))

-- The same with the services, and that a session found may be changed.
abbrev pub Steps : Option String → VoiceSessionService → VoiceSessionService → Type 0
Steps opened before after = SessionStep opened before.sessions after.sessions

abbrev pub Found : VoiceSessionService → VoiceSessionState → Type 0
Found service s = get_session s.session_id service.sessions ≡ some s

module _ (opened : Option String) where
  pub emitted-Steps :
      (service : VoiceSessionService) (s : VoiceSessionState)
      (change : VoiceSessionState → VoiceSessionState) (emission : Emission)
      → Found service s
      → ((t : VoiceSessionState) → Follows t (change t))
      → Follows s emission.0.1
      → Steps opened service (emitted service change emission).0
  unfolding save
  emitted-Steps service s change ((e, t), err x) found follows emission =
      SessionStep.changed service.sessions s t found emission
  emitted-Steps service s change ((e, t), ok event) found follows emission =
      SessionStep.changed service.sessions s (change t) found
        (Follows-trans s t (change t) emission (follows t))

module _ (primitives : VoicePrimitives) (opened : Option String) where
  finalized-Steps :
      (service : VoiceSessionService) (s t : VoiceSessionState) (e : ConversationVoiceEmitter)
      (turn : String) (event : VoiceEvent)
      (stored : List TranscriptEntry × Result VoiceError TranscriptEntry)
      → Found service s
      → Follows s t
      → Steps opened service (finalized primitives service e t turn event stored).0
  unfolding save
  finalized-Steps service s t e turn event (rows, err x) found follows =
      SessionStep.changed service.sessions s t found follows
  finalized-Steps service s t e turn event (rows, ok entry) found follows =
      SessionStep.changed service.sessions s _ found
        (Follows-trans s t _ follows (kept-Follows t _ refl refl refl refl))

  finalize_emitted-Steps :
      (service : VoiceSessionService) (s : VoiceSessionState) (later : ℤ) (turn text : String)
      (emission : Emission)
      → Found service s
      → Follows s emission.0.1
      → Steps opened service (finalize_emitted primitives later turn text service emission).0
  unfolding save
  finalize_emitted-Steps service s later turn text ((e, t), err x) found follows =
      SessionStep.changed service.sessions s t found follows
  finalize_emitted-Steps service s later turn text ((e, t), ok event) found follows =
      finalized-Steps service s t e turn event
        (append_final later service.transcripts t.session_id turn text) found follows

  pub finalize_turn-Steps :
      (service : VoiceSessionService) (s : VoiceSessionState) (later : ℤ) (turn text : String)
      (existing : Option VoiceEvent)
      → Found service s
      → Steps opened service (finalize_turn primitives later turn text service s existing).0
  finalize_turn-Steps service s later turn text (some existing) found =
      elim (Bool-cases (str_eq existing.text text)) [
        | inl e ↦ rw e (SessionStep.same service.sessions)
        | inr e ↦ rw e (SessionStep.same service.sessions)
      ]
  finalize_turn-Steps service s later turn text none found =
      elim (Bool-cases (contains turn s.partial_turns)) [
        | inl e ↦ rw e (
            finalize_emitted-Steps service s later turn text _ found
              (emit_final-Follows primitives.event later service.emitter s turn text))
        | inr e ↦ rw e (SessionStep.same service.sessions)
      ]

  pub partial-Steps :
      (service : VoiceSessionService) (s : VoiceSessionState) (later : ℤ) (turn text : String)
      → Found service s
      → Steps opened service (accept_partial_in primitives later turn text service s).0
  unfolding accept_partial_in
  partial-Steps service s later turn text found =
      elim (Bool-cases
        (contains turn s.cancelled_turns || is_some (get_final turn s.final_events))) [
          | inl e ↦ rw e (SessionStep.same service.sessions)
          | inr e ↦ rw e (
              emitted-Steps opened service s
                (λ t. record t { partial_turns = add_turn turn t.partial_turns }) _ found
                (λ t. kept-Follows t _ refl refl refl refl)
                (emit_partial-Follows primitives.event later service.emitter s turn text))
        ]

  pub audio-Steps :
      (service : VoiceSessionService) (s : VoiceSessionState) (frame : AudioFrame)
      (handle : Option String)
      → Found service s
      → Steps opened service
          (forward_audio primitives frame service
            (record s { last_client_event_id = frame.event_id })
            handle).0
  unfolding save
  audio-Steps service s frame none found =
      SessionStep.changed service.sessions s _ found (kept-Follows s _ refl refl refl refl)
  audio-Steps service s frame (some handle) found =
      SessionStep.changed service.sessions s _ found (kept-Follows s _ refl refl refl refl)
