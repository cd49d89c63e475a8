-- ===== src/Voice/Session/Unique.antt =====
-- voice/session.py: the sessions of one device.
use mathlib.Core.Path.{subst}
use personal_secretary.Prelude.{
  String, true, false, Option, some, List, [], ◌∷◌, ◌≡◌, ◌⊎◌, sym, inl, inr, map, str_eq, eq_iff,
  any, arith, Bool-cases, All, All-weaken, All-map, Pairwise,
}
use personal_secretary.Prelude.Int.{ℤ}
use personal_secretary.Voice.Emitter.{VoiceSessionState}
use personal_secretary.Voice.Session.{
  VoiceSessionService, VoicePrimitives, get_session, put_session, expire_session,
}
use personal_secretary.Voice.Session.Start.{is_active_on}
use personal_secretary.Voice.Session.Operations.{Operation, opens, perform, perform_all}
use personal_secretary.Voice.Session.Follows.{Follows}
use personal_secretary.Voice.Session.Steps.{SessionStep}
use personal_secretary.Voice.Session.Performed.{perform-Steps}
use personal_secretary.Voice.Session.Stored.{expire-Follows, All-put, All-get, get_session-cons}

-- Two sessions of one device are not both open.
abbrev pub Apart : VoiceSessionState → VoiceSessionState → Type 0
Apart a b = a.request.device_id ≡ b.request.device_id → (a.ended ≡ true) ⊎ (b.ended ≡ true)

Apart-sym : (a b : VoiceSessionState) → Apart a b → Apart b a
Apart-sym a b h same = elim (h (sym same)) [ inl e ↦ inr e | inr e ↦ inl e ]

Apart-Follows : (a b t : VoiceSessionState) → Apart a b → Follows b t → Apart a t
Apart-Follows a b t h f same =
    elim (h (subst (λ r. a.request.device_id ≡ r.device_id) f.request same)) [
      | inl e ↦ inl e
      | inr e ↦ inr (f.ended e)
    ]

Apart-Follows_both :
    (a b s t : VoiceSessionState) → Apart a b → Follows a s → Follows b t → Apart s t
Apart-Follows_both a b s t h f g =
    Apart-sym t s (Apart-Follows t a s (Apart-sym a t (Apart-Follows a b t h g)) f)

changed-Apart :
    (ss : List VoiceSessionState) (s t : VoiceSessionState)
    → get_session s.session_id ss ≡ some s
    → Follows s t
    → Pairwise Apart ss
    → Pairwise Apart (put_session t ss)
unfolding get_session put_session
changed-Apart [] s t found f apart = (tt, tt)
changed-Apart (x ∷ xs) s t found f apart = elim (Bool-cases (str_eq x.session_id s.session_id)) [
  | inl e ↦
      let same = get_session-cons s.session_id x xs s e found in
      let put : str_eq x.session_id t.session_id ≡ true =
        subst (λ i. str_eq x.session_id i ≡ true) (sym f.session_id) e in
      rw put (
        All-weaken (Apart x) (Apart t) xs
            (λ b h.
              Apart-sym b t (Apart-Follows b s t (Apart-sym s b (subst (λ u. Apart u b) same h)) f))
            apart.0,
        apart.1,
      )
  | inr e ↦
      let put : str_eq x.session_id t.session_id ≡ false =
        subst (λ i. str_eq x.session_id i ≡ false) (sym f.session_id) e in
      let later : get_session s.session_id xs ≡ some s = (rw e at found) in
      rw put (
        All-put (Apart x) t xs apart.0
            (Apart-Follows x s t (All-get (Apart x) s.session_id xs s later apart.0) f),
        changed-Apart xs s t later f apart.1,
      )
]

expired-Apart :
    (now : ℤ) (ss : List VoiceSessionState)
    → Pairwise Apart ss
    → Pairwise Apart (map (expire_session now) ss)
expired-Apart now [] apart = tt
expired-Apart now (x ∷ xs) apart = (
  All-map (Apart (expire_session now x)) (expire_session now) xs (
      All-weaken (Apart x) (λ b. Apart (expire_session now x) (expire_session now b)) xs
        (λ b h. Apart-Follows_both x b _ _ h (expire-Follows now x) (expire-Follows now b))
        apart.0),
  expired-Apart now xs apart.1,
)

put-Apart :
    (s : VoiceSessionState) (ss : List VoiceSessionState)
    → All (Apart s) ss
    → Pairwise Apart ss
    → Pairwise Apart (put_session s ss)
unfolding put_session
put-Apart s [] h apart = (tt, tt)
put-Apart s (x ∷ xs) h apart = elim (Bool-cases (str_eq x.session_id s.session_id)) [
  | inl e ↦ rw e (h.1, apart.1)
  | inr e ↦ rw e (All-put (Apart x) s xs apart.0 (Apart-sym s x h.0), put-Apart s xs h.1 apart.1)
]

inactive-Apart : (s x : VoiceSessionState) → is_active_on s.request.device_id x ≡ false → Apart s x
inactive-Apart s x h same = elim (Bool-cases x.ended) [
  | inl e ↦ inr e
  | inr e ↦
      let found = (eq_iff x.request.device_id s.request.device_id).1 (sym same) in
      absurd (ground (arith, h, e, found))
]

none_active-Apart :
    (s : VoiceSessionState) (ss : List VoiceSessionState)
    → any (is_active_on s.request.device_id) ss ≡ false
    → All (Apart s) ss
unfolding any
none_active-Apart s [] h = tt
none_active-Apart s (x ∷ xs) h = elim (Bool-cases (is_active_on s.request.device_id x)) [
  | inl e ↦ absurd (ground (arith, h, e))
  | inr e ↦ (inactive-Apart s x e, none_active-Apart s xs (rw e at h))
]

step-Apart :
    (opened : Option String) (ss ts : List VoiceSessionState)
    → SessionStep opened ss ts
    → Pairwise Apart ss
    → Pairwise Apart ts
step-Apart opened _ _ (SessionStep.same ss) apart = apart
step-Apart opened _ _ (SessionStep.changed ss s t found f) apart =
    changed-Apart ss s t found f apart
step-Apart opened _ _ (SessionStep.expired now ss) apart = expired-Apart now ss apart
step-Apart opened _ _ (SessionStep.started now ss s idle drawn) apart =
    put-Apart s (map (expire_session now) ss)
      (none_active-Apart s (map (expire_session now) ss) idle) (expired-Apart now ss apart)

module _ (primitives : VoicePrimitives) where
  performed-Apart :
      (ops : List Operation) (service : VoiceSessionService)
      → Pairwise Apart service.sessions
      → Pairwise Apart (perform_all primitives ops service).sessions
  unfolding perform_all
  performed-Apart [] service apart = apart
  performed-Apart (op ∷ ops) service apart =
      performed-Apart ops (perform primitives op service)
        (step-Apart (opens op) service.sessions _ (perform-Steps primitives op service) apart)

  -- From a service without sessions, whatever methods are called in any order, no two sessions of one
  -- device are open at once.
  pub sessions-Apart :
      (ops : List Operation) (service : VoiceSessionService)
      → service.sessions ≡ []
      → Pairwise Apart (perform_all primitives ops service).sessions
  sessions-Apart ops service empty =
      performed-Apart ops service (subst (Pairwise Apart) (sym empty) tt)
