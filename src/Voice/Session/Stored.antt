-- ===== src/Voice/Session/Stored.antt =====
-- voice/session.py: what is found in the dict of sessions after a change.
use mathlib.Core.Path.{subst}
use personal_secretary.Prelude.{
  String, true, false, some, List, [], ◌∷◌, ◌≡◌, ◌≢◌, refl, sym, inl, inr, map, str_eq, eq_iff,
  arith, Bool-cases, All,
}
use personal_secretary.Prelude.Int.{ℤ}
use personal_secretary.Voice.Emitter.{VoiceSessionState}
use personal_secretary.Voice.Session.{
  get_session, put_session, expire_session, is_past_window, ended_session,
}
use personal_secretary.Voice.Session.Follows.{Follows, kept-Follows}

str_eq_other : (a b : String) → a ≢ b → str_eq a b ≡ false
str_eq_other a b differs = elim (Bool-cases (str_eq a b)) [
  | inl e ↦ absurd (differs ((eq_iff a b).0 e))
  | inr e ↦ e
]

pub get_session-cons :
    (k : String) (s : VoiceSessionState) (ss : List VoiceSessionState) (t : VoiceSessionState)
    → str_eq s.session_id k ≡ true
    → get_session k (s ∷ ss) ≡ some t
    → s ≡ t
unfolding get_session
get_session-cons k s ss t e h = let found : some s ≡ some t = (rw e at h) in ground (arith, found)

pub get-put_same :
    (k : String) (t : VoiceSessionState) (ss : List VoiceSessionState)
    → t.session_id ≡ k
    → get_session k (put_session t ss) ≡ some t
unfolding get_session put_session
get-put_same k t [] h = rw ((eq_iff t.session_id k).1 h) refl
get-put_same k t (s ∷ ss) h = elim (Bool-cases (str_eq s.session_id t.session_id)) [
  | inl e ↦ rw (e, (eq_iff t.session_id k).1 h) refl
  | inr e ↦
      let other : str_eq s.session_id k ≡ false = subst (λ i. str_eq s.session_id i ≡ false) h e in
      rw (e, other) (get-put_same k t ss h)
]

pub get-put_other :
    (k : String) (t : VoiceSessionState) (ss : List VoiceSessionState)
    → t.session_id ≢ k
    → get_session k (put_session t ss) ≡ get_session k ss
unfolding get_session put_session
get-put_other k t [] h = rw (str_eq_other t.session_id k h) refl
get-put_other k t (s ∷ ss) h = elim (Bool-cases (str_eq s.session_id t.session_id)) [
  | inl e ↦
      let other : str_eq s.session_id k ≡ false =
        subst (λ i. str_eq i k ≡ false) (sym ((eq_iff s.session_id t.session_id).0 e))
          (str_eq_other t.session_id k h) in
      rw (e, other, str_eq_other t.session_id k h) refl
  | inr e ↦ elim (Bool-cases (str_eq s.session_id k)) [
    | inl g ↦ rw (e, g) refl
    | inr g ↦ rw (e, g) (get-put_other k t ss h)
  ]
]

pub expire-Follows : (now : ℤ) (s : VoiceSessionState) → Follows s (expire_session now s)
unfolding expire_session ended_session
expire-Follows now s = elim (Bool-cases (is_past_window now s.disconnected_at)) [
  | inl e ↦
      rw e
        (record { session_id = refl; request = refl; ended = λ h. refl; cancelled = λ turn h. h })
  | inr e ↦ rw e (kept-Follows s s refl refl refl refl)
]

-- A session found after the expiry follows one found before it.
pub get-expired :
    (now : ℤ) (k : String) (ss : List VoiceSessionState) (t : VoiceSessionState)
    → get_session k (map (expire_session now) ss) ≡ some t
    → (s : VoiceSessionState) × (get_session k ss ≡ some s) × Follows s t
unfolding get_session
get-expired now k [] t h = absurd (ground (arith, h))
get-expired now k (s ∷ ss) t h =
    let follows = expire-Follows now s in
    elim (Bool-cases (str_eq s.session_id k)) [
      | inl e ↦
          let later : str_eq (expire_session now s).session_id k ≡ true =
            subst (λ i. str_eq i k ≡ true) (sym follows.session_id) e in
          let same =
            get_session-cons k (expire_session now s) (map (expire_session now) ss) t later h in
          (s, rw e refl, subst (Follows s) same follows)
      | inr e ↦
          let later : str_eq (expire_session now s).session_id k ≡ false =
            subst (λ i. str_eq i k ≡ false) (sym follows.session_id) e in
          let (u, found, after) = get-expired now k ss t (rw later at h) in (u, rw e found, after)
    ]

module _ (P : VoiceSessionState → Type 0) where
  pub All-put :
      (t : VoiceSessionState) (ss : List VoiceSessionState)
      → All P ss
      → P t
      → All P (put_session t ss)
  unfolding put_session
  All-put t [] h ht = (ht, tt)
  All-put t (s ∷ ss) h ht = elim (Bool-cases (str_eq s.session_id t.session_id)) [
    | inl e ↦ rw e (ht, h.1)
    | inr e ↦ rw e (h.0, All-put t ss h.1 ht)
  ]

  pub All-get :
      (k : String) (ss : List VoiceSessionState) (s : VoiceSessionState)
      → get_session k ss ≡ some s
      → All P ss
      → P s
  unfolding get_session
  All-get k [] s h all = absurd (ground (arith, h))
  All-get k (t ∷ ts) s h all = elim (Bool-cases (str_eq t.session_id k)) [
    | inl e ↦ subst P (get_session-cons k t ts s e h) all.0
    | inr e ↦ All-get k ts s (rw e at h) all.1
  ]
