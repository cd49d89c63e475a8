-- ===== src/Voice/Privacy/Facts.antt =====
-- voice/privacy.py: the last fact of a surface says whether consent is granted.
use personal_secretary.Prelude.{
  Bool, true, false, Option, none, some, List, [], ◌∷◌, ◌≡◌, refl, sym, inl, inr, ◌∙◌, arith,
  Bool-cases, if◌then◌else◌,
}
use personal_secretary.Prelude.Int.{ℤ, leb_ℤ}
use personal_secretary.Voice.Models.{VoiceSurface, surface_eq}
use personal_secretary.Voice.Privacy.{
  ConsentRecord, get_record, put_record, grant, withdraw, withdraw_found, is_active_grant,
  is_granted,
}

-- A call of the registry.
pub data ConsentFact : Type 0 where
  granted withdrawn : VoiceSurface → ℤ → ConsentFact

-- The records after the facts, the newest first.
unfoldable pub consent_of : List ConsentFact → List ConsentRecord
consent_of [] = []
consent_of (ConsentFact.granted surface at ∷ older) = grant (consent_of older) surface at
consent_of (ConsentFact.withdrawn surface at ∷ older) = withdraw (consent_of older) surface at

-- Whether the last fact of the surface is a grant that is not in the future.
unfoldable pub granted_by : List ConsentFact → VoiceSurface → ℤ → Bool
granted_by [] surface now = false
granted_by (ConsentFact.granted other at ∷ older) surface now =
    let before = granted_by older surface now in
    if surface_eq other surface then leb_ℤ at now else before
granted_by (ConsentFact.withdrawn other at ∷ older) surface now =
    let before = granted_by older surface now in if surface_eq other surface then false else before

surface_eq_congruent :
    (a b c : VoiceSurface) → surface_eq a b ≡ true → surface_eq a c ≡ surface_eq b c
unfolding surface_eq
surface_eq_congruent a b c h = ground arith

surface_eq_sym : (a b : VoiceSurface) → surface_eq a b ≡ surface_eq b a
unfolding surface_eq
surface_eq_sym a b = ground arith

surface_eq_refl : (a : VoiceSurface) → surface_eq a a ≡ true
unfolding surface_eq
surface_eq_refl a = ground arith

get-put_same :
    (c : ConsentRecord) (records : List ConsentRecord) (surface : VoiceSurface)
    → surface_eq c.surface surface ≡ true
    → get_record surface (put_record c records) ≡ some c
unfolding get_record put_record
get-put_same c [] surface h = rw h refl
get-put_same c (r ∷ rs) surface h = elim (Bool-cases (surface_eq r.surface c.surface)) [
  | inl e ↦ rw (e, h) refl
  | inr e ↦
      let other : surface_eq r.surface surface ≡ false =
        surface_eq_sym r.surface surface
        ∙ sym (surface_eq_congruent c.surface surface r.surface h)
        ∙ surface_eq_sym c.surface r.surface
        ∙ e in
      rw (e, other) (get-put_same c rs surface h)
]

get-put_other :
    (c : ConsentRecord) (records : List ConsentRecord) (surface : VoiceSurface)
    → surface_eq c.surface surface ≡ false
    → get_record surface (put_record c records) ≡ get_record surface records
unfolding get_record put_record
get-put_other c [] surface h = rw h refl
get-put_other c (r ∷ rs) surface h = elim (Bool-cases (surface_eq r.surface c.surface)) [
  | inl e ↦
      let other : surface_eq r.surface surface ≡ false =
        surface_eq_congruent r.surface c.surface surface e ∙ h in
      rw (e, other, h) refl
  | inr e ↦ elim (Bool-cases (surface_eq r.surface surface)) [
    | inl g ↦ rw (e, g) refl
    | inr g ↦ rw (e, g) (get-put_other c rs surface h)
  ]
]

get_record-surface :
    (surface : VoiceSurface) (records : List ConsentRecord) (c : ConsentRecord)
    → get_record surface records ≡ some c
    → surface_eq c.surface surface ≡ true
unfolding get_record
get_record-surface surface [] c h = ground (arith, h)
get_record-surface surface (r ∷ rs) c h = elim (Bool-cases (surface_eq r.surface surface)) [
  | inl e ↦
      let found : some r ≡ some c = (rw e at h) in
      let same : r ≡ c = ground (arith, found) in rw (sym same) e
  | inr e ↦ get_record-surface surface rs c (rw e at h)
]

get_record-congruent :
    (a b : VoiceSurface) (records : List ConsentRecord)
    → surface_eq a b ≡ true
    → get_record a records ≡ get_record b records
unfolding get_record
get_record-congruent a b [] h = refl
get_record-congruent a b (r ∷ rs) h =
    let same =
      surface_eq_sym r.surface a
      ∙ surface_eq_congruent a b r.surface h
      ∙ surface_eq_sym b r.surface in
    elim (Bool-cases (surface_eq r.surface b)) [
      | inl e ↦ rw (same, e) refl
      | inr e ↦ rw (same, e) (get_record-congruent a b rs h)
    ]

withdrawn-same :
    (records : List ConsentRecord) (surface other : VoiceSurface) (at now : ℤ)
    (o : Option ConsentRecord)
    → get_record other records ≡ o
    → surface_eq other surface ≡ true
    → is_active_grant now (get_record surface (withdraw_found records at o)) ≡ false
withdrawn-same records surface other at now none h e =
    rw (sym (get_record-congruent other surface records e), h) refl
withdrawn-same records surface other at now (some c) h e =
    rw
      (get-put_same (record c { withdrawn_at = some at }) records surface
        (surface_eq_congruent c.surface other surface (get_record-surface other records c h) ∙ e))
      (ground arith)

withdrawn-other :
    (records : List ConsentRecord) (surface other : VoiceSurface) (at : ℤ)
    (o : Option ConsentRecord)
    → get_record other records ≡ o
    → surface_eq other surface ≡ false
    → get_record surface (withdraw_found records at o) ≡ get_record surface records
withdrawn-other records surface other at none h e = refl
withdrawn-other records surface other at (some c) h e =
    get-put_other (record c { withdrawn_at = some at }) records surface
      (surface_eq_congruent c.surface other surface (get_record-surface other records c h) ∙ e)

pub is_granted-granted_by :
    (facts : List ConsentFact) (surface : VoiceSurface) (now : ℤ)
    → is_granted (consent_of facts) surface now ≡ granted_by facts surface now
unfolding is_granted consent_of granted_by grant withdraw get_record
is_granted-granted_by [] surface now = refl
is_granted-granted_by (ConsentFact.granted other at ∷ older) surface now =
    elim (Bool-cases (surface_eq other surface)) [
      | inl e ↦
          rw
            (
              e,
              get-put_same (record { surface = other; granted_at = at; withdrawn_at = none })
                  (consent_of older) surface e,
            )
            (ground arith)
      | inr e ↦
          rw
            (
              e,
              get-put_other (record { surface = other; granted_at = at; withdrawn_at = none })
                  (consent_of older) surface e,
            )
            (is_granted-granted_by older surface now)
    ]
is_granted-granted_by (ConsentFact.withdrawn other at ∷ older) surface now =
    elim (Bool-cases (surface_eq other surface)) [
      | inl e ↦ rw e (withdrawn-same (consent_of older) surface other at now _ refl e)
      | inr e ↦
          rw (e, withdrawn-other (consent_of older) surface other at _ refl e)
            (is_granted-granted_by older surface now)
    ]
