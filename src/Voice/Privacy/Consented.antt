-- ===== src/Voice/Privacy/Consented.antt =====
-- voice/privacy.py, voice/provider.py: the provider starts only for a surface whose last fact is a grant.
use personal_secretary.Prelude.{
  not, ◌||◌, ◌⊎◌, str_eq, eq_iff, String, true, false, Option, none, some, List, [], ◌∷◌, ◌&&◌, ◌≡◌,
  refl, inl, inr, arith, Bool-cases,
}
use personal_secretary.Prelude.Int.{ℤ, leb_ℤ, ltb_ℤ, ◌≤ℤ◌, ◌<ℤ◌}
use personal_secretary.Voice.Models.{
  VoiceSurface, SessionMode, ProviderSessionConfig, ProviderRetentionType,
}
use personal_secretary.Voice.Privacy.{
  RetentionVerification, is_safe_retention, authorizes, ProviderCall, started,
  start_provider_session,
}
use personal_secretary.Voice.Privacy.Facts.{
  ConsentFact, consent_of, granted_by, is_granted-granted_by,
}

-- The retention is verified for the project now, keeps nothing, and is of a safe type.
pub record AuthorizedRetention (retention : RetentionVerification) (project_id : String) (now : ℤ)
    : Type 0 where
  pub project : retention.project_id ≡ project_id
  pub not_stored : retention.store ≡ false
  pub from : retention.verified_at ≤ℤ now
  pub until : now <ℤ retention.valid_until
  pub safe :
      (retention.retention_type ≡ ProviderRetentionType.zero_data_retention)
      ⊎ (retention.retention_type ≡ ProviderRetentionType.modified_abuse_monitoring)

is_safe_retention-cases :
    (t : ProviderRetentionType)
    → is_safe_retention t ≡ true
    → (t ≡ ProviderRetentionType.zero_data_retention)
      ⊎ (t ≡ ProviderRetentionType.modified_abuse_monitoring)
is_safe_retention-cases ProviderRetentionType.zero_data_retention h = inl refl
is_safe_retention-cases ProviderRetentionType.modified_abuse_monitoring h = inr refl
is_safe_retention-cases ProviderRetentionType.organization_default h = absurd (ground (arith, h))

cases-is_safe_retention :
    (t : ProviderRetentionType)
    → (t ≡ ProviderRetentionType.zero_data_retention)
      ⊎ (t ≡ ProviderRetentionType.modified_abuse_monitoring)
    → is_safe_retention t ≡ true
cases-is_safe_retention t (inl h) = rw h refl
cases-is_safe_retention t (inr h) = rw h refl

authorizes-AuthorizedRetention :
    (retention : RetentionVerification) (project_id : String) (now : ℤ)
    → authorizes retention project_id now ≡ true
    → AuthorizedRetention retention project_id now
unfolding authorizes
authorizes-AuthorizedRetention retention project_id now h =
    let refused =
      not (str_eq retention.project_id project_id)
      || retention.store
      || not (leb_ℤ retention.verified_at now && ltb_ℤ now retention.valid_until) in
    elim (Bool-cases refused) [
      | inl e ↦ absurd (ground (arith, h, e))
      | inr e ↦ record {
        project = (eq_iff retention.project_id project_id).0 (ground (arith, e));
        not_stored = ground (arith, e);
        from = ground (arith, e);
        until = ground (arith, e);
        safe = is_safe_retention-cases retention.retention_type (rw e at h);
      }
    ]

AuthorizedRetention-authorizes :
    (retention : RetentionVerification) (project_id : String) (now : ℤ)
    → AuthorizedRetention retention project_id now
    → authorizes retention project_id now ≡ true
unfolding authorizes
AuthorizedRetention-authorizes retention project_id now a =
    let same = (eq_iff retention.project_id project_id).1 a.project in
    let accepted : not (str_eq retention.project_id project_id)
          || retention.store
          || not (leb_ℤ retention.verified_at now && ltb_ℤ now retention.valid_until)
        ≡ false =
      ground (arith, same, a.not_stored, a.from, a.until) in
    rw (accepted, cases-is_safe_retention retention.retention_type a.safe) refl

-- The last fact of the surface is a grant that is not in the future, and the retention is authorized.
abbrev pub Open : List ConsentFact → RetentionVerification → String → VoiceSurface → ℤ → Type 0
Open facts retention project_id surface now =
    (granted_by facts surface now ≡ true) × AuthorizedRetention retention project_id now

abbrev pub Started : Type 0
Started = List ProviderCall × SessionMode × Option String × String

abbrev pub Closed : Started → Type 0
Closed r = r ≡ ([], SessionMode.local_text, none, "privacy_gate_closed")

-- The one call of the provider, and what its answer makes of the session.
abbrev pub Answered : ProviderSessionConfig → Option String → Started → Type 0
Answered config answer r =
    ((handle : String) × (answer ≡ some handle)
      × (r ≡ (
        ProviderCall.start config ∷ [],
        SessionMode.provider_audio,
        some handle,
        "provider_enabled",
      )))
    ⊎ ((answer ≡ none)
        × (r ≡ (
          ProviderCall.start config ∷ [],
          SessionMode.local_text,
          none,
          "provider_unavailable",
        )))

started-Answered :
    (config : ProviderSessionConfig) (answer : Option String)
    → Answered config answer (started config answer)
started-Answered config (some handle) = inl (handle, refl, refl)
started-Answered config none = inr (refl, refl)

-- After any grants and withdrawals, either the last of them on the surface is a grant that is not in the
-- future, the retention is verified for the project now, keeps nothing and is of one of the two safe
-- types, and the provider is called to start exactly once, with its handle or the local mode as it
-- answers; or this is not so, no provider is called, and the session is a local one without a handle.
pub start_provider_session_exact :
    (provider : ProviderSessionConfig → Option String) (facts : List ConsentFact)
    (retention : RetentionVerification) (project_id : String) (context : List String)
    (surface : VoiceSurface) (now : ℤ)
    → let r =
        start_provider_session provider
          (consent_of facts)
          retention
          project_id
          context
          surface
          now in
      let config : ProviderSessionConfig = record {
        project_id = project_id;
        transcript_context = context;
      } in
      (Open facts retention project_id surface now × Answered config (provider config) r)
      ⊎ ((¬ Open facts retention project_id surface now) × Closed r)
unfolding start_provider_session
start_provider_session_exact provider facts retention project_id context surface now =
    let config : ProviderSessionConfig = record {
      project_id = project_id;
      transcript_context = context;
    } in
    elim (Bool-cases (granted_by facts surface now)) [
      | inl e ↦ elim (Bool-cases (authorizes retention project_id now)) [
        | inl f ↦ inl (
          (e, authorizes-AuthorizedRetention retention project_id now f),
          rw (is_granted-granted_by facts surface now, e, f)
              (started-Answered config (provider config)),
        )
        | inr f ↦ inr (
          λ passed.
              absurd (cc (AuthorizedRetention-authorizes retention project_id now passed.1, f)),
          rw (is_granted-granted_by facts surface now, e, f) refl,
        )
      ]
      | inr e ↦ inr (
        λ passed. absurd (cc (passed.0, e)),
        rw (is_granted-granted_by facts surface now, e) refl,
      )
    ]
