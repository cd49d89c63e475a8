-- ===== src/Voice/Privacy.antt =====
-- voice/privacy.py, voice/provider.py: consent, retention, the start of a provider session, and the
-- rotation of the root key. The provider and the custodian of keys are arguments.
pub mod Facts
pub mod Consented
use personal_secretary.Prelude.{
  ℕ, String, Bool, true, false, not, Option, none, some, List, [], ◌∷◌, ◌&&◌, ◌||◌, str_eq,
  if◌then◌else◌,
}
use personal_secretary.Prelude.Int.{ℤ, pos, ◌+ℤ◌, leb_ℤ, ltb_ℤ}
use personal_secretary.Prelude.Results.{Result, err, ok}
use personal_secretary.Voice.Models.{
  VoiceSurface, surface_eq, ProviderRetentionType, SessionMode, ProviderSessionConfig,
  root_key_rotation_interval,
}

pub record ConsentRecord : Type 0 where
  pub surface : VoiceSurface
  pub granted_at : ℤ
  pub withdrawn_at : Option ℤ

-- `self._records.get(surface)`, of records that hold their own key.
unfoldable pub get_record : VoiceSurface → List ConsentRecord → Option ConsentRecord
get_record surface [] = none
get_record surface (r ∷ rs) =
    let rest = get_record surface rs in if surface_eq r.surface surface then some r else rest

-- `self._records[record.surface] = record`
unfoldable pub put_record : ConsentRecord → List ConsentRecord → List ConsentRecord
put_record consent [] = consent ∷ []
put_record consent (r ∷ rs) =
    let rest = put_record consent rs in
    if surface_eq r.surface consent.surface then consent ∷ rs else r ∷ rest

unfoldable pub grant : List ConsentRecord → VoiceSurface → ℤ → List ConsentRecord
grant records surface granted_at =
    put_record (record { surface = surface; granted_at = granted_at; withdrawn_at = none }) records

abbrev pub withdraw_found : List ConsentRecord → ℤ → Option ConsentRecord → List ConsentRecord
withdraw_found records withdrawn_at none = records
withdraw_found records withdrawn_at (some current) =
    put_record (record current { withdrawn_at = some withdrawn_at }) records

unfoldable pub withdraw : List ConsentRecord → VoiceSurface → ℤ → List ConsentRecord
withdraw records surface withdrawn_at =
    withdraw_found records withdrawn_at (get_record surface records)

abbrev pub is_none : Option ℤ → Bool
is_none none = true
is_none (some _) = false

abbrev pub is_active_grant : ℤ → Option ConsentRecord → Bool
is_active_grant now none = false
is_active_grant now (some r) = leb_ℤ r.granted_at now && is_none r.withdrawn_at

unfoldable pub is_granted : List ConsentRecord → VoiceSurface → ℤ → Bool
is_granted records surface now = is_active_grant now (get_record surface records)

pub record RetentionVerification : Type 0 where
  pub project_id : String
  pub retention_type : ProviderRetentionType
  pub store : Bool
  pub verified_at : ℤ
  pub valid_until : ℤ

abbrev pub is_safe_retention : ProviderRetentionType → Bool
is_safe_retention ProviderRetentionType.zero_data_retention = true
is_safe_retention ProviderRetentionType.modified_abuse_monitoring = true
is_safe_retention ProviderRetentionType.organization_default = false

unfoldable pub authorizes : RetentionVerification → String → ℤ → Bool
authorizes retention project_id now =
    if not (str_eq retention.project_id project_id)
      || retention.store
      || not (leb_ℤ retention.verified_at now && ltb_ℤ now retention.valid_until)
    then false
    else is_safe_retention retention.retention_type

-- The calls of `RealtimeProvider`, in order; a handle is its reference.
pub data ProviderCall : Type 0 where
  start : ProviderSessionConfig → ProviderCall
  send_audio : String → List ℕ → ProviderCall
  cancel_response close : String → ProviderCall

-- What the provider's `start` gives: a handle, or `ProviderUnavailableError`.
abbrev pub started :
    ProviderSessionConfig → Option String → List ProviderCall × SessionMode × Option String × String
started config (some handle) =
    (ProviderCall.start config ∷ [], SessionMode.provider_audio, some handle, "provider_enabled")
started config none =
    (ProviderCall.start config ∷ [], SessionMode.local_text, none, "provider_unavailable")

-- The argument `provider` is what `start` answers, `context` the latest transcripts.
unfoldable pub start_provider_session :
    (ProviderSessionConfig → Option String)
    → List ConsentRecord
    → RetentionVerification
    → String
    → List String
    → VoiceSurface
    → ℤ
    → List ProviderCall × SessionMode × Option String × String
start_provider_session provider consent retention project_id context surface now =
    let config : ProviderSessionConfig = record {
      project_id = project_id;
      transcript_context = context;
    } in
    if not (is_granted consent surface now && authorizes retention project_id now)
    then ([], SessionMode.local_text, none, "privacy_gate_closed")
    else started config (provider config)

pub data KeyRotationReason : Type 0 where
  scheduled compromise : KeyRotationReason

abbrev pub is_scheduled : KeyRotationReason → Bool
is_scheduled KeyRotationReason.scheduled = true
is_scheduled KeyRotationReason.compromise = false

pub record KeychainRootKeyHandle : Type 0 where
  pub reference : String
  pub generation : ℤ
  pub activated_at : ℤ

pub record OfflineRecoveryEnvelope : Type 0 where
  pub reference : String
  pub created_at : ℤ
  pub offline : Bool
  pub sealed : Bool
  pub audit_chain_verified : Bool

pub record KeyRotationPlan : Type 0 where
  pub replacement_reference : String
  pub envelope : OfflineRecoveryEnvelope
  pub reason : KeyRotationReason
  pub now : ℤ

pub data RotationError : Type 0 where
  recovery_envelope : String → RotationError
  not_due : RotationError

-- The new handle, with the arguments of the custodian's `rotate_database_key`.
unfoldable pub rotate :
    KeychainRootKeyHandle
    → KeyRotationPlan
    → Result RotationError (KeychainRootKeyHandle × (String × String × String))
rotate current plan =
    if not (plan.envelope.offline && plan.envelope.sealed && plan.envelope.audit_chain_verified)
    then err (RotationError.recovery_envelope plan.envelope.reference)
    else if is_scheduled plan.reason
        && ltb_ℤ plan.now (current.activated_at +ℤ pos root_key_rotation_interval)
    then err RotationError.not_due
    else ok (
      record {
        reference = plan.replacement_reference;
        generation = current.generation +ℤ pos 1;
        activated_at = plan.now;
      },
      (current.reference, plan.replacement_reference, plan.envelope.reference),
    )
