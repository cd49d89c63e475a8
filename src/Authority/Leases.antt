-- ===== src/Authority/Leases.antt =====
-- leases.py: the `SigningKeyRing` and the `LeaseIssuer`. The digest of a key and a text, `hmac.digest`
-- in hexadecimal, and the text of a time are arguments.
pub mod Verified
use Prim.Native.String.{◌++◌ as text_append}
use personal_secretary.Prelude.{
  ℕ, suc, String, Bool, true, false, not, Option, none, some, List, [], ◌∷◌, contains, str_eq,
  if◌then◌else◌,
}
use personal_secretary.Prelude.Int.{ℤ, ◌+ℤ◌, pos, ltb_ℤ}
use personal_secretary.Prelude.Results.{Result, err, ok}
use personal_secretary.Authority.Facts.{
  ProposalState, is_approved, ProposalRecord, PayloadBoundFact, CapabilityLease,
}

pub record SigningKeyRing : Type 0 where
  pub current_key : String
  pub generation : ℕ

pub data LeaseViolation : Type 0 where
  wrong_state : ProposalState → LeaseViolation
  same_key signature_invalid proposal_mismatch payload_mismatch has_expired replay : LeaseViolation

unfoldable pub rotate : SigningKeyRing → String → Result LeaseViolation SigningKeyRing
rotate keys new_key =
    if str_eq new_key keys.current_key
    then err LeaseViolation.same_key
    else ok (record { current_key = new_key; generation = suc keys.generation })

pub record LeaseRequest : Type 0 where
  pub capability : String
  pub worker_id : String
  pub actor : String
  pub correlation_id : String
  pub idempotency_key : String

pub record LeaseVerification : Type 0 where
  pub lease_id : String
  pub proposal_id : String
  pub capability : String
  pub worker_id : String
  pub verified_at : ℤ

pub record LeaseIssuer : Type 0 where
  pub keys : SigningKeyRing
  pub lease_ttl : ℕ
  pub consumed : List String

-- `"\x1f".join(fields)`, with the separator as an argument of the model's caller.
unfoldable pub join : String → List String → String
join separator [] = ""
join separator (x ∷ []) = x
join separator (x ∷ y ∷ rest) = text_append x (text_append separator (join separator (y ∷ rest)))

pub record LeasePrimitives : Type 0 where
  pub digest : String → String → String
  pub sha256 : String → String
  pub isoformat : ℤ → String
  pub separator : String

module _ (primitives : LeasePrimitives) where
  unfoldable pub sign : SigningKeyRing → String → String
  sign keys payload = primitives.digest keys.current_key payload

  unfoldable pub verify_signature : SigningKeyRing → String → String → Bool
  verify_signature keys payload signature =
      str_eq signature (primitives.digest keys.current_key payload)

  -- `_lease_payload`, of the lease's fields without the signature.
  unfoldable pub lease_payload : PayloadBoundFact → String → String → String
  lease_payload fact capability worker_id = join primitives.separator (
      fact.fact_id
      ∷ fact.proposal_id
      ∷ fact.payload_hash
      ∷ capability
      ∷ worker_id
      ∷ primitives.isoformat fact.issued_at
      ∷ primitives.isoformat fact.expires_at
      ∷ fact.idempotency_key
      ∷ fact.actor
      ∷ fact.correlation_id
      ∷ [])

  unfoldable pub lease_fact :
      LeaseIssuer → ℤ → String → ProposalRecord → LeaseRequest → PayloadBoundFact
  lease_fact issuer now fact_id proposal request = record {
    fact_id = fact_id;
    proposal_id = proposal.proposal_id;
    payload_hash = primitives.sha256 proposal.payload;
    issued_at = now;
    expires_at = now +ℤ pos issuer.lease_ttl;
    idempotency_key = request.idempotency_key;
    actor = request.actor;
    correlation_id = request.correlation_id;
  }

  -- The argument `fact_id` is the fresh `uuid4`.
  unfoldable pub new_lease :
      LeaseIssuer → ℤ → String → ProposalRecord → LeaseRequest → CapabilityLease
  new_lease issuer now fact_id proposal request =
      let fact = lease_fact issuer now fact_id proposal request in
      record {
        fact = fact;
        capability = request.capability;
        worker_id = request.worker_id;
        signature = sign issuer.keys (
            join primitives.separator (
              fact_id
              ∷ proposal.proposal_id
              ∷ primitives.sha256 proposal.payload
              ∷ request.capability
              ∷ request.worker_id
              ∷ primitives.isoformat now
              ∷ primitives.isoformat (now +ℤ pos issuer.lease_ttl)
              ∷ request.idempotency_key
              ∷ request.actor
              ∷ request.correlation_id
              ∷ []));
      }

  unfoldable pub issue :
      LeaseIssuer
      → ℤ
      → String
      → ProposalRecord
      → LeaseRequest
      → Result LeaseViolation CapabilityLease
  issue issuer now fact_id proposal request =
      if is_approved proposal.state
      then ok (new_lease issuer now fact_id proposal request)
      else err (LeaseViolation.wrong_state proposal.state)

  unfoldable pub check_lease :
      LeaseIssuer → ℤ → CapabilityLease → ProposalRecord → Option LeaseViolation
  check_lease issuer now lease proposal =
      if not (
        verify_signature issuer.keys (lease_payload lease.fact lease.capability lease.worker_id)
          lease.signature)
      then some LeaseViolation.signature_invalid
      else if not (str_eq lease.fact.proposal_id proposal.proposal_id)
      then some LeaseViolation.proposal_mismatch
      else if not (str_eq lease.fact.payload_hash (primitives.sha256 proposal.payload))
      then some LeaseViolation.payload_mismatch
      else if not (ltb_ℤ now lease.fact.expires_at)
      then some LeaseViolation.has_expired
      else if contains lease.fact.fact_id issuer.consumed
      then some LeaseViolation.replay
      else none

  unfoldable pub lease_verification : ℤ → CapabilityLease → LeaseVerification
  lease_verification now lease = record {
    lease_id = lease.fact.fact_id;
    proposal_id = lease.fact.proposal_id;
    capability = lease.capability;
    worker_id = lease.worker_id;
    verified_at = now;
  }

  abbrev pub verified :
      LeaseIssuer
      → ℤ
      → CapabilityLease
      → Option LeaseViolation
      → LeaseIssuer × Result LeaseViolation LeaseVerification
  verified issuer now lease (some violation) = (issuer, err violation)
  verified issuer now lease none = (
    record issuer { consumed = lease.fact.fact_id ∷ issuer.consumed },
    ok (lease_verification now lease),
  )

  unfoldable pub verify :
      LeaseIssuer
      → ℤ
      → CapabilityLease
      → ProposalRecord
      → LeaseIssuer × Result LeaseViolation LeaseVerification
  verify issuer now lease proposal =
      verified issuer now lease (check_lease issuer now lease proposal)
