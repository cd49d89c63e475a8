-- ===== src/Authority/Leases/Verified.antt =====
-- leases.py: leases that are issued, verified, replayed, and verified after a rotation.
use mathlib.Core.Path.{subst}
use personal_secretary.Prelude.{
  ◌≡◌, refl, inl, inr, String, Bool, true, false, Option, none, some, List, [], ◌∷◌, arith, str_eq,
  eq_iff, contains, Bool-cases, Option-cases,
}
use personal_secretary.Prelude.Int.{ℤ, ltb_ℤ, ◌+ℤ◌, pos}
use personal_secretary.Prelude.Results.{Result, err, ok}
use personal_secretary.Authority.Facts.{is_approved, ProposalRecord, CapabilityLease}
use personal_secretary.Authority.Leases.{
  SigningKeyRing, LeaseViolation, rotate, LeaseRequest, LeaseIssuer, LeasePrimitives, sign,
  verify_signature, lease_payload, LeaseVerification, lease_fact, new_lease, issue, check_lease,
  lease_verification, verified, verify,
}

str_eq_refl : (s : String) → str_eq s s ≡ true
str_eq_refl s = (eq_iff s s).1 refl

abbrev pub is_verified : Result LeaseViolation LeaseVerification → Bool
is_verified (err violation) = false
is_verified (ok verification) = true

module _ (primitives : LeasePrimitives) (issuer : LeaseIssuer) where
  check-new_lease :
      (now later : ℤ) (fact_id : String) (proposal : ProposalRecord) (request : LeaseRequest)
      → ltb_ℤ later (now +ℤ pos issuer.lease_ttl) ≡ true
      → contains fact_id issuer.consumed ≡ false
      → check_lease primitives issuer later
          (new_lease primitives issuer now fact_id proposal request)
          proposal
        ≡ none
  unfolding check_lease new_lease sign verify_signature lease_fact lease_payload
  check-new_lease now later fact_id proposal request early fresh = rw (
    str_eq_refl (
        primitives.digest issuer.keys.current_key (
          lease_payload primitives (lease_fact primitives issuer now fact_id proposal request)
            request.capability request.worker_id)),
    str_eq_refl proposal.proposal_id,
    str_eq_refl (primitives.sha256 proposal.payload),
    early,
    fresh,
  )

  issue-approved :
      (now : ℤ) (fact_id : String) (proposal : ProposalRecord) (request : LeaseRequest)
      (lease : CapabilityLease)
      → issue primitives issuer now fact_id proposal request ≡ ok lease
      → new_lease primitives issuer now fact_id proposal request ≡ lease
  unfolding issue
  issue-approved now fact_id proposal request lease issued =
      elim (Bool-cases (is_approved proposal.state)) [
        | inl e ↦ ground (arith, e, issued)
        | inr e ↦ ground (arith, e, issued)
      ]

  -- The lease that is issued for an approved proposal verifies for that proposal at every time before
  -- it expires, as long as its fact is not consumed and the key is not rotated.
  pub verify-issue :
      (now later : ℤ) (fact_id : String) (proposal : ProposalRecord) (request : LeaseRequest)
      (lease : CapabilityLease)
      → issue primitives issuer now fact_id proposal request ≡ ok lease
      → ltb_ℤ later (now +ℤ pos issuer.lease_ttl) ≡ true
      → contains fact_id issuer.consumed ≡ false
      → (verify primitives issuer later lease proposal).1
        ≡ ok (lease_verification primitives later lease)
  unfolding verify
  verify-issue now later fact_id proposal request lease issued early fresh =
      let same = issue-approved now fact_id proposal request lease issued in
      let passes = check-new_lease now later fact_id proposal request early fresh in
      subst
        (λ l.
          (verify primitives issuer later l proposal).1
          ≡ ok (lease_verification primitives later l))
        same (rw passes)

-- An issuer that has consumed the lease's fact.
Consumed : CapabilityLease → LeaseIssuer → Type 0
Consumed lease issuer = contains lease.fact.fact_id issuer.consumed ≡ true

-- The issuer after a call of `verify`, or of `rotate` on its keys.
pub data Use : Type 0 where
  verifies : ℤ → CapabilityLease → ProposalRecord → Use
  rotates : String → Use

abbrev rotated : LeaseIssuer → Result LeaseViolation SigningKeyRing → LeaseIssuer
rotated issuer (err violation) = issuer
rotated issuer (ok keys) = record issuer { keys = keys }

module _ (primitives : LeasePrimitives) where
  unfoldable pub use_all : LeaseIssuer → List Use → LeaseIssuer
  use_all issuer [] = issuer
  use_all issuer (Use.verifies now lease proposal ∷ rest) =
      use_all ((verify primitives issuer now lease proposal).0) rest
  use_all issuer (Use.rotates key ∷ rest) = use_all (rotated issuer (rotate issuer.keys key)) rest

  verified-Consumed :
      (lease other : CapabilityLease) (issuer : LeaseIssuer) (now : ℤ)
      (violation : Option LeaseViolation)
      → Consumed lease issuer
      → Consumed lease ((verified primitives issuer now other violation).0)
  unfolding Consumed contains
  verified-Consumed lease other issuer now (some v) h = h
  verified-Consumed lease other issuer now none h = ground (arith, h)

  rotated-Consumed :
      (lease : CapabilityLease) (issuer : LeaseIssuer) (r : Result LeaseViolation SigningKeyRing)
      → Consumed lease issuer
      → Consumed lease (rotated issuer r)
  unfolding Consumed
  rotated-Consumed lease issuer (err v) h = h
  rotated-Consumed lease issuer (ok keys) h = h

  use_all-Consumed :
      (lease : CapabilityLease) (issuer : LeaseIssuer) (uses : List Use)
      → Consumed lease issuer
      → Consumed lease (use_all issuer uses)
  unfolding use_all verify
  use_all-Consumed lease issuer [] h = h
  use_all-Consumed lease issuer (Use.verifies now other proposal ∷ rest) h =
      use_all-Consumed lease ((verify primitives issuer now other proposal).0) rest (
        verified-Consumed lease other issuer now (check_lease primitives issuer now other proposal)
          h)
  use_all-Consumed lease issuer (Use.rotates key ∷ rest) h =
      use_all-Consumed lease (rotated issuer (rotate issuer.keys key)) rest
        (rotated-Consumed lease issuer (rotate issuer.keys key) h)

  Consumed-refused :
      (issuer : LeaseIssuer) (later : ℤ) (lease : CapabilityLease) (other : ProposalRecord)
      → Consumed lease issuer
      → is_verified (verify primitives issuer later lease other).1 ≡ false
  unfolding Consumed verify check_lease
  Consumed-refused issuer later lease other h =
      elim (Option-cases (check_lease primitives issuer later lease other)) [
        | inl e ↦ ground (arith, h, e)
        | inr (v, e) ↦ rw e
      ]

  verify-Consumed :
      (issuer : LeaseIssuer) (now : ℤ) (lease : CapabilityLease) (proposal : ProposalRecord)
      → is_verified (verify primitives issuer now lease proposal).1 ≡ true
      → Consumed lease ((verify primitives issuer now lease proposal).0)
  unfolding Consumed verify contains
  verify-Consumed issuer now lease proposal h =
      elim (Option-cases (check_lease primitives issuer now lease proposal)) [
        | inl e ↦ rw (e, str_eq_refl lease.fact.fact_id)
        | inr (v, e) ↦ ground (arith, (rw e at h))
      ]

  -- A lease that verifies once never verifies again, for any proposal and at any time, whatever
  -- leases are verified and keys rotated between.
  pub verify_once :
      (issuer : LeaseIssuer) (now later : ℤ) (lease : CapabilityLease)
      (proposal other : ProposalRecord) (uses : List Use)
      → is_verified (verify primitives issuer now lease proposal).1 ≡ true
      → is_verified
          (verify primitives
            (use_all ((verify primitives issuer now lease proposal).0) uses)
            later
            lease
            other).1
        ≡ false
  verify_once issuer now later lease proposal other uses h =
      let spent = (verify primitives issuer now lease proposal).0 in
      Consumed-refused (use_all spent uses) later lease other
        (use_all-Consumed lease spent uses (verify-Consumed issuer now lease proposal h))
