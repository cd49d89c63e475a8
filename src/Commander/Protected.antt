-- ===== src/Commander/Protected.antt =====
-- commander/dispatch.py: what a protected capability needs before it runs.
use mathlib.Core.Option.{map}
use personal_secretary.Prelude.{
  ◌≤◌, ◌≡◌, refl, ap, String, true, Option, none, some, List, arith, str_eq,
}
use personal_secretary.Prelude.Int.{ℤ}
use personal_secretary.Prelude.Results.{Result, err, ok}
use personal_secretary.Authority.Facts.{is_approved}
use personal_secretary.Authority.Leases.{
  LeasePrimitives, LeaseIssuer, verify, LeaseVerification, LeaseViolation,
}
use personal_secretary.Authority.Leases.Verified.{is_verified}
use personal_secretary.Commander.{
  capability_value, WorkerRequest, authority_action_class, CredentialGrant, WorkerResult,
  DispatchAuthorization,
}
use personal_secretary.Commander.Dispatch.{
  Denial, Commander, result, is_protected, refused, lease_denial, authorize, authorization_denial,
  concluded, dispatch,
}

-- The authorization is for this request, its proposal is approved, and its lease verifies now.
pub record Leased (primitives : LeasePrimitives) (canonical_payload : WorkerRequest → String)
    (issuer : LeaseIssuer) (now : ℤ) (request : WorkerRequest) (a : DispatchAuthorization)
    : Type 0 where
  pub approved : is_approved a.proposal.state ≡ true
  pub action : str_eq a.proposal.action_class (authority_action_class request.capability) ≡ true
  pub payload : str_eq a.proposal.payload (canonical_payload request) ≡ true
  pub capability : str_eq a.lease.capability (capability_value request.capability) ≡ true
  pub worker : str_eq a.lease.worker_id request.worker_id ≡ true
  pub verified : is_verified (verify primitives issuer now a.lease a.proposal).1 ≡ true

refused-verified :
    (checked : LeaseIssuer × Result LeaseViolation LeaseVerification)
    → refused checked ≡ none
    → is_verified checked.1 ≡ true
refused-verified (after, err violation) h = ground arith
refused-verified (after, ok verification) h = refl

module _ (primitives : LeasePrimitives) (canonical_payload : WorkerRequest → String)
    (denial_text : Denial → String)
    (broker : WorkerRequest → Result String (List CredentialGrant)) where
  lease_denial-Leased :
      (issuer : LeaseIssuer) (now : ℤ) (request : WorkerRequest) (a : DispatchAuthorization)
      → (lease_denial primitives canonical_payload denial_text broker issuer now request a).1 ≡ none
      → Leased primitives canonical_payload issuer now request a
  unfolding lease_denial
  lease_denial-Leased issuer now request a h = record {
    approved = ground arith;
    action = ground arith;
    payload = ground arith;
    capability = ground arith;
    worker = ground arith;
    verified = refused-verified (verify primitives issuer now a.lease a.proposal) (ground arith);
  }

  -- There is an issuer, and an authorization that it verifies.
  abbrev pub HasLease :
      Option LeaseIssuer → ℤ → WorkerRequest → Option DispatchAuthorization → Type 0
  HasLease issuer now request authorization =
      (i : LeaseIssuer) × ((a : DispatchAuthorization) × ((issuer ≡ some i)
          × ((authorization ≡ some a) × Leased primitives canonical_payload i now request a)))

  authorize-Leased :
      (commander : Commander) (now : ℤ) (request : WorkerRequest) (issuer : Option LeaseIssuer)
      (authorization : Option DispatchAuthorization)
      → (authorize primitives canonical_payload denial_text broker commander now request issuer
          authorization).1
        ≡ none
      → HasLease issuer now request authorization
  authorize-Leased commander now request issuer none h = ground arith
  authorize-Leased commander now request none (some a) h = ground arith
  authorize-Leased commander now request (some i) (some a) h =
      (i, (a, (refl, (refl, lease_denial-Leased i now request a h))))

  ran-undenied :
      (checked : Commander × Option Denial) (request : WorkerRequest) (r : WorkerResult)
      → (concluded primitives canonical_payload denial_text broker checked request).1 ≡ some r
      → 1 ≤ r.attempts
      → checked.1 ≡ none
  unfolding result
  ran-undenied (commander, none) request r h ran = refl
  ran-undenied (commander, some denial) request r h ran =
      let idle : some 0 ≡ some r.attempts = ap (map (λ x. x.attempts)) h in
      ground (arith, idle, ran)

  -- If a dispatch of a protected capability counts any attempt, then the commander has a lease issuer
  -- and the call an authorization whose proposal is approved, for the request's action and with its
  -- canonical text as payload, and whose lease is for its capability and worker and verifies.
  pub dispatch_protected :
      (commander : Commander) (now : ℤ) (request : WorkerRequest)
      (authorization : Option DispatchAuthorization) (r : WorkerResult)
      → is_protected request.capability ≡ true
      → (dispatch primitives canonical_payload denial_text broker commander now request
          authorization).1
        ≡ some r
      → 1 ≤ r.attempts
      → HasLease commander.lease_issuer now request authorization
  unfolding dispatch authorization_denial
  dispatch_protected commander now request authorization r protected h ran =
      let undenied =
        ran-undenied
          (authorization_denial primitives canonical_payload denial_text broker commander now
            request authorization)
          request r h ran in
      authorize-Leased commander now request commander.lease_issuer authorization
        (ground (arith, undenied, protected))
