-- ===== src/Commander/Bounded.antt =====
-- commander/dispatch.py: the attempts of a dispatch.
use personal_secretary.Prelude.{
  ℕ, zero, suc, ◌+◌, ◌≤◌, ◌≡◌, refl, String, Option, none, some, List, arith,
}
use personal_secretary.Prelude.Int.{ℤ}
use personal_secretary.Prelude.Results.{Result, err, ok}
use personal_secretary.Authority.Leases.{LeasePrimitives}
use personal_secretary.Commander.{
  WorkerAttemptStatus, WorkerRequest, CredentialGrant, WorkerAttemptResult, WorkerResult,
  DispatchAuthorization, WorkerRuntime,
}
use personal_secretary.Commander.Dispatch.{
  Denial, Commander, result, after_attempt, attempts_from, run_with, run, concluded,
  authorization_denial, dispatch,
}

-- A result with at most so many attempts.
pub record Within (bound : ℕ) (o : Option WorkerResult) : Type 0 where
  pub given : WorkerResult
  pub returned : o ≡ some given
  pub bounded : given.attempts ≤ bound

after_attempt-Within :
    (commander : Commander) (request : WorkerRequest) (outcome : WorkerAttemptResult)
    (attempt left : ℕ) (status : WorkerAttemptStatus) (later : Option WorkerResult)
    → (1 ≤ left → Within (attempt + left) later)
    → Within (attempt + left) (after_attempt commander request outcome attempt status left later)
unfolding result
after_attempt-Within commander request outcome attempt left WorkerAttemptStatus.succeeded later h =
    record { given = _; returned = refl; bounded = omega arith }
after_attempt-Within commander request outcome attempt left WorkerAttemptStatus.failed later h =
    record { given = _; returned = refl; bounded = omega arith }
after_attempt-Within commander request outcome attempt zero WorkerAttemptStatus.retry later h =
    record { given = _; returned = refl; bounded = omega arith }
after_attempt-Within commander request outcome attempt (suc left) WorkerAttemptStatus.retry later
      h =
    h (omega arith)

Within-weaken : (a b : ℕ) (o : Option WorkerResult) → a ≤ b → Within a o → Within b o
Within-weaken a b o le w = record {
  given = w.given;
  returned = w.returned;
  bounded = omega (arith, w.bounded, le);
}

attempts_from-Within :
    (commander : Commander) (request : WorkerRequest) (execute : ℕ → WorkerAttemptResult)
    (attempt left : ℕ)
    → Within (attempt + left) (attempts_from commander request execute attempt (suc left))
unfolding attempts_from
attempts_from-Within commander request execute attempt zero =
    after_attempt-Within commander request (execute attempt) attempt zero (execute attempt).status
      (attempts_from commander request execute (suc attempt) zero) (λ h. absurd (omega (arith, h)))
attempts_from-Within commander request execute attempt (suc left) =
    let later = attempts_from-Within commander request execute (suc attempt) left in
    after_attempt-Within commander request (execute attempt) attempt (suc left)
      (execute attempt).status (attempts_from commander request execute (suc attempt) (suc left))
      (λ h. Within-weaken (suc attempt + left) (attempt + suc left) _ (omega arith) later)

module _ (primitives : LeasePrimitives) (canonical_payload : WorkerRequest → String)
    (denial_text : Denial → String)
    (broker : WorkerRequest → Result String (List CredentialGrant)) where
  budget-Within :
      (commander : Commander) (request : WorkerRequest) (execute : ℕ → WorkerAttemptResult)
      (budget : ℕ)
      → 1 ≤ budget
      → Within budget (attempts_from commander request execute 1 budget)
  budget-Within commander request execute zero h = absurd (omega (arith, h))
  budget-Within commander request execute (suc left) h =
      Within-weaken (1 + left) (suc left) _ (omega arith)
        (attempts_from-Within commander request execute 1 left)

  run_with-Within :
      (commander : Commander) (request : WorkerRequest) (runtime : WorkerRuntime)
      (credentials : Result String (List CredentialGrant))
      → 1 ≤ request.budget.max_attempts
      → Within request.budget.max_attempts (
          run_with primitives canonical_payload denial_text broker commander request runtime
            credentials)
  unfolding result
  run_with-Within commander request runtime (err reason) h = record {
    given = _;
    returned = refl;
    bounded = omega arith;
  }
  run_with-Within commander request runtime (ok credentials) h =
      budget-Within commander request (λ n. runtime.execute n request credentials)
        request.budget.max_attempts h

  run-Within :
      (commander : Commander) (request : WorkerRequest) (runtime : Option WorkerRuntime)
      → 1 ≤ request.budget.max_attempts
      → Within request.budget.max_attempts
          (run primitives canonical_payload denial_text broker commander request runtime)
  unfolding result
  run-Within commander request none h = record { given = _; returned = refl; bounded = omega arith }
  run-Within commander request (some runtime) h =
      run_with-Within commander request runtime (broker request) h

  concluded-Within :
      (request : WorkerRequest) (checked : Commander × Option Denial)
      → 1 ≤ request.budget.max_attempts
      → Within request.budget.max_attempts
          (concluded primitives canonical_payload denial_text broker checked request).1
  unfolding result
  concluded-Within request (commander, some denial) h = record {
    given = _;
    returned = refl;
    bounded = omega arith;
  }
  concluded-Within request (commander, none) h = run-Within commander request commander.runtime h

  -- With a budget of at least one attempt, as the request's validation asks, a dispatch returns a
  -- result, never the assertion after its loop, and the result counts at most the budget's attempts.
  pub dispatch-Within :
      (commander : Commander) (now : ℤ) (request : WorkerRequest)
      (authorization : Option DispatchAuthorization)
      → 1 ≤ request.budget.max_attempts
      → Within request.budget.max_attempts
          (dispatch primitives canonical_payload denial_text broker commander now request
            authorization).1
  unfolding dispatch
  dispatch-Within commander now request authorization h =
      concluded-Within request
        (authorization_denial primitives canonical_payload denial_text broker commander now request
          authorization)
        h
