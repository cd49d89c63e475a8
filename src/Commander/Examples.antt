-- ===== src/Commander/Examples.antt =====
-- A message to send with one retry, and the theorems about a dispatch at it.
use personal_secretary.Prelude.{
  ℕ, refl, String, false, none, some, List, [], ◌∷◌, arith, ltb, if◌then◌else◌, contains,
}
use personal_secretary.Prelude.Int.{pos, ◌+ℤ◌}
use personal_secretary.Prelude.Results.{Result, ok}
use personal_secretary.Authority.Facts.{ProposalRecord, ProposalState}
use personal_secretary.Authority.Leases.{
  verify, check_lease, verify_signature, new_lease, lease_fact, lease_payload, join, sign,
}
use personal_secretary.Authority.Examples.{lease_primitives, issuer}
use personal_secretary.Commander.{
  WorkerCapability, WorkerRuntimeClass, WorkerResultStatus, WorkerAttemptStatus, WorkerRequest,
  CredentialGrant, WorkerAttemptResult, WorkerResult, DispatchAuthorization, WorkerRuntime,
}
use personal_secretary.Commander.Dispatch.{
  Denial, Commander, result, attempts_from, lease_denial, authorization_denial, dispatch,
}
use personal_secretary.Commander.Bounded.{Within, dispatch-Within}
use personal_secretary.Commander.Protected.{HasLease, dispatch_protected}

abbrev send : WorkerRequest
send = record {
  request_id = "r";
  worker_id = "w";
  capability = WorkerCapability.external_send;
  objective = "send";
  scope = record { resources = "mail" ∷ []; operations = "send" ∷ [] };
  budget = record { max_attempts = 3; max_tokens = 10; max_cost_microunits = 0 };
  timeout_seconds = 60;
  provenance = record { source = "s"; source_id = "i"; actor = "sage"; correlation_id = "c" };
  credential_references = [];
}

abbrev attempt : ℕ → WorkerAttemptResult
attempt n =
    if ltb n 2
    then record { status = WorkerAttemptStatus.retry; detail = "busy"; output_reference = none }
    else record {
      status = WorkerAttemptStatus.succeeded;
      detail = "completed";
      output_reference = some "out";
    }

abbrev worker : WorkerRuntime
worker = record {
  descriptor = record { name = "n"; version = "1"; execution_class = WorkerRuntimeClass.sandbox };
  execute = λ n request credentials. attempt n;
}

abbrev commander : Commander
commander = record { runtime = some worker; lease_issuer = some issuer; promoted = λ c. false }

abbrev text_of : WorkerRequest → String
text_of request = "json"

abbrev denial_text : Denial → String
denial_text denial = "denied"

abbrev broker : WorkerRequest → Result String (List CredentialGrant)
broker request = ok []

abbrev message : ProposalRecord
message = record {
  proposal_id = "p";
  action_class = "message.send";
  payload = "json";
  state = ProposalState.approved;
  created_at = pos 0;
}

abbrev authorization : DispatchAuthorization
authorization = record {
  proposal = message;
  lease = new_lease lease_primitives issuer (pos 1) "g" message (record {
    capability = "message.send";
    worker_id = "w";
    actor = "sage";
    correlation_id = "c";
    idempotency_key = "i";
  });
}

abbrev sent : WorkerResult
sent = result commander send WorkerResultStatus.succeeded "completed" 2 (some "out")

dispatch-Within_example :
    Within 3
      (dispatch lease_primitives text_of denial_text broker commander
        (pos 2)
        send
        (some authorization)).1
dispatch-Within_example =
    dispatch-Within lease_primitives text_of denial_text broker commander (pos 2) send
      (some authorization) (omega arith)

dispatch_protected_example :
    HasLease lease_primitives text_of denial_text broker
      (some issuer)
      (pos 2)
      send
      (some authorization)
unfolding dispatch authorization_denial lease_denial attempts_from result verify check_lease
    verify_signature new_lease lease_fact lease_payload join sign contains ◌+ℤ◌
dispatch_protected_example =
    dispatch_protected lease_primitives text_of denial_text broker commander (pos 2) send
      (some authorization) sent refl refl (omega arith)
