-- ===== src/Relay/Examples.antt =====
-- relay_store.py: a conversation of one person with one device, and a batch of one event.
use personal_secretary.Prelude.{
  suc, length, ◌≤◌, List, find, contains, keep, any, true, some, [], ◌∷◌, ◌≡◌, refl, str_eq, eq_iff,
}
use personal_secretary.Prelude.Int.{pos, ◌+ℤ◌}
use personal_secretary.Prelude.Sort.{sort_by, insert_by}
use personal_secretary.Planner.Models.{distinct}
use personal_secretary.Prelude.Results.{ok}
use personal_secretary.Conversation.Events.{
  Conversation, ConversationState, DeviceKind, ConversationEventPayload, ConversationEvent,
  payload_kind, kind_eq,
}
use personal_secretary.Conversation.{
  new_journal, accept, rejection_of, envelope_rejection, apply_payload_state, device_rejection,
  get_device, open_turn_rejection, payload_rejection, record_event, reject, transcript_rejection,
}
use personal_secretary.Ledger.{
  TransitionContext, AuditPrimitives, genesis, next_entry, verify, verify_from, insert_row, append,
  sign_entry, signed_entry, unsigned_entry, audit_payload, tip,
}
use personal_secretary.Relay.{
  RelayPrimitives, RelayStore, append_batch, event_mutation, conversation, stored_device, replay,
  events_after, first_items, append_events, append_event, known_event, audit, conversation_of,
  devices_for, insert_event,
}
use personal_secretary.Relay.Acknowledged.{Acknowledged, history, append_batch-Acknowledged}
use personal_secretary.Relay.Retried.Resent.{AppendCall, append_all, append_batch_again}

abbrev the_primitives : AuditPrimitives
the_primitives = record {
  digest = λ key text. text;
  decimal = λ n. "n";
  isoformat = λ t. "t";
  json_state = λ state. state;
  separator = "|";
}

abbrev primitives : RelayPrimitives
primitives = record {
  same_event = λ a b. str_eq a.event_id b.event_id;
  is_aware = λ e. true;
  event_bytes = λ e. 200;
  event_json = λ e. e.event_id;
  hmac = λ text. text;
  audit = the_primitives;
  audit_key = "k";
}

abbrev context : TransitionContext
context = record { actor = "a"; correlation_id = "c"; occurred_at = pos 10 }

abbrev store : RelayStore
store = record {
  devices =
      record {
        device_id = "phone";
        participant_id = "sage";
        kind = DeviceKind.ios;
        name = "Phone";
        created_at = pos 0;
      }
      ∷ [];
  conversations =
      record {
        record_id = "chat";
        created_at = pos 0;
        state = ConversationState.active;
        title = some "Plans";
        participant_ids = "sage" ∷ [];
      }
      ∷ [];
  events = [];
  audit = record { rows = []; anchor = some (pos 0, genesis) };
}

abbrev says : ConversationEvent
says = record {
  event_id = "e1";
  conversation_id = "chat";
  participant_id = "sage";
  device_id = "phone";
  sequence = pos 1;
  occurred_at = pos 1;
  kind = payload_kind (ConversationEventPayload.transcript_partial "t" "move");
  payload = ConversationEventPayload.transcript_partial "t" "move";
}

abbrev after : RelayStore
after = record store {
  events = says ∷ [];
  audit = record store.audit {
    rows = next_entry the_primitives "k" store.audit (event_mutation primitives says context) ∷ [];
  };
}

appended : append_batch primitives store "chat" "phone" (says ∷ []) context ≡ ok (after, 2)
unfolding append_batch find conversation stored_device contains replay events_after first_items
    sort_by keep distinct append_events append_event known_event accept rejection_of
    envelope_rejection new_journal kind_eq apply_payload_state device_rejection get_device
    open_turn_rejection payload_rejection record_event reject transcript_rejection append
    audit_payload insert_row next_entry sign_entry signed_entry tip unsigned_entry verify
    verify_from ◌+ℤ◌ any insert_by audit conversation_of devices_for event_mutation insert_event
appended = refl

same_refl : (e : ConversationEvent) → primitives.same_event e e ≡ true
same_refl e = (eq_iff e.event_id e.event_id).1 refl

append_batch-Acknowledged_example : (c : Conversation) × Acknowledged store after "chat" "phone" 2 c
append_batch-Acknowledged_example =
    append_batch-Acknowledged primitives store after "chat" "phone" (says ∷ []) context 2 appended

abbrev more : ConversationEvent
more = record says { event_id = "e2"; sequence = pos 2; occurred_at = pos 2 }

abbrev tomorrow : TransitionContext
tomorrow = record { actor = "a"; correlation_id = "d"; occurred_at = pos 90 }

-- Another batch of the device, and one of a device that is not known.
abbrev calls : List AppendCall
calls =
    record { conversation_id = "chat"; device_id = "phone"; events = more ∷ []; context = context }
    ∷ record {
      conversation_id = "chat";
      device_id = "watch";
      events = more ∷ [];
      context = context;
    }
    ∷ []

append_batch_again_example :
    let later = append_all primitives calls after in
    (c : Conversation) × (conversation later "chat" "phone" ≡ ok c)
    × (append_batch primitives later "chat" "phone" (says ∷ []) tomorrow
        ≡ ok (later, suc (length (history later c))))
    × (2 ≤ suc (length (history later c)))
append_batch_again_example =
    append_batch_again primitives same_refl "chat" "phone" (says ∷ []) 2 store after context
      tomorrow calls appended
