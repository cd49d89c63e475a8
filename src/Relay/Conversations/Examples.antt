-- ===== src/Relay/Conversations/Examples.antt =====
-- relay_store.py: one conversation that is created, sent again, deleted, and expired.
use personal_secretary.Prelude.{
  ℕ, String, true, some, [], ◌∷◌, ◌++◌, ◌≡◌, refl, keep, any, find, contains,
}
use personal_secretary.Prelude.Int.{ℤ, pos, ◌+ℤ◌}
use personal_secretary.Prelude.Sort.{sort_by, insert_by}
use personal_secretary.Prelude.Results.{ok}
use personal_secretary.Conversation.Events.{Conversation, ConversationDevice, DeviceKind}
use personal_secretary.Ledger.{
  TransitionContext, genesis, next_entry, verify, verify_from, insert_row, append, sign_entry,
  signed_entry, unsigned_entry, audit_payload, tip,
}
use personal_secretary.Relay.{
  RelayPrimitives, ConversationRecord, conversation, conversation_of, stored_device, devices_for,
  audit,
}
use personal_secretary.Relay.Conversations.{
  RelayTables, create, delete, purge, purge_all, expire, due_rows, without_conversation,
  event_count, content_mutation, new_record, with_conversation,
}
use personal_secretary.Relay.Conversations.Deleted.{Forgotten, delete-Forgotten}
use personal_secretary.Relay.Conversations.Created.{create_again}
use personal_secretary.Relay.Conversations.Expired.{Expired, expire-Expired}

abbrev primitives : RelayPrimitives
primitives = record {
  same_event = λ a b. true;
  is_aware = λ e. true;
  event_bytes = λ e. 200;
  event_json = λ e. e.event_id;
  hmac = λ text. text;
  audit = record {
    digest = λ key text. text;
    decimal = λ n. "n";
    isoformat = λ t. "t";
    json_state = λ state. state;
    separator = "|";
  };
  audit_key = "k";
}

abbrev record_json : ConversationRecord → String
record_json r = r.record_id

abbrev decimal : ℕ → String
decimal n = "n"

abbrev context : TransitionContext
context = record { actor = "a"; correlation_id = "c"; occurred_at = pos 10 }

abbrev phone : ConversationDevice
phone = record {
  device_id = "phone";
  participant_id = "sage";
  kind = DeviceKind.ios;
  name = "Phone";
  created_at = pos 0;
}

abbrev empty : RelayTables
empty = record {
  relay = record {
    devices = phone ∷ [];
    conversations = [];
    events = [];
    audit = record { rows = []; anchor = some (pos 0, genesis) };
  };
  retention = [];
  other_events = [];
  unlinked = [];
}

abbrev row : ConversationRecord
row = new_record "chat" "Plans" phone context

abbrev one : RelayTables
one = with_conversation empty row context (record empty.relay.audit {
  rows =
      next_entry primitives.audit "k" empty.relay.audit (
        content_mutation primitives record_json decimal "chat" "conversation.created" "chat"
          context)
      ∷ [];
})

abbrev chat : Conversation
chat = conversation_of one.relay row

created_chat :
    create primitives record_json decimal empty "chat" "Plans" "phone" context ≡ ok (one, chat)
unfolding create conversation conversation_of stored_device find any contains devices_for keep audit
    verify verify_from append next_entry signed_entry sign_entry unsigned_entry audit_payload tip
    insert_row ◌+ℤ◌
created_chat = refl

create_again_example :
    create primitives record_json decimal one "chat" "Plans" "phone" context ≡ ok (one, chat)
create_again_example =
    create_again primitives record_json decimal "chat" "Plans" "phone" context empty one chat
      context created_chat

-- The tables with an agent turn of the conversation.
abbrev spoken : RelayTables
spoken = record one { other_events = record { record_id = "turn"; conversation_id = "chat" } ∷ [] }

abbrev gone : RelayTables
gone = record (without_conversation spoken "chat") {
  relay = record (without_conversation spoken "chat").relay {
    audit = record one.relay.audit {
      rows =
          one.relay.audit.rows
          ++ next_entry primitives.audit "k" one.relay.audit (
              content_mutation primitives record_json decimal "chat" "conversation.deleted" "chat:n"
                context)
            ∷ [];
    };
  };
}

deleted_chat : delete primitives record_json decimal spoken "chat" "phone" context ≡ ok (gone, 1)
unfolding delete purge without_conversation event_count conversation conversation_of stored_device
    find any contains devices_for keep audit verify verify_from append next_entry signed_entry
    sign_entry unsigned_entry audit_payload tip insert_row ◌+ℤ◌
deleted_chat = refl

delete-Forgotten_example : Forgotten spoken gone "chat" 1
delete-Forgotten_example =
    delete-Forgotten primitives record_json decimal spoken gone "chat" "phone" context 1
      deleted_chat

abbrev later : ℤ
later = pos 15552000000010

expired_chat : (expire primitives record_json decimal later context spoken).1 ≡ ok 1
unfolding expire purge_all purge without_conversation event_count sort_by insert_by conversation
    conversation_of stored_device find any contains devices_for keep audit verify verify_from append
    next_entry signed_entry sign_entry unsigned_entry audit_payload tip insert_row ◌+ℤ◌
expired_chat = refl

expire-Expired_example :
    Expired later spoken
      (expire primitives record_json decimal later context spoken).0
      (due_rows later spoken)
expire-Expired_example =
    expire-Expired later primitives record_json decimal context spoken 1 expired_chat
