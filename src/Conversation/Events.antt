-- ===== src/Conversation/Events.antt =====
-- conversation_api.py: the records and enumerations of the contract.
use personal_secretary.Prelude.{ℕ, String, Bool, true, false, List, ◌==◌}
use personal_secretary.Prelude.Int.{ℤ, pos, negsuc}

pub data ParticipantKind : Type 0 where
  user agent : ParticipantKind

pub data DeviceKind : Type 0 where
  ios mac web channel : DeviceKind

pub data ChannelKind : Type 0 where
  openclaw_webchat telegram imessage email : ChannelKind

pub data ChannelBindingState : Type 0 where
  active revoked : ChannelBindingState

pub data ConversationState : Type 0 where
  active cancelled completed : ConversationState

abbrev pub is_active : ConversationState → Bool
is_active ConversationState.active = true
is_active ConversationState.cancelled = false
is_active ConversationState.completed = false

pub data ConversationEventKind : Type 0 where
  transcript_partial transcript_final attachment tool_result cancellation resume error :
      ConversationEventKind

pub data ToolResultStatus : Type 0 where
  ok error : ToolResultStatus

pub record ConversationParticipant : Type 0 where
  pub participant_id : String
  pub kind : ParticipantKind
  pub display_name : String
  pub created_at : ℤ

pub record ChannelBinding : Type 0 where
  pub binding_id : String
  pub conversation_id : String
  pub channel_kind : ChannelKind
  pub external_channel_id : String
  pub external_user_id : String
  pub bound_at : ℤ
  pub state : ChannelBindingState

pub record ConversationDevice : Type 0 where
  pub device_id : String
  pub participant_id : String
  pub kind : DeviceKind
  pub name : String
  pub created_at : ℤ

pub record Conversation : Type 0 where
  pub conversation_id : String
  pub title : String
  pub participant_ids : List String
  pub device_ids : List String
  pub created_at : ℤ
  pub state : ConversationState

-- The union of the seven payload classes, each with its fields in order.
pub data ConversationEventPayload : Type 0 where
  transcript_partial transcript_final : String → String → ConversationEventPayload
  attachment : String → String → ℤ → String → ConversationEventPayload
  tool_result : String → String → ToolResultStatus → String → ConversationEventPayload
  cancellation resume : String → String → ConversationEventPayload
  error : String → String → Bool → ConversationEventPayload

-- `payload.kind`
abbrev pub payload_kind : ConversationEventPayload → ConversationEventKind
payload_kind (ConversationEventPayload.transcript_partial turn_id text) =
    ConversationEventKind.transcript_partial
payload_kind (ConversationEventPayload.transcript_final turn_id text) =
    ConversationEventKind.transcript_final
payload_kind (ConversationEventPayload.attachment attachment_id mime_type size_bytes reference) =
    ConversationEventKind.attachment
payload_kind (ConversationEventPayload.tool_result tool_call_id tool_name status reference) =
    ConversationEventKind.tool_result
payload_kind (ConversationEventPayload.cancellation turn_id reason) =
    ConversationEventKind.cancellation
payload_kind (ConversationEventPayload.resume turn_id resume_from_turn_id) =
    ConversationEventKind.resume
payload_kind (ConversationEventPayload.error code message retryable) = ConversationEventKind.error

unfoldable pub kind_eq : ConversationEventKind → ConversationEventKind → Bool
kind_eq ConversationEventKind.transcript_partial ConversationEventKind.transcript_partial = true
kind_eq ConversationEventKind.transcript_final ConversationEventKind.transcript_final = true
kind_eq ConversationEventKind.attachment ConversationEventKind.attachment = true
kind_eq ConversationEventKind.tool_result ConversationEventKind.tool_result = true
kind_eq ConversationEventKind.cancellation ConversationEventKind.cancellation = true
kind_eq ConversationEventKind.resume ConversationEventKind.resume = true
kind_eq ConversationEventKind.error ConversationEventKind.error = true
kind_eq _ _ = false

pub record ConversationEvent : Type 0 where
  pub event_id : String
  pub conversation_id : String
  pub participant_id : String
  pub device_id : String
  pub sequence : ℤ
  pub occurred_at : ℤ
  pub kind : ConversationEventKind
  pub payload : ConversationEventPayload

-- `event.sequence == self._next_sequence`
abbrev pub is_next : ℤ → ℕ → Bool
is_next (pos n) next = n == next
is_next (negsuc n) next = false
