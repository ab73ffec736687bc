-- ===== src/Ipc/Wire.antt =====
-- The wire structures that the kernel builds and takes apart, and what it calls of the wire
-- library: those functions are fields of `Wire`, a parameter of the definitions that use it.
use veyron.Prelude.{ℕ, Text, Bool, Option, List, [], some, text_eq, nat_eq}
use veyron.Registry.Types.{PermissionType, PluginManifest}

pub record Frame : Type 0 where
  pub magic : ℕ
  pub flags : ℕ
  pub length : ℕ
  pub target : List ℕ
  pub crc32 : ℕ
  pub payload : List ℕ
  pub mac : Option (List ℕ)

pub record PluginRegister : Type 0 where
  pub plugin_id : Text
  pub manifest : Option PluginManifest
  pub jwt_token : Text
  pub protocol_version : Text
  pub device_id : Text
  pub user_id : Text
  pub os : ℕ
  pub arch : Text
  pub os_version : Text
  pub capabilities : List Text

pub record PluginRegisterAck : Type 0 where
  pub accepted : Bool
  pub reject_reason : Text
  pub granted_permissions : List Text
  pub session_nonce : List ℕ

pub record Event : Type 0 where
  pub event_id : Text
  pub event_type : Text
  pub payload_json : List ℕ
  pub retry_count : ℕ

pub record ActionRequest : Type 0 where
  pub action_id : Text
  pub action : Text
  pub params_json : List ℕ
  pub timeout_ms : ℕ
  pub streaming : Bool
  pub caller_plugin_id : Text

-- The statuses that the kernel names.
pub data ActionStatus : Type 0 where
  action_unknown action_ok action_error action_not_found : ActionStatus
  action_permission_deny action_timeout action_quota_exceeded : ActionStatus
  action_stream_backpressure : ActionStatus

pub record ActionResponse : Type 0 where
  pub action_id : Text
  pub status : ActionStatus
  pub data_json : List ℕ
  pub error : Text

pub record ActionRequestChunk : Type 0 where
  pub action_id : Text
  pub seq : ℕ
  pub chunk : List ℕ
  pub final : Bool

pub record ActionResponseChunk : Type 0 where
  pub action_id : Text
  pub seq : ℕ
  pub chunk : List ℕ

pub data ErrorCode : Type 0 where
  err_unknown err_rate_limited err_deserialization err_not_registered : ErrorCode
  err_protocol_mismatch err_permission_denied err_mac_invalid err_mac_missing : ErrorCode

pub data EventPublishStatus : Type 0 where
  event_publish_ok event_publish_permission_deny : EventPublishStatus

pub data Payload : Type 0 where
  plugin_register : PluginRegister → Payload
  plugin_register_ack : PluginRegisterAck → Payload
  ping : ℕ → Payload
  pong : ℕ → ℕ → Payload
  subscribe : List Text → Payload
  unsubscribe : List Text → Payload
  event : Event → Payload
  event_publish : Text → List ℕ → Payload
  event_publish_ack : Text → EventPublishStatus → Text → Payload
  event_ack : Text → Payload
  action_request : ActionRequest → Payload
  action_response : ActionResponse → Payload
  action_request_chunk : ActionRequestChunk → Payload
  action_response_chunk : ActionResponseChunk → Payload
  action_stream_abort : Text → Text → Payload
  session_close : Text → Text → Payload
  kernel_command : Text → Text → List ℕ → Payload
  error_message : ErrorCode → Text → Text → Payload

pub record Envelope : Type 0 where
  pub message_id : Text
  pub sender_id : Text
  pub timestamp : ℕ
  pub payload : Option Payload

-- An envelope with a payload and the defaults elsewhere.
abbrev pub envelope_of : Payload → Envelope
envelope_of p = record { message_id = []; sender_id = []; timestamp = 0; payload = some p }

-- Functions and constants of the wire library, of the protobuf codec and of the checksum library.
pub record Wire : Type 0 where
  pub decode : List ℕ → Option Envelope
  pub encode : Envelope → Option (List ℕ)
  pub crc32_hash : List ℕ → ℕ
  pub target_as_str : Frame → Option Text
  pub from_str_name : Text → Option PermissionType
  pub as_str_name : PermissionType → Text
  pub permission_unknown : PermissionType
  pub permission_ipc_send : PermissionType
  pub permission_audio_stream : PermissionType
  pub permission_event_publish : PermissionType
  pub permission_kernel_admin : PermissionType
  pub flag_raw_binary : ℕ
  pub flag_mac_present : ℕ
  pub flag_fragmented : ℕ
