-- ===== src/Registry/Types.antt =====
-- The data of src/plugins/registry.rs, with the wire structures that it stores.
use veyron.Prelude.{ℕ, Text, Bool, List}

-- The name of a connection's write channel.
abbrev pub Sender : Type 0
Sender = ℕ

-- A point of the monotonic clock, in milliseconds.
abbrev pub Instant : Type 0
Instant = ℕ

-- A wire permission, by its number.
abbrev pub PermissionType : Type 0
PermissionType = ℕ

-- The variants that the kernel names.
pub data DeviceOs : Type 0 where
  unspecified linux macos windows android ios freebsd : DeviceOs

pub data DeviceState : Type 0 where
  online offline revoked : DeviceState

pub record ActionSpec : Type 0 where
  pub name : Text
  pub description : Text
  pub params_schema : Text
  pub risk : ℕ
  pub requires_confirmation : Bool

-- The fields of the wire manifest that the kernel reads.
pub record PluginManifest : Type 0 where
  pub permissions : List Text
  pub actions : List Text
  pub events : List Text
  pub ipc_targets : List Text
  pub platforms : List Text
  pub action_specs : List ActionSpec

pub record DeviceMeta : Type 0 where
  pub device_id : Text
  pub user_id : Text
  pub os : DeviceOs
  pub arch : Text
  pub os_version : Text
  pub capabilities : List Text

pub record DeviceInfo : Type 0 where
  pub device_id : Text
  pub os : DeviceOs
  pub arch : Text
  pub os_version : Text
  pub capabilities : List Text
  pub last_seen : ℕ
  pub state : DeviceState
  pub created : ℕ
  pub expires : ℕ

pub data PluginState : Type 0 where
  registered : PluginState

pub record PluginEntry : Type 0 where
  pub plugin_id : Text
  pub conn_id : ℕ
  pub manifest : PluginManifest
  pub write_tx : Sender
  pub registered_at : ℕ
  pub state : PluginState
  pub device_id : Text
  pub user_id : Text

pub data ActionLookup : Type 0 where
  not_found : ActionLookup
  found : PluginEntry → ActionLookup
  ambiguous : List Text → ActionLookup

pub record PendingAction : Type 0 where
  pub requester_write_tx : Sender
  pub original_action_id : Text
  pub requester_id : Text
  pub deadline : Instant
  pub provider_id : Text
  pub streaming : Bool
  pub session_accepted : Bool
  pub last_activity : Instant
