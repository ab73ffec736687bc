-- ===== src/Registry/State.antt =====
-- `PluginRegistry` and its lookups.
use veyron.Prelude.{
  ℕ, Text, text_eq, nat_eq, ◌==◌, contains, any, split_once, and_then, Bool, false, ◌||◌, Option,
  none, some, List, [], if◌then◌else◌,
}
use veyron.Prelude.Maps.{Map, get, insert, remove, modify, contains_key, values}
use veyron.Registry.Types.{
  Instant, PermissionType, DeviceInfo, online, PluginEntry, ActionLookup, not_found, found,
  ambiguous, PendingAction,
}
use veyron.Registry.ActionIndex.{ActionIndex}
use veyron.Registry.ActionIndex

pub record PluginRegistry : Type 0 where
  pub by_plugin_id : Map Text PluginEntry
  pub by_conn_id : Map ℕ Text
  pub pong_times : Map Text Instant
  pub devices : Map Text DeviceInfo
  pub pending_actions : Map Text PendingAction
  pub action_requirements : Map Text (Map Text PermissionType)
  pub actions : ActionIndex
  pub open actions use *

-- `PluginRegistry::new`
abbrev pub new : PluginRegistry
new = record {
  by_plugin_id = [];
  by_conn_id = [];
  pong_times = [];
  devices = [];
  pending_actions = [];
  action_requirements = [];
  actions = ActionIndex.empty;
}

-- `PluginRegistry::get`; the next definitions are the methods of their names, too.
abbrev get_plugin : Text → PluginRegistry → Option PluginEntry
get_plugin plugin_id r = get plugin_id r.by_plugin_id

abbrev get_device : Text → PluginRegistry → Option DeviceInfo
get_device device_id r = get device_id r.devices

abbrev list_devices : PluginRegistry → List DeviceInfo
list_devices r = values r.devices

abbrev pub list : PluginRegistry → List PluginEntry
list r = values r.by_plugin_id

abbrev last_pong : Text → PluginRegistry → Option Instant
last_pong plugin_id r = get plugin_id r.pong_times

abbrev is_registered : ℕ → PluginRegistry → Bool
is_registered conn_id r = contains_key conn_id r.by_conn_id

abbrev pub get_by_conn_id : ℕ → PluginRegistry → Option PluginEntry
get_by_conn_id conn_id r =
    and_then (get conn_id r.by_conn_id) (λ plugin_id. get plugin_id r.by_plugin_id)

unfoldable pub record_pong : Text → Instant → ℕ → PluginRegistry → PluginRegistry
record_pong plugin_id now now_ms r =
    let r' : PluginRegistry = record r { pong_times = insert plugin_id now r.pong_times } in
    elim (get plugin_id r'.by_plugin_id) [
      | some entry ↦ record r' {
        devices =
            modify entry.device_id (λ dev. record dev { last_seen = now_ms; state = online })
              r'.devices;
      }
      | none ↦ r'
    ]

abbrev pub set_action_requirements :
    Text → Map Text PermissionType → PluginRegistry → PluginRegistry
set_action_requirements plugin_id requirements r = record r {
  action_requirements = insert plugin_id requirements r.action_requirements;
}

abbrev pub action_requirement : Text → Text → PluginRegistry → Option PermissionType
action_requirement plugin_id action r = and_then (get plugin_id r.action_requirements) (get action)

abbrev pub clear_action_requirements : Text → PluginRegistry → PluginRegistry
clear_action_requirements plugin_id r = record r {
  action_requirements = remove plugin_id r.action_requirements;
}

unfoldable pub find_action_provider : Text → PluginRegistry → ActionLookup
find_action_provider action r = elim (get action r.ambiguous_actions) [
  | some ids ↦ ambiguous ids
  | none ↦ elim (get action r.action_index) [
    | some provider_id ↦ elim (get provider_id r.by_plugin_id) [
      | some entry ↦ found entry
      | none ↦ not_found
    ]
    | none ↦ not_found
  ]
]

-- Whether an action of the manifest has this capability behind its first dot.
abbrev has_capability : Text → Text → Bool
has_capability cap action = elim (split_once b'.' action) [ none ↦ false | some (_, c) ↦ c == cap ]

abbrev capability_declared : Text → Text → Text → PluginEntry → PluginRegistry → Bool
capability_declared target dev cap entry r =
    contains entry.manifest.actions target
    || any (has_capability cap) entry.manifest.actions
    || elim (get dev r.devices) [ none ↦ false | some d ↦ contains d.capabilities cap ]

unfoldable pub get_mux : Text → PluginRegistry → Option PluginEntry
get_mux target r = elim (get target r.by_plugin_id) [
  | some entry ↦ some entry
  | none ↦ elim (split_once b'.' target) [
    | none ↦ none
    | some (dev, cap) ↦ elim (get dev r.by_plugin_id) [
      | none ↦ none
      | some entry ↦ if capability_declared target dev cap entry r then some entry else none
    ]
  ]
]
