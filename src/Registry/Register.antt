-- ===== src/Registry/Register.antt =====
-- Registration and removal of plugins.
pub mod Index
pub mod Consistent
pub mod Lookup
use veyron.Prelude.{
  ℕ, Text, text_eq, nat_eq, bytes, is_empty, ◌==◌, any, map, Option, none, some, List, [], ◌∷◌,
  ◌++◌, decimal, ◌/◌, if◌then◌else◌,
}
use veyron.Prelude.Maps.{Map, get, insert, remove, modify, values}
use veyron.Utils.Errors.{Result, ok, err, plugin_already_registered, ◌>>◌}
use veyron.Utils.Validate.{validate_plugin_id}
use veyron.Registry.Types.{
  Sender, Instant, PluginManifest, DeviceMeta, DeviceInfo, DeviceOs, online, offline, PluginEntry,
  registered, unspecified,
}
use veyron.Registry.ActionIndex.{ActionIndex, index_action, unindex_action}
use veyron.Registry.State.{PluginRegistry, clear_action_requirements}

-- The loop over the declared actions.
unfoldable pub index_actions : List Text → Text → ActionIndex → ActionIndex
index_actions [] plugin_id ix = ix
index_actions (action ∷ rest) plugin_id ix =
    index_actions rest plugin_id (index_action action plugin_id ix)

pub unindex_actions : List Text → Text → ActionIndex → ActionIndex
unindex_actions [] plugin_id ix = ix
unindex_actions (action ∷ rest) plugin_id ix =
    unindex_actions rest plugin_id (unindex_action action plugin_id ix)

-- The device record of a registration: refreshed where there is one, else new.
unfoldable pub upsert_device :
    Text → DeviceMeta → List Text → ℕ → Map Text DeviceInfo → Map Text DeviceInfo
upsert_device device_id meta capabilities now_ms devices = elim (get device_id devices) [
  | some dev ↦
      insert device_id
        (record dev {
          last_seen = now_ms;
          state = online;
          os = meta.os;
          arch = meta.arch;
          os_version = meta.os_version;
          capabilities = capabilities;
        })
        devices
  | none ↦
      insert device_id
        (record {
          device_id = device_id;
          os = meta.os;
          arch = meta.arch;
          os_version = meta.os_version;
          capabilities = capabilities;
          last_seen = now_ms;
          state = online;
          created = 0;
          expires = 0;
        })
        devices
]

-- The writes of both registrations, once the slots of the connection and of the id are known free.
unfoldable pub commit :
    PluginEntry → DeviceMeta → List Text → Instant → ℕ → PluginRegistry → PluginRegistry
commit entry meta capabilities now now_ms r = record r {
  by_conn_id = insert entry.conn_id entry.plugin_id r.by_conn_id;
  actions = index_actions entry.manifest.actions entry.plugin_id r.actions;
  pong_times = insert entry.plugin_id now r.pong_times;
  devices = upsert_device entry.device_id meta capabilities now_ms r.devices;
  by_plugin_id = insert entry.plugin_id entry r.by_plugin_id;
}

-- The guards of both registrations.
unfoldable pub check_slots : Text → ℕ → PluginRegistry → Result (Unit {0})
check_slots plugin_id conn_id r = validate_plugin_id plugin_id >> elim (get conn_id r.by_conn_id) [
  | some _ ↦ err (
      plugin_already_registered
        (bytes "connection " ++ (decimal conn_id ++ bytes " already has a registered plugin")))
  | none ↦ elim (get plugin_id r.by_plugin_id) [
    | some _ ↦ err (plugin_already_registered plugin_id)
    | none ↦ ok tt
  ]
]

abbrev pub or_default : Text → Text → Text
or_default s d = if is_empty s then d else s

unfoldable pub register_with_device :
    Text
    → ℕ
    → PluginManifest
    → Sender
    → DeviceMeta
    → Instant
    → ℕ
    → PluginRegistry
    → Result PluginRegistry
register_with_device plugin_id conn_id manifest write_tx meta now now_ms r =
    check_slots plugin_id conn_id r
    >> ok (
        commit
          (record {
            plugin_id = plugin_id;
            conn_id = conn_id;
            manifest = manifest;
            write_tx = write_tx;
            registered_at = now_ms / 1000;
            state = registered;
            device_id = or_default meta.device_id (bytes "local");
            user_id = or_default meta.user_id (bytes "default");
          })
          meta meta.capabilities now now_ms r)

-- `register`: no metadata but the two identities
unfoldable register :
    Text
    → ℕ
    → PluginManifest
    → Sender
    → Text
    → Text
    → Instant
    → ℕ
    → PluginRegistry
    → Result PluginRegistry
unfolding register_with_device
register plugin_id conn_id manifest write_tx device_id user_id now now_ms r =
    register_with_device plugin_id conn_id manifest write_tx
      (record {
        device_id = device_id;
        user_id = user_id;
        os = unspecified;
        arch = [];
        os_version = [];
        capabilities = [];
      })
      now now_ms r

-- A device on one connection: its actions are its capabilities, qualified by its id.
unfoldable pub register_device :
    Text
    → ℕ
    → List Text
    → PluginManifest
    → Sender
    → DeviceMeta
    → Instant
    → ℕ
    → PluginRegistry
    → Result PluginRegistry
register_device device_id conn_id caps manifest write_tx meta now now_ms r =
    check_slots device_id conn_id r
    >> ok (
        commit
          (record {
            plugin_id = device_id;
            conn_id = conn_id;
            manifest = record manifest { actions = map (λ c. device_id ++ (b'.' ∷ c)) caps };
            write_tx = write_tx;
            registered_at = now_ms / 1000;
            state = registered;
            device_id = or_default meta.device_id device_id;
            user_id = or_default meta.user_id (bytes "default");
          })
          meta caps now now_ms r)

pub mark_offline : Text → PluginRegistry → PluginRegistry
mark_offline device_id r =
    if any (λ e. e.device_id == device_id) (values r.by_plugin_id)
    then r
    else record r { devices = modify device_id (λ dev. record dev { state = offline }) r.devices }

pub remove_rows : Text → PluginEntry → PluginRegistry → PluginRegistry
remove_rows plugin_id entry r = clear_action_requirements plugin_id (record r {
  by_plugin_id = remove plugin_id r.by_plugin_id;
  by_conn_id = remove entry.conn_id r.by_conn_id;
  pong_times = remove plugin_id r.pong_times;
  actions = unindex_actions entry.manifest.actions plugin_id r.actions;
})

pub unregister : Text → PluginRegistry → PluginRegistry
unregister plugin_id r = elim (get plugin_id r.by_plugin_id) [
  | none ↦ r
  | some entry ↦ mark_offline entry.device_id (remove_rows plugin_id entry r)
]
