-- ===== src/Examples/Data.antt =====
-- Two plugins of one user, each on its own connection.
use veyron.Registry.State.{PluginRegistry, new}
use veyron.Registry.Types.{
  PluginManifest, DeviceInfo, PluginEntry, DeviceMeta, Sender, unspecified, linux, registered,
  online,
}
use veyron.Prelude.{bytes, text_eq, nat_eq, [], ◌∷◌, List, Text, ℕ}

abbrev pub alice : Text
alice = bytes "alice"

abbrev pub bob : Text
bob = bytes "bob"

abbrev pub play : Text
play = bytes "play"

abbrev pub manifest : List Text → List Text → PluginManifest
manifest actions ipc_targets = record {
  permissions = bytes "PERMISSION_IPC_SEND" ∷ [];
  actions = actions;
  events = [];
  ipc_targets = ipc_targets;
  platforms = [];
  action_specs = [];
}

abbrev pub no_meta : DeviceMeta
no_meta = record {
  device_id = [];
  user_id = [];
  os = unspecified;
  arch = [];
  os_version = [];
  capabilities = [];
}

abbrev pub device_meta : DeviceMeta
device_meta = record {
  device_id = bytes "lamp";
  user_id = [];
  os = linux;
  arch = [];
  os_version = [];
  capabilities = play ∷ [];
}

abbrev pub entry : Text → ℕ → PluginManifest → Sender → PluginEntry
entry plugin_id conn_id m tx = record {
  plugin_id = plugin_id;
  conn_id = conn_id;
  manifest = m;
  write_tx = tx;
  registered_at = 0;
  state = registered;
  device_id = bytes "local";
  user_id = bytes "default";
}

abbrev pub alice_entry : PluginEntry
alice_entry = entry alice 1 (manifest (play ∷ []) []) 10

abbrev bob_entry : PluginEntry
bob_entry = entry bob 2 (manifest [] (alice ∷ [])) 20

abbrev local_device : DeviceInfo
local_device = record {
  device_id = bytes "local";
  os = unspecified;
  arch = [];
  os_version = [];
  capabilities = [];
  last_seen = 0;
  state = online;
  created = 0;
  expires = 0;
}

-- The registry after the registration of the first plugin.
abbrev pub alice_registry : PluginRegistry
alice_registry = record new {
  by_plugin_id = (alice, alice_entry) ∷ [];
  by_conn_id = (1, alice) ∷ [];
  pong_times = (alice, 0) ∷ [];
  devices = (bytes "local", local_device) ∷ [];
  actions = record { action_index = (play, alice) ∷ []; ambiguous_actions = [] };
}

-- The registry after the registration of both.
abbrev pub both_registry : PluginRegistry
both_registry = record alice_registry {
  by_plugin_id = (alice, alice_entry) ∷ (bob, bob_entry) ∷ [];
  by_conn_id = (1, alice) ∷ (2, bob) ∷ [];
  pong_times = (alice, 0) ∷ (bob, 0) ∷ [];
}

-- The registry after the registration of a device with one capability.
abbrev pub lamp_registry : PluginRegistry
lamp_registry = record alice_registry {
  by_plugin_id =
      (alice, alice_entry)
      ∷ (
        bytes "lamp",
        record (entry (bytes "lamp") 3 (manifest (bytes "lamp.play" ∷ []) []) 30) {
          device_id = bytes "lamp";
        },
      )
      ∷ [];
  by_conn_id = (1, alice) ∷ (3, bytes "lamp") ∷ [];
  pong_times = (alice, 0) ∷ (bytes "lamp", 0) ∷ [];
  devices =
      (bytes "local", local_device)
      ∷ (
        bytes "lamp",
        record local_device { device_id = bytes "lamp"; os = linux; capabilities = play ∷ [] },
      )
      ∷ [];
  actions = record {
    action_index = (play, alice) ∷ (bytes "lamp.play", bytes "lamp") ∷ [];
    ambiguous_actions = [];
  };
}
