-- ===== src/Ipc/Router/Registration.antt =====
-- `MessageRouter::handle_kernel_message`: the arm for the registration of a plugin.
pub mod Checks
pub mod Granted
use veyron.Prelude.{
  [], ◌∷◌, none, some, inl, inr, true, false, refl, text_eq, nat_eq, arith, if◌then◌else◌, ==_iff,
  ==_refl, Option-cases, Bool-cases, ◌≡◌, zero, suc, List, Option, Bool, Text, ℕ, unwrap_or, ◌==◌,
  bytes, not, and_then, is_some, contains, retain, ◌⊎◌, ◌&&◌, ◌||◌, map, map_option, ◌++◌, is_empty,
  decimal, split_once,
}
use veyron.Utils.Errors.{Result, ok, err, display}
use veyron.Auth.Jwt.{Decoder, PluginClaims, validate}
use veyron.Auth.Permissions.{normalize_permission}
use veyron.Registry.Types.{
  PluginManifest, DeviceMeta, DeviceOs, PluginEntry, ActionSpec, unspecified,
}
use veyron.Registry.State.{PluginRegistry}
use veyron.Registry.Register.{register_device, register_with_device}
use veyron.Events.Delivery.{publish}
use veyron.Ipc.Wire.{
  Wire, Event, Envelope, PluginRegister, PluginRegisterAck, plugin_register_ack,
  err_protocol_mismatch,
}
use veyron.Ipc.Channels.{Channels, enable_mac}
use veyron.Ipc.Kernel.{
  Kernel, Now, IncomingMessage, send_envelope, send_error, send_register_reject,
}
use veyron.Ipc.Router.Actions.{follow_up}
use veyron.Ipc.Router.Forward.{is_ok}
use veyron.Prelude.Maps.{Map, get}

-- What an event says of a plugin that comes or goes.
pub record Lifecycle : Type 0 where
  pub plugin_id : Text
  pub device_id : Text
  pub os : DeviceOs
  pub capabilities : List Text
  pub action_specs : List ActionSpec

-- The settings of the kernel, and what the registration calls outside of it: the token library's
-- check, the store of paired devices, the derivation of a key, the wire's number of a platform, and
-- the text of an event.
pub record Settings : Type 0 where
  pub jwt : Option Decoder
  pub mac_secret : Option (List ℕ)
  pub active_secret : Option (Text → Result (Option Text))
  pub config_permissions : Option (Map Text (List Text))
  pub wire_version : Text
  pub derive_session_key : List ℕ → List ℕ → Text → List ℕ
  pub device_os : ℕ → DeviceOs
  pub lifecycle_json : Lifecycle → List ℕ

unfoldable pub plugin_lifecycle : PluginRegistry → Text → Lifecycle
plugin_lifecycle r plugin_id =
    let entry : Option PluginEntry = get plugin_id r.by_plugin_id in
    let device_id : Text = unwrap_or (map_option (λ e. e.device_id) entry) [] in
    record {
      plugin_id = plugin_id;
      device_id = device_id;
      os = unwrap_or (map_option (λ d. d.os) (get device_id r.devices)) unspecified;
      capabilities = unwrap_or (map_option (λ d. d.capabilities) (get device_id r.devices)) [];
      action_specs = unwrap_or (map_option (λ e. e.manifest.action_specs) entry) [];
    }

-- `version.split('.').next()`
abbrev major : Text → Text
major version = unwrap_or (map_option (λ p. p.0) (split_once b'.' version)) version

abbrev pub is_incompatible : Settings → PluginRegister → Bool
is_incompatible cfg reg =
    not (is_empty reg.protocol_version)
    && not (major reg.protocol_version == major cfg.wire_version)

-- A token is for the plugin, or for the device that the plugin names.
abbrev pub is_for : PluginClaims → PluginRegister → Bool
is_for claims reg =
    claims.sub == reg.plugin_id || (not (is_empty reg.device_id) && claims.sub == reg.device_id)

-- The manifest with the token's permissions and targets, or the reason of the rejection.
unfoldable pub authenticate : Settings → PluginRegister → PluginManifest → Text ⊎ PluginManifest
authenticate cfg reg manifest = elim cfg.jwt [
  | none ↦ inr manifest
  | some decode ↦ elim (validate decode reg.jwt_token) [
    | err e ↦ inl (bytes "authentication failed")
    | ok claims ↦
        if is_for claims reg
        then inr
            record manifest { permissions = claims.permissions; ipc_targets = claims.ipc_targets }
        else inl (bytes "token plugin_id mismatch")
  ]
]

abbrev unknown_device : Text
unknown_device = bytes "unknown device " ++ (0xe2 ∷ 0x80 ∷ 0x94 ∷ bytes " pair it first")

-- The secret of a device's credential, where the device must have one.
unfoldable pub device_secret : Settings → PluginRegister → Text ⊎ Option (List ℕ)
device_secret cfg reg =
    if not (is_empty reg.device_id) && is_some cfg.mac_secret
    then elim cfg.active_secret [
      | none ↦ inr none
      | some store ↦ elim (store reg.device_id) [
        | ok (some secret) ↦ inr (some secret)
        | ok none ↦ inl unknown_device
        | err e ↦ inl (display e)
      ]
    ]
    else inr none

abbrev pub operator_allows : List Text → Text → Bool
operator_allows allowed p = contains (map normalize_permission allowed) (normalize_permission p)

-- The operator's list for the plugin; an empty one does not restrict it.
abbrev pub allowlist : Settings → Text → Option (List Text)
allowlist cfg plugin_id = and_then cfg.config_permissions (λ m. get plugin_id m)

unfoldable pub clamp : Settings → Text → PluginManifest → PluginManifest
clamp cfg plugin_id manifest = elim (allowlist cfg plugin_id) [
  | none ↦ manifest
  | some [] ↦ manifest
  | some (a ∷ allowed) ↦ record manifest {
    permissions = retain (operator_allows (a ∷ allowed)) manifest.permissions;
  }
]

abbrev pub is_none_declared : List Text → Bool
is_none_declared [] = true
is_none_declared (c ∷ cs) = false

abbrev pub is_mux_device : PluginRegister → Bool
is_mux_device reg =
    (not (is_none_declared reg.capabilities) && not (is_empty reg.device_id))
    && reg.plugin_id == reg.device_id

abbrev pub meta_of : Settings → PluginRegister → DeviceMeta
meta_of cfg reg = record {
  device_id = reg.device_id;
  user_id = reg.user_id;
  os = cfg.device_os reg.os;
  arch = reg.arch;
  os_version = reg.os_version;
  capabilities = reg.capabilities;
}

unfoldable pub enter :
    Settings
    → Now
    → IncomingMessage
    → PluginRegister
    → PluginManifest
    → PluginRegistry
    → Result PluginRegistry
enter cfg now msg reg manifest r =
    if is_mux_device reg
    then register_device reg.device_id msg.conn_id reg.capabilities manifest msg.write_tx
        (meta_of cfg reg) now.instant now.unix_ms r
    else register_with_device reg.plugin_id msg.conn_id manifest msg.write_tx (meta_of cfg reg)
        now.instant now.unix_ms r

abbrev pub default_manifest : PluginManifest
default_manifest = record {
  permissions = [];
  actions = [];
  events = [];
  ipc_targets = [];
  platforms = [];
  action_specs = [];
}

abbrev granted_permissions : PluginRegistry → Text → List Text
granted_permissions r plugin_id =
    unwrap_or (map_option (λ e. e.manifest.permissions) (get plugin_id r.by_plugin_id)) []

module _ {S : Type 0} (ch : Channels S) (w : Wire) (now : Now) (cfg : Settings) where
  -- The answer to a registration that the registry took, the key of the connection's tags after it,
  -- and the event.
  unfoldable pub welcome :
      IncomingMessage → Envelope → PluginRegister → Option (List ℕ) → List ℕ → Kernel S → Kernel S
  welcome msg env reg secret nonce k =
      let session_nonce : List ℕ = if is_some cfg.mac_secret then nonce else [] in
      let acked : Kernel S =
        send_envelope ch w now msg.write_tx
          (follow_up env (
            plugin_register_ack record {
              accepted = true;
              reject_reason = [];
              granted_permissions = granted_permissions k.registry reg.plugin_id;
              session_nonce = session_nonce;
            }))
          k in
      let armed : Kernel S = record acked {
        chans = elim cfg.mac_secret [
          | none ↦ acked.chans
          | some master ↦
              (ch.send msg.write_tx
                (enable_mac
                  (cfg.derive_session_key (unwrap_or secret master) session_nonce reg.plugin_id))
                acked.chans).0
        ];
      } in
      publish ch w now
        (record {
          event_id = bytes "sys-joined-" ++ (reg.plugin_id ++ (bytes "-" ++ decimal now.unix_ms));
          event_type = bytes "system.plugin_joined";
          payload_json = cfg.lifecycle_json (plugin_lifecycle armed.registry reg.plugin_id);
          retry_count = 0;
        })
        armed

  unfoldable pub turn_away : IncomingMessage → Envelope → Text → Kernel S → Kernel S
  turn_away msg env reason k =
      send_envelope ch w now msg.write_tx
        (follow_up env (
          plugin_register_ack record {
            accepted = false;
            reject_reason = reason;
            granted_permissions = [];
            session_nonce = [];
          }))
        k

  -- `nonce` is the random value that a registration gets where tags are on.
  unfoldable pub handle_register :
      IncomingMessage → Envelope → PluginRegister → List ℕ → Kernel S → Kernel S × Bool
  unfolding authenticate device_secret clamp enter welcome turn_away
  handle_register msg env reg nonce k =
      if is_incompatible cfg reg
      then (
        send_error ch w now msg.write_tx err_protocol_mismatch
            (bytes "protocol version "
              ++ (reg.protocol_version ++ (bytes " incompatible with kernel " ++ cfg.wire_version)))
            k,
        true,
      )
      else elim (authenticate cfg reg (unwrap_or reg.manifest default_manifest)) [
        | inl reason ↦ (send_register_reject ch w now msg.write_tx reason k, true)
        | inr manifest ↦ elim (device_secret cfg reg) [
          | inl reason ↦ (send_register_reject ch w now msg.write_tx reason k, true)
          | inr secret ↦
              elim (enter cfg now msg reg (clamp cfg reg.plugin_id manifest) k.registry) [
                | err e ↦ (turn_away msg env (display e) k, false)
                | ok r ↦ (welcome msg env reg secret nonce (record k { registry = r }), false)
              ]
        ]
      ]
