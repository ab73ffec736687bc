-- ===== src/Examples/Auth.antt =====
-- Permissions by their two spellings, and a target on the allowlist.
use veyron.Auth.Permissions.Checks.{check_ipc_target_iff}
use veyron.Prelude.Maps.{get}
use veyron.Registry.Types.{PluginEntry}
use veyron.Utils.Errors.{ok}
use veyron.Auth.Permissions.{check_ipc_target, normalize_permission}
use veyron.Prelude.{
  strip_prefix, lower_byte, bytes, text_eq, nat_eq, ◌≡◌, refl, some, true, ◌↔◌, contains,
}
use veyron.Examples.Data.{alice, bob, both_registry}

same_name :
    normalize_permission (bytes "ipc_send") ≡ normalize_permission (bytes "PERMISSION_IPC_SEND")
unfolding normalize_permission strip_prefix lower_byte
same_name = refl

check_ipc_target_iff_example : (check_ipc_target both_registry bob alice ≡ ok tt) ↔ (
    (e : PluginEntry) × (get bob both_registry.by_plugin_id ≡ some e)
    × (contains e.manifest.ipc_targets alice ≡ true)
    × ((t : PluginEntry) → get alice both_registry.by_plugin_id ≡ some t → t.user_id ≡ e.user_id))
check_ipc_target_iff_example = check_ipc_target_iff both_registry bob alice
