-- ===== src/Auth/Permissions/Checks.antt =====
-- What the checks let pass.
use veyron.Prelude.Maps.{get}
use veyron.Utils.Errors.{ok}
use veyron.Registry.State.{PluginRegistry}
use veyron.Prelude.{
  some, inl, inr, true, text_eq, nat_eq, arith, Text, ◌≡◌, ◌↔◌, contains, Option-cases, ==_iff,
}
use veyron.Registry.Types.{PluginEntry}
use veyron.Auth.Permissions.{check_ipc_target}

-- A plugin of the registry may send to a target exactly if it lists the target, and the target, if
-- it is registered, belongs to the same user.
pub check_ipc_target_iff :
    (r : PluginRegistry) (sender target : Text)
    → (check_ipc_target r sender target ≡ ok tt) ↔ (
        (e : PluginEntry) × (get sender r.by_plugin_id ≡ some e)
        × (contains e.manifest.ipc_targets target ≡ true)
        × ((t : PluginEntry) → get target r.by_plugin_id ≡ some t → t.user_id ≡ e.user_id))
unfolding check_ipc_target
check_ipc_target_iff r sender target = (
  λ h. elim (Option-cases (get sender r.by_plugin_id)) [
    | inl e ↦ absurd (ground arith)
    | inr (entry, e) ↦
        (entry, e, ground arith, λ t f. ground (arith, ==_iff t.user_id entry.user_id))
  ],
  λ (entry, e, listed, same). elim (Option-cases (get target r.by_plugin_id)) [
    | inl f ↦ ground arith
    | inr (t, f) ↦ ground (arith, same t f, ==_iff t.user_id entry.user_id)
  ],
)
