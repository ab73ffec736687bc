-- ===== src/Auth/Permissions.antt =====
-- src/auth/permissions.rs
pub mod Names
pub mod Checks
use veyron.Prelude.{
  Text, text_eq, ◌==◌, any, contains, bytes, strip_prefix, to_ascii_lowercase, to_ascii_uppercase,
  unwrap_or, Option, none, some, ◌++◌, not, nat_eq, if◌then◌else◌, [], ◌∷◌, inl, inr, true, false,
  refl, arith, Bool,
}
use veyron.Prelude.Maps.{get}
use veyron.Utils.Errors.{Result, ok, err, plugin_not_found, permission_denied}
use veyron.Registry.Types.{PermissionType, PluginEntry}
use veyron.Registry.State.{PluginRegistry}
use veyron.Ipc.Wire.{Wire}

-- The warning that the source prints once is left out.
unfoldable pub required_permission_for_action : Text → Option PermissionType
required_permission_for_action action = none

abbrev permission_prefix : Text
permission_prefix = bytes "PERMISSION_"

-- The name without its prefix, if it has one.
pub stripped : Text → Text
stripped s = unwrap_or (strip_prefix permission_prefix s) s

pub resolve_permission : Wire → Text → Option PermissionType
unfolding stripped
resolve_permission w s =
    elim (w.from_str_name (permission_prefix ++ to_ascii_uppercase (stripped s))) [
      | none ↦ none
      | some pt ↦ if pt == w.permission_unknown then none else some pt
    ]

unfoldable pub normalize_permission : Text → Text
unfolding stripped
normalize_permission s = to_ascii_lowercase (stripped s)

pub check_permission : Wire → PluginRegistry → Text → PermissionType → Result (Unit {0})
check_permission w r plugin_id required = elim (get plugin_id r.by_plugin_id) [
  | none ↦ err (plugin_not_found plugin_id)
  | some entry ↦
      let required_norm = normalize_permission (w.as_str_name required) in
      if any (λ p. normalize_permission p == required_norm) entry.manifest.permissions
      then ok tt
      else err (permission_denied (plugin_id ++ (bytes " lacks " ++ w.as_str_name required)))
]

unfoldable pub check_ipc_send : Wire → PluginRegistry → Text → Result (Unit {0})
unfolding check_permission
check_ipc_send w r plugin_id = check_permission w r plugin_id w.permission_ipc_send

-- Whether the target is registered under another user.
abbrev pub cross_user : PluginEntry → Option PluginEntry → Bool
cross_user entry none = false
cross_user entry (some target) = not (target.user_id == entry.user_id)

pub check_ipc_target : PluginRegistry → Text → Text → Result (Unit {0})
check_ipc_target r sender_id target_id = elim (get sender_id r.by_plugin_id) [
  | none ↦ err (plugin_not_found sender_id)
  | some entry ↦
      if cross_user entry (get target_id r.by_plugin_id)
      then err (
          permission_denied (
            bytes "cross-user IPC denied: "
            ++ (sender_id
                ++ (bytes " (user "
                    ++ (entry.user_id
                        ++ (bytes ") -> "
                            ++ (target_id
                                ++ (bytes " (user "
                                    ++ (elim (get target_id r.by_plugin_id) [
                                      | none ↦ []
                                      | some t ↦ t.user_id
                                    ]
                                        ++ bytes ")")))))))))
      else if contains entry.manifest.ipc_targets target_id
      then ok tt
      else err
          (permission_denied (sender_id ++ (bytes " ipc_targets does not include " ++ target_id)))
]
