-- ===== src/Plugins/Start.antt =====
-- src/plugins/loader.rs: the start of the plugins of the configuration.
pub mod Fallback
use veyron.Prelude.{
  [], ◌∷◌, none, some, inl, inr, true, false, refl, text_eq, nat_eq, arith, if◌then◌else◌, ==_iff,
  ==_refl, Option-cases, Bool-cases, ◌≡◌, zero, suc, List, Option, Bool, Text, ℕ, add, any, bytes,
  contains, map_option, ◌==◌, and_then, ◌++◌, ◌⊎◌, all, retain, not,
}
use veyron.Utils.Errors.{Result, ok, err, permission_denied}
use veyron.Auth.Permissions.{normalize_permission, resolve_permission}
use veyron.Supervisor.State.{PluginConfig}
use veyron.Registry.State.{PluginRegistry, set_action_requirements}
use veyron.Registry.Types.{PermissionType}
use veyron.Events.Bus
use veyron.Ipc.Wire.{Wire}
use veyron.Plugins.Loader.{PluginDef, Deps, topo_sort, config_from_def}
use veyron.Prelude.Maps.{Map, get, insert}

-- What the kernel reads of a plugin's manifest on disk.
pub record InstallManifest : Type 0 where
  pub permissions : List Text
  pub requires : List Text
  -- the actions, each with the permission that it asks for
  pub actions : List (Text × Option Text)
  pub events : List Text

-- The file and its check by the wire library: no manifest, one that is valid, or an error.
abbrev pub Reader : Type 0
Reader = PluginDef → Result (Option InstallManifest)

-- The first permission of the manifest that the configuration does not grant.
abbrev ungranted : List Text → List Text → Option Text
ungranted granted [] = none
ungranted granted (perm ∷ perms) =
    let rest = ungranted granted perms in
    if any (λ g. normalize_permission g == normalize_permission perm) granted
    then rest
    else some perm

unfoldable pub validate_plugin_def : Reader → PluginDef → Result (Option InstallManifest)
validate_plugin_def read def = elim (read def) [
  | err e ↦ err e
  | ok none ↦ ok none
  | ok (some manifest) ↦ elim def.permissions [
    | [] ↦ ok (some manifest)
    | g ∷ gs ↦ elim (ungranted (g ∷ gs) manifest.permissions) [
      | none ↦ ok (some manifest)
      | some perm ↦ err (
          permission_denied (
            bytes "Plugin '"
            ++ (def.id
                ++ (bytes "' requests permission '"
                    ++ (perm ++ bytes "' which is not granted in config")))))
    ]
  ]
]

-- The permissions that the manifest's actions require, as far as they have known names.
abbrev requirements_of :
    Wire → List (Text × Option Text) → Map Text PermissionType → Map Text PermissionType
requirements_of w [] m = m
requirements_of w ((name, permission) ∷ actions) m =
    requirements_of w actions
      (elim (and_then permission (resolve_permission w)) [ none ↦ m | some pt ↦ insert name pt m ])

-- What the first loop over the configuration gathers.
pub record Checked : Type 0 where
  pub manifests : Map Text (Option InstallManifest)
  pub refused : List Text
  pub registry : PluginRegistry

abbrev with_requirements : Text → Map Text PermissionType → PluginRegistry → PluginRegistry
with_requirements id [] r = r
with_requirements id (p ∷ ps) r = set_action_requirements id (p ∷ ps) r

abbrev register_requirements :
    Wire → Text → Option InstallManifest → PluginRegistry → PluginRegistry
register_requirements w id none r = r
register_requirements w id (some m) r = with_requirements id (requirements_of w m.actions []) r

unfoldable pub check_each : Wire → Reader → List PluginDef → Checked → Checked
unfolding validate_plugin_def
check_each w read [] c = c
check_each w read (def ∷ defs) c = check_each w read defs (elim (validate_plugin_def read def) [
  | ok m ↦ record c {
    manifests = insert def.id m c.manifests;
    registry = register_requirements w def.id m c.registry;
  }
  | err e ↦ record c { refused = add def.id c.refused }
])

abbrev ids_of : List PluginDef → List Text
ids_of [] = []
ids_of (def ∷ defs) = def.id ∷ ids_of defs

abbrev requires_of : Map Text (Option InstallManifest) → Text → List Text
requires_of manifests id = elim (get id manifests) [
  | none ↦ []
  | some none ↦ []
  | some (some m) ↦ m.requires
]

-- The second loop: a plugin that requires one that the configuration does not have is refused.
unfoldable pub resolve_each :
    List Text → Map Text (Option InstallManifest) → List Text → Deps × List Text → Deps × List Text
resolve_each ids manifests [] s = s
resolve_each ids manifests (id ∷ rest) s = resolve_each ids manifests rest (
    if contains s.1 id
    then s
    else if all (contains ids) (requires_of manifests id)
    then (insert id (requires_of manifests id) s.0, s.1)
    else (s.0, add id s.1))

-- The order of the start and the plugins that are refused by then; `none` where the sort takes more
-- rounds than it is given.
unfoldable pub start_order : ℕ → List Text → Deps → List Text → Option (List Text × List Text)
unfolding topo_sort
start_order rounds ids deps refused =
    map_option
      (λ (sorted : List Text ⊎ List Text). elim sorted [
        | inr order ↦ (order, refused)
        | inl cycle ↦
            let refused' : List Text = refused ++ cycle in
            (retain (λ id. not (contains refused' id)) ids, refused')
      ])
      (topo_sort rounds ids deps refused)

abbrev find_def : List PluginDef → Text → Option PluginDef
find_def [] id = none
find_def (def ∷ defs) id = if def.id == id then some def else find_def defs id

abbrev subscribe_declared : Text → Option (Option InstallManifest) → Bus.EventBus → Bus.EventBus
subscribe_declared id (some (some m)) bus = elim m.events [
  | [] ↦ bus
  | e ∷ es ↦ Bus.subscribe id (e ∷ es) bus
]
subscribe_declared id _ bus = bus

-- The plugins are handed to the supervisor one by one; `spawns` is what it answers. A plugin that
-- spawns is subscribed to the events of its manifest.
unfoldable pub start_each :
    (PluginConfig → Bool)
    → List PluginDef
    → Map Text (Option InstallManifest)
    → List Text
    → List Text
    → List PluginConfig × Bus.EventBus
    → List PluginConfig × Bus.EventBus
unfolding config_from_def
start_each spawns defs manifests refused [] s = s
start_each spawns defs manifests refused (id ∷ order) s =
    start_each spawns defs manifests refused order (elim (find_def defs id) [
      | none ↦ s
      | some def ↦ if contains refused id then s else (
        s.0 ++ config_from_def def ∷ [],
        if spawns (config_from_def def)
            then subscribe_declared def.id (get def.id manifests) s.1
            else s.1,
      )
    ])

pub record Loaded : Type 0 where
  pub started : List PluginConfig
  pub bus : Bus.EventBus
  pub registry : PluginRegistry

unfoldable pub load_all :
    Wire
    → Reader
    → (PluginConfig → Bool)
    → ℕ
    → List PluginDef
    → Bus.EventBus
    → PluginRegistry
    → Option Loaded
unfolding check_each resolve_each start_order start_each
load_all w read spawns rounds defs bus r =
    let c : Checked =
      check_each w read defs record { manifests = []; refused = []; registry = r } in
    let s : Deps × List Text =
      resolve_each (ids_of defs) c.manifests (ids_of defs) ([], c.refused) in
    map_option
      (λ (o : List Text × List Text).
        let done : List PluginConfig × Bus.EventBus =
          start_each spawns defs c.manifests o.1 o.0 ([], bus) in
        record { started = done.0; bus = done.1; registry = c.registry })
      (start_order rounds (ids_of defs) s.0 s.1)
