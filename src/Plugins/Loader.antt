-- ===== src/Plugins/Loader.antt =====
-- src/plugins/loader.rs: which plugins of the configuration start, in which order, and how.
pub mod Cycles
pub mod Degrees
pub mod Order
pub mod Ends
use veyron.Prelude.{
  [], ◌∷◌, none, some, inl, inr, true, false, refl, text_eq, nat_eq, arith, if◌then◌else◌, ==_iff,
  ==_refl, Option-cases, Bool-cases, ◌≡◌, zero, suc, List, Option, Bool, Text, ℕ, unwrap_or, ◌⊎◌,
  retain, ◌==◌, not, ◌-◌, and_then, ◌++◌, ◌+◌, bytes, contains, ◌||◌, map_option, ltb, length,
}
use veyron.Supervisor.State.{
  PluginConfig, RestartPolicy, always, on_failure, never, FsAccessMode, full, read_only, none',
}
use veyron.Auth.Permissions.{normalize_permission}
use veyron.Prelude.Maps.{Map, get, insert}

-- src/utils/config.rs: an entry of the list of plugins
pub record PluginDef : Type 0 where
  pub id : Text
  pub binary : Text
  pub restart : Text
  pub max_restarts : ℕ
  pub args : List Text
  pub env : List Text
  pub sandbox : Bool
  pub grace_seconds : ℕ
  pub max_procs : Option ℕ
  pub max_vmem_mb : Option ℕ
  pub permissions : List Text
  pub max_fs_access : Option Text
  pub readonly_paths : List Text
  pub writable_paths : List Text

-- An unknown value falls back to `on-failure`.
abbrev restart_policy_of : Text → RestartPolicy
restart_policy_of s =
    if s == bytes "always"
    then always
    else if s == bytes "on-failure"
    then on_failure
    else if s == bytes "never"
    then never
    else on_failure

-- src/plugins/fsaccess.rs: `FsAccessMode::parse`
abbrev parse_fs_access : Text → Option FsAccessMode
parse_fs_access s =
    if s == bytes "full"
    then some full
    else if s == bytes "read-only" || s == bytes "readonly"
    then some read_only
    else if s == bytes "none"
    then some none'
    else none

unfoldable pub config_from_def : PluginDef → PluginConfig
config_from_def def = record {
  plugin_id = def.id;
  binary_path = def.binary;
  args = def.args;
  env = def.env;
  restart_policy = restart_policy_of def.restart;
  max_restarts = def.max_restarts;
  sandbox = def.sandbox;
  grace_seconds = def.grace_seconds;
  max_procs = def.max_procs;
  max_vmem_mb = def.max_vmem_mb;
  max_fs_access = unwrap_or (and_then def.max_fs_access parse_fs_access) full;
  readonly_paths = def.readonly_paths;
  writable_paths = def.writable_paths;
}

-- What a plugin requires, by its id.
abbrev pub Deps : Type 0
Deps = Map Text (List Text)

-- A plugin's requirements, less those on plugins that were refused.
abbrev pub live_deps : Deps → List Text → Text → List Text
live_deps deps refused id = retain (λ dep. not (contains refused dep)) (unwrap_or (get id deps) [])

unfoldable pub zero_degrees : List Text → Map Text ℕ → Map Text ℕ
zero_degrees [] m = m
zero_degrees (id ∷ ids) m = zero_degrees ids (insert id 0 m)

-- `*in_degree.entry(id).or_default() += 1`, for each of the requirements
unfoldable pub bump_each : Text → List Text → Map Text ℕ → Map Text ℕ
bump_each id [] m = m
bump_each id (dep ∷ ds) m = bump_each id ds (insert id (unwrap_or (get id m) 0 + 1) m)

unfoldable pub in_degrees : Deps → List Text → List Text → Map Text ℕ → Map Text ℕ
unfolding bump_each
in_degrees deps refused [] m = m
in_degrees deps refused (id ∷ ids) m =
    in_degrees deps refused ids (bump_each id (live_deps deps refused id) m)

-- `rev.entry(dep).or_default().push(id)`, for each of the requirements
unfoldable pub push_each : Text → List Text → Deps → Deps
push_each id [] rev = rev
push_each id (dep ∷ ds) rev =
    push_each id ds (insert dep (unwrap_or (get dep rev) [] ++ id ∷ []) rev)

unfoldable pub reversed : Deps → List Text → List Text → Deps → Deps
unfolding push_each
reversed deps refused [] rev = rev
reversed deps refused (id ∷ ids) rev =
    reversed deps refused ids (push_each id (live_deps deps refused id) rev)

-- The dependants of a plugin that is placed: each loses one requirement, and those without any go
-- to the end of the queue.
unfoldable pub release : List Text → Map Text ℕ → List Text → Map Text ℕ × List Text
release [] degrees queue = (degrees, queue)
release (dep ∷ ds) degrees queue =
    let left : ℕ = unwrap_or (get dep degrees) 0 - 1 in
    release ds (insert dep left degrees) (if left == 0 then queue ++ dep ∷ [] else queue)

-- The loop over the queue; `none` where it takes more rounds than it is given.
unfoldable pub place : ℕ → Deps → Map Text ℕ → List Text → List Text → Option (List Text)
unfolding release
place rounds rev degrees [] order = some order
place zero rev degrees (id ∷ queue) order = none
place (suc rounds) rev degrees (id ∷ queue) order =
    let next : Map Text ℕ × List Text = release (unwrap_or (get id rev) []) degrees queue in
    place rounds rev next.0 next.1 (order ++ id ∷ [])

-- The order of the start, requirements first, or the plugins that are in no order.
unfoldable pub topo_sort : ℕ → List Text → Deps → List Text → Option (List Text ⊎ List Text)
unfolding zero_degrees in_degrees reversed place
topo_sort rounds ids deps refused =
    let active : List Text = retain (λ id. not (contains refused id)) ids in
    let degrees : Map Text ℕ = in_degrees deps refused active (zero_degrees active []) in
    let rev : Deps = reversed deps refused active [] in
    let queue : List Text = retain (λ id. unwrap_or (get id degrees) 0 == 0) active in
    map_option
      (λ (order : List Text).
        if ltb (length order) (length active)
        then inl (retain (λ id. not (contains order id)) active)
        else inr order)
      (place rounds rev degrees queue [])
