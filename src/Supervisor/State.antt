-- ===== src/Supervisor/State.antt =====
-- src/plugins/supervisor/mod.rs: the supervised processes, and the calls that start and stop them.
use veyron.Prelude.{
  ℕ, ◌+◌, ◌*◌, ◌-◌, ◌%◌, ◌^◌, Text, text_eq, nat_eq, ltb, add, without, unwrap_or, map, Bool, not,
  is_some, ◌&&◌, Option, none, some, List, [], ◌∷◌, ◌++◌, if◌then◌else◌,
}
use veyron.Prelude.Maps.{Map, get, insert, remove, contains_key, values}
use veyron.Utils.Errors.{Result, ok, err, VynkorError, plugin_not_found, plugin_already_running}

pub data RestartPolicy : Type 0 where
  always on_failure never : RestartPolicy

pub data FsAccessMode : Type 0 where
  full read_only none' : FsAccessMode

pub record PluginConfig : Type 0 where
  pub plugin_id : Text
  pub binary_path : Text
  pub args : List Text
  pub env : List Text
  pub restart_policy : RestartPolicy
  pub max_restarts : ℕ
  pub sandbox : Bool
  pub grace_seconds : ℕ
  pub max_procs : Option ℕ
  pub max_vmem_mb : Option ℕ
  pub max_fs_access : FsAccessMode
  pub readonly_paths : List Text
  pub writable_paths : List Text

pub record PluginEntry : Type 0 where
  pub config : PluginConfig
  pub restart_count : ℕ
  pub pid : ℕ
  pub shim_pid : Option ℕ
  pub epoch : ℕ

pub record ExitEvent : Type 0 where
  pub plugin_id : Text
  pub epoch : ℕ
  pub pid : ℕ
  pub success : Bool

-- The maps that decide the life of a plugin; the log buffers and the channels are left out.
pub record PluginSupervisor : Type 0 where
  pub entries : Map Text PluginEntry
  pub forced_restarts : List Text
  pub stopped_counts : Map Text ℕ
  pub next_epoch : ℕ
  pub stopped_epochs : Map Text ℕ
  pub backoff_base_ms : ℕ
  pub backoff_max_ms : ℕ

abbrev pub new : ℕ → ℕ → PluginSupervisor
new backoff_base_ms backoff_max_ms = record {
  entries = [];
  forced_restarts = [];
  stopped_counts = [];
  next_epoch = 0;
  stopped_epochs = [];
  backoff_base_ms = backoff_base_ms;
  backoff_max_ms = backoff_max_ms;
}

-- What the operating system makes of a spawn: a process, perhaps behind a shim, or an error.
pub data Spawned : Type 0 where
  started : ℕ → Option ℕ → Spawned
  failed : VynkorError → Spawned

pub data Signal : Type 0 where
  sigterm sigkill : Signal

abbrev signal_target : PluginEntry → ℕ
signal_target e = unwrap_or e.shim_pid e.pid

-- `next_epoch.fetch_add(1) + 1`
abbrev pub advance_epoch : ℕ → ℕ
advance_epoch n = (n + 1) % 2 ^ 64

-- The entry of a fresh process.
abbrev pub entry_of : PluginConfig → ℕ → ℕ → Option ℕ → ℕ → PluginEntry
entry_of config restart_count pid shim_pid epoch = record {
  config = config;
  restart_count = restart_count;
  pid = pid;
  shim_pid = shim_pid;
  epoch = epoch;
}

-- The part of `spawn_internal` that the supervisor's maps see; `replace_epoch` is given by a
-- supervised restart only.
unfoldable pub spawn_internal :
    PluginConfig → ℕ → Option ℕ → Spawned → PluginSupervisor → Result ℕ × PluginSupervisor
spawn_internal config restart_count replace_epoch outcome s =
    if not (is_some replace_epoch) && contains_key config.plugin_id s.entries
    then (err (plugin_already_running config.plugin_id), s)
    else (let epoch = advance_epoch s.next_epoch in
        let s' : PluginSupervisor = record s { next_epoch = epoch } in
        elim outcome [
          | failed e ↦ (err e, s')
          | started pid shim_pid ↦ (
            ok pid,
            record s' {
              entries =
                  insert config.plugin_id (entry_of config restart_count pid shim_pid epoch)
                    s'.entries;
            },
          )
        ])

unfoldable pub spawn_plugin :
    PluginConfig → Spawned → PluginSupervisor → Result ℕ × PluginSupervisor
unfolding spawn_internal
spawn_plugin config outcome s = spawn_internal config 0 none outcome s

abbrev default_stop_grace : ℕ
default_stop_grace = 5

-- The signals of a stop, each with the seconds that the supervisor then waits for the exit.
-- `in_time` says whether the process exits within its grace period.
unfoldable pub stop_plugin :
    Text → Bool → PluginSupervisor → Result (List (Signal × ℕ × ℕ)) × PluginSupervisor
stop_plugin plugin_id in_time s = elim (get plugin_id s.entries) [
  | none ↦ (err (plugin_not_found plugin_id), s)
  | some entry ↦
      let target = signal_target entry in
      let grace =
        if ltb 0 entry.config.grace_seconds
        then entry.config.grace_seconds
        else default_stop_grace in
      (
        ok ((sigterm, target, grace) ∷ (if in_time then [] else (sigkill, target, 10) ∷ [])),
        record s {
          entries = remove plugin_id s.entries;
          stopped_epochs = insert plugin_id entry.epoch s.stopped_epochs;
          forced_restarts = without plugin_id s.forced_restarts;
        },
      )
]

unfoldable pub restart_plugin : Text → PluginSupervisor → Result (Signal × ℕ) × PluginSupervisor
restart_plugin plugin_id s = elim (get plugin_id s.entries) [
  | none ↦ (err (plugin_not_found plugin_id), s)
  | some entry ↦ (
    ok (sigterm, signal_target entry),
    record s { forced_restarts = add plugin_id s.forced_restarts },
  )
]

abbrev pub is_running : Text → PluginSupervisor → Bool
is_running plugin_id s = contains_key plugin_id s.entries

unfoldable grace_seconds_for : Text → PluginSupervisor → Option ℕ
grace_seconds_for plugin_id s = elim (get plugin_id s.entries) [
  | none ↦ none
  | some e ↦ if ltb 0 e.config.grace_seconds then some e.config.grace_seconds else none
]

unfoldable pub restart_count : Text → PluginSupervisor → Option ℕ
restart_count plugin_id s = elim (get plugin_id s.entries) [
  | some e ↦ some e.restart_count
  | none ↦ get plugin_id s.stopped_counts
]

-- The signals of a shutdown, each with the seconds after which it is sent.
unfoldable graceful_shutdown : ℕ → PluginSupervisor → List (Signal × ℕ × ℕ)
graceful_shutdown default_grace_seconds s =
    map (λ e. (sigterm, signal_target e, 0)) (values s.entries)
    ++ map
        (λ e. (
          sigkill,
          signal_target e,
          if ltb 0 e.config.grace_seconds then e.config.grace_seconds else default_grace_seconds,
        ))
        (values s.entries)

-- `u64::saturating_mul`
abbrev pub saturating_mul : ℕ → ℕ → ℕ
saturating_mul a b = if ltb (a * b) (2 ^ 64) then a * b else 2 ^ 64 - 1

abbrev pub least : ℕ → ℕ → ℕ
least a b = if ltb a b then a else b

unfoldable pub backoff_delay : ℕ → PluginSupervisor → ℕ
backoff_delay restart_count s =
    least (saturating_mul s.backoff_base_ms (2 ^ least restart_count 8)) s.backoff_max_ms
