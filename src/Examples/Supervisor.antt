-- ===== src/Examples/Supervisor.antt =====
-- One supervised process, its exits, a stop, and the delay of an older instance.
use veyron.Supervisor.Monitor.Exits.{Counts, CallsForRestart, on_exit-restarts_iff}
use veyron.Utils.Errors.{plugin_not_found, err, plugin_already_running}
use veyron.Supervisor.Backoff.{backoff_delay_exact}
use veyron.Supervisor.Monitor.{on_exit, restarts}
use veyron.Supervisor.Monitor.System.Races.{failed_respawn_keeps_entry, stop_is_undone}
use veyron.Prelude.{
  bytes, text_eq, nat_eq, ◌≡◌, refl, [], ◌∷◌, none, some, true, false, arith, Text, ℕ, ◌↔◌,
  text_beq, ◌≤◌, ◌*◌, ◌^◌, ◌<◌,
}
use veyron.Prelude.Maps.{get}
use veyron.Supervisor.State.{
  PluginEntry, PluginConfig, ExitEvent, PluginSupervisor, started, failed, on_failure, is_running,
  full, spawn_plugin, backoff_delay,
}
use veyron.Supervisor.Monitor.System.{System, Waiting, run, step, stops, backoff_ends}

abbrev player : Text
player = bytes "player"

abbrev config : PluginConfig
config = record {
  plugin_id = player;
  binary_path = bytes "/bin/player";
  args = [];
  env = [];
  restart_policy = on_failure;
  max_restarts = 5;
  sandbox = false;
  grace_seconds = 0;
  max_procs = none;
  max_vmem_mb = none;
  max_fs_access = full;
  readonly_paths = [];
  writable_paths = [];
}

abbrev instance_of : ℕ → PluginEntry
instance_of epoch = record {
  config = config;
  restart_count = 0;
  pid = 100;
  shim_pid = none;
  epoch = epoch;
}

abbrev running : ℕ → PluginSupervisor
running epoch = record {
  entries = (player, instance_of epoch) ∷ [];
  forced_restarts = [];
  stopped_counts = [];
  next_epoch = epoch;
  stopped_epochs = [];
  backoff_base_ms = 1000;
  backoff_max_ms = 60000;
}

-- The exit of the first instance.
abbrev crash : ExitEvent
crash = record { plugin_id = player; epoch = 1; pid = 100; success = false }

abbrev delay : Waiting
delay = record { event = crash; config = config; prev_count = 0 }

on_exit-restarts_iff_example : ((on_exit crash (running 1)).0 ≡ restarts config 0) ↔ (
    (e : PluginEntry) × Counts e crash (running 1)
    × (e.config ≡ config)
    × (e.restart_count ≡ 0)
    × CallsForRestart e crash (running 1))
on_exit-restarts_iff_example = on_exit-restarts_iff crash (running 1) config 0

abbrev idle_system : System
idle_system = record { supervisor = running 1; waiting = none }

-- The second instance runs, and the delay after the crash of the first runs still.
abbrev late_system : System
late_system = record { supervisor = running 2; waiting = some delay }

present : get player late_system.supervisor.entries ≡ some (instance_of 2)
unfolding get text_beq
present = refl

stop_is_undone_example :
    is_running player
      (run (stops player true ∷ backoff_ends (started 7 none) ∷ []) late_system).supervisor
    ≡ true
stop_is_undone_example =
    stop_is_undone true late_system (instance_of 2) delay 7 none present refl (λ e. omega arith)

failed_respawn_keeps_entry_example :
    let after = step (backoff_ends (failed (plugin_not_found player))) late_system in
    (is_running delay.config.plugin_id after.supervisor ≡ true)
    × (after.waiting ≡ none)
    × ((spawn_plugin config (started 8 none) after.supervisor).0
        ≡ err (plugin_already_running delay.config.plugin_id))
failed_respawn_keeps_entry_example =
    failed_respawn_keeps_entry late_system (instance_of 2) delay (plugin_not_found player) config
      (started 8 none) present refl refl

backoff_delay_exact_example :
    (backoff_delay 2 (running 1) ≤ backoff_delay 4 (running 1))
    × (backoff_delay 4 (running 1) ≤ (running 1).backoff_max_ms)
    × (2 ≤ 8
        → (running 1).backoff_base_ms * 2 ^ 2 < 2 ^ 64
        → (running 1).backoff_base_ms * 2 ^ 2 ≤ (running 1).backoff_max_ms
        → backoff_delay 2 (running 1) ≡ (running 1).backoff_base_ms * 2 ^ 2)
backoff_delay_exact_example = backoff_delay_exact 2 4 (running 1) (omega arith)
