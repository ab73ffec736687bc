-- ===== src/Supervisor/Monitor/System.antt =====
-- The supervisor with its loop: calls may run while the loop waits for a backoff delay.
pub mod Stops
pub mod Races
use veyron.Prelude.{
  [], ◌∷◌, none, some, inl, inr, true, false, refl, text_eq, nat_eq, arith, if◌then◌else◌, Option,
  ℕ, List, Text, Bool, ==_iff, ==_refl, Option-cases, Bool-cases, ◌≡◌, zero, suc,
}
use veyron.Supervisor.State.{
  PluginEntry, PluginConfig, ExitEvent, PluginSupervisor, Spawned, spawn_plugin, stop_plugin,
  restart_plugin,
}
use veyron.Supervisor.Monitor.{on_exit, after_backoff, restarts, Decision, ignored, gives_up}

-- A restart that the loop has decided on, and whose delay is running.
pub record Waiting : Type 0 where
  pub event : ExitEvent
  pub config : PluginConfig
  pub prev_count : ℕ

pub record System : Type 0 where
  pub supervisor : PluginSupervisor
  pub waiting : Option Waiting

pub data Call : Type 0 where
  exits : ExitEvent → Call
  backoff_ends : Spawned → Call
  starts : PluginConfig → Spawned → Call
  stops : Text → Bool → Call
  manual_restart : Text → Call

abbrev pub waits : ExitEvent → Decision → Option Waiting
waits event ignored = none
waits event (restarts config count) =
    some (record { event = event; config = config; prev_count = count })
waits event gives_up = none

-- The loop takes the next exit only when no delay is running.
pub step : Call → System → System
step (exits event) sys = elim sys.waiting [
  | some w ↦ sys
  | none ↦
      let (decision, s) = on_exit event sys.supervisor in
      record { supervisor = s; waiting = waits event decision }
]
step (backoff_ends outcome) sys = elim sys.waiting [
  | none ↦ sys
  | some w ↦ record {
    supervisor = after_backoff w.event w.config w.prev_count outcome sys.supervisor;
    waiting = none;
  }
]
step (starts config outcome) sys = record sys {
  supervisor = (spawn_plugin config outcome sys.supervisor).1;
}
step (stops plugin_id in_time) sys = record sys {
  supervisor = (stop_plugin plugin_id in_time sys.supervisor).1;
}
step (manual_restart plugin_id) sys = record sys {
  supervisor = (restart_plugin plugin_id sys.supervisor).1;
}

unfoldable pub run : List Call → System → System
run [] sys = sys
run (c ∷ cs) sys = run cs (step c sys)
