-- ===== src/Supervisor/Monitor/System/Races.antt =====
-- What the end of a backoff delay does to a plugin that was stopped, or that cannot be started.
use veyron.Utils.Errors.{VynkorError, err, plugin_already_running}
use veyron.Prelude.Maps.{get, get-insert}
use veyron.Prelude.{
  [], ◌∷◌, none, some, true, text_eq, nat_eq, arith, ℕ, Option, Bool, ◌≡◌, ◌≢◌, ==_refl, ◌+◌, ◌%◌,
  ◌^◌,
}
use veyron.Supervisor.State.{
  PluginEntry, PluginConfig, PluginSupervisor, Spawned, started, failed, spawn_internal,
  spawn_plugin, stop_plugin, is_running, entry_of, advance_epoch,
}
use veyron.Supervisor.Monitor.{after_backoff}
use veyron.Supervisor.Monitor.System.{Waiting, System, backoff_ends, stops, step, run}

stopped_epoch :
    (in_time : Bool) (s : PluginSupervisor) (entry : PluginEntry) (w : Waiting)
    → get w.config.plugin_id s.entries ≡ some entry
    → get w.config.plugin_id (stop_plugin w.config.plugin_id in_time s).1.stopped_epochs
      ≡ some w.event.epoch
    → w.event.epoch ≡ entry.epoch
unfolding stop_plugin
stopped_epoch in_time s entry w e h = ground (
  arith,
  get-insert w.config.plugin_id w.config.plugin_id entry.epoch s.stopped_epochs,
  ==_refl w.config.plugin_id,
)

resumed :
    (w : Waiting) (pid : ℕ) (shim : Option ℕ) (s : PluginSupervisor)
    → get w.config.plugin_id s.stopped_epochs ≢ some w.event.epoch
    → is_running w.config.plugin_id
        (after_backoff w.event w.config w.prev_count (started pid shim) s)
      ≡ true
unfolding after_backoff spawn_internal
resumed w pid shim s ne = ground (
  arith,
  get-insert w.config.plugin_id w.config.plugin_id
      (entry_of w.config ((w.prev_count + 1) % 2 ^ 32) pid shim (advance_epoch s.next_epoch))
      s.entries,
  ==_refl w.config.plugin_id,
)

-- A stop is not final in one case: while the delay of an older instance runs, a stop of the newer
-- instance does not cancel it, and its end, with a process started, brings the plugin back after
-- the stop.
pub stop_is_undone :
    (in_time : Bool) (sys : System) (entry : PluginEntry) (w : Waiting) (pid : ℕ) (shim : Option ℕ)
    → get w.config.plugin_id sys.supervisor.entries ≡ some entry
    → sys.waiting ≡ some w
    → w.event.epoch ≢ entry.epoch
    → is_running w.config.plugin_id
        (run
          (stops w.config.plugin_id in_time ∷ backoff_ends (started pid shim) ∷ [])
          sys).supervisor
      ≡ true
unfolding run step
stop_is_undone in_time sys entry w pid shim e waiting older =
    rw (waiting, step)
      (resumed w pid shim (stop_plugin w.config.plugin_id in_time sys.supervisor).1
        (λ same. older (stopped_epoch in_time sys.supervisor entry w e same)))

-- A respawn that fails leaves the entry of the dead instance: the plugin still counts as running,
-- and a start of it is refused.
pub failed_respawn_keeps_entry :
    (sys : System) (entry : PluginEntry) (w : Waiting) (e : VynkorError) (config : PluginConfig)
    (outcome : Spawned)
    → get w.config.plugin_id sys.supervisor.entries ≡ some entry
    → sys.waiting ≡ some w
    → config.plugin_id ≡ w.config.plugin_id
    → let after = step (backoff_ends (failed e)) sys in
      (is_running w.config.plugin_id after.supervisor ≡ true)
      × (after.waiting ≡ none)
      × ((spawn_plugin config outcome after.supervisor).0
          ≡ err (plugin_already_running w.config.plugin_id))
unfolding step after_backoff spawn_internal spawn_plugin
failed_respawn_keeps_entry sys entry w e config outcome at waiting same =
    (ground arith, ground arith, ground arith)
