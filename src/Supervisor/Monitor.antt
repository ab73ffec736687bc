-- ===== src/Supervisor/Monitor.antt =====
-- src/plugins/supervisor/watchdog.rs: the loop over the exits of supervised processes. One turn is
-- two steps, before and after the wait for the backoff delay, between which other calls may run.
pub mod Exits
pub mod System
use veyron.Prelude.Maps.{get, remove, insert}
use veyron.Prelude.{
  none, some, false, text_eq, nat_eq, if◌then◌else◌, ℕ, Bool, contains, without, is_some_and, ltb,
  ◌||◌, ◌==◌, not, ◌+◌, ◌&&◌, ◌%◌, ◌^◌,
}
use veyron.Supervisor.State.{
  PluginConfig, ExitEvent, PluginSupervisor, RestartPolicy, always, on_failure, never, Spawned,
  spawn_internal,
}

-- What the loop does with an exit.
pub data Decision : Type 0 where
  ignored : Decision
  restarts : PluginConfig → ℕ → Decision
  gives_up : Decision

pub policy_allows : RestartPolicy → ℕ → ℕ → Bool → Bool
policy_allows never count max success = false
policy_allows always count max success = ltb count max
policy_allows on_failure count max success = not success && ltb count max

abbrev is_current : ExitEvent → PluginSupervisor → Bool
is_current event s = is_some_and (get event.plugin_id s.entries) (λ e. e.epoch == event.epoch)

abbrev was_stopped : ExitEvent → PluginSupervisor → Bool
was_stopped event s =
    is_some_and (get event.plugin_id s.stopped_epochs) (λ epoch. epoch == event.epoch)

abbrev decide : ExitEvent → Bool → PluginSupervisor → Decision
decide event forced s = elim (get event.plugin_id s.entries) [
  | none ↦ gives_up
  | some entry ↦
      if forced
        || policy_allows entry.config.restart_policy entry.restart_count entry.config.max_restarts
            event.success
      then restarts entry.config entry.restart_count
      else gives_up
]

-- The turn up to the backoff wait. The notice of the death to the event bus is left out.
pub on_exit : ExitEvent → PluginSupervisor → Decision × PluginSupervisor
on_exit event s =
    let forced = contains s.forced_restarts event.plugin_id in
    let s' : PluginSupervisor = record s {
      forced_restarts = without event.plugin_id s.forced_restarts;
    } in
    if not (is_current event s') || was_stopped event s'
    then (ignored, s')
    else elim (decide event forced s') [
      | ignored ↦ (ignored, s')
      | restarts config count ↦ (restarts config count, s')
      | gives_up ↦ (
        gives_up,
        record s' {
          entries = remove event.plugin_id s'.entries;
          stopped_counts =
              insert event.plugin_id
                (elim (get event.plugin_id s'.entries) [ none ↦ 0 | some e ↦ e.restart_count ])
                s'.stopped_counts;
        },
      )
    ]

-- The turn after the backoff wait. The result of the spawn is dropped.
pub after_backoff : ExitEvent → PluginConfig → ℕ → Spawned → PluginSupervisor → PluginSupervisor
after_backoff event config prev_count outcome s =
    if is_some_and (get config.plugin_id s.stopped_epochs) (λ epoch. epoch == event.epoch)
    then s
    else (spawn_internal config ((prev_count + 1) % 2 ^ 32) (some event.epoch) outcome s).1
