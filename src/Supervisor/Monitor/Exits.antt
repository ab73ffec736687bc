-- ===== src/Supervisor/Monitor/Exits.antt =====
-- When the loop restarts a plugin, and what an exit that does not count leaves alone.
use veyron.Prelude.Maps.{get}
use veyron.Prelude.{
  some, inl, inr, true, false, refl, text_eq, nat_eq, arith, ℕ, contains, ◌||◌, Bool, ◌≡◌, ◌↔◌, ◌⊎◌,
  ◌≢◌, Bool-cases, ==_iff, ◌<◌, Option-cases,
}
use veyron.Supervisor.State.{
  PluginEntry, PluginConfig, ExitEvent, PluginSupervisor, RestartPolicy, always, on_failure, never,
}
use veyron.Supervisor.Monitor.{on_exit, policy_allows, restarts}

-- The plugin's policy, or a restart by hand, calls for a new process.
abbrev pub CallsForRestart : PluginEntry → ExitEvent → PluginSupervisor → Type 0
CallsForRestart entry event s =
    (contains s.forced_restarts event.plugin_id ≡ true)
    ⊎ ((entry.restart_count < entry.config.max_restarts)
        × ((entry.config.restart_policy ≡ always)
            ⊎ ((entry.config.restart_policy ≡ on_failure) × (event.success ≡ false))))

policy_allows_iff :
    (policy : RestartPolicy) (count max : ℕ) (success : Bool)
    → (policy_allows policy count max success ≡ true)
      ↔ ((count < max) × ((policy ≡ always) ⊎ ((policy ≡ on_failure) × (success ≡ false))))
unfolding policy_allows
policy_allows_iff always count max success = (λ h. (ground arith, inl refl), λ h. ground arith)
policy_allows_iff on_failure count max success =
    (λ h. (ground arith, inr (refl, ground arith)), λ h. ground arith)
policy_allows_iff never count max success = (λ h. cc, λ h. ground arith)

-- The exit is the one of the registered instance, which was not stopped.
abbrev pub Counts : PluginEntry → ExitEvent → PluginSupervisor → Type 0
Counts entry event s =
    (get event.plugin_id s.entries ≡ some entry)
    × (entry.epoch ≡ event.epoch)
    × (get event.plugin_id s.stopped_epochs ≢ some event.epoch)

module _ (event : ExitEvent) (s : PluginSupervisor) (entry : PluginEntry) where
  restart_called :
      (contains s.forced_restarts event.plugin_id
          || policy_allows entry.config.restart_policy entry.restart_count entry.config.max_restarts
              event.success)
        ≡ true
      → CallsForRestart entry event s
  restart_called h = elim (Bool-cases (contains s.forced_restarts event.plugin_id)) [
    | inl forced ↦ inl forced
    | inr free ↦ inr (
        (policy_allows_iff entry.config.restart_policy entry.restart_count entry.config.max_restarts
            event.success).0
          (ground arith))
  ]

  calls_restart :
      CallsForRestart entry event s
      → (contains s.forced_restarts event.plugin_id
          || policy_allows entry.config.restart_policy entry.restart_count entry.config.max_restarts
              event.success)
        ≡ true
  calls_restart (inl forced) = ground arith
  calls_restart (inr allowed) = ground (
    arith,
    (policy_allows_iff entry.config.restart_policy entry.restart_count entry.config.max_restarts
          event.success).1
        allowed,
  )

  exit-Counts :
      (config : PluginConfig) (count : ℕ)
      → get event.plugin_id s.entries ≡ some entry
      → (on_exit event s).0 ≡ restarts config count
      → Counts entry event s
        × (entry.config ≡ config)
        × (entry.restart_count ≡ count)
        × CallsForRestart entry event s
  unfolding on_exit
  exit-Counts config count e h = (
    (e, ground arith, λ t. ground arith),
    ground arith,
    ground arith,
    restart_called (ground arith),
  )

-- An exit leads to a restart exactly if it is the exit of the instance that is registered, that
-- instance was not stopped, and the policy or a restart by hand calls for it; the restart is then
-- that of the registered configuration and count.
pub on_exit-restarts_iff :
    (event : ExitEvent) (s : PluginSupervisor) (config : PluginConfig) (count : ℕ)
    → ((on_exit event s).0 ≡ restarts config count) ↔ (
        (entry : PluginEntry) × Counts entry event s
        × (entry.config ≡ config)
        × (entry.restart_count ≡ count)
        × CallsForRestart entry event s)
unfolding on_exit
on_exit-restarts_iff event s config count = (
  λ h. elim (Option-cases (get event.plugin_id s.entries)) [
    | inl gone ↦ absurd (ground arith)
    | inr (entry, e) ↦
        let (counts, c, n, calls) = exit-Counts event s entry config count e h in
        (entry, counts, c, n, calls)
  ],
  λ w. restarted w,
)
  where
    restarted :
        ((entry : PluginEntry) × Counts entry event s
          × (entry.config ≡ config)
          × (entry.restart_count ≡ count)
          × CallsForRestart entry event s)
        → (on_exit event s).0 ≡ restarts config count
    restarted (entry, (e, current, running), c, n, calls) =
        ground (arith, calls_restart event s entry calls, ==_iff entry.epoch event.epoch)
