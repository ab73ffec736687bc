-- ===== src/Supervisor/Monitor/System/Stops.antt =====
-- A stop is final.
use veyron.Prelude.Maps.{get}
use veyron.Prelude.{none, some, false, text_eq, nat_eq, Text, Bool, ◌≡◌, ◌==◌}
use veyron.Supervisor.State.{PluginEntry, PluginSupervisor}
use veyron.Supervisor.Monitor.System.{Waiting, System, Call, starts}

-- Each entry stands under the id of its configuration.
abbrev pub IsKeyed : PluginSupervisor → Type 0
IsKeyed s = (k : Text) (e : PluginEntry) → get k s.entries ≡ some e → e.config.plugin_id ≡ k

-- A plugin without an entry, which no running delay will bring back.
pub record IsGone (p : Text) (sys : System) : Type 0 where
  pub absent : get p sys.supervisor.entries ≡ none
  pub cancelled :
      (w : Waiting)
      → sys.waiting ≡ some w
      → w.config.plugin_id ≡ p
      → get p sys.supervisor.stopped_epochs ≡ some w.event.epoch
  pub keyed : IsKeyed sys.supervisor

abbrev pub starts_plugin : Text → Call → Bool
starts_plugin p (starts config outcome) = config.plugin_id == p
starts_plugin p _ = false
