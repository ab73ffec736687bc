-- ===== src/Events/Bus.antt =====
-- src/events/bus.rs: subscriptions and the choice of the receivers of an event.
pub mod Subscriptions
use veyron.Prelude.{
  Text, text_eq, add, without, contains, bytes, unwrap_or, Option, none, some, List, [], ◌∷◌, inl,
  inr, true, false, refl, nat_eq, arith, if◌then◌else◌,
}
use veyron.Prelude.Maps.{Map, get, insert, remove, modify}

pub record EventBus : Type 0 where
  -- event type to plugins
  pub subscriptions : Map Text (List Text)
  -- plugin to event types
  pub by_plugin : Map Text (List Text)

abbrev pub new : EventBus
new = record { subscriptions = []; by_plugin = [] }

-- `set.extend(xs)`
pub extend : List Text → List Text → List Text
extend [] set = set
extend (x ∷ xs) set = extend xs (add x set)

-- `set.remove(x)` for each x
pub remove_each : List Text → List Text → List Text
remove_each [] set = set
remove_each (x ∷ xs) set = remove_each xs (without x set)

abbrev pub or_default : Option (List Text) → List Text
or_default o = unwrap_or o []

pub subscribe_each : Text → List Text → Map Text (List Text) → Map Text (List Text)
subscribe_each plugin_id [] m = m
subscribe_each plugin_id (t ∷ ts) m =
    subscribe_each plugin_id ts (insert t (add plugin_id (or_default (get t m))) m)

pub subscribe : Text → List Text → EventBus → EventBus
unfolding subscribe_each extend
subscribe plugin_id event_types b = record {
  subscriptions = subscribe_each plugin_id event_types b.subscriptions;
  by_plugin =
      insert plugin_id (extend event_types (or_default (get plugin_id b.by_plugin))) b.by_plugin;
}

pub unsubscribe_each : Text → List Text → Map Text (List Text) → Map Text (List Text)
unsubscribe_each plugin_id [] m = m
unsubscribe_each plugin_id (t ∷ ts) m =
    unsubscribe_each plugin_id ts (modify t (without plugin_id) m)

pub unsubscribe : Text → List Text → EventBus → EventBus
unfolding unsubscribe_each remove_each
unsubscribe plugin_id event_types b = record {
  subscriptions = unsubscribe_each plugin_id event_types b.subscriptions;
  by_plugin = modify plugin_id (remove_each event_types) b.by_plugin;
}

pub unsubscribe_all : Text → EventBus → EventBus
unfolding unsubscribe_each
unsubscribe_all plugin_id b = elim (get plugin_id b.by_plugin) [
  | none ↦ b
  | some types ↦ record {
    subscriptions = unsubscribe_each plugin_id types b.subscriptions;
    by_plugin = remove plugin_id b.by_plugin;
  }
]

pub subscribers : Text → EventBus → List Text
subscribers event_type b = or_default (get event_type b.subscriptions)

-- The receivers that `deliver` collects.
pub targets : Text → EventBus → List Text
unfolding extend subscribers
targets event_type b = extend (subscribers (bytes "*") b) (extend (subscribers event_type b) [])
