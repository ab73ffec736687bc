-- ===== src/Ipc/Router/Events.antt =====
-- `MessageRouter::handle_kernel_message`: the arms for pings, subscriptions and events.
pub mod Publishing
use veyron.Utils.Errors.{ok}
use veyron.Registry.Types.{Sender}
use veyron.Prelude.{
  [], ◌∷◌, none, some, inl, inr, true, false, refl, text_eq, nat_eq, arith, if◌then◌else◌, ==_iff,
  ==_refl, Option-cases, Bool-cases, ◌≡◌, zero, suc, List, Option, Bool, Text, ℕ, bytes, not, ◌++◌,
  decimal, ◌≢◌, ◌⊎◌,
}
use veyron.Auth.Permissions.{check_permission}
use veyron.Events.Bus
use veyron.Events.Delivery.{publish, envelope_for}
use veyron.Registry.State.{get_by_conn_id, record_pong}
use veyron.Ipc.Wire.{
  Wire, Event, Envelope, pong, event_publish_ack, event_publish_ok, event_publish_permission_deny,
  EventPublishStatus,
}
use veyron.Ipc.Channels.{Channels, Outbound}
use veyron.Ipc.Kernel.{Kernel, Now, IncomingMessage, send_envelope, next_seq, mark_delivered_async}
use veyron.Ipc.Router.Actions.{follow_up, sender_of}
use veyron.Ipc.Router.Forward.{is_ok}

-- `format!("evt-{sender_id}-{now_ms}-{seq}")`
abbrev event_id_of : Text → ℕ → ℕ → Text
event_id_of sender_id unix_ms seq =
    bytes "evt-" ++ (sender_id ++ (bytes "-" ++ (decimal unix_ms ++ (bytes "-" ++ decimal seq))))

-- `format!("plugin.{sender_id}.{}", event_type)`
abbrev pub namespaced : Text → Text → Text
namespaced sender_id event_type = bytes "plugin." ++ (sender_id ++ (b'.' ∷ event_type))

abbrev pub published_event : Text → Text → List ℕ → Now → ℕ → Event
published_event sender_id event_type payload_json now seq = record {
  event_id = event_id_of sender_id now.unix_ms seq;
  event_type = namespaced sender_id event_type;
  payload_json = payload_json;
  retry_count = 0;
}

module _ {S : Type 0} (ch : Channels S) (w : Wire) (now : Now) where
  unfoldable handle_ping : IncomingMessage → Envelope → ℕ → Kernel S → Kernel S × Bool
  handle_ping msg env timestamp k =
      (send_envelope ch w now msg.write_tx (follow_up env (pong timestamp now.unix_ms)) k, false)

  unfoldable handle_pong : IncomingMessage → Kernel S → Kernel S × Bool
  unfolding record_pong
  handle_pong msg k = elim (get_by_conn_id msg.conn_id k.registry) [
    | none ↦ (k, false)
    | some entry ↦ (
      record k { registry = record_pong entry.plugin_id now.instant now.unix_ms k.registry },
      false,
    )
  ]

  unfoldable pub handle_subscribe : IncomingMessage → List Text → Kernel S → Kernel S × Bool
  handle_subscribe msg event_types k = elim (get_by_conn_id msg.conn_id k.registry) [
    | none ↦ (k, false)
    | some entry ↦ (record k { bus = Bus.subscribe entry.plugin_id event_types k.bus }, false)
  ]

  unfoldable pub handle_unsubscribe : IncomingMessage → List Text → Kernel S → Kernel S × Bool
  handle_unsubscribe msg event_types k = elim (get_by_conn_id msg.conn_id k.registry) [
    | none ↦ (k, false)
    | some entry ↦ (record k { bus = Bus.unsubscribe entry.plugin_id event_types k.bus }, false)
  ]

  abbrev pub publish_ack : Envelope → Text → EventPublishStatus → Envelope
  publish_ack env event_id status = follow_up env (event_publish_ack event_id status [])

  unfoldable pub handle_event_publish :
      IncomingMessage → Envelope → Text → List ℕ → Kernel S → Kernel S × Bool
  handle_event_publish msg env event_type payload_json k =
      let sender_id : Text = sender_of msg k.registry in
      if not (is_ok (check_permission w k.registry sender_id w.permission_event_publish))
      then (
        send_envelope ch w now msg.write_tx (publish_ack env [] event_publish_permission_deny) k,
        false,
      )
      else (
        send_envelope ch w now msg.write_tx
            (publish_ack env (event_id_of sender_id now.unix_ms k.event_seq) event_publish_ok)
            (publish ch w now (published_event sender_id event_type payload_json now k.event_seq)
              (record k { event_seq = next_seq k.event_seq })),
        false,
      )

  -- `has_event_store` tells whether the router was given the event store.
  unfoldable handle_event_ack : Bool → Text → Kernel S → Kernel S × Bool
  handle_event_ack has_event_store event_id k = (
    if has_event_store
        then record k { store_calls = k.store_calls ++ mark_delivered_async event_id ∷ [] }
        else k,
    false,
  )
