-- ===== src/Ipc/Router/Events/Publishing.antt =====
-- An event that a plugin publishes.
use veyron.Registry.State.{PluginRegistry}
use veyron.Events.Bus.{targets}
use veyron.Events.Delivery.{envelope_for}
use veyron.Events.Delivery.Reach.{publish_exact, frames_for, is_on}
use veyron.Auth.Permissions.{check_permission}
use veyron.Registry.Types.{Sender}
use veyron.Ipc.Wire.{Wire, Envelope}
use veyron.Ipc.Channels.{Channels, Outbound}
use veyron.Ipc.Kernel.{Kernel, Now, IncomingMessage, persist_async, next_seq}
use veyron.Ipc.Kernel.Sends.{send_envelope_other, store_calls-send_envelope}
use veyron.Ipc.Router.Actions.{sender_of}
use veyron.Ipc.Router.Forward.{is_ok}
use veyron.Ipc.Router.Events.{handle_event_publish, published_event, namespaced}
use veyron.Prelude.{
  ◌++◌, ◌∙◌, [], ◌∷◌, some, inl, inr, true, text_eq, nat_eq, if◌then◌else◌, Bool-cases, ◌≡◌, List,
  Bool, Text, ℕ, ◌≢◌, retain, ◌&&◌,
}

-- The sender may publish.
abbrev pub may_publish : Wire → PluginRegistry → Text → Bool
may_publish w r sender_id = is_ok (check_permission w r sender_id w.permission_event_publish)

module _ {S : Type 0} (ch : Channels S) (w : Wire) (now : Now) where
  -- On a channel that takes every item and is not the sender's own, an event that a plugin
  -- publishes adds, if the plugin has the permission to publish, one frame for each registered
  -- receiver on that channel that is a target of the event type `plugin.<sender>.<type>`, and the
  -- event store, where there is one, is called to persist the event under that type; without the
  -- permission it adds nothing and the store is not called. The event's envelope is one that can be
  -- encoded.
  pub handle_event_publish_exact :
      (msg : IncomingMessage) (env : Envelope) (event_type : Text) (payload_json payload : List ℕ)
      (tx : Sender) (k : Kernel S)
      → ((m : Outbound) (s : S) → (ch.try_send tx m s).1 ≡ true)
      → msg.write_tx ≢ tx
      → w.encode (
          envelope_for ch w now
            (published_event (sender_of msg k.registry) event_type payload_json now k.event_seq)
            k.msg_seq)
        ≡ some payload
      → let sender_id : Text = sender_of msg k.registry in
        let k' : Kernel S = (handle_event_publish ch w now msg env event_type payload_json k).0 in
        (ch.taken k'.chans tx ≡ (
          if may_publish w k.registry sender_id
          then ch.taken k.chans tx
            ++ frames_for w payload
                (retain (is_on k.registry tx) (targets (namespaced sender_id event_type) k.bus))
          else ch.taken k.chans tx))
        × (k'.store_calls ≡ (
            if may_publish w k.registry sender_id && k.has_store
            then k.store_calls
              ++ persist_async (published_event sender_id event_type payload_json now k.event_seq)
                ∷ []
            else k.store_calls))
  unfolding handle_event_publish
  handle_event_publish_exact msg env event_type payload_json payload tx k takes other encoded =
      let sender_id : Text = sender_of msg k.registry in
      elim (Bool-cases (may_publish w k.registry sender_id)) [
        | inl may ↦
            let published =
              publish_exact ch w now tx takes
                (published_event sender_id event_type payload_json now k.event_seq) payload
                (record k { event_seq = next_seq k.event_seq }) encoded in
            rw (handle_event_publish, may)
              (
                send_envelope_other ch w now msg.write_tx tx _ _ other ∙ published.0,
                store_calls-send_envelope ch w now msg.write_tx _ _ ∙ published.1,
              )
        | inr denied ↦
            rw (handle_event_publish, denied)
              (
                send_envelope_other ch w now msg.write_tx tx _ k other,
                store_calls-send_envelope ch w now msg.write_tx _ k,
              )
      ]
