-- ===== src/Events/Delivery.antt =====
-- src/events/bus.rs: an event on its way to the subscribers.
pub mod Reach
use veyron.Prelude.{
  [], ◌∷◌, none, some, text_eq, nat_eq, if◌then◌else◌, List, Text, ℕ, ◌++◌, bytes, inl, inr, true,
  false, refl, arith, ==_iff, ==_refl, Option-cases, Bool-cases, ◌≡◌, zero, suc, Option, Bool,
}
use veyron.Events.Bus.{targets}
use veyron.Ipc.Wire.{Wire, Event, Envelope, event}
use veyron.Ipc.Framing.{build_frame}
use veyron.Ipc.Channels.{Channels, out_frame}
use veyron.Ipc.Kernel.{Kernel, Now, kernel_message_id, next_seq, persist_async}
use veyron.Prelude.Maps.{get}

module _ {S : Type 0} (ch : Channels S) (w : Wire) (now : Now) where
  -- The non-blocking sends, one to each target that is registered.
  unfoldable pub deliver_each : List ℕ → List Text → Kernel S → Kernel S
  deliver_each payload [] k = k
  deliver_each payload (plugin_id ∷ rest) k =
      deliver_each payload rest (elim (get plugin_id k.registry.by_plugin_id) [
        | none ↦ k
        | some entry ↦ record k {
          chans =
              (ch.try_send entry.write_tx (out_frame (build_frame w plugin_id 0 payload))
                k.chans).0;
        }
      ])

  abbrev pub envelope_for : Event → ℕ → Envelope
  envelope_for ev seq = record {
    message_id = kernel_message_id now.unix_ms seq;
    sender_id = bytes "kernel";
    timestamp = now.unix_ms;
    payload = some (event ev);
  }

  unfoldable pub deliver : Event → Kernel S → Kernel S
  unfolding deliver_each
  deliver ev k = elim (targets ev.event_type k.bus) [
    | [] ↦ k
    | t ∷ ts ↦
        let k' : Kernel S = record k { msg_seq = next_seq k.msg_seq } in
        elim (w.encode (envelope_for ev k.msg_seq)) [
          | none ↦ k'
          | some payload ↦ deliver_each payload (t ∷ ts) k'
        ]
  ]

  abbrev pub redeliver : Event → Kernel S → Kernel S
  redeliver ev k = deliver ev k

  unfoldable pub publish : Event → Kernel S → Kernel S
  unfolding deliver
  publish ev k = deliver ev record k {
    store_calls = if k.has_store then k.store_calls ++ persist_async ev ∷ [] else k.store_calls;
  }
