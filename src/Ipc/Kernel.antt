-- ===== src/Ipc/Kernel.antt =====
-- The state that the router works on, and src/ipc/protocol/helpers.rs: kernel messages and their
-- non-blocking sends.
pub mod Sends
use veyron.Prelude.{
  ℕ, ◌+◌, ◌%◌, ◌^◌, Text, bytes, is_empty, decimal, Bool, false, Option, none, some, [], ◌++◌,
  text_eq, nat_eq, if◌then◌else◌, ◌∷◌, inl, inr, true, refl, arith, ==_iff, ==_refl, Option-cases,
  Bool-cases, ◌≡◌, zero, suc, List,
}
use veyron.Registry.Types.{Sender, Instant}
use veyron.Registry.State.{PluginRegistry}
use veyron.Events.Bus.{EventBus}
use veyron.Ipc.Wire.{
  Event, Wire, Frame, Envelope, envelope_of, ErrorCode, error_message, plugin_register_ack,
  ActionStatus, action_unknown, action_ok, action_error, action_not_found, action_permission_deny,
  action_timeout, action_quota_exceeded, action_stream_backpressure,
}
use veyron.Ipc.Channels.{Channels, Outbound, out_frame}
use veyron.Ipc.Framing.{build_frame}

-- The calls of the event store, whose database is not modelled.
pub data StoreCall : Type 0 where
  persist_async : Event → StoreCall
  mark_delivered_async : Text → StoreCall

pub record Kernel (S : Type 0) : Type 0 where
  pub registry : PluginRegistry
  pub bus : EventBus
  pub chans : S
  -- `MSG_SEQ`, `ACTION_CORRELATION_SEQ`, `EVENT_PUBLISH_SEQ`
  pub msg_seq : ℕ
  pub action_seq : ℕ
  pub event_seq : ℕ
  -- whether the bus has an event store, and what the store was called for, oldest first
  pub has_store : Bool
  pub store_calls : List StoreCall

pub record IncomingMessage : Type 0 where
  pub conn_id : ℕ
  pub frame : Frame
  pub write_tx : Sender

-- The readings of the two clocks while one message is handled.
pub record Now : Type 0 where
  pub instant : Instant
  pub unix_ms : ℕ

abbrev pub next_seq : ℕ → ℕ
next_seq n = (n + 1) % 2 ^ 64

unfoldable pub action_status_message : ActionStatus → Text
action_status_message action_not_found = bytes "action not found"
action_status_message action_permission_deny = bytes "permission denied"
action_status_message action_timeout = bytes "action timed out"
action_status_message action_quota_exceeded = bytes "quota exceeded"
action_status_message action_stream_backpressure = bytes "stream backpressure"
action_status_message action_error = bytes "action failed"
action_status_message action_ok = bytes "unknown action status"
action_status_message action_unknown = bytes "unknown action status"

unfoldable pub kernel_message_id : ℕ → ℕ → Text
kernel_message_id unix_ms seq = bytes "k-" ++ (decimal unix_ms ++ (bytes "-" ++ decimal seq))

module _ {S : Type 0} (ch : Channels S) (w : Wire) (now : Now) where
  -- The envelope as it leaves, and the sequence number after it: an id that is there is kept.
  unfoldable pub stamp : Envelope → ℕ → Envelope × ℕ
  unfolding kernel_message_id
  stamp env seq =
      if is_empty env.message_id
      then (
        record env {
          message_id = kernel_message_id now.unix_ms seq;
          timestamp = now.unix_ms;
          sender_id = bytes "kernel";
        },
        next_seq seq,
      )
      else (record env { timestamp = now.unix_ms; sender_id = bytes "kernel" }, seq)

  unfoldable pub build_outbound : Envelope → ℕ → Option Outbound × ℕ
  build_outbound env seq =
      let (stamped, seq') = stamp env seq in
      (
        elim (w.encode stamped) [
          | none ↦ none
          | some payload ↦ some (out_frame (build_frame w (bytes "client") 0 payload))
        ],
        seq',
      )

  unfoldable pub try_send_envelope : Sender → Envelope → Kernel S → Kernel S × Bool
  try_send_envelope tx env k =
      let (out, seq) = build_outbound env k.msg_seq in
      elim out [
        | none ↦ (record k { msg_seq = seq }, false)
        | some m ↦
            let (chans, sent) = ch.try_send tx m k.chans in
            (record k { msg_seq = seq; chans = chans }, sent)
      ]

  -- The same send, its result only logged.
  unfoldable pub send_envelope : Sender → Envelope → Kernel S → Kernel S
  unfolding try_send_envelope
  send_envelope tx env k = (try_send_envelope tx env k).0

  pub send_error : Sender → ErrorCode → Text → Kernel S → Kernel S
  unfolding send_envelope
  send_error tx code message k = send_envelope tx (envelope_of (error_message code message [])) k

  unfoldable pub send_register_reject : Sender → Text → Kernel S → Kernel S
  unfolding send_envelope
  send_register_reject tx reason k =
      send_envelope tx
        (envelope_of (
          plugin_register_ack (record {
            accepted = false;
            reject_reason = reason;
            granted_permissions = [];
            session_nonce = [];
          })))
        k
