-- ===== src/Ipc/Router/Streams.antt =====
-- `MessageRouter::handle_kernel_message`: the arms for stream chunks and the close of a session, and
-- the forced end of a stream of src/ipc/protocol/helpers.rs.
pub mod Chunks
pub mod Closes
use veyron.Prelude.{
  nat_eq, text_eq, bytes, [], none, some, true, false, if◌then◌else◌, Option, Bool, Text, and_then,
  ◌==◌, not, ◌∷◌, inl, inr, refl, arith, ==_iff, ==_refl, Option-cases, Bool-cases, ◌≡◌, zero, suc,
  List, ℕ,
}
use veyron.Prelude.Maps.{get}
use veyron.Registry.Types.{PendingAction, Sender}
use veyron.Registry.State.{PluginRegistry, get_by_conn_id}
use veyron.Registry.Pending.{
  take_pending_action, touch_pending_action, get_pending_action, find_pending_internal_id,
}
use veyron.Ipc.Channels.{Channels}
use veyron.Ipc.Kernel.{Kernel, IncomingMessage, Now, send_envelope, send_error, try_send_envelope}
use veyron.Ipc.Wire.{
  Wire, Envelope, ActionResponse, ActionRequestChunk, ActionResponseChunk,
  action_stream_backpressure, action_stream_abort, action_response, action_request_chunk,
  action_response_chunk, session_close, envelope_of, err_unknown, err_not_registered,
}
use veyron.Ipc.Router.Actions.{follow_up, sender_of}

-- The response that ends a request whose session was never accepted.
abbrev terminal_response : Text → Text → ActionResponse
terminal_response action_id reason = record {
  action_id = action_id;
  status = action_stream_backpressure;
  data_json = [];
  error = reason;
}

-- The row that a requester means by its own action id, with the id it stands under.
pub find_own : Text → Text → PluginRegistry → Option (Text × PendingAction)
find_own sender_id action_id r =
    and_then (find_pending_internal_id sender_id action_id r)
      (λ id. elim (get_pending_action id r) [ none ↦ none | some p ↦ some (id, p) ])

-- The row under this id, if it was routed to the plugin.
pub find_routed : Text → Text → PluginRegistry → Option PendingAction
find_routed id plugin_id r = elim (get_pending_action id r) [
  | none ↦ none
  | some p ↦ if p.provider_id == plugin_id then some p else none
]

-- The session that a close means, with the id it stands under, and whether its provider closes it.
pub find_session : Text → Text → PluginRegistry → Option ((Text × PendingAction) × Bool)
find_session sender_id action_id r = elim (find_routed action_id sender_id r) [
  | some p ↦ some ((action_id, p), true)
  | none ↦ elim (find_own sender_id action_id r) [ none ↦ none | some row ↦ some (row, false) ]
]

module _ {S : Type 0} (ch : Channels S) (w : Wire) (now : Now) where
  abbrev pub touch : Text → Kernel S → Kernel S
  touch id k = record k { registry = touch_pending_action id now.instant k.registry }

  -- The send to a plugin, if it is registered; its result is dropped.
  pub notify_plugin : Text → Envelope → Kernel S → Kernel S
  notify_plugin plugin_id env k = elim (get plugin_id k.registry.by_plugin_id) [
    | none ↦ k
    | some entry ↦ send_envelope ch w now entry.write_tx env k
  ]

  -- The notices to the requester. One whose session was accepted has its response already.
  pub notify_requester : PendingAction → Text → Kernel S → Kernel S
  notify_requester p reason k =
      let aborted =
        send_envelope ch w now p.requester_write_tx
          (envelope_of (action_stream_abort p.original_action_id reason)) k in
      if p.session_accepted
      then aborted
      else send_envelope ch w now p.requester_write_tx
          (envelope_of (action_response (terminal_response p.original_action_id reason))) aborted

  pub notify_forced_termination : Text → PendingAction → Text → Kernel S → Kernel S
  notify_forced_termination id p reason k =
      notify_plugin p.provider_id (envelope_of (action_stream_abort id reason))
        (notify_requester p reason k)

  pub abort_stream : Text → Text → Kernel S → Kernel S
  abort_stream id reason k =
      let (taken, r) = take_pending_action id k.registry in
      elim taken [
        | none ↦ record k { registry = r }
        | some p ↦ notify_forced_termination id p reason (record k { registry = r })
      ]

  -- The send of a chunk; a chunk that cannot be sent ends its stream.
  pub send_or_abort : Text → Sender → Envelope → Kernel S → Kernel S
  send_or_abort id tx env k =
      let (k', sent) = try_send_envelope ch w now tx env k in
      if sent then k' else abort_stream id (bytes "receiver backpressure") k'

  pub handle_request_chunk :
      IncomingMessage → Envelope → ActionRequestChunk → Kernel S → Kernel S × Bool
  handle_request_chunk msg env chunk k =
      elim (find_own (sender_of msg k.registry) chunk.action_id k.registry) [
        | none ↦ (k, false)
        | some (id, p) ↦
            let touched = touch id k in
            (
              elim (get p.provider_id touched.registry.by_plugin_id) [
                | some provider ↦
                    send_or_abort id provider.write_tx
                      (follow_up env (action_request_chunk (record chunk { action_id = id })))
                      touched
                | none ↦ abort_stream id (bytes "provider disconnected") touched
              ],
              false,
            )
      ]

  pub handle_response_chunk :
      IncomingMessage → Envelope → ActionResponseChunk → Kernel S → Kernel S × Bool
  handle_response_chunk msg env chunk k = elim (get_by_conn_id msg.conn_id k.registry) [
    | none ↦ (k, false)
    | some sender ↦ elim (find_routed chunk.action_id sender.plugin_id k.registry) [
      | none ↦ (k, false)
      | some p ↦ (
        send_or_abort chunk.action_id p.requester_write_tx
            (follow_up env
              (action_response_chunk (record chunk { action_id = p.original_action_id })))
            (touch chunk.action_id k),
        false,
      )
    ]
  ]

  -- The close goes to the other side under the id that it knows, and ends the session.
  pub close_session : Text → PendingAction → Bool → Envelope → Text → Kernel S → Kernel S
  close_session id p from_provider env reason k =
      let k' =
        if from_provider
        then send_envelope ch w now p.requester_write_tx
            (follow_up env (session_close p.original_action_id reason)) k
        else notify_plugin p.provider_id (follow_up env (session_close id reason)) k in
      record k' { registry = (take_pending_action id k'.registry).1 }

  pub handle_session_close : IncomingMessage → Envelope → Text → Text → Kernel S → Kernel S × Bool
  handle_session_close msg env action_id reason k = elim (get_by_conn_id msg.conn_id k.registry) [
    | none ↦ (send_error ch w now msg.write_tx err_not_registered (bytes "not registered") k, true)
    | some sender ↦ elim (find_session sender.plugin_id action_id k.registry) [
      | none ↦ (send_error ch w now msg.write_tx err_unknown (bytes "no matching session") k, true)
      | some ((id, p), from_provider) ↦
          if not p.session_accepted
          then (
            send_error ch w now msg.write_tx err_unknown
                (bytes "session not accepted, nothing to close") k,
            true,
          )
          else (close_session id p from_provider env reason k, false)
    ]
  ]
