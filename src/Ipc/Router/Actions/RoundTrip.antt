-- ===== src/Ipc/Router/Actions/RoundTrip.antt =====
-- A request and its response, from the requester to the provider and back.
use veyron.Ipc.Router.Actions.Responses.{handle_action_response-answered}
use veyron.Ipc.Kernel.Sends.{registry-try_send_envelope}
use veyron.Ipc.Router.Actions.{
  handle_action_request, Limits, route_action, verdict, sender_of, routed, internal_id, pending_of,
  handle_action_response, follow_up,
}
use veyron.Prelude.{nat_eq, text_eq, arith, ==_refl, ◌≡◌, some, Text}
use veyron.Prelude.Maps.{get-insert}
use veyron.Registry.Types.{PluginEntry, PendingAction}
use veyron.Registry.Pending.{register_pending_action}
use veyron.Registry.Pending.Replies.{routed_to}
use veyron.Registry.State.{get_by_conn_id, PluginRegistry}
use veyron.Ipc.Wire.{Wire, Envelope, ActionRequest, ActionResponse, action_response}
use veyron.Ipc.Channels.{Channels}
use veyron.Ipc.Kernel.{Kernel, IncomingMessage, Now, send_envelope}

registered_row :
    (id : Text) (p : PendingAction) (r : PluginRegistry)
    → routed_to id p.provider_id (register_pending_action id p r) ≡ some p
unfolding register_pending_action
registered_row id p r =
    ground (arith, get-insert id id p r.pending_actions, ==_refl id, ==_refl p.provider_id)

module _ {S : Type 0} (ch : Channels S) (w : Wire) where
  routed_request :
      (now : Now) (lim : Limits) (msg : IncomingMessage) (env : Envelope) (req : ActionRequest)
      (k : Kernel S) (provider : PluginEntry)
      → verdict w lim k.registry (sender_of msg k.registry) req.action ≡ routed provider
      → (handle_action_request ch w now lim msg env req k).0.registry
        ≡ register_pending_action
            (internal_id k.action_seq)
            (pending_of lim now msg req (sender_of msg k.registry) provider)
            k.registry
  unfolding handle_action_request route_action send_envelope
  routed_request now lim msg env req k provider e =
      rw (e, handle_action_request) (registry-try_send_envelope ch w now provider.write_tx _ _)

  -- A request that is routed to a provider finds its way back: when the provider answers under the
  -- internal id, the channels change as by one send of that response to the requester, under the
  -- requester's own action id.
  pub request_response_roundtrip :
      (now later : Now) (lim : Limits) (msg answer : IncomingMessage) (env env' : Envelope)
      (req : ActionRequest) (resp : ActionResponse) (k : Kernel S) (provider : PluginEntry)
      → verdict w lim k.registry (sender_of msg k.registry) req.action ≡ routed provider
      → get_by_conn_id answer.conn_id k.registry ≡ some provider
      → resp.action_id ≡ internal_id k.action_seq
      → let k' = (handle_action_request ch w now lim msg env req k).0 in
        (handle_action_response ch w later answer env' resp k').0.chans
        ≡ (send_envelope ch w later msg.write_tx
            (follow_up env' (action_response (record resp { action_id = req.action_id })))
            k').chans
  unfolding pending_of register_pending_action
  request_response_roundtrip now later lim msg answer env env' req resp k provider routed_to_it
        its_conn its_id =
      let k' = (handle_action_request ch w now lim msg env req k).0 in
      let stored = routed_request now lim msg env req k provider routed_to_it in
      handle_action_response-answered ch w later answer env' resp k' provider
        (pending_of lim now msg req (sender_of msg k.registry) provider) (rw stored its_conn)
        (rw (stored, its_id)
          (registered_row (internal_id k.action_seq)
            (pending_of lim now msg req (sender_of msg k.registry) provider) k.registry))
