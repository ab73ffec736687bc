-- ===== src/Examples/Actions.antt =====
-- A request for an action, its response, chunks and the close of a session.
use veyron.Registry.Pending.{register_pending_action}
use veyron.Ipc.Router.Actions.RoundTrip.{request_response_roundtrip}
use veyron.Ipc.Router.Actions.Requests.{MayServe, handle_action_request_exact}
use veyron.Ipc.Router.Actions.Responses.{answered, handle_action_response_exact}
use veyron.Ipc.Router.Streams.Chunks.{Arrives, handle_response_chunk_exact}
use veyron.Ipc.Router.Streams.Closes.{IsSessionOf, handle_session_close_exact}
use veyron.Registry.Pending.Replies.{routed_to}
use veyron.Registry.Types.{PluginEntry, PendingAction, Sender}
use veyron.Prelude.Maps.{get}
use veyron.Ipc.Router.Streams.{handle_session_close, handle_response_chunk}
use veyron.Ipc.Router.Actions.{
  internal_id, verdict, Limits, handle_action_response, handle_action_request, sender_of, follow_up,
  routed, pending_of,
}
use veyron.Registry.State.{find_action_provider}
use veyron.Auth.Permissions.{required_permission_for_action}
use veyron.Registry.Pending.{count_pending_actions_for}
use veyron.Prelude.Maps.{keys_where}
use veyron.Ipc.Wire.{ActionRequestChunk, ActionResponseChunk}
use veyron.Prelude.{
  nat_eq, text_eq, bytes, refl, [], none, some, true, false, if◌then◌else◌, ◌≡◌, Text, text_beq,
  ◌⊎◌, ◌≢◌, ◌==◌,
}
use veyron.Examples.Data.{bob, play, alice_entry}
use veyron.Examples.Pending.{in_flight, in_flight-HasUniqueKeys, k0}
use veyron.Examples.Ipc.{stores, wire, now, message, kernel, Stores, frame}
use veyron.Ipc.Wire.{
  Envelope, ActionRequest, ActionResponse, action_ok, action_response, action_response_chunk,
}
use veyron.Ipc.Kernel.{Kernel, IncomingMessage, send_envelope}
use veyron.Registry.State.{get_by_conn_id}

abbrev limits : Limits
limits = record {
  max_concurrent = some 4;
  rate_exceeded = λ caller provider. false;
  timeout_ms = 30000;
}

abbrev envelope : Envelope
envelope = record { message_id = bytes "m-1"; sender_id = bob; timestamp = 0; payload = none }

abbrev request : ActionRequest
request = record {
  action_id = bytes "b-1";
  action = play;
  params_json = [];
  timeout_ms = 0;
  streaming = false;
  caller_plugin_id = bytes "someone";
}

abbrev response : ActionResponse
response = record { action_id = internal_id 0; status = action_ok; data_json = []; error = [] }

abbrev part : ActionRequestChunk
part = record { action_id = bytes "b-1"; seq = 0; chunk = []; final = true }

abbrev reply_part : ActionResponseChunk
reply_part = record { action_id = bytes "k-1"; seq = 0; chunk = [] }

-- The message of the provider.
abbrev answer : IncomingMessage
answer = record { conn_id = 1; frame = frame; write_tx = 10 }

abbrev busy : Kernel Stores
busy = record kernel { registry = in_flight }

handle_action_request_exact_example :
    let k' = (handle_action_request stores wire now limits message envelope request kernel).0 in
    let sender_id = sender_of message kernel.registry in
    ((k'.registry ≡ kernel.registry)
      × ((tx : Sender)
          → message.write_tx ≢ tx
          → stores.taken k'.chans tx ≡ stores.taken kernel.chans tx))
    ⊎ ((provider : PluginEntry) × MayServe wire limits kernel.registry sender_id request.action
          provider
        × (k'.registry
            ≡ register_pending_action
                (internal_id kernel.action_seq)
                (pending_of limits now message request sender_id provider)
                kernel.registry)
        × ((tx : Sender)
            → provider.write_tx ≢ tx
            → stores.taken k'.chans tx ≡ stores.taken kernel.chans tx))
handle_action_request_exact_example =
    handle_action_request_exact stores wire now limits message envelope request kernel

handle_action_response_exact_example :
    let k' =
      (handle_action_response stores wire now answer envelope
        (record response { action_id = k0 })
        busy).0 in
    ((k'.registry ≡ busy.registry) × (k'.chans ≡ busy.chans))
    ⊎ ((sender : PluginEntry) × (p : PendingAction) × (get_by_conn_id answer.conn_id busy.registry
          ≡ some sender)
        × (routed_to (record response { action_id = k0 }).action_id sender.plugin_id busy.registry
            ≡ some p)
        × (k'.chans
            ≡ (answered stores wire now envelope (record response { action_id = k0 }) p busy).chans)
        × ((tx : Sender)
            → p.requester_write_tx ≢ tx
            → stores.taken k'.chans tx ≡ stores.taken busy.chans tx))
handle_action_response_exact_example =
    handle_action_response_exact stores wire now answer envelope
      (record response { action_id = k0 }) busy

is_routed :
    verdict wire limits kernel.registry (sender_of message kernel.registry) request.action
    ≡ routed alice_entry
unfolding verdict find_action_provider get text_beq required_permission_for_action
    count_pending_actions_for keys_where
is_routed = refl

answers : get_by_conn_id answer.conn_id kernel.registry ≡ some alice_entry
unfolding get text_beq
answers = refl

request_response_roundtrip_example :
    let k' = (handle_action_request stores wire now limits message envelope request kernel).0 in
    (handle_action_response stores wire now answer envelope response k').0.chans
    ≡ (send_envelope stores wire now message.write_tx
        (follow_up envelope (action_response (record response { action_id = request.action_id })))
        k').chans
request_response_roundtrip_example =
    request_response_roundtrip stores wire now now limits message answer envelope envelope request
      response kernel alice_entry is_routed answers refl

handle_response_chunk_exact_example :
    let k' = (handle_response_chunk stores wire now answer envelope reply_part busy).0 in
    (k' ≡ busy)
    ⊎ ((sender : PluginEntry) × (p : PendingAction) × (get_by_conn_id answer.conn_id busy.registry
          ≡ some sender)
        × (get reply_part.action_id busy.registry.pending_actions ≡ some p)
        × (p.provider_id ≡ sender.plugin_id)
        × (Arrives stores wire now p.requester_write_tx
              (follow_up envelope
                (action_response_chunk (record reply_part { action_id = p.original_action_id })))
              busy
              k'
            ⊎ (get reply_part.action_id k'.registry.pending_actions ≡ none)))
handle_response_chunk_exact_example =
    handle_response_chunk_exact stores wire now answer envelope reply_part busy

handle_session_close_exact_example :
    let res = handle_session_close stores wire now answer envelope (bytes "k-1") [] busy in
    ((res.1 ≡ true) × (res.0.registry ≡ busy.registry))
    ⊎ ((sender : PluginEntry) × (id : Text) × (p : PendingAction) × (res.1 ≡ false)
        × (get_by_conn_id answer.conn_id busy.registry ≡ some sender)
        × IsSessionOf busy.registry sender.plugin_id id p
        × ((j : Text)
            → get j res.0.registry.pending_actions
              ≡ (if id == j then none else get j busy.registry.pending_actions)))
handle_session_close_exact_example =
    handle_session_close_exact stores wire now answer envelope (bytes "k-1") [] busy
      in_flight-HasUniqueKeys
