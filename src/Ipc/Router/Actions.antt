-- ===== src/Ipc/Router/Actions.antt =====
-- `MessageRouter::handle_kernel_message`: the arms for action requests and their responses.
pub mod Requests
pub mod Responses
pub mod RoundTrip
use veyron.Ipc.Router.Forward.{is_ok}
use veyron.Auth.Permissions.{required_permission_for_action, check_permission}
use veyron.Registry.Pending.{
  resolve_action_response, count_pending_actions_for, register_pending_action,
}
use veyron.Prelude.{
  nat_eq, text_eq, bytes, [], none, some, true, false, if◌then◌else◌, Option, Bool, Text, ℕ,
  is_some_and, ◌++◌, ◌+◌, leb, ◌==◌, decimal, not, ◌||◌, ◌∷◌, inl, inr, refl, arith, ==_iff,
  ==_refl, Option-cases, Bool-cases, ◌≡◌, zero, suc, List,
}
use veyron.Registry.Types.{PluginEntry, PendingAction, not_found, found, ambiguous, PermissionType}
use veyron.Registry.State.{PluginRegistry, get_by_conn_id, find_action_provider, action_requirement}
use veyron.Ipc.Channels.{Channels}
use veyron.Ipc.Kernel.{Kernel, IncomingMessage, Now, send_envelope, action_status_message, next_seq}
use veyron.Ipc.Wire.{
  Wire, Envelope, ActionRequest, ActionResponse, action_ok, action_not_found, ActionStatus, Payload,
  action_request, action_response, envelope_of, action_permission_deny, action_quota_exceeded,
}

-- The settings of action routing, and what the rate limiter answers for a caller and a provider.
pub record Limits : Type 0 where
  pub max_concurrent : Option ℕ
  pub rate_exceeded : Text → Text → Bool
  pub timeout_ms : ℕ

-- The sender's plugin id, empty if the connection has no plugin.
abbrev pub sender_of : IncomingMessage → PluginRegistry → Text
sender_of msg r = elim (get_by_conn_id msg.conn_id r) [ none ↦ [] | some e ↦ e.plugin_id ]

-- The permission that an action of a provider requires.
pub requirement : Text → Text → PluginRegistry → Option PermissionType
requirement provider_id action r = elim (action_requirement provider_id action r) [
  | some perm ↦ some perm
  | none ↦ required_permission_for_action action
]

-- The provider or the requester lacks the permission that the action requires.
pub lacks_permission : Wire → PluginRegistry → Text → Text → Text → Bool
unfolding requirement
lacks_permission w r provider_id sender_id action =
    is_some_and (requirement provider_id action r) (λ perm.
      not (is_ok (check_permission w r provider_id perm))
      || not (is_ok (check_permission w r sender_id perm)))

-- The requester holds as many of the provider's slots as it may.
pub at_capacity : Limits → PluginRegistry → Text → Text → Bool
at_capacity lim r sender_id provider_id =
    is_some_and lim.max_concurrent
      (λ cap. leb cap (count_pending_actions_for sender_id provider_id r))

-- What refuses a request, or the provider that gets it.
pub data Verdict : Type 0 where
  refused : ActionStatus → Verdict
  routed : PluginEntry → Verdict

unfoldable pub verdict : Wire → Limits → PluginRegistry → Text → Text → Verdict
unfolding lacks_permission at_capacity
verdict w lim r sender_id action = elim (find_action_provider action r) [
  | not_found ↦ refused action_not_found
  | ambiguous ids ↦ refused action_not_found
  | found provider ↦
      if lacks_permission w r provider.plugin_id sender_id action
      then refused action_permission_deny
      else if at_capacity lim r sender_id provider.plugin_id
      then refused action_quota_exceeded
      else if lim.rate_exceeded sender_id provider.plugin_id
      then refused action_quota_exceeded
      else routed provider
]

-- `format!("kact-{}", ..)`
pub internal_id : ℕ → Text
internal_id seq = bytes "kact-" ++ decimal seq

pub pending_of : Limits → Now → IncomingMessage → ActionRequest → Text → PluginEntry → PendingAction
pending_of lim now msg req sender_id provider = record {
  requester_write_tx = msg.write_tx;
  original_action_id = req.action_id;
  requester_id = sender_id;
  deadline = now.instant + (if req.timeout_ms == 0 then lim.timeout_ms else req.timeout_ms);
  provider_id = provider.plugin_id;
  streaming = req.streaming;
  session_accepted = false;
  last_activity = now.instant;
}

-- The payload under the message id of the message that it answers or carries on.
abbrev pub follow_up : Envelope → Payload → Envelope
follow_up env payload = record (envelope_of payload) { message_id = env.message_id }

-- The request as the provider gets it: under the kernel's id, with the sender's true name.
abbrev forwarded_request : ActionRequest → Text → Text → ActionRequest
forwarded_request req id sender_id = record req { action_id = id; caller_plugin_id = sender_id }

abbrev status_response : Text → ActionStatus → ActionResponse
status_response action_id status = record {
  action_id = action_id;
  status = status;
  data_json = [];
  error = action_status_message status;
}

abbrev pub is_action_ok : ActionStatus → Bool
is_action_ok action_ok = true
is_action_ok _ = false

module _ {S : Type 0} (ch : Channels S) (w : Wire) (now : Now) where
  pub route_action :
      Limits → IncomingMessage → Envelope → ActionRequest → Text → PluginEntry → Kernel S → Kernel S
  unfolding internal_id
  route_action lim msg env req sender_id provider k =
      let id = internal_id k.action_seq in
      send_envelope ch w now provider.write_tx
        (follow_up env (action_request (forwarded_request req id sender_id)))
        (record k {
          registry =
              register_pending_action id (pending_of lim now msg req sender_id provider) k.registry;
          action_seq = next_seq k.action_seq;
        })

  pub handle_action_request :
      Limits → IncomingMessage → Envelope → ActionRequest → Kernel S → Kernel S × Bool
  handle_action_request lim msg env req k =
      let sender_id = sender_of msg k.registry in
      elim (verdict w lim k.registry sender_id req.action) [
        | refused status ↦ (
          send_envelope ch w now msg.write_tx
              (follow_up env (action_response (status_response req.action_id status))) k,
          false,
        )
        | routed provider ↦ (route_action lim msg env req sender_id provider k, false)
      ]

  -- What the requester gets of a response: the response under its own id.
  pub handle_action_response :
      IncomingMessage → Envelope → ActionResponse → Kernel S → Kernel S × Bool
  handle_action_response msg env resp k = elim (get_by_conn_id msg.conn_id k.registry) [
    | none ↦ (k, false)
    | some sender ↦
        let (taken, r) =
          resolve_action_response resp.action_id sender.plugin_id (is_action_ok resp.status)
            now.instant k.registry in
        elim taken [
          | none ↦ (record k { registry = r }, false)
          | some pending ↦ (
            send_envelope ch w now pending.requester_write_tx
                (follow_up env
                  (action_response (record resp { action_id = pending.original_action_id })))
                (record k { registry = r }),
            false,
          )
        ]
  ]
