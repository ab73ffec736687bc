-- ===== src/Ipc/Router/Actions/Requests.antt =====
-- Which requests reach a provider, and what they leave in the registry.
use veyron.Ipc.Kernel.Sends.{registry-try_send_envelope, try_send_envelope_other}
use veyron.Auth.Permissions.{check_permission}
use veyron.Registry.State.{PluginRegistry, find_action_provider}
use veyron.Ipc.Router.Actions.{
  Limits, handle_action_request, verdict, lacks_permission, route_action, at_capacity, sender_of,
  requirement, internal_id, pending_of, refused, routed,
}
use veyron.Prelude.{
  nat_eq, text_eq, arith, Bool-cases, refl, inl, inr, ◌≡◌, ◌≢◌, ◌⊎◌, ◌<◌, some, false, List, Text,
  ℕ,
}
use veyron.Utils.Errors.{ok}
use veyron.Registry.Types.{
  PluginEntry, found, not_found, ambiguous, PermissionType, Sender, ActionLookup,
}
use veyron.Registry.Pending.{register_pending_action, count_pending_actions_for}
use veyron.Ipc.Wire.{
  Wire, Envelope, ActionRequest, ActionStatus, action_not_found, action_permission_deny,
  action_quota_exceeded,
}
use veyron.Ipc.Channels.{Channels}
use veyron.Ipc.Kernel.{Kernel, IncomingMessage, Now, send_envelope}
use veyron.Ipc.Router.Forward.Authorised.{is_ok-eq}

-- A provider that may be given the request: it is the only plugin that declares the action, it and
-- the requester both hold the permission that the action requires, and the requester is below its
-- limits.
pub record MayServe (w : Wire) (lim : Limits) (r : PluginRegistry) (sender_id action : Text)
    (provider : PluginEntry) : Type 0 where
  pub only : find_action_provider action r ≡ found provider
  pub both_permitted :
      (perm : PermissionType)
      → requirement provider.plugin_id action r ≡ some perm
      → (check_permission w r provider.plugin_id perm ≡ ok tt)
        × (check_permission w r sender_id perm ≡ ok tt)
  pub below_cap :
      (cap : ℕ)
      → lim.max_concurrent ≡ some cap
      → count_pending_actions_for sender_id provider.plugin_id r < cap
  pub within_rate : lim.rate_exceeded sender_id provider.plugin_id ≡ false

lookup_cases :
    (l : ActionLookup)
    → (l ≡ not_found)
      ⊎ (((ids : List Text) × (l ≡ ambiguous ids)) ⊎ ((p : PluginEntry) × (l ≡ found p)))
lookup_cases not_found = inl refl
lookup_cases (ambiguous ids) = inr (inl (ids, refl))
lookup_cases (found p) = inr (inr (p, refl))

both_hold :
    (w : Wire) (r : PluginRegistry) (p q action : Text) (perm : PermissionType)
    → lacks_permission w r p q action ≡ false
    → requirement p action r ≡ some perm
    → (check_permission w r p perm ≡ ok tt) × (check_permission w r q perm ≡ ok tt)
unfolding lacks_permission
both_hold w r p q action perm h e = (is_ok-eq _ (ground arith), is_ok-eq _ (ground arith))

verdict-routed_cases :
    (w : Wire) (lim : Limits) (r : PluginRegistry) (sender_id action : Text)
    → ((status : ActionStatus) × (verdict w lim r sender_id action ≡ refused status))
      ⊎ ((provider : PluginEntry) × (verdict w lim r sender_id action ≡ routed provider)
          × MayServe w lim r sender_id action provider)
unfolding verdict lacks_permission at_capacity requirement
verdict-routed_cases w lim r sender_id action =
    elim (lookup_cases (find_action_provider action r)) [
      | inl e ↦ inl (action_not_found, ground arith)
      | inr (inl (ids, e)) ↦ inl (action_not_found, ground arith)
      | inr (inr (p, e)) ↦ elim (Bool-cases (lacks_permission w r p.plugin_id sender_id action)) [
        | inl lacks ↦ inl (action_permission_deny, ground arith)
        | inr holds ↦ elim (Bool-cases (at_capacity lim r sender_id p.plugin_id)) [
          | inl full ↦ inl (action_quota_exceeded, ground arith)
          | inr room ↦ elim (Bool-cases (lim.rate_exceeded sender_id p.plugin_id)) [
            | inl fast ↦ inl (action_quota_exceeded, ground arith)
            | inr slow ↦ inr (
              p,
              ground arith,
              record {
                only = e;
                both_permitted = λ perm f. both_hold w r p.plugin_id sender_id action perm holds f;
                below_cap = λ cap f. ground arith;
                within_rate = slow;
              },
            )
          ]
        ]
      ]
    ]

module _ {S : Type 0} (ch : Channels S) (w : Wire) (now : Now) where
  -- A request either is refused, and then the registry stays as it is and no channel but the
  -- requester's changes; or it has a provider that may serve it, and then the registry gains
  -- exactly its row under the next internal id, for that provider and in the name of the plugin
  -- that the connection is registered for, and no channel but the provider's changes.
  pub handle_action_request_exact :
      (lim : Limits) (msg : IncomingMessage) (env : Envelope) (req : ActionRequest) (k : Kernel S)
      → let k' = (handle_action_request ch w now lim msg env req k).0 in
        let sender_id = sender_of msg k.registry in
        ((k'.registry ≡ k.registry)
          × ((tx : Sender) → msg.write_tx ≢ tx → ch.taken k'.chans tx ≡ ch.taken k.chans tx))
        ⊎ ((provider : PluginEntry) × MayServe w lim k.registry sender_id req.action provider
            × (k'.registry
                ≡ register_pending_action
                    (internal_id k.action_seq)
                    (pending_of lim now msg req sender_id provider)
                    k.registry)
            × ((tx : Sender) → provider.write_tx ≢ tx → ch.taken k'.chans tx ≡ ch.taken k.chans tx))
  unfolding handle_action_request route_action send_envelope
  handle_action_request_exact lim msg env req k =
      let sender_id = sender_of msg k.registry in
      elim (verdict-routed_cases w lim k.registry sender_id req.action) [
        | inl (status, e) ↦
            rw (e, handle_action_request)
              (inl (
                registry-try_send_envelope ch w now msg.write_tx _ k,
                λ tx ne. try_send_envelope_other ch w now msg.write_tx tx _ k ne,
              ))
        | inr (p, e, may) ↦
            rw (e, handle_action_request)
              (inr (
                p,
                may,
                registry-try_send_envelope ch w now p.write_tx _ _,
                λ tx ne. try_send_envelope_other ch w now p.write_tx tx _ _ ne,
              ))
      ]
