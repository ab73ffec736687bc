-- ===== src/Ipc/Router/Actions/Responses.antt =====
-- Where responses go.
use veyron.Ipc.Kernel.Sends.{try_send_envelope_other}
use veyron.Ipc.Router.Actions.{handle_action_response, follow_up, is_action_ok}
use veyron.Prelude.{nat_eq, text_eq, Option-cases, refl, inl, inr, ◌≡◌, ◌≢◌, ◌⊎◌, some, ap, ◌∙◌}
use veyron.Registry.Types.{PluginEntry, PendingAction, Sender}
use veyron.Registry.Pending.Replies.{routed_to, resolve_action_response_exact}
use veyron.Registry.State.{get_by_conn_id, PluginRegistry}
use veyron.Ipc.Wire.{Wire, Envelope, ActionResponse, action_response}
use veyron.Ipc.Channels.{Channels}
use veyron.Ipc.Kernel.{
  Kernel, IncomingMessage, Now, send_envelope, build_outbound, try_send_envelope,
}

module _ {S : Type 0} (ch : Channels S) (w : Wire) (now : Now) where
  -- The registry has no part in what a send does to the channels.
  chans-send_envelope :
      (tx : Sender) (env : Envelope) (r : PluginRegistry) (k : Kernel S)
      → (send_envelope ch w now tx env (record k { registry = r })).chans
        ≡ (send_envelope ch w now tx env k).chans
  unfolding send_envelope try_send_envelope build_outbound
  chans-send_envelope tx env r k = elim (Option-cases (build_outbound ch w now env k.msg_seq).0) [
    | inl e ↦ rw (e, try_send_envelope) refl
    | inr (m, e) ↦ rw (e, try_send_envelope) refl
  ]

  -- The response as the requester gets it, under its own id.
  abbrev pub answered : Envelope → ActionResponse → PendingAction → Kernel S → Kernel S
  answered env resp p k =
      send_envelope ch w now p.requester_write_tx
        (follow_up env (action_response (record resp { action_id = p.original_action_id }))) k

  pub handle_action_response-answered :
      (msg : IncomingMessage) (env : Envelope) (resp : ActionResponse) (k : Kernel S)
      (sender : PluginEntry) (p : PendingAction)
      → get_by_conn_id msg.conn_id k.registry ≡ some sender
      → routed_to resp.action_id sender.plugin_id k.registry ≡ some p
      → (handle_action_response ch w now msg env resp k).0.chans ≡ (answered env resp p k).chans
  unfolding handle_action_response send_envelope
  handle_action_response-answered msg env resp k sender p e f =
      let exact =
        (resolve_action_response_exact resp.action_id sender.plugin_id (is_action_ok resp.status)
            now.instant k.registry).1
          p f in
      let (q, taken, _, tx_same, id_same, _) = exact in
      rw (e, taken, handle_action_response) (rw (tx_same, id_same) (chans-send_envelope _ _ _ k))

  -- A response either changes nothing in the registry and on the channels, or its sender is the
  -- plugin to which the action under its id was routed; then the channels change as by one send
  -- of the response, under the requester's own id, to the requester, and no other channel changes.
  pub handle_action_response_exact :
      (msg : IncomingMessage) (env : Envelope) (resp : ActionResponse) (k : Kernel S)
      → let k' = (handle_action_response ch w now msg env resp k).0 in
        ((k'.registry ≡ k.registry) × (k'.chans ≡ k.chans))
        ⊎ ((sender : PluginEntry) × (p : PendingAction) × (get_by_conn_id msg.conn_id k.registry
              ≡ some sender)
            × (routed_to resp.action_id sender.plugin_id k.registry ≡ some p)
            × (k'.chans ≡ (answered env resp p k).chans)
            × ((tx : Sender)
                → p.requester_write_tx ≢ tx
                → ch.taken k'.chans tx ≡ ch.taken k.chans tx))
  unfolding handle_action_response send_envelope
  handle_action_response_exact msg env resp k =
      elim (Option-cases (get_by_conn_id msg.conn_id k.registry)) [
        | inl e ↦ rw (e, handle_action_response) (inl (refl, refl))
        | inr (sender, e) ↦
            elim (Option-cases (routed_to resp.action_id sender.plugin_id k.registry)) [
              | inl f ↦
                  let exact =
                    resolve_action_response_exact resp.action_id sender.plugin_id
                      (is_action_ok resp.status) now.instant k.registry in
                  rw (e, (exact.0 f).0, handle_action_response) (inl ((exact.0 f).1, refl))
              | inr (p, f) ↦
                  let sent = handle_action_response-answered msg env resp k sender p e f in
                  inr (
                    sender,
                    p,
                    e,
                    f,
                    sent,
                    λ tx ne.
                        ap (λ s. ch.taken s tx) sent
                        ∙ try_send_envelope_other ch w now p.requester_write_tx tx _ k ne,
                  )
            ]
      ]
