-- ===== src/Ipc/Router/Streams/Closes.antt =====
-- Who may close a session, and what a close leaves.
use veyron.Ipc.Router.Actions.{follow_up}
use veyron.Ipc.Kernel.Sends.{registry-send_error, registry-send_envelope}
use veyron.Ipc.Router.Streams.{
  handle_session_close, find_session, close_session, find_own, find_routed,
}
use veyron.Prelude.{
  nat_eq, text_eq, arith, ==_iff, refl, ◌≡◌, ◌⊎◌, Option-cases, Bool-cases, inl, inr, ◌∙◌, ◌&&◌,
  none, some, true, false, if◌then◌else◌, Bool, Text, ◌==◌,
}
use veyron.Prelude.Maps.{get, get-remove, find_key-some, HasUniqueKeys}
use veyron.Registry.Types.{PluginEntry, PendingAction}
use veyron.Registry.Pending.{take_pending_action, find_pending_internal_id}
use veyron.Registry.State.{PluginRegistry, get_by_conn_id}
use veyron.Ipc.Wire.{Wire, Envelope, session_close}
use veyron.Ipc.Channels.{Channels}
use veyron.Ipc.Kernel.{Kernel, IncomingMessage, Now}
use veyron.Ipc.Router.Streams.Chunks.{find_routed-some, registry-notify_plugin}

-- A session of the plugin: accepted, and the plugin provides it or asked for it.
pub record IsSessionOf (r : PluginRegistry) (plugin_id id : Text) (p : PendingAction) : Type 0 where
  pub in_flight : get id r.pending_actions ≡ some p
  pub accepted : p.session_accepted ≡ true
  pub party : (p.provider_id ≡ plugin_id) ⊎ (p.requester_id ≡ plugin_id)

find_own-some :
    (q a id : Text) (r : PluginRegistry) (p : PendingAction)
    → HasUniqueKeys r.pending_actions
    → find_own q a r ≡ some (id, p)
    → (get id r.pending_actions ≡ some p) × (p.requester_id ≡ q)
unfolding find_own find_pending_internal_id
find_own-some q a id r p u h = elim (Option-cases (find_pending_internal_id q a r)) [
  | inl e ↦ absurd (ground arith)
  | inr (j, e) ↦
      let (p', at, good) =
        find_key-some (λ e. e.requester_id == q && e.original_action_id == a) r.pending_actions j u
          e in
      (ground arith, ground (arith, ==_iff p'.requester_id q))
]

find_session-some :
    (q a id : Text) (r : PluginRegistry) (p : PendingAction) (b : Bool)
    → HasUniqueKeys r.pending_actions
    → find_session q a r ≡ some ((id, p), b)
    → (get id r.pending_actions ≡ some p) × ((p.provider_id ≡ q) ⊎ (p.requester_id ≡ q))
unfolding find_session
find_session-some q a id r p b u h = elim (Option-cases (find_routed a q r)) [
  | inr (p', e) ↦
      let (at, party) = find_routed-some a q r p' e in (ground arith, inl (ground arith))
  | inl e ↦ elim (Option-cases (find_own q a r)) [
    | inl f ↦ absurd (ground arith)
    | inr ((j, p'), f) ↦
        let (at, party) = find_own-some q a j r p' u f in (ground arith, inr (ground arith))
  ]
]

module _ {S : Type 0} (ch : Channels S) (w : Wire) (now : Now) where
  close_session-rows :
      (id : Text) (p : PendingAction) (b : Bool) (env : Envelope) (reason : Text) (k : Kernel S)
      (j : Text)
      → get j (close_session ch w now id p b env reason k).registry.pending_actions
        ≡ (if id == j then none else get j k.registry.pending_actions)
  unfolding close_session take_pending_action
  close_session-rows id p b env reason k j = elim (Bool-cases b) [
    | inl e ↦
        rw (e, close_session)
          (get-remove id j _
            ∙ rw
                (registry-send_envelope ch w now p.requester_write_tx
                  (follow_up env (session_close p.original_action_id reason)) k)
                refl)
    | inr e ↦
        rw (e, close_session)
          (get-remove id j _
            ∙ rw
                (registry-notify_plugin ch w now p.provider_id
                  (follow_up env (session_close id reason)) k)
                refl)
  ]

  -- A close either is rejected, which counts against the connection and leaves the registry as it
  -- is, or it ends exactly one action in flight, an accepted session that the plugin of the
  -- connection provides or asked for.
  pub handle_session_close_exact :
      (msg : IncomingMessage) (env : Envelope) (action_id reason : Text) (k : Kernel S)
      → HasUniqueKeys k.registry.pending_actions
      → let res = handle_session_close ch w now msg env action_id reason k in
        ((res.1 ≡ true) × (res.0.registry ≡ k.registry))
        ⊎ ((sender : PluginEntry) × (id : Text) × (p : PendingAction) × (res.1 ≡ false)
            × (get_by_conn_id msg.conn_id k.registry ≡ some sender)
            × IsSessionOf k.registry sender.plugin_id id p
            × ((j : Text)
                → get j res.0.registry.pending_actions
                  ≡ (if id == j then none else get j k.registry.pending_actions)))
  unfolding handle_session_close close_session
  handle_session_close_exact msg env action_id reason k u =
      elim (Option-cases (get_by_conn_id msg.conn_id k.registry)) [
        | inl e ↦ rw (e, handle_session_close) (inl (refl, registry-send_error ch w now _ _ _ k))
        | inr (sender, e) ↦
            elim (Option-cases (find_session sender.plugin_id action_id k.registry)) [
              | inl f ↦
                  rw (e, f, handle_session_close) (inl (refl, registry-send_error ch w now _ _ _ k))
              | inr (((id, p), b), f) ↦ elim (Bool-cases p.session_accepted) [
                | inr early ↦
                    rw (e, f, early, handle_session_close)
                      (inl (refl, registry-send_error ch w now _ _ _ k))
                | inl accepted ↦
                    let (at, party) =
                      find_session-some sender.plugin_id action_id id k.registry p b u f in
                    rw (e, f, accepted, handle_session_close)
                      (inr (
                        sender,
                        id,
                        p,
                        refl,
                        refl,
                        record { in_flight = at; accepted = accepted; party = party },
                        λ j. close_session-rows id p b env reason k j,
                      ))
              ]
            ]
      ]
