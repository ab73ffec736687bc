-- ===== src/Ipc/Router/Forward/Isolation.antt =====
-- Where a forwarded frame can go.
use veyron.Prelude.{
  [], ◌∷◌, none, some, inl, inr, refl, text_eq, nat_eq, Option-cases, Bool-cases, ◌≡◌, List, Option,
  Text, ◌⊎◌, ◌≢◌, ◌++◌, ap, bytes,
}
use veyron.Registry.Types.{PluginEntry, Sender}
use veyron.Registry.State.{get_mux, PluginRegistry, get_by_conn_id}
use veyron.Ipc.Wire.{Wire, err_unknown}
use veyron.Ipc.Channels.{Channels, out_frame}
use veyron.Ipc.Kernel.{Kernel, Now, IncomingMessage}
use veyron.Ipc.Kernel.Sends.{taken_cases, send_error_other}
use veyron.Ipc.Router.Forward.{
  refusal, retagged, relay_to_host, forward_unresolved, forward, forward_resolved,
}
use veyron.Ipc.Router.Forward.Authorised.{IsAuthorised, refusal-none_iff}

-- The frame may go to this channel: it is the target's, or no plugin has the target and it is the
-- bridge's first.
abbrev pub Receives : Text → PluginRegistry → Option (List Sender) → Sender → Type 0
Receives target r bridge tx =
    ((e : PluginEntry) × (get_mux target r ≡ some e) × (e.write_tx ≡ tx))
    ⊎ ((get_mux target r ≡ none) × ((rest : List Sender) × (bridge ≡ some (tx ∷ rest))))

module _ {S : Type 0} (ch : Channels S) (w : Wire) (now : Now) where
  -- What happened on a channel: nothing, or the frame came to its end.
  abbrev pub Delivered : IncomingMessage → Sender → Kernel S → Kernel S → Type 0
  Delivered msg tx k k' =
      ch.taken k'.chans tx ≡ ch.taken k.chans tx ++ out_frame (retagged w msg.frame) ∷ []

  relayed :
      (conns : List Sender) (msg : IncomingMessage) (tx : Sender) (k : Kernel S)
      → (ch.taken (relay_to_host ch w now conns msg.frame k).0.chans tx ≡ ch.taken k.chans tx)
        ⊎ (((rest : List Sender) × (conns ≡ tx ∷ rest))
            × Delivered msg tx k (relay_to_host ch w now conns msg.frame k).0)
  unfolding relay_to_host
  relayed [] msg tx k = inl refl
  relayed (c ∷ conns) msg tx k =
      elim (taken_cases ch w now c tx (out_frame (retagged w msg.frame)) k.chans) [
        | inl same ↦ inl same
        | inr (here, grew) ↦ inr ((conns, ap (λ t. t ∷ conns) here), grew)
      ]

  unresolved :
      (bridge : Option (List Sender)) (msg : IncomingMessage) (tx : Sender) (k : Kernel S)
      → msg.write_tx ≢ tx
      → (ch.taken (forward_unresolved ch w now msg bridge k).0.chans tx ≡ ch.taken k.chans tx)
        ⊎ (((rest : List Sender) × (bridge ≡ some (tx ∷ rest)))
            × Delivered msg tx k (forward_unresolved ch w now msg bridge k).0)
  unfolding forward_unresolved
  unresolved none msg tx k other = inl (send_error_other ch w now msg.write_tx tx _ _ k other)
  unresolved (some conns) msg tx k other =
      elim (Bool-cases (relay_to_host ch w now conns msg.frame k).1) [
        | inl e ↦
            rw (e, forward_unresolved)
              (elim (relayed conns msg tx k) [
                | inl same ↦ inl same
                | inr ((rest, c), grew) ↦ inr ((rest, ap some c), grew)
              ])
        | inr e ↦
            rw (e, forward_unresolved)
              (rw
                (send_error_other ch w now msg.write_tx tx err_unknown (bytes "plugin not found")
                  (relay_to_host ch w now conns msg.frame k).0 other)
                (elim (relayed conns msg tx k) [
                  | inl same ↦ inl same
                  | inr ((rest, c), grew) ↦ inr ((rest, ap some c), grew)
                ]))
      ]

  -- On a channel that is not the sender's own, a forward leaves everything as it was, or it puts
  -- there the sender's frame, without its tag, and nothing else; and that only if the connection has
  -- a registered plugin that is authorised, on a channel that the target or the bridge receives on.
  pub forward_isolation :
      (msg : IncomingMessage) (target : Text) (bridge : Option (List Sender)) (tx : Sender)
      (k : Kernel S)
      → msg.write_tx ≢ tx
      → let k' = (forward ch w now msg target bridge k).0 in
        (ch.taken k'.chans tx ≡ ch.taken k.chans tx)
        ⊎ (((e sender : PluginEntry) × (get_by_conn_id msg.conn_id k.registry ≡ some e)
              × IsAuthorised w k.registry e.plugin_id target msg.frame sender)
            × Receives target k.registry bridge tx
            × Delivered msg tx k k')
  unfolding forward forward_resolved
  forward_isolation msg target bridge tx k other =
      elim (Option-cases (get_by_conn_id msg.conn_id k.registry)) [
        | inl e ↦ rw (e, forward) (inl (send_error_other ch w now msg.write_tx tx _ _ k other))
        | inr (s, e) ↦ elim (Option-cases (refusal w k.registry s.plugin_id target msg.frame)) [
          | inr (reason, f) ↦
              rw (e, f, forward) (inl (send_error_other ch w now msg.write_tx tx _ _ k other))
          | inl f ↦
              let auth = (refusal-none_iff w k.registry s.plugin_id target msg.frame).0 f in
              elim (Option-cases (get_mux target k.registry)) [
                | inl g ↦
                    rw (e, f, g, forward)
                      (elim (unresolved bridge msg tx k other) [
                        | inl same ↦ inl same
                        | inr (first, grew) ↦
                            inr ((s, auth.0, refl, auth.1), inr (refl, first), grew)
                      ])
                | inr (t, g) ↦
                    rw (e, f, g, forward)
                      (elim (taken_cases ch w now t.write_tx tx (out_frame (retagged w msg.frame))
                        k.chans) [
                          | inl same ↦ inl same
                          | inr (here, grew) ↦
                              inr ((s, auth.0, refl, auth.1), inl (t, refl, here), grew)
                        ])
              ]
        ]
      ]
