-- ===== src/Ipc/Router/Streams/Chunks.antt =====
-- No chunk is lost without the end of its stream.
use veyron.Ipc.Router.Actions.{follow_up}
use veyron.Ipc.Router.Streams.{
  notify_plugin, send_or_abort, abort_stream, notify_forced_termination, notify_requester,
  find_routed, handle_response_chunk, touch,
}
use veyron.Prelude.{
  nat_eq, text_eq, arith, ==_iff, ==_refl, refl, ◌≡◌, ◌⊎◌, Option-cases, Bool-cases, inl, inr, ap,
  ◌∙◌, [], ◌∷◌, none, some, true, if◌then◌else◌, Text, ◌==◌, ◌++◌,
}
use veyron.Prelude.Maps.{get, get-remove}
use veyron.Registry.Types.{PluginEntry, PendingAction, Sender}
use veyron.Registry.Pending.{take_pending_action}
use veyron.Registry.State.{PluginRegistry, get_by_conn_id}
use veyron.Ipc.Wire.{Wire, Envelope, ActionResponseChunk, action_response_chunk}
use veyron.Ipc.Channels.{Channels, Outbound}
use veyron.Ipc.Kernel.{Kernel, IncomingMessage, Now, try_send_envelope, build_outbound}
use veyron.Ipc.Kernel.Sends.{registry-send_envelope}

pub find_routed-some :
    (id q : Text) (r : PluginRegistry) (p : PendingAction)
    → find_routed id q r ≡ some p
    → (get id r.pending_actions ≡ some p) × (p.provider_id ≡ q)
unfolding find_routed
find_routed-some id q r p h = elim (Option-cases (get id r.pending_actions)) [
  | inl e ↦ absurd (ground arith)
  | inr (p', e) ↦ (ground arith, ground (arith, ==_iff p'.provider_id q))
]

module _ {S : Type 0} (ch : Channels S) (w : Wire) (now : Now) where
  pub registry-notify_plugin :
      (q : Text) (env : Envelope) (k : Kernel S)
      → (notify_plugin ch w now q env k).registry ≡ k.registry
  unfolding notify_plugin
  registry-notify_plugin q env k = elim (Option-cases (get q k.registry.by_plugin_id)) [
    | inl e ↦ rw (e, notify_plugin) refl
    | inr (entry, e) ↦ rw (e, notify_plugin) (registry-send_envelope ch w now entry.write_tx env k)
  ]

  registry-notify_requester :
      (p : PendingAction) (reason : Text) (k : Kernel S)
      → (notify_requester ch w now p reason k).registry ≡ k.registry
  unfolding notify_requester
  registry-notify_requester p reason k = elim (Bool-cases p.session_accepted) [
    | inl e ↦ rw (e, notify_requester) (registry-send_envelope ch w now _ _ k)
    | inr e ↦
        rw (e, notify_requester)
          (registry-send_envelope ch w now _ _ _ ∙ registry-send_envelope ch w now _ _ k)
  ]

  registry-notify_forced_termination :
      (id : Text) (p : PendingAction) (reason : Text) (k : Kernel S)
      → (notify_forced_termination ch w now id p reason k).registry ≡ k.registry
  unfolding notify_forced_termination
  registry-notify_forced_termination id p reason k =
      registry-notify_plugin p.provider_id _ _ ∙ registry-notify_requester p reason k

  -- A forced end takes away the row of its stream, and no other.
  abort_stream-rows :
      (id reason : Text) (k : Kernel S) (j : Text)
      → get j (abort_stream ch w now id reason k).registry.pending_actions
        ≡ (if id == j then none else get j k.registry.pending_actions)
  unfolding abort_stream take_pending_action
  abort_stream-rows id reason k j = elim (Option-cases (get id k.registry.pending_actions)) [
    | inl e ↦ rw (e, abort_stream) (get-remove id j k.registry.pending_actions)
    | inr (p, e) ↦
        rw (e, abort_stream)
          (ap (λ r. get j r.pending_actions) (registry-notify_forced_termination id p reason _)
            ∙ get-remove id j k.registry.pending_actions)
  ]

  -- The item for the envelope is the next one on the channel.
  abbrev pub Arrives : Sender → Envelope → Kernel S → Kernel S → Type 0
  Arrives tx env k k' =
      (m : Outbound) × ((build_outbound ch w now env k.msg_seq).0 ≡ some m)
      × (ch.taken k'.chans tx ≡ ch.taken k.chans tx ++ m ∷ [])

  try_send_envelope-sent :
      (tx : Sender) (env : Envelope) (k : Kernel S)
      → (try_send_envelope ch w now tx env k).1 ≡ true
      → Arrives tx env k (try_send_envelope ch w now tx env k).0
  unfolding try_send_envelope
  try_send_envelope-sent tx env k sent =
      elim (Option-cases (build_outbound ch w now env k.msg_seq).0) [
        | inl e ↦ absurd (ground arith)
        | inr (m, e) ↦
            rw (e, try_send_envelope) (m, refl, ch.taken-sent tx m k.chans (ground arith))
      ]

  send_or_abort_cases :
      (id : Text) (tx : Sender) (env : Envelope) (k : Kernel S)
      → let k' = send_or_abort ch w now id tx env k in
        Arrives tx env k k' ⊎ (get id k'.registry.pending_actions ≡ none)
  unfolding send_or_abort
  send_or_abort_cases id tx env k = elim (Bool-cases (try_send_envelope ch w now tx env k).1) [
    | inl sent ↦ rw (sent, send_or_abort) (inl (try_send_envelope-sent tx env k sent))
    | inr dropped ↦
        rw (dropped, send_or_abort) (inr (abort_stream-rows id _ _ id ∙ rw (==_refl id) refl))
  ]

  -- A response chunk either changes nothing, or its sender is the plugin to which the action under
  -- its id was routed; then the chunk, under the requester's own id, is the next item on the
  -- requester's channel, or the action is no longer in flight.
  pub handle_response_chunk_exact :
      (msg : IncomingMessage) (env : Envelope) (chunk : ActionResponseChunk) (k : Kernel S)
      → let k' = (handle_response_chunk ch w now msg env chunk k).0 in
        (k' ≡ k)
        ⊎ ((sender : PluginEntry) × (p : PendingAction) × (get_by_conn_id msg.conn_id k.registry
              ≡ some sender)
            × (get chunk.action_id k.registry.pending_actions ≡ some p)
            × (p.provider_id ≡ sender.plugin_id)
            × (Arrives p.requester_write_tx
                  (follow_up env
                    (action_response_chunk (record chunk { action_id = p.original_action_id })))
                  k
                  k'
                ⊎ (get chunk.action_id k'.registry.pending_actions ≡ none)))
  unfolding handle_response_chunk
  handle_response_chunk_exact msg env chunk k =
      elim (Option-cases (get_by_conn_id msg.conn_id k.registry)) [
        | inl e ↦ rw (e, handle_response_chunk) (inl refl)
        | inr (sender, e) ↦
            elim (Option-cases (find_routed chunk.action_id sender.plugin_id k.registry)) [
              | inl f ↦ rw (e, f, handle_response_chunk) (inl refl)
              | inr (p, f) ↦
                  let (at, here') =
                    find_routed-some chunk.action_id sender.plugin_id k.registry p f in
                  rw (e, f, handle_response_chunk)
                    (inr (
                      sender,
                      p,
                      refl,
                      at,
                      here',
                      send_or_abort_cases chunk.action_id p.requester_write_tx _
                          (touch ch w now chunk.action_id k),
                    ))
            ]
      ]
