-- ===== src/Ipc/Router/Broadcast/Reach.antt =====
-- Where a broadcast frame can go.
use veyron.Ipc.Router.Forward.Authorised.{is_ok-eq}
use mathlib.Core.List.{Memᴰ}
use veyron.Prelude.{
  [], ◌∷◌, some, inl, inr, false, refl, text_eq, nat_eq, arith, ==_iff, Option-cases, Bool-cases,
  ◌≡◌, List, Text, ℕ, ◌≢◌, ◌++◌, subst, sym,
}
use veyron.Utils.Errors.{ok}
use veyron.Registry.Types.{PluginEntry, Sender}
use veyron.Registry.State.{PluginRegistry, get_by_conn_id, list}
use veyron.Auth.Permissions.{check_permission, check_ipc_target, check_ipc_send}
use veyron.Ipc.Wire.{Wire, Frame, ErrorCode}
use veyron.Ipc.Channels.{Channels, out_frame}
use veyron.Ipc.Kernel.{Kernel, Now, IncomingMessage, send_error}
use veyron.Ipc.Kernel.Sends.{taken_cases, send_error_other}
use veyron.Ipc.Router.Forward.{retagged, is_ok, audio_denied}
use veyron.Ipc.Router.Broadcast.{skipped, send_each, broadcast}

-- A plugin of the registry that the sender may send to, by its permission, its allowlist and its
-- user, on another connection than the sender's, receives on the channel.
pub record Reaches (w : Wire) (r : PluginRegistry) (conn_id : ℕ) (tx : Sender) : Type 0 where
  pub sender : PluginEntry
  pub entry : PluginEntry
  pub registered : get_by_conn_id conn_id r ≡ some sender
  pub may_send : check_permission w r sender.plugin_id w.permission_ipc_send ≡ ok tt
  pub listening : Memᴰ entry (list r)
  pub channel : entry.write_tx ≡ tx
  pub elsewhere : entry.conn_id ≢ conn_id
  pub allowed : check_ipc_target r sender.plugin_id entry.plugin_id ≡ ok tt

-- The second list is the first with some copies of an item at its end, each of them for a reason.
pub data Grows (P : Type 0) {A : Type 0} (m : A) : List A → List A → Type 0 where
  unchanged : {l : List A} → Grows P m l l
  appended : {l l' : List A} → P → Grows P m (l ++ m ∷ []) l' → Grows P m l l'

Grows-from :
    {P A : Type 0} {m : A} {l l' l'' : List A} → l ≡ l' → Grows P m l' l'' → Grows P m l l''
Grows-from {P} {A} {m} {l} {l'} {l''} e g = subst (λ t. Grows P m t l'') (sym e) g

skipped-none :
    (r : PluginRegistry) (conn_id : ℕ) (sender_id : Text) (e : PluginEntry)
    → skipped r conn_id sender_id e ≡ false
    → (e.conn_id ≢ conn_id) × (check_ipc_target r sender_id e.plugin_id ≡ ok tt)
unfolding skipped
skipped-none r conn_id sender_id e h =
    (λ x. ground (arith, ==_iff e.conn_id conn_id), is_ok-eq _ (ground arith))

module _ {S : Type 0} (ch : Channels S) (w : Wire) (now : Now) where
  send_each-Grows :
      (r : PluginRegistry) (conn_id : ℕ) (sender_id : Text) (f : Frame) (tx : Sender) (P : Type 0)
      (entries : List PluginEntry) (s : S)
      → ((e : PluginEntry)
          → Memᴰ e entries
          → skipped r conn_id sender_id e ≡ false
          → e.write_tx ≡ tx
          → P)
      → Grows P
          (out_frame (retagged w f))
          (ch.taken s tx)
          (ch.taken (send_each ch w now r conn_id sender_id f entries s) tx)
  unfolding send_each
  send_each-Grows r conn_id sender_id f tx P [] s reason = unchanged
  send_each-Grows r conn_id sender_id f tx P (e ∷ entries) s reason =
      let later : (s' : S)
          → Grows P (out_frame (retagged w f)) (ch.taken s' tx)
              (ch.taken (send_each ch w now r conn_id sender_id f entries s') tx) =
        λ s'.
          send_each-Grows r conn_id sender_id f tx P entries s' (λ e' i. reason e' (Memᴰ.tail i)) in
      elim (Bool-cases (skipped r conn_id sender_id e)) [
        | inl skip ↦ rw (skip, send_each) (later s)
        | inr kept ↦
            rw (kept, send_each)
              (elim (taken_cases ch w now e.write_tx tx (out_frame (retagged w f)) s) [
                | inl quiet ↦ Grows-from (sym quiet) (later _)
                | inr (hit, grew) ↦
                    appended (reason e (Memᴰ.head refl) kept hit) (Grows-from (sym grew) (later _))
              ])
      ]

  -- On a channel that is not the sender's own, a broadcast leaves everything as it was and adds at
  -- the end only the sender's frame, without its tag, each time for a registered plugin of another
  -- connection that receives on the channel and that the sender may send to: it has the permission,
  -- lists the plugin and belongs to the plugin's user.
  pub broadcast_reach :
      (msg : IncomingMessage) (tx : Sender) (k : Kernel S)
      → msg.write_tx ≢ tx
      → Grows
          (Reaches w k.registry msg.conn_id tx)
          (out_frame (retagged w msg.frame))
          (ch.taken k.chans tx)
          (ch.taken (broadcast ch w now msg k).0.chans tx)
  unfolding broadcast check_ipc_send
  broadcast_reach msg tx k other =
      let quiet : (code : ErrorCode) (reason : Text)
          → Grows (Reaches w k.registry msg.conn_id tx) (out_frame (retagged w msg.frame))
              (ch.taken k.chans tx)
              (ch.taken (send_error ch w now msg.write_tx code reason k).chans tx) =
        λ code reason.
          subst
            (λ l.
              Grows (Reaches w k.registry msg.conn_id tx) (out_frame (retagged w msg.frame))
                (ch.taken k.chans tx) l)
            (sym (send_error_other ch w now msg.write_tx tx code reason k other)) unchanged in
      elim (Option-cases (get_by_conn_id msg.conn_id k.registry)) [
        | inl e ↦ rw (e, broadcast) (quiet _ _)
        | inr (s, e) ↦ elim (Bool-cases (is_ok (check_ipc_send w k.registry s.plugin_id))) [
          | inr denied ↦ rw (e, denied, broadcast) (quiet _ _)
          | inl may ↦ elim (Bool-cases (audio_denied w k.registry s.plugin_id msg.frame)) [
            | inl denied ↦ rw (e, may, denied, broadcast) (quiet _ _)
            | inr go ↦
                rw (e, may, go, broadcast)
                  (send_each-Grows k.registry msg.conn_id s.plugin_id msg.frame tx _
                    (list k.registry) k.chans
                    (λ t i kept hit. (record {
                      sender = s;
                      entry = t;
                      registered = e;
                      may_send = is_ok-eq _ may;
                      listening = i;
                      channel = hit;
                      elsewhere = (skipped-none k.registry msg.conn_id s.plugin_id t kept).0;
                      allowed = (skipped-none k.registry msg.conn_id s.plugin_id t kept).1;
                    })))
          ]
        ]
      ]
