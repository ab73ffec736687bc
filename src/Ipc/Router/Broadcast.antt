-- ===== src/Ipc/Router/Broadcast.antt =====
-- `MessageRouter::broadcast`: a frame from one plugin to all that it may send to.
pub mod Reach
use veyron.Prelude.{
  ℕ, Text, text_eq, nat_eq, bytes, ◌==◌, not, ◌||◌, Bool, false, none, some, List, [], ◌∷◌,
  if◌then◌else◌,
}
use veyron.Registry.Types.{PluginEntry}
use veyron.Registry.State.{PluginRegistry, get_by_conn_id, list}
use veyron.Auth.Permissions.{check_ipc_send, check_ipc_target}
use veyron.Ipc.Wire.{Wire, Frame, err_not_registered, err_permission_denied}
use veyron.Ipc.Channels.{Channels, out_frame}
use veyron.Ipc.Kernel.{Kernel, IncomingMessage, Now}
use veyron.Ipc.Router.Forward.{is_ok, retagged, audio_denied, refuse}

-- The plugins that a broadcast skips: the sender's own, and those that it may not send to.
pub skipped : PluginRegistry → ℕ → Text → PluginEntry → Bool
skipped r conn_id sender_id entry =
    entry.conn_id == conn_id || not (is_ok (check_ipc_target r sender_id entry.plugin_id))

module _ {S : Type 0} (ch : Channels S) (w : Wire) (now : Now) where
  pub send_each : PluginRegistry → ℕ → Text → Frame → List PluginEntry → S → S
  send_each r conn_id sender_id f [] s = s
  send_each r conn_id sender_id f (entry ∷ entries) s = send_each r conn_id sender_id f entries (
      if skipped r conn_id sender_id entry
      then s
      else (ch.try_send entry.write_tx (out_frame (retagged w f)) s).0)

  pub broadcast : IncomingMessage → Kernel S → Kernel S × Bool
  unfolding send_each
  broadcast msg k = elim (get_by_conn_id msg.conn_id k.registry) [
    | none ↦ refuse ch w now msg.write_tx err_not_registered (bytes "not registered") k
    | some sender ↦
        if not (is_ok (check_ipc_send w k.registry sender.plugin_id))
        then refuse ch w now msg.write_tx err_permission_denied
            (bytes "PERMISSION_IPC_SEND required") k
        else if audio_denied w k.registry sender.plugin_id msg.frame
        then refuse ch w now msg.write_tx err_permission_denied
            (bytes "PERMISSION_AUDIO_STREAM required for FLAG_RAW_BINARY frames") k
        else (
          record k {
            chans =
                send_each k.registry msg.conn_id sender.plugin_id msg.frame (list k.registry)
                  k.chans;
          },
          false,
        )
  ]
