-- ===== src/Ipc/Router/Forward.antt =====
-- `MessageRouter::forward`: a frame from one plugin to another.
pub mod Authorised
pub mod Isolation
pub mod Direct
use Prim.Native.Nat.{bit_and, bit_xor}
use veyron.Prelude.{
  ℕ, ◌+◌, Text, text_eq, nat_eq, bytes, ◌==◌, not, contains, is_empty, split_once, is_some, Bool,
  true, false, ◌&&◌, ◌||◌, Option, none, some, List, [], ◌∷◌, if◌then◌else◌, inl, inr, refl, arith,
  ==_iff, ==_refl, Option-cases, Bool-cases, ◌≡◌, zero, suc,
}
use veyron.Prelude.Maps.{get}
use veyron.Utils.Errors.{Result, ok, err}
use veyron.Registry.Types.{Sender, PluginEntry}
use veyron.Registry.State.{PluginRegistry, get_by_conn_id, get_mux}
use veyron.Registry.Pending.{register_pending_action}
use veyron.Auth.Permissions.{check_permission, check_ipc_send}
use veyron.Ipc.Wire.{
  Wire, Frame, action_request, ActionRequest, ErrorCode, err_unknown, err_not_registered,
  err_permission_denied,
}
use veyron.Ipc.Channels.{Channels, out_frame}
use veyron.Ipc.Kernel.{Kernel, IncomingMessage, Now, send_error}

abbrev pub is_ok : {A : Type 0} → Result A → Bool
is_ok (ok a) = true
is_ok (err e) = false

-- `flags & !flag` on 16 bits
unfoldable pub clear_flag : ℕ → ℕ → ℕ
clear_flag flag flags = bit_and flags (bit_xor 0xffff flag)

-- `flags & flag != 0`
unfoldable pub has_flag : ℕ → ℕ → Bool
has_flag flag flags = not (bit_and flags flag == 0)

-- The frame as it goes on: without the sender's tag.
abbrev pub retagged : Wire → Frame → Frame
retagged w f = record f { flags = clear_flag w.flag_mac_present f.flags; mac = none }

-- The audio gate: a raw binary frame wants its own permission.
pub audio_denied : Wire → PluginRegistry → Text → Frame → Bool
audio_denied w r sender_id f =
    has_flag w.flag_raw_binary f.flags
    && not (is_ok (check_permission w r sender_id w.permission_audio_stream))

abbrev pub has_dot : Text → Bool
has_dot target = contains target b'.'

-- The allowlist of the sender names the target, or the device of a routable target.
pub target_allowed : PluginEntry → Text → Option PluginEntry → Bool
target_allowed sender target resolved =
    contains sender.manifest.ipc_targets target
    || (has_dot target && is_some resolved && elim (split_once b'.' target) [
      | none ↦ false
      | some (dev, _) ↦ contains sender.manifest.ipc_targets dev
    ])

abbrev pub cross_user : PluginEntry → Option PluginEntry → Bool
cross_user sender none = false
cross_user sender (some target) = not (target.user_id == sender.user_id)

-- What refuses a unicast of a registered sender, with the reason that it is told.
pub refusal : Wire → PluginRegistry → Text → Text → Frame → Option Text
refusal w r sender_id target f =
    if not (is_ok (check_ipc_send w r sender_id))
    then some (bytes "PERMISSION_IPC_SEND required")
    else elim (get sender_id r.by_plugin_id) [
      | none ↦ some (bytes "sender not found")
      | some sender ↦
          let resolved = get_mux target r in
          if cross_user sender resolved
          then some (bytes "cross-user IPC denied")
          else if not (target_allowed sender target resolved)
          then some (bytes "target not in ipc_targets allowlist")
          else if audio_denied w r sender_id f
          then some (bytes "PERMISSION_AUDIO_STREAM required for FLAG_RAW_BINARY frames")
          else none
    ]

-- The request for which a reply through the kernel must find its way back: one to a capability of a
-- device, with no action named.
unfoldable pub direct_request : Wire → Text → Frame → Option ActionRequest
direct_request w target f = elim (w.decode f.payload) [
  | none ↦ none
  | some env ↦ elim env.payload [
    | some (action_request req) ↦ if is_empty req.action && has_dot target then some req else none
    | _ ↦ none
  ]
]

-- A device's request is kept under the id that the sender chose.
pub record_direct :
    Wire → Now → Text → IncomingMessage → Text → PluginEntry → PluginRegistry → PluginRegistry
record_direct w now target msg sender_id entry r = elim (direct_request w target msg.frame) [
  | none ↦ r
  | some req ↦
      register_pending_action req.action_id
        (record {
          requester_write_tx = msg.write_tx;
          original_action_id = req.action_id;
          requester_id = sender_id;
          deadline = now.instant + 30000;
          provider_id = entry.plugin_id;
          streaming = req.streaming;
          session_accepted = false;
          last_activity = now.instant;
        })
        r
]

module _ {S : Type 0} (ch : Channels S) (w : Wire) (now : Now) where
  -- `BridgeHandle::relay_to_host`, over the channels of the live bridge connections
  pub relay_to_host : List Sender → Frame → Kernel S → Kernel S × Bool
  relay_to_host [] f k = (k, false)
  relay_to_host (tx ∷ conns) f k =
      let (chans, sent) = ch.try_send tx (out_frame (retagged w f)) k.chans in
      (record k { chans = chans }, sent)

  abbrev pub refuse : Sender → ErrorCode → Text → Kernel S → Kernel S × Bool
  refuse tx code reason k = (send_error ch w now tx code reason k, true)

  -- No plugin has the target: a bridge may, if there is one.
  pub forward_unresolved : IncomingMessage → Option (List Sender) → Kernel S → Kernel S × Bool
  unfolding relay_to_host
  forward_unresolved msg none k = refuse msg.write_tx err_unknown (bytes "plugin not found") k
  forward_unresolved msg (some conns) k =
      let (k', sent) = relay_to_host conns msg.frame k in
      if sent then (k', false) else refuse msg.write_tx err_unknown (bytes "plugin not found") k'

  -- The frame goes to the target's channel; a full channel drops it, which is not the sender's fault.
  pub forward_resolved : IncomingMessage → Text → Text → PluginEntry → Kernel S → Kernel S × Bool
  forward_resolved msg target sender_id entry k =
      let (chans, _) = ch.try_send entry.write_tx (out_frame (retagged w msg.frame)) k.chans in
      (
        record k {
          registry = record_direct w now target msg sender_id entry k.registry;
          chans = chans;
        },
        false,
      )

  -- The result says whether the message counts against the connection's error budget.
  pub forward : IncomingMessage → Text → Option (List Sender) → Kernel S → Kernel S × Bool
  forward msg target bridge k = elim (get_by_conn_id msg.conn_id k.registry) [
    | none ↦ refuse msg.write_tx err_not_registered (bytes "not registered") k
    | some sender ↦ elim (refusal w k.registry sender.plugin_id target msg.frame) [
      | some reason ↦ refuse msg.write_tx err_permission_denied reason k
      | none ↦ elim (get_mux target k.registry) [
        | some entry ↦ forward_resolved msg target sender.plugin_id entry k
        | none ↦ forward_unresolved msg bridge k
      ]
    ]
  ]
