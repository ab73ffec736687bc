-- ===== src/Ipc/Router/Forward/Authorised.antt =====
-- Which unicasts pass the gates.
use veyron.Prelude.Maps.{get}
use veyron.Utils.Errors.{Result, ok, err}
use veyron.Prelude.{
  [], ◌∷◌, none, some, inl, inr, true, refl, text_eq, nat_eq, arith, ==_iff, Option-cases,
  Bool-cases, ◌≡◌, Option, Text, ◌↔◌, contains, split_once, ◌⊎◌, is_some,
}
use veyron.Registry.Types.{PluginEntry}
use veyron.Registry.State.{get_mux, PluginRegistry}
use veyron.Auth.Permissions.{check_permission, check_ipc_send}
use veyron.Ipc.Wire.{Wire, Frame}
use veyron.Ipc.Router.Forward.{refusal, target_allowed, audio_denied, has_flag, is_ok, has_dot}

-- The sender's allowlist covers the target: by its own name, or by the name of the device before
-- the first dot if the target can be routed.
abbrev Listed : PluginEntry → Text → Option PluginEntry → Type 0
Listed sender target resolved =
    (contains sender.manifest.ipc_targets target ≡ true)
    ⊎ ((is_some resolved ≡ true)
        × ((dev : Text) × (rest : Text) × (split_once b'.' target ≡ some (dev, rest))
            × (contains sender.manifest.ipc_targets dev ≡ true)))

pub record IsAuthorised (w : Wire) (r : PluginRegistry) (sender_id target : Text) (f : Frame)
    (sender : PluginEntry) : Type 0 where
  pub known : get sender_id r.by_plugin_id ≡ some sender
  pub may_send : check_permission w r sender_id w.permission_ipc_send ≡ ok tt
  pub same_user : (t : PluginEntry) → get_mux target r ≡ some t → t.user_id ≡ sender.user_id
  pub listed : Listed sender target (get_mux target r)
  pub may_stream :
      has_flag w.flag_raw_binary f.flags ≡ true
      → check_permission w r sender_id w.permission_audio_stream ≡ ok tt

pub is_ok-eq : (m : Result (Unit {0})) → is_ok m ≡ true → m ≡ ok tt
is_ok-eq (ok u) h = refl
is_ok-eq (err e) h = cc

split_once-has_dot : (s : Text) (p : Text × Text) → split_once b'.' s ≡ some p → has_dot s ≡ true
unfolding split_once contains
split_once-has_dot [] p h = cc
split_once-has_dot (c ∷ s) p h = elim (Option-cases (split_once b'.' s)) [
  | inl e ↦ ground (arith, ==_iff b'.' c, ==_iff c b'.')
  | inr (q, e) ↦ ground (arith, ==_iff b'.' c, ==_iff c b'.', split_once-has_dot s q e)
]

target_allowed_iff :
    (sender : PluginEntry) (target : Text) (resolved : Option PluginEntry)
    → (target_allowed sender target resolved ≡ true) ↔ Listed sender target resolved
unfolding target_allowed
target_allowed_iff sender target resolved = (
  λ h. elim (Bool-cases (contains sender.manifest.ipc_targets target)) [
    | inl e ↦ inl e
    | inr e ↦ elim (Option-cases (split_once b'.' target)) [
      | inl f ↦ absurd (ground arith)
      | inr ((dev, rest), f) ↦ inr (ground arith, (dev, rest, f, ground arith))
    ]
  ],
  λ h. elim h [
    | inl e ↦ ground arith
    | inr (e, (dev, rest, f, g)) ↦ ground (arith, split_once-has_dot target (dev, rest) f)
  ],
)

-- A unicast is let through exactly if its sender is authorised.
pub refusal-none_iff :
    (w : Wire) (r : PluginRegistry) (sender_id target : Text) (f : Frame)
    → (refusal w r sender_id target f ≡ none)
      ↔ ((sender : PluginEntry) × IsAuthorised w r sender_id target f sender)
unfolding refusal audio_denied check_ipc_send
refusal-none_iff w r sender_id target f = (
  λ h. elim (Option-cases (get sender_id r.by_plugin_id)) [
    | inl e ↦ absurd (ground arith)
    | inr (sender, e) ↦ (
      sender,
      record {
        known = e;
        may_send = is_ok-eq _ (ground arith);
        same_user = λ t f. ground (arith, ==_iff t.user_id sender.user_id);
        listed = (target_allowed_iff sender target (get_mux target r)).0 (ground arith);
        may_stream = λ f. is_ok-eq _ (ground arith);
      },
    )
  ],
  λ (sender, auth). elim (Option-cases (get_mux target r)) [
    | inl e ↦ ground (
      arith,
      auth.known,
      auth.may_send,
      auth.may_stream,
      (target_allowed_iff sender target (get_mux target r)).1 auth.listed,
    )
    | inr (t, e) ↦ ground (
      arith,
      auth.known,
      auth.may_send,
      auth.may_stream,
      auth.same_user t e,
      ==_iff t.user_id sender.user_id,
      (target_allowed_iff sender target (get_mux target r)).1 auth.listed,
    )
  ],
)
