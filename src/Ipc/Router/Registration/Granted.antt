-- ===== src/Ipc/Router/Registration/Granted.antt =====
-- Who gets into the registry, and with which permissions.
use veyron.Ipc.Kernel.Sends.{registry-send_envelope, registry-send_error}
use veyron.Ipc.Channels.{Channels}
use veyron.Prelude.{
  inl, inr, refl, text_eq, nat_eq, Bool-cases, ◌≡◌, List, Option, Text, ℕ, subst, sym, ap, ◌∙◌, ◌⊎◌,
  unwrap_or,
}
use veyron.Utils.Errors.{Result-cases}
use veyron.Registry.State.{PluginRegistry}
use veyron.Ipc.Wire.{PluginRegister, Wire, Envelope}
use veyron.Ipc.Kernel.{Now, IncomingMessage, Kernel, send_register_reject}
use veyron.Ipc.Router.Registration.{
  Settings, clamp, enter, authenticate, device_secret, welcome, handle_register, is_incompatible,
  turn_away, default_manifest,
}
use veyron.Prelude.Maps.{get}
use veyron.Events.Delivery.Reach.{registry-publish}
use veyron.Ipc.Router.Registration.Checks.{Enters, enter-Enters}

Sum-cases : {A B : Type 0} (s : A ⊎ B) → ((a : A) × (s ≡ inl a)) ⊎ ((b : B) × (s ≡ inr b))
Sum-cases (inl a) = inl (a, refl)
Sum-cases (inr b) = inr (b, refl)

module _ {S : Type 0} (ch : Channels S) (w : Wire) (now : Now) where
  module _ (cfg : Settings) where
    registry-welcome :
        (msg : IncomingMessage) (env : Envelope) (reg : PluginRegister) (secret : Option (List ℕ))
        (nonce : List ℕ) (k : Kernel S)
        → (welcome ch w now cfg msg env reg secret nonce k).registry ≡ k.registry
    unfolding welcome
    registry-welcome msg env reg secret nonce k =
        registry-publish ch w now _ _ ∙ registry-send_envelope ch w now msg.write_tx _ k

    -- Whatever a registration says, a plugin's entry in the registry afterwards is the one before, or it
    -- is new, under the id that the registration names, in a place that was free, for the message's
    -- connection, and granted: the protocol versions agree; where tokens are on, the token is valid and
    -- for the plugin or its device, the entry has no permission that the token does not list, and its
    -- targets are the token's; where the operator lists permissions for the plugin, it has no other;
    -- and where tags are on and credentials are kept, the device that it names has an active one.
    pub handle_register_granted :
        (msg : IncomingMessage) (env : Envelope) (reg : PluginRegister) (nonce : List ℕ) (q : Text)
        (k : Kernel S)
        → Enters cfg msg reg q k.registry
            (handle_register ch w now cfg msg env reg nonce k).0.registry
    unfolding handle_register send_register_reject turn_away
    handle_register_granted msg env reg nonce q k =
        let quiet : (r' : PluginRegistry) → r' ≡ k.registry → Enters cfg msg reg q k.registry r' =
          λ r' same. inl (ap (λ (x : PluginRegistry). get q x.by_plugin_id) same) in
        elim (Bool-cases (is_incompatible cfg reg)) [
          | inl bad ↦
              rw (handle_register, bad) (quiet _ (registry-send_error ch w now msg.write_tx _ _ k))
          | inr compatible ↦
              elim (Sum-cases (authenticate cfg reg (unwrap_or reg.manifest default_manifest))) [
                | inl (reason, e) ↦
                    rw (handle_register, compatible, e)
                      (quiet _ (registry-send_envelope ch w now msg.write_tx _ k))
                | inr (m, e) ↦ elim (Sum-cases (device_secret cfg reg)) [
                  | inl (reason, e') ↦
                      rw (handle_register, compatible, e, e')
                        (quiet _ (registry-send_envelope ch w now msg.write_tx _ k))
                  | inr (secret, e') ↦
                      elim (Result-cases
                        (enter cfg now msg reg (clamp cfg reg.plugin_id m) k.registry)) [
                          | inr (er, e'') ↦
                              rw (handle_register, compatible, e, e', e'')
                                (quiet _ (registry-send_envelope ch w now msg.write_tx _ k))
                          | inl (r', e'') ↦
                              rw (handle_register, compatible, e, e', e'')
                                (subst (Enters cfg msg reg q k.registry)
                                  (sym (
                                    registry-welcome msg env reg secret nonce
                                      (record k { registry = r' })))
                                  (enter-Enters cfg now msg reg q _ m secret k.registry r'
                                    compatible e e' e''))
                        ]
                ]
              ]
        ]
