-- ===== src/Ipc/Kernel/Sends.antt =====
-- What a send does to the channels and to the rest of the state.
use veyron.Registry.Types.{Sender}
use veyron.Prelude.{
  [], ◌∷◌, inl, inr, refl, text_eq, nat_eq, Option-cases, Bool-cases, ◌≡◌, Text, ◌⊎◌, ◌≢◌, ◌++◌,
  ==_or_not, subst,
}
use veyron.Ipc.Channels.{Channels, Outbound}
use veyron.Ipc.Kernel.{Kernel, Now, try_send_envelope, send_envelope, send_error, build_outbound}
use veyron.Ipc.Wire.{Wire, Envelope, ErrorCode}

module _ {S : Type 0} (ch : Channels S) (w : Wire) (now : Now) where
  -- A non-blocking send appends its item to its channel or leaves every channel as it was.
  pub taken_cases :
      (tx tx' : Sender) (m : Outbound) (s : S)
      → (ch.taken (ch.try_send tx m s).0 tx' ≡ ch.taken s tx')
        ⊎ ((tx ≡ tx') × (ch.taken (ch.try_send tx m s).0 tx' ≡ ch.taken s tx' ++ m ∷ []))
  taken_cases tx tx' m s = elim (==_or_not tx tx') [
    | inr other ↦ inl (ch.taken-other tx tx' m s other)
    | inl same ↦ elim (Bool-cases (ch.try_send tx m s).1) [
      | inl sent ↦ inr (
        same,
        subst (λ t. ch.taken (ch.try_send tx m s).0 t ≡ ch.taken s t ++ m ∷ []) same
            (ch.taken-sent tx m s sent),
      )
      | inr dropped ↦ inl (
          subst (λ t. ch.taken (ch.try_send tx m s).0 t ≡ ch.taken s t) same
            (ch.taken-dropped tx m s dropped))
    ]
  ]

  -- A kernel message reaches no channel but its own.
  pub try_send_envelope_other :
      (tx tx' : Sender) (env : Envelope) (k : Kernel S)
      → tx ≢ tx'
      → ch.taken (try_send_envelope ch w now tx env k).0.chans tx' ≡ ch.taken k.chans tx'
  unfolding try_send_envelope
  try_send_envelope_other tx tx' env k other =
      elim (Option-cases (build_outbound ch w now env k.msg_seq).0) [
        | inl e ↦ rw (e, try_send_envelope) refl
        | inr (m, e) ↦ rw (e, try_send_envelope) (ch.taken-other tx tx' m k.chans other)
      ]

  pub registry-try_send_envelope :
      (tx : Sender) (env : Envelope) (k : Kernel S)
      → (try_send_envelope ch w now tx env k).0.registry ≡ k.registry
  unfolding try_send_envelope
  registry-try_send_envelope tx env k =
      elim (Option-cases (build_outbound ch w now env k.msg_seq).0) [
        | inl e ↦ rw (e, try_send_envelope) refl
        | inr (m, e) ↦ rw (e, try_send_envelope) refl
      ]

  pub send_error_other :
      (tx tx' : Sender) (code : ErrorCode) (message : Text) (k : Kernel S)
      → tx ≢ tx'
      → ch.taken (send_error ch w now tx code message k).chans tx' ≡ ch.taken k.chans tx'
  unfolding send_error send_envelope
  send_error_other tx tx' code message k other = try_send_envelope_other tx tx' _ k other

  pub registry-send_error :
      (tx : Sender) (code : ErrorCode) (message : Text) (k : Kernel S)
      → (send_error ch w now tx code message k).registry ≡ k.registry
  unfolding send_error send_envelope
  registry-send_error tx code message k = registry-try_send_envelope tx _ k

  pub registry-send_envelope :
      (tx : Sender) (env : Envelope) (k : Kernel S)
      → (send_envelope ch w now tx env k).registry ≡ k.registry
  unfolding send_envelope
  registry-send_envelope tx env k = registry-try_send_envelope tx env k

  pub send_envelope_other :
      (tx tx' : Sender) (env : Envelope) (k : Kernel S)
      → tx ≢ tx'
      → ch.taken (send_envelope ch w now tx env k).chans tx' ≡ ch.taken k.chans tx'
  unfolding send_envelope
  send_envelope_other tx tx' env k other = try_send_envelope_other tx tx' env k other

  -- No send calls the event store.
  pub store_calls-send_envelope :
      (tx : Sender) (env : Envelope) (k : Kernel S)
      → (send_envelope ch w now tx env k).store_calls ≡ k.store_calls
  unfolding send_envelope try_send_envelope
  store_calls-send_envelope tx env k =
      elim (Option-cases (build_outbound ch w now env k.msg_seq).0) [
        | inl e ↦ rw (e, send_envelope, try_send_envelope) refl
        | inr (m, e) ↦ rw (e, send_envelope, try_send_envelope) refl
      ]
