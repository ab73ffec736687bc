-- ===== src/Ipc/Channels.antt =====
-- The write channels of the connections, which the async runtime implements: an interface. A send
-- either puts the item at the end of its channel or changes nothing: one that does not wait where the
-- channel is full or closed, one that waits where it is closed.
use veyron.Prelude.{Bool, true, false, List, [], ◌∷◌, ◌++◌, ◌≡◌, ◌≢◌, ℕ, text_eq, nat_eq}
use veyron.Registry.Types.{Sender}
use veyron.Ipc.Wire.{Frame}

pub data Outbound : Type 0 where
  out_frame : Frame → Outbound
  -- the key of a session's frame tags
  enable_mac : List ℕ → Outbound

pub record Channels (S : Type 0) : Type 0 where
  pub try_send : Sender → Outbound → S → S × Bool
  -- what a channel was given and took, oldest first
  pub taken : S → Sender → List Outbound
  pub taken-sent :
      (tx : Sender) (m : Outbound) (s : S)
      → (try_send tx m s).1 ≡ true
      → taken (try_send tx m s).0 tx ≡ taken s tx ++ m ∷ []
  pub taken-dropped :
      (tx : Sender) (m : Outbound) (s : S)
      → (try_send tx m s).1 ≡ false
      → taken (try_send tx m s).0 tx ≡ taken s tx
  pub taken-other :
      (tx tx' : Sender) (m : Outbound) (s : S)
      → tx ≢ tx'
      → taken (try_send tx m s).0 tx' ≡ taken s tx'
  pub send : Sender → Outbound → S → S × Bool
  pub send-sent :
      (tx : Sender) (m : Outbound) (s : S)
      → (send tx m s).1 ≡ true
      → taken (send tx m s).0 tx ≡ taken s tx ++ m ∷ []
  pub send-dropped :
      (tx : Sender) (m : Outbound) (s : S)
      → (send tx m s).1 ≡ false
      → taken (send tx m s).0 tx ≡ taken s tx
  pub send-other :
      (tx tx' : Sender) (m : Outbound) (s : S) → tx ≢ tx' → taken (send tx m s).0 tx' ≡ taken s tx'
