-- ===== src/Ipc/Connection/Bounds.antt =====
-- What the read loop holds for a peer, whatever the peer sends.
use veyron.Prelude.{
  [], ◌∷◌, none, some, inl, inr, false, refl, text_eq, nat_eq, arith, ==_refl, Bool-cases, ◌≡◌, ℕ,
  leb, length, ◌==◌, ◌≤◌, ◌-◌, subst, Option-cases, ◌<◌, ap,
}
use veyron.Prelude.Maps.{
  get, insert, remove, HasUniqueKeys, remove-HasUniqueKeys, insert-HasUniqueKeys,
}
use veyron.Ipc.Reassembly.{ReassemblyBuf, Streams, is_complete, prune_stale_reassembly}
use veyron.Ipc.Connection.Buffers.{IsBuffer, length-insert}

-- Every buffer that is held counts its bytes rightly, within the limit, and misses a part.
abbrev pub AllOpen : ℕ → Streams → Type 0
AllOpen max [] = Unit
AllOpen max ((i, b) ∷ s) = IsBuffer max b × (is_complete b ≡ false) × AllOpen max s

-- The buffers of a connection.
pub record IsBuffering (max cap : ℕ) (streams : Streams) : Type 0 where
  pub unique : HasUniqueKeys streams
  pub open_all : AllOpen max streams
  pub few : length streams ≤ cap

module _ (max : ℕ) where
  pub AllOpen-get :
      (i : ℕ) (b : ReassemblyBuf) (s : Streams)
      → AllOpen max s
      → get i s ≡ some b
      → IsBuffer max b × (is_complete b ≡ false)
  unfolding get
  AllOpen-get i b [] h e = ground (arith, e)
  AllOpen-get i b ((j, c) ∷ s) h e = elim (Bool-cases (j == i)) [
    | inl p ↦
        subst (λ (c' : ReassemblyBuf). IsBuffer max c' × (is_complete c' ≡ false))
          (ground (arith, e, p)) (h.0, h.1)
    | inr p ↦ AllOpen-get i b s h.2 (ground (arith, e, p))
  ]

  AllOpen-insert :
      (i : ℕ) (b : ReassemblyBuf) (s : Streams)
      → AllOpen max s
      → IsBuffer max b
      → is_complete b ≡ false
      → AllOpen max (insert i b s)
  unfolding insert
  AllOpen-insert i b [] h g o = (g, o, tt)
  AllOpen-insert i b ((j, c) ∷ s) h g o = elim (Bool-cases (j == i)) [
    | inl p ↦ rw p (g, o, h.2)
    | inr p ↦ rw p (h.0, h.1, AllOpen-insert i b s h.2 g o)
  ]

  AllOpen-remove : (i : ℕ) (s : Streams) → AllOpen max s → AllOpen max (remove i s)
  unfolding remove
  AllOpen-remove i [] h = tt
  AllOpen-remove i ((j, c) ∷ s) h = elim (Bool-cases (j == i)) [
    | inl p ↦ rw p (AllOpen-remove i s h.2)
    | inr p ↦ rw p (h.0, h.1, AllOpen-remove i s h.2)
  ]

  AllOpen-prune :
      (now timeout : ℕ) (s : Streams)
      → AllOpen max s
      → AllOpen max (prune_stale_reassembly now timeout s)
  unfolding prune_stale_reassembly
  AllOpen-prune now timeout [] h = tt
  AllOpen-prune now timeout ((j, c) ∷ s) h = elim (Bool-cases (leb timeout (now - c.first_seen))) [
    | inl p ↦ rw p (AllOpen-prune now timeout s h.2)
    | inr p ↦ rw p (h.0, h.1, AllOpen-prune now timeout s h.2)
  ]

pub get-prune_none :
    (now timeout i : ℕ) (s : Streams)
    → get i s ≡ none
    → get i (prune_stale_reassembly now timeout s) ≡ none
unfolding prune_stale_reassembly get
get-prune_none now timeout i [] h = refl
get-prune_none now timeout i ((j, c) ∷ s) h = ground (arith, get-prune_none now timeout i s)

pub get-prune :
    (now timeout i : ℕ) (b : ReassemblyBuf) (s : Streams)
    → get i s ≡ some b
    → now - b.first_seen < timeout
    → get i (prune_stale_reassembly now timeout s) ≡ some b
unfolding prune_stale_reassembly get
get-prune now timeout i b [] h fresh = ground (arith, h)
get-prune now timeout i b ((j, c) ∷ s) h fresh = elim (Bool-cases (j == i)) [
  | inl p ↦
      let c_lem : c ≡ b = ground (arith, h, p) in
      let kept : leb timeout (now - c.first_seen) ≡ false = rw c_lem (ground (arith, fresh)) in
      rw (kept, p) (ap (λ (t : ReassemblyBuf). some t) c_lem)
  | inr p ↦
      let later : get i (prune_stale_reassembly now timeout s) ≡ some b =
        get-prune now timeout i b s (ground (arith, h, p)) fresh in
      ground (arith, later, p)
]

prune-HasUniqueKeys :
    (now timeout : ℕ) (s : Streams)
    → HasUniqueKeys s
    → HasUniqueKeys (prune_stale_reassembly now timeout s)
unfolding prune_stale_reassembly
prune-HasUniqueKeys now timeout [] u = tt
prune-HasUniqueKeys now timeout ((j, c) ∷ s) u =
    ground (arith, prune-HasUniqueKeys now timeout s u.1, get-prune_none now timeout j s u.0)

pub length-prune-le :
    (now timeout : ℕ) (s : Streams) → length (prune_stale_reassembly now timeout s) ≤ length s
unfolding prune_stale_reassembly
length-prune-le now timeout [] = omega arith
length-prune-le now timeout ((j, c) ∷ s) = ground (arith, length-prune-le now timeout s)

length-remove-le : (i : ℕ) (s : Streams) → length (remove i s) ≤ length s
unfolding remove
length-remove-le i [] = omega arith
length-remove-le i ((j, c) ∷ s) = ground (arith, length-remove-le i s)

pub remove-insert : (i : ℕ) (b : ReassemblyBuf) (s : Streams) → remove i (insert i b s) ≡ remove i s
unfolding insert remove
remove-insert i b [] = ground (arith, ==_refl i)
remove-insert i b ((j, c) ∷ s) = ground (arith, ==_refl i, remove-insert i b s)

-- A stream that has its buffer, or room for one.
abbrev pub HasRoom : ℕ → ℕ → Streams → Type 0
HasRoom cap i s = get i s ≡ none → length s < cap

module _ (max cap : ℕ) (s : Streams) (h : IsBuffering max cap s) where
  pub remove-IsBuffering : (i : ℕ) → IsBuffering max cap (remove i s)
  remove-IsBuffering i = record {
    unique = remove-HasUniqueKeys i s h.unique;
    open_all = AllOpen-remove max i s h.open_all;
    few = omega (arith, length-remove-le i s, h.few);
  }

  pub prune-IsBuffering :
      (now timeout : ℕ) → IsBuffering max cap (prune_stale_reassembly now timeout s)
  prune-IsBuffering now timeout = record {
    unique = prune-HasUniqueKeys now timeout s h.unique;
    open_all = AllOpen-prune max now timeout s h.open_all;
    few = omega (arith, length-prune-le now timeout s, h.few);
  }

  pub insert-IsBuffering :
      (i : ℕ) (b : ReassemblyBuf)
      → HasRoom cap i s
      → IsBuffer max b
      → is_complete b ≡ false
      → IsBuffering max cap (insert i b s)
  insert-IsBuffering i b room good o = record {
    unique = insert-HasUniqueKeys i b s h.unique;
    open_all = AllOpen-insert max i b s h.open_all good o;
    few = elim (Option-cases (get i s)) [
      | inl e ↦ ground (arith, e, room e, length-insert i b s)
      | inr (c, e) ↦ ground (arith, e, h.few, length-insert i b s)
    ];
  }
