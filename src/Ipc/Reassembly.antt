-- ===== src/Ipc/Reassembly.antt =====
-- src/ipc/connection.rs: the buffers in which the fragments of a stream are collected.
pub mod Ordered
use veyron.Prelude.{
  [], ◌∷◌, none, some, inl, inr, true, false, refl, text_eq, nat_eq, arith, if◌then◌else◌, ==_iff,
  ==_refl, Option-cases, Bool-cases, ◌≡◌, zero, suc, List, Option, Bool, Text, ℕ, length, leb,
  and_then, ◌-◌, ◌++◌, ◌==◌,
}
use veyron.Registry.Types.{Instant}
use veyron.Prelude.Maps.{Map, get, insert, remove}

pub record ReassemblyBuf : Type 0 where
  pub fragments : Map ℕ Text
  pub total : ℕ
  pub target : List ℕ
  pub first_seen : Instant
  pub buffered_bytes : ℕ

-- `HashMap<u32, ReassemblyBuf>`, by stream
abbrev pub Streams : Type 0
Streams = Map ℕ ReassemblyBuf

abbrev pub is_complete : ReassemblyBuf → Bool
is_complete b = length b.fragments == b.total

abbrev pub keys_of : Map ℕ Text → List ℕ
keys_of [] = []
keys_of ((k, v) ∷ m) = k ∷ keys_of m

-- `seqs.sort_unstable()`
unfoldable pub insert_sorted : ℕ → List ℕ → List ℕ
insert_sorted k [] = k ∷ []
insert_sorted k (j ∷ js) = if leb k j then k ∷ j ∷ js else j ∷ insert_sorted k js

unfoldable pub sort_unstable : List ℕ → List ℕ
unfolding insert_sorted
sort_unstable [] = []
sort_unstable (k ∷ ks) = insert_sorted k (sort_unstable ks)

-- `for seq in seqs { out.extend_from_slice(&fragments.remove(&seq).unwrap()) }`, `none` where the
-- `unwrap` panics
unfoldable pub drain : List ℕ → Map ℕ Text → Text → Option Text
drain [] m out = some out
drain (seq ∷ seqs) m out = and_then (get seq m) (λ part. drain seqs (remove seq m) (out ++ part))

unfoldable pub reassemble : ReassemblyBuf → Option Text
unfolding sort_unstable drain
reassemble b = drain (sort_unstable (keys_of b.fragments)) b.fragments []

-- `map.retain(|_, buf| now.duration_since(buf.first_seen) < fragment_timeout)`
unfoldable pub prune_stale_reassembly : Instant → ℕ → Streams → Streams
prune_stale_reassembly now fragment_timeout [] = []
prune_stale_reassembly now fragment_timeout ((stream_id, buf) ∷ streams) =
    let rest = prune_stale_reassembly now fragment_timeout streams in
    if leb fragment_timeout (now - buf.first_seen) then rest else (stream_id, buf) ∷ rest
