-- ===== src/Ipc/Connection/Buffers.antt =====
-- What a fragment does to the buffer of its stream, where the buffer's count of bytes is right.
use veyron.Prelude.{
  [], ◌∷◌, none, some, inl, inr, refl, text_eq, nat_eq, arith, if◌then◌else◌, ==_iff, Bool-cases,
  ◌≡◌, suc, Bool, Text, ℕ, length, ◌<◌, ◌≤◌, ◌+◌, is_some, ◌^◌, ◌-◌, ◌==◌, ltb, ◌&&◌, true,
  Option-cases, List, unwrap_or, ◌++◌, length-append,
}
use veyron.Prelude.Maps.{
  Map, get, insert, HasUniqueKeys, insert-HasUniqueKeys, remove, remove-HasUniqueKeys,
}
use veyron.Ipc.Reassembly.{ReassemblyBuf, keys_of, reassemble, is_complete, drain, sort_unstable}
use veyron.Ipc.Reassembly.Ordered.{Below, joined, reassemble-joined, complete_holds}
use veyron.Ipc.Connection.{
  FrameCodec, ReadLimits, buffer_fragment, kept, oversized, overflows, replaced_len, size_with,
  size_grown,
}

abbrev pub sizes : Map ℕ Text → ℕ
sizes [] = 0
sizes ((k, v) ∷ m) = length v + sizes m

pub sizes-insert :
    (k : ℕ) (v : Text) (m : Map ℕ Text)
    → sizes (insert k v m) + replaced_len k m ≡ sizes m + length v
unfolding insert get
sizes-insert k v [] = omega arith
sizes-insert k v ((j, w) ∷ m) = ground (arith, sizes-insert k v m, ==_iff j k)

pub replaced_len-le : (k : ℕ) (m : Map ℕ Text) → replaced_len k m ≤ sizes m
unfolding get
replaced_len-le k [] = omega arith
replaced_len-le k ((j, w) ∷ m) = ground (arith, replaced_len-le k m)

module _ (checks : Bool) (a l r max : ℕ) (le : r ≤ a) (fits : a ≤ max) (small : l ≤ max)
    (room : max < 2 ^ 62) where
  size_with_fits : size_with checks a l r ≡ some (a + l - r)
  unfolding size_with
  size_with_fits = ground arith

  size_grown_fits : size_grown checks a l r ≡ (if checks && ltb l r then none else some (a + l - r))
  unfolding size_grown
  size_grown_fits = ground arith

pub length-insert :
    {V : Type 0} (k : ℕ) (v : V) (m : Map ℕ V)
    → length (insert k v m) ≡ (if is_some (get k m) then length m else suc (length m))
unfolding insert get
length-insert k v [] = refl
length-insert k v ((j, w) ∷ m) = ground (arith, length-insert k v m)

pub insert-Below :
    (n k : ℕ) (v : Text) (m : Map ℕ Text)
    → k < n
    → Below n (keys_of m)
    → Below n (keys_of (insert k v m))
unfolding insert
insert-Below n k v [] lt h = (lt, tt)
insert-Below n k v ((j, w) ∷ m) lt h = elim (Bool-cases (j == k)) [
  | inl e ↦ rw e (lt, h.1)
  | inr e ↦ rw e (h.0, insert-Below n k v m lt h.1)
]

-- The fields of a buffer that belong together.
pub record IsBuffer (max : ℕ) (b : ReassemblyBuf) : Type 0 where
  pub unique : HasUniqueKeys b.fragments
  pub below : Below b.total (keys_of b.fragments)
  pub counted : b.buffered_bytes ≡ sizes b.fragments
  pub within : b.buffered_bytes ≤ max

-- The buffer with the fragment in it.
abbrev pub with_fragment : ℕ → Text → ReassemblyBuf → ReassemblyBuf
with_fragment k part b = record b {
  buffered_bytes = b.buffered_bytes + length part - replaced_len k b.fragments;
  fragments = insert k part b.fragments;
}

module _ (limits : ReadLimits) (codec : FrameCodec) (k : ℕ) (part : Text) (b : ReassemblyBuf)
    (is_buffer : IsBuffer codec.max_payload_size b) (small : length part ≤ codec.max_payload_size)
    (room : codec.max_payload_size < 2 ^ 62) where
  pub buffer_fragment_exact : buffer_fragment limits codec k part b ≡ (
      if ltb codec.max_payload_size (b.buffered_bytes + length part - replaced_len k b.fragments)
      then oversized
      else if limits.overflow_checks && ltb (length part) (replaced_len k b.fragments)
      then overflows
      else kept (with_fragment k part b))
  unfolding buffer_fragment
  buffer_fragment_exact =
      let le : replaced_len k b.fragments ≤ b.buffered_bytes =
        omega (arith, replaced_len-le k b.fragments, is_buffer.counted) in
      rw
        (
          buffer_fragment,
          size_with_fits limits.overflow_checks b.buffered_bytes (length part)
              (replaced_len k b.fragments) codec.max_payload_size le is_buffer.within small room,
        )
        (ground (
          arith,
          size_grown_fits limits.overflow_checks b.buffered_bytes (length part)
              (replaced_len k b.fragments) codec.max_payload_size le is_buffer.within small room,
        ))

  pub with_fragment-IsBuffer :
      k < b.total
      → b.buffered_bytes + length part - replaced_len k b.fragments ≤ codec.max_payload_size
      → IsBuffer codec.max_payload_size (with_fragment k part b)
  with_fragment-IsBuffer lt fits = record {
    unique = insert-HasUniqueKeys k part b.fragments is_buffer.unique;
    below = insert-Below b.total k part b.fragments lt is_buffer.below;
    counted = omega (arith, sizes-insert k part b.fragments, is_buffer.counted);
    within = fits;
  }

remove_missing : {V : Type 0} (k : ℕ) (m : Map ℕ V) → get k m ≡ none → remove k m ≡ m
unfolding remove get
remove_missing k [] h = refl
remove_missing k ((j, w) ∷ m) h = ground (arith, remove_missing k m)

sizes-remove :
    (k : ℕ) (part : Text) (m : Map ℕ Text)
    → HasUniqueKeys m
    → get k m ≡ some part
    → sizes (remove k m) + length part ≡ sizes m
unfolding remove get
sizes-remove k part [] u h = cc
sizes-remove k part ((j, w) ∷ m) u h = elim (Bool-cases (j == k)) [
  | inl e ↦ ground (arith, h, e, remove_missing k m, ==_iff j k, u.0)
  | inr e ↦ ground (arith, e, h, sizes-remove k part m u.1)
]

drain-length :
    (ks : List ℕ) (m : Map ℕ Text) (out t : Text)
    → HasUniqueKeys m
    → drain ks m out ≡ some t
    → length t ≤ length out + sizes m
unfolding drain
drain-length [] m out t u h = ground arith
drain-length (k ∷ ks) m out t u h = elim (Option-cases (get k m)) [
  | inl e ↦ ground (arith, h, e)
  | inr (part, e) ↦
      let rest : drain ks (remove k m) (out ++ part) ≡ some t = ground (arith, h, e) in
      omega (
        arith,
        drain-length ks (remove k m) (out ++ part) t (remove-HasUniqueKeys k m u) rest,
        length-append out part,
        sizes-remove k part m u e,
      )
]

-- What a buffer gives is no longer than its count of bytes.
pub reassemble-length :
    (max : ℕ) (b : ReassemblyBuf) (t : Text)
    → IsBuffer max b
    → reassemble b ≡ some t
    → length t ≤ max
unfolding reassemble
reassemble-length max b t h e = omega (
  arith,
  drain-length (sort_unstable (keys_of b.fragments)) b.fragments [] t h.unique e,
  h.counted,
  h.within,
)

-- The parts that a buffer holds, by their numbers.
abbrev pub part_of : ReassemblyBuf → ℕ → Text
part_of b k = unwrap_or (get k b.fragments) []

pub reassemble_complete :
    (max : ℕ) (b : ReassemblyBuf)
    → IsBuffer max b
    → is_complete b ≡ true
    → reassemble b ≡ some (joined (part_of b) 0 b.total)
reassemble_complete max b h full =
    let size : length b.fragments ≡ b.total = (==_iff (length b.fragments) b.total).0 full in
    reassemble-joined (part_of b) b h.unique h.below size (λ k lt.
      let (p, e) = complete_holds b.total k b.fragments h.unique h.below size lt in rw e refl)
