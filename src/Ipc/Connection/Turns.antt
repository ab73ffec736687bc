-- ===== src/Ipc/Connection/Turns.antt =====
-- The turns of the read loop keep the bounds of what it holds.
use veyron.Registry.Types.{Instant}
use veyron.Ipc.Connection.{
  stream_entry, Progress, Arrival, Read, reading, after_frames, frame_read, closed, panicked,
}
use veyron.Prelude.{
  [], ◌∷◌, some, inl, inr, true, false, refl, text_eq, nat_eq, if◌then◌else◌, ==_refl, Bool-cases,
  ◌≡◌, List, Bool, ℕ, length, ◌≤◌, ◌∙◌, arith, ==_iff, Option-cases, zero, suc, Text, ◌<◌, ◌++◌,
  leb, ◌⊎◌,
}
use veyron.Prelude.Maps.{get, insert, remove, get-insert}
use veyron.Ipc.Wire.{Wire, Frame}
use veyron.Ipc.Reassembly.{ReassemblyBuf, Streams, is_complete}
use veyron.Ipc.Reassembly.Ordered.{joined}
use veyron.Ipc.Connection.{
  Turn, goes_on, ends, panics, ReadLimits, deliver_if_complete, hand_over, assembled, slice_from,
  refuses, FragmentHeader,
}
use veyron.Ipc.Connection.Buffers.{IsBuffer, reassemble_complete, reassemble-length, part_of}
use veyron.Ipc.Connection.Bounds.{
  IsBuffering, remove-insert, HasRoom, remove-IsBuffering, insert-IsBuffering, AllOpen-get,
}

abbrev pub Small : ℕ → List Frame → Type 0
Small max [] = Unit
Small max (f ∷ fs) = (length f.payload ≤ max) × Small max fs

-- The buffers stay within their bounds, the router is given frames within the limit, and the task
-- panics in a build with overflow checks only.
abbrev pub Sound : ℕ → ReadLimits → Turn → Type 0
Sound max limits (goes_on streams given) =
    IsBuffering max limits.max_reassembly_streams streams × Small max given
Sound max limits (ends sent) = Unit
Sound max limits panics = limits.overflow_checks ≡ true

pub Turn-cases :
    (t : Turn)
    → ((s : Streams) × (given : List Frame) × (t ≡ goes_on s given))
      ⊎ (((sent : List Frame) × (t ≡ ends sent)) ⊎ (t ≡ panics))
Turn-cases (goes_on s given) = inl (s, given, refl)
Turn-cases (ends sent) = inr (inl (sent, refl))
Turn-cases panics = inr (inr refl)

-- The same of a whole run.
abbrev pub RunsSound : ℕ → ReadLimits → Progress → Type 0
RunsSound max limits (reading streams given) =
    IsBuffering max limits.max_reassembly_streams streams × Small max given
RunsSound max limits (closed given sent) = Small max given
RunsSound max limits (panicked given) = limits.overflow_checks ≡ true

Small-append : (max : ℕ) (fs gs : List Frame) → Small max fs → Small max gs → Small max (fs ++ gs)
Small-append max [] gs h h' = h'
Small-append max (f ∷ fs) gs h h' = (h.0, Small-append max fs gs h.1 h')

pub after_frames-RunsSound :
    (max : ℕ) (limits : ReadLimits) (given : List Frame) (p : Progress)
    → Small max given
    → RunsSound max limits p
    → RunsSound max limits (after_frames given p)
after_frames-RunsSound max limits given (reading s out) h h' =
    (h'.0, Small-append max given out h h'.1)
after_frames-RunsSound max limits given (closed out sent) h h' = Small-append max given out h h'
after_frames-RunsSound max limits given (panicked out) h h' = h'

abbrev pub read_fits : ℕ → Read → Bool
read_fits max (frame_read f) = leb (length f.payload) max
read_fits max _ = true

-- `read_frame` answers with no frame that is longer than the limit.
abbrev pub fits : ℕ → Arrival → Bool
fits max a = read_fits max a.read

pub hand_over-Sound :
    (max : ℕ) (limits : ReadLimits) (router_open : Bool) (s : Streams) (frame : Frame)
    → IsBuffering max limits.max_reassembly_streams s
    → length frame.payload ≤ max
    → Sound max limits (hand_over router_open s frame)
hand_over-Sound max limits true s frame h small = (h, (small, tt))
hand_over-Sound max limits false s frame h small = tt

module _ (w : Wire) (limits : ReadLimits) (router_open : Bool) (frame : Frame) (i max : ℕ)
    (s : Streams) (h : IsBuffering max limits.max_reassembly_streams s)
    (room : HasRoom limits.max_reassembly_streams i s) (b : ReassemblyBuf)
    (good : IsBuffer max b) where
  pub deliver_if_complete_exact : deliver_if_complete w router_open frame i (insert i b s) b ≡ (
      if is_complete b
      then hand_over router_open
          (remove i s)
          (assembled w frame b.target (joined (part_of b) 0 b.total))
      else goes_on (insert i b s) [])
  unfolding deliver_if_complete
  deliver_if_complete_exact = elim (Bool-cases (is_complete b)) [
    | inl full ↦
        let found : get i (insert i b s) ≡ some b = get-insert i i b s ∙ rw (==_refl i) refl in
        rw (full, found, reassemble_complete max b good full, remove-insert i b s) refl
    | inr part ↦ rw part refl
  ]

  pub deliver_if_complete-Sound :
      Sound max limits (deliver_if_complete w router_open frame i (insert i b s) b)
  unfolding assembled
  deliver_if_complete-Sound = rw deliver_if_complete_exact (elim (Bool-cases (is_complete b)) [
    | inl full ↦ rw full (
        hand_over-Sound max limits router_open (remove i s)
          (assembled w frame b.target (joined (part_of b) 0 b.total))
          (remove-IsBuffering max limits.max_reassembly_streams s h i)
          (reassemble-length max b (joined (part_of b) 0 b.total) good
            (reassemble_complete max b good full)))
    | inr part ↦
        rw part (insert-IsBuffering max limits.max_reassembly_streams s h i b room good part, tt)
  ])

pub stream_entry-IsBuffer :
    (max cap : ℕ) (now : Instant) (frame : Frame) (hd : FragmentHeader) (s : Streams)
    → IsBuffering max cap s
    → IsBuffer max (stream_entry now frame hd s)
unfolding stream_entry
stream_entry-IsBuffer max cap now frame hd s h = elim (Option-cases (get hd.stream_id s)) [
  | inl e ↦ rw e record { unique = tt; below = tt; counted = refl; within = omega arith }
  | inr (b, e) ↦ rw e (AllOpen-get max hd.stream_id b s h.open_all e).0
]

-- What a header says that is not refused.
pub not_refused_lem :
    (limits : ReadLimits) (now : Instant) (frame : Frame) (hd : FragmentHeader) (s : Streams)
    → refuses limits hd s ≡ false
    → (hd.sequence < (stream_entry now frame hd s).total)
      × HasRoom limits.max_reassembly_streams hd.stream_id s
unfolding refuses stream_entry
not_refused_lem limits now frame hd s no_refusal = elim (Option-cases (get hd.stream_id s)) [
  | inl e ↦ (ground (arith, e, no_refusal), λ e'. ground (arith, e, no_refusal))
  | inr (b, e) ↦
      (ground (arith, e, no_refusal, ==_iff b.total hd.total), λ e'. ground (arith, e, e'))
]

-- A fragment's data is no longer than its frame's payload; it is there where the header is.
pub slice_from-length :
    (n : ℕ) (p : Text)
    → n ≤ length p
    → (d : Text) × (slice_from n p ≡ some d) × (length d ≤ length p)
slice_from-length zero p le = (p, refl, omega arith)
slice_from-length (suc n) [] le = absurd (omega (arith, le))
slice_from-length (suc n) (c ∷ p) le =
    let (d, e, small) = slice_from-length n p (omega arith) in (d, e, omega arith)

pub stream_entry-some :
    (now : Instant) (frame : Frame) (hd : FragmentHeader) (b : ReassemblyBuf) (s : Streams)
    → get hd.stream_id s ≡ some b
    → stream_entry now frame hd s ≡ b
unfolding stream_entry
stream_entry-some now frame hd b s there = rw there refl
