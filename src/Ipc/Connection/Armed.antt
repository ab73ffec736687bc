-- ===== src/Ipc/Connection/Armed.antt =====
-- The read loop of a connection whose key is installed, and a fragment that is sent again.
use veyron.Ipc.Reassembly.{is_complete}
use veyron.Ipc.Router.Forward.{has_flag}
use veyron.Prelude.{
  [], ◌∷◌, none, some, inl, inr, true, false, refl, text_eq, nat_eq, arith, if◌then◌else◌,
  Option-cases, Bool-cases, ◌≡◌, List, Bool, Text, ℕ, ◌<◌, ◌^◌, length, ◌-◌, ◌+◌, ◌≤◌, ltb,
}
use veyron.Registry.Types.{Instant}
use veyron.Prelude.Maps.{get, insert}
use veyron.Ipc.Wire.{Wire, Frame}
use veyron.Ipc.Reassembly.{ReassemblyBuf, Streams}
use veyron.Ipc.Connection.{
  FrameCodec, FragmentHeader, ReadLimits, Arrival, Read, frame_read, mac_error, slice_from,
  take_fragment, take_frame, take_read, read_loop, reading, goes_on, panics, closed, refuses,
  after_buffering, frame_crc_mismatch, frame_magic_mismatch, payload_too_large, frame_read_timeout,
  other_read_error, Progress, deliver_if_complete, after_frames, panicked, replaced_len,
  buffer_fragment, stream_entry,
}
use veyron.Ipc.Connection.Buffers.{
  buffer_fragment_exact, with_fragment, replaced_len-le, length-insert, IsBuffer,
}
use veyron.Ipc.Connection.Bounds.{IsBuffering, AllOpen-get}
use veyron.Ipc.Connection.Turns.{Turn-cases, stream_entry-some}

-- The frame bears the tag of the key.
abbrev pub IsTagged : Wire → FrameCodec → List ℕ → Frame → Type 0
IsTagged w codec key frame =
    (tag : List ℕ) × (frame.mac ≡ some tag)
    × (has_flag w.flag_mac_present frame.flags ≡ true)
    × (codec.verify_tag key (codec.serialize_header frame) frame.payload tag ≡ true)

abbrev ReadsTagged : Wire → FrameCodec → List ℕ → Read → Type 0
ReadsTagged w codec key r = (frame : Frame) × (r ≡ frame_read frame) × IsTagged w codec key frame

abbrev pub AllTagged : Wire → FrameCodec → List ℕ → List Arrival → Type 0
AllTagged w codec key [] = Unit
AllTagged w codec key (a ∷ as') = ReadsTagged w codec key a.read × AllTagged w codec key as'

abbrev pub AllArmed : List ℕ → List Arrival → Type 0
AllArmed key [] = Unit
AllArmed key (a ∷ as') = (a.key ≡ some key) × AllArmed key as'

after_frames_reading :
    (out : List Frame) (p : Progress) (s : Streams) (given : List Frame)
    → after_frames out p ≡ reading s given
    → (rest : List Frame) × (p ≡ reading s rest)
after_frames_reading out (reading s' rest) s given h = (rest, ground (arith, h))
after_frames_reading out (closed rest sent) s given h = absurd (cc)
after_frames_reading out (panicked rest) s given h = absurd (cc)

module _ (w : Wire) (codec : FrameCodec) (limits : ReadLimits) (key : List ℕ) where
  pub mac_error-none :
      (frame : Frame) → mac_error w codec (some key) frame ≡ none → IsTagged w codec key frame
  unfolding mac_error
  mac_error-none frame h = elim (Option-cases frame.mac) [
    | inl e ↦ absurd (ground (arith, e, h))
    | inr (tag, e) ↦ (tag, e, ground (arith, e, h), ground (arith, e, h))
  ]

  goes_on-IsTagged :
      (router_open : Bool) (now : Instant) (r : Read) (s s' : Streams) (given : List Frame)
      → take_read w codec limits (some key) router_open now r s ≡ goes_on s' given
      → ReadsTagged w codec key r
  unfolding take_read take_frame
  goes_on-IsTagged router_open now (frame_read frame) s s' given h =
      elim (Option-cases (mac_error w codec (some key) frame)) [
        | inl e ↦ (frame, refl, mac_error-none frame e)
        | inr (code, e) ↦ absurd (ground (arith, e, h))
      ]
  goes_on-IsTagged router_open now frame_crc_mismatch s s' given h = absurd (cc)
  goes_on-IsTagged router_open now frame_magic_mismatch s s' given h = absurd (cc)
  goes_on-IsTagged router_open now (payload_too_large n) s s' given h = absurd (cc)
  goes_on-IsTagged router_open now frame_read_timeout s s' given h = absurd (cc)
  goes_on-IsTagged router_open now other_read_error s s' given h = absurd (cc)

  -- Where the key is installed for every arrival and the read loop still reads on after them, each of
  -- them was a frame with the tag flag and a tag that verifies for its header and payload: a read
  -- error, a missing tag or a wrong one ends the loop.
  pub read_loop-AllTagged :
      (as' : List Arrival) (s s' : Streams) (given : List Frame)
      → AllArmed key as'
      → read_loop w codec limits as' s ≡ reading s' given
      → AllTagged w codec key as'
  unfolding read_loop
  read_loop-AllTagged [] s s' given h runs = tt
  read_loop-AllTagged (a ∷ as') s s' given h runs =
      elim (Turn-cases (take_read w codec limits a.key a.router_open a.now a.read s)) [
        | inl (s1, out, e) ↦
            let (rest, e') =
              after_frames_reading out (read_loop w codec limits as' s1) s' given
                (rw (read_loop, e) at runs) in
            (
              goes_on-IsTagged a.router_open a.now a.read s s1 out (rw h.0 at e),
              read_loop-AllTagged as' s1 s' rest h.1 e',
            )
        | inr (inl (sent, e)) ↦ absurd (ground (arith, e, runs))
        | inr (inr e) ↦ absurd (ground (arith, e, runs))
      ]

resent :
    (w : Wire) (codec : FrameCodec) (limits : ReadLimits) (router_open : Bool) (frame : Frame)
    (i k : ℕ) (bs stored : Text) (b : ReassemblyBuf) (s : Streams)
    → codec.max_payload_size < 2 ^ 62
    → IsBuffer codec.max_payload_size b
    → is_complete b ≡ false
    → get k b.fragments ≡ some stored
    → length bs < length stored
    → after_buffering w router_open frame i s (buffer_fragment limits codec k bs b)
      ≡ (if limits.overflow_checks then panics else goes_on (insert i (with_fragment k bs b) s) [])
unfolding after_buffering deliver_if_complete
resent w codec limits router_open frame i k bs stored b s room good incomplete old shorter =
    let held : length stored ≤ b.buffered_bytes =
      ground (arith, replaced_len-le k b.fragments, good.counted, old) in
    let exact =
      buffer_fragment_exact limits codec k bs b good (omega (arith, shorter, held, good.within))
        room in
    let size_lem : ltb codec.max_payload_size
          (b.buffered_bytes + length bs - replaced_len k b.fragments)
        ≡ false =
      ground (arith, old, shorter, held, good.within) in
    let short : ltb (length bs) (replaced_len k b.fragments) ≡ true =
      ground (arith, old, shorter) in
    let open' : is_complete (with_fragment k bs b) ≡ false =
      ground (arith, incomplete, length-insert k bs b.fragments, old) in
    elim (Bool-cases limits.overflow_checks) [
      | inl checks ↦ rw (exact, size_lem, checks, short) refl
      | inr free ↦ rw (exact, size_lem, free, after_buffering, deliver_if_complete, open') refl
    ]

-- Let the read loop be within its bounds, with a largest payload below 2 ^ 62 bytes. A fragment
-- whose header is accepted, with a number that the buffer of its stream holds already, and shorter
-- than that copy, makes the task panic in a build with overflow checks; in a build without them it
-- replaces the copy, the count of bytes follows, and the loop reads on.
pub short_resend :
    (w : Wire) (codec : FrameCodec) (limits : ReadLimits) (router_open : Bool) (now : Instant)
    (frame : Frame) (hd : FragmentHeader) (bs stored : Text) (b : ReassemblyBuf) (s : Streams)
    → codec.max_payload_size < 2 ^ 62
    → IsBuffering codec.max_payload_size limits.max_reassembly_streams s
    → codec.parse_frag_header frame.payload ≡ some hd
    → refuses limits hd s ≡ false
    → slice_from codec.frag_header_size frame.payload ≡ some bs
    → get hd.stream_id s ≡ some b
    → get hd.sequence b.fragments ≡ some stored
    → length bs < length stored
    → take_fragment w codec limits router_open now frame s ≡ (
        if limits.overflow_checks
        then panics
        else goes_on (insert hd.stream_id (with_fragment hd.sequence bs b) s) [])
unfolding take_fragment
short_resend w codec limits router_open now frame hd bs stored b s room h parsed no_refusal cut
      there old shorter =
    let (good, incomplete) = AllOpen-get codec.max_payload_size hd.stream_id b s h.open_all there in
    let taken : after_buffering w router_open frame hd.stream_id s
          (buffer_fragment limits codec hd.sequence bs (stream_entry now frame hd s))
        ≡ (if limits.overflow_checks
            then panics
            else goes_on (insert hd.stream_id (with_fragment hd.sequence bs b) s) []) =
      rw (stream_entry-some now frame hd b s there) (
        resent w codec limits router_open frame hd.stream_id hd.sequence bs stored b s room good
          incomplete old shorter) in
    rw (take_fragment, parsed, no_refusal, cut) taken
