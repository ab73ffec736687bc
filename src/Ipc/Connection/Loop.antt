-- ===== src/Ipc/Connection/Loop.antt =====
-- The whole read loop keeps the bounds of what it holds.
use veyron.Ipc.Connection.{
  frame_crc_mismatch, frame_magic_mismatch, payload_too_large, frame_read_timeout, other_read_error,
}
use veyron.Utils.Errors.{payload_too_large}
use veyron.Ipc.Router.Forward.{has_flag}
use veyron.Registry.Types.{Instant}
use veyron.Ipc.Connection.{
  stream_entry, after_buffering, replaced_len, take_read, Arrival, Read, frame_read, read_loop,
}
use veyron.Prelude.{
  [], ◌∷◌, some, inl, inr, true, text_eq, nat_eq, Bool-cases, ◌≡◌, List, Bool, ℕ, length, ◌≤◌,
  arith, Option-cases, Option, Text, ◌<◌, ◌^◌, ◌+◌, ◌-◌, ltb, ◌&&◌, all,
}
use veyron.Ipc.Wire.{Wire, Frame}
use veyron.Ipc.Reassembly.{ReassemblyBuf, Streams, prune_stale_reassembly}
use veyron.Ipc.Connection.{
  ReadLimits, refuses, FrameCodec, FragmentHeader, buffer_fragment, take_frame, take_fragment,
  mac_error,
}
use veyron.Ipc.Connection.Buffers.{
  with_fragment-IsBuffer, IsBuffer, buffer_fragment_exact, with_fragment,
}
use veyron.Ipc.Connection.Bounds.{IsBuffering, HasRoom, prune-IsBuffering}
use veyron.Ipc.Connection.Turns.{
  hand_over-Sound, deliver_if_complete-Sound, stream_entry-IsBuffer, not_refused_lem,
  slice_from-length, after_frames-RunsSound, Turn-cases, RunsSound, Sound, Small, fits, read_fits,
}

-- The wire library reads no header from a payload that is shorter than one.
abbrev pub ReadsWholeHeaders : FrameCodec → Type 0
ReadsWholeHeaders codec =
    (p : Text) (hd : FragmentHeader)
    → codec.parse_frag_header p ≡ some hd
    → codec.frag_header_size ≤ length p

module _ (w : Wire) (codec : FrameCodec) (limits : ReadLimits) (whole : ReadsWholeHeaders codec)
    (room : codec.max_payload_size < 2 ^ 62) where
  buffered-Sound :
      (router_open : Bool) (frame : Frame) (i k : ℕ) (part : Text) (b : ReassemblyBuf) (s : Streams)
      → IsBuffering codec.max_payload_size limits.max_reassembly_streams s
      → HasRoom limits.max_reassembly_streams i s
      → IsBuffer codec.max_payload_size b
      → k < b.total
      → length part ≤ codec.max_payload_size
      → Sound codec.max_payload_size limits
          (after_buffering w router_open frame i s (buffer_fragment limits codec k part b))
  unfolding after_buffering
  buffered-Sound router_open frame i k part b s h free good lt small =
      let size : ℕ = b.buffered_bytes + length part - replaced_len k b.fragments in
      rw (buffer_fragment_exact limits codec k part b good small room)
        (elim (Bool-cases (ltb codec.max_payload_size size)) [
          | inl big ↦ rw big tt
          | inr fits ↦
              elim (Bool-cases
                (limits.overflow_checks && ltb (length part) (replaced_len k b.fragments))) [
                  | inl over ↦ rw (fits, over) (ground (arith, over))
                  | inr ok ↦
                      rw (fits, ok)
                        (deliver_if_complete-Sound w limits router_open frame i
                          codec.max_payload_size s h free (with_fragment k part b)
                          (with_fragment-IsBuffer limits codec k part b good small room lt
                            (ground (arith, fits))))
                ]
        ])

  take_fragment-Sound :
      (router_open : Bool) (now : Instant) (frame : Frame) (s : Streams)
      → IsBuffering codec.max_payload_size limits.max_reassembly_streams s
      → length frame.payload ≤ codec.max_payload_size
      → Sound codec.max_payload_size limits (take_fragment w codec limits router_open now frame s)
  unfolding take_fragment
  take_fragment-Sound router_open now frame s h small =
      elim (Option-cases (codec.parse_frag_header frame.payload)) [
        | inl e ↦ rw (take_fragment, e) tt
        | inr (hd, e) ↦ elim (Bool-cases (refuses limits hd s)) [
          | inl no_more ↦ rw (take_fragment, e, no_more) tt
          | inr taken ↦
              let (d, cut, short) =
                slice_from-length codec.frag_header_size frame.payload (whole frame.payload hd e) in
              let (lt, free) = not_refused_lem limits now frame hd s taken in
              rw (take_fragment, e, taken, cut)
                (buffered-Sound router_open frame hd.stream_id hd.sequence d
                  (stream_entry now frame hd s) s h free
                  (stream_entry-IsBuffer codec.max_payload_size limits.max_reassembly_streams now
                    frame hd s h)
                  lt (omega arith))
        ]
      ]

  take_frame-Sound :
      (key : Option (List ℕ)) (router_open : Bool) (now : Instant) (frame : Frame) (s : Streams)
      → IsBuffering codec.max_payload_size limits.max_reassembly_streams s
      → length frame.payload ≤ codec.max_payload_size
      → Sound codec.max_payload_size limits (take_frame w codec limits key router_open now frame s)
  unfolding take_frame
  take_frame-Sound key router_open now frame s h small =
      let recent =
        prune-IsBuffering codec.max_payload_size limits.max_reassembly_streams s h now
          limits.fragment_timeout in
      elim (Option-cases (mac_error w codec key frame)) [
        | inr (code, e) ↦ rw (take_frame, e) tt
        | inl e ↦ elim (Bool-cases (has_flag w.flag_fragmented frame.flags)) [
          | inl flagged ↦
              rw (take_frame, e, flagged)
                (take_fragment-Sound router_open now frame
                  (prune_stale_reassembly now limits.fragment_timeout s) recent small)
          | inr plain ↦
              rw (take_frame, e, plain)
                (hand_over-Sound codec.max_payload_size limits router_open
                  (prune_stale_reassembly now limits.fragment_timeout s) frame recent small)
        ]
      ]

  take_read-Sound :
      (key : Option (List ℕ)) (router_open : Bool) (now : Instant) (r : Read) (s : Streams)
      → IsBuffering codec.max_payload_size limits.max_reassembly_streams s
      → read_fits codec.max_payload_size r ≡ true
      → Sound codec.max_payload_size limits (take_read w codec limits key router_open now r s)
  unfolding take_read
  take_read-Sound key router_open now (frame_read frame) s h small =
      take_frame-Sound key router_open now frame s h (ground (arith, small))
  take_read-Sound key router_open now frame_crc_mismatch s h small = tt
  take_read-Sound key router_open now frame_magic_mismatch s h small = tt
  take_read-Sound key router_open now (payload_too_large n) s h small = tt
  take_read-Sound key router_open now frame_read_timeout s h small = tt
  take_read-Sound key router_open now other_read_error s h small = tt

  -- Let the loop start within its bounds, let every frame that is read have at most the largest
  -- payload, which is below 2 ^ 62 bytes, and let the wire library read no fragment header from a
  -- payload that is shorter than one. Then, whatever else arrives: as long as the loop reads on,
  -- it holds at most `max_reassembly_streams` incomplete streams, each of which has only part
  -- numbers below its total, each once, and counts as many bytes as its parts have, at most the
  -- largest payload; every frame that the router was given has at most the largest payload, also
  -- where the loop has ended; and the task panics only in a build that checks for overflow.
  pub read_loop-Sound :
      (as' : List Arrival) (s : Streams)
      → IsBuffering codec.max_payload_size limits.max_reassembly_streams s
      → all (fits codec.max_payload_size) as' ≡ true
      → RunsSound codec.max_payload_size limits (read_loop w codec limits as' s)
  unfolding read_loop all
  read_loop-Sound [] s h small = (h, tt)
  read_loop-Sound (a ∷ as') s h small =
      elim (Turn-cases (take_read w codec limits a.key a.router_open a.now a.read s)) [
        | inl (s', given, e) ↦
            let turn : IsBuffering codec.max_payload_size limits.max_reassembly_streams s'
                × Small codec.max_payload_size given =
              rw e at
                (take_read-Sound a.key a.router_open a.now a.read s h (ground (arith, small))) in
            rw (read_loop, e)
              (after_frames-RunsSound codec.max_payload_size limits given
                (read_loop w codec limits as' s') turn.1
                (read_loop-Sound as' s' turn.0 (ground (arith, small))))
        | inr (inl (sent, e)) ↦ rw (read_loop, e) tt
        | inr (inr e) ↦
            let turn : limits.overflow_checks ≡ true =
              rw e at
                (take_read-Sound a.key a.router_open a.now a.read s h (ground (arith, small))) in
            rw (read_loop, e) turn
      ]
