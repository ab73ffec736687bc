-- ===== src/Ipc/Connection.antt =====
-- src/ipc/connection.rs: the read loop of a connection, frame by frame.
pub mod Buffers
pub mod Bounds
pub mod Turns
pub mod Loop
pub mod Collected
pub mod RoundTrip
pub mod Armed
pub mod Writes
use veyron.Ipc.Framing.{build_frame}
use veyron.Ipc.Router.Forward.{clear_flag, has_flag}
use veyron.Prelude.{
  [], ◌∷◌, none, some, text_eq, nat_eq, if◌then◌else◌, zero, suc, List, Option, Bool, Text, ℕ, ◌&&◌,
  unwrap_or, leb, ◌==◌, bytes, length, ◌||◌, ◌^◌, ◌-◌, map_option, ◌+◌, and_then, ◌%◌, not, ltb,
  inl, inr, true, false, refl, arith, ==_iff, ==_refl, Option-cases, Bool-cases, ◌≡◌, ◌++◌,
}
use veyron.Registry.Types.{Instant}
use veyron.Prelude.Maps.{get, insert, remove, Map}
use veyron.Ipc.Wire.{
  Wire, Frame, ErrorCode, error_message, envelope_of, err_mac_invalid, err_mac_missing,
}
use veyron.Ipc.Reassembly.{ReassemblyBuf, Streams, is_complete, reassemble, prune_stale_reassembly}

pub record FragmentHeader : Type 0 where
  pub stream_id : ℕ
  pub sequence : ℕ
  pub total : ℕ

-- What the wire library offers on frames.
pub record FrameCodec : Type 0 where
  pub parse_frag_header : List ℕ → Option FragmentHeader
  pub frag_header_size : ℕ
  pub max_payload_size : ℕ
  pub serialize_header : Frame → List ℕ
  pub compute_tag : List ℕ → List ℕ → List ℕ → List ℕ
  pub verify_tag : List ℕ → List ℕ → List ℕ → List ℕ → Bool

-- The limits of a connection, and whether the build checks that arithmetic stays in range.
pub record ReadLimits : Type 0 where
  pub fragment_timeout : ℕ
  pub max_reassembly_streams : ℕ
  pub overflow_checks : Bool

-- `a + b` and `a - b` on `usize`, `none` where a build with overflow checks panics
abbrev pub usize_add : Bool → ℕ → ℕ → Option ℕ
usize_add checks a b = if checks && leb (2 ^ 64) (a + b) then none else some ((a + b) % 2 ^ 64)

abbrev pub usize_sub : Bool → ℕ → ℕ → Option ℕ
usize_sub checks a b =
    if leb b a then some (a - b) else if checks then none else some ((a + 2 ^ 64 - b) % 2 ^ 64)

-- `&bytes[n..]`, `none` where it panics
abbrev pub slice_from : ℕ → Text → Option Text
slice_from zero s = some s
slice_from (suc n) [] = none
slice_from (suc n) (c ∷ s) = slice_from n s

-- One turn of the loop: the loop goes on and has handed frames to the router, or it ends after
-- sending frames to the peer, or the task panics.
pub data Turn : Type 0 where
  goes_on : Streams → List Frame → Turn
  ends : List Frame → Turn
  panics : Turn

-- The code of the error where a frame fails the check of its tag.
unfoldable pub mac_error : Wire → FrameCodec → Option (List ℕ) → Frame → Option ErrorCode
mac_error w codec none frame = none
mac_error w codec (some k) frame =
    if has_flag w.flag_mac_present frame.flags
    then elim frame.mac [
      | none ↦ some err_mac_missing
      | some tag ↦
          if codec.verify_tag k (codec.serialize_header frame) frame.payload tag
          then none
          else some err_mac_invalid
    ]
    else some err_mac_missing

unfoldable pub send_error : Wire → ErrorCode → List Frame
send_error w code = elim (w.encode (envelope_of (error_message code [] []))) [
  | none ↦ []
  | some payload ↦ build_frame w (bytes "client") 0 payload ∷ []
]

-- `incoming_tx.send(msg).await`, `router_open` where the router still receives
abbrev hand_over : Bool → Streams → Frame → Turn
hand_over router_open streams frame = if router_open then goes_on streams (frame ∷ []) else ends []

-- Whether the loop ends at a fragment's header.
unfoldable pub refuses : ReadLimits → FragmentHeader → Streams → Bool
refuses limits h streams =
    (h.total == 0 || leb h.total h.sequence) || elim (get h.stream_id streams) [
      | none ↦ leb limits.max_reassembly_streams (length streams)
      | some existing ↦ not (existing.total == h.total)
    ]

-- `entry(..).or_insert_with(..)`
unfoldable pub stream_entry : Instant → Frame → FragmentHeader → Streams → ReassemblyBuf
stream_entry now frame h streams = unwrap_or (get h.stream_id streams) record {
  fragments = [];
  total = h.total;
  target = frame.target;
  first_seen = now;
  buffered_bytes = 0;
}

-- What a fragment does to its buffer.
pub data Buffered : Type 0 where
  kept : ReassemblyBuf → Buffered
  oversized overflows : Buffered

-- `buffered_bytes + frag_data.len() - replaced_len`
unfoldable pub size_with : Bool → ℕ → ℕ → ℕ → Option ℕ
size_with checks buffered len replaced_len =
    and_then (usize_add checks buffered len) (λ sum. usize_sub checks sum replaced_len)

-- `buffered_bytes += frag_data.len() - replaced_len`
unfoldable pub size_grown : Bool → ℕ → ℕ → ℕ → Option ℕ
size_grown checks buffered len replaced_len =
    and_then (usize_sub checks len replaced_len) (λ growth. usize_add checks buffered growth)

abbrev pub replaced_len : ℕ → Map ℕ Text → ℕ
replaced_len sequence fragments = unwrap_or (map_option length (get sequence fragments)) 0

unfoldable pub buffer_fragment : ReadLimits → FrameCodec → ℕ → Text → ReassemblyBuf → Buffered
unfolding size_with size_grown
buffer_fragment limits codec sequence frag_data entry =
    elim (size_with limits.overflow_checks entry.buffered_bytes (length frag_data)
      (replaced_len sequence entry.fragments)) [
        | none ↦ overflows
        | some size ↦
            if ltb codec.max_payload_size size
            then oversized
            else elim (size_grown limits.overflow_checks entry.buffered_bytes (length frag_data)
                (replaced_len sequence entry.fragments)) [
                  | none ↦ overflows
                  | some grown ↦ kept record entry {
                    buffered_bytes = grown;
                    fragments = insert sequence frag_data entry.fragments;
                  }
                ]
      ]

-- The frame made of a complete buffer: the target of its first fragment, the flags of the last one.
unfoldable pub assembled : Wire → Frame → List ℕ → Text → Frame
assembled w frame target payload = record {
  magic = frame.magic;
  flags = clear_flag w.flag_fragmented frame.flags;
  length = length payload % 2 ^ 32;
  target = target;
  crc32 = w.crc32_hash payload;
  payload = payload;
  mac = none;
}

unfoldable pub deliver_if_complete : Wire → Bool → Frame → ℕ → Streams → ReassemblyBuf → Turn
deliver_if_complete w router_open frame stream_id streams entry =
    if is_complete entry
    then elim (get stream_id streams) [
      | none ↦ panics
      | some buf ↦ elim (reassemble buf) [
        | none ↦ panics
        | some payload ↦
            hand_over router_open (remove stream_id streams) (assembled w frame buf.target payload)
      ]
    ]
    else goes_on streams []

unfoldable pub after_buffering : Wire → Bool → Frame → ℕ → Streams → Buffered → Turn
after_buffering w router_open frame stream_id streams overflows = panics
after_buffering w router_open frame stream_id streams oversized = ends []
after_buffering w router_open frame stream_id streams (kept entry) =
    deliver_if_complete w router_open frame stream_id (insert stream_id entry streams) entry

unfoldable pub take_fragment :
    Wire → FrameCodec → ReadLimits → Bool → Instant → Frame → Streams → Turn
unfolding refuses stream_entry buffer_fragment after_buffering
take_fragment w codec limits router_open now frame streams =
    elim (codec.parse_frag_header frame.payload) [
      | none ↦ ends []
      | some h ↦
          if refuses limits h streams
          then ends []
          else elim (slice_from codec.frag_header_size frame.payload) [
            | none ↦ panics
            | some frag_data ↦ after_buffering w router_open frame h.stream_id streams (
                buffer_fragment limits codec h.sequence frag_data
                  (stream_entry now frame h streams))
          ]
    ]

unfoldable pub take_frame :
    Wire → FrameCodec → ReadLimits → Option (List ℕ) → Bool → Instant → Frame → Streams → Turn
unfolding mac_error send_error take_fragment
take_frame w codec limits key router_open now frame streams = elim (mac_error w codec key frame) [
  | some code ↦ ends (send_error w code)
  | none ↦
      let recent : Streams = prune_stale_reassembly now limits.fragment_timeout streams in
      if has_flag w.flag_fragmented frame.flags
      then take_fragment w codec limits router_open now frame recent
      else hand_over router_open recent frame
]

-- What `read_frame` answers.
pub data Read : Type 0 where
  frame_read : Frame → Read
  frame_crc_mismatch frame_magic_mismatch frame_read_timeout other_read_error : Read
  payload_too_large : ℕ → Read

-- A turn of the loop meets what was read, the key that is installed by then, the time, and whether
-- the router still receives.
pub record Arrival : Type 0 where
  pub read : Read
  pub key : Option (List ℕ)
  pub now : Instant
  pub router_open : Bool

unfoldable pub take_read :
    Wire → FrameCodec → ReadLimits → Option (List ℕ) → Bool → Instant → Read → Streams → Turn
unfolding take_frame
take_read w codec limits key router_open now (frame_read frame) streams =
    take_frame w codec limits key router_open now frame streams
take_read w codec limits key router_open now frame_crc_mismatch streams = ends []
take_read w codec limits key router_open now frame_magic_mismatch streams = ends []
take_read w codec limits key router_open now (payload_too_large n) streams = ends []
take_read w codec limits key router_open now frame_read_timeout streams = ends []
take_read w codec limits key router_open now other_read_error streams = ends []

-- How far the loop has come: still reading, or closed, after which it tells of the disconnect, or
-- panicked; with the frames that the router was given and those the peer was sent.
pub data Progress : Type 0 where
  reading : Streams → List Frame → Progress
  closed : List Frame → List Frame → Progress
  panicked : List Frame → Progress

abbrev after_frames : List Frame → Progress → Progress
after_frames given (reading streams out) = reading streams (given ++ out)
after_frames given (closed out sent) = closed (given ++ out) sent
after_frames given (panicked out) = panicked (given ++ out)

unfoldable pub read_loop : Wire → FrameCodec → ReadLimits → List Arrival → Streams → Progress
unfolding take_read
read_loop w codec limits [] streams = reading streams []
read_loop w codec limits (a ∷ as') streams =
    elim (take_read w codec limits a.key a.router_open a.now a.read streams) [
      | goes_on streams' given ↦ after_frames given (read_loop w codec limits as' streams')
      | ends sent ↦ closed [] sent
      | panics ↦ panicked []
    ]
