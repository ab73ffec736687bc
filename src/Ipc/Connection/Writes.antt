-- ===== src/Ipc/Connection/Writes.antt =====
-- src/ipc/connection.rs: the write loop of a connection.
use veyron.Ipc.Router.Forward.{has_flag}
use veyron.Prelude.{
  [], ◌∷◌, none, some, true, false, refl, text_eq, nat_eq, arith, if◌then◌else◌, ◌≡◌, List, Option,
  Bool, ℕ, ◌++◌, map,
}
use Prim.Native.Nat.{bit_or}
use veyron.Ipc.Wire.{Wire, Frame}
use veyron.Ipc.Channels.{Outbound, out_frame, enable_mac}
use veyron.Ipc.Connection.{FrameCodec, mac_error}

-- What `write_frame_raw` answers.
pub data Written : Type 0 where
  on_socket too_large_to_write write_failed : Written

-- `flags | flag`
abbrev pub set_flag : ℕ → ℕ → ℕ
set_flag flag flags = bit_or flags flag

-- The tag covers the header with the flag set.
unfoldable pub signed : Wire → FrameCodec → List ℕ → Frame → Frame
signed w codec key frame =
    let flagged : Frame = record frame { flags = set_flag w.flag_mac_present frame.flags } in
    record flagged {
      mac = some (codec.compute_tag key (codec.serialize_header flagged) flagged.payload);
    }

abbrev pub outgoing : Wire → FrameCodec → Option (List ℕ) → Frame → Frame
outgoing w codec none frame = frame
outgoing w codec (some key) frame = signed w codec key frame

-- What the loop has done: the frames on the socket, the key in the cell that the read loop looks
-- at, and whether it still takes items.
pub record Writing : Type 0 where
  pub socket : List Frame
  pub cell : Option (List ℕ)
  pub is_open : Bool

abbrev after_frame : Frame → Writing → Writing
after_frame frame r = record r { socket = frame ∷ r.socket }

-- The items that the channel gives, each with what the socket makes of its frame; the key that the
-- loop has, and the one in the cell.
unfoldable pub write_loop :
    Wire → FrameCodec → List (Outbound × Written) → Option (List ℕ) → Option (List ℕ) → Writing
write_loop w codec [] key cell = record { socket = []; cell = cell; is_open = true }
write_loop w codec ((enable_mac k, r) ∷ items) key cell = write_loop w codec items (some k) (some k)
write_loop w codec ((out_frame frame, on_socket) ∷ items) key cell =
    after_frame (outgoing w codec key frame) (write_loop w codec items key cell)
write_loop w codec ((out_frame frame, too_large_to_write) ∷ items) key cell =
    write_loop w codec items key cell
write_loop w codec ((out_frame frame, write_failed) ∷ items) key cell = record {
  socket = [];
  cell = cell;
  is_open = false;
}

-- Frames with what the socket makes of them.
abbrev pub Writes : Type 0
Writes = List (Frame × Written)

abbrev pub items_of : Writes → List (Outbound × Written)
items_of [] = []
items_of ((frame, r) ∷ fs) = (out_frame frame, r) ∷ items_of fs

-- The frames that the socket takes, up to the first failure, and whether there is none.
abbrev pub taken_by_socket : Writes → List Frame
taken_by_socket [] = []
taken_by_socket ((frame, on_socket) ∷ fs) = frame ∷ taken_by_socket fs
taken_by_socket ((frame, too_large_to_write) ∷ fs) = taken_by_socket fs
taken_by_socket ((frame, write_failed) ∷ fs) = []

abbrev pub no_failure : Writes → Bool
no_failure [] = true
no_failure ((frame, on_socket) ∷ fs) = no_failure fs
no_failure ((frame, too_large_to_write) ∷ fs) = no_failure fs
no_failure ((frame, write_failed) ∷ fs) = false

module _ (w : Wire) (codec : FrameCodec) where
  write_loop-items_of :
      (fs : Writes) (key cell : Option (List ℕ))
      → write_loop w codec (items_of fs) key cell ≡ record {
        socket = map (outgoing w codec key) (taken_by_socket fs);
        cell = cell;
        is_open = no_failure fs;
      }
  unfolding write_loop
  write_loop-items_of [] key cell = refl
  write_loop-items_of ((frame, on_socket) ∷ fs) key cell = rw (write_loop-items_of fs key cell) refl
  write_loop-items_of ((frame, too_large_to_write) ∷ fs) key cell = write_loop-items_of fs key cell
  write_loop-items_of ((frame, write_failed) ∷ fs) key cell = refl

  -- On a channel that holds frames, then a key, then frames, whatever the socket makes of each: if no
  -- write before the key fails, the socket has the frames before the key as they were and those after
  -- it signed with the key, less those too large to write and those after a failure, the key is in
  -- the cell, and the loop is open unless a write after the key failed; if a write before the key
  -- fails, the cell stays empty, nothing after the failure is written, and the loop has ended.
  pub write_loop_arms :
      (before after : Writes) (key : List ℕ) (r : Written)
      → write_loop w codec (items_of before ++ (enable_mac key, r) ∷ items_of after) none none ≡ (
          if no_failure before
          then record {
            socket = taken_by_socket before ++ map (signed w codec key) (taken_by_socket after);
            cell = some key;
            is_open = no_failure after;
          }
          else record { socket = taken_by_socket before; cell = none; is_open = false })
  unfolding write_loop
  write_loop_arms [] after key r = write_loop-items_of after (some key) (some key)
  write_loop_arms ((frame, on_socket) ∷ fs) after key r =
      rw (write_loop_arms fs after key r) (ground arith)
  write_loop_arms ((frame, too_large_to_write) ∷ fs) after key r = write_loop_arms fs after key r
  write_loop_arms ((frame, write_failed) ∷ fs) after key r = refl

  -- A frame that the write loop signs passes the read loop's check under the same key, where a tag
  -- that the wire library computes verifies, where a header's bytes do not depend on the tag, and
  -- where setting the tag flag makes it found set.
  pub signed_passes :
      (key : List ℕ) (frame : Frame)
      → ((h p : List ℕ) → codec.verify_tag key h p (codec.compute_tag key h p) ≡ true)
      → ((f : Frame) (m : Option (List ℕ))
          → codec.serialize_header (record f { mac = m }) ≡ codec.serialize_header f)
      → has_flag w.flag_mac_present (set_flag w.flag_mac_present frame.flags) ≡ true
      → mac_error w codec (some key) (signed w codec key frame) ≡ none
  unfolding mac_error signed
  signed_passes key frame verifies unsigned_header sets =
      let flagged : Frame = record frame { flags = set_flag w.flag_mac_present frame.flags } in
      let tag : List ℕ = codec.compute_tag key (codec.serialize_header flagged) frame.payload in
      let covers : codec.serialize_header (record flagged { mac = some tag })
          ≡ codec.serialize_header flagged =
        unsigned_header flagged (some tag) in
      rw (sets, covers, verifies (codec.serialize_header flagged) frame.payload) refl
