-- ===== src/Examples/Connection.antt =====
-- A message of three fragments that come in the order 1, 2, 0, over frames of at most 100 bytes.
use veyron.Ipc.Connection.Turns.{fits}
use veyron.Ipc.Channels.{out_frame, enable_mac}
use veyron.Ipc.Connection.Turns.{RunsSound}
use veyron.Ipc.Connection.Armed.{AllTagged, read_loop-AllTagged, short_resend}
use veyron.Ipc.Connection.Loop.{ReadsWholeHeaders, read_loop-Sound}
use veyron.Ipc.Connection.Writes.{
  write_loop, signed, on_socket, too_large_to_write, write_failed, write_loop_arms,
}
use veyron.Ipc.Router.Forward.{has_flag}
use veyron.Ipc.Connection.Bounds.{IsBuffering}
use veyron.Prelude.{
  [], ◌∷◌, none, some, true, refl, text_eq, nat_eq, arith, ◌≡◌, List, Option, Text, ℕ, ◌+◌,
  contains, ◌==◌, Distinct, false, all, text_beq,
}
use veyron.Prelude.Maps.{get}
use veyron.Ipc.Wire.{Frame}
use veyron.Ipc.Reassembly.{ReassemblyBuf, Streams, prune_stale_reassembly}
use veyron.Ipc.Connection.{
  FrameCodec, FragmentHeader, ReadLimits, Arrival, frame_read, mac_error, refuses, read_loop,
  take_fragment, panics, reading,
}
use veyron.Ipc.Connection.RoundTrip.{IsFragment, reassembles, Delivers}
use veyron.Examples.Ipc.{wire}
use veyron.Examples.Data.{alice}

abbrev read_header : List ℕ → Option FragmentHeader
read_header [] = none
read_header (i ∷ []) = none
read_header (i ∷ k ∷ []) = none
read_header (i ∷ k ∷ n ∷ bs) = some record { stream_id = i; sequence = k; total = n }

-- A tag is the key itself.
abbrev codec : FrameCodec
codec = record {
  parse_frag_header = read_header;
  frag_header_size = 3;
  max_payload_size = 100;
  serialize_header = λ f. f.target;
  compute_tag = λ key h p. key;
  verify_tag = λ key h p tag. tag == key;
}

abbrev limits : ReadLimits
limits = record { fragment_timeout = 30; max_reassembly_streams = 2; overflow_checks = true }

abbrev part : ℕ → Text
part k = (k + 7) ∷ k ∷ []

abbrev fragment : ℕ → Frame
fragment k = record {
  magic = 1;
  flags = 2;
  length = 5;
  target = alice;
  crc32 = 0;
  payload = 5 ∷ k ∷ 3 ∷ part k;
  mac = none;
}

abbrev arrival : ℕ → Arrival
arrival k = record { read = frame_read (fragment k); key = none; now = 10; router_open = true }

fragments : (k : ℕ) → IsFragment wire codec limits 5 3 10 alice part fragment arrival k
unfolding has_flag mac_error
fragments k = record {
  is_read = refl;
  tagged = refl;
  receives = refl;
  flagged = refl;
  header = refl;
  carries = refl;
  in_time = omega arith;
}

nothing_held : IsBuffering 100 2 []
nothing_held = record { unique = tt; open_all = tt; few = omega arith }

in_any_order : Distinct {A = ℕ} (1 ∷ 2 ∷ 0 ∷ [])
unfolding contains
in_any_order = (refl, (refl, (refl, tt)))

not_there : get {K = ℕ} {V = ReassemblyBuf} 5 [] ≡ none
unfolding get
not_there = refl

reassembles_example :
    Delivers wire codec limits 5 3 10 alice part fragment arrival 1 (2 ∷ 0 ∷ []) []
reassembles_example =
    reassembles wire codec limits 5 3 10 alice part fragment arrival (omega arith)
      (λ k lt. fragments k) 1 (2 ∷ 0 ∷ []) [] refl refl in_any_order (omega arith) (omega arith)
      (omega arith) nothing_held not_there (omega arith)

whole_headers : ReadsWholeHeaders codec
whole_headers (i ∷ k ∷ n ∷ bs) hd e = omega arith
whole_headers (i ∷ k ∷ []) hd e = absurd (cc)
whole_headers (i ∷ []) hd e = absurd (cc)
whole_headers [] hd e = absurd (cc)

abbrev two_arrivals : List Arrival
two_arrivals = arrival 1 ∷ arrival 2 ∷ []

they_fit : all (fits 100) two_arrivals ≡ true
unfolding all
they_fit = refl

read_loop-Sound_example : RunsSound 100 limits (read_loop wire codec limits two_arrivals [])
read_loop-Sound_example =
    read_loop-Sound wire codec limits whole_headers (omega arith) two_arrivals [] nothing_held
      they_fit

abbrev key : List ℕ
key = 9 ∷ []

abbrev tagged_frame : Frame
tagged_frame = record (fragment 0) { flags = 4; mac = some key }

abbrev armed_arrivals : List Arrival
armed_arrivals =
    record { read = frame_read tagged_frame; key = some key; now = 10; router_open = true } ∷ []

armed_run : read_loop wire codec limits armed_arrivals [] ≡ reading [] (tagged_frame ∷ [])
unfolding read_loop has_flag mac_error text_beq prune_stale_reassembly
armed_run = refl

read_loop-AllTagged_example : AllTagged wire codec key armed_arrivals
read_loop-AllTagged_example =
    read_loop-AllTagged wire codec limits key armed_arrivals [] [] (tagged_frame ∷ []) (refl, tt)
      armed_run

-- The stream 5 after its fragment 1.
abbrev one_part : ReassemblyBuf
one_part = record {
  fragments = (1, part 1) ∷ [];
  total = 3;
  target = alice;
  first_seen = 10;
  buffered_bytes = 2;
}

abbrev one_stream : Streams
one_stream = (5, one_part) ∷ []

one_held : IsBuffering 100 2 one_stream
unfolding get
one_held = record {
  unique = (refl, tt);
  open_all = (
    record { unique = (refl, tt); below = (omega arith, tt); counted = refl; within = omega arith },
    refl,
    tt,
  );
  few = omega arith;
}

abbrev short_frame : Frame
short_frame = record (fragment 1) { payload = 5 ∷ 1 ∷ 3 ∷ 8 ∷ [] }

abbrev short_header : FragmentHeader
short_header = record { stream_id = 5; sequence = 1; total = 3 }

not_refused : refuses limits short_header one_stream ≡ false
unfolding refuses get
not_refused = refl

stream_there : get 5 one_stream ≡ some one_part
unfolding get
stream_there = refl

part_there : get 1 one_part.fragments ≡ some (part 1)
unfolding get
part_there = refl

short_resend_example : take_fragment wire codec limits true 11 short_frame one_stream ≡ panics
short_resend_example =
    short_resend wire codec limits true 11 short_frame short_header (8 ∷ []) (part 1) one_part
      one_stream (omega arith) one_held refl not_refused refl stream_there part_there (omega arith)

abbrev plain : Frame
plain = record (fragment 0) { flags = 0 }

abbrev oversized_frame : Frame
oversized_frame = record plain { length = 101 }

write_loop_arms_example :
    write_loop wire codec
      ((out_frame plain, on_socket)
        ∷ (enable_mac key, on_socket)
        ∷ (out_frame oversized_frame, too_large_to_write)
        ∷ (out_frame plain, on_socket)
        ∷ (out_frame plain, write_failed)
        ∷ [])
      none
      none
    ≡ record { socket = plain ∷ signed wire codec key plain ∷ []; cell = some key; is_open = false }
write_loop_arms_example =
    write_loop_arms wire codec ((plain, on_socket) ∷ [])
      ((oversized_frame, too_large_to_write) ∷ (plain, on_socket) ∷ (plain, write_failed) ∷ []) key
      on_socket
