-- ===== src/Ipc/Connection/RoundTrip.antt =====
-- A message that comes in fragments, in any order, is put together again.
use veyron.Ipc.Connection.Turns.{deliver_if_complete_exact}
use veyron.Prelude.{
  ◌∙◌, ◌==◌, [], ◌∷◌, none, some, inl, inr, true, false, text_eq, nat_eq, arith, if◌then◌else◌,
  ==_iff, Bool-cases, ◌≡◌, suc, List, Text, ℕ, sym, refl, ==_refl, Distinct, ap, map,
}
use veyron.Ipc.Connection.Bounds.{
  IsBuffering, HasRoom, get-prune_none, get-prune, length-prune-le, prune-IsBuffering,
  insert-IsBuffering,
}
use veyron.Ipc.Router.Forward.{has_flag}
use veyron.Prelude.{
  [], ◌∷◌, none, some, inl, inr, true, false, text_eq, nat_eq, arith, if◌then◌else◌, ==_iff,
  Bool-cases, ◌≡◌, suc, List, Text, ℕ, ◌<◌, ◌-◌, ◌^◌, contains, length, ◌+◌, ◌≤◌,
}
use veyron.Registry.Types.{Instant}
use veyron.Prelude.Maps.{get, insert, remove, get-remove, get-insert}
use veyron.Ipc.Wire.{Wire, Frame}
use veyron.Ipc.Reassembly.{ReassemblyBuf, Streams, prune_stale_reassembly, is_complete}
use veyron.Ipc.Reassembly.Ordered.{joined, Below}
use veyron.Ipc.Connection.{
  FrameCodec, FragmentHeader, ReadLimits, Arrival, frame_read, mac_error, slice_from, take_fragment,
  take_frame, take_read, goes_on, assembled, stream_entry, refuses, buffer_fragment,
  after_buffering, kept, read_loop, reading,
}
use veyron.Ipc.Connection.Buffers.{
  IsBuffer, with_fragment, part_of, buffer_fragment_exact, with_fragment-IsBuffer,
}
use veyron.Ipc.Connection.Collected.{
  IsCollected, with_fragment-IsCollected, joined_collected, bytes_of, NewTo, Distinct-NewTo,
}

module _ (w : Wire) (codec : FrameCodec) (limits : ReadLimits) (i n : ℕ) (t0 : Instant)
    (target : List ℕ) (part : ℕ → Text) (frame : ℕ → Frame) (arrival : ℕ → Arrival) where
  -- The arrival with the number `k` is the `k`-th of `n` fragments of the stream `i`, comes before
  -- the stream is stale, passes the check of its tag, and finds the router receiving.
  pub record IsFragment (k : ℕ) : Type 0 where
    pub is_read : (arrival k).read ≡ frame_read (frame k)
    pub tagged : mac_error w codec (arrival k).key (frame k) ≡ none
    pub receives : (arrival k).router_open ≡ true
    pub flagged : has_flag w.flag_fragmented (frame k).flags ≡ true
    pub header :
        codec.parse_frag_header (frame k).payload
        ≡ some record { stream_id = i; sequence = k; total = n }
    pub carries : slice_from codec.frag_header_size (frame k).payload ≡ some (part k)
    pub in_time : (arrival k).now - t0 < limits.fragment_timeout

  abbrev header_of : ℕ → FragmentHeader
  header_of k = record { stream_id = i; sequence = k; total = n }

  module _ (room : codec.max_payload_size < 2 ^ 62) (done : List ℕ) (k : ℕ) (is_frag : IsFragment k)
      (new_one : contains done k ≡ false) (lt : k < n)
      (size : length (part k) + bytes_of part done ≤ codec.max_payload_size) (s : Streams)
      (h : IsBuffering codec.max_payload_size limits.max_reassembly_streams s) (b : ReassemblyBuf)
      (good : IsBuffer codec.max_payload_size b) (c : IsCollected n part t0 target done b) where
    missing : get k b.fragments ≡ none
    missing = ground (arith, c.holds k, new_one)

    kept_whole : buffer_fragment limits codec k (part k) b ≡ kept (with_fragment k (part k) b)
    kept_whole =
        buffer_fragment_exact limits codec k (part k) b good (omega (arith, size)) room
        ∙ ground (arith, missing, c.bytes_held, size)

    abbrev grown : ReassemblyBuf
    grown = with_fragment k (part k) b

    grown-IsBuffer : IsBuffer codec.max_payload_size grown
    grown-IsBuffer =
        with_fragment-IsBuffer limits codec k (part k) b good (omega (arith, size)) room
          (omega (arith, lt, c.has_total)) (ground (arith, missing, c.bytes_held, size))

    grown-IsCollected : IsCollected n part t0 target (k ∷ done) grown
    grown-IsCollected = with_fragment-IsCollected b c k new_one

    take_fragment_new :
        (free : HasRoom limits.max_reassembly_streams i s)
        → refuses limits (header_of k) s ≡ false
        → stream_entry (arrival k).now (frame k) (header_of k) s ≡ b
        → take_fragment w codec limits true (arrival k).now (frame k) s ≡ (
            if suc (length done) == n
            then goes_on (remove i s) (assembled w (frame k) target (joined part 0 n) ∷ [])
            else goes_on (insert i grown s) [])
    unfolding take_fragment after_buffering
    take_fragment_new free no_refusal entry =
        let there : IsBuffer codec.max_payload_size grown = grown-IsBuffer in
        let exact =
          deliver_if_complete_exact w limits true (frame k) i codec.max_payload_size s h free grown
            there in
        let total : n ≡ b.total = sym c.has_total in
        let count : length grown.fragments ≡ suc (length done) = grown-IsCollected.count in
        rw (take_fragment, is_frag.header, no_refusal, is_frag.carries, entry, kept_whole, exact)
          (elim (Bool-cases (suc (length done) == n)) [
            | inl full ↦
                let joined_lem : joined (part_of grown) 0 grown.total ≡ joined part 0 n =
                  joined_collected codec.max_payload_size grown grown-IsCollected there
                    ((==_iff (suc (length done)) n).0 full) in
                ground (arith, count, c.has_total, c.has_target, joined_lem, full)
            | inr part' ↦ ground (arith, count, c.has_total, part')
          ])

    -- The turn of the read loop that takes it.
    read_new :
        (s0 : Streams)
        → prune_stale_reassembly (arrival k).now limits.fragment_timeout s0 ≡ s
        → HasRoom limits.max_reassembly_streams i s
        → refuses limits (header_of k) s ≡ false
        → stream_entry (arrival k).now (frame k) (header_of k) s ≡ b
        → take_read w codec limits
            (arrival k).key
            (arrival k).router_open
            (arrival k).now
            (arrival k).read
            s0
          ≡ (if suc (length done) == n
              then goes_on (remove i s) (assembled w (frame k) target (joined part 0 n) ∷ [])
              else goes_on (insert i grown s) [])
    unfolding take_read take_frame
    read_new s0 pruned free no_refusal entry =
        rw
          (
            take_read, is_frag.is_read, take_frame, is_frag.tagged, is_frag.flagged, pruned,
            is_frag.receives,
          )
          (take_fragment_new free no_refusal entry)

  -- What the loop holds when the `k`-th part comes.
  record IsReady (done : List ℕ) (k : ℕ) (s : Streams) (b : ReassemblyBuf) : Type 0 where
    buffering :
        IsBuffering codec.max_payload_size limits.max_reassembly_streams
          (prune_stale_reassembly (arrival k).now limits.fragment_timeout s)
    free :
        HasRoom limits.max_reassembly_streams i
          (prune_stale_reassembly (arrival k).now limits.fragment_timeout s)
    no_refusal :
        refuses limits
          (header_of k)
          (prune_stale_reassembly (arrival k).now limits.fragment_timeout s)
        ≡ false
    entry :
        stream_entry
          (arrival k).now
          (frame k)
          (header_of k)
          (prune_stale_reassembly (arrival k).now limits.fragment_timeout s)
        ≡ b
    good : IsBuffer codec.max_payload_size b
    collected : IsCollected n part t0 target done b

  IsReady-next :
      (done : List ℕ) (k : ℕ) (s : Streams) (b : ReassemblyBuf)
      → IsFragment k
      → k < n
      → IsBuffering codec.max_payload_size limits.max_reassembly_streams s
      → get i s ≡ some b
      → IsBuffer codec.max_payload_size b
      → IsCollected n part t0 target done b
      → IsReady done k s b
  unfolding refuses stream_entry
  IsReady-next done k s b is_frag lt h there good c =
      let found : get i (prune_stale_reassembly (arrival k).now limits.fragment_timeout s)
          ≡ some b =
        get-prune (arrival k).now limits.fragment_timeout i b s there
          (omega (arith, is_frag.in_time, ap (λ (t : ℕ). (arrival k).now - t) c.has_first_seen)) in
      record {
        buffering =
            prune-IsBuffering codec.max_payload_size limits.max_reassembly_streams s h
              (arrival k).now limits.fragment_timeout;
        free = λ e. ground (arith, found, e);
        no_refusal = rw found (ground (arith, lt, c.has_total));
        entry = rw found refl;
        good = good;
        collected = c;
      }

  IsReady-first :
      (k : ℕ) (s : Streams)
      → (arrival k).now ≡ t0
      → (frame k).target ≡ target
      → k < n
      → IsBuffering codec.max_payload_size limits.max_reassembly_streams s
      → get i s ≡ none
      → length s < limits.max_reassembly_streams
      → IsReady [] k s
          record { fragments = []; total = n; target = target; first_seen = t0; buffered_bytes = 0 }
  unfolding refuses stream_entry contains get
  IsReady-first k s now_lem target_lem lt h fresh few =
      let sp : Streams = prune_stale_reassembly (arrival k).now limits.fragment_timeout s in
      let missing : get i sp ≡ none =
        get-prune_none (arrival k).now limits.fragment_timeout i s fresh in
      let few_lem = length-prune-le (arrival k).now limits.fragment_timeout s in
      record {
        buffering =
            prune-IsBuffering codec.max_payload_size limits.max_reassembly_streams s h
              (arrival k).now limits.fragment_timeout;
        free = λ e. omega (arith, few, few_lem);
        no_refusal = rw missing (ground (arith, lt, few, few_lem));
        entry = rw (missing, now_lem, target_lem) refl;
        good = record { unique = tt; below = tt; counted = refl; within = omega arith };
        collected = record {
          has_total = refl;
          has_first_seen = refl;
          has_target = refl;
          holds = λ j. refl;
          count = refl;
          bytes_held = refl;
        };
      }

  abbrev pub last : ℕ → List ℕ → ℕ
  last k [] = k
  last k (j ∷ js) = last j js

  -- The whole message is handed over once, when its last part has come.
  abbrev pub Delivers : ℕ → List ℕ → Streams → Type 0
  Delivers k ks s =
      (s' : Streams) × (read_loop w codec limits (map arrival (k ∷ ks)) s
        ≡ reading s' (assembled w (frame (last k ks)) target (joined part 0 n) ∷ []))
      × (get i s' ≡ none)

  module _ (room : codec.max_payload_size < 2 ^ 62) (sent : (k : ℕ) → k < n → IsFragment k) where
    collects :
        (ks done : List ℕ) (k : ℕ) (s : Streams) (b : ReassemblyBuf)
        → IsReady done k s b
        → NewTo done (k ∷ ks)
        → Below n (k ∷ ks)
        → suc (length done + length ks) ≡ n
        → bytes_of part (k ∷ ks) + bytes_of part done ≤ codec.max_payload_size
        → Delivers k ks s
    unfolding read_loop
    collects [] done k s b r new_ones below size fits' =
        let sp : Streams = prune_stale_reassembly (arrival k).now limits.fragment_timeout s in
        let e =
          read_new room done k (sent k below.0) new_ones.0 below.0 (omega (arith, fits')) sp
            r.buffering b r.good r.collected s refl r.free r.no_refusal r.entry in
        let full : (suc (length done) == n) ≡ true = ground (arith, size) in
        (remove i sp, rw (read_loop, e, full) refl, get-remove i i sp ∙ ground (arith, ==_refl i))
    collects (j ∷ js) done k s b r new_ones below size fits' =
        let sp : Streams = prune_stale_reassembly (arrival k).now limits.fragment_timeout s in
        let frag : IsFragment k = sent k below.0 in
        let small : length (part k) + bytes_of part done ≤ codec.max_payload_size =
          omega (arith, fits') in
        let e =
          read_new room done k frag new_ones.0 below.0 small sp r.buffering b r.good r.collected s
            refl r.free r.no_refusal r.entry in
        let part' : (suc (length done) == n) ≡ false = ground (arith, size) in
        let b' : ReassemblyBuf = with_fragment k (part k) b in
        let c' =
          grown-IsCollected room done k frag new_ones.0 below.0 small sp r.buffering b r.good
            r.collected in
        let good' =
          grown-IsBuffer room done k frag new_ones.0 below.0 small sp r.buffering b r.good
            r.collected in
        let open' : is_complete b' ≡ false = ground (arith, c'.count, c'.has_total, size) in
        let held =
          insert-IsBuffering codec.max_payload_size limits.max_reassembly_streams sp r.buffering i
            b' r.free good' open' in
        let there : get i (insert i b' sp) ≡ some b' =
          get-insert i i b' sp ∙ ground (arith, ==_refl i) in
        let (s', runs, gone) =
          collects js (k ∷ done) j (insert i b' sp) b'
            (IsReady-next (k ∷ done) j (insert i b' sp) b' (sent j below.1.0) below.1.0 held there
              good' c')
            new_ones.1 below.1 (omega (arith, size)) (omega (arith, fits')) in
        (s', rw (read_loop, e, part', runs) refl, gone)

    -- Let a message come as `n` fragments of one stream in any order, each number once, all before
    -- the stream is stale, together no larger than the largest payload, which is below 2 ^ 62
    -- bytes, on frames that pass the check of their tags and while the router receives; and let
    -- the read loop be within its bounds, hold no fragment of that stream and have room for
    -- another stream. Then the loop goes on and hands over exactly one frame: its payload is the
    -- parts joined in the order of their numbers, its target is that of the first arrival, its
    -- flags are those of the last without the fragment flag; and the loop holds nothing of the
    -- stream any more.
    pub reassembles :
        (k : ℕ) (ks : List ℕ) (s : Streams)
        → (arrival k).now ≡ t0
        → (frame k).target ≡ target
        → Distinct (k ∷ ks)
        → Below n (k ∷ ks)
        → length (k ∷ ks) ≡ n
        → bytes_of part (k ∷ ks) ≤ codec.max_payload_size
        → IsBuffering codec.max_payload_size limits.max_reassembly_streams s
        → get i s ≡ none
        → length s < limits.max_reassembly_streams
        → Delivers k ks s
    unfolding contains
    reassembles k ks s now_lem target_lem distinct below size fits' h fresh few =
        collects ks [] k s
          record { fragments = []; total = n; target = target; first_seen = t0; buffered_bytes = 0 }
          (IsReady-first k s now_lem target_lem below.0 h fresh few)
          (Distinct-NewTo [] (k ∷ ks) distinct (λ j there. refl)) below (omega (arith, size))
          (omega (arith, fits'))
