-- ===== src/Ipc/Framing.antt =====
-- src/ipc/framing.rs: the frames that the kernel builds.
pub mod Targets
use veyron.Prelude.{
  ℕ, zero, suc, ◌-◌, ◌%◌, ◌^◌, Text, length, Option, none, List, [], ◌∷◌, ◌++◌, some, inl, inr,
  true, false, refl, text_eq, nat_eq, arith, if◌then◌else◌, ==_iff, ==_refl, Option-cases,
  Bool-cases, ◌≡◌, Bool,
}
use veyron.Ipc.Wire.{Wire, Frame}

abbrev frame_magic : ℕ
frame_magic = 0x5652

-- The first bytes of a text, and as many zeros as are asked for.
abbrev pub take : ℕ → Text → Text
take zero s = []
take (suc n) [] = []
take (suc n) (c ∷ s) = c ∷ take n s

abbrev pub zeros : ℕ → Text
zeros zero = []
zeros (suc n) = 0 ∷ zeros n

-- A zero buffer of 32 bytes with the first `min(len, 32)` bytes of the target copied to its front.
pub target_bytes : Text → Text
target_bytes target = take 32 target ++ zeros (32 - length target)

unfoldable pub build_frame : Wire → Text → ℕ → List ℕ → Frame
unfolding target_bytes
build_frame w target flags payload = record {
  magic = frame_magic;
  flags = flags;
  length = length payload % 2 ^ 32;
  target = target_bytes target;
  crc32 = w.crc32_hash payload;
  payload = payload;
  mac = none;
}
