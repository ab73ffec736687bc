-- ===== src/Utils/Errors.antt =====
-- src/utils/errors.rs: the kernel's error values, what they print as, and fallible results.
use veyron.Prelude.{ℕ, Text, bytes, ◌++◌, decimal, ◌≡◌, refl, inl, inr, text_eq, nat_eq, ◌⊎◌}

-- The payloads of `Io` and `Proto` belong to other libraries: their printed text stands for them.
pub data VynkorError : Type 0 where
  io : Text → VynkorError
  proto : Text → VynkorError
  frame_magic_mismatch : VynkorError
  frame_crc_mismatch : VynkorError
  frame_read_timeout : VynkorError
  payload_too_large : ℕ → VynkorError
  plugin_not_found : Text → VynkorError
  plugin_already_running : Text → VynkorError
  plugin_already_registered : Text → VynkorError
  invalid_plugin_id : Text → VynkorError
  permission_denied : Text → VynkorError
  auth : Text → VynkorError
  timeout : VynkorError
  internal : Text → VynkorError
  incompatible : Text → VynkorError
  network_error : Text → VynkorError
  cache_error : Text → VynkorError

pub data Result (A : Type 0) : Type 0 where
  ok : A → Result A
  err : VynkorError → Result A

infixl 5 ◌>>=◌ ◌>>◌
abbrev ◌>>=◌ : {A B : Type 0} → Result A → (A → Result B) → Result B
ok a >>= f = f a
err e >>= f = err e

abbrev pub ◌>>◌ : {B : Type 0} → Result (Unit {0}) → Result B → Result B
m >> k = m >>= λ _. k

-- `Display for VynkorError`
unfoldable pub display : VynkorError → Text
display (io e) = bytes "io error: " ++ e
display (proto e) = bytes "proto decode error: " ++ e
display frame_magic_mismatch = bytes "frame magic mismatch"
display frame_crc_mismatch = bytes "frame crc mismatch"
display frame_read_timeout = bytes "timed out reading frame body"
display (payload_too_large n) = bytes "payload too large: " ++ (decimal n ++ bytes " bytes")
display (plugin_not_found id) = bytes "plugin not found: " ++ id
display (plugin_already_running id) = bytes "plugin already running: " ++ id
display (plugin_already_registered id) = bytes "plugin already registered: " ++ id
display (invalid_plugin_id reason) = bytes "invalid plugin id: " ++ reason
display (permission_denied perm) = bytes "permission denied: " ++ perm
display (auth msg) = bytes "auth error: " ++ msg
display timeout = bytes "operation timed out"
display (internal msg) = bytes "internal error: " ++ msg
display (incompatible msg) = bytes "incompatible: " ++ msg
display (network_error msg) = bytes "network error: " ++ msg
display (cache_error msg) = bytes "cache error: " ++ msg

-- A guarded value: the guard passed, and the value is the result.
pub guarded-eq-ok :
    {A : Type 0} (m : Result (Unit {0})) (a : A) {b : A}
    → (m >> ok a) ≡ ok b
    → (m ≡ ok tt) × (a ≡ b)
guarded-eq-ok (ok u) a h = (refl, cc)
guarded-eq-ok (err e) a h = cc

pub Result-cases :
    {A : Type 0} (m : Result A) → ((a : A) × (m ≡ ok a)) ⊎ ((e : VynkorError) × (m ≡ err e))
Result-cases (ok a) = inl (a, refl)
Result-cases (err e) = inr (e, refl)
