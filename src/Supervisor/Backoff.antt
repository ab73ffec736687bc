-- ===== src/Supervisor/Backoff.antt =====
-- The restart delay: `base * 2^count`, held below a ceiling.
use veyron.Prelude.{text_eq, nat_eq, arith, ℕ, ◌≤◌, ◌*◌, ◌^◌, ◌<◌, ◌≡◌}
use native.Mathlib.Nat.{pow-le-pow_right, mul-le-mul_left}
use veyron.Supervisor.State.{PluginSupervisor, backoff_delay, saturating_mul, least}

least-le-least : (n m k : ℕ) → n ≤ m → least n k ≤ least m k
least-le-least n m k h = ground arith

saturating_mul_mono : (a b c : ℕ) → b ≤ c → saturating_mul a b ≤ saturating_mul a c
saturating_mul_mono a b c h = ground (arith, mul-le-mul_left a h)

unsaturated : (a b max : ℕ) → a * b < 2 ^ 64 → a * b ≤ max → least (saturating_mul a b) max ≡ a * b
unsaturated a b max word below = ground arith

-- The delay never falls as the count of restarts grows, never passes the ceiling, and is the
-- doubled base itself for up to eight restarts, as long as that stays below the ceiling and in a
-- 64-bit word.
pub backoff_delay_exact :
    (n m : ℕ) (s : PluginSupervisor)
    → n ≤ m
    → (backoff_delay n s ≤ backoff_delay m s)
      × (backoff_delay m s ≤ s.backoff_max_ms)
      × (n ≤ 8
          → s.backoff_base_ms * 2 ^ n < 2 ^ 64
          → s.backoff_base_ms * 2 ^ n ≤ s.backoff_max_ms
          → backoff_delay n s ≡ s.backoff_base_ms * 2 ^ n)
unfolding backoff_delay
backoff_delay_exact n m s h = (
  least-le-least _ _ s.backoff_max_ms (
      saturating_mul_mono s.backoff_base_ms _ _
        (pow-le-pow_right (omega arith) (least-le-least n m 8 h))),
  ground arith,
  λ small word below.
      let same : least n 8 ≡ n = ground arith in
      rw same (unsaturated s.backoff_base_ms (2 ^ n) s.backoff_max_ms word below),
)
