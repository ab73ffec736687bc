-- ===== src/Ipc/Router/Budget.antt =====
-- `MessageRouter::run_with_context`: which messages of a connection are taken, and the budget of
-- protocol errors that it has; with `is_throttle_exempt` of src/ipc/protocol/helpers.rs.
pub mod Bursts
use veyron.Registry.Types.{Instant}
use veyron.Prelude.{
  nat_eq, text_eq, bytes, ltb, leb, [], ◌∷◌, none, some, inl, inr, true, false, refl, arith,
  if◌then◌else◌, ==_iff, ==_refl, Option-cases, Bool-cases, ◌≡◌, zero, suc, List, Option, Bool,
  Text, ℕ, ◌&&◌, ◌*◌, length, ◌-◌, not, ◌+◌, ◌%◌, ◌^◌,
}
use veyron.Prelude.Maps.{Map, get, insert, remove}
use veyron.Ipc.Wire.{
  Wire, Frame, Payload, action_response, action_response_chunk, action_request_chunk, session_close,
  pong,
}

-- Errors in a row, and the time of the last one, of each connection.
abbrev pub ErrorCounts : Type 0
ErrorCounts = Map ℕ (ℕ × Instant)

abbrev pub error_budget_idle_ttl : ℕ
error_budget_idle_ttl = 300 * 1000

abbrev pub count_of : Option (ℕ × Instant) → ℕ
count_of none = 0
count_of (some row) = row.0

abbrev pub errors_of : ℕ → ErrorCounts → ℕ
errors_of conn_id counts = count_of (get conn_id counts)

abbrev is_exempt : Payload → Bool
is_exempt (action_response p) = true
is_exempt (action_response_chunk p) = true
is_exempt (action_request_chunk p) = true
is_exempt (session_close a b) = true
is_exempt (pong a b) = true
is_exempt _ = false

unfoldable pub is_throttle_exempt : Wire → Frame → Bool
is_throttle_exempt w f = elim (w.decode f.payload) [
  | none ↦ false
  | some env ↦ elim env.payload [ none ↦ false | some p ↦ is_exempt p ]
]

-- What becomes of a message before it is routed.
pub data Admission : Type 0 where
  rate_limited bad_target throttled : Admission
  admitted : Text → Admission

-- `limited` is what the rate limiter of the connections answers.
pub admit : Wire → ℕ → Bool → ℕ → Frame → ErrorCounts → Admission
unfolding is_throttle_exempt
admit w max_conn_errors limited conn_id f counts =
    if limited then rate_limited else elim (w.target_as_str f) [
      | none ↦ bad_target
      | some target ↦
          if leb max_conn_errors (errors_of conn_id counts) && not (is_throttle_exempt w f)
          then throttled
          else admitted target
    ]

-- `map.retain(|_, (_, last)| now.duration_since(*last) < TTL)`
pub retain_recent : Instant → ErrorCounts → ErrorCounts
retain_recent now [] = []
retain_recent now ((conn_id, row) ∷ counts) =
    let rest = retain_recent now counts in
    if ltb (now - row.1) error_budget_idle_ttl then (conn_id, row) ∷ rest else rest

-- The end of a turn: an error is counted, anything else clears the count.
pub settle : ℕ → ℕ → Bool → Instant → ErrorCounts → ErrorCounts
unfolding retain_recent
settle max_tracked conn_id errored now counts =
    if errored
    then (let kept = if leb max_tracked (length counts) then retain_recent now counts else counts in
        insert conn_id ((errors_of conn_id kept + 1) % 2 ^ 32, now) kept)
    else remove conn_id counts

-- The turns of the loop whose message was routed.
pub record Turn : Type 0 where
  pub conn_id : ℕ
  pub errored : Bool
  pub now : Instant

pub settle_each : ℕ → List Turn → ErrorCounts → ErrorCounts
settle_each max_tracked [] counts = counts
settle_each max_tracked (t ∷ ts) counts =
    settle_each max_tracked ts (settle max_tracked t.conn_id t.errored t.now counts)
