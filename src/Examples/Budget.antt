-- ===== src/Examples/Budget.antt =====
-- A connection that makes three errors, another one between them, under a budget of three.
use veyron.Registry.Types.{Instant}
use veyron.Prelude.Maps.{get}
use veyron.Ipc.Router.Budget.Bursts.{turns_of, in_burst, burst_throttles}
use veyron.Ipc.Router.Budget.{admit, Turn, is_throttle_exempt, settle_each, throttled}
use veyron.Prelude.{
  nat_eq, text_eq, refl, [], ◌∷◌, none, some, true, false, arith, ◌≡◌, List, Bool, ℕ, all,
}
use veyron.Examples.Data.{alice}
use veyron.Examples.Ipc.{wire, frame}
use veyron.Ipc.Wire.{Wire}

abbrev turn : ℕ → Bool → ℕ → Turn
turn conn_id errored now = record { conn_id = conn_id; errored = errored; now = now }

abbrev turns : List Turn
turns = turn 2 true 1000 ∷ turn 2 true 1001 ∷ turn 1 false 1002 ∷ turn 2 true 1003 ∷ []

abbrev addressed : Wire
addressed = record wire { target_as_str = λ f. some alice; decode = λ bs. none }

is_burst : all (in_burst 2 1000) turns ≡ true
unfolding all
is_burst = refl

three : turns_of 2 turns ≡ 3
unfolding turns_of
three = refl

not_exempt : is_throttle_exempt addressed frame ≡ false
unfolding is_throttle_exempt
not_exempt = refl

unknown : get {K = ℕ} {V = ℕ × Instant} 2 [] ≡ none
unfolding get
unknown = refl

burst_throttles_example : admit addressed 3 false 2 frame (settle_each 1 turns []) ≡ throttled
burst_throttles_example =
    burst_throttles addressed 3 1 2 1000 frame alice turns [] unknown is_burst
      (omega (arith, three)) (omega (arith, three)) refl not_exempt
