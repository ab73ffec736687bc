-- ===== src/Examples/Pending.antt =====
-- Actions in flight: one that a reply settles, and a streaming one whose requester went quiet.
use veyron.Registry.Types.{PendingAction}
use veyron.Registry.Pending.Sweeps.{sweep_expired_actions_exact, rows_where}
use veyron.Registry.Pending.{resolve_action_response, sweep_expired_actions, is_expired}
use veyron.Prelude.{
  bytes, text_eq, nat_eq, ◌≡◌, refl, [], ◌∷◌, none, some, true, false, if◌then◌else◌, Bool, Text,
  text_beq, any, ◌&&◌, ◌↔◌, ◌⊎◌, ◌≢◌, ◌<◌, map,
}
use veyron.Prelude.Maps.{get, HasUniqueKeys}
use veyron.Registry.State.{PluginRegistry}
use veyron.Registry.Pending.Replies.{
  chunk, expire, resolve_action_response_exact, routed_to, run, reply_once, accepted, requests,
}
use veyron.Examples.Data.{alice, bob, alice_registry}

abbrev pub pending : Bool → Bool → PendingAction
pending streaming session_accepted = record {
  requester_write_tx = 20;
  original_action_id = bytes "b-1";
  requester_id = bob;
  deadline = 100;
  provider_id = alice;
  streaming = streaming;
  session_accepted = session_accepted;
  last_activity = 10;
}

abbrev pub k0 : Text
k0 = bytes "k-0"

abbrev pub in_flight : PluginRegistry
in_flight = record alice_registry {
  pending_actions = (k0, pending false false) ∷ (bytes "k-1", pending true true) ∷ [];
}

pub in_flight-HasUniqueKeys : HasUniqueKeys in_flight.pending_actions
unfolding get text_beq
in_flight-HasUniqueKeys = (refl, (refl, tt))

resolve_action_response_exact_example :
    let res = resolve_action_response k0 alice true 20 in_flight in
    ((routed_to k0 alice in_flight ≡ none → (res.0 ≡ none) × (res.1 ≡ in_flight))
      × ((p : PendingAction)
          → routed_to k0 alice in_flight ≡ some p
          → (q' : PendingAction) × (res.0 ≡ some q')
            × (q'.requester_id ≡ p.requester_id)
            × (q'.requester_write_tx ≡ p.requester_write_tx)
            × (q'.original_action_id ≡ p.original_action_id)
            × (get k0 res.1.pending_actions
                ≡ (if true && p.streaming then some (accepted 20 p) else none)))
      × ((j : Text) → j ≢ k0 → get j res.1.pending_actions ≡ get j in_flight.pending_actions))
resolve_action_response_exact_example = resolve_action_response_exact k0 alice true 20 in_flight

routed : routed_to k0 alice in_flight ≡ some (pending false false)
unfolding get text_beq
routed = refl

quiet : any (requests k0) (chunk k0 30 ∷ expire 40 ∷ []) ≡ false
unfolding any
quiet = refl

reply_once_example :
    (resolve_action_response k0 bob true 60
      (run (chunk k0 30 ∷ expire 40 ∷ []) (resolve_action_response k0 alice true 20 in_flight).1)).0
    ≡ none
reply_once_example =
    reply_once k0 alice bob true true 20 60 in_flight (pending false false)
      (chunk k0 30 ∷ expire 40 ∷ []) routed refl quiet

sweep_expired_actions_exact_example :
    ((id : Text) (p : PendingAction)
      → (get id (sweep_expired_actions 100 in_flight).1.pending_actions ≡ some p) ↔ (
          (get id in_flight.pending_actions ≡ some p)
          × ((p.session_accepted ≡ true) ⊎ (100 < p.deadline))))
    × ((sweep_expired_actions 100 in_flight).0
        ≡ map (λ row. row.1) (rows_where (is_expired 100) in_flight.pending_actions))
sweep_expired_actions_exact_example =
    sweep_expired_actions_exact in_flight 100 in_flight-HasUniqueKeys
