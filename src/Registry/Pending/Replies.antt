-- ===== src/Registry/Pending/Replies.antt =====
-- Replies to actions in flight: who may answer, and how often.
use veyron.Registry.Pending.Sweeps.{take_each_left}
use veyron.Registry.Types.{PendingAction, Instant}
use veyron.Prelude.Maps.{get, get-insert, get-modify, get-remove, keys_where}
use veyron.Registry.State.{PluginRegistry}
use veyron.Prelude.{
  [], ◌∷◌, none, some, inl, inr, true, false, text_eq, nat_eq, arith, if◌then◌else◌, Text, List,
  Bool, Option, ◌≡◌, ◌==◌, ◌&&◌, ℕ, ◌≢◌, Option-cases, any, ==_or_not, ==_iff, ==_refl,
}
use veyron.Registry.Pending.{
  resolve_action_response, register_pending_action, take_pending_action, touch_pending_action,
  sweep_expired_actions, sweep_idle_sessions, is_expired, is_idle,
}

-- Which row answers a reply of plugin `q`: the one under that id, if it was routed to `q`.
abbrev pub routed_to : Text → Text → PluginRegistry → Option PendingAction
routed_to id q r = elim (get id r.pending_actions) [
  | none ↦ none
  | some p ↦ if p.provider_id == q then some p else none
]

-- The accepted session that an OK makes of a streaming request.
abbrev pub accepted : Instant → PendingAction → PendingAction
accepted now p = record p { session_accepted = true; last_activity = now }

resolved_others :
    (id q : Text) (status_ok : Bool) (now : Instant) (r : PluginRegistry) (j : Text)
    → j ≢ id
    → get j (resolve_action_response id q status_ok now r).1.pending_actions
      ≡ get j r.pending_actions
unfolding resolve_action_response
resolved_others id q status_ok now r j ne = elim (Option-cases (get id r.pending_actions)) [
  | inl e ↦ ground arith
  | inr (p, e) ↦ ground (
    arith,
    get-insert id j (accepted now p) r.pending_actions,
    get-remove id j r.pending_actions,
    ==_iff id j,
  )
]

-- A reply is taken exactly if the action under its id was routed to the plugin that sends it.
-- It then goes to the requester of that action under the requester's own id; an OK to a streaming
-- request keeps the action as an accepted session, and every other reply ends it. A reply that is
-- not taken changes nothing, and no reply touches another action.
pub resolve_action_response_exact :
    (id q : Text) (status_ok : Bool) (now : Instant) (r : PluginRegistry)
    → let res = resolve_action_response id q status_ok now r in
      ((routed_to id q r ≡ none → (res.0 ≡ none) × (res.1 ≡ r))
        × ((p : PendingAction)
            → routed_to id q r ≡ some p
            → (q' : PendingAction) × (res.0 ≡ some q')
              × (q'.requester_id ≡ p.requester_id)
              × (q'.requester_write_tx ≡ p.requester_write_tx)
              × (q'.original_action_id ≡ p.original_action_id)
              × (get id res.1.pending_actions
                  ≡ (if status_ok && p.streaming then some (accepted now p) else none)))
        × ((j : Text) → j ≢ id → get j res.1.pending_actions ≡ get j r.pending_actions))
unfolding resolve_action_response
resolve_action_response_exact id q status_ok now r = (
  λ h. ground arith,
  λ p h. (
    if status_ok && p.streaming then accepted now p else p,
    ground arith,
    ground arith,
    ground arith,
    ground arith,
    ground (
      arith,
      get-insert id id (accepted now p) r.pending_actions,
      get-remove id id r.pending_actions,
      ==_refl id,
    ),
  ),
  λ j ne. resolved_others id q status_ok now r j ne,
)

-- What may happen to the actions in flight between two replies.
pub data Event : Type 0 where
  reply : Text → Text → Bool → Instant → Event
  request : Text → PendingAction → Event
  chunk : Text → Instant → Event
  end : Text → Event
  expire : Instant → Event
  idle : Instant → ℕ → Event

pub apply : Event → PluginRegistry → PluginRegistry
apply (reply id q status_ok now) r = (resolve_action_response id q status_ok now r).1
apply (request id p) r = register_pending_action id p r
apply (chunk id now) r = touch_pending_action id now r
apply (end id) r = (take_pending_action id r).1
apply (expire now) r = (sweep_expired_actions now r).1
apply (idle now idle_timeout) r = (sweep_idle_sessions now idle_timeout r).1

unfoldable pub run : List Event → PluginRegistry → PluginRegistry
run [] r = r
run (e ∷ es) r = run es (apply e r)

abbrev pub requests : Text → Event → Bool
requests id (request j p) = j == id
requests id _ = false

reply_absent :
    (j q : Text) (b : Bool) (now : Instant) (r : PluginRegistry)
    → get j r.pending_actions ≡ none
    → get j (resolve_action_response j q b now r).1.pending_actions ≡ none
unfolding resolve_action_response
reply_absent j q b now r h = ground arith

-- Nothing but a request brings a row to an id.
apply_absent :
    (id : Text) (e : Event) (r : PluginRegistry)
    → requests id e ≡ false
    → get id r.pending_actions ≡ none
    → get id (apply e r).pending_actions ≡ none
unfolding apply register_pending_action touch_pending_action take_pending_action
    sweep_expired_actions sweep_idle_sessions
apply_absent id (reply j q b now) r n h =
    ground (arith, resolved_others j q b now r id, reply_absent j q b now r, ==_or_not id j)
apply_absent id (request j p) r n h = ground (arith, get-insert j id p r.pending_actions)
apply_absent id (chunk j now) r n h =
    ground (arith, get-modify j id (λ p. record p { last_activity = now }) r.pending_actions)
apply_absent id (end j) r n h = ground (arith, get-remove j id r.pending_actions)
apply_absent id (expire now) r n h =
    ground (arith, take_each_left (keys_where (is_expired now) r.pending_actions) r id)
apply_absent id (idle now t) r n h =
    ground (arith, take_each_left (keys_where (is_idle now t) r.pending_actions) r id)

absent_unanswered :
    (id q : Text) (b : Bool) (now : Instant) (r : PluginRegistry)
    → get id r.pending_actions ≡ none
    → (resolve_action_response id q b now r).0 ≡ none
unfolding resolve_action_response
absent_unanswered id q b now r h = ground arith

run_absent :
    (id : Text) (es : List Event) (r : PluginRegistry)
    → any (requests id) es ≡ false
    → get id r.pending_actions ≡ none
    → get id (run es r).pending_actions ≡ none
unfolding run any
run_absent id [] r n h = h
run_absent id (e ∷ es) r n h =
    run_absent id es (apply e r) (ground arith) (apply_absent id e r (ground arith) h)

-- An action is answered once: after a reply that is taken and does not open a session, no reply
-- under that id is taken from any plugin, whatever replies, chunks, closes and sweeps come in
-- between, until a new request is stored under the id.
pub reply_once :
    (id q q' : Text) (ok' ok'' : Bool) (now later : Instant) (r : PluginRegistry)
    (p : PendingAction) (es : List Event)
    → routed_to id q r ≡ some p
    → (ok' && p.streaming) ≡ false
    → any (requests id) es ≡ false
    → (resolve_action_response id q' ok'' later
        (run es (resolve_action_response id q ok' now r).1)).0
      ≡ none
reply_once id q q' ok' ok'' now later r p es h final quiet =
    let settled : get id (resolve_action_response id q ok' now r).1.pending_actions ≡ none =
      rw final at (((resolve_action_response_exact id q ok' now r).1 p h).5) in
    absent_unanswered id q' ok'' later (run es (resolve_action_response id q ok' now r).1)
      (run_absent id es (resolve_action_response id q ok' now r).1 quiet settled)
