-- ===== src/Registry/Pending.antt =====
-- The actions in flight: a request that the kernel routed and whose reply it awaits.
pub mod Sweeps
pub mod Replies
use veyron.Prelude.{
  ℕ, Text, text_eq, ◌==◌, leb, ltb, Bool, true, not, ◌&&◌, Option, none, some, List, [], ◌∷◌, map,
  length, ◌-◌, ◌%◌, ◌^◌, if◌then◌else◌,
}
use veyron.Prelude.Maps.{Map, get, insert, remove, modify, keys_where, find_key}
use veyron.Registry.Types.{Instant, PendingAction}
use veyron.Registry.State.{PluginRegistry}

abbrev Pendings : Type 0
Pendings = Map Text PendingAction

abbrev pub with_pending : PluginRegistry → Map Text PendingAction → PluginRegistry
with_pending r m = record r { pending_actions = m }

unfoldable pub register_pending_action : Text → PendingAction → PluginRegistry → PluginRegistry
register_pending_action internal_id pending r =
    with_pending r (insert internal_id pending r.pending_actions)

unfoldable pub take_pending_action : Text → PluginRegistry → Option PendingAction × PluginRegistry
take_pending_action internal_id r =
    (get internal_id r.pending_actions, with_pending r (remove internal_id r.pending_actions))

unfoldable take_pending_action_if_provider :
    Text → Text → PluginRegistry → Option PendingAction × PluginRegistry
take_pending_action_if_provider internal_id provider_id r =
    elim (get internal_id r.pending_actions) [
      | none ↦ (none, r)
      | some pending ↦
          if pending.provider_id == provider_id
          then (some pending, with_pending r (remove internal_id r.pending_actions))
          else (none, r)
    ]

unfoldable pub resolve_action_response :
    Text → Text → Bool → Instant → PluginRegistry → Option PendingAction × PluginRegistry
resolve_action_response internal_id provider_id status_ok now r =
    elim (get internal_id r.pending_actions) [
      | none ↦ (none, r)
      | some pending ↦
          if not (pending.provider_id == provider_id)
          then (none, r)
          else if status_ok && pending.streaming
          then (let accepted : PendingAction = record pending {
            session_accepted = true;
            last_activity = now;
          } in
              (some accepted, with_pending r (insert internal_id accepted r.pending_actions)))
          else (some pending, with_pending r (remove internal_id r.pending_actions))
    ]

unfoldable pub touch_pending_action : Text → Instant → PluginRegistry → PluginRegistry
touch_pending_action internal_id now r =
    with_pending r (modify internal_id (λ p. record p { last_activity = now }) r.pending_actions)

-- `keys.into_iter().filter_map(|k| self.take_pending_action(&k).map(|p| (k, p))).collect()`
pub take_each : List Text → PluginRegistry → List (Text × PendingAction) × PluginRegistry
unfolding take_pending_action
take_each [] r = ([], r)
take_each (k ∷ keys) r =
    let (taken, r') = take_pending_action k r in
    let (rest, r'') = take_each keys r' in
    elim taken [ none ↦ (rest, r'') | some p ↦ ((k, p) ∷ rest, r'') ]

-- `Instant::duration_since` is zero where the other instant is later.
pub is_idle : Instant → ℕ → PendingAction → Bool
is_idle now idle_timeout p = p.session_accepted && ltb idle_timeout (now - p.last_activity)

pub is_expired : Instant → PendingAction → Bool
is_expired now p = not p.session_accepted && leb p.deadline now

pub sweep_idle_sessions :
    Instant → ℕ → PluginRegistry → List (Text × PendingAction) × PluginRegistry
sweep_idle_sessions now idle_timeout r =
    take_each (keys_where (is_idle now idle_timeout) r.pending_actions) r

pub sweep_expired_actions : Instant → PluginRegistry → List PendingAction × PluginRegistry
sweep_expired_actions now r =
    let (taken, r') = take_each (keys_where (is_expired now) r.pending_actions) r in
    (map (λ t. t.1) taken, r')

-- `as u32`
unfoldable pub count_pending_actions_for : Text → Text → PluginRegistry → ℕ
count_pending_actions_for requester_id provider_id r =
    length (
      keys_where (λ e. e.requester_id == requester_id && e.provider_id == provider_id)
        r.pending_actions)
    % 2 ^ 32

abbrev pub get_pending_action : Text → PluginRegistry → Option PendingAction
get_pending_action internal_id r = get internal_id r.pending_actions

unfoldable pub find_pending_internal_id : Text → Text → PluginRegistry → Option Text
find_pending_internal_id requester_id original_action_id r =
    find_key (λ e. e.requester_id == requester_id && e.original_action_id == original_action_id)
      r.pending_actions
