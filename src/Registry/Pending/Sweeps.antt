-- ===== src/Registry/Pending/Sweeps.antt =====
-- What the two sweeps evict and return.
use veyron.Registry.Types.{PendingAction, Instant}
use veyron.Registry.State.{PluginRegistry}
use veyron.Registry.Pending.{
  take_each, with_pending, sweep_expired_actions, sweep_idle_sessions, is_expired, is_idle,
}
use veyron.Prelude.Maps.{
  remove, get-remove, get, Map, keys_where, HasUniqueKeys, contains-keys_where,
}
use veyron.Prelude.{
  contains, List, Bool, retain, Text, ◌≡◌, some, nat_eq, if◌then◌else◌, text_eq, none, ◌∷◌, arith,
  ==_iff, [], inl, inr, true, false, refl, Bool-cases, ap, ==_refl, ℕ, ◌↔◌, ◌⊎◌, ◌≤◌, ◌<◌, map, ◌+◌,
}

-- Evicting keys one by one leaves every other row as it was.
pub take_each_left :
    (keys : List Text) (r : PluginRegistry) (id : Text)
    → get id (take_each keys r).1.pending_actions
      ≡ (if contains keys id then none else get id r.pending_actions)
unfolding take_each contains
take_each_left [] r id = refl
take_each_left (k ∷ keys) r id = ground (
  arith,
  take_each_left keys (with_pending r (remove k r.pending_actions)) id,
  get-remove k id r.pending_actions,
  ==_iff k id,
)

-- Every row of the second map is in the first.
abbrev Covers : Map Text PendingAction → Map Text PendingAction → Type 0
Covers m n = (k : Text) (p : PendingAction) → get k n ≡ some p → get k m ≡ some p

Covers-rest :
    (k : Text) (p : PendingAction) (n m : Map Text PendingAction)
    → get k n ≡ none
    → Covers m ((k, p) ∷ n)
    → Covers (remove k m) n
unfolding get
Covers-rest k p n m fresh cover j q h = ground (arith, cover j q, get-remove k j m, ==_iff k j)

Covers-skip :
    (k : Text) (p : PendingAction) (n m : Map Text PendingAction)
    → get k n ≡ none
    → Covers m ((k, p) ∷ n)
    → Covers m n
unfolding get
Covers-skip k p n m fresh cover j q h = ground (arith, cover j q, ==_iff k j)

get_first :
    (k : Text) (p : PendingAction) (n : Map Text PendingAction) → get k ((k, p) ∷ n) ≡ some p
unfolding get
get_first k p n = ground (arith, ==_refl k)

-- The rows that pass the test, in the order of the map.
abbrev pub rows_where :
    (PendingAction → Bool) → Map Text PendingAction → List (Text × PendingAction)
rows_where test = retain (λ row. test row.1)

taken_first :
    (k : Text) (p : PendingAction) (keys : List Text) (r : PluginRegistry)
    (rows : List (Text × PendingAction))
    → get k r.pending_actions ≡ some p
    → (take_each keys (with_pending r (remove k r.pending_actions))).0 ≡ rows
    → (take_each (k ∷ keys) r).0 ≡ (k, p) ∷ rows
unfolding take_each
taken_first k p keys r rows first rest = ground arith

take_each_rows :
    (test : PendingAction → Bool) (n : Map Text PendingAction) (r : PluginRegistry)
    → HasUniqueKeys n
    → Covers r.pending_actions n
    → (take_each (keys_where test n) r).0 ≡ rows_where test n
unfolding take_each keys_where retain
take_each_rows test [] r u cover = refl
take_each_rows test ((k, p) ∷ n) r u cover = elim (Bool-cases (test p)) [
  | inl hit ↦
      let first : get k r.pending_actions ≡ some p = cover k p (get_first k p n) in
      rw hit (
        taken_first k p (keys_where test n) r _ first (
          take_each_rows test n (with_pending r (remove k r.pending_actions)) u.1
            (Covers-rest k p n r.pending_actions u.0 cover)))
  | inr miss ↦ rw miss (take_each_rows test n r u.1 (Covers-skip k p n r.pending_actions u.0 cover))
]

-- The expiry sweep keeps exactly the actions that are accepted sessions or whose deadline lies
-- ahead, as they were, and returns the others in the order of the map.
pub sweep_expired_actions_exact :
    (r : PluginRegistry) (now : Instant)
    → HasUniqueKeys r.pending_actions
    → ((id : Text) (p : PendingAction)
        → (get id (sweep_expired_actions now r).1.pending_actions ≡ some p) ↔ (
            (get id r.pending_actions ≡ some p)
            × ((p.session_accepted ≡ true) ⊎ (now < p.deadline))))
      × ((sweep_expired_actions now r).0
          ≡ map (λ row. row.1) (rows_where (is_expired now) r.pending_actions))
unfolding sweep_expired_actions is_expired
sweep_expired_actions_exact r now u = (
  λ id p. (
    λ e. ground (
      arith,
      take_each_left (keys_where (is_expired now) r.pending_actions) r id,
      contains-keys_where (is_expired now) r.pending_actions id u,
    ),
    λ e. ground (
      arith,
      take_each_left (keys_where (is_expired now) r.pending_actions) r id,
      contains-keys_where (is_expired now) r.pending_actions id u,
    ),
  ),
  ap (map (λ row. row.1)) (take_each_rows (is_expired now) r.pending_actions r u (λ k p h. h)),
)

-- The idle sweep keeps exactly the actions that are not yet accepted or saw a chunk within the
-- timeout, as they were, and returns the others with their ids, in the order of the map.
pub sweep_idle_sessions_exact :
    (r : PluginRegistry) (now : Instant) (idle_timeout : ℕ)
    → HasUniqueKeys r.pending_actions
    → ((id : Text) (p : PendingAction)
        → (get id (sweep_idle_sessions now idle_timeout r).1.pending_actions ≡ some p) ↔ (
            (get id r.pending_actions ≡ some p)
            × ((p.session_accepted ≡ false) ⊎ (now ≤ p.last_activity + idle_timeout))))
      × ((sweep_idle_sessions now idle_timeout r).0
          ≡ rows_where (is_idle now idle_timeout) r.pending_actions)
unfolding sweep_idle_sessions is_idle
sweep_idle_sessions_exact r now idle_timeout u = (
  λ id p. (
    λ e. ground (
      arith,
      take_each_left (keys_where (is_idle now idle_timeout) r.pending_actions) r id,
      contains-keys_where (is_idle now idle_timeout) r.pending_actions id u,
    ),
    λ e. ground (
      arith,
      take_each_left (keys_where (is_idle now idle_timeout) r.pending_actions) r id,
      contains-keys_where (is_idle now idle_timeout) r.pending_actions id u,
    ),
  ),
  take_each_rows (is_idle now idle_timeout) r.pending_actions r u (λ k p h. h),
)
