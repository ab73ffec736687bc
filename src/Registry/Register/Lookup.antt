-- ===== src/Registry/Register/Lookup.antt =====
-- Routing lookups: `find_action_provider` against the plugins that are registered.
use veyron.Prelude.{
  Text, text_eq, ◌==◌, contains, Distinct, length, ◌≤◌, false, none, some, List, ◌≡◌, arith,
  Option-cases, inl, inr, subst, ==_refl,
}
use veyron.Prelude.Maps.{get}
use veyron.Registry.Types.{PluginEntry, ActionLookup, not_found, found, ambiguous}
use veyron.Registry.ActionIndex.Providers.{providers, GoodRows}
use veyron.Registry.State.{PluginRegistry, find_action_provider}
use veyron.Registry.Register.Consistent.{IsConsistent, declares}

-- What an answer says of the registered plugins.
abbrev pub Explains : PluginRegistry → Text → ActionLookup → Type 0
Explains r action not_found = (p : Text) → declares r action p ≡ false
Explains r action (found e) =
    (get e.plugin_id r.by_plugin_id ≡ some e)
    × ((p : Text) → declares r action p ≡ (e.plugin_id == p))
Explains r action (ambiguous ids) =
    (2 ≤ length ids) × Distinct ids × ((p : Text) → declares r action p ≡ contains ids p)

module _ (r : PluginRegistry) (h : IsConsistent r) (action : Text) where
  ambiguous_case :
      (ids : List Text)
      → get action r.ambiguous_actions ≡ some ids
      → Explains r action (ambiguous ids)
  unfolding providers
  ambiguous_case ids e =
      let good : GoodRows (some ids) (get action r.action_index) =
        subst (λ m. GoodRows m (get action r.action_index)) e (h.index action) in
      (good.1, good.2, λ p. ground (arith, h.declared action p))

  none_case :
      get action r.ambiguous_actions ≡ none
      → get action r.action_index ≡ none
      → Explains r action not_found
  unfolding providers contains
  none_case e f p = ground (arith, h.declared action p)

  -- The row of the fast path names a plugin that is there: no row dangles.
  unique_case :
      (q : Text)
      → get action r.ambiguous_actions ≡ none
      → get action r.action_index ≡ some q
      → (e : PluginEntry) × (get q r.by_plugin_id ≡ some e) × Explains r action (found e)
  unfolding providers contains declares
  unique_case q none' row = elim (Option-cases (get q r.by_plugin_id)) [
    | inl gone ↦ absurd (ground (arith, h.declared action q, ==_refl q))
    | inr (e, at) ↦ (
      e,
      at,
      (ground (arith, h.entry_id q e), λ p. ground (arith, h.declared action p, h.entry_id q e)),
    )
  ]

  -- In a consistent registry the answer is "not found" exactly if no registered plugin declares the
  -- action, a plugin exactly if it is the only one that does, and the colliding ids, two at least
  -- and all of those that declare it, otherwise.
  pub find_action_provider_exact : Explains r action (find_action_provider action r)
  unfolding find_action_provider
  find_action_provider_exact = elim (Option-cases (get action r.ambiguous_actions)) [
    | inr (ids, e) ↦ rw (e, find_action_provider) (ambiguous_case ids e)
    | inl e ↦ elim (Option-cases (get action r.action_index)) [
      | inl f ↦ rw (e, f, find_action_provider) (none_case e f)
      | inr (q, f) ↦
          let (entry, at, exact) = unique_case q e f in rw (e, f, at, find_action_provider) exact
    ]
  ]
