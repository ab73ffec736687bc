-- ===== src/Registry/Register/Consistent.antt =====
-- The maps of the registry agree with one another after every registration and removal.
use veyron.Utils.Errors.{guarded-eq-ok}
use veyron.Prelude.{
  ℕ, Text, text_eq, nat_eq, ◌==◌, ==_iff, contains, Bool, false, none, some, List, ◌≡◌, arith,
  Option-cases, inl, inr, ==_or_not, Bool-cases, ◌≢◌, ◌⊎◌, any, refl, subst,
}
use veyron.Prelude.Maps.{insert, values, get, get-insert, get-remove, remove}
use veyron.Registry.Types.{DeviceMeta, PluginEntry}
use veyron.Registry.ActionIndex.Providers.{providers, IsIndex}
use veyron.Registry.State.{PluginRegistry, new}
use veyron.Registry.Register.{
  commit, mark_offline, remove_rows, unregister, register_with_device, check_slots, ok,
  PluginManifest, Sender, register_device,
}
use veyron.Registry.Register.Index.{
  index_actions-IsIndex, unindex_actions-IsIndex, contains-index_actions, contains-unindex_actions,
}

-- Whether the plugin is registered and its manifest declares the action.
unfoldable pub declares : PluginRegistry → Text → Text → Bool
declares r action p = elim (get p r.by_plugin_id) [
  | none ↦ false
  | some e ↦ contains e.manifest.actions action
]

pub record IsConsistent (r : PluginRegistry) : Type 0 where
  pub entry_id : (p : Text) (e : PluginEntry) → get p r.by_plugin_id ≡ some e → e.plugin_id ≡ p
  pub entry_conn :
      (p : Text) (e : PluginEntry)
      → get p r.by_plugin_id ≡ some e
      → get e.conn_id r.by_conn_id ≡ some p
  pub conn_entry :
      (c : ℕ) (p : Text)
      → get c r.by_conn_id ≡ some p
      → (e : PluginEntry) × (get p r.by_plugin_id ≡ some e) × (e.conn_id ≡ c)
  pub index : IsIndex r.actions
  pub declared : (a p : Text) → contains (providers r.actions a) p ≡ declares r a p

module _ (entry : PluginEntry) (r : PluginRegistry)
    (free_conn : get entry.conn_id r.by_conn_id ≡ none)
    (free_id : get entry.plugin_id r.by_plugin_id ≡ none) (h : IsConsistent r) (meta : DeviceMeta)
    (caps : List Text) (now now_ms : ℕ) where
  inserted_conn :
      (c : ℕ) (p : Text)
      → (entry.conn_id ≡ c) ⊎ (entry.conn_id ≢ c)
      → get c (insert entry.conn_id entry.plugin_id r.by_conn_id) ≡ some p
      → (e : PluginEntry) × (get p (insert entry.plugin_id entry r.by_plugin_id) ≡ some e)
        × (e.conn_id ≡ c)
  inserted_conn c p (inl same) q = (
    entry,
    ground (
      arith,
      get-insert entry.conn_id c entry.plugin_id r.by_conn_id,
      ==_iff entry.conn_id c,
      get-insert entry.plugin_id p entry r.by_plugin_id,
      ==_iff entry.plugin_id p,
    ),
    same,
  )
  inserted_conn c p (inr other) q =
      let old : get c r.by_conn_id ≡ some p =
        ground (
          arith,
          get-insert entry.conn_id c entry.plugin_id r.by_conn_id,
          ==_iff entry.conn_id c,
        ) in
      let (e, at, conn) = h.conn_entry c p old in
      (
        e,
        ground (arith, get-insert entry.plugin_id p entry r.by_plugin_id, ==_iff entry.plugin_id p),
        conn,
      )

  commit-IsConsistent : IsConsistent (commit entry meta caps now now_ms r)
  unfolding commit declares
  commit-IsConsistent = record {
    entry_id = λ p e q. ground (
      arith,
      get-insert entry.plugin_id p entry r.by_plugin_id,
      ==_iff entry.plugin_id p,
      h.entry_id p e,
    );
    entry_conn = λ p e q. ground (
      arith,
      get-insert entry.plugin_id p entry r.by_plugin_id,
      ==_iff entry.plugin_id p,
      get-insert entry.conn_id e.conn_id entry.plugin_id r.by_conn_id,
      ==_iff entry.conn_id e.conn_id,
      h.entry_conn p e,
    );
    conn_entry = λ c p q. inserted_conn c p (==_or_not entry.conn_id c) q;
    index = index_actions-IsIndex entry.manifest.actions entry.plugin_id r.actions h.index;
    declared = λ a p. ground (
      arith,
      contains-index_actions entry.manifest.actions entry.plugin_id r.actions a p h.index,
      h.declared a p,
      get-insert entry.plugin_id p entry r.by_plugin_id,
      ==_iff entry.plugin_id p,
    );
  }

-- A removal takes away the rows of one registered plugin.
module _ (plugin_id : Text) (entry : PluginEntry) (r : PluginRegistry)
    (present : get plugin_id r.by_plugin_id ≡ some entry) (h : IsConsistent r) where
  other_id :
      (c : ℕ) (p : Text) (e : PluginEntry)
      → get p r.by_plugin_id ≡ some e
      → e.conn_id ≡ c
      → entry.conn_id ≢ c
      → plugin_id ≢ p
  other_id c p e q k ne same = ne (cc)

  kept_conn :
      (c : ℕ) (p : Text)
      → get c (remove entry.conn_id r.by_conn_id) ≡ some p
      → (e : PluginEntry) × (get p (remove plugin_id r.by_plugin_id) ≡ some e) × (e.conn_id ≡ c)
  kept_conn c p q =
      let old : get c r.by_conn_id ≡ some p =
        ground (arith, get-remove entry.conn_id c r.by_conn_id) in
      let other : entry.conn_id ≢ c =
        λ same. ground (arith, get-remove entry.conn_id c r.by_conn_id, ==_iff entry.conn_id c) in
      let (e, at, conn) = h.conn_entry c p old in
      (
        e,
        ground (
          arith,
          get-remove plugin_id p r.by_plugin_id,
          ==_iff plugin_id p,
          other_id c p e at conn other,
        ),
        conn,
      )

  remove_rows-IsConsistent : IsConsistent (remove_rows plugin_id entry r)
  unfolding remove_rows declares
  remove_rows-IsConsistent = record {
    entry_id = λ p e q. ground (arith, get-remove plugin_id p r.by_plugin_id, h.entry_id p e);
    entry_conn = λ p e q. ground (
      arith,
      get-remove plugin_id p r.by_plugin_id,
      ==_iff plugin_id p,
      get-remove entry.conn_id e.conn_id r.by_conn_id,
      ==_iff entry.conn_id e.conn_id,
      h.entry_conn p e,
      h.entry_conn plugin_id entry present,
    );
    conn_entry = λ c p q. kept_conn c p q;
    index = unindex_actions-IsIndex entry.manifest.actions plugin_id r.actions h.index;
    declared = λ a p. ground (
      arith,
      contains-unindex_actions entry.manifest.actions plugin_id r.actions a p h.index,
      h.declared a p,
      get-remove plugin_id p r.by_plugin_id,
      ==_iff plugin_id p,
    );
  }

mark_offline-IsConsistent :
    (d : Text) (r : PluginRegistry) → IsConsistent r → IsConsistent (mark_offline d r)
unfolding mark_offline declares
mark_offline-IsConsistent d r h =
    elim (Bool-cases (any (λ e. e.device_id == d) (values r.by_plugin_id))) [
      | inl e ↦ rw (e, mark_offline) h
      | inr e ↦
          rw (e, mark_offline)
            (record {
              entry_id = h.entry_id;
              entry_conn = h.entry_conn;
              conn_entry = h.conn_entry;
              index = h.index;
              declared = h.declared;
            })
    ]

-- A removal keeps the registry consistent.
pub unregister-IsConsistent :
    (plugin_id : Text) (r : PluginRegistry) → IsConsistent r → IsConsistent (unregister plugin_id r)
unfolding unregister
unregister-IsConsistent plugin_id r h = elim (Option-cases (get plugin_id r.by_plugin_id)) [
  | inl e ↦ rw (e, unregister) h
  | inr (entry, e) ↦
      rw (e, unregister)
        (mark_offline-IsConsistent entry.device_id _
          (remove_rows-IsConsistent plugin_id entry r e h))
]

pub check_slots_free :
    (p : Text) (c : ℕ) (r : PluginRegistry)
    → check_slots p c r ≡ ok tt
    → (get c r.by_conn_id ≡ none) × (get p r.by_plugin_id ≡ none)
unfolding check_slots
check_slots_free p c r h = ground arith

-- A registration that succeeds keeps the registry consistent.
pub register_with_device-IsConsistent :
    (p : Text) (c : ℕ) (m : PluginManifest) (tx : Sender) (meta : DeviceMeta) (now now_ms : ℕ)
    (r r' : PluginRegistry)
    → IsConsistent r
    → register_with_device p c m tx meta now now_ms r ≡ ok r'
    → IsConsistent r'
unfolding register_with_device
register_with_device-IsConsistent p c m tx meta now now_ms r r' h e =
    let (checked, made) = guarded-eq-ok (check_slots p c r) _ e in
    let (free_conn, free_id) = check_slots_free p c r checked in
    subst IsConsistent made
      (commit-IsConsistent _ r free_conn free_id h meta meta.capabilities now now_ms)

-- So does the registration of a device that serves its capabilities over one connection.
pub register_device-IsConsistent :
    (d : Text) (c : ℕ) (caps : List Text) (m : PluginManifest) (tx : Sender) (meta : DeviceMeta)
    (now now_ms : ℕ) (r r' : PluginRegistry)
    → IsConsistent r
    → register_device d c caps m tx meta now now_ms r ≡ ok r'
    → IsConsistent r'
unfolding register_device
register_device-IsConsistent d c caps m tx meta now now_ms r r' h e =
    let (checked, made) = guarded-eq-ok (check_slots d c r) _ e in
    let (free_conn, free_id) = check_slots_free d c r checked in
    subst IsConsistent made (commit-IsConsistent _ r free_conn free_id h meta caps now now_ms)

pub new-IsConsistent : IsConsistent new
unfolding get declares providers contains
new-IsConsistent = record {
  entry_id = λ p e h. cc;
  entry_conn = λ p e h. cc;
  conn_entry = λ c p h. absurd (ground arith);
  index = λ a. tt;
  declared = λ a p. refl;
}
