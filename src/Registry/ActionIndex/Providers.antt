-- ===== src/Registry/ActionIndex/Providers.antt =====
-- The index as what it stands for: for each action, the list of the plugins that declare it.
use veyron.Prelude.{
  ◌≤◌, Text, text_eq, ◌==◌, ==_iff, add, without, contains, Distinct, Distinct-add,
  Distinct-without, length, length-append, length-without-le, Option, none, some, List, [], ◌∷◌,
  ◌≡◌, Bool, true, false, sym, subst, arith, if◌then◌else◌,
}
use veyron.Prelude.Maps.{get}
use veyron.Registry.ActionIndex.{ActionIndex, index_action, sole, unindex_action}
use veyron.Registry.ActionIndex.Slots.{
  Slot, slot, index_slot, drop_slot, unindex_slot, slot-index_action, slot-unindex_action,
}

abbrev slot_providers : Slot → List Text
slot_providers s = elim s.ambiguous [
  | some ids ↦ ids
  | none ↦ elim s.unique [ some p ↦ p ∷ [] | none ↦ [] ]
]

-- The abstract view of the index.
unfoldable pub providers : ActionIndex → Text → List Text
providers ix action = slot_providers (slot action ix)

-- An action is in one table only, and in the ambiguity table with two providers at least.
abbrev pub GoodRows : Option (List Text) → Option Text → Type 0
GoodRows none unique = Unit
GoodRows (some ids) unique = (unique ≡ none) × (2 ≤ length ids) × Distinct ids

abbrev IsGood : Slot → Type 0
IsGood s = GoodRows s.ambiguous s.unique

abbrev pub IsIndex : ActionIndex → Type 0
IsIndex ix = (action : Text) → IsGood (slot action ix)

length-add-le : (p : Text) (ids : List Text) → length ids ≤ length (add p ids)
unfolding add
length-add-le p ids = ground (arith, length-append ids (p ∷ []))

choose_slot : (c : Bool) (s t : Slot) → IsGood s → IsGood t → IsGood (if c then s else t)
choose_slot true s t g h = g
choose_slot false s t g h = h

abbrev rows : Option (List Text) → Option Text → Slot
rows m u = record { ambiguous = m; unique = u }

index_rows-IsGood :
    (p : Text) (m : Option (List Text)) (u : Option Text)
    → GoodRows m u
    → IsGood (index_slot p (rows m u))
unfolding contains
index_rows-IsGood p none none g = tt
index_rows-IsGood p none (some q) g = ground (arith, ==_iff q p, ==_iff p q)
index_rows-IsGood p (some ids) u g =
    (g.0, omega (arith, length-add-le p ids), Distinct-add p ids g.2)

-- What `retain` keeps of the colliding ids, put back into the tables.
abbrev restored : Text → List Text → Option Text → Slot
restored p kept u = elim (sole kept) [
  | some only ↦ rows none (some only)
  | none ↦ drop_slot p (rows (some kept) u)
]

restored-IsGood :
    (p : Text) (kept : List Text) (u : Option Text)
    → u ≡ none
    → 1 ≤ length kept
    → Distinct kept
    → IsGood (restored p kept u)
unfolding sole
restored-IsGood p [] u e h d = absurd (omega arith)
restored-IsGood p (x ∷ []) u e h d = tt
restored-IsGood p (x ∷ y ∷ kept) u e h d = ground arith

unindex_rows-IsGood :
    (p : Text) (m : Option (List Text)) (u : Option Text)
    → GoodRows m u
    → IsGood (unindex_slot p (rows m u))
unindex_rows-IsGood p none none g = tt
unindex_rows-IsGood p none (some q) g = ground arith
unindex_rows-IsGood p (some ids) u g =
    restored-IsGood p (without p ids) u g.0 (omega (arith, length-without-le p ids g.2))
      (Distinct-without p ids g.2)

slot_providers-index :
    (p : Text) (s : Slot) → IsGood s → slot_providers (index_slot p s) ≡ add p (slot_providers s)
unfolding add contains
slot_providers-index p s g = ground arith

slot_providers-unindex :
    (p : Text) (s : Slot)
    → IsGood s
    → slot_providers (unindex_slot p s) ≡ without p (slot_providers s)
unfolding without sole
slot_providers-unindex p s g = ground arith

module _ (a p : Text) (ix : ActionIndex) (good : IsIndex ix) where
  -- Indexing a declaration adds the plugin to the providers of that action, once, and touches no other action.
  pub providers-index_action :
      (b : Text)
      → providers (index_action a p ix) b
        ≡ (if a == b then add p (providers ix b) else providers ix b)
  unfolding providers
  providers-index_action b =
      rw slot-index_action (ground (arith, slot_providers-index p (slot b ix) (good b)))

  -- Unindexing takes the plugin out of the providers of that action, and touches no other action.
  pub providers-unindex_action :
      (b : Text)
      → providers (unindex_action a p ix) b
        ≡ (if a == b then without p (providers ix b) else providers ix b)
  unfolding providers
  providers-unindex_action b =
      rw slot-unindex_action (ground (arith, slot_providers-unindex p (slot b ix) (good b)))

  pub index_action-IsIndex : IsIndex (index_action a p ix)
  index_action-IsIndex b = subst IsGood (sym (slot-index_action a p b ix)) (
      choose_slot (a == b) (index_slot p (slot b ix)) (slot b ix)
        (index_rows-IsGood p (get b ix.ambiguous_actions) (get b ix.action_index) (good b))
        (good b))

  pub unindex_action-IsIndex : IsIndex (unindex_action a p ix)
  unindex_action-IsIndex b = subst IsGood (sym (slot-unindex_action a p b ix)) (
      choose_slot (a == b) (unindex_slot p (slot b ix)) (slot b ix)
        (unindex_rows-IsGood p (get b ix.ambiguous_actions) (get b ix.action_index) (good b))
        (good b))
