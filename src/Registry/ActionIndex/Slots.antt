-- ===== src/Registry/ActionIndex/Slots.antt =====
-- The two rows of one action, and what indexing does to them: the operations touch no other action.
use veyron.Prelude.{
  Text, text_eq, ◌==◌, ==_iff, add, without, Option, none, some, List, [], ◌∷◌, ◌≡◌, arith,
  if◌then◌else◌,
}
use veyron.Prelude.Maps.{get, get-insert, get-remove}
use veyron.Registry.ActionIndex.{ActionIndex, index_action, drop_own_row, sole, unindex_action}

-- What the ambiguity table and the fast path hold for one action.
pub record Slot : Type 0 where
  pub ambiguous : Option (List Text)
  pub unique : Option Text

abbrev pub slot : Text → ActionIndex → Slot
slot action ix = record {
  ambiguous = get action ix.ambiguous_actions;
  unique = get action ix.action_index;
}

abbrev pub index_slot : Text → Slot → Slot
index_slot p s = elim s.ambiguous [
  | some ids ↦ record s { ambiguous = some (add p ids) }
  | none ↦ elim s.unique [
    | some q ↦ if q == p then s else record { ambiguous = some (q ∷ p ∷ []); unique = none }
    | none ↦ record s { unique = some p }
  ]
]

abbrev pub drop_slot : Text → Slot → Slot
drop_slot p s = elim s.unique [
  | some q ↦ if q == p then record s { unique = none } else s
  | none ↦ s
]

abbrev pub unindex_slot : Text → Slot → Slot
unindex_slot p s = elim s.ambiguous [
  | none ↦ drop_slot p s
  | some ids ↦ elim (sole (without p ids)) [
    | some only ↦ record { ambiguous = none; unique = some only }
    | none ↦ drop_slot p (record s { ambiguous = some (without p ids) })
  ]
]

module _ (a p b : Text) (ix : ActionIndex) where
  pub slot-index_action :
      slot b (index_action a p ix) ≡ (if a == b then index_slot p (slot b ix) else slot b ix)
  unfolding index_action
  slot-index_action = grind (arith, ==_iff a b, get-insert, get-remove)

  slot-drop_own_row :
      slot b (drop_own_row a p ix) ≡ (if a == b then drop_slot p (slot b ix) else slot b ix)
  unfolding drop_own_row
  slot-drop_own_row = ground (arith, ==_iff a b, get-remove a b ix.action_index)

  pub slot-unindex_action :
      slot b (unindex_action a p ix) ≡ (if a == b then unindex_slot p (slot b ix) else slot b ix)
  unfolding unindex_action
  slot-unindex_action = grind (arith, ==_iff a b, get-insert, get-remove, sole)
