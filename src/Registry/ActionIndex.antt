-- ===== src/Registry/ActionIndex.antt =====
-- The index from action names to the plugins that declare them: the fields `action_index` and
-- `ambiguous_actions` of `PluginRegistry`, with `index_action` and `unindex_action`.
pub mod Slots
pub mod Providers
use veyron.Prelude.{
  Text, text_eq, ◌==◌, add, without, Option, none, some, List, [], ◌∷◌, if◌then◌else◌,
}
use veyron.Prelude.Maps.{Map, get, insert, remove}

pub record ActionIndex : Type 0 where
  -- action name to its only declarer
  pub action_index : Map Text Text
  -- action name to its two or more declarers
  pub ambiguous_actions : Map Text (List Text)

abbrev pub empty : ActionIndex
empty = record { action_index = []; ambiguous_actions = [] }

unfoldable pub index_action : Text → Text → ActionIndex → ActionIndex
index_action action plugin_id ix = elim (get action ix.ambiguous_actions) [
  | some ids ↦ record ix {
    ambiguous_actions = insert action (add plugin_id ids) ix.ambiguous_actions;
  }
  | none ↦ elim (get action ix.action_index) [
    | some existing ↦ if existing == plugin_id then ix else record {
      action_index = remove action ix.action_index;
      ambiguous_actions = insert action (existing ∷ plugin_id ∷ []) ix.ambiguous_actions;
    }
    | none ↦ record ix { action_index = insert action plugin_id ix.action_index }
  ]
]

-- The tail of `unindex_action`: the plugin's own row of the fast path is dropped.
pub drop_own_row : Text → Text → ActionIndex → ActionIndex
drop_own_row action plugin_id ix = elim (get action ix.action_index) [
  | some v ↦
      if v == plugin_id then record ix { action_index = remove action ix.action_index } else ix
  | none ↦ ix
]

-- `(ids.len() == 1).then(|| ids[0].clone())`
pub sole : List Text → Option Text
sole [] = none
sole (x ∷ []) = some x
sole (x ∷ y ∷ xs) = none

pub unindex_action : Text → Text → ActionIndex → ActionIndex
unfolding drop_own_row sole
unindex_action action plugin_id ix = elim (get action ix.ambiguous_actions) [
  | none ↦ drop_own_row action plugin_id ix
  | some ids ↦
      let kept = without plugin_id ids in
      let ix' : ActionIndex = record ix {
        ambiguous_actions = insert action kept ix.ambiguous_actions;
      } in
      elim (sole kept) [
        | some only ↦ record {
          action_index = insert action only ix'.action_index;
          ambiguous_actions = remove action ix'.ambiguous_actions;
        }
        | none ↦ drop_own_row action plugin_id ix'
      ]
]
