-- ===== src/Registry/Register/Index.antt =====
-- The action index over a whole list of declared actions.
use veyron.Prelude.{
  Text, text_eq, ◌==◌, contains, contains-add, contains-without, not, ◌&&◌, ◌||◌, List, [], ◌∷◌,
  ◌≡◌, arith,
}
use veyron.Registry.ActionIndex.{ActionIndex, index_action, unindex_action}
use veyron.Registry.ActionIndex.Providers.{
  providers, IsIndex, providers-index_action, providers-unindex_action, index_action-IsIndex,
  unindex_action-IsIndex,
}
use veyron.Registry.Register.{index_actions, unindex_actions}

pub index_actions-IsIndex :
    (as' : List Text) (p : Text) (ix : ActionIndex) → IsIndex ix → IsIndex (index_actions as' p ix)
unfolding index_actions
index_actions-IsIndex [] p ix good = good
index_actions-IsIndex (a ∷ as') p ix good =
    index_actions-IsIndex as' p (index_action a p ix) (index_action-IsIndex a p ix good)

pub unindex_actions-IsIndex :
    (as' : List Text) (p : Text) (ix : ActionIndex)
    → IsIndex ix
    → IsIndex (unindex_actions as' p ix)
unfolding unindex_actions
unindex_actions-IsIndex [] p ix good = good
unindex_actions-IsIndex (a ∷ as') p ix good =
    unindex_actions-IsIndex as' p (unindex_action a p ix) (unindex_action-IsIndex a p ix good)

pub contains-index_actions :
    (as' : List Text) (p : Text) (ix : ActionIndex) (b q : Text)
    → IsIndex ix
    → contains (providers (index_actions as' p ix) b) q
      ≡ ((p == q && contains as' b) || contains (providers ix b) q)
unfolding index_actions contains
contains-index_actions [] p ix b q good = ground arith
contains-index_actions (a ∷ as') p ix b q good = ground (
  arith,
  contains-index_actions as' p (index_action a p ix) b q (index_action-IsIndex a p ix good),
  providers-index_action a p ix good b,
  contains-add p q (providers ix b),
)

pub contains-unindex_actions :
    (as' : List Text) (p : Text) (ix : ActionIndex) (b q : Text)
    → IsIndex ix
    → contains (providers (unindex_actions as' p ix) b) q
      ≡ (not (p == q && contains as' b) && contains (providers ix b) q)
unfolding unindex_actions contains
contains-unindex_actions [] p ix b q good = ground arith
contains-unindex_actions (a ∷ as') p ix b q good = ground (
  arith,
  contains-unindex_actions as' p (unindex_action a p ix) b q (unindex_action-IsIndex a p ix good),
  providers-unindex_action a p ix good b,
  contains-without p q (providers ix b),
)
