-- ===== src/Events/Bus/Subscriptions.antt =====
-- Both maps of the bus tell the same story.
use veyron.Prelude.Maps.{get, Map, insert, get-insert, modify, get-modify, get-remove}
use veyron.Prelude.{
  [], ◌∷◌, inl, inr, refl, text_eq, nat_eq, arith, contains, Text, Bool, List, ◌≡◌, ◌||◌, ◌==◌, not,
  ◌&&◌, add, contains-add, without, contains-without, ==_iff, Distinct, Option-cases, Distinct-add,
  bytes,
}
use veyron.Events.Bus.{
  EventBus, new, subscribe, unsubscribe, unsubscribe_all, subscribers, targets, extend, remove_each,
  subscribe_each, unsubscribe_each, or_default,
}

abbrev pub subscribed : Text → Text → EventBus → Bool
subscribed plugin_id event_type b = contains (or_default (get event_type b.subscriptions)) plugin_id

abbrev pub IsMutual : EventBus → Type 0
IsMutual b = (p t : Text) → contains (or_default (get p b.by_plugin)) t ≡ subscribed p t b

contains-extend :
    (xs set : List Text) (y : Text) → contains (extend xs set) y ≡ (contains xs y || contains set y)
unfolding extend contains
contains-extend [] set y = refl
contains-extend (x ∷ xs) set y =
    ground (arith, contains-extend xs (add x set) y, contains-add x y set)

contains-remove_each :
    (xs set : List Text) (y : Text)
    → contains (remove_each xs set) y ≡ (not (contains xs y) && contains set y)
unfolding remove_each contains
contains-remove_each [] set y = refl
contains-remove_each (x ∷ xs) set y =
    ground (arith, contains-remove_each xs (without x set) y, contains-without x y set)

subscribe_each_lem :
    (p : Text) (ts : List Text) (m : Map Text (List Text)) (q t : Text)
    → contains (or_default (get t (subscribe_each p ts m))) q
      ≡ ((p == q && contains ts t) || contains (or_default (get t m)) q)
unfolding subscribe_each contains
subscribe_each_lem p [] m q t = ground arith
subscribe_each_lem p (u ∷ ts) m q t = ground (
  arith,
  subscribe_each_lem p ts (insert u (add p (or_default (get u m))) m) q t,
  get-insert u t (add p (or_default (get u m))) m,
  contains-add p q (or_default (get u m)),
  ==_iff u t,
)

unsubscribe_each_lem :
    (p : Text) (ts : List Text) (m : Map Text (List Text)) (q t : Text)
    → contains (or_default (get t (unsubscribe_each p ts m))) q
      ≡ (not (p == q && contains ts t) && contains (or_default (get t m)) q)
unfolding unsubscribe_each contains
unsubscribe_each_lem p [] m q t = ground arith
unsubscribe_each_lem p (u ∷ ts) m q t = elim (Option-cases (get t m)) [
  | inl e ↦ ground (
    arith,
    unsubscribe_each_lem p ts (modify u (without p) m) q t,
    get-modify u t (without p) m,
    ==_iff u t,
  )
  | inr (ids, e) ↦ ground (
    arith,
    unsubscribe_each_lem p ts (modify u (without p) m) q t,
    get-modify u t (without p) m,
    contains-without p q ids,
    ==_iff u t,
  )
]

pub new-IsMutual : IsMutual new
unfolding get contains
new-IsMutual p t = refl

-- A subscription keeps the two maps in agreement, and adds the plugin to the receivers of exactly
-- the given event types.
pub subscribe_lem :
    (p : Text) (ts : List Text) (b : EventBus)
    → IsMutual b
    → IsMutual (subscribe p ts b)
      × ((q t : Text)
          → subscribed q t (subscribe p ts b) ≡ ((p == q && contains ts t) || subscribed q t b))
unfolding subscribe
subscribe_lem p ts b mutual' = (
  λ q t. ground (
    arith,
    mutual' q t,
    subscribe_each_lem p ts b.subscriptions q t,
    get-insert p q (extend ts (or_default (get p b.by_plugin))) b.by_plugin,
    contains-extend ts (or_default (get p b.by_plugin)) t,
    ==_iff p q,
  ),
  λ q t. subscribe_each_lem p ts b.subscriptions q t,
)

unsubscribed_types :
    (p : Text) (ts : List Text) (m : Map Text (List Text)) (q t : Text)
    → contains (or_default (get q (modify p (remove_each ts) m))) t
      ≡ (not (p == q && contains ts t) && contains (or_default (get q m)) t)
unfolding contains
unsubscribed_types p ts m q t = elim (Option-cases (get q m)) [
  | inl e ↦ ground (arith, get-modify p q (remove_each ts) m, ==_iff p q)
  | inr (types, e) ↦
      ground (arith, get-modify p q (remove_each ts) m, contains-remove_each ts types t, ==_iff p q)
]

-- An unsubscription keeps the two maps in agreement, and takes the plugin from the receivers of
-- exactly the given event types.
pub unsubscribe_lem :
    (p : Text) (ts : List Text) (b : EventBus)
    → IsMutual b
    → IsMutual (unsubscribe p ts b)
      × ((q t : Text)
          → subscribed q t (unsubscribe p ts b)
            ≡ (not (p == q && contains ts t) && subscribed q t b))
unfolding unsubscribe
unsubscribe_lem p ts b mutual' = (
  λ q t. ground (
    arith,
    mutual' q t,
    unsubscribe_each_lem p ts b.subscriptions q t,
    unsubscribed_types p ts b.by_plugin q t,
  ),
  λ q t. unsubscribe_each_lem p ts b.subscriptions q t,
)

-- Where the two maps agree, the removal of a plugin takes it from the receivers of every event
-- type, changes no other plugin's subscriptions, and keeps the agreement.
pub unsubscribe_all_lem :
    (p : Text) (b : EventBus)
    → IsMutual b
    → IsMutual (unsubscribe_all p b)
      × ((q t : Text) → subscribed q t (unsubscribe_all p b) ≡ (not (p == q) && subscribed q t b))
unfolding unsubscribe_all contains
unsubscribe_all_lem p b mutual' = elim (Option-cases (get p b.by_plugin)) [
  | inl e ↦
      rw (e, unsubscribe_all) (mutual', λ q t. ground (arith, mutual' p t, mutual' q t, ==_iff p q))
  | inr (types, e) ↦
      rw (e, unsubscribe_all)
        (
          λ q t. ground (
            arith,
            mutual' p t,
            mutual' q t,
            unsubscribe_each_lem p types b.subscriptions q t,
            get-remove p q b.by_plugin,
            ==_iff p q,
          ),
          λ q t. ground (
            arith,
            mutual' p t,
            mutual' q t,
            unsubscribe_each_lem p types b.subscriptions q t,
            ==_iff p q,
          ),
        )
]

extend-Distinct : (xs set : List Text) → Distinct set → Distinct (extend xs set)
unfolding extend
extend-Distinct [] set d = d
extend-Distinct (x ∷ xs) set d = extend-Distinct xs (add x set) (Distinct-add x set d)

-- An event goes to the subscribers of its type and to those of "*", to no other plugin, and to each
-- of them once.
pub targets_exact :
    (t : Text) (b : EventBus)
    → Distinct (targets t b)
      × ((q : Text) → contains (targets t b) q ≡ (subscribed q t b || subscribed q (bytes "*") b))
unfolding targets contains
targets_exact t b = (
  extend-Distinct (subscribers (bytes "*") b) (extend (subscribers t b) [])
      (extend-Distinct (subscribers t b) [] tt),
  λ q. ground (
    arith,
    contains-extend (subscribers (bytes "*") b) (extend (subscribers t b) []) q,
    contains-extend (subscribers t b) [] q,
  ),
)
