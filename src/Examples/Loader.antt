-- ===== src/Examples/Loader.antt =====
-- Three plugins of the configuration, and the same with an id that stands twice.
use veyron.Plugins.Start.Fallback.{apart_cycle, start_order-fallback}
use veyron.Plugins.Start.{start_order}
use veyron.Prelude.Maps.{get}
use veyron.Plugins.Loader.{Deps, topo_sort, live_deps}
use veyron.Plugins.Loader.Cycles.{topo_sort-none, tangled}
use veyron.Plugins.Loader.Ends.{topo_sort_exact, IsOrder, IsTangle, active_of}
use veyron.Examples.Data.{alice, bob}
use veyron.Prelude.{
  ◌≢◌, ◌⊎◌, [], ◌∷◌, none, some, inl, inr, true, false, refl, text_eq, nat_eq, arith, ==_iff, ◌≡◌,
  List, Text, bytes, contains, text_beq, Distinct, text_beq_iff, retain,
}

abbrev carol : Text
carol = bytes "carol"

abbrev ids : List Text
ids = bob ∷ alice ∷ carol ∷ []

abbrev deps : Deps
deps = (bob, alice ∷ carol ∷ []) ∷ (alice, carol ∷ []) ∷ (carol, []) ∷ []

each_once : Distinct ids
unfolding contains text_beq
each_once = (refl, (refl, (refl, tt)))

is_closed :
    (x d : Text)
    → contains (active_of [] ids) x ≡ true
    → contains (live_deps deps [] x) d ≡ true
    → contains (active_of [] ids) d ≡ true
unfolding contains retain get
is_closed x d h h' = ground (
  arith,
  h,
  h',
  ==_iff bob x,
  ==_iff alice x,
  ==_iff carol x,
  ==_iff bob d,
  ==_iff alice d,
  ==_iff carol d,
)

topo_sort_exact_example :
    ((order : List Text) × (topo_sort 3 ids deps [] ≡ some (inr order))
      × IsOrder deps [] (active_of [] ids) order)
    ⊎ ((cycle : List Text) × (topo_sort 3 ids deps [] ≡ some (inl cycle)) × IsTangle deps [] cycle)
topo_sort_exact_example = topo_sort_exact 3 ids [] deps each_once is_closed (omega arith)

apart : (s t : Text) → text_beq s t ≡ false → s ≢ t
apart s t h e = absurd (ground (arith, h, text_beq_iff s t, e))

first_apart : alice ≢ bob
unfolding text_beq
first_apart = apart alice bob refl

second_apart : alice ≢ carol
unfolding text_beq
second_apart = apart alice carol refl

third_apart : bob ≢ carol
unfolding text_beq
third_apart = apart bob carol refl

topo_sort-none_example :
    topo_sort 100 (alice ∷ alice ∷ bob ∷ carol ∷ []) (tangled alice bob carol) [] ≡ none
topo_sort-none_example = topo_sort-none alice bob carol first_apart second_apart third_apart 100

four_apart : Distinct (alice ∷ bob ∷ carol ∷ bytes "dave" ∷ [])
unfolding contains text_beq
four_apart = (refl, (refl, (refl, (refl, tt))))

start_order-fallback_example :
    start_order 4
      (alice ∷ bob ∷ carol ∷ bytes "dave" ∷ [])
      (apart_cycle alice bob carol (bytes "dave"))
      []
    ≡ some (alice ∷ bob ∷ [], carol ∷ bytes "dave" ∷ [])
start_order-fallback_example = start_order-fallback alice bob carol (bytes "dave") four_apart 2
