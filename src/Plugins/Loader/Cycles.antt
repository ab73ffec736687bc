-- ===== src/Plugins/Loader/Cycles.antt =====
-- The order of the start where an id stands twice in the configuration.
use veyron.Prelude.Maps.{Map, get, insert}
use veyron.Plugins.Loader.{
  Deps, release, place, in_degrees, reversed, topo_sort, push_each, zero_degrees, bump_each,
}
use veyron.Prelude.{
  ◌≢◌, ◌==◌, [], ◌∷◌, false, text_eq, nat_eq, arith, ==_iff, ==_refl, ◌≡◌, Text, ℕ, unwrap_or, sym,
  none, refl, if◌then◌else◌, zero, suc, List, retain, ◌-◌, ◌++◌, contains, ap, ◌∙◌,
}

-- Requirements of `b` on `a` and `c`, and of `c` on `b`.
abbrev pub tangled : Text → Text → Text → Deps
tangled a b c = (a, []) ∷ (b, a ∷ c ∷ []) ∷ (c, b ∷ []) ∷ []

module _ (a b c : Text) (ab : a ≢ b) (ac : a ≢ c) (bc : b ≢ c) where
  abbrev rev : Deps
  rev = (a, b ∷ []) ∷ (c, b ∷ []) ∷ (b, c ∷ []) ∷ []

  differ : (x y : Text) → x ≢ y → (x == y) ≡ false
  differ x y h = ground (arith, ==_iff x y, h)

  -- The state of the degrees when the requirements of `b` and `c` still to come are these.
  abbrev degrees_of : ℕ → ℕ → Map Text ℕ
  degrees_of m n = (a, 0) ∷ (b, m) ∷ (c, n) ∷ []

  turn_a :
      (m n : ℕ) (queue : List Text)
      → release (unwrap_or (get a rev) []) (degrees_of m n) queue
        ≡ (degrees_of (m - 1) n, if m - 1 == 0 then queue ++ b ∷ [] else queue)
  unfolding release get insert
  turn_a m n queue = ground (arith, differ a b ab, ==_refl a, ==_refl b)

  turn_b :
      (n : ℕ)
      → release (unwrap_or (get b rev) []) (degrees_of 0 n) []
        ≡ (degrees_of 0 (n - 1), if n - 1 == 0 then c ∷ [] else [])
  unfolding release get insert
  turn_b n = ground (
    arith,
    differ a b ab,
    differ a c ac,
    differ b c bc,
    ==_refl b,
    ==_refl c,
    differ c b (λ p. bc (sym p)),
  )

  turn_c : release (unwrap_or (get c rev) []) (degrees_of 0 0) [] ≡ (degrees_of 0 0, b ∷ [])
  unfolding release get insert
  turn_c = ground (arith, differ a b ab, differ a c ac, differ b c bc, ==_refl b, ==_refl c)

  place_still :
      (id : Text) (queue queue' : List Text) (d d' : Map Text ℕ)
      → release (unwrap_or (get id rev) []) d queue ≡ (d', queue')
      → ((rounds : ℕ) (order : List Text) → place rounds rev d' queue' order ≡ none)
      → (rounds : ℕ) (order : List Text) → place rounds rev d (id ∷ queue) order ≡ none
  unfolding place
  place_still id queue queue' d d' e later zero order = refl
  place_still id queue queue' d d' e later (suc rounds) order =
      ap (λ (x : Map Text ℕ × List Text). place rounds rev x.0 x.1 (order ++ id ∷ [])) e
      ∙ later rounds (order ++ id ∷ [])

  -- Between `b` and `c` the loop goes on for ever.
  place_both :
      (rounds : ℕ) (order : List Text)
      → (place rounds rev (degrees_of 0 0) (b ∷ []) order ≡ none)
        × (place rounds rev (degrees_of 0 0) (c ∷ []) order ≡ none)
  unfolding place
  place_both zero order = (refl, refl)
  place_both (suc rounds) order = (
    ap (λ (x : Map Text ℕ × List Text). place rounds rev x.0 x.1 (order ++ b ∷ [])) (turn_b 0)
        ∙ (place_both rounds (order ++ b ∷ [])).1,
    ap (λ (x : Map Text ℕ × List Text). place rounds rev x.0 x.1 (order ++ c ∷ [])) turn_c
        ∙ (place_both rounds (order ++ c ∷ [])).0,
  )

  place_start :
      (rounds : ℕ) (order : List Text) → place rounds rev (degrees_of 2 1) (a ∷ a ∷ []) order ≡ none
  place_start =
      place_still a (a ∷ []) (a ∷ []) (degrees_of 2 1) (degrees_of 1 1) (turn_a 2 1 (a ∷ [])) (
        place_still a [] (b ∷ []) (degrees_of 1 1) (degrees_of 0 1) (turn_a 1 1 []) (
          place_still b [] (c ∷ []) (degrees_of 0 1) (degrees_of 0 0) (turn_b 1)
            (λ rounds order. (place_both rounds order).1)))

  degrees_lem :
      in_degrees (tangled a b c) [] (a ∷ a ∷ b ∷ c ∷ []) (zero_degrees (a ∷ a ∷ b ∷ c ∷ []) [])
      ≡ degrees_of 2 1
  unfolding in_degrees zero_degrees bump_each get insert retain contains
  degrees_lem =
      ground (arith, differ a b ab, differ a c ac, differ b c bc, ==_refl a, ==_refl b, ==_refl c)

  reversed_lem : reversed (tangled a b c) [] (a ∷ a ∷ b ∷ c ∷ []) [] ≡ rev
  unfolding reversed push_each get insert retain contains
  reversed_lem = ground (
    arith,
    differ a b ab,
    differ a c ac,
    differ b c bc,
    differ c b (λ p. bc (sym p)),
    ==_refl a,
    ==_refl b,
    ==_refl c,
  )

  queue_lem :
      retain (λ id. unwrap_or (get id (degrees_of 2 1)) 0 == 0) (a ∷ a ∷ b ∷ c ∷ []) ≡ a ∷ a ∷ []
  unfolding retain get
  queue_lem =
      ground (arith, differ a b ab, differ a c ac, differ b c bc, ==_refl a, ==_refl b, ==_refl c)

  -- Where an id `a` stands twice, and two plugins `b` and `c` require each other and `b` requires `a`,
  -- the three being different, the loop over the queue does not end within any number of rounds: the
  -- cycle is not reported.
  pub topo_sort-none :
      (rounds : ℕ) → topo_sort rounds (a ∷ a ∷ b ∷ c ∷ []) (tangled a b c) [] ≡ none
  unfolding topo_sort retain contains
  topo_sort-none rounds =
      rw (topo_sort, degrees_lem, reversed_lem, queue_lem, place_start rounds []) refl
