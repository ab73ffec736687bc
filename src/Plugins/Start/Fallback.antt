-- ===== src/Plugins/Start/Fallback.antt =====
-- The order of the start where the configuration has a cycle.
use veyron.Prelude.Maps.{get, Map, insert}
use veyron.Plugins.Loader.{
  Deps, topo_sort, release, place, in_degrees, reversed, push_each, zero_degrees, bump_each,
}
use veyron.Plugins.Start.{start_order}
use veyron.Prelude.{
  ◌++◌, some, inl, refl, text_eq, nat_eq, ◌≡◌, List, Text, ℕ, retain, not, contains, [], ◌∷◌, false,
  arith, ==_iff, ==_refl, suc, Distinct, ◌∙◌, ◌==◌, ap, unwrap_or,
}

pub start_order-inl :
    (rounds : ℕ) (ids : List Text) (deps : Deps) (refused cycle : List Text)
    → topo_sort rounds ids deps refused ≡ some (inl cycle)
    → start_order rounds ids deps refused
      ≡ some (retain (λ id. not (contains (refused ++ cycle) id)) ids, refused ++ cycle)
unfolding start_order
start_order-inl rounds ids deps refused cycle h = rw (start_order, h) refl

-- `x` requires `y`; `b` and `c` require each other.
abbrev pub apart_cycle : Text → Text → Text → Text → Deps
apart_cycle x y b c = (x, y ∷ []) ∷ (y, []) ∷ (b, c ∷ []) ∷ (c, b ∷ []) ∷ []

module _ (x y b c : Text) (distinct : Distinct (x ∷ y ∷ b ∷ c ∷ [])) where
  differ : (s t : Text) → (s == t) ≡ false → (t == s) ≡ false
  differ s t h = ground (arith, h, ==_iff s t, ==_iff t s)

  apart :
      ((x == y) ≡ false)
      × ((y == x) ≡ false)
      × ((x == b) ≡ false)
      × ((b == x) ≡ false)
      × ((x == c) ≡ false)
      × ((c == x) ≡ false)
      × ((y == b) ≡ false)
      × ((b == y) ≡ false)
      × ((y == c) ≡ false)
      × ((c == y) ≡ false)
      × ((b == c) ≡ false)
      × ((c == b) ≡ false)
  unfolding contains
  apart = ground (
    arith,
    distinct,
    ==_iff x y,
    ==_iff y x,
    ==_iff x b,
    ==_iff b x,
    ==_iff x c,
    ==_iff c x,
    ==_iff y b,
    ==_iff b y,
    ==_iff y c,
    ==_iff c y,
    ==_iff b c,
    ==_iff c b,
  )

  abbrev rev : Deps
  rev = (y, x ∷ []) ∷ (c, b ∷ []) ∷ (b, c ∷ []) ∷ []

  abbrev degrees_of : ℕ → Map Text ℕ
  degrees_of n = (x, n) ∷ (y, 0) ∷ (b, 1) ∷ (c, 1) ∷ []

  degrees_lem :
      in_degrees
        (apart_cycle x y b c)
        []
        (x ∷ y ∷ b ∷ c ∷ [])
        (zero_degrees (x ∷ y ∷ b ∷ c ∷ []) [])
      ≡ degrees_of 1
  unfolding in_degrees zero_degrees bump_each get insert retain contains
  degrees_lem = ground (arith, apart, ==_refl x, ==_refl y, ==_refl b, ==_refl c)

  reversed_lem : reversed (apart_cycle x y b c) [] (x ∷ y ∷ b ∷ c ∷ []) [] ≡ rev
  unfolding reversed push_each get insert retain contains
  reversed_lem = ground (arith, apart, ==_refl x, ==_refl y, ==_refl b, ==_refl c)

  queue_lem : retain (λ id. unwrap_or (get id (degrees_of 1)) 0 == 0) (x ∷ y ∷ b ∷ c ∷ []) ≡ y ∷ []
  unfolding retain get
  queue_lem = ground (arith, apart, ==_refl x, ==_refl y, ==_refl b, ==_refl c)

  turn_y : release (unwrap_or (get y rev) []) (degrees_of 1) [] ≡ (degrees_of 0, x ∷ [])
  unfolding release get insert
  turn_y = ground (arith, apart, ==_refl x, ==_refl y)

  turn_x : release (unwrap_or (get x rev) []) (degrees_of 0) [] ≡ (degrees_of 0, [])
  unfolding release get insert
  turn_x = ground (arith, apart)

  placed : (n : ℕ) → place (suc (suc n)) rev (degrees_of 1) (y ∷ []) [] ≡ some (y ∷ x ∷ [])
  unfolding place
  placed n =
      ap (λ (s : Map Text ℕ × List Text). place (suc n) rev s.0 s.1 (y ∷ [])) turn_y
      ∙ ap (λ (s : Map Text ℕ × List Text). place n rev s.0 s.1 (y ∷ x ∷ [])) turn_x

  left_over : retain (λ id. not (contains (y ∷ x ∷ []) id)) (x ∷ y ∷ b ∷ c ∷ []) ≡ b ∷ c ∷ []
  unfolding retain contains
  left_over = ground (arith, apart, ==_refl x, ==_refl y)

  kept : retain (λ id. not (contains (b ∷ c ∷ []) id)) (x ∷ y ∷ b ∷ c ∷ []) ≡ x ∷ y ∷ []
  unfolding retain contains
  kept = ground (arith, apart, ==_refl b, ==_refl c)

  sorted :
      (n : ℕ)
      → topo_sort (suc (suc n)) (x ∷ y ∷ b ∷ c ∷ []) (apart_cycle x y b c) []
        ≡ some (inl (b ∷ c ∷ []))
  unfolding topo_sort retain contains
  sorted n = rw (topo_sort, degrees_lem, reversed_lem, queue_lem, placed n, left_over) refl

  -- Where `x` stands before `y`, which it requires, and two other plugins require each other, the
  -- four being different, the start takes `x` before `y`, in any number of rounds from two on.
  pub start_order-fallback :
      (n : ℕ)
      → start_order (suc (suc n)) (x ∷ y ∷ b ∷ c ∷ []) (apart_cycle x y b c) []
        ≡ some (x ∷ y ∷ [], b ∷ c ∷ [])
  start_order-fallback n =
      start_order-inl (suc (suc n)) (x ∷ y ∷ b ∷ c ∷ []) (apart_cycle x y b c) [] (b ∷ c ∷ [])
        (sorted n)
      ∙ ap (λ (ids : List Text). some (ids, b ∷ c ∷ [])) kept
