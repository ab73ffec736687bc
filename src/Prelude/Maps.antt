-- ===== src/Prelude/Maps.antt =====
-- Maps (`DashMap`, `HashMap`) as association lists without repeated keys.
use mathlib.Core.Path.{◌≡◌, refl}
use mathlib.Core.Logic.{inl, inr}
use mathlib.Core.Bool.{Bool, true, false}
use mathlib.Core.Option.{Option, none, some}
use mathlib.Core.List.{List, [], ◌∷◌}
use native.Mathlib.Omega.{arith}
use veyron.Prelude.Tests.{if◌then◌else◌, is_some, map_option, Bool-cases, is_some_and}
use veyron.Prelude.Equality.{HasEq, ◌==◌, ==_iff, contains, ==_refl}

abbrev pub Map : Type 0 → Type 0 → Type 0
Map K V = List (K × V)

module _ {K V : Type 0} ⦃e : HasEq K⦄ where
  unfoldable pub get : K → Map K V → Option V
  get k [] = none
  get k ((j, v) ∷ m) = if j == k then some v else get k m

  unfoldable pub insert : K → V → Map K V → Map K V
  insert k v [] = (k, v) ∷ []
  insert k v ((j, w) ∷ m) = if j == k then (k, v) ∷ m else (j, w) ∷ insert k v m

  unfoldable pub remove : K → Map K V → Map K V
  remove k [] = []
  remove k ((j, v) ∷ m) = let rest = remove k m in if j == k then rest else (j, v) ∷ rest

  -- `if let Some(v) = m.get_mut(k)`, with the value replaced
  unfoldable pub modify : K → (V → V) → Map K V → Map K V
  modify k f [] = []
  modify k f ((j, v) ∷ m) = if j == k then (j, f v) ∷ m else (j, v) ∷ modify k f m

  abbrev pub contains_key : K → Map K V → Bool
  contains_key k m = is_some (get k m)

  pub get-insert :
      (k j : K) (v : V) (m : Map K V) → get j (insert k v m) ≡ (if k == j then some v else get j m)
  unfolding get insert
  get-insert k j v [] = refl
  get-insert k j v ((i, w) ∷ m) =
      ground (arith, ==_iff k j, ==_iff i k, ==_iff i j, get-insert k j v m)

  pub get-remove : (k j : K) (m : Map K V) → get j (remove k m) ≡ (if k == j then none else get j m)
  unfolding get remove
  get-remove k j [] = ground arith
  get-remove k j ((i, v) ∷ m) = ground (arith, ==_iff k j, ==_iff i k, ==_iff i j, get-remove k j m)

  pub get-modify :
      (k j : K) (f : V → V) (m : Map K V)
      → get j (modify k f m) ≡ (if k == j then map_option f (get j m) else get j m)
  unfolding get modify
  get-modify k j f [] = ground arith
  get-modify k j f ((i, v) ∷ m) =
      ground (arith, ==_iff k j, ==_iff i k, ==_iff i j, get-modify k j f m)

  -- `m.iter().map(|e| e.value().clone()).collect()`
  unfoldable pub values : Map K V → List V
  values [] = []
  values ((j, v) ∷ m) = v ∷ values m

  -- `m.iter().filter(|e| test(e)).map(|e| e.key().clone()).collect()`
  unfoldable pub keys_where : (V → Bool) → Map K V → List K
  keys_where test [] = []
  keys_where test ((k, v) ∷ m) = let rest = keys_where test m in if test v then k ∷ rest else rest

  -- `m.iter().find(|e| test(e)).map(|e| e.key().clone())`
  unfoldable pub find_key : (V → Bool) → Map K V → Option K
  find_key test [] = none
  find_key test ((k, v) ∷ m) = if test v then some k else find_key test m

  -- What a hash map has for nothing: no key stands twice.
  abbrev pub HasUniqueKeys : Map K V → Type 0
  HasUniqueKeys [] = Unit
  HasUniqueKeys ((k, v) ∷ m) = (get k m ≡ none) × HasUniqueKeys m

  pub insert-HasUniqueKeys :
      (k : K) (v : V) (m : Map K V) → HasUniqueKeys m → HasUniqueKeys (insert k v m)
  unfolding insert get
  insert-HasUniqueKeys k v [] u = (refl, tt)
  insert-HasUniqueKeys k v ((j, w) ∷ m) u =
      ground (arith, insert-HasUniqueKeys k v m u.1, get-insert k j v m, ==_iff k j, ==_iff j k)

  pub remove-HasUniqueKeys : (k : K) (m : Map K V) → HasUniqueKeys m → HasUniqueKeys (remove k m)
  unfolding remove
  remove-HasUniqueKeys k [] u = tt
  remove-HasUniqueKeys k ((j, w) ∷ m) u =
      ground (arith, remove-HasUniqueKeys k m u.1, get-remove k j m)

  pub modify-HasUniqueKeys :
      (k : K) (f : V → V) (m : Map K V) → HasUniqueKeys m → HasUniqueKeys (modify k f m)
  unfolding modify
  modify-HasUniqueKeys k f [] u = tt
  modify-HasUniqueKeys k f ((j, w) ∷ m) u =
      ground (arith, modify-HasUniqueKeys k f m u.1, get-modify k j f m)

  pub contains-keys_where :
      (test : V → Bool) (m : Map K V) (k : K)
      → HasUniqueKeys m
      → contains (keys_where test m) k ≡ is_some_and (get k m) test
  unfolding keys_where contains get
  contains-keys_where test [] k u = refl
  contains-keys_where test ((j, v) ∷ m) k u =
      ground (arith, contains-keys_where test m k u.1, ==_iff j k)

  -- A key that is found holds a value that passes the test.
  pub find_key-some :
      (test : V → Bool) (m : Map K V) (k : K)
      → HasUniqueKeys m
      → find_key test m ≡ some k
      → (v : V) × (get k m ≡ some v) × (test v ≡ true)
  unfolding find_key get
  find_key-some test [] k u h = cc
  find_key-some test ((j, v) ∷ m) k u h = elim (Bool-cases (test v)) [
    | inl yes' ↦ (v, ground (arith, ==_refl j), yes')
    | inr no' ↦
        let (w, at, good) = find_key-some test m k u.1 (ground arith) in
        (w, ground (arith, ==_iff j k), good)
  ]

  pub find_key-none :
      (test : V → Bool) (m : Map K V) (k : K) (v : V)
      → find_key test m ≡ none
      → get k m ≡ some v
      → test v ≡ false
  unfolding find_key get
  find_key-none test [] k v h g = cc
  find_key-none test ((j, w) ∷ m) k v h g = ground (arith, find_key-none test m k v)
