-- ===== src/Prelude/Equality.antt =====
-- Boolean equality as an interface, and sets as lists tested by it.
use Prim.Native.Nat.{ℕ, suc, ◌≤◌}
use mathlib.Core.Path.{◌≡◌, refl}
use mathlib.Core.Logic.{◌↔◌, ◌⊎◌, ◌≢◌, inl, inr}
use mathlib.Core.Bool.{Bool, true, false, not, ◌&&◌, ◌||◌}
use mathlib.Core.List.{List, [], ◌∷◌, ◌++◌}
use native.Mathlib.Omega.{arith}
use veyron.Prelude.Tests.{nat_beq, nat_beq_iff, Bool-cases, if◌then◌else◌}
use veyron.Prelude.Lists.{length}

-- A test that decides equality.
pub record HasEq {ℓ} (X : Type ℓ) : Type ℓ where
  pub same : X → X → Bool
  pub same_iff : (x y : X) → (same x y ≡ true) ↔ (x ≡ y)

instance abbrev pub nat_eq : HasEq ℕ
nat_eq = record { same = nat_beq; same_iff = nat_beq_iff }

infix 50 ◌==◌
abbrev pub ◌==◌ {ℓ} : {X : Type ℓ} ⦃d : HasEq X⦄ (x y : X) → Bool
◌==◌ ⦃d⦄ x y = d.same x y

pub ==_iff {ℓ} : {X : Type ℓ} ⦃d : HasEq X⦄ (x y : X) → ((x == y) ≡ true) ↔ (x ≡ y)
==_iff ⦃d⦄ x y = d.same_iff x y

pub ==_refl {ℓ} : {X : Type ℓ} ⦃d : HasEq X⦄ (x : X) → (x == x) ≡ true
==_refl x = (==_iff x x).1 refl

module _ {ℓ} {A : Type ℓ} ⦃e : HasEq A⦄ where
  -- `xs.iter().any(|x| x == a)`
  unfoldable pub contains : List A → A → Bool
  contains [] a = false
  contains (x ∷ xs) a = x == a || contains xs a

  -- `xs.retain(|x| x != a)`, and the removal from a set
  unfoldable pub without : A → List A → List A
  without a [] = []
  without a (x ∷ xs) = let rest = without a xs in if x == a then rest else x ∷ rest

  -- A new element goes to the end; one that is there stays.
  unfoldable pub add : A → List A → List A
  unfolding contains
  add a xs = if contains xs a then xs else xs ++ a ∷ []

  pub contains-append :
      (a : A) (xs ys : List A) → contains (xs ++ ys) a ≡ (contains xs a || contains ys a)
  unfolding contains
  contains-append a [] ys = refl
  contains-append a (x ∷ xs) ys = ground (arith, contains-append a xs ys)

  pub contains-add : (a b : A) (xs : List A) → contains (add a xs) b ≡ (a == b || contains xs b)
  unfolding add
  contains-add a b xs = ground (arith, contains-append b xs (a ∷ []), ==_iff a b)

  pub contains-without :
      (a b : A) (xs : List A) → contains (without a xs) b ≡ (not (a == b) && contains xs b)
  unfolding contains without
  contains-without a b [] = ground arith
  contains-without a b (x ∷ xs) =
      ground (arith, contains-without a b xs, ==_iff a b, ==_iff x a, ==_iff x b)

  pub without_self : (a : A) (xs : List A) → contains xs a ≡ false → without a xs ≡ xs
  unfolding contains without
  without_self a [] h = refl
  without_self a (x ∷ xs) h = ground (arith, without_self a xs)

  -- No element stands twice.
  abbrev pub Distinct : List A → Type 0
  Distinct [] = Unit
  Distinct (x ∷ xs) = (contains xs x ≡ false) × Distinct xs

  pub Distinct-append_one :
      (a : A) (xs : List A) → contains xs a ≡ false → Distinct xs → Distinct (xs ++ a ∷ [])
  unfolding contains
  Distinct-append_one a [] h d = (refl, tt)
  Distinct-append_one a (x ∷ xs) h d = (
    ground (arith, contains-append x xs (a ∷ []), ==_iff x a, ==_iff a x),
    Distinct-append_one a xs (ground arith) d.1,
  )

  pub Distinct-add : (a : A) (xs : List A) → Distinct xs → Distinct (add a xs)
  unfolding add
  Distinct-add a xs d = ground (arith, Distinct-append_one a xs)

  pub Distinct-without : (a : A) (xs : List A) → Distinct xs → Distinct (without a xs)
  unfolding without
  Distinct-without a [] d = tt
  Distinct-without a (x ∷ xs) d = ground (arith, Distinct-without a xs d.1, contains-without a x xs)

  -- Of a list without repetitions a removal takes one element at most.
  pub length-without-le :
      (a : A) (xs : List A) → Distinct xs → length xs ≤ suc (length (without a xs))
  unfolding without
  length-without-le a [] d = omega arith
  length-without-le a (x ∷ xs) d =
      ground (arith, length-without-le a xs d.1, without_self a xs, ==_iff x a)

pub ==_or_not {ℓ} : {A : Type ℓ} ⦃e : HasEq A⦄ (a b : A) → (a ≡ b) ⊎ (a ≢ b)
==_or_not a b = elim (Bool-cases (a == b)) [
  | inl same ↦ inl ((==_iff a b).0 same)
  | inr other ↦ inr (λ p. cc ((==_iff a b).1 p))
]
