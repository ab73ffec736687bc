-- ===== src/Ipc/Reassembly/Ordered.antt =====
-- The order in which a buffer's fragments are put together.
use mathlib.Core.List.{append-nil, append_assoc}
use veyron.Prelude.{
  [], ◌∷◌, none, some, inl, inr, false, refl, text_eq, nat_eq, arith, ==_iff, Bool-cases, ◌≡◌, zero,
  suc, List, Text, ℕ, Distinct, length, ◌≤◌, ◌++◌, contains, ◌+◌, ◌<◌, ap, ◌==◌, ◌∙◌, leb, sym,
  ◌||◌, true, Option-cases,
}
use veyron.Prelude.Maps.{Map, get, remove, HasUniqueKeys, get-remove}
use veyron.Ipc.Reassembly.{ReassemblyBuf, keys_of, insert_sorted, sort_unstable, drain, reassemble}

-- The parts from the `a`-th on, `n` of them, one after the other.
abbrev pub joined : (ℕ → Text) → ℕ → ℕ → Text
joined part a zero = []
joined part a (suc n) = part a ++ joined part (suc a) n

abbrev upfrom : ℕ → ℕ → List ℕ
upfrom a zero = []
upfrom a (suc n) = a ∷ upfrom (suc a) n

abbrev pub Below : ℕ → List ℕ → Type 0
Below n [] = Unit
Below n (k ∷ ks) = (k < n) × Below n ks

abbrev Ascending : ℕ → List ℕ → Type 0
Ascending a [] = Unit
Ascending a (k ∷ ks) = (a ≤ k) × Ascending (suc k) ks

Ascending-weaken : (a b : ℕ) (ks : List ℕ) → a ≤ b → Ascending b ks → Ascending a ks
Ascending-weaken a b [] le h = tt
Ascending-weaken a b (k ∷ ks) le h = (omega (arith, h.0), h.1)

insert_sorted-Ascending :
    (k a : ℕ) (ks : List ℕ)
    → a ≤ k
    → contains ks k ≡ false
    → Ascending a ks
    → Ascending a (insert_sorted k ks)
unfolding insert_sorted contains
insert_sorted-Ascending k a [] le h s = (le, tt)
insert_sorted-Ascending k a (j ∷ js) le h s = elim (Bool-cases (leb k j)) [
  | inl first ↦ rw first (le, (ground (arith, ==_iff j k), s.1))
  | inr later ↦
      rw later (s.0, insert_sorted-Ascending k (suc j) js (ground arith) (ground arith) s.1)
]

insert_sorted-Below : (n k : ℕ) (ks : List ℕ) → k < n → Below n ks → Below n (insert_sorted k ks)
unfolding insert_sorted
insert_sorted-Below n k [] lt h = (lt, tt)
insert_sorted-Below n k (j ∷ js) lt h = elim (Bool-cases (leb k j)) [
  | inl first ↦ rw first (lt, h)
  | inr later ↦ rw later (h.0, insert_sorted-Below n k js lt h.1)
]

length-insert_sorted : (k : ℕ) (ks : List ℕ) → length (insert_sorted k ks) ≡ suc (length ks)
unfolding insert_sorted
length-insert_sorted k [] = refl
length-insert_sorted k (j ∷ js) = ground (arith, length-insert_sorted k js)

contains-insert_sorted :
    (k i : ℕ) (ks : List ℕ) → contains (insert_sorted k ks) i ≡ (k == i || contains ks i)
unfolding insert_sorted contains
contains-insert_sorted k i [] = refl
contains-insert_sorted k i (j ∷ js) = ground (arith, contains-insert_sorted k i js)

contains-sort_unstable : (i : ℕ) (ks : List ℕ) → contains (sort_unstable ks) i ≡ contains ks i
unfolding sort_unstable contains
contains-sort_unstable i [] = refl
contains-sort_unstable i (k ∷ ks) =
    contains-insert_sorted k i (sort_unstable ks) ∙ rw (contains-sort_unstable i ks) refl

length-sort_unstable : (ks : List ℕ) → length (sort_unstable ks) ≡ length ks
unfolding sort_unstable
length-sort_unstable [] = refl
length-sort_unstable (k ∷ ks) =
    omega (arith, length-insert_sorted k (sort_unstable ks), length-sort_unstable ks)

sort_unstable-Ascending : (ks : List ℕ) → Distinct ks → Ascending 0 (sort_unstable ks)
unfolding sort_unstable
sort_unstable-Ascending [] d = tt
sort_unstable-Ascending (k ∷ ks) d =
    insert_sorted-Ascending k 0 (sort_unstable ks) (omega arith) (contains-sort_unstable k ks ∙ d.0)
      (sort_unstable-Ascending ks d.1)

sort_unstable-Below : (n : ℕ) (ks : List ℕ) → Below n ks → Below n (sort_unstable ks)
unfolding sort_unstable
sort_unstable-Below n [] h = tt
sort_unstable-Below n (k ∷ ks) h =
    insert_sorted-Below n k (sort_unstable ks) h.0 (sort_unstable-Below n ks h.1)

-- Strictly ascending numbers take their room.
Ascending-room : (a n : ℕ) (ks : List ℕ) → a ≤ n → Ascending a ks → Below n ks → a + length ks ≤ n
Ascending-room a n [] le s h = omega arith
Ascending-room a n (k ∷ ks) le s h =
    omega (arith, s.0, h.0, Ascending-room (suc k) n ks (omega (arith, h.0)) s.1 h.1)

Ascending-full :
    (a n : ℕ) (ks : List ℕ)
    → a + length ks ≡ n
    → Ascending a ks
    → Below n ks
    → ks ≡ upfrom a (length ks)
Ascending-full a n [] e s h = refl
Ascending-full a n (k ∷ ks) e s h =
    let k_lem : k ≡ a =
      omega (arith, s.0, h.0, Ascending-room (suc k) n ks (omega (arith, h.0)) s.1 h.1) in
    let rest : ks ≡ upfrom (suc k) (length ks) =
      Ascending-full (suc k) n ks (omega arith) s.1 h.1 in
    ap (λ (t : List ℕ). k ∷ t) rest ∙ rw k_lem (refl)

drain-upfrom :
    (part : ℕ → Text) (a n : ℕ) (m : Map ℕ Text) (out : Text)
    → ((k : ℕ) → a ≤ k → k < a + n → get k m ≡ some (part k))
    → drain (upfrom a n) m out ≡ some (out ++ joined part a n)
unfolding drain
drain-upfrom part a zero m out h = ap (λ (t : Text). some t) (sym (append-nil out))
drain-upfrom part a (suc n) m out h = rw (h a (omega arith) (omega arith)) (
    drain-upfrom part (suc a) n (remove a m) (out ++ part a)
      (λ k ge lt. rw (get-remove a k m) (ground (arith, h k (omega arith) (omega arith))))
    ∙ ap (λ (t : Text). some t) (append_assoc out (part a) (joined part (suc a) n)))

contains-keys_of : (k : ℕ) (m : Map ℕ Text) → get k m ≡ none → contains (keys_of m) k ≡ false
unfolding get contains
contains-keys_of k [] h = refl
contains-keys_of k ((j, v) ∷ m) h = ground (arith, contains-keys_of k m)

Distinct-keys_of : (m : Map ℕ Text) → HasUniqueKeys m → Distinct (keys_of m)
Distinct-keys_of [] u = tt
Distinct-keys_of ((k, v) ∷ m) u = (contains-keys_of k m u.0, Distinct-keys_of m u.1)

length-keys_of : (m : Map ℕ Text) → length (keys_of m) ≡ length m
length-keys_of [] = refl
length-keys_of (e ∷ m) = omega (arith, length-keys_of m)

-- A buffer that holds all its parts gives them in the order of their numbers.
pub reassemble-joined :
    (part : ℕ → Text) (b : ReassemblyBuf)
    → HasUniqueKeys b.fragments
    → Below b.total (keys_of b.fragments)
    → length b.fragments ≡ b.total
    → ((k : ℕ) → k < b.total → get k b.fragments ≡ some (part k))
    → reassemble b ≡ some (joined part 0 b.total)
unfolding reassemble
reassemble-joined part b u below full holds =
    let ks : List ℕ = sort_unstable (keys_of b.fragments) in
    let size : length ks ≡ b.total =
      omega (arith, length-sort_unstable (keys_of b.fragments), length-keys_of b.fragments) in
    let order : ks ≡ upfrom 0 (length ks) =
      Ascending-full 0 b.total ks (omega arith)
        (sort_unstable-Ascending (keys_of b.fragments) (Distinct-keys_of b.fragments u))
        (sort_unstable-Below b.total (keys_of b.fragments) below) in
    rw order (
      rw size (drain-upfrom part 0 b.total b.fragments [] (λ k ge lt. holds k (omega (arith, lt)))))

contains-upfrom : (a n k : ℕ) → a ≤ k → k < a + n → contains (upfrom a n) k ≡ true
unfolding contains
contains-upfrom a zero k ge lt = ground arith
contains-upfrom a (suc n) k ge lt = ground (arith, contains-upfrom (suc a) n k, ==_iff a k)

-- Distinct numbers below a bound are no more than it.
pub length-fragments-le :
    (n : ℕ) (m : Map ℕ Text) → HasUniqueKeys m → Below n (keys_of m) → length m ≤ n
length-fragments-le n m u below = omega (
  arith,
  length-keys_of m,
  length-sort_unstable (keys_of m),
  Ascending-room 0 n (sort_unstable (keys_of m)) (omega arith)
      (sort_unstable-Ascending (keys_of m) (Distinct-keys_of m u))
      (sort_unstable-Below n (keys_of m) below),
)

-- A buffer with as many parts as the stream has misses none.
pub complete_holds :
    (n k : ℕ) (m : Map ℕ Text)
    → HasUniqueKeys m
    → Below n (keys_of m)
    → length m ≡ n
    → k < n
    → (part : Text) × (get k m ≡ some part)
complete_holds n k m u below full lt =
    let ks : List ℕ = sort_unstable (keys_of m) in
    let size : length ks ≡ n = omega (arith, length-sort_unstable (keys_of m), length-keys_of m) in
    let order : ks ≡ upfrom 0 (length ks) =
      Ascending-full 0 n ks (omega arith)
        (sort_unstable-Ascending (keys_of m) (Distinct-keys_of m u))
        (sort_unstable-Below n (keys_of m) below) in
    let there : contains ks k ≡ true =
      rw order (contains-upfrom 0 (length ks) k (omega arith) (omega arith)) in
    elim (Option-cases (get k m)) [
      | inl e ↦ ground (arith, contains-keys_of k m e, contains-sort_unstable k (keys_of m), there)
      | inr p ↦ p
    ]
