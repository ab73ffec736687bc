-- ===== src/Ipc/Connection/Collected.antt =====
-- The buffer of a stream whose fragments come in one by one.
use veyron.Prelude.{
  [], ◌∷◌, none, some, true, false, refl, text_eq, nat_eq, arith, if◌then◌else◌, ==_iff, ==_refl,
  ◌≡◌, zero, suc, List, Text, ℕ, contains, ◌≤◌, length, Distinct, ◌<◌, ◌+◌,
}
use veyron.Registry.Types.{Instant}
use veyron.Prelude.Maps.{get, get-insert}
use veyron.Ipc.Reassembly.{ReassemblyBuf}
use veyron.Ipc.Reassembly.Ordered.{joined, complete_holds}
use veyron.Ipc.Connection.Buffers.{IsBuffer, with_fragment, part_of, length-insert}

-- The bytes of the parts with these numbers.
abbrev pub bytes_of : (ℕ → Text) → List ℕ → ℕ
bytes_of part [] = 0
bytes_of part (k ∷ ks) = length (part k) + bytes_of part ks

-- The numbers of the list are distinct, and none is among those given.
abbrev pub NewTo : List ℕ → List ℕ → Type 0
NewTo done [] = Unit
NewTo done (k ∷ ks) = (contains done k ≡ false) × NewTo (k ∷ done) ks

pub Distinct-NewTo :
    (done ks : List ℕ)
    → Distinct ks
    → ((k : ℕ) → contains ks k ≡ true → contains done k ≡ false)
    → NewTo done ks
unfolding contains
Distinct-NewTo done [] d h = tt
Distinct-NewTo done (k ∷ ks) d h = (
  h k (ground (arith, ==_refl k)),
  Distinct-NewTo (k ∷ done) ks d.1 (λ j there. ground (arith, h j, there, d.0, ==_iff k j)),
)

-- The buffer of a stream of `n` parts of which those with the numbers in `done` have come.
pub record IsCollected (n : ℕ) (part : ℕ → Text) (t0 : Instant) (target : List ℕ) (done : List ℕ)
    (b : ReassemblyBuf) : Type 0 where
  pub has_total : b.total ≡ n
  pub has_first_seen : b.first_seen ≡ t0
  pub has_target : b.target ≡ target
  pub holds : (k : ℕ) → get k b.fragments ≡ (if contains done k then some (part k) else none)
  pub count : length b.fragments ≡ length done
  pub bytes_held : b.buffered_bytes ≡ bytes_of part done

module _ {n : ℕ} {part : ℕ → Text} {t0 : Instant} {target : List ℕ} {done : List ℕ}
    (b : ReassemblyBuf) (c : IsCollected n part t0 target done b) where
  pub with_fragment-IsCollected :
      (k : ℕ)
      → contains done k ≡ false
      → IsCollected n part t0 target (k ∷ done) (with_fragment k (part k) b)
  unfolding contains
  with_fragment-IsCollected k new_one =
      let missing : get k b.fragments ≡ none = ground (arith, c.holds k, new_one) in
      record {
        has_total = c.has_total;
        has_first_seen = c.has_first_seen;
        has_target = c.has_target;
        holds = λ j. ground (arith, get-insert k j (part k) b.fragments, c.holds j, ==_iff k j);
        count = ground (arith, length-insert k (part k) b.fragments, missing, c.count);
        bytes_held = ground (arith, missing, c.bytes_held);
      }

joined-ext :
    (f g : ℕ → Text) (a n : ℕ)
    → ((k : ℕ) → a ≤ k → k < a + n → f k ≡ g k)
    → joined f a n ≡ joined g a n
joined-ext f g a zero h = refl
joined-ext f g a (suc n) h =
    let here : f a ≡ g a = h a (omega arith) (omega arith) in
    let rest : joined f (suc a) n ≡ joined g (suc a) n =
      joined-ext f g (suc a) n (λ k ge lt. h k (omega arith) (omega arith)) in
    rw (here, rest) refl

-- With all of them, its parts are those of the stream.
pub joined_collected :
    {n : ℕ} {part : ℕ → Text} {t0 : Instant} {target : List ℕ} {done : List ℕ} (max : ℕ)
    (b : ReassemblyBuf)
    → IsCollected n part t0 target done b
    → IsBuffer max b
    → length done ≡ n
    → joined (part_of b) 0 b.total ≡ joined part 0 n
joined_collected {n} {part} {t0} {target} {done} max b c good full = rw c.has_total (
    joined-ext (part_of b) part 0 n (λ k ge lt.
      let (p, e) =
        complete_holds b.total k b.fragments good.unique good.below
          (omega (arith, c.count, full, c.has_total)) (omega (arith, lt, c.has_total)) in
      ground (arith, c.holds k, e)))
