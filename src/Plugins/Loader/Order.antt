-- ===== src/Plugins/Loader/Order.antt =====
-- The sort of the plugins ends, and places requirements first.
use mathlib.Core.List.{append-nil, append_assoc}
use veyron.Prelude.Maps.{Map}
use veyron.Plugins.Loader.{Deps, release, reversed, live_deps}
use veyron.Plugins.Loader.Degrees.{deg, rev_of, count, count-reversed, release-IsReleased}
use veyron.Prelude.{
  ◌++◌, [], ◌∷◌, true, false, refl, text_eq, nat_eq, arith, if◌then◌else◌, ==_iff, ==_refl, ◌≡◌,
  suc, List, Text, ℕ, Distinct, all, contains, without, subst, length, ◌+◌, contains-append, ◌≤◌,
  sym, contains-without, ◌∙◌, without_self, ap,
}

-- How many of the requirements are not yet placed.
abbrev pub missing : List Text → List Text → ℕ
missing order [] = 0
missing order (d ∷ ds) = (if contains order d then 0 else 1) + missing order ds

missing-snoc :
    (order ds : List Text) (id : Text)
    → contains order id ≡ false
    → missing (order ++ id ∷ []) ds + count id ds ≡ missing order ds
unfolding contains
missing-snoc order [] id h = omega arith
missing-snoc order (d ∷ ds) id h =
    ground (
      arith,
      missing-snoc order ds id h,
      contains-append d order (id ∷ []),
      ==_iff id d,
      ==_iff d id,
    )

pub missing-none : (order ds : List Text) → missing order ds ≡ 0 → all (contains order) ds ≡ true
unfolding all
missing-none order [] h = refl
missing-none order (d ∷ ds) h = ground (arith, missing-none order ds, h)

pub missing_nothing : (ds : List Text) → missing [] ds ≡ length ds
unfolding contains
missing_nothing [] = refl
missing_nothing (d ∷ ds) = omega (arith, missing_nothing ds)

-- Each plugin of the list stands behind all its requirements, or those are placed before.
abbrev pub RequirementsFirst : (Text → List Text) → List Text → List Text → Type 0
RequirementsFirst needs before [] = Unit
RequirementsFirst needs before (x ∷ xs) =
    (all (contains before) (needs x) ≡ true) × RequirementsFirst needs (before ++ x ∷ []) xs

RequirementsFirst-snoc :
    (needs : Text → List Text) (before xs : List Text) (y : Text)
    → RequirementsFirst needs before xs
    → all (contains (before ++ xs)) (needs y) ≡ true
    → RequirementsFirst needs before (xs ++ y ∷ [])
RequirementsFirst-snoc needs before [] y h ready =
    (subst (λ (t : List Text). all (contains t) (needs y) ≡ true) (append-nil before) ready, tt)
RequirementsFirst-snoc needs before (x ∷ xs) y h ready = (
  h.0,
  RequirementsFirst-snoc needs (before ++ x ∷ []) xs y h.1 (
      subst (λ (t : List Text). all (contains t) (needs y) ≡ true)
        (sym (append_assoc before (x ∷ []) xs)) ready),
)

Distinct-append :
    (xs ys : List Text)
    → Distinct xs
    → Distinct ys
    → ((x : Text) → contains xs x ≡ true → contains ys x ≡ false)
    → Distinct (xs ++ ys)
unfolding contains
Distinct-append [] ys d e h = e
Distinct-append (x ∷ xs) ys d e h = (
  ground (arith, contains-append x xs ys, d.0, h x, ==_refl x),
  Distinct-append xs ys d.1 e (λ z there. h z (ground (arith, there))),
)

length-without-lt :
    (x : Text) (ys : List Text) → contains ys x ≡ true → suc (length (without x ys)) ≤ length ys
unfolding contains without
length-without-lt x [] h = absurd (cc)
length-without-lt x (y ∷ ys) h =
    ground (arith, length-without-lt x ys, without_self x ys, h, ==_iff y x)

-- Distinct members of a list are no more than it.
pub Distinct-room :
    (xs ys : List Text)
    → Distinct xs
    → ((x : Text) → contains xs x ≡ true → contains ys x ≡ true)
    → length xs ≤ length ys
unfolding contains
Distinct-room [] ys d h = omega arith
Distinct-room (x ∷ xs) ys d h = omega (
  arith,
  Distinct-room xs (without x ys) d.1
      (λ z there. ground (arith, h z, there, d.0, contains-without x z ys, ==_iff x z)),
  length-without-lt x ys (h x (ground (arith, ==_refl x))),
)

module _ (deps : Deps) (refused active : List Text) (distinct_ids : Distinct active) where
  abbrev pub needs : Text → List Text
  needs x = live_deps deps refused x

  abbrev pub rev : Deps
  rev = reversed deps refused active []

  -- The state of the loop.
  pub record IsPlacing (order queue : List Text) (d : Map Text ℕ) : Type 0 where
    pub degrees : (x : Text) → contains active x ≡ true → deg d x ≡ missing order (needs x)
    pub distinct : Distinct (order ++ queue)
    pub members : (x : Text) → contains (order ++ queue) x ≡ true → contains active x ≡ true
    pub waiting : (x : Text) → contains (order ++ queue) x ≡ true → deg d x ≡ 0
    pub placed : RequirementsFirst needs [] order
    pub complete :
        (x : Text) → contains active x ≡ true → deg d x ≡ 0 → contains (order ++ queue) x ≡ true

  fresh_head :
      (order queue : List Text) (id : Text)
      → Distinct (order ++ id ∷ queue)
      → contains order id ≡ false
  unfolding contains
  fresh_head [] queue id d = refl
  fresh_head (x ∷ xs) queue id d = ground (
    arith,
    fresh_head xs queue id d.1,
    contains-append x xs (id ∷ queue),
    d.0,
    ==_iff x id,
    ==_iff id x,
    ==_refl id,
  )

  pub IsPlacing-step :
      (order queue : List Text) (id : Text) (d : Map Text ℕ)
      → IsPlacing order (id ∷ queue) d
      → let next = release (rev_of rev id) d queue in IsPlacing (order ++ id ∷ []) next.1 next.0
  unfolding contains
  IsPlacing-step order queue id d p =
      let fresh : contains order id ≡ false = fresh_head order queue id p.distinct in
      let head_there : contains (order ++ id ∷ queue) id ≡ true =
        ground (arith, contains-append id order (id ∷ queue), ==_refl id) in
      let named : (x : Text)
          → count x (rev_of rev id) ≡ (if contains active x then count id (needs x) else 0) =
        λ (x : Text). count-reversed deps refused x id active distinct_ids in
      let enough : (x : Text) → count x (rev_of rev id) ≤ deg d x =
        λ (x : Text). ground (arith, named x, p.degrees x, missing-snoc order (needs x) id fresh) in
      let r = release-IsReleased (rev_of rev id) d queue enough in
      let whole : (order ++ id ∷ []) ++ (queue ++ r.added) ≡ (order ++ id ∷ queue) ++ r.added =
        append_assoc order (id ∷ []) (queue ++ r.added)
        ∙ sym (append_assoc order (id ∷ queue) r.added) in
      let all_of : (order ++ id ∷ []) ++ (release (rev_of rev id) d queue).1
          ≡ (order ++ id ∷ queue) ++ r.added =
        ap (λ (t : List Text). (order ++ id ∷ []) ++ t) r.queue_lem ∙ whole in
      record {
        degrees = λ x there. ground (
          arith,
          r.left x,
          named x,
          p.degrees x there,
          missing-snoc order (needs x) id fresh,
          there,
        );
        distinct = subst Distinct (sym all_of) (
            Distinct-append (order ++ id ∷ queue) r.added p.distinct r.distinct
              (λ x there. ground (arith, r.released x, p.waiting x there)));
        members = λ x there.
            let there' : contains ((order ++ id ∷ queue) ++ r.added) x ≡ true =
              subst (λ (t : List Text). contains t x ≡ true) all_of there in
            ground (
              arith,
              contains-append x (order ++ id ∷ queue) r.added,
              there',
              p.members x,
              r.released x,
              named x,
            );
        waiting = λ x there.
            let there' : contains ((order ++ id ∷ queue) ++ r.added) x ≡ true =
              subst (λ (t : List Text). contains t x ≡ true) all_of there in
            ground (
              arith,
              contains-append x (order ++ id ∷ queue) r.added,
              there',
              p.waiting x,
              r.released x,
              r.left x,
            );
        complete = λ x there none_left.
            subst (λ (t : List Text). contains t x ≡ true) (sym all_of)
              (ground (
                arith,
                contains-append x (order ++ id ∷ queue) r.added,
                p.complete x there,
                none_left,
                enough x,
                r.released x,
                r.left x,
              ));
        placed = RequirementsFirst-snoc needs [] order id p.placed (
            missing-none order (needs id)
              (sym (p.degrees id (p.members id head_there)) ∙ p.waiting id head_there));
      }
