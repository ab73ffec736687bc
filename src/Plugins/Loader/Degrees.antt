-- ===== src/Plugins/Loader/Degrees.antt =====
-- The maps that the sort of the plugins works on.
use mathlib.Core.List.{append-nil, append_assoc}
use veyron.Prelude.Maps.{Map, get, insert, get-insert}
use veyron.Plugins.Loader.{
  Deps, release, in_degrees, reversed, zero_degrees, bump_each, push_each, live_deps,
}
use veyron.Prelude.{
  ◌==◌, ◌++◌, [], ◌∷◌, inl, inr, true, false, refl, text_eq, nat_eq, arith, if◌then◌else◌, ==_iff,
  ==_refl, Bool-cases, ◌≡◌, List, Text, ℕ, unwrap_or, contains, ◌-◌, Distinct, ◌+◌, ltb, ◌≤◌,
  length, ◌∙◌, ==_or_not, subst, sym, ◌&&◌,
}

abbrev pub deg : Map Text ℕ → Text → ℕ
deg m x = unwrap_or (get x m) 0

abbrev pub rev_of : Deps → Text → List Text
rev_of rev u = unwrap_or (get u rev) []

abbrev pub count : Text → List Text → ℕ
count x [] = 0
count x (y ∷ ys) = (if y == x then 1 else 0) + count x ys

count-append : (x : Text) (ys zs : List Text) → count x (ys ++ zs) ≡ count x ys + count x zs
count-append x [] zs = omega arith
count-append x (y ∷ ys) zs = omega (arith, count-append x ys zs)

deg-bump_each :
    (id x : Text) (ds : List Text) (m : Map Text ℕ)
    → deg (bump_each id ds m) x ≡ (if id == x then deg m x + length ds else deg m x)
unfolding bump_each
deg-bump_each id x [] m = ground arith
deg-bump_each id x (d ∷ ds) m = ground (
  arith,
  deg-bump_each id x ds (insert id (deg m id + 1) m),
  get-insert id x (deg m id + 1) m,
  ==_iff id x,
)

pub deg-zero_degrees :
    (x : Text) (ids : List Text) (m : Map Text ℕ) → deg m x ≡ 0 → deg (zero_degrees ids m) x ≡ 0
unfolding zero_degrees
deg-zero_degrees x [] m h = h
deg-zero_degrees x (id ∷ ids) m h =
    deg-zero_degrees x ids (insert id 0 m) (ground (arith, get-insert id x 0 m, h))

count-push_each :
    (id x u : Text) (ds : List Text) (rev : Deps)
    → count x (rev_of (push_each id ds rev) u)
      ≡ count x (rev_of rev u) + (if id == x then count u ds else 0)
unfolding push_each
count-push_each id x u [] rev = ground arith
count-push_each id x u (d ∷ ds) rev = ground (
  arith,
  count-push_each id x u ds (insert d (rev_of rev d ++ id ∷ []) rev),
  get-insert d u (rev_of rev d ++ id ∷ []) rev,
  count-append x (rev_of rev d) (id ∷ []),
  ==_iff d u,
)

module _ (deps : Deps) (refused : List Text) where
  deg-in_degrees_other :
      (x : Text) (ids : List Text) (m : Map Text ℕ)
      → contains ids x ≡ false
      → deg (in_degrees deps refused ids m) x ≡ deg m x
  unfolding in_degrees contains
  deg-in_degrees_other x [] m h = refl
  deg-in_degrees_other x (id ∷ ids) m h =
      deg-in_degrees_other x ids (bump_each id (live_deps deps refused id) m) (ground (arith, h))
      ∙ ground (arith, deg-bump_each id x (live_deps deps refused id) m, h)

  pub deg-in_degrees :
      (x : Text) (ids : List Text) (m : Map Text ℕ)
      → Distinct ids
      → contains ids x ≡ true
      → deg (in_degrees deps refused ids m) x ≡ deg m x + length (live_deps deps refused x)
  unfolding in_degrees contains
  deg-in_degrees x [] m d h = absurd (cc)
  deg-in_degrees x (id ∷ ids) m d h =
      let m' : Map Text ℕ = bump_each id (live_deps deps refused id) m in
      elim (==_or_not id x) [
        | inl same ↦
            deg-in_degrees_other x ids m' (subst (λ (t : Text). contains ids t ≡ false) same d.0)
            ∙ (deg-bump_each id x (live_deps deps refused id) m
                ∙ subst
                    (λ (t : Text).
                      (if id == x then deg m x + length (live_deps deps refused id) else deg m x)
                      ≡ deg m x + length (live_deps deps refused t))
                    same (ground (arith, ==_iff id x, same)))
        | inr other ↦
            deg-in_degrees x ids m' d.1 (ground (arith, h, ==_iff id x, other))
            ∙ ground (arith, deg-bump_each id x (live_deps deps refused id) m, ==_iff id x, other)
      ]

  count-reversed_other :
      (x u : Text) (ids : List Text) (rev : Deps)
      → contains ids x ≡ false
      → count x (rev_of (reversed deps refused ids rev) u) ≡ count x (rev_of rev u)
  unfolding reversed contains
  count-reversed_other x u [] rev h = refl
  count-reversed_other x u (id ∷ ids) rev h =
      count-reversed_other x u ids (push_each id (live_deps deps refused id) rev)
        (ground (arith, h))
      ∙ ground (arith, count-push_each id x u (live_deps deps refused id) rev, h)

  count-reversed_one :
      (x u : Text) (ids : List Text) (rev : Deps)
      → Distinct ids
      → contains ids x ≡ true
      → count x (rev_of (reversed deps refused ids rev) u)
        ≡ count x (rev_of rev u) + count u (live_deps deps refused x)
  unfolding reversed contains
  count-reversed_one x u [] rev d h = absurd (cc)
  count-reversed_one x u (id ∷ ids) rev d h =
      let rev' : Deps = push_each id (live_deps deps refused id) rev in
      elim (==_or_not id x) [
        | inl same ↦
            count-reversed_other x u ids rev'
              (subst (λ (t : Text). contains ids t ≡ false) same d.0)
            ∙ (count-push_each id x u (live_deps deps refused id) rev
                ∙ subst
                    (λ (t : Text).
                      count x (rev_of rev u)
                        + (if id == x then count u (live_deps deps refused id) else 0)
                      ≡ count x (rev_of rev u) + count u (live_deps deps refused t))
                    same (ground (arith, ==_iff id x, same)))
        | inr other ↦
            count-reversed_one x u ids rev' d.1 (ground (arith, h, ==_iff id x, other))
            ∙ ground
                (arith, count-push_each id x u (live_deps deps refused id) rev, ==_iff id x, other)
      ]

  -- How often a plugin is among the dependants of another.
  pub count-reversed :
      (x u : Text) (ids : List Text)
      → Distinct ids
      → count x (rev_of (reversed deps refused ids []) u)
        ≡ (if contains ids x then count u (live_deps deps refused x) else 0)
  unfolding get
  count-reversed x u ids d = elim (Bool-cases (contains ids x)) [
    | inl there ↦ rw there (omega (arith, count-reversed_one x u ids [] d there))
    | inr not_there ↦ rw not_there (omega (arith, count-reversed_other x u ids [] not_there))
  ]

-- What a release does: each dependant loses as many requirements as it is named, and those that
-- thereby lose their last one go to the end of the queue, each once.
pub record IsReleased (ds : List Text) (d : Map Text ℕ) (queue : List Text)
    (r : Map Text ℕ × List Text) : Type 0 where
  pub added : List Text
  pub queue_lem : r.1 ≡ queue ++ added
  pub left : (x : Text) → deg r.0 x ≡ deg d x - count x ds
  pub distinct : Distinct added
  pub released : (x : Text) → contains added x ≡ (ltb 0 (count x ds) && (deg d x == count x ds))

pub release-IsReleased :
    (ds : List Text) (d : Map Text ℕ) (queue : List Text)
    → ((x : Text) → count x ds ≤ deg d x)
    → IsReleased ds d queue (release ds d queue)
unfolding release contains
release-IsReleased [] d queue h = record {
  added = [];
  queue_lem = sym (append-nil queue);
  left = λ x. omega arith;
  distinct = tt;
  released = λ x. refl;
}
release-IsReleased (y ∷ ds) d queue h =
    let d' : Map Text ℕ = insert y (deg d y - 1) d in
    let enough : (x : Text) → count x ds ≤ deg d' x =
      λ (x : Text). ground (arith, h x, get-insert y x (deg d y - 1) d, ==_iff y x) in
    elim (Bool-cases (deg d y - 1 == 0)) [
      | inl gone ↦
          let r = release-IsReleased ds d' (queue ++ y ∷ []) enough in
          rw (release, gone)
            record {
              added = y ∷ r.added;
              queue_lem = r.queue_lem ∙ append_assoc queue (y ∷ []) r.added;
              left = λ x. ground (arith, r.left x, get-insert y x (deg d y - 1) d, ==_iff y x);
              distinct = (
                ground (arith, r.released y, get-insert y y (deg d y - 1) d, ==_refl y, gone),
                r.distinct,
              );
              released = λ x.
                  ground (
                    arith,
                    r.released x,
                    get-insert y x (deg d y - 1) d,
                    ==_iff y x,
                    h x,
                    h y,
                    gone,
                  );
            }
      | inr more ↦
          let r = release-IsReleased ds d' queue enough in
          rw (release, more)
            record {
              added = r.added;
              queue_lem = r.queue_lem;
              left = λ x. ground (arith, r.left x, get-insert y x (deg d y - 1) d, ==_iff y x);
              distinct = r.distinct;
              released = λ x.
                  ground (
                    arith,
                    r.released x,
                    get-insert y x (deg d y - 1) d,
                    ==_iff y x,
                    h x,
                    h y,
                    more,
                  );
            }
    ]
