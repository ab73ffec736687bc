-- ===== src/Plugins/Loader/Ends.antt =====
-- What the sort of the plugins answers.
use mathlib.Core.List.{append-nil}
use veyron.Prelude.Maps.{Map, get}
use veyron.Plugins.Loader.{Deps, place, in_degrees, zero_degrees, live_deps, topo_sort}
use veyron.Plugins.Loader.Degrees.{deg-zero_degrees, deg-in_degrees}
use veyron.Plugins.Loader.Order.{
  IsPlacing, IsPlacing-step, missing, missing_nothing, Distinct-room, rev, RequirementsFirst,
}
use veyron.Prelude.{
  ◌≢◌, ◌==◌, ◌++◌, [], ◌∷◌, some, inl, inr, true, false, refl, text_eq, nat_eq, arith, ==_iff,
  ==_refl, Bool-cases, ◌≡◌, zero, suc, List, Bool, Text, ℕ, Distinct, contains, retain, length,
  unwrap_or, ◌≤◌, ◌&&◌, ==_or_not, ◌+◌, ◌∙◌, sym, subst, length-append, not, ◌⊎◌, length-retain-le,
  ap, ltb,
}

contains-retain :
    (test : Text → Bool) (xs : List Text) (x : Text)
    → contains (retain test xs) x ≡ (contains xs x && test x)
unfolding contains retain
contains-retain test [] x = refl
contains-retain test (y ∷ xs) x = elim (==_or_not y x) [
  | inl same ↦
      subst (λ (t : Text). contains (retain test (y ∷ xs)) t ≡ (contains (y ∷ xs) t && test t)) same
        (ground (arith, contains-retain test xs y, ==_refl y))
  | inr other ↦ ground (arith, contains-retain test xs x, ==_iff y x, other)
]

Distinct-retain : (test : Text → Bool) (xs : List Text) → Distinct xs → Distinct (retain test xs)
unfolding contains retain
Distinct-retain test [] d = tt
Distinct-retain test (y ∷ xs) d =
    ground (arith, Distinct-retain test xs d.1, contains-retain test xs y, d.0)

-- Where distinct members of a list are as many as it has, they are all of it.
Distinct-full :
    (xs ys : List Text)
    → Distinct xs
    → ((x : Text) → contains xs x ≡ true → contains ys x ≡ true)
    → length ys ≤ length xs
    → (y : Text) → contains xs y ≡ contains ys y
unfolding contains
Distinct-full xs ys d h le y = elim (Bool-cases (contains xs y)) [
  | inl there ↦ there ∙ sym (h y there)
  | inr gone ↦ elim (Bool-cases (contains ys y)) [
    | inr gone' ↦ gone ∙ sym gone'
    | inl there ↦ absurd (
        omega (
          arith,
          le,
          Distinct-room (y ∷ xs) ys (gone, d)
              (λ x at_x. elim (==_or_not y x) [
                | inl same ↦ subst (λ (t : Text). contains ys t ≡ true) same there
                | inr other ↦ h x (ground (arith, at_x, ==_iff y x, other))
              ]),
        ))
  ]
]

-- Not all of the list are placed, so some one is not.
some_missing :
    (order ds : List Text)
    → missing order ds ≢ 0
    → (d : Text) × (contains ds d ≡ true) × (contains order d ≡ false)
unfolding contains
some_missing order [] h = absurd (h refl)
some_missing order (d ∷ ds) h = elim (Bool-cases (contains order d)) [
  | inr gone ↦ (d, ground (arith, ==_refl d), gone)
  | inl there ↦
      let (e, at_e, gone) = some_missing order ds (λ p. h (ground (arith, there, p))) in
      (e, ground (arith, at_e), gone)
]

module _ (deps : Deps) (refused active : List Text) (distinct_ids : Distinct active) where
  place_ends :
      (rounds : ℕ) (order queue : List Text) (d : Map Text ℕ)
      → IsPlacing deps refused active distinct_ids order queue d
      → length active ≤ rounds + length order
      → (order' : List Text) × (d' : Map Text ℕ) × (place rounds
            (rev deps refused active distinct_ids)
            d
            queue
            order
          ≡ some order')
        × IsPlacing deps refused active distinct_ids order' [] d'
  unfolding place
  place_ends rounds order [] d p enough = (order, d, refl, p)
  place_ends zero order (id ∷ queue) d p enough = absurd (
      omega (
        arith,
        enough,
        Distinct-room (order ++ id ∷ queue) active p.distinct p.members,
        length-append order (id ∷ queue),
      ))
  place_ends (suc rounds) order (id ∷ queue) d p enough =
      place_ends rounds (order ++ id ∷ []) _ _
        (IsPlacing-step deps refused active distinct_ids order queue id d p)
        (omega (arith, enough, length-append order (id ∷ [])))

  abbrev degrees : Map Text ℕ
  degrees = in_degrees deps refused active (zero_degrees active [])

  starts :
      IsPlacing deps refused active distinct_ids []
        (retain (λ id. unwrap_or (get id degrees) 0 == 0) active)
        degrees
  unfolding get contains
  starts =
      let test : Text → Bool = λ id. unwrap_or (get id degrees) 0 == 0 in
      record {
        degrees = λ x there.
            deg-in_degrees deps refused x active (zero_degrees active []) distinct_ids there
            ∙ omega (
              arith,
              deg-zero_degrees x active [] refl,
              missing_nothing (live_deps deps refused x),
            );
        distinct = Distinct-retain test active distinct_ids;
        members = λ x there. ground (arith, contains-retain test active x, there);
        waiting = λ x there. ground (arith, contains-retain test active x, there);
        placed = tt;
        complete =
            λ x there none_left. ground (arith, contains-retain test active x, there, none_left);
      }

-- The order places every plugin of the list once, and each behind its requirements.
pub record IsOrder (deps : Deps) (refused active order : List Text) : Type 0 where
  pub places : (x : Text) → contains order x ≡ contains active x
  pub once : Distinct order
  pub requirements_first : RequirementsFirst (live_deps deps refused) [] order

-- The list is not empty, and each plugin in it requires another one of it.
pub record IsTangle (deps : Deps) (refused cycle : List Text) : Type 0 where
  pub some_one : cycle ≢ []
  pub requires :
      (x : Text)
      → contains cycle x ≡ true
      → (d : Text) × (contains (live_deps deps refused x) d ≡ true) × (contains cycle d ≡ true)

abbrev pub active_of : List Text → List Text → List Text
active_of refused ids = retain (λ id. not (contains refused id)) ids

unplaced_cases :
    (active order : List Text) (x : Text)
    → contains (retain (λ id. not (contains order id)) active) x ≡ true
    → (contains active x ≡ true) × (contains order x ≡ false)
unplaced_cases active order x h =
    let e = contains-retain (λ id. not (contains order id)) active x in
    (ground (arith, e, h), ground (arith, e, h))

placed_unless :
    (active order : List Text) (x : Text)
    → retain (λ id. not (contains order id)) active ≡ []
    → contains active x ≡ true
    → contains order x ≡ true
unfolding contains
placed_unless active order x none_left there =
    let e : contains (retain (λ id. not (contains order id)) active) x
        ≡ (contains active x && not (contains order x)) =
      contains-retain (λ id. not (contains order id)) active x in
    let gone : contains (retain (λ id. not (contains order id)) active) x ≡ false =
      ap (λ (t : List Text). contains t x) none_left in
    ground (arith, e, gone, there)

contains_nil : (order : List Text) (x : Text) → contains (order ++ []) x ≡ contains order x
contains_nil order x = ap (λ (t : List Text). contains t x) (append-nil order)

-- Where no id stands twice and each plugin that is not refused requires, besides refused plugins,
-- only plugins of the configuration, the loop over the queue ends within as many rounds as there
-- are ids. Either the sort gives an order that has each plugin that is not refused once and no
-- other, each behind all its requirements but the refused ones; or it reports a list that is not
-- empty and in which each plugin requires one of the list.
pub topo_sort_exact :
    (rounds : ℕ) (ids refused : List Text) (deps : Deps)
    → Distinct ids
    → ((x d : Text)
        → contains (active_of refused ids) x ≡ true
        → contains (live_deps deps refused x) d ≡ true
        → contains (active_of refused ids) d ≡ true)
    → length ids ≤ rounds
    → ((order : List Text) × (topo_sort rounds ids deps refused ≡ some (inr order))
        × IsOrder deps refused (active_of refused ids) order)
      ⊎ ((cycle : List Text) × (topo_sort rounds ids deps refused ≡ some (inl cycle))
          × IsTangle deps refused cycle)
unfolding topo_sort
topo_sort_exact rounds ids refused deps d closed enough =
    let active : List Text = active_of refused ids in
    let distinct' : Distinct active = Distinct-retain (λ id. not (contains refused id)) ids d in
    let (order, degrees', runs, p) =
      place_ends deps refused active distinct' rounds [] _ _ (starts deps refused active distinct')
        (omega (arith, enough, length-retain-le (λ id. not (contains refused id)) ids)) in
    let order_lem : Distinct order = subst Distinct (append-nil order) p.distinct in
    let members' : (x : Text) → contains order x ≡ true → contains active x ≡ true =
      λ (x : Text) there.
        p.members x
          (subst (λ (t : List Text). contains t x ≡ true) (sym (append-nil order)) there) in
    elim (Bool-cases (ltb (length order) (length active))) [
      | inr whole ↦ inl (
        order,
        rw (topo_sort, runs, whole) refl,
        record {
          places = Distinct-full order active order_lem members' (ground (arith, whole));
          once = order_lem;
          requirements_first = p.placed;
        },
      )
      | inl short ↦ inr (
        retain (λ id. not (contains order id)) active,
        rw (topo_sort, runs, short) refl,
        record {
          some_one = λ none_left. absurd (
              ground (
                arith,
                short,
                Distinct-room active order distinct'
                    (λ x there. placed_unless active order x none_left there),
              ));
          requires = λ x there.
              let (here, unplaced) = unplaced_cases active order x there in
              let waits : missing order (live_deps deps refused x) ≢ 0 = λ none_missing. absurd (
                ground (
                  arith,
                  p.complete x here (p.degrees x here ∙ none_missing),
                  contains_nil order x,
                  unplaced,
                )) in
              let (e, required, gone) = some_missing order (live_deps deps refused x) waits in
              (
                e,
                required,
                contains-retain (λ id. not (contains order id)) active e
                    ∙ ground (arith, closed x e here required, gone),
              );
        },
      )
    ]
