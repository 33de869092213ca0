-- ===== src/Executors/Selection.antt =====
-- The selection as a filter of the tuples that its child gives.
use dawn.Base.{
  ℕ, zero, suc, ◌<◌, ◌≡◌, refl, sym, ap, ◌∙◌, Bool, true, false, Option, Option-cases, Bool-cases,
  inl, inr, none, some, List, [], ◌∷◌, length, if◌then◌else◌, arith,
}
use dawn.Data.{Doubles}
use dawn.Executors.{Expression, Next, holds, selection_next}
use dawn.Page.{Tuple}
use dawn.Schema.{Schema}

-- From a state the executor gives these tuples, one at each call, and then no more.
abbrev pub Yields : {X : Type 0} → Next X → X → List Tuple → Type 0
Yields {X = X} next x [] = (t : Tuple) → (u : Tuple) × (x₁ : X) × (next x t ≡ some (false, u, x₁))
Yields {X = X} next x (u ∷ us) =
    (t : Tuple) → (x₁ : X) × (next x t ≡ some (true, u, x₁)) × Yields next x₁ us

-- the tuples of which a test holds
unfoldable pub filter : (Tuple → Bool) → List Tuple → List Tuple
filter keep [] = []
filter keep (u ∷ us) = let rest = filter keep us in if keep u then u ∷ rest else rest

-- the first of them, with the tuples behind it
first_match : (Tuple → Bool) → List Tuple → Option (Tuple × List Tuple)
first_match keep [] = none
first_match keep (u ∷ us) = let rest = first_match keep us in if keep u then some (u, us) else rest

abbrev pair : Tuple → List Tuple → Tuple × List Tuple
pair u us = (u, us)

parted :
    (u : Tuple) (us : List Tuple) (v : Tuple) (vs : List Tuple)
    → some (pair u us) ≡ some (pair v vs)
    → pair u us ≡ pair v vs
parted u us v vs e = ap (λ o. elim o [ none ↦ pair u us | some q ↦ q ]) e

module _ (doubles : Doubles) (predicate : Expression) (schema : Schema) (keep : Tuple → Bool) where
  -- the predicate is defined for these tuples, and the test is its value
  abbrev pub Decides : List Tuple → Type 0
  Decides [] = Unit {0}
  Decides (u ∷ us) = (holds doubles predicate schema u ≡ some (keep u)) × Decides us

  filter-none : (us : List Tuple) → first_match keep us ≡ none → filter keep us ≡ []
  unfolding filter first_match
  filter-none [] e = refl
  filter-none (u ∷ us) e = elim (Bool-cases (keep u)) [
    | inl k ↦ let e₁ = rw (first_match, k) at e in absurd cc
    | inr k ↦ rw k (filter-none us (rw (first_match, k) at e))
  ]

  filter-some :
      (us : List Tuple) (v : Tuple) (rest : List Tuple)
      → first_match keep us ≡ some (v, rest)
      → Decides us
      → (filter keep us ≡ v ∷ filter keep rest) × (length rest < length us) × Decides rest
  unfolding filter first_match
  filter-some [] v rest e decides = absurd cc
  filter-some (u ∷ us) v rest e (h, decides) = elim (Bool-cases (keep u)) [
    | inl k ↦
        let pairs = parted u us v rest (rw (first_match, k) at e) in
        let tails : rest ≡ us = sym (ap (λ (q : Tuple × List Tuple). q.1) pairs) in
        let less : length rest ≡ length us = ap (λ l. length l) tails in
        (
          rw k (ap (λ (q : Tuple × List Tuple). q.0 ∷ filter keep q.1) pairs),
          omega (arith, less),
          rw tails decides,
        )
    | inr k ↦
        let (same, less, d) = filter-some us v rest (rw (first_match, k) at e) decides in
        (rw k same, omega (arith, less), d)
  ]

  module _ {X : Type 0} (child : Next X) where
    -- what the selection gives when the child's tuples are split so
    abbrev Given : ℕ → X → Tuple → Option (Tuple × List Tuple) → Type 0
    Given fuel x t none =
        (u : Tuple) × (x₁ : X) × (selection_next doubles predicate schema child fuel x t
          ≡ some (false, u, x₁))
    Given fuel x t (some (v, rest)) =
        (x₁ : X) × (selection_next doubles predicate schema child fuel x t ≡ some (true, v, x₁))
        × Yields child x₁ rest

    Given-same :
        (m n : ℕ) (x y : X) (t u : Tuple) (o : Option (Tuple × List Tuple))
        → selection_next doubles predicate schema child m x t
          ≡ selection_next doubles predicate schema child n y u
        → Given n y u o
        → Given m x t o
    Given-same m n x y t u none same (v, y₁, e) = (v, y₁, same ∙ e)
    Given-same m n x y t u (some (v, rest)) same (y₁, e, gives) = (y₁, same ∙ e, gives)

    selection_next-Given :
        (us : List Tuple) (fuel : ℕ) (x : X) (t : Tuple)
        → length us < fuel
        → Yields child x us
        → Decides us
        → Given fuel x t (first_match keep us)
    unfolding first_match selection_next
    selection_next-Given us zero x t enough gives decides = absurd (omega (arith, enough))
    selection_next-Given [] (suc fuel) x t enough gives decides =
        let (u, x₁, e) = gives t in (u, x₁, rw (selection_next, e) refl)
    selection_next-Given (u ∷ us) (suc fuel) x t enough gives (h, decides) =
        let (x₁, e, rest) = gives t in
        elim (Bool-cases (keep u)) [
          | inl k ↦ rw k (x₁, rw (selection_next, e, h, k) refl, rest)
          | inr k ↦ rw k (
              Given-same (suc fuel) fuel x x₁ t u (first_match keep us)
                (rw (selection_next, e, h, k) refl)
                (selection_next-Given us fuel x₁ u (omega (arith, enough)) rest decides))
        ]

    selection_next-Yields-bounded :
        (bound : ℕ) (us : List Tuple) (fuel : ℕ) (x : X)
        → length us < bound
        → length us < fuel
        → Yields child x us
        → Decides us
        → Yields (selection_next doubles predicate schema child fuel) x (filter keep us)
    selection_next-Yields-bounded zero us fuel x h enough gives decides = absurd (omega (arith, h))
    selection_next-Yields-bounded (suc bound) us fuel x h enough gives decides =
        elim (Option-cases (first_match keep us)) [
          | inl e ↦
              rw (filter-none us e)
                (λ t. rw e at (selection_next-Given us fuel x t enough gives decides))
          | inr ((v, rest), e) ↦
              let (same, less, d) = filter-some us v rest e decides in
              rw same (λ t.
                let (x₁, ran, left) =
                  rw e at (selection_next-Given us fuel x t enough gives decides) in
                (
                  x₁,
                  ran,
                  selection_next-Yields-bounded bound rest fuel x₁ (omega (arith, less, h))
                      (omega (arith, less, enough)) left d,
                ))
        ]

    -- A selection gives the tuples of its child for which the predicate holds, in their order, and then
    -- no more, if the predicate is defined for the child's tuples. More rounds than there are tuples are
    -- enough for each call.
    pub selection_next-Yields :
        (us : List Tuple) (fuel : ℕ) (x : X)
        → length us < fuel
        → Yields child x us
        → Decides us
        → Yields (selection_next doubles predicate schema child fuel) x (filter keep us)
    selection_next-Yields us fuel x enough gives decides =
        selection_next-Yields-bounded (suc (length us)) us fuel x (omega arith) enough gives decides
