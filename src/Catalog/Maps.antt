-- ===== src/Catalog/Maps.antt =====
-- The unordered maps of the catalog as association lists. The order of their entries is that of the
-- lists; an `erase` of an entry that is not there changes nothing.
use dawn.Base.{ℕ, Bool, Option, none, some, List, [], ◌∷◌, ◌==◌, if◌then◌else◌}

-- `find`, `insert`, which keeps an entry that is there, and `erase` of an unordered map
module _ {K A : Type 0} (eq : K → K → Bool) where
  unfoldable pub find_key : K → List (K × A) → Option A
  find_key k [] = none
  find_key k ((x, a) ∷ rest) = let later = find_key k rest in if eq x k then some a else later

  unfoldable pub insert_key : K → A → List (K × A) → List (K × A)
  insert_key k a m = elim (find_key k m) [ none ↦ (k, a) ∷ m | some _ ↦ m ]

  unfoldable pub erase_key : K → List (K × A) → List (K × A)
  erase_key k [] = []
  erase_key k ((x, a) ∷ rest) =
      let later = (x, a) ∷ erase_key k rest in if eq x k then rest else later

abbrev pub same_id : ℕ → ℕ → Bool
same_id a b = a == b
