-- ===== src/Disk/IdSet.antt =====
-- `std::set<page_id_t>` as an ascending list: `begin()` is its head.
use dawn.Base.{
  ℕ, suc, ◌+◌, ◌≤◌, ◌<◌, ◌≡◌, ◌≢◌, inl, inr, refl, Bool, true, false, ◌&&◌, ◌||◌, not, List, [],
  ◌∷◌, ltb, ◌==◌, if◌then◌else◌, arith, Bool-cases, ltb→lt, zero,
}

-- every member is `lo` at least, and each is above the one before
abbrev pub Ascending : ℕ → List ℕ → Type 0
Ascending lo [] = Unit
Ascending lo (x ∷ xs) = (lo ≤ x) × Ascending (suc x) xs

abbrev pub member : ℕ → List ℕ → Bool
member y [] = false
member y (x ∷ xs) = x == y || member y xs

unfoldable pub insert : ℕ → List ℕ → List ℕ
insert y [] = y ∷ []
insert y (x ∷ xs) =
    let rest = x ∷ insert y xs in if ltb y x then y ∷ x ∷ xs else if x == y then x ∷ xs else rest

unfoldable pub erase : ℕ → List ℕ → List ℕ
erase y [] = []
erase y (x ∷ xs) = let rest = x ∷ erase y xs in if x == y then xs else rest

-- the ids from `lo` on, `n` of them
unfoldable pub ids : ℕ → ℕ → List ℕ
ids lo zero = []
ids lo (suc n) = lo ∷ ids (suc lo) n

-- the last member, or `d`
unfoldable pub last : ℕ → List ℕ → ℕ
last d [] = d
last d (x ∷ xs) = last x xs

pub member-insert : (y z : ℕ) (xs : List ℕ) → member z (insert y xs) ≡ (y == z || member z xs)
unfolding insert
member-insert y z [] = refl
member-insert y z (x ∷ xs) = ground (arith, member-insert y z xs)

pub member_below : (lo z : ℕ) (xs : List ℕ) → Ascending lo xs → z < lo → member z xs ≡ false
member_below lo z [] a h = refl
member_below lo z (x ∷ xs) a h = ground (arith, member_below (suc x) z xs a.1)

pub member-erase :
    (lo y z : ℕ) (xs : List ℕ)
    → Ascending lo xs
    → member z (erase y xs) ≡ (not (y == z) && member z xs)
unfolding erase
member-erase lo y z [] a = ground arith
member-erase lo y z (x ∷ xs) a =
    ground (arith, member-erase (suc x) y z xs a.1, member_below (suc x) z xs a.1)

pub Ascending-insert :
    (lo y : ℕ) (xs : List ℕ) → Ascending lo xs → lo ≤ y → Ascending lo (insert y xs)
unfolding insert
Ascending-insert lo y [] a h = (h, tt)
Ascending-insert lo y (x ∷ xs) a h = elim (Bool-cases (ltb y x)) [
  | inl t ↦ rw t (h, (ltb→lt y x t, a.1))
  | inr t ↦ elim (Bool-cases (x == y)) [
    | inl same ↦ rw (t, same) a
    | inr other ↦ rw (t, other) (a.0, Ascending-insert (suc x) y xs a.1 (ground arith))
  ]
]

pub Ascending-mono : (lo lo' : ℕ) (xs : List ℕ) → lo' ≤ lo → Ascending lo xs → Ascending lo' xs
Ascending-mono lo lo' [] h a = tt
Ascending-mono lo lo' (x ∷ xs) h a = (omega (arith, a.0), a.1)

pub Ascending-erase : (lo y : ℕ) (xs : List ℕ) → Ascending lo xs → Ascending lo (erase y xs)
unfolding erase
Ascending-erase lo y [] a = tt
Ascending-erase lo y (x ∷ xs) a = elim (Bool-cases (x == y)) [
  | inl t ↦ rw t (Ascending-mono (suc x) lo xs (omega (arith, a.0)) a.1)
  | inr t ↦ rw t (a.0, Ascending-erase (suc x) y xs a.1)
]

pub Ascending-ids : (lo n : ℕ) → Ascending lo (ids lo n)
unfolding ids
Ascending-ids lo zero = tt
Ascending-ids lo (suc n) = (omega arith, Ascending-ids (suc lo) n)

pub member-ids : (lo n z : ℕ) → member z (ids lo n) ≡ (not (ltb z lo) && ltb z (lo + n))
unfolding ids
member-ids lo zero z = ground arith
member-ids lo (suc n) z = ground (arith, member-ids (suc lo) n z)

-- the last member is the largest
pub last-le : (lo d z : ℕ) (xs : List ℕ) → Ascending lo xs → member z xs ≡ true → z ≤ last d xs
unfolding last
last-le lo d z [] a h = cc
last-le lo d z (x ∷ []) a h = ground arith
last-le lo d z (x ∷ y ∷ xs) a h =
    let step : member y (y ∷ xs) ≡ true = ground arith in
    let up = last-le (suc x) x y (y ∷ xs) a.1 step in
    elim (Bool-cases (x == z)) [
      | inl same ↦ ground arith
      | inr other ↦ last-le (suc x) x z (y ∷ xs) a.1 (rw other at h)
    ]

pub member-last : (d : ℕ) (xs : List ℕ) → xs ≢ [] → member (last d xs) xs ≡ true
unfolding last
member-last d [] h = absurd (h refl)
member-last d (x ∷ []) h = ground arith
member-last d (x ∷ y ∷ xs) h = ground (arith, member-last x (y ∷ xs) (λ e. cc))
