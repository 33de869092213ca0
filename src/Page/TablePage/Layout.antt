-- ===== src/Page/TablePage/Layout.antt =====
-- How a table page is laid out, and what a write of one tuple with its record does to the layout.
use dawn.Base.{
  ℕ, zero, suc, ◌+◌, ◌*◌, ◌%◌, ◌≤◌, ◌<◌, ◌≡◌, ◌≢◌, ◌⊎◌, inl, inr, refl, sym, ap, ◌∙◌, List, arith,
  length, get_or, ℕ_discrete,
}
use dawn.Memory.{
  Memory, read32, write32, memcpy, u32_mod, add32, mul32, Apart, read32-write32,
  read32-write32-Apart, write32_outside, read32-memcpy,
}
use dawn.Page.TablePage.{record_offset, load}

abbrev pub cnt : Memory → ℕ
cnt m = read32 m 140

abbrev pub fsp : Memory → ℕ
fsp m = read32 m 72

abbrev pub off : Memory → ℕ → ℕ
off m i = read32 m (144 + 8 * i)

abbrev pub siz : Memory → ℕ → ℕ
siz m i = read32 m (148 + 8 * i)

-- the size without the delete mark
abbrev pub len : Memory → ℕ → ℕ
len m i = siz m i % 2147483648

-- The records end below the free space pointer, the tuples of the used slots stand above it and
-- do not overlap. The slot `s` is left out; a valid page has `s` past its last slot.
pub record Layout (s : ℕ) (m : Memory) : Type 0 where
  pub floor : 144 + 8 * cnt m ≤ fsp m
  pub ceiling : fsp m ≤ 4096
  pub above : (i : ℕ) → i < cnt m → i ≢ s → off m i ≢ 0 → fsp m ≤ off m i
  pub below : (i : ℕ) → i < cnt m → i ≢ s → off m i ≢ 0 → off m i + len m i ≤ 4096
  pub sized : (i : ℕ) → i < cnt m → i ≢ s → off m i ≢ 0 → siz m i < u32_mod
  pub filled : (i : ℕ) → i < cnt m → i ≢ s → off m i ≢ 0 → 0 < len m i
  pub apart :
      (i j : ℕ)
      → i < cnt m
      → j < cnt m
      → i ≢ s
      → j ≢ s
      → i ≢ j
      → off m i ≢ 0
      → off m j ≢ 0
      → (off m i + len m i ≤ off m j) ⊎ (off m j + len m j ≤ off m i)

-- A layout depends only on the counts, the offsets, the lengths and the bound on the sizes.
pub Layout-congr :
    (m m' : Memory)
    → cnt m' ≡ cnt m
    → fsp m' ≡ fsp m
    → ((i : ℕ) → off m' i ≡ off m i)
    → ((i : ℕ) → len m' i ≡ len m i)
    → ((i : ℕ) → i < cnt m → off m i ≢ 0 → siz m' i < u32_mod)
    → Layout (cnt m) m
    → Layout (cnt m') m'
Layout-congr m m' c f o l z v = record {
  floor = rw (c, f) v.floor;
  ceiling = rw f v.ceiling;
  above = λ i h s u. rw (f, o i) (v.above i (rw c at h) (λ e. s (e ∙ sym c)) (rw (o i) at u));
  below = λ i h s u. rw (l i, o i) (v.below i (rw c at h) (λ e. s (e ∙ sym c)) (rw (o i) at u));
  sized = λ i h s u. z i (rw c at h) (rw (o i) at u);
  filled = λ i h s u. rw (l i) (v.filled i (rw c at h) (λ e. s (e ∙ sym c)) (rw (o i) at u));
  apart = λ i j hi hj si sj ne ui uj.
      rw (l i, o i, l j, o j)
        (v.apart i j (rw c at hi) (rw c at hj) (λ e. si (e ∙ sym c)) (λ e. sj (e ∙ sym c)) ne
          (rw (o i) at ui) (rw (o j) at uj));
}

pub record_offset_lem : (i : ℕ) → i < 500 → record_offset i ≡ 144 + 8 * i
unfolding add32 mul32
record_offset_lem i h = omega arith

pub load-congr :
    (m m' : Memory) (at n : ℕ)
    → ((x : ℕ) → at ≤ x → x < at + n → m x ≡ m' x)
    → load m at n ≡ load m' at n
unfolding load
load-congr m m' at zero same = refl
load-congr m m' at (suc n) same = cc (
  same at (omega arith) (omega arith),
  load-congr m m' (at + 1) n (λ x lo hi. same x (omega arith) (omega arith)),
)

pub get_or-load : (m : Memory) (at n i : ℕ) → i < n → get_or (load m at n) i 0 ≡ m (at + i)
unfolding load
get_or-load m at zero i h = absurd (omega arith)
get_or-load m at (suc n) zero h = ap m (omega arith)
get_or-load m at (suc n) (suc i) h = get_or-load m (at + 1) n i (omega arith) ∙ ap m (omega arith)

pub length-load : (m : Memory) (at n : ℕ) → length (load m at n) ≡ n
unfolding load
length-load m at zero = refl
length-load m at (suc n) = ap suc (length-load m (at + 1) n)

-- the writes of `insert_tuple`, at the slot `k` and the offset `f`
abbrev pub place : Memory → ℕ → ℕ → List ℕ → ℕ → Memory
place m k f bytes n =
    write32 (write32 (write32 (memcpy m f bytes n) 72 f) (144 + 8 * k) f) (148 + 8 * k) n

module _ (m : Memory) (k f : ℕ) (bytes : List ℕ) (n : ℕ) (slot : k < cnt m)
    (room : 144 + 8 * cnt m ≤ f) (fits : f + n ≤ 4096) where
  -- a word that none of the four writes touches
  place-other :
      (b : ℕ)
      → Apart 72 4 b
      → Apart (144 + 8 * k) 8 b
      → Apart f n b
      → read32 (place m k f bytes n) b ≡ read32 m b
  place-other b h1 h2 h3 =
      read32-write32-Apart _ (148 + 8 * k) n b (omega arith)
      ∙ read32-write32-Apart _ (144 + 8 * k) f b (omega arith)
      ∙ read32-write32-Apart _ 72 f b h1
      ∙ read32-memcpy m f bytes n b h3

  -- the words before the free space pointer, the links among them
  pub place-head : (b : ℕ) → b + 4 ≤ 72 → read32 (place m k f bytes n) b ≡ read32 m b
  place-head b h = place-other b (omega arith) (omega arith) (omega arith)

  pub place-cnt : cnt (place m k f bytes n) ≡ cnt m
  place-cnt = place-other 140 (omega arith) (omega arith) (omega arith)

  pub place-off : (i : ℕ) → i < cnt m → i ≢ k → off (place m k f bytes n) i ≡ off m i
  place-off i h ne = place-other (144 + 8 * i) (omega arith) (omega arith) (omega arith)

  pub place-siz : (i : ℕ) → i < cnt m → i ≢ k → siz (place m k f bytes n) i ≡ siz m i
  place-siz i h ne = place-other (148 + 8 * i) (omega arith) (omega arith) (omega arith)

  pub place-siz_self : siz (place m k f bytes n) k ≡ n
  place-siz_self = read32-write32 _ (148 + 8 * k) n (omega arith)

  pub place-off_self : off (place m k f bytes n) k ≡ f
  place-off_self =
      read32-write32-Apart _ (148 + 8 * k) n (144 + 8 * k) (omega arith)
      ∙ read32-write32 _ (144 + 8 * k) f (omega arith)

  pub place-fsp : fsp (place m k f bytes n) ≡ f
  place-fsp =
      read32-write32-Apart _ (148 + 8 * k) n 72 (omega arith)
      ∙ read32-write32-Apart _ (144 + 8 * k) f 72 (omega arith)
      ∙ read32-write32 _ 72 f (omega arith)

  -- the bytes past the records are those of the copy
  pub place-byte : (x : ℕ) → f ≤ x → place m k f bytes n x ≡ memcpy m f bytes n x
  place-byte x h =
      write32_outside _ (148 + 8 * k) n x (omega arith)
      ∙ write32_outside _ (144 + 8 * k) f x (omega arith)
      ∙ write32_outside _ 72 f x (omega arith)

  module _ (lay : Layout k m) (free : f + n ≤ fsp m) (short : n < 2147483648)
      (some_bytes : 0 < n) where
    place-apart :
        let m' = place m k f bytes n in
        (i j : ℕ)
        → i < cnt m
        → j < cnt m
        → i ≢ j
        → off m' i ≢ 0
        → off m' j ≢ 0
        → (off m' i + len m' i ≤ off m' j) ⊎ (off m' j + len m' j ≤ off m' i)
    place-apart i j hi hj ne ui uj = elim (ℕ_discrete i k) [
      | yes e ↦
          let nj : j ≢ k = λ e'. ne (e ∙ sym e') in
          inl (
            rw (e, place-siz_self, place-off_self, place-off j hj nj)
              (omega (arith, lay.above j hj nj (rw (place-off j hj nj) at uj))))
      | no ni ↦ elim (ℕ_discrete j k) [
        | yes e ↦ inr (
            rw (e, place-siz_self, place-off_self, place-off i hi ni)
              (omega (arith, lay.above i hi ni (rw (place-off i hi ni) at ui))))
        | no nj ↦
            rw (place-siz i hi ni, place-siz j hj nj, place-off i hi ni, place-off j hj nj)
              (lay.apart i j hi hj ni nj ne (rw (place-off i hi ni) at ui)
                (rw (place-off j hj nj) at uj))
      ]
    ]

    pub place-Layout : Layout (cnt m) (place m k f bytes n)
    place-Layout = record {
      floor = rw (place-cnt, place-fsp) room;
      ceiling = rw place-fsp (omega arith);
      above = λ i h s u. elim (ℕ_discrete i k) [
        | yes e ↦ rw (e, place-fsp, place-off_self) (omega arith)
        | no ne ↦
            let lt = rw place-cnt at h in
            rw (place-fsp, place-off i lt ne)
              (omega (arith, lay.above i lt ne (rw (place-off i lt ne) at u)))
      ];
      below = λ i h s u. elim (ℕ_discrete i k) [
        | yes e ↦ rw (e, place-siz_self, place-off_self) (omega arith)
        | no ne ↦
            let lt = rw place-cnt at h in
            rw (place-siz i lt ne, place-off i lt ne)
              (lay.below i lt ne (rw (place-off i lt ne) at u))
      ];
      sized = λ i h s u. elim (ℕ_discrete i k) [
        | yes e ↦ rw (e, place-siz_self) (omega arith)
        | no ne ↦
            let lt = rw place-cnt at h in
            rw (place-siz i lt ne) (lay.sized i lt ne (rw (place-off i lt ne) at u))
      ];
      filled = λ i h s u. elim (ℕ_discrete i k) [
        | yes e ↦ rw (e, place-siz_self) (omega arith)
        | no ne ↦
            let lt = rw place-cnt at h in
            rw (place-siz i lt ne) (lay.filled i lt ne (rw (place-off i lt ne) at u))
      ];
      apart = λ i j hi hj si sj ne ui uj.
          place-apart i j (rw place-cnt at hi) (rw place-cnt at hj) ne ui uj;
    }
