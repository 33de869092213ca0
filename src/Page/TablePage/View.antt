-- ===== src/Page/TablePage/View.antt =====
-- A table page as a partial map from slots to tuples, each with its delete mark, and the reads of
-- that map by `get_tuple`.
use dawn.Base.{
  ℕ, zero, suc, ◌+◌, ◌-◌, ◌*◌, ◌%◌, ◌≤◌, ◌<◌, ◌≡◌, ◌≢◌, ◌⊎◌, inl, inr, refl, ap, List, Bool, true,
  false, ◌&&◌, ◌||◌, not, Option, none, some, Bool-cases, length, ltb, leb, ◌==◌, if◌then◌else◌,
  arith, ℕ_discrete, ltb→lt, lt→ltb,
}
use dawn.Memory.{Memory, add32, mul32, sub32, slt_small}
use dawn.Page.{Page, Rid, Tuple}
use dawn.Page.TablePage.Layout.{Layout, cnt, fsp, off, siz, len, load-congr, record_offset_lem}
use dawn.Page.TablePage.{load, is_missing, get_tuple, get_free_space, record_offset, slots}

-- the page has no slot left out
abbrev pub IsValid : Page → Type 0
IsValid p = Layout (cnt p.data_) p.data_

abbrev pub Slot : Type 0
Slot = Option (Bool × List ℕ)

unfoldable pub view : Memory → ℕ → Slot
view m i =
    if ltb i (cnt m) && not (off m i == 0)
    then some (leb 2147483648 (siz m i), load m (off m i) (len m i))
    else none

-- what `get_tuple` returns at a slot
abbrev pub reads : Slot → Tuple → Rid → Bool × Tuple
reads none tuple rid = (false, tuple)
reads (some (_, bytes)) tuple rid =
    (true, record { allocated = true; rid = rid; size = length bytes; bytes = bytes })

pub length-load : (m : Memory) (at n : ℕ) → length (load m at n) ≡ n
unfolding load
length-load m at zero = refl
length-load m at (suc n) = ap suc (length-load m (at + 1) n)

-- A slot reads the same where the number of slots, the slot's record and its bytes agree.
pub view-congr :
    (m m' : Memory) (i : ℕ)
    → ltb i (cnt m') ≡ ltb i (cnt m)
    → (i < cnt m → off m' i ≡ off m i)
    → (i < cnt m → off m i ≢ 0 → siz m' i ≡ siz m i)
    → (i < cnt m → off m i ≢ 0 → (x : ℕ) → off m i ≤ x → x < off m i + len m i → m' x ≡ m x)
    → view m' i ≡ view m i
unfolding view
view-congr m m' i c o s b = elim (Bool-cases (ltb i (cnt m))) [
  | inr out ↦ rw (c, out)
  | inl there ↦
      let lt = ltb→lt i (cnt m) there in
      elim (ℕ_discrete (off m i) 0) [
        | yes e ↦ rw (c, there, o lt, e)
        | no ne ↦ rw (c, there, o lt, s lt ne, load-congr m' m (off m i) (len m i) (b lt ne))
      ]
]

-- A used slot.
pub view_lem :
    (m : Memory) (i : ℕ)
    → i < cnt m
    → off m i ≢ 0
    → view m i ≡ some (leb 2147483648 (siz m i), load m (off m i) (len m i))
unfolding view
view_lem m i lt ne =
    let used : (off m i == 0) ≡ false = ground arith in rw (lt→ltb i (cnt m) lt, used)

-- A free slot.
pub view_unused : (m : Memory) (i : ℕ) → (cnt m ≤ i) ⊎ (off m i ≡ 0) → view m i ≡ none
unfolding view
view_unused m i (inl past) = let t : ltb i (cnt m) ≡ false = ground arith in rw t
view_unused m i (inr e) = elim (Bool-cases (ltb i (cnt m))) [ inl t ↦ rw (t, e) | inr t ↦ rw t ]

-- A used slot whose size has no delete mark.
pub view_used :
    (m : Memory) (i : ℕ)
    → i < cnt m
    → off m i ≢ 0
    → siz m i < 2147483648
    → view m i ≡ some (false, load m (off m i) (siz m i))
unfolding view
view_used m i lt ne small =
    let used : (off m i == 0) ≡ false = ground arith in
    let live : leb 2147483648 (siz m i) ≡ false = ground arith in
    let same : len m i ≡ siz m i = omega arith in rw (lt→ltb i (cnt m) lt, used, live, same)

masked : (z : ℕ) → (if leb 2147483648 z then z % 2147483648 else z) ≡ z % 2147483648
masked z = ground arith

pub size_offset : (i : ℕ) → i < 500 → record_offset i + 4 ≡ 148 + 8 * i
size_offset i h = rw (record_offset_lem i h) (omega arith)

module _ (p : Page) (v : IsValid p) where
  pub count-le : cnt p.data_ ≤ 494
  count-le = omega (arith, v.floor, v.ceiling)

  pub slots_lem : slots p ≡ cnt p.data_
  slots_lem = let small = count-le in ground arith

  pub free_space : get_free_space p ≡ fsp p.data_ - (144 + 8 * cnt p.data_)
  unfolding sub32 add32 mul32
  free_space = omega (arith, v.floor, v.ceiling)

  pub is_missing_lem :
      (i : ℕ) → i < 500 → is_missing p i ≡ (not (ltb i (cnt p.data_)) || off p.data_ i == 0)
  is_missing_lem i h =
      rw (record_offset_lem i h, slt_small i (cnt p.data_) (omega arith) (omega (arith, count-le)))

  -- On a valid page `get_tuple` at one of the first 500 slots returns the tuple that stands there,
  -- with the page's own copy of its bytes, marked as deleted or not; on a free slot it fails and
  -- leaves its argument.
  pub get_tuple-view :
      (t : Tuple) (rid : Rid)
      → rid.slot_num < 500
      → get_tuple p t rid ≡ reads (view p.data_ rid.slot_num) t rid
  unfolding get_tuple view
  get_tuple-view t rid h =
      let m = p.data_ in
      let i = rid.slot_num in
      rw (is_missing_lem i h, size_offset i h, record_offset_lem i h, masked (siz m i))
        (elim (Bool-cases (ltb i (cnt m))) [
          | inr out ↦ rw (out, view)
          | inl there ↦ elim (Bool-cases (off m i == 0)) [
            | inl free ↦ rw (there, free, view)
            | inr used ↦ rw (there, used, view, length-load)
          ]
        ])
