-- ===== src/Page/TablePage/Update.antt =====
-- `update_tuple` on the slots of a page.
use dawn.Base.{
  ℕ, ◌+◌, ◌*◌, ◌≤◌, ◌<◌, ◌≡◌, ◌≢◌, ◌⊎◌, inl, inr, refl, ◌∙◌, ap, true, false, ◌&&◌, not, List,
  length, some, ltb, ◌==◌, if◌then◌else◌, arith, Bool-cases, ℕ_discrete,
}
use dawn.Memory.{Memory, read32, memcpy, read32-memcpy, memcpy_outside}
use dawn.Page.TablePage.Insert.{load-memcpy_self}
use dawn.Page.TablePage.Layout.{Layout, cnt, off, siz, len, record_offset_lem}
use dawn.Page.TablePage.Marks.{there_lem}
use dawn.Page.TablePage.View.{IsValid, view, view-congr, view_used, size_offset}
use dawn.Page.TablePage.{update_tuple, is_missing}
use dawn.Page.{Page, Rid, Tuple, serialize_to}

-- a copy over the tuple of the slot `k`, of the tuple's own length
module _ (m : Memory) (v : Layout (cnt m) m) (k n : ℕ) (bytes : List ℕ) (lt : k < cnt m)
    (used : off m k ≢ 0) (same : siz m k ≡ n) (short : n < 2147483648) where
  abbrev m' : Memory
  m' = memcpy m (off m k) bytes n

  copy_head : (b : ℕ) → b + 4 ≤ 144 + 8 * cnt m → read32 m' b ≡ read32 m b
  copy_head b h =
      let up = v.above k lt (λ e. absurd (omega (arith, e, lt))) used in
      read32-memcpy m (off m k) bytes n b (omega (arith, up, v.floor, h))

  copy-cnt : cnt m' ≡ cnt m
  copy-cnt = copy_head 140 (omega arith)

  copy-off : (i : ℕ) → i < cnt m → off m' i ≡ off m i
  copy-off i h = copy_head (144 + 8 * i) (omega arith)

  copy-siz : (i : ℕ) → i < cnt m → siz m' i ≡ siz m i
  copy-siz i h = copy_head (148 + 8 * i) (omega arith)

  past : (i : ℕ) → i < cnt m → i ≢ cnt m
  past i h e = absurd (omega (arith, e, h))

  copy-Layout : Layout (cnt m') m'
  copy-Layout = record {
    floor = rw (copy-cnt, copy_head 72 (omega arith)) v.floor;
    ceiling = rw (copy_head 72 (omega arith)) v.ceiling;
    above = λ i h s u.
        let l = rw copy-cnt at h in
        rw (copy_head 72 (omega arith), copy-off i l)
          (v.above i l (past i l) (rw (copy-off i l) at u));
    below = λ i h s u.
        let l = rw copy-cnt at h in
        rw (copy-siz i l, copy-off i l) (v.below i l (past i l) (rw (copy-off i l) at u));
    sized = λ i h s u.
        let l = rw copy-cnt at h in
        rw (copy-siz i l) (v.sized i l (past i l) (rw (copy-off i l) at u));
    filled = λ i h s u.
        let l = rw copy-cnt at h in
        rw (copy-siz i l) (v.filled i l (past i l) (rw (copy-off i l) at u));
    apart = λ i j hi hj si sj ne ui uj.
        let li = rw copy-cnt at hi in
        let lj = rw copy-cnt at hj in
        rw (copy-siz i li, copy-off i li, copy-siz j lj, copy-off j lj)
          (v.apart i j li lj (past i li) (past j lj) ne (rw (copy-off i li) at ui)
            (rw (copy-off j lj) at uj));
  }

  outside :
      (i : ℕ)
      → i < cnt m
      → off m i ≢ 0
      → k ≢ i
      → (x : ℕ) → off m i ≤ x
      → x < off m i + len m i
      → (x < off m k) ⊎ (off m k + n ≤ x)
  outside i h u ne x lo hi = elim (v.apart k i lt h (past k lt) (past i h) ne used u) [
    | inl a ↦ inr (omega (arith, a, same, short, lo))
    | inr a ↦ inl (omega (arith, a, hi))
  ]

  copy-view :
      (i : ℕ) → length bytes ≡ n → view m' i ≡ (if k == i then some (false, bytes) else view m i)
  copy-view i whole = elim (ℕ_discrete k i) [
    | yes e ↦
        let here : (k == i) ≡ true = ground arith in
        rw (here, ← e)
          (view_used m' k (rw copy-cnt lt) (rw (copy-off k lt) used)
              (rw (copy-siz k lt, same) short)
            ∙ rw (copy-off k lt, copy-siz k lt, same)
                (ap (λ (l : List ℕ). some (false, l)) (load-memcpy_self m (off m k) bytes n whole)))
    | no ne ↦
        let there : (k == i) ≡ false = ground arith in
        rw there (
          view-congr m m' i (ap (λ c. ltb i c) copy-cnt) (copy-off i) (λ h _. copy-siz i h)
            (λ h u x lo hi. memcpy_outside m (off m k) bytes n x (outside i h u ne x lo hi)))
  ]

-- For an allocated tuple of fewer than 2 ^ 31 bytes, whose size is their number, and a RID with a slot
-- number below 500, `update_tuple` on a valid page succeeds exactly if the RID names this page and a slot
-- in use whose stored size is the tuple's. That slot then holds the tuple's bytes with no delete mark, and
-- every other slot, or every slot if it fails, reads as before. The page stays valid.
pub update_tuple_lem :
    (p : Page) (t : Tuple) (rid : Rid)
    → IsValid p
    → rid.slot_num < 500
    → t.allocated ≡ true
    → length t.bytes ≡ t.size
    → t.size < 2147483648
    → let hit =
        not (is_missing p rid.slot_num)
        && siz p.data_ rid.slot_num == t.size
        && rid.page_id == p.page_id in
      ((update_tuple p t rid).0 ≡ hit)
      × IsValid (update_tuple p t rid).1
      × ((i : ℕ)
          → view (update_tuple p t rid).1.data_ i
            ≡ (if hit && rid.slot_num == i then some (false, t.bytes) else view p.data_ i))
unfolding update_tuple serialize_to
update_tuple_lem p t rid v in_range owned whole short =
    let k = rid.slot_num in
    elim (Bool-cases (is_missing p k)) [
      | inl miss ↦ rw miss (refl, v, λ i. refl)
      | inr there ↦ elim (Bool-cases (siz p.data_ k == t.size)) [
        | inr differs ↦ rw (there, size_offset k in_range, differs) (refl, v, λ i. refl)
        | inl fits ↦ elim (Bool-cases (rid.page_id == p.page_id)) [
          | inr other ↦ rw (there, size_offset k in_range, fits, other) (refl, v, λ i. refl)
          | inl mine ↦
              let (lt, used) = there_lem p v k in_range there in
              let same : siz p.data_ k ≡ t.size = ground arith in
              rw (there, size_offset k in_range, record_offset_lem k in_range, fits, mine, owned)
                (
                  refl,
                  copy-Layout p.data_ v k t.size t.bytes lt used same short,
                  λ i. copy-view p.data_ v k t.size t.bytes lt used same short i whole,
                )
        ]
      ]
    ]
