-- ===== src/Page/TablePage/Compact/Delete.antt =====
-- What `apply_delete` leaves: a valid page, the slot free, every other slot as it was.
use dawn.Base.{
  ℕ, ◌+◌, ◌*◌, ◌%◌, ◌≤◌, ◌<◌, ◌≡◌, ◌≢◌, ◌⊎◌, inl, inr, refl, sym, ◌∙◌, ap, Bool, true, false, ◌&&◌,
  none, ltb, ◌==◌, if◌then◌else◌, arith, ℕ_discrete, lt→ltb, dec_lt,
}
use dawn.Memory.{Memory, read32, slt_small, sub32_small, add32_small, u32_mod}
use dawn.Page.{Page, Rid}
use dawn.Page.TablePage.Layout.{Layout, cnt, fsp, off, siz, len, load-congr, record_offset_lem}
use dawn.Page.TablePage.View.{IsValid, view, view_lem, view_unused, count-le, size_offset}
use dawn.Page.TablePage.Marks.{there_lem}
use dawn.Page.TablePage.Compact.{
  Moved, shifted, squeezed, q-word, q-clear, q-fsp, q-above, q-moved, in_page, beside, load_moved,
  move_records-Moved,
}
use dawn.Page.TablePage.{
  load, apply_delete, unset_deleted_flag, is_missing, delete_tuple_record, move_length,
  move_records, slots, get_next_page_id, get_prev_page_id,
}

module _ (m : Memory) (v : Layout (cnt m) m) (k : ℕ) (lt : k < cnt m) (used : off m k ≢ 0)
    (p r : Page) (before : p.data_ ≡ squeezed m k (fsp m) (off m k) (len m k))
    (after : Moved (off m k) (len m k) 0 (cnt m) p r) where
  abbrev o : ℕ
  o = off m k

  abbrev n : ℕ
  n = len m k

  abbrev r' : Memory
  r' = r.data_

  counted : cnt r' ≡ cnt m
  counted =
      after.words 140 (inl (omega arith))
      ∙ rw before (q-word m v k lt used 140 (omega arith) (omega arith) (omega arith))

  pointed : fsp r' ≡ fsp m + n
  pointed = after.words 72 (inl (omega arith)) ∙ rw before (q-fsp m v k lt used)

  pub linked : (b : ℕ) → b + 4 ≤ 72 → read32 r' b ≡ read32 m b
  linked b h =
      after.words b (inl (omega arith))
      ∙ rw before (q-word m v k lt used b (omega arith) (omega arith) (omega arith))

  same_size : (i : ℕ) → i < cnt m → i ≢ k → siz r' i ≡ siz m i
  same_size i h ne =
      after.sizes i
      ∙ rw before
          (q-word m v k lt used (148 + 8 * i) (omega arith) (omega (arith, v.floor)) (omega arith))

  moved : (i : ℕ) → i < cnt m → i ≢ k → off r' i ≡ shifted o n (off m i)
  moved i h ne =
      let was : off p.data_ i ≡ off m i =
        rw before (
          q-word m v k lt used (144 + 8 * i) (omega arith) (omega (arith, v.floor))
            (omega arith)) in
      after.offsets i (omega arith) (omega arith) ∙ ap (shifted o n) was

  freed : off r' k ≡ 0
  freed =
      let was : off p.data_ k ≡ 0 =
        rw before (q-clear m v k lt used (144 + 8 * k) (omega arith) (omega arith)) in
      after.offsets k (omega arith) (omega arith) ∙ ap (shifted o n) was

  -- a used slot other than `k` stood below or above the tuple
  placed :
      (i : ℕ)
      → i < cnt m
      → i ≢ k
      → off m i ≢ 0
      → ((off m i + len m i ≤ o) × (off r' i ≡ off m i + n))
        ⊎ ((o + n ≤ off m i) × (off r' i ≡ off m i))
  placed i h ne u =
      let (lo, hi, some_bytes) = in_page m v k lt used i h u in
      elim (beside m v k lt used i h u ne) [
        | inl below ↦ inl (below, moved i h ne ∙ ground arith)
        | inr above ↦ inr (above, moved i h ne ∙ ground arith)
      ]

  still_used : (i : ℕ) → i < cnt m → off r' i ≢ 0 → (i ≢ k) × (off m i ≢ 0)
  still_used i h u =
      let ne : i ≢ k = λ e. u (ap (off r') e ∙ freed) in
      (ne, λ e. u (moved i h ne ∙ ap (shifted o n) e))

  same_len : (i : ℕ) → i < cnt m → i ≢ k → len r' i ≡ len m i
  same_len i h ne = ap (λ z. z % 2147483648) (same_size i h ne)

  -- where a slot that is used after the call stands
  stands :
      (i : ℕ)
      → i < cnt m
      → off r' i ≢ 0
      → (fsp m + n ≤ off r' i)
        × (off r' i + len r' i ≤ 4096)
        × (siz r' i < u32_mod)
        × (0 < len r' i)
  stands i h u =
      let (ne, u') = still_used i h u in
      let (lo, hi, some_bytes) = in_page m v k lt used i h u' in
      let (lo_k, hi_k, _) = in_page m v k lt used k lt used in
      let small = v.sized i h (λ e. absurd (omega (arith, e, h))) u' in
      rw (same_len i h ne, same_size i h ne)
        (elim (placed i h ne u') [
          | inl (b, e) ↦ rw e (omega (arith, lo), omega (arith, b, hi_k), small, some_bytes)
          | inr (a, e) ↦ rw e (omega (arith, a, lo_k), hi, small, some_bytes)
        ])

  parted :
      (i j : ℕ)
      → i < cnt m
      → j < cnt m
      → i ≢ j
      → off r' i ≢ 0
      → off r' j ≢ 0
      → (off r' i + len r' i ≤ off r' j) ⊎ (off r' j + len r' j ≤ off r' i)
  parted i j hi hj ne ui uj =
      let (ni, ui') = still_used i hi ui in
      let (nj, uj') = still_used j hj uj in
      let d =
        v.apart i j hi hj (λ e. absurd (omega (arith, e, hi))) (λ e. absurd (omega (arith, e, hj)))
          ne ui' uj' in
      rw (same_len i hi ni, same_len j hj nj)
        (elim (placed i hi ni ui') [
          | inl (bi, ei) ↦ elim (placed j hj nj uj') [
            | inl (bj, ej) ↦ rw (ei, ej) (omega (arith, d))
            | inr (aj, ej) ↦ rw (ei, ej) (omega (arith, bi, aj))
          ]
          | inr (ai, ei) ↦ elim (placed j hj nj uj') [
            | inl (bj, ej) ↦ rw (ei, ej) (omega (arith, bj, ai))
            | inr (aj, ej) ↦ rw (ei, ej) d
          ]
        ])

  pub delete-Layout : Layout (cnt r') r'
  delete-Layout =
      let (lo, hi, _) = in_page m v k lt used k lt used in
      record {
        floor = rw (counted, pointed) (omega (arith, v.floor));
        ceiling = rw pointed (omega (arith, lo, hi));
        above = λ i h s u. rw pointed (stands i (rw counted at h) u).0;
        below = λ i h s u. (stands i (rw counted at h) u).1;
        sized = λ i h s u. (stands i (rw counted at h) u).2;
        filled = λ i h s u. (stands i (rw counted at h) u).3;
        apart =
            λ i j hi hj si sj ne ui uj. parted i j (rw counted at hi) (rw counted at hj) ne ui uj;
      }

  -- the bytes of another tuple
  same_bytes :
      (i : ℕ)
      → i < cnt m
      → i ≢ k
      → off m i ≢ 0
      → load r' (off r' i) (len m i) ≡ load m (off m i) (len m i)
  same_bytes i h ne u =
      let (lo, hi, some_bytes) = in_page m v k lt used i h u in
      elim (placed i h ne u) [
        | inl (b, e) ↦ rw e (
            load_moved m r' (off m i) n (len m i) (λ x xlo xhi.
              after.bytes (x + n) (omega (arith, v.floor, lo, xlo))
              ∙ rw before
                  (q-moved m v k lt used x (omega (arith, lo, xlo)) (omega (arith, b, xhi)))))
        | inr (a, e) ↦ rw e (
            load-congr r' m (off m i) (len m i) (λ x xlo xhi.
              after.bytes x (omega (arith, v.floor, lo, xlo))
              ∙ rw before (q-above m v k lt used x (omega (arith, a, xlo)))))
      ]

  other-view : (i : ℕ) → i ≢ k → view r' i ≡ view m i
  other-view i ne = elim (dec_lt i (cnt m)) [
    | no past ↦
        view_unused r' i (inl (rw counted (omega (arith, past))))
        ∙ sym (view_unused m i (inl (omega (arith, past))))
    | yes h ↦ elim (ℕ_discrete (off m i) 0) [
      | yes e ↦
          view_unused r' i (inr (moved i h ne ∙ ap (shifted o n) e)) ∙ sym (view_unused m i (inr e))
      | no u ↦
          let u' : off r' i ≢ 0 = elim (placed i h ne u) [
            | inl (b, e) ↦ λ z. u (omega (arith, e, z))
            | inr (a, e) ↦ λ z. u (sym e ∙ z)
          ] in
          view_lem r' i (rw counted h) u'
          ∙ rw (same_len i h ne, same_bytes i h ne u, same_size i h ne) (sym (view_lem m i h u))
    ]
  ]

  pub delete-view : (i : ℕ) → view r' i ≡ (if k == i then none else view m i)
  delete-view i = elim (ℕ_discrete k i) [
    | yes e ↦ let t : (k == i) ≡ true = ground arith in rw (t, ← e) (view_unused r' k (inr freed))
    | no ne ↦ let t : (k == i) ≡ false = ground arith in rw t (other-view i (λ e. ne (sym e)))
  ]

&&-false : (b : Bool) → (b && false) ≡ false
&&-false true = refl
&&-false false = refl

-- what `apply_delete` runs on a used slot
cleared : Page → ℕ → Page
cleared p k = let m = p.data_ in record p { data_ = squeezed m k (fsp m) (off m k) (len m k) }

low_offset :
    (m : Memory) (v : Layout (cnt m) m) (k : ℕ) (lt : k < cnt m) (used : off m k ≢ 0) (i : ℕ)
    → i < cnt m
    → off (squeezed m k (fsp m) (off m k) (len m k)) i ≤ 4096
low_offset m v k lt used i h = elim (ℕ_discrete i k) [
  | yes e ↦ rw (q-clear m v k lt used (144 + 8 * i) (omega arith) (omega arith)) (omega arith)
  | no ne ↦
      rw (q-word m v k lt used (144 + 8 * i) (omega arith) (omega (arith, v.floor)) (omega arith))
        (elim (ℕ_discrete (off m i) 0) [
          | yes z ↦ rw z (omega arith)
          | no u ↦ let (_, hi, _) = in_page m v k lt used i h u in omega (arith, hi)
        ])
]

slots-cleared :
    (p : Page)
    → IsValid p
    → (k : ℕ) → k < cnt p.data_
    → off p.data_ k ≢ 0
    → slots (cleared p k) ≡ cnt p.data_
unfolding cleared
slots-cleared p v k lt used =
    let m = p.data_ in
    let small = count-le p v in
    let e : cnt (squeezed m k (fsp m) (off m k) (len m k)) ≡ cnt m =
      q-word m v k lt used 140 (omega arith) (omega arith) (omega arith) in
    rw e (ground arith)

apply_delete_run :
    (p : Page)
    → IsValid p
    → (rid : Rid) → rid.slot_num < 500
    → is_missing p rid.slot_num ≡ false
    → apply_delete p rid
      ≡ move_records
          (cleared p rid.slot_num)
          (cnt p.data_)
          0
          (off p.data_ rid.slot_num)
          (len p.data_ rid.slot_num)
unfolding apply_delete cleared delete_tuple_record move_length unset_deleted_flag
apply_delete_run p v rid in_range there =
    let k = rid.slot_num in
    let m = p.data_ in
    let (lt, used) = there_lem p v k in_range there in
    let (lo, hi, _) = in_page m v k lt used k lt used in
    let small = count-le p v in
    let here = lt→ltb k (cnt m) lt in
    let forth : ltb (off m k) (fsp m) ≡ false = ground arith in
    let n = len m k in
    rw (there, size_offset k in_range, record_offset_lem k in_range)
      (rw
        (
          slt_small k (cnt m) (omega arith) (omega arith),
          here,
          slt_small (off m k) (fsp m) (omega arith) (omega (arith, v.ceiling)),
          forth,
          sub32_small (off m k) (fsp m) (omega arith) lo,
          add32_small (fsp m) n (omega arith),
        )
        (ap (λ c. move_records (cleared p k) c 0 (off m k) n) (slots-cleared p v k lt used)))

-- On a valid page `apply_delete` at a used slot frees that slot, marked or not, keeps the page valid
-- and its links, and every other slot reads as before, although its bytes may have moved.
pub apply_delete_lem :
    (p : Page) (rid : Rid)
    → IsValid p
    → rid.slot_num < 500
    → is_missing p rid.slot_num ≡ false
    → let p' = apply_delete p rid in
      IsValid p'
      × ((i : ℕ) → view p'.data_ i ≡ (if rid.slot_num == i then none else view p.data_ i))
      × (p'.page_id ≡ p.page_id)
      × (get_next_page_id p' ≡ get_next_page_id p)
      × (get_prev_page_id p' ≡ get_prev_page_id p)
unfolding cleared
apply_delete_lem p rid v in_range there =
    let k = rid.slot_num in
    let m = p.data_ in
    let (lt, used) = there_lem p v k in_range there in
    let (lo, hi, _) = in_page m v k lt used k lt used in
    let small = count-le p v in
    let after =
      move_records-Moved (off m k) (len m k) hi (cleared p k) (cnt m) 0 (omega arith)
        (λ i _ h. low_offset m v k lt used i (omega arith)) in
    rw (apply_delete_run p v rid in_range there) (
      delete-Layout m v k lt used (cleared p k) _ refl after,
      delete-view m v k lt used (cleared p k) _ refl after,
      after.page,
      linked m v k lt used (cleared p k) _ refl after 68 (omega arith),
      linked m v k lt used (cleared p k) _ refl after 64 (omega arith),
    )
