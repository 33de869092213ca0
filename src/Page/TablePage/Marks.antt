-- ===== src/Page/TablePage/Marks.antt =====
-- `mark_delete` and `rollback_delete`: the delete mark is the top bit of the size.
use dawn.Base.{
  ℕ, ◌+◌, ◌*◌, ◌%◌, ◌≤◌, ◌<◌, ◌≡◌, ◌≢◌, ◌⊎◌, inl, inr, refl, sym, ◌∙◌, ap, Bool, true, false, ◌&&◌,
  ◌||◌, not, none, some, Bool-cases, ltb, leb, ◌==◌, if◌then◌else◌, arith, ℕ_discrete,
}
use dawn.Memory.{
  Memory, read32, write32, u32_mod, read32-write32, read32-write32-Apart, write32_outside,
}
use dawn.Page.{Page, Rid}
use dawn.Page.TablePage.Layout.{Layout, Layout-congr, cnt, fsp, off, siz, len, load-congr}
use dawn.Page.TablePage.View.{
  IsValid, Slot, view, view_lem, view-congr, is_missing_lem, size_offset,
}
use dawn.Page.TablePage.{
  load, mark_delete, rollback_delete, set_deleted_flag, unset_deleted_flag, is_missing,
}

-- the slot with its delete mark set to `b`
abbrev pub marked : Bool → Slot → Slot
marked b none = none
marked b (some (_, bytes)) = some (b, bytes)

==_self : (k : ℕ) → (k == k) ≡ true
==_self k = ground arith

module _ (m : Memory) (v : Layout (cnt m) m) (k z : ℕ) (lt : k < cnt m) (used : off m k ≢ 0)
    (sized : z < u32_mod) (same : z % 2147483648 ≡ len m k) where
  abbrev pub resized : Memory
  resized = write32 m (148 + 8 * k) z

  resized-word :
      (b : ℕ) → (b + 4 ≤ 148 + 8 * k) ⊎ (148 + 8 * k + 4 ≤ b) → read32 resized b ≡ read32 m b
  resized-word b h = read32-write32-Apart m (148 + 8 * k) z b (omega arith)

  resized-siz : (i : ℕ) → siz resized i ≡ (if k == i then z else siz m i)
  resized-siz i = elim (ℕ_discrete k i) [
    | yes e ↦
        let t : (k == i) ≡ true = ground arith in
        rw (t, ← e) (read32-write32 m (148 + 8 * k) z sized)
    | no ne ↦
        let t : (k == i) ≡ false = ground arith in
        rw t (read32-write32-Apart m (148 + 8 * k) z (148 + 8 * i) (omega arith))
  ]

  resized-off : (i : ℕ) → off resized i ≡ off m i
  resized-off i = resized-word (144 + 8 * i) (omega arith)

  resized-len : (i : ℕ) → len resized i ≡ len m i
  resized-len i = elim (ℕ_discrete k i) [
    | yes e ↦ let t : (k == i) ≡ true = ground arith in rw (resized-siz i, t, ← e) same
    | no ne ↦ let t : (k == i) ≡ false = ground arith in rw (resized-siz i, t)
  ]

  resized-cnt : cnt resized ≡ cnt m
  resized-cnt = resized-word 140 (omega arith)

  resized-fsp : fsp resized ≡ fsp m
  resized-fsp = resized-word 72 (omega arith)

  above : (i : ℕ) → i < cnt m → off m i ≢ 0 → fsp m ≤ off m i
  above i h u = v.above i h (λ e'. absurd (omega (arith, e', h))) u

  resized-byte : (x : ℕ) → 148 + 8 * k + 4 ≤ x → resized x ≡ m x
  resized-byte x h = write32_outside m (148 + 8 * k) z x (omega arith)

  pub resized-Layout : Layout (cnt resized) resized
  resized-Layout =
      Layout-congr m resized resized-cnt resized-fsp resized-off resized-len
        (λ i h u. rw (resized-siz i) (elim (Bool-cases (k == i)) [
          | inl e ↦ rw e sized
          | inr e ↦ rw e (v.sized i h (λ e'. absurd (omega (arith, e', h))) u)
        ]))
        v

  pub resized-view :
      (i : ℕ) → view resized i ≡ (if k == i then marked (leb 2147483648 z) (view m i) else view m i)
  resized-view i = elim (ℕ_discrete k i) [
    | no ne ↦
        let t : (k == i) ≡ false = ground arith in
        rw t (
          view-congr m resized i (ap (ltb i) resized-cnt) (λ _. resized-off i)
            (λ _ _. resized-siz i ∙ rw t)
            (λ h u x lo hi. resized-byte x (omega (arith, lo, above i h u, v.floor, lt))))
    | yes e ↦
        let t : (k == i) ≡ true = ground arith in
        let bytes : load resized (off m k) (len m k) ≡ load m (off m k) (len m k) =
          load-congr resized m (off m k) (len m k)
            (λ x lo hi. resized-byte x (omega (arith, lo, above k lt used, v.floor, lt))) in
        rw (t, ← e)
          (view_lem resized k (rw resized-cnt lt) (rw (resized-off k) used)
            ∙ rw (
              resized-len k,
              resized-off k,
              bytes,
              resized-siz k,
              ==_self k,
              view_lem m k lt used,
            ))
  ]

set_flag :
    (z : ℕ)
    → z < u32_mod
    → (set_deleted_flag z < u32_mod)
      × (set_deleted_flag z % 2147483648 ≡ z % 2147483648)
      × (leb 2147483648 (set_deleted_flag z) ≡ true)
unfolding set_deleted_flag
set_flag z h = ground arith

unset_flag :
    (z : ℕ)
    → z < u32_mod
    → (unset_deleted_flag z < u32_mod)
      × (unset_deleted_flag z % 2147483648 ≡ z % 2147483648)
      × (leb 2147483648 (unset_deleted_flag z) ≡ false)
unfolding unset_deleted_flag
unset_flag z h = ground arith

-- what the check of the RID ensures
pub there_lem :
    (p : Page)
    → IsValid p
    → (k : ℕ) → k < 500
    → is_missing p k ≡ false
    → (k < cnt p.data_) × (off p.data_ k ≢ 0)
there_lem p v k h there =
    let e : (not (ltb k (cnt p.data_)) || off p.data_ k == 0) ≡ false =
      sym (is_missing_lem p v k h) ∙ there in
    ground arith

module _ (p : Page) (v : IsValid p) (rid : Rid) (in_range : rid.slot_num < 500) where
  -- `mark_delete` succeeds on a valid page exactly at a used slot of the page that the RID names;
  -- it then sets the mark of that slot and changes nothing else, and otherwise changes nothing.
  pub mark_delete_lem :
      let hit = not (is_missing p rid.slot_num) && p.page_id == rid.page_id in
      ((mark_delete p rid).0 ≡ hit)
      × IsValid (mark_delete p rid).1
      × ((i : ℕ)
          → view (mark_delete p rid).1.data_ i
            ≡ (if hit && rid.slot_num == i then marked true (view p.data_ i) else view p.data_ i))
  unfolding mark_delete
  mark_delete_lem = elim (Bool-cases (is_missing p rid.slot_num)) [
    | inl miss ↦ rw miss (refl, v, λ i. refl)
    | inr there ↦ elim (Bool-cases (p.page_id == rid.page_id)) [
      | inr other ↦ rw (there, other) (refl, v, λ i. refl)
      | inl mine ↦
          let k = rid.slot_num in
          let (lt, used) = there_lem p v k in_range there in
          let z = siz p.data_ k in
          let (small, same, top) =
            set_flag z (v.sized k lt (λ e. absurd (omega (arith, e, lt))) used) in
          let z' = set_deleted_flag z in
          rw (there, mine, size_offset k in_range)
            (
              refl,
              resized-Layout p.data_ v k z' lt used small same,
              λ i. resized-view p.data_ v k z' lt used small same i ∙ rw top,
            )
    ]
  ]

  -- `rollback_delete` on a valid page clears the mark of a used slot and changes nothing else.
  pub rollback_delete_lem :
      IsValid (rollback_delete p rid)
      × ((i : ℕ)
          → view (rollback_delete p rid).data_ i ≡ (
              if not (is_missing p rid.slot_num) && rid.slot_num == i
              then marked false (view p.data_ i)
              else view p.data_ i))
  unfolding rollback_delete
  rollback_delete_lem = elim (Bool-cases (is_missing p rid.slot_num)) [
    | inl miss ↦ rw miss (v, λ i. refl)
    | inr there ↦
        let k = rid.slot_num in
        let (lt, used) = there_lem p v k in_range there in
        let z = siz p.data_ k in
        let (small, same, top) =
          unset_flag z (v.sized k lt (λ e. absurd (omega (arith, e, lt))) used) in
        let z' = unset_deleted_flag z in
        rw (there, size_offset k in_range)
          (
            resized-Layout p.data_ v k z' lt used small same,
            λ i. resized-view p.data_ v k z' lt used small same i ∙ rw top,
          )
  ]
