-- ===== src/Page/TablePage/Compact.antt =====
-- `apply_delete`: the tuple's bytes are squeezed out and the records of the tuples below follow.
pub mod Delete
use dawn.Base.{
  ℕ, zero, suc, ◌+◌, ◌-◌, ◌*◌, ◌%◌, ◌≤◌, ◌<◌, ◌≡◌, ◌≢◌, ◌⊎◌, inl, inr, refl, sym, ◌∙◌, ap, List,
  Bool, true, false, ◌&&◌, ◌||◌, not, Option, none, some, Bool-cases, ltb, leb, ◌==◌, if◌then◌else◌,
  arith, ℕ_discrete, lt→ltb, ltb→lt, dec_lt,
}
use dawn.Memory.{
  Memory, read32, write32, memmove, memset0, u32_mod, add32, slt, slt_small, add32_small,
  read32-write32, read32-write32-Apart, write32_outside, Apart, read32-memmove, read32-memset0,
  read32-memset0_inside, memmove_outside, memmove_inside, memset0_outside,
}
use dawn.Page.{Page, Rid, Tuple}
use dawn.Page.TablePage.Layout.{
  Layout, Layout-congr, cnt, fsp, off, siz, len, load-congr, record_offset_lem,
}
use dawn.Page.TablePage.View.{
  IsValid, Slot, view, view_lem, view-congr, count-le, is_missing_lem, size_offset,
}
use dawn.Page.TablePage.{
  load, move_records, apply_delete, unset_deleted_flag, is_deleted, is_missing, delete_tuple_record,
  move_length,
}

-- where the record of an offset `x` points when `n` bytes at `o` have been squeezed out
abbrev pub shifted : ℕ → ℕ → ℕ → ℕ
shifted o n x = if not (x == 0) && ltb x o then x + n else x

-- What the last loop has done: `s` and `left` bound the slots that it visits.
record Moved (o n s left : ℕ) (p p' : Page) : Type 0 where
  page : p'.page_id ≡ p.page_id
  words :
      (b : ℕ)
      → (b + 4 ≤ 144 + 8 * s) ⊎ (144 + 8 * (s + left) ≤ b)
      → read32 p'.data_ b ≡ read32 p.data_ b
  bytes : (x : ℕ) → 144 + 8 * (s + left) ≤ x → p'.data_ x ≡ p.data_ x
  sizes : (i : ℕ) → siz p'.data_ i ≡ siz p.data_ i
  offsets : (i : ℕ) → s ≤ i → i < s + left → off p'.data_ i ≡ shifted o n (off p.data_ i)

module _ (o n s : ℕ) where
  Moved-next :
      (left : ℕ) (p q r : Page)
      → Moved o n s 1 p q
      → Moved o n (s + 1) left q r
      → Moved o n s (suc left) p r
  Moved-next left p q r a b = record {
    page = b.page ∙ a.page;
    words = λ w h. b.words w (omega arith) ∙ a.words w (omega arith);
    bytes = λ x h. b.bytes x (omega arith) ∙ a.bytes x (omega arith);
    sizes = λ i. b.sizes i ∙ a.sizes i;
    offsets = λ i lo hi. elim (ℕ_discrete i s) [
      | yes e ↦ b.words (144 + 8 * i) (omega arith) ∙ a.offsets i lo (omega arith)
      | no ne ↦
          b.offsets i (omega arith) (omega arith)
          ∙ ap (shifted o n) (a.words (144 + 8 * i) (omega arith))
    ];
  }

  Moved-still : (p : Page) → shifted o n (off p.data_ s) ≡ off p.data_ s → Moved o n s 1 p p
  Moved-still p e = record {
    page = refl;
    words = λ w h. refl;
    bytes = λ x h. refl;
    sizes = λ i. refl;
    offsets = λ i lo hi. let same : i ≡ s = omega arith in rw same (sym e);
  }

  Moved-write :
      (p : Page) (x : ℕ)
      → x < u32_mod
      → shifted o n (off p.data_ s) ≡ x
      → Moved o n s 1 p (record p { data_ = write32 p.data_ (144 + 8 * s) x })
  Moved-write p x small e = record {
    page = refl;
    words = λ w h. read32-write32-Apart p.data_ (144 + 8 * s) x w (omega arith);
    bytes = λ y h. write32_outside p.data_ (144 + 8 * s) x y (omega arith);
    sizes = λ i. read32-write32-Apart p.data_ (144 + 8 * s) x (148 + 8 * i) (omega arith);
    offsets = λ i lo hi.
        let same : i ≡ s = omega arith in
        rw same (read32-write32 p.data_ (144 + 8 * s) x small ∙ sym e);
  }

module _ (o n : ℕ) (small : o + n ≤ 4096) where
  move_records-Moved :
      (p : Page) (left s : ℕ)
      → s + left ≤ 494
      → ((i : ℕ) → s ≤ i → i < s + left → off p.data_ i ≤ 4096)
      → Moved o n s left p (move_records p left s o n)
  unfolding move_records
  move_records-Moved p zero s h low = record {
    page = refl;
    words = λ b a. refl;
    bytes = λ x a. refl;
    sizes = λ i. refl;
    offsets = λ i lo hi. absurd (omega arith);
  }
  move_records-Moved p (suc left) s h low =
      let here = low s (omega arith) (omega arith) in
      elim (Bool-cases (not (off p.data_ s == 0) && ltb (off p.data_ s) o)) [
        | inl t ↦
            let q : Page = record p { data_ = write32 p.data_ (144 + 8 * s) (off p.data_ s + n) } in
            let below : off p.data_ s < o = ground arith in
            let step = Moved-write o n s p (off p.data_ s + n) (omega arith) (rw t) in
            rw
              (
                record_offset_lem s (omega arith),
                slt_small (off p.data_ s) o (omega arith) (omega arith),
                t,
                add32_small (off p.data_ s) n (omega arith),
              )
              (Moved-next o n s left p q _ step (
                move_records-Moved q left (s + 1) (omega arith) (λ i lo hi.
                  rw (step.words (144 + 8 * i) (omega arith)) (low i (omega arith) (omega arith)))))
        | inr t ↦
            rw
              (
                record_offset_lem s (omega arith),
                slt_small (off p.data_ s) o (omega arith) (omega arith),
                t,
              )
              (Moved-next o n s left p p _ (Moved-still o n s p (rw t)) (
                move_records-Moved p left (s + 1) (omega arith)
                  (λ i lo hi. low i (omega arith) (omega arith))))
      ]

-- the page before the loop: the record is cleared, the bytes below the tuple moved up over it
abbrev squeezed : Memory → ℕ → ℕ → ℕ → ℕ → Memory
squeezed m k f o n = write32 (memmove (memset0 m (144 + 8 * k) 8) (f + n) f (o - f)) 72 (f + n)

-- the bytes of a tuple after a move by `n`
load_moved :
    (m m' : Memory) (a n l : ℕ)
    → ((x : ℕ) → a ≤ x → x < a + l → m' (x + n) ≡ m x)
    → load m' (a + n) l ≡ load m a l
unfolding load
load_moved m m' a n zero same = refl
load_moved m m' a n (suc l) same =
    let next : load m' (a + n + 1) l ≡ load m (a + 1) l =
      ap (λ y. load m' y l) (omega arith)
      ∙ load_moved m m' (a + 1) n l (λ x lo hi. same x (omega arith) (omega arith)) in
    cc (same a (omega arith) (omega arith), next)

module _ (m : Memory) (v : Layout (cnt m) m) (k : ℕ) (lt : k < cnt m) (used : off m k ≢ 0) where
  abbrev f : ℕ
  f = fsp m

  abbrev o : ℕ
  o = off m k

  abbrev n : ℕ
  n = len m k

  abbrev q : Memory
  q = squeezed m k f o n

  in_page :
      (i : ℕ) → i < cnt m → off m i ≢ 0 → (f ≤ off m i) × (off m i + len m i ≤ 4096) × (0 < len m i)
  in_page i h u =
      let ne : i ≢ cnt m = λ e. absurd (omega (arith, e, h)) in
      (v.above i h ne u, v.below i h ne u, v.filled i h ne u)

  beside : (i : ℕ) → i < cnt m → off m i ≢ 0 → i ≢ k → (off m i + len m i ≤ o) ⊎ (o + n ≤ off m i)
  beside i h u ne =
      v.apart i k h lt (λ e. absurd (omega (arith, e, h))) (λ e. absurd (omega (arith, e, lt))) ne u
        used

  q-word :
      (b : ℕ)
      → b + 4 ≤ 144 + 8 * cnt m
      → Apart 72 4 b
      → Apart (144 + 8 * k) 8 b
      → read32 q b ≡ read32 m b
  q-word b h1 h2 h3 =
      read32-write32-Apart _ 72 (f + n) b h2
      ∙ read32-memmove _ (f + n) f (o - f) b (inr (omega (arith, v.floor)))
      ∙ read32-memset0 m (144 + 8 * k) 8 b h3

  q-clear : (b : ℕ) → 144 + 8 * k ≤ b → b + 4 ≤ 152 + 8 * k → read32 q b ≡ 0
  q-clear b lo hi =
      read32-write32-Apart _ 72 (f + n) b (omega arith)
      ∙ read32-memmove _ (f + n) f (o - f) b (inr (omega (arith, v.floor)))
      ∙ read32-memset0_inside m (144 + 8 * k) 8 b lo (omega arith)

  q-fsp : fsp q ≡ f + n
  q-fsp =
      let (_, b, _) = in_page k lt used in
      read32-write32 _ 72 (f + n) (omega (arith, in_page k lt used))

  q-above : (x : ℕ) → o + n ≤ x → q x ≡ m x
  q-above x h =
      let (lo, _, _) = in_page k lt used in
      write32_outside _ 72 (f + n) x (omega (arith, v.floor, lo))
      ∙ memmove_outside _ (f + n) f (o - f) x (omega (arith, lo))
      ∙ memset0_outside m (144 + 8 * k) 8 x (omega (arith, v.floor, lo))

  q-moved : (x : ℕ) → f ≤ x → x < o → q (x + n) ≡ m x
  q-moved x lo hi =
      write32_outside _ 72 (f + n) (x + n) (omega (arith, v.floor))
      ∙ memmove_inside _ (f + n) f (o - f) (x + n) (omega arith) (omega arith)
      ∙ ap (memset0 m (144 + 8 * k) 8) (omega arith)
      ∙ memset0_outside m (144 + 8 * k) 8 x (omega (arith, v.floor))
