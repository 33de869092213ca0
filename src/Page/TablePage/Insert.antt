-- ===== src/Page/TablePage/Insert.antt =====
-- `insert_tuple`: where the tuple goes, that nothing else changes, and when it fails.
use dawn.Base.{
  ℕ, zero, suc, ◌+◌, ◌-◌, ◌*◌, ◌≤◌, ◌<◌, ◌≡◌, ◌≢◌, ◌⊎◌, inl, inr, refl, sym, ◌∙◌, ap, List, [], ◌∷◌,
  Bool, true, false, none, some, Bool-cases, length, get_or, ltb, ◌==◌, if◌then◌else◌, arith,
  dec_lt, ℕ_discrete, lt→ltb,
}
use dawn.Memory.{
  Memory, read32, write32, memcpy, add32, mul32, sub32, slt_small, minus_one, read32-write32,
  memcpy_outside, sub32_small, add32_small,
}
use mathlib.Core.Path.{subst₂}
use dawn.Page.{Page, Rid, Tuple, serialize_to, invalid_rid}
use dawn.Page.TablePage.Layout.{
  Layout, cnt, fsp, off, load-congr, record_offset_lem, place, place-Layout, place-cnt, place-off,
  place-siz, place-off_self, place-siz_self, place-byte, place-head,
}
use dawn.Page.TablePage.Grow.{grown-cnt, grown-word, grown-Layout, grown-view}
use dawn.Page.TablePage.View.{
  IsValid, view, count-le, free_space, view-congr, view_used, get_tuple-view, size_offset,
  slots_lem,
}
use dawn.Page.TablePage.{
  load, find_empty, get_empty_slot, insert_tuple, get_tuple, get_free_space, set_tuple_count,
  get_next_page_id, get_prev_page_id,
}

-- what the loop of `get_empty_slot` finds
find_empty-cases :
    (p : Page) (left s other : ℕ)
    → s + left ≤ 494
    → let r = find_empty p left s other in
      ((s ≤ r) × (r < s + left) × (off p.data_ r ≡ 0))
      ⊎ ((r ≡ other) × ((i : ℕ) → s ≤ i → i < s + left → off p.data_ i ≢ 0))
unfolding find_empty
find_empty-cases p zero s other h = inr (refl, λ i lo hi. absurd (omega arith))
find_empty-cases p (suc left) s other h = elim (ℕ_discrete (off p.data_ s) 0) [
  | yes e ↦ inl (rw (record_offset_lem s (omega arith), e) (omega arith, omega arith, e))
  | no ne ↦
      let t : (off p.data_ s == 0) ≡ false = ground arith in
      rw (record_offset_lem s (omega arith), t)
        (elim (find_empty-cases p left (s + 1) other (omega arith)) [
          | inl (lo, hi, e) ↦ inl (omega arith, omega arith, e)
          | inr (e, all) ↦ inr (
            e,
            λ i lo hi. elim (ℕ_discrete i s) [
              | yes same ↦ rw same ne
              | no other' ↦ all i (omega arith) (omega arith)
            ],
          )
        ])
]

abbrev pub IsFull : Memory → Type 0
IsFull m = (i : ℕ) → i < cnt m → off m i ≢ 0

-- the space between the records and the tuples
abbrev pub room : Memory → ℕ
room m = fsp m - (144 + 8 * cnt m)

get_empty_slot-cases :
    (p : Page)
    → IsValid p
    → ((k : ℕ) × (k < cnt p.data_) × (off p.data_ k ≡ 0) × (get_empty_slot p ≡ (k, p)))
      ⊎ (IsFull p.data_ × (room p.data_ < 8) × (get_empty_slot p ≡ (minus_one, p)))
      ⊎ (IsFull p.data_
          × (8 ≤ room p.data_)
          × (get_empty_slot p ≡ (cnt p.data_, set_tuple_count p (cnt p.data_ + 1))))
unfolding get_empty_slot
get_empty_slot-cases p v =
    let m = p.data_ in
    let small = count-le p v in
    elim (find_empty-cases p (cnt m) 0 (cnt m) (omega (arith, small))) [
      | inl (_, hi, e) ↦ inl (
        find_empty p (cnt m) 0 (cnt m),
        omega (arith, hi),
        e,
        rw (slots_lem p v, lt→ltb (find_empty p (cnt m) 0 (cnt m)) (cnt m) (omega (arith, hi))),
      )
      | inr (e, all) ↦
          let full : IsFull m = λ i h. all i (omega arith) (omega arith) in
          let miss : ltb (cnt m) (cnt m) ≡ false = ground arith in
          elim (dec_lt (room m) 8) [
            | yes tight ↦ inr (
                inl (
                  full,
                  tight,
                  rw (
                    slots_lem p v,
                    e,
                    miss,
                    free_space p v,
                    slt_small (room m) 8 (omega arith) (omega arith),
                    lt→ltb (room m) 8 tight,
                  ),
                ))
            | no wide ↦
                let more : ltb (room m) 8 ≡ false = ground arith in
                inr (
                  inr (
                    full,
                    omega arith,
                    rw (
                      slots_lem p v,
                      e,
                      miss,
                      free_space p v,
                      slt_small (room m) 8 (omega (arith, v.ceiling)) (omega arith),
                      more,
                      add32_small (cnt m) 1 (omega (arith, small)),
                    ),
                  ))
          ]
    ]

memcpy-inside :
    (m : Memory) (f : ℕ) (bytes : List ℕ) (n a : ℕ)
    → f ≤ a
    → a < f + n
    → memcpy m f bytes n a ≡ get_or bytes (a - f) 0
unfolding memcpy
memcpy-inside m f bytes n a lo hi = ground arith

-- the end `rest` of the bytes that were copied to `f` is read back at its place
load-memcpy :
    (m : Memory) (f : ℕ) (bytes : List ℕ) (a : ℕ) (rest : List ℕ)
    → f ≤ a
    → a + length rest ≤ f + length bytes
    → ((x : ℕ) → get_or bytes (a - f + x) 0 ≡ get_or rest x 0)
    → load (memcpy m f bytes (length bytes)) a (length rest) ≡ rest
unfolding load
load-memcpy m f bytes a [] lo h same = refl
load-memcpy m f bytes a (b ∷ rest) lo h same =
    let first : memcpy m f bytes (length bytes) a ≡ b =
      memcpy-inside m f bytes (length bytes) a lo (omega arith)
      ∙ ap (λ i. get_or bytes i 0) (omega arith)
      ∙ same 0 in
    let others =
      load-memcpy m f bytes (a + 1) rest (omega arith) (omega arith)
        (λ x. ap (λ i. get_or bytes i 0) (omega arith) ∙ same (suc x)) in
    cc (first, others)

pub load-memcpy_self :
    (m : Memory) (f : ℕ) (bytes : List ℕ) (n : ℕ)
    → length bytes ≡ n
    → load (memcpy m f bytes n) f n ≡ bytes
load-memcpy_self m f bytes n w = rw (← w) (
    load-memcpy m f bytes f bytes (omega arith) (omega arith)
      (λ x. ap (λ i. get_or bytes i 0) (omega arith)))

-- the slots of `place` read as before, but for the one written
place-view :
    (m : Memory) (k f : ℕ) (bytes : List ℕ) (n i : ℕ)
    → length bytes ≡ n
    → k < cnt m
    → 144 + 8 * cnt m ≤ f
    → Layout k m
    → f + n ≤ fsp m
    → n < 2147483648
    → view (place m k f bytes n) i ≡ (if k == i then some (false, bytes) else view m i)
place-view m k f bytes n i whole slot space lay free short =
    let fits : f + n ≤ 4096 = omega (arith, free, lay.ceiling) in
    let c = place-cnt m k f bytes n slot space fits in
    elim (ℕ_discrete k i) [
      | yes e ↦
          let here : (k == i) ≡ true = ground arith in
          let o = place-off_self m k f bytes n slot space fits in
          let z = place-siz_self m k f bytes n slot space fits in
          rw (here, ← e)
            (view_used (place m k f bytes n) k (rw c slot) (rw o (omega arith)) (rw z short)
              ∙ rw (o, z)
                  (ap (λ (l : List ℕ). some (false, l))
                    (load-congr _ _ f n (λ x lo hi. place-byte m k f bytes n slot space fits x lo)
                      ∙ load-memcpy_self m f bytes n whole)))
      | no ne ↦
          let there : (k == i) ≡ false = ground arith in
          let ne' : i ≢ k = λ e. ne (sym e) in
          rw there (
            view-congr m (place m k f bytes n) i (ap (λ c'. ltb i c') c)
              (λ h. place-off m k f bytes n slot space fits i h ne')
              (λ h u. place-siz m k f bytes n slot space fits i h ne')
              (λ h u x lo hi.
                let up = lay.above i h ne' u in
                place-byte m k f bytes n slot space fits x (omega (arith, up, lo, free))
                ∙ memcpy_outside m f bytes n x (omega (arith, up, lo, free))))
    ]

-- What a successful insert means: `rid` names a slot that was free, it holds the tuple's bytes with
-- no delete mark, every other slot and the links of the page are as before.
pub record Inserted (p : Page) (tuple : Tuple) (rid : Rid) (p' : Page) : Type 0 where
  pub page : rid.page_id ≡ p.page_id
  pub kept : p'.page_id ≡ p.page_id
  pub valid : IsValid p'
  pub fresh : view p.data_ rid.slot_num ≡ none
  pub views :
      (i : ℕ)
      → view p'.data_ i ≡ (if rid.slot_num == i then some (false, tuple.bytes) else view p.data_ i)
  pub next : get_next_page_id p' ≡ get_next_page_id p
  pub prev : get_prev_page_id p' ≡ get_prev_page_id p

view_free : (m : Memory) (k : ℕ) → off m k ≡ 0 → view m k ≡ none
unfolding view
view_free m k e = elim (Bool-cases (ltb k (cnt m))) [ inl t ↦ rw (t, e) | inr t ↦ rw t ]

view_past : (m : Memory) (k : ℕ) → cnt m ≤ k → view m k ≡ none
unfolding view
view_past m k h = let t : ltb k (cnt m) ≡ false = ground arith in rw t

free_room :
    (p : Page)
    → 144 + 8 * cnt p.data_ ≤ fsp p.data_
    → fsp p.data_ ≤ 4096
    → get_free_space p ≡ room p.data_
unfolding sub32 add32 mul32
free_room p lo hi = omega arith

-- `insert_tuple` after the slot is chosen, on the page `p₁` that the choice leaves
module _ (p p₁ : Page) (t : Tuple) (k : ℕ) (got : get_empty_slot p ≡ (k, p₁))
    (floor : 144 + 8 * cnt p₁.data_ ≤ fsp p₁.data_) (ceiling : fsp p₁.data_ ≤ 4096)
    (short : t.size < 2147483648) where
  insert_tuple_done :
      t.allocated ≡ true
      → k < 500
      → t.size ≤ room p₁.data_
      → insert_tuple p t ≡ (
        true,
        record { page_id = p.page_id; slot_num = k },
        record p₁ { data_ = place p₁.data_ k (fsp p₁.data_ - t.size) t.bytes t.size },
      )
  unfolding insert_tuple serialize_to
  insert_tuple_done owned lt fits =
      let enough : ltb (room p₁.data_) t.size ≡ false = ground arith in
      rw (
        got,
        free_room p₁ floor ceiling,
        slt_small (room p₁.data_) t.size (omega arith) short,
        enough,
        owned,
        sub32_small (fsp p₁.data_) t.size (omega arith) (omega arith),
        size_offset k lt,
        record_offset_lem k lt,
      )

  insert_tuple_full : room p₁.data_ < t.size → insert_tuple p t ≡ (false, invalid_rid, p₁)
  unfolding insert_tuple
  insert_tuple_full full = rw (
    got,
    free_room p₁ floor ceiling,
    slt_small (room p₁.data_) t.size (omega arith) short,
    lt→ltb (room p₁.data_) t.size full,
  )

-- a slot more may be left out
skip : (p : Page) → IsValid p → (k : ℕ) → Layout k p.data_
skip p v k = record {
  floor = v.floor;
  ceiling = v.ceiling;
  above = λ i h s u. v.above i h (λ e. absurd (omega (arith, e, h))) u;
  below = λ i h s u. v.below i h (λ e. absurd (omega (arith, e, h))) u;
  sized = λ i h s u. v.sized i h (λ e. absurd (omega (arith, e, h))) u;
  filled = λ i h s u. v.filled i h (λ e. absurd (omega (arith, e, h))) u;
  apart = λ i j hi hj si sj.
      v.apart i j hi hj (λ e. absurd (omega (arith, e, hi))) (λ e. absurd (omega (arith, e, hj)));
}

-- What a call of `insert_tuple` on a valid page comes to.
abbrev pub Outcome : Page → Tuple → Type 0
Outcome p t =
    ((rid : Rid) × (p' : Page) × (insert_tuple p t ≡ (true, rid, p')) × Inserted p t rid p')
    ⊎ ((p' : Page) × (insert_tuple p t ≡ (false, invalid_rid, p'))
        × (room p.data_ < t.size + 8)
        × ((p' ≡ p) ⊎ (IsFull p.data_ × (p' ≡ set_tuple_count p (cnt p.data_ + 1))))
        × ((i : ℕ) → i < cnt p.data_ → view p'.data_ i ≡ view p.data_ i))

-- the tuple is written on a page `p₁` that has the slots of `p`, and the slot `k` besides
module _ (p p₁ : Page) (t : Tuple) (whole : length t.bytes ≡ t.size) (short : t.size < 2147483648)
    (some_bytes : 0 < t.size) (k : ℕ) (slot : k < cnt p₁.data_) (lay : Layout k p₁.data_)
    (fits : t.size ≤ room p₁.data_) where
  abbrev home : ℕ
  home = fsp p₁.data_ - t.size

  place-Inserted :
      p₁.page_id ≡ p.page_id
      → view p.data_ k ≡ none
      → ((i : ℕ) → k ≢ i → view p₁.data_ i ≡ view p.data_ i)
      → ((b : ℕ) → b + 4 ≤ 72 → read32 p₁.data_ b ≡ read32 p.data_ b)
      → Inserted p t
          (record { page_id = p.page_id; slot_num = k })
          (record p₁ { data_ = place p₁.data_ k home t.bytes t.size })
  place-Inserted id fresh same head =
      let space : 144 + 8 * cnt p₁.data_ ≤ home = omega (arith, lay.floor, fits) in
      let free : home + t.size ≤ fsp p₁.data_ = omega (arith, lay.floor, fits) in
      let low : home + t.size ≤ 4096 = omega (arith, free, lay.ceiling) in
      record {
        page = refl;
        kept = id;
        valid =
            rw (place-cnt p₁.data_ k home t.bytes t.size slot space low) (
              place-Layout p₁.data_ k home t.bytes t.size slot space low lay free short some_bytes);
        fresh = fresh;
        views = λ i.
            place-view p₁.data_ k home t.bytes t.size i whole slot space lay free short
            ∙ elim (ℕ_discrete k i) [
              | yes e ↦ let b : (k == i) ≡ true = ground arith in rw b
              | no ne ↦ let b : (k == i) ≡ false = ground arith in rw b (same i ne)
            ];
        next =
            place-head p₁.data_ k home t.bytes t.size slot space low 68 (omega arith)
            ∙ head 68 (omega arith);
        prev =
            place-head p₁.data_ k home t.bytes t.size slot space low 64 (omega arith)
            ∙ head 64 (omega arith);
      }

module _ (p : Page) (v : IsValid p) (t : Tuple) (owned : t.allocated ≡ true)
    (whole : length t.bytes ≡ t.size) (wide : 8 ≤ t.size) (short : t.size < 2147483648) where
  reuse : (k : ℕ) → k < cnt p.data_ → off p.data_ k ≡ 0 → get_empty_slot p ≡ (k, p) → Outcome p t
  reuse k lt e got = elim (dec_lt (room p.data_) t.size) [
    | yes full ↦ inr (
      p,
      insert_tuple_full p p t k got v.floor v.ceiling short full,
      omega arith,
      inl refl,
      λ i h. refl,
    )
    | no fits ↦
        let small = count-le p v in
        inl (
          _,
          _,
          insert_tuple_done p p t k got v.floor v.ceiling short owned (omega arith) (omega arith),
          place-Inserted p p t whole short (omega arith) k lt (skip p v k) (omega arith) refl
              (view_free p.data_ k e) (λ i ne. refl) (λ b h. refl),
        )
  ]

  extend :
      IsFull p.data_
      → 8 ≤ room p.data_
      → get_empty_slot p ≡ (cnt p.data_, set_tuple_count p (cnt p.data_ + 1))
      → Outcome p t
  extend every enough got =
      let m = p.data_ in
      let p₁ = set_tuple_count p (cnt m + 1) in
      let small = count-le p v in
      let lay = grown-Layout m small v (omega (arith, v.floor, enough)) in
      elim (dec_lt (room p₁.data_) t.size) [
        | yes full ↦ inr (
          p₁,
          insert_tuple_full p p₁ t (cnt m) got lay.floor lay.ceiling short full,
          omega (arith, full, grown-cnt m small, grown-word m small 72 (omega arith)),
          inr (every, refl),
          λ i h. grown-view m small i (λ e. absurd (omega (arith, e, h))) v,
        )
        | no fits ↦ inl (
          _,
          _,
          insert_tuple_done p p₁ t (cnt m) got lay.floor lay.ceiling short owned
              (omega (arith, small)) (omega arith),
          place-Inserted p p₁ t whole short (omega arith) (cnt m) (rw grown-cnt (omega arith)) lay
              (omega arith) refl (view_past m (cnt m) (omega arith))
              (λ i ne. grown-view m small i (λ e. ne (sym e)) v)
              (λ b h. grown-word m small b (omega arith)),
        )
      ]

  -- On a valid page an allocated tuple of at least 8 bytes and fewer than 2 ^ 31, whose size is their
  -- number, is inserted, into a slot that was free, or the page is too full: then fewer bytes are free
  -- than the tuple and a record need, the slots that the page had read as before, and the page is
  -- unchanged, or all its slots were in use and its tuple count alone is written, one higher.
  pub insert_tuple-Outcome : Outcome p t
  insert_tuple-Outcome = elim (get_empty_slot-cases p v) [
    | inl (k, lt, e, got) ↦ reuse k lt e got
    | inr (inl (full, tight, got)) ↦ inr (
      p,
      insert_tuple_full p p t minus_one got v.floor v.ceiling short (omega arith),
      omega arith,
      inl refl,
      λ i h. refl,
    )
    | inr (inr (full, enough, got)) ↦ extend full enough got
  ]

-- A call that returns true has inserted the tuple.
pub insert_tuple-Inserted :
    (p : Page) (t : Tuple) (rid : Rid) (p' : Page)
    → IsValid p
    → t.allocated ≡ true
    → length t.bytes ≡ t.size
    → 8 ≤ t.size
    → t.size < 2147483648
    → insert_tuple p t ≡ (true, rid, p')
    → Inserted p t rid p'
insert_tuple-Inserted p t rid p' v owned whole wide short run =
    elim (insert_tuple-Outcome p v t owned whole wide short) [
      | inr (p₁, failed, _, _, _) ↦ cc (ap (λ r. r.0) (sym run ∙ failed))
      | inl (rid₁, p₁, done, ins) ↦
          let same = sym done ∙ run in
          subst₂ (Inserted p t) (ap (λ r. r.1) same) (ap (λ r. r.2) same) ins
    ]

used_slot : (m : Memory) (k : ℕ) {x : Bool × List ℕ} → view m k ≡ some x → k < cnt m
used_slot m k e = elim (dec_lt k (cnt m)) [
  | yes lt ↦ lt
  | no ge ↦ cc (sym e ∙ view_past m k (omega arith))
]

-- Reading back: an allocated tuple of at least 8 bytes and fewer than 2 ^ 31, whose size is their
-- number, that `insert_tuple` reports as stored on a valid page, `get_tuple` returns at the RID, byte for
-- byte, whatever the tuple that it fills in was.
pub get_tuple-insert_tuple :
    (p : Page) (t d : Tuple) (rid : Rid) (p' : Page)
    → IsValid p
    → t.allocated ≡ true
    → length t.bytes ≡ t.size
    → 8 ≤ t.size
    → t.size < 2147483648
    → insert_tuple p t ≡ (true, rid, p')
    → get_tuple p' d rid
      ≡ (true, record { allocated = true; rid = rid; size = t.size; bytes = t.bytes })
get_tuple-insert_tuple p t d rid p' v owned whole wide short run =
    let ins = insert_tuple-Inserted p t rid p' v owned whole wide short run in
    let here : view p'.data_ rid.slot_num ≡ some (false, t.bytes) =
      ins.views rid.slot_num ∙ ground arith in
    let lt = used_slot p'.data_ rid.slot_num here in
    let small = count-le p' ins.valid in
    get_tuple-view p' ins.valid d rid (omega (arith, lt, small)) ∙ rw (here, whole)

-- A tuple of fewer than 8 bytes that still fits a full page is written with the slot number -1,
-- whose record lies over the tuple count: the page then counts `t.size` tuples.
pub insert_tuple_narrow :
    (p : Page) (t : Tuple)
    → IsValid p
    → IsFull p.data_
    → room p.data_ < 8
    → t.size ≤ room p.data_
    → (p' : Page) × (insert_tuple p t
        ≡ (true, record { page_id = p.page_id; slot_num = minus_one }, p'))
      × (cnt p'.data_ ≡ t.size)
unfolding insert_tuple add32 mul32
insert_tuple_narrow p t v full tight fits = elim (get_empty_slot-cases p v) [
  | inl (k, lt, e, got) ↦ absurd (full k lt e)
  | inr (inr (_, enough, got)) ↦ absurd (omega arith)
  | inr (inl (_, _, got)) ↦
      let enough : ltb (room p.data_) t.size ≡ false = ground arith in
      let f = sub32 (fsp p.data_) t.size in
      (
        record p {
          data_ = write32 (write32 (write32 (serialize_to t p.data_ f) 72 f) 136 f) 140 t.size;
        },
        rw (
          got,
          free_room p v.floor v.ceiling,
          slt_small (room p.data_) t.size (omega arith) (omega arith),
          enough,
        ),
        read32-write32 _ 140 t.size (omega arith),
      )
]
