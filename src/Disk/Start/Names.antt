-- ===== src/Disk/Start/Names.antt =====
-- What `from_mtd` reads is what `write_meta_data` wrote.
use dawn.Base.{
  ℕ, zero, suc, ◌+◌, ◌-◌, ◌≤◌, ◌<◌, ◌≡◌, ◌≢◌, ◌⊎◌, inr, refl, ap, ◌∙◌, true, false, List, [], ◌∷◌,
  ◌++◌, ◌==◌, length, get_or, arith,
}
use dawn.Data.Bytes.{cstring}
use dawn.Disk.Start.{
  MetaData, fill_name, fill_meta, read_meta, log_name_sz_offset, max_ava_pgid_offset,
  reserved_offset,
}
use dawn.Memory.{
  Memory, read32, write32, memcpy, u32_mod, read32-write32, read32-write32-Apart, write32_outside,
  memcpy_outside, memset0_outside, read32-memcpy, read32-memset0, read32-congr, inside,
}
use dawn.Page.TablePage.Layout.{get_or-load, length-load}
use dawn.Page.TablePage.{load}

-- no character of the name is 0
abbrev pub Plain : List ℕ → Type 0
Plain [] = Unit {0}
Plain (c ∷ cs) = (c ≢ 0) × Plain cs

pub cstring-load :
    (name : List ℕ) (g : Memory) (at k : ℕ)
    → Plain name
    → ((i : ℕ) → i ≤ length name → g (at + i) ≡ get_or (name ++ 0 ∷ []) i 0)
    → length name < k
    → cstring (load g at k) ≡ name
unfolding cstring load
cstring-load name g at zero plain h fits = absurd (omega arith)
cstring-load [] g at (suc k) plain h fits =
    let here : at + 0 ≡ at = omega arith in
    let end : g at ≡ 0 = rw here at (h 0 (omega arith)) in rw end refl
cstring-load (c ∷ name) g at (suc k) (nz, plain) h fits =
    let here : at + 0 ≡ at = omega arith in
    let first : g at ≡ c = rw here at (h 0 (omega arith)) in
    let go : (c == 0) ≡ false = ground arith in
    let shift : (i : ℕ) → at + suc i ≡ at + 1 + i = λ i. omega arith in
    let rest =
      cstring-load name g (at + 1) k plain (λ i l. rw (shift i) at (h (suc i) (omega arith)))
        (omega arith) in
    rw (first, go) (ap (λ (l : List ℕ). c ∷ l) rest)

fill_name_outside :
    (m : Memory) (at : ℕ) (name : List ℕ) (x : ℕ)
    → (x < at) ⊎ (at + 4 + length name + 1 ≤ x)
    → fill_name m at name x ≡ m x
unfolding fill_name
fill_name_outside m at name x h =
    memcpy_outside (write32 m at (length name)) (at + 4) (name ++ 0 ∷ []) (length name + 1) x
      (omega arith)
    ∙ write32_outside m at (length name) x (omega arith)

read32-fill_name :
    (m : Memory) (at : ℕ) (name : List ℕ)
    → length name < u32_mod
    → read32 (fill_name m at name) at ≡ length name
unfolding fill_name
read32-fill_name m at name h =
    read32-memcpy (write32 m at (length name)) (at + 4) (name ++ 0 ∷ []) (length name + 1) at
      (omega arith)
    ∙ read32-write32 m at (length name) h

fill_name-inside :
    (m : Memory) (at : ℕ) (name : List ℕ) (i : ℕ)
    → i ≤ length name
    → fill_name m at name (at + 4 + i) ≡ get_or (name ++ 0 ∷ []) i 0
unfolding fill_name memcpy
fill_name-inside m at name i h =
    let within : inside (at + 4) (length name + 1) (at + 4 + i) ≡ true = ground arith in
    let back : at + 4 + i - (at + 4) ≡ i = omega arith in rw (within, back) refl

module _ (m : Memory) (d : MetaData) (size : ℕ) (fits : reserved_offset d + 128 ≤ size) where
  -- below the length of the log name only the first name is written
  low : (x : ℕ) → x < log_name_sz_offset d → fill_meta m d x ≡ fill_name m 0 d.db_name x
  unfolding fill_meta
  low x h =
      memset0_outside _ (reserved_offset d) 128 x (omega arith)
      ∙ write32_outside _ (max_ava_pgid_offset d + 4) d.catalog_page_id x (omega arith)
      ∙ write32_outside _ (max_ava_pgid_offset d) d.max_ava_pgid x (omega arith)
      ∙ fill_name_outside _ (log_name_sz_offset d) d.log_name x (omega arith)

  mid :
      (x : ℕ)
      → x < max_ava_pgid_offset d
      → fill_meta m d x ≡ fill_name (fill_name m 0 d.db_name) (log_name_sz_offset d) d.log_name x
  unfolding fill_meta
  mid x h =
      memset0_outside _ (reserved_offset d) 128 x (omega arith)
      ∙ write32_outside _ (max_ava_pgid_offset d + 4) d.catalog_page_id x (omega arith)
      ∙ write32_outside _ (max_ava_pgid_offset d) d.max_ava_pgid x (omega arith)

  abbrev buffer : List ℕ
  buffer = load (fill_meta m d) 0 size

  abbrev g : Memory
  g x = get_or buffer x 0

  delivered : (x : ℕ) → x < size → g x ≡ fill_meta m d x
  delivered x h = get_or-load (fill_meta m d) 0 size x h ∙ ap (fill_meta m d) (omega arith)

  db_size : length d.db_name < u32_mod → read32 g 0 ≡ length d.db_name
  db_size h =
      read32-congr g (fill_name m 0 d.db_name) 0
        (λ x lo hi. delivered x (omega arith) ∙ low x (omega arith))
      ∙ read32-fill_name m 0 d.db_name h

  log_size : length d.log_name < u32_mod → read32 g (log_name_sz_offset d) ≡ length d.log_name
  log_size h =
      read32-congr g (fill_name (fill_name m 0 d.db_name) (log_name_sz_offset d) d.log_name)
        (log_name_sz_offset d) (λ x lo hi. delivered x (omega arith) ∙ mid x (omega arith))
      ∙ read32-fill_name _ (log_name_sz_offset d) d.log_name h

  max_read : d.max_ava_pgid < u32_mod → read32 g (max_ava_pgid_offset d) ≡ d.max_ava_pgid
  unfolding fill_meta
  max_read h =
      read32-congr g (fill_meta m d) (max_ava_pgid_offset d) (λ x lo hi. delivered x (omega arith))
      ∙ read32-memset0 _ (reserved_offset d) 128 (max_ava_pgid_offset d) (inr (omega arith))
      ∙ read32-write32-Apart _ (max_ava_pgid_offset d + 4) d.catalog_page_id (max_ava_pgid_offset d)
          (inr (omega arith))
      ∙ read32-write32 _ (max_ava_pgid_offset d) d.max_ava_pgid h

  catalog_read :
      d.catalog_page_id < u32_mod → read32 g (max_ava_pgid_offset d + 4) ≡ d.catalog_page_id
  unfolding fill_meta
  catalog_read h =
      read32-congr g (fill_meta m d) (max_ava_pgid_offset d + 4)
        (λ x lo hi. delivered x (omega arith))
      ∙ read32-memset0 _ (reserved_offset d) 128 (max_ava_pgid_offset d + 4) (inr (omega arith))
      ∙ read32-write32 _ (max_ava_pgid_offset d + 4) d.catalog_page_id h

  db_read : Plain d.db_name → cstring (load g 4 (size - 4)) ≡ d.db_name
  db_read h =
      cstring-load d.db_name g 4 (size - 4) h
        (λ i l.
          delivered (4 + i) (omega arith)
          ∙ low (4 + i) (omega arith)
          ∙ ap (fill_name m 0 d.db_name) (omega arith)
          ∙ fill_name-inside m 0 d.db_name i l)
        (omega arith)

  log_read :
      Plain d.log_name
      → cstring (load g (log_name_sz_offset d + 4) (size - (log_name_sz_offset d + 4))) ≡ d.log_name
  log_read h =
      cstring-load d.log_name g (log_name_sz_offset d + 4) _ h
        (λ i l.
          delivered (log_name_sz_offset d + 4 + i) (omega arith)
          ∙ mid (log_name_sz_offset d + 4 + i) (omega arith)
          ∙ fill_name-inside _ (log_name_sz_offset d) d.log_name i l)
        (omega arith)

-- Names without a 0 character and numbers of 32 bits that `write_meta_data` puts into a buffer with
-- room for them come back, when `from_mtd` reads the buffer's bytes from the file: both names, the
-- number of page ids and the id of the catalog page.
pub read_meta-fill_meta :
    (m : Memory) (d : MetaData) (size : ℕ)
    → reserved_offset d + 128 ≤ size
    → Plain d.db_name
    → Plain d.log_name
    → size < u32_mod
    → d.max_ava_pgid < u32_mod
    → d.catalog_page_id < u32_mod
    → read_meta (load (fill_meta m d) 0 size) ≡ d
unfolding read_meta
read_meta-fill_meta m d size fits db log small max cat =
    let n = length-load (fill_meta m d) 0 size in
    let a = db_size m d size fits (omega arith) in
    let b = log_size m d size fits (omega arith) in
    rw
      (
        a,
        b,
        n,
        db_read m d size fits db,
        log_read m d size fits log,
        max_read m d size fits max,
        catalog_read m d size fits cat,
      )
      refl
