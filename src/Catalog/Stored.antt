-- ===== src/Catalog/Stored.antt =====
-- The tables in the catalog's page: what the constructor reads after `create_table` has written.
use dawn.Base.{
  ℕ, zero, suc, ◌+◌, ◌-◌, ◌*◌, ◌≤◌, ◌<◌, ◌≡◌, inl, inr, refl, ap, ◌∙◌, true, false, List, [], ◌∷◌,
  ◌++◌, length, get_or, ◌==◌, arith,
}
use dawn.Catalog.Records.{
  record_at, name_offset, name_size, table_page_id, name_at, read_tables, stored_pointer,
  add_record,
}
use dawn.Data.Bytes.{cstring}
use dawn.Disk.Start.Names.{Plain}
use dawn.Memory.{
  Memory, read32, write32, memcpy, u32_mod, read32-write32, read32-write32-Apart, write32_outside,
  memcpy_outside, read32-memcpy, add32, sub32, mul32, sub32_small, inside,
}
use dawn.Page.TablePage.Layout.{load-congr}
use dawn.Page.TablePage.{load}

pub record_at_lem : (i : ℕ) → i ≤ 341 → record_at i ≡ 68 + i * 12
unfolding add32 mul32
record_at_lem i h = omega arith

get_or-append : (bs : List ℕ) (i : ℕ) → i < length bs → get_or (bs ++ 0 ∷ []) i 0 ≡ get_or bs i 0
get_or-append [] i h = absurd (omega arith)
get_or-append (b ∷ bs) zero h = refl
get_or-append (b ∷ bs) (suc i) h = get_or-append bs i (omega arith)

load-get_or :
    (bs : List ℕ) (m : Memory) (at : ℕ)
    → ((i : ℕ) → i < length bs → m (at + i) ≡ get_or bs i 0)
    → load m at (length bs) ≡ bs
unfolding load
load-get_or [] m at same = refl
load-get_or (b ∷ bs) m at same =
    let here : at ≡ at + 0 = omega arith in
    let rest = load-get_or bs m (at + 1) (λ i h. ap m (omega arith) ∙ same (suc i) (omega arith)) in
    rw (rest) (ap (λ c. c ∷ bs) (ap m here ∙ same 0 (omega arith)))

cstring-Plain : (bs : List ℕ) → Plain bs → cstring (bs ++ 0 ∷ []) ≡ bs
unfolding cstring
cstring-Plain [] h = refl
cstring-Plain (b ∷ bs) (h, hs) =
    let more : (b == 0) ≡ false = ground arith in
    rw more (ap (λ (l : List ℕ). b ∷ l) (cstring-Plain bs hs))

-- what `add_record` writes, with offsets that do not wrap
abbrev laid : Memory → ℕ → ℕ → ℕ → List ℕ → ℕ → Memory
laid m num n at name id =
    let m₁ = memcpy (write32 m 64 num) at (name ++ 0 ∷ []) (length name + 1) in
    let r = 68 + n * 12 in write32 (write32 (write32 m₁ r at) (r + 4) (length name)) (r + 8) id

stored_pointer-last :
    (m : Memory) (n at : ℕ)
    → read32 m 64 ≡ n + 1
    → n ≤ 341
    → read32 m (68 + n * 12) ≡ at
    → stored_pointer m ≡ at
unfolding stored_pointer
stored_pointer-last m n at count few last =
    let some_there : (n + 1 == 0) ≡ false = ground arith in
    let before : sub32 (n + 1) 1 ≡ n =
      sub32_small (n + 1) 1 (omega arith) (omega arith) ∙ omega arith in
    let slot = record_at_lem n few in rw (count, some_there, before, slot) last

module _ (m : Memory) (num n at : ℕ) (name : List ℕ) (id : ℕ) (fits : 80 + n * 12 ≤ at)
    (inside_page : at + length name < 4096) where
  abbrev F : Memory
  F = laid m num n at name id

  add_record-laid : add_record m num n (at + (length name + 1)) name id ≡ F
  unfolding add_record
  add_record-laid =
      let start : sub32 (at + (length name + 1)) (length name + 1) ≡ at =
        sub32_small _ _ (omega arith) (omega arith) ∙ omega arith in
      let slot : record_at n ≡ 68 + n * 12 = record_at_lem n (omega arith) in rw (start, slot) refl

  laid-field : (b : ℕ) → 68 ≤ b → b + 4 ≤ 68 + n * 12 → read32 F b ≡ read32 m b
  laid-field b lo hi =
      read32-write32-Apart _ (68 + n * 12 + 8) id b (inr (omega arith))
      ∙ read32-write32-Apart _ (68 + n * 12 + 4) (length name) b (inr (omega arith))
      ∙ read32-write32-Apart _ (68 + n * 12) at b (inr (omega arith))
      ∙ read32-memcpy _ at (name ++ 0 ∷ []) (length name + 1) b (inr (omega arith))
      ∙ read32-write32-Apart m 64 num b (inl (omega arith))

  laid_above :
      (x : ℕ) → at ≤ x → F x ≡ memcpy (write32 m 64 num) at (name ++ 0 ∷ []) (length name + 1) x
  laid_above x lo =
      write32_outside _ (68 + n * 12 + 8) id x (inr (omega arith))
      ∙ write32_outside _ (68 + n * 12 + 4) (length name) x (inr (omega arith))
      ∙ write32_outside _ (68 + n * 12) at x (inr (omega arith))

  laid_old : (x : ℕ) → at + length name < x → F x ≡ m x
  laid_old x lo =
      laid_above x (omega arith)
      ∙ memcpy_outside _ at (name ++ 0 ∷ []) (length name + 1) x (inr (omega arith))
      ∙ write32_outside m 64 num x (inr (omega arith))

  laid_new : (i : ℕ) → i < length name → F (at + i) ≡ get_or name i 0
  unfolding memcpy
  laid_new i h =
      let within : inside at (length name + 1) (at + i) ≡ true = ground arith in
      let back : at + i - at ≡ i = omega arith in
      laid_above (at + i) (omega arith) ∙ rw (within, back) (get_or-append name i h)

  laid_record :
      id < u32_mod
      → (read32 F (68 + n * 12) ≡ at)
        × (read32 F (68 + n * 12 + 4) ≡ length name)
        × (read32 F (68 + n * 12 + 8) ≡ id)
  laid_record small = (
    read32-write32-Apart _ (68 + n * 12 + 8) id (68 + n * 12) (inr (omega arith))
        ∙ read32-write32-Apart _ (68 + n * 12 + 4) (length name) (68 + n * 12) (inr (omega arith))
        ∙ read32-write32 _ (68 + n * 12) at (omega arith),
    read32-write32-Apart _ (68 + n * 12 + 8) id (68 + n * 12 + 4) (inr (omega arith))
        ∙ read32-write32 _ (68 + n * 12 + 4) (length name) (omega arith),
    read32-write32 _ (68 + n * 12 + 8) id small,
  )

  laid_count : num < u32_mod → read32 F 64 ≡ num
  laid_count small =
      read32-write32-Apart _ (68 + n * 12 + 8) id 64 (inr (omega arith))
      ∙ read32-write32-Apart _ (68 + n * 12 + 4) (length name) 64 (inr (omega arith))
      ∙ read32-write32-Apart _ (68 + n * 12) at 64 (inr (omega arith))
      ∙ read32-memcpy _ at (name ++ 0 ∷ []) (length name + 1) 64 (inr (omega arith))
      ∙ read32-write32 m 64 num small

  name_at_new : Plain name → name_at F at (length name) ≡ name
  unfolding name_at
  name_at_new plain = rw (load-get_or name F at laid_new) (cstring-Plain name plain)

  name_at_old : (off size : ℕ) → at + length name < off → name_at F off size ≡ name_at m off size
  unfolding name_at
  name_at_old off size above =
      let same = load-congr F m off size (λ x lo hi. laid_old x (omega arith)) in
      ap (λ l. cstring (l ++ 0 ∷ [])) same

  field_old : (i b : ℕ) → i < n → record_at i ≤ b → b ≤ record_at i + 8 → read32 F b ≡ read32 m b
  field_old i b h lo hi =
      let slot = record_at_lem i (omega arith) in
      laid-field b (omega (arith, slot)) (omega (arith, slot))

  read_tables-laid :
      (left i : ℕ)
      → i + left ≡ n
      → Plain name
      → id < u32_mod
      → ((j : ℕ) → j < n → at + length name < name_offset m j)
      → read_tables F (suc left) i ≡ read_tables m left i ++ (id, name) ∷ []
  unfolding read_tables
  read_tables-laid zero i last plain small above =
      let slot : record_at i ≡ 68 + n * 12 = record_at_lem i (omega arith) ∙ omega (arith, last) in
      let (a, b, c) = laid_record small in rw (slot, a, b, c, name_at_new plain) refl
  read_tables-laid (suc left) i more plain small above =
      let rest = read_tables-laid left (i + 1) (omega (arith, more)) plain small above in
      let here : i < n = omega (arith, more) in
      let off = field_old i (record_at i) here (omega arith) (omega arith) in
      let size = field_old i (record_at i + 4) here (omega arith) (omega arith) in
      let page = field_old i (record_at i + 8) here (omega arith) (omega arith) in
      let same = name_at_old (name_offset m i) (name_size m i) (above i here) in
      rw (page, off, size, same)
        (ap
          (λ (l : List (ℕ × List ℕ)).
            (table_page_id m i, name_at m (name_offset m i) (name_size m i)) ∷ l)
          rest)

-- What `create_table` writes is read back: for a table whose record, and whose name with its end, fit
-- between the records and the names, and whose name has no 0, the constructor then reads the tables that
-- were there and behind them the new one, counts one more, and gets the new free space pointer.
pub read_tables-add_record :
    (m : Memory) (n free_space_pointer : ℕ) (name : List ℕ) (id : ℕ)
    → 81 + n * 12 + length name ≤ free_space_pointer
    → free_space_pointer ≤ 4096
    → Plain name
    → id < u32_mod
    → ((j : ℕ) → j < n → free_space_pointer ≤ name_offset m j)
    → (read32 (add_record m (n + 1) n free_space_pointer name id) 64 ≡ n + 1)
      × (read_tables (add_record m (n + 1) n free_space_pointer name id) (n + 1) 0
          ≡ read_tables m n 0 ++ (id, name) ∷ [])
      × (stored_pointer (add_record m (n + 1) n free_space_pointer name id)
          ≡ free_space_pointer - (length name + 1))
read_tables-add_record m n free_space_pointer name id fits inside_page plain small above =
    let at = free_space_pointer - (length name + 1) in
    let back : free_space_pointer ≡ at + (length name + 1) = omega arith in
    let low : 80 + n * 12 ≤ at = omega arith in
    let high : at + length name < 4096 = omega arith in
    let f = laid m (n + 1) n at name id in
    let shape : add_record m (n + 1) n free_space_pointer name id ≡ f =
      ap (λ k. add_record m (n + 1) n k name id) back
      ∙ add_record-laid m (n + 1) n at name id low high in
    let count = laid_count m (n + 1) n at name id low high (omega arith) in
    let next : n + 1 ≡ suc n = omega arith in
    (
      ap (λ q. read32 q 64) shape ∙ count,
      ap (λ q. read_tables q (n + 1) 0) shape
          ∙ ap (λ k. read_tables f k 0) next
          ∙ read_tables-laid m (n + 1) n at name id low high n 0 (omega arith) plain small
              (λ j h. omega (arith, above j h)),
      ap stored_pointer shape
          ∙ stored_pointer-last f n at count (omega arith)
              (laid_record m (n + 1) n at name id low high small).0,
    )
