-- ===== src/TableMetaData/Stored.antt =====
-- A schema comes back from its meta data page.
use dawn.Base.{
  ℕ, ◌+◌, ◌-◌, ◌≤◌, ◌<◌, ◌≡◌, inl, inr, refl, ap, ◌∙◌, true, List, [], ◌∷◌, ◌++◌, length, get_or,
  arith,
}
use dawn.Data.Bytes.{cstring}
use dawn.Data.{TypeId, invalid, boolean, integer, decimal, char}
use dawn.Disk.Start.Names.{Plain, cstring-load}
use dawn.Memory.{
  Memory, read32, write32, memcpy, u32_mod, read32-write32, read32-write32-Apart, write32_outside,
  memcpy_outside, read32-memcpy, read32-congr, inside,
}
use dawn.Page.TablePage.{load}
use dawn.Schema.{Column, get_data_size, Schema, new_schema}
use dawn.TableMetaData.{
  type_code, type_of, column_size, write_column, write_columns, write_schema, make_column,
  read_column, read_columns, read_schema,
}

type_of-type_code : (t : TypeId) → type_of (type_code t) ≡ t
type_of-type_code invalid = refl
type_of-type_code boolean = refl
type_of-type_code integer = refl
type_of-type_code decimal = refl
type_of-type_code char = refl

small_code : (t : TypeId) → type_code t < u32_mod
small_code invalid = omega arith
small_code boolean = omega arith
small_code integer = omega arith
small_code decimal = omega arith
small_code char = omega arith

-- the column as a constructor of `Column` makes it
abbrev pub Made : Column → Type 0
Made c = make_column c.column_type c.column_name c.offset (get_data_size c) ≡ c

-- columns as their constructors make them, with names without a 0, that fit the page from `at` on
abbrev pub Storable : ℕ → List Column → Type 0
Storable at [] = at ≤ 4096
Storable at (c ∷ cs) =
    Plain c.column_name
    × (c.offset < u32_mod)
    × (get_data_size c < u32_mod)
    × Made c
    × Storable (at + column_size (length c.column_name)) cs

Storable-le : (at : ℕ) (cs : List Column) → Storable at cs → at ≤ 4096
Storable-le at [] h = h
Storable-le at (c ∷ cs) (_, _, _, _, h) =
    omega (arith, Storable-le (at + column_size (length c.column_name)) cs h)

write_column_below :
    (m : Memory) (at : ℕ) (c : Column) (x : ℕ) → x < at → write_column m at c x ≡ m x
unfolding write_column
write_column_below m at c x h =
    memcpy_outside _ (at + 4) (c.column_name ++ 0 ∷ []) (length c.column_name + 1) x
      (inl (omega arith))
    ∙ write32_outside _ (at + 4 + length c.column_name + 1 + 8) (get_data_size c) x
        (inl (omega arith))
    ∙ write32_outside _ (at + 4 + length c.column_name + 1 + 4) (type_code c.column_type) x
        (inl (omega arith))
    ∙ write32_outside _ (at + 4 + length c.column_name + 1) c.offset x (inl (omega arith))
    ∙ write32_outside m at (length c.column_name) x (inl h)

write_columns_below :
    (m : Memory) (at : ℕ) (cs : List Column) (x : ℕ) → x < at → write_columns m at cs x ≡ m x
unfolding write_columns
write_columns_below m at [] x h = refl
write_columns_below m at (c ∷ cs) x h =
    write_columns_below (write_column m at c) (at + column_size (length c.column_name)) cs x
      (omega arith)
    ∙ write_column_below m at c x h

-- a memory that agrees with what `write_column` leaves on the column's bytes
module _ (m F : Memory) (at : ℕ) (c : Column)
    (same : (x : ℕ)
      → at ≤ x
      → x < at + column_size (length c.column_name)
      → F x ≡ write_column m at c x) where
  abbrev n : ℕ
  n = length c.column_name

  len_read : n < u32_mod → read32 F at ≡ n
  unfolding write_column
  len_read h =
      read32-congr F (write_column m at c) at (λ x lo hi. same x lo (omega arith))
      ∙ read32-memcpy _ (at + 4) (c.column_name ++ 0 ∷ []) (n + 1) at (omega arith)
      ∙ read32-write32-Apart _ (at + 4 + n + 1 + 8) (get_data_size c) at (omega arith)
      ∙ read32-write32-Apart _ (at + 4 + n + 1 + 4) (type_code c.column_type) at (omega arith)
      ∙ read32-write32-Apart _ (at + 4 + n + 1) c.offset at (omega arith)
      ∙ read32-write32 m at n h

  offset_read : c.offset < u32_mod → read32 F (at + 4 + n + 1) ≡ c.offset
  unfolding write_column
  offset_read h =
      read32-congr F (write_column m at c) (at + 4 + n + 1)
        (λ x lo hi. same x (omega arith) (omega arith))
      ∙ read32-memcpy _ (at + 4) (c.column_name ++ 0 ∷ []) (n + 1) (at + 4 + n + 1) (omega arith)
      ∙ read32-write32-Apart _ (at + 4 + n + 1 + 8) (get_data_size c) (at + 4 + n + 1) (omega arith)
      ∙ read32-write32-Apart _ (at + 4 + n + 1 + 4) (type_code c.column_type) (at + 4 + n + 1)
          (omega arith)
      ∙ read32-write32 _ (at + 4 + n + 1) c.offset h

  type_read : read32 F (at + 4 + n + 1 + 4) ≡ type_code c.column_type
  unfolding write_column
  type_read =
      read32-congr F (write_column m at c) (at + 4 + n + 1 + 4)
        (λ x lo hi. same x (omega arith) (omega arith))
      ∙ read32-memcpy _ (at + 4) (c.column_name ++ 0 ∷ []) (n + 1) (at + 4 + n + 1 + 4)
          (omega arith)
      ∙ read32-write32-Apart _ (at + 4 + n + 1 + 8) (get_data_size c) (at + 4 + n + 1 + 4)
          (omega arith)
      ∙ read32-write32 _ (at + 4 + n + 1 + 4) (type_code c.column_type) (small_code c.column_type)

  size_read : get_data_size c < u32_mod → read32 F (at + 4 + n + 1 + 8) ≡ get_data_size c
  unfolding write_column
  size_read h =
      read32-congr F (write_column m at c) (at + 4 + n + 1 + 8)
        (λ x lo hi. same x (omega arith) (omega arith))
      ∙ read32-memcpy _ (at + 4) (c.column_name ++ 0 ∷ []) (n + 1) (at + 4 + n + 1 + 8)
          (omega arith)
      ∙ read32-write32 _ (at + 4 + n + 1 + 8) (get_data_size c) h

  name_byte : (i : ℕ) → i ≤ n → F (at + 4 + i) ≡ get_or (c.column_name ++ 0 ∷ []) i 0
  unfolding write_column memcpy
  name_byte i h =
      let within : inside (at + 4) (n + 1) (at + 4 + i) ≡ true = ground arith in
      let back : at + 4 + i - (at + 4) ≡ i = omega arith in
      same (at + 4 + i) (omega arith) (omega arith) ∙ rw (within, back) refl

  read_column-write_column :
      Plain c.column_name
      → c.offset < u32_mod
      → get_data_size c < u32_mod
      → Made c
      → at + column_size n ≤ 4096
      → read_column F at ≡ c
  unfolding read_column
  read_column-write_column plain o s made fits =
      let name : cstring (load F (at + 4) (4096 - (at + 4))) ≡ c.column_name =
        cstring-load c.column_name F (at + 4) (4096 - (at + 4)) plain name_byte (omega arith) in
      rw
        (
          len_read (omega arith),
          offset_read o,
          type_read,
          size_read s,
          type_of-type_code c.column_type,
          name,
        )
        made

read_columns-write_columns :
    (cs : List Column) (m F : Memory) (at : ℕ)
    → ((x : ℕ) → at ≤ x → F x ≡ write_columns m at cs x)
    → Storable at cs
    → read_columns (length cs) F at ≡ cs
unfolding read_columns write_columns
read_columns-write_columns [] m F at same h = refl
read_columns-write_columns (c ∷ cs) m F at same (plain, o, s, made, h) =
    let next = at + column_size (length c.column_name) in
    let fits = Storable-le next cs h in
    let here : (x : ℕ) → at ≤ x → x < next → F x ≡ write_column m at c x =
      λ x lo hi. same x lo ∙ write_columns_below (write_column m at c) next cs x hi in
    let len = len_read m F at c here (omega (arith, fits)) in
    let one = read_column-write_column m F at c here plain o s made fits in
    let rest =
      read_columns-write_columns cs (write_column m at c) F next (λ x lo. same x (omega arith)) h in
    rw (one, len) (ap (λ (l : List Column). c ∷ l) rest)

Storable-bounded : (at : ℕ) (cs : List Column) → Storable at cs → at + length cs ≤ 4096
Storable-bounded at [] h = omega (arith, h)
Storable-bounded at (c ∷ cs) (_, _, _, _, h) =
    omega (arith, Storable-bounded (at + column_size (length c.column_name)) cs h)

-- The meta data page of a table that is made from scratch gives the table back: for columns as their
-- constructors make them, whose names have no 0 and whose records fit the page, the stored table gets
-- the same columns, in a schema of the size that they sum to, and the ids of its first page and of its
-- index header.
pub read_schema-write_schema :
    (m : Memory) (s : Schema) (first index : ℕ)
    → Storable 140 s.columns
    → first < u32_mod
    → index < u32_mod
    → read_schema (write_schema m s first index) ≡ (new_schema s.columns, first, index)
unfolding read_schema write_schema
read_schema-write_schema m s first index h hf hi =
    let few = Storable-bounded 140 s.columns h in
    let m₁ = write32 m 136 (length s.columns) in
    let m₂ = write_columns m₁ 140 s.columns in
    let count : read32 (write32 (write32 m₂ 64 first) 68 index) 136 ≡ length s.columns =
      read32-write32-Apart _ 68 index 136 (inl (omega arith))
      ∙ read32-write32-Apart m₂ 64 first 136 (inl (omega arith))
      ∙ read32-congr m₂ m₁ 136 (λ x lo up. write_columns_below m₁ 140 s.columns x (omega arith))
      ∙ read32-write32 m 136 (length s.columns) (omega arith) in
    let columns : read_columns (length s.columns) (write32 (write32 m₂ 64 first) 68 index) 140
        ≡ s.columns =
      read_columns-write_columns s.columns m₁ _ 140
        (λ x lo.
          write32_outside _ 68 index x (inr (omega arith))
          ∙ write32_outside m₂ 64 first x (inr (omega arith)))
        h in
    let a : read32 (write32 (write32 m₂ 64 first) 68 index) 64 ≡ first =
      read32-write32-Apart _ 68 index 64 (inr (omega arith)) ∙ read32-write32 m₂ 64 first hf in
    let b : read32 (write32 (write32 m₂ 64 first) 68 index) 68 ≡ index =
      read32-write32 _ 68 index hi in
    rw (count, columns, a, b) refl
