-- ===== src/TableMetaData.antt =====
-- The meta data page of a table: src/include/meta/table_meta_data.h and src/meta/table_meta_data.cpp.
-- `data_` is the memory of the page that both constructors hold. The offsets do not wrap in a page.
mod Examples
pub mod Object
pub mod Stored
use dawn.Base.{
  ℕ, zero, suc, ◌+◌, ◌-◌, Bool, true, false, List, [], ◌∷◌, ◌++◌, ◌==◌, if◌then◌else◌, length,
}
use dawn.Data.Bytes.{cstring}
use dawn.Data.{TypeId, invalid, boolean, integer, decimal, char, same_type}
use dawn.Memory.{Memory, read32, write32, memcpy, minus_one}
use dawn.Page.TablePage.{load}
use dawn.Schema.{Column, new_column, char_column, get_data_size, Schema, new_schema}

-- the number of a `TypeId`
abbrev pub type_code : TypeId → ℕ
type_code invalid = minus_one
type_code boolean = 0
type_code integer = 1
type_code decimal = 2
type_code char = 3

-- A number that is none of a type is taken for the invalid type.
abbrev pub type_of : ℕ → TypeId
type_of n =
    if n == 0
    then boolean
    else if n == 1
    then integer
    else if n == 2
    then decimal
    else if n == 3
    then char
    else invalid

-- FIXED_COLUMN_SIZE, and the name with its end
abbrev pub column_size : ℕ → ℕ
column_size name_len = 16 + name_len + 1

-- the body of the loop that writes a column at `col_name_len_offset`
unfoldable pub write_column : Memory → ℕ → Column → Memory
write_column m at c =
    let name_len = length c.column_name in
    let offset_offset = at + 4 + name_len + 1 in
    let m₁ = write32 m at name_len in
    let m₂ = write32 m₁ offset_offset c.offset in
    let m₃ = write32 m₂ (offset_offset + 4) (type_code c.column_type) in
    let m₄ = write32 m₃ (offset_offset + 8) (get_data_size c) in
    memcpy m₄ (at + 4) (c.column_name ++ 0 ∷ []) (name_len + 1)

unfoldable pub write_columns : Memory → ℕ → List Column → Memory
unfolding write_column
write_columns m at [] = m
write_columns m at (c ∷ cs) =
    write_columns (write_column m at c) (at + column_size (length c.column_name)) cs

-- What the constructor from scratch writes; the two ids are those of the new pages, and between the
-- columns and the ids it flushes the page.
unfoldable pub write_schema : Memory → Schema → ℕ → ℕ → Memory
unfolding write_columns
write_schema data_ s first_table_page_id index_header_page_id =
    let m₁ = write32 data_ 136 (length s.columns) in
    let m₂ = write_columns m₁ 140 s.columns in
    write32 (write32 m₂ 64 first_table_page_id) 68 index_header_page_id

-- the column that is made of what was read
abbrev pub make_column : TypeId → List ℕ → ℕ → ℕ → Column
make_column type_id name offset_in_tp data_size =
    if same_type type_id char
    then char_column name offset_in_tp data_size
    else new_column type_id name offset_in_tp

-- the body of the loop that reads a column at `col_name_len_offset`
unfoldable pub read_column : Memory → ℕ → Column
unfolding cstring
read_column m at =
    let offset_offset = at + 4 + read32 m at + 1 in
    make_column (type_of (read32 m (offset_offset + 4)))
      (cstring (load m (at + 4) (4096 - (at + 4)))) (read32 m offset_offset)
      (read32 m (offset_offset + 8))

unfoldable pub read_columns : ℕ → Memory → ℕ → List Column
unfolding read_column
read_columns zero m at = []
read_columns (suc n) m at = read_column m at ∷ read_columns n m (at + column_size (read32 m at))

-- what the constructor of a stored table reads: the schema and the two ids
unfoldable pub read_schema : Memory → Schema × ℕ × ℕ
unfolding read_columns new_schema
read_schema data_ =
    (new_schema (read_columns (read32 data_ 136) data_ 140), read32 data_ 64, read32 data_ 68)
