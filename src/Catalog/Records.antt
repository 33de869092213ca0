-- ===== src/Catalog/Records.antt =====
-- The bytes of the catalog's page: src/include/meta/catalog_table.h and src/meta/catalog_table.cpp. A
-- table has a record of 12 bytes (offset of its name, size of its name, page id) behind the number of
-- tables at offset 64; the names stand before offset 4096, each with a 0, the first table's the last.
use dawn.Base.{
  ℕ, zero, suc, ◌+◌, Bool, true, false, List, [], ◌∷◌, ◌++◌, length, leb, ◌==◌, if◌then◌else◌,
}
use dawn.Data.Bytes.{cstring}
use dawn.Memory.{Memory, read32, write32, memcpy, memmove, add32, sub32, mul32, slt}
use dawn.Page.TablePage.{load}

-- the offset of record `i`
abbrev pub record_at : ℕ → ℕ
record_at i = add32 68 (mul32 i 12)

-- the rounds of a loop to an `int`
abbrev pub rounds : ℕ → ℕ
rounds n = if leb 2147483648 n then 0 else n

abbrev pub name_offset : Memory → ℕ → ℕ
name_offset m i = read32 m (record_at i)

abbrev pub name_size : Memory → ℕ → ℕ
name_size m i = read32 m (record_at i + 4)

abbrev pub table_page_id : Memory → ℕ → ℕ
table_page_id m i = read32 m (record_at i + 8)

-- the private `get_table_name`: a C string made of the bytes
unfoldable pub name_at : Memory → ℕ → ℕ → List ℕ
unfolding cstring load
name_at m tb_name_offset size = cstring (load m tb_name_offset size ++ 0 ∷ [])

-- the loop of the constructor, from record `i` on: the ids with the names
unfoldable pub read_tables : Memory → ℕ → ℕ → List (ℕ × List ℕ)
unfolding name_at
read_tables m zero i = []
read_tables m (suc left) i =
    (table_page_id m i, name_at m (name_offset m i) (name_size m i)) ∷ read_tables m left (i + 1)

-- `free_space_pointer_` as the constructor sets it
unfoldable pub stored_pointer : Memory → ℕ
stored_pointer m =
    let num = read32 m 64 in if num == 0 then 4096 else read32 m (add32 68 (mul32 (sub32 num 1) 12))

-- the test of `create_table`
unfoldable pub no_space : Memory → ℕ → List ℕ → Bool
no_space m free_space_pointer table_name =
    slt (sub32 free_space_pointer (record_at (read32 m 64))) (length table_name + 12)

-- What `create_table` writes for a table in record `tb_num`: the number of tables, the name before the
-- free space pointer, and the record.
unfoldable pub add_record : Memory → ℕ → ℕ → ℕ → List ℕ → ℕ → Memory
add_record m table_num tb_num free_space_pointer table_name page_id =
    let len = length table_name in
    let at = sub32 free_space_pointer (len + 1) in
    let m₁ = write32 m 64 table_num in
    let m₂ = memcpy m₁ at (table_name ++ 0 ∷ []) (len + 1) in
    let m₃ = write32 m₂ (record_at tb_num) at in
    write32 (write32 m₃ (record_at tb_num + 4) len) (record_at tb_num + 8) page_id

-- The loop that looks for a table's record: its number, or the number of tables, and the offset of the
-- last record that was looked at, or -1.
unfoldable pub find_record : Memory → ℕ → ℕ → ℕ → ℕ → ℕ × ℕ
find_record m zero i tb_offset table_id = (i, tb_offset)
find_record m (suc left) i tb_offset table_id =
    let rest = find_record m left (i + 1) (record_at i) table_id in
    if table_page_id m i == table_id then (i, record_at i) else rest

-- The loop of `delete_table` over the records behind the deleted one: the record moves down, the name up.
unfoldable pub move_tables : Memory → ℕ → ℕ → ℕ → Memory
move_tables m zero j deleted_name_size = m
move_tables m (suc left) j deleted_name_size =
    let table_offset = record_at j in
    let offset = name_offset m j in
    let size = name_size m j in
    let m₁ = memmove m (sub32 table_offset 12) table_offset 12 in
    let m₂ = memmove m₁ (add32 (add32 offset deleted_name_size) 1) offset (add32 size 1) in
    let m₃ =
      write32 m₂ (sub32 table_offset 12)
        (add32 (add32 (read32 m₂ (sub32 table_offset 12)) deleted_name_size) 1) in
    move_tables m₃ left (j + 1) deleted_name_size

-- the loop of `change_table_name` for a shorter name
unfoldable pub move_up : Memory → ℕ → ℕ → ℕ → ℕ → Memory
move_up m zero j last difference_abs = m
move_up m (suc left) j last difference_abs =
    let next_table_offset = record_at j in
    let offset = name_offset m j in
    let before = sub32 next_table_offset 12 in
    let m₁ = memmove m (add32 offset difference_abs) offset (add32 (name_size m j) 1) in
    let m₂ = write32 m₁ before (add32 (read32 m₁ before) difference_abs) in
    let m₃ =
      if j == last
      then write32 m₂ next_table_offset (add32 (read32 m₂ next_table_offset) difference_abs)
      else m₂ in
    move_up m₃ left (j + 1) last difference_abs

-- the loop of `change_table_name` for a longer name, with `left` tables from `i` on
unfoldable pub move_down : Memory → ℕ → ℕ → ℕ → Memory
move_down m zero i difference_abs = m
move_down m (suc left) i difference_abs =
    let table_offset = record_at (i + left) in
    let offset = read32 m table_offset in
    let m₁ =
      memmove m (sub32 offset difference_abs) offset (add32 (read32 m (table_offset + 4)) 1) in
    let m₂ = write32 m₁ table_offset (sub32 (read32 m₁ table_offset) difference_abs) in
    move_down m₂ left i difference_abs

-- `check_space`, which leaves out the 4 bytes of the number of tables
unfoldable pub check_space : ℕ → ℕ → ℕ → Bool
check_space free_space_pointer table_num size_needed =
    if slt (sub32 free_space_pointer (add32 64 (mul32 table_num 12))) size_needed
    then false
    else true

-- the rest of `change_table_name`, when the names behind have moved by the difference of the lengths
unfoldable pub write_name : Memory → ℕ → List ℕ → Memory
write_name m tb_offset new_name =
    let len = length new_name in
    write32 (memcpy m (read32 m tb_offset) (new_name ++ 0 ∷ []) (len + 1)) (tb_offset + 4) len
