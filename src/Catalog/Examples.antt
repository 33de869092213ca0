-- ===== src/Catalog/Examples.antt =====
-- The catalog's theorems at a page with one table, and runs.
use dawn.Base.{
  ℕ, ◌+◌, ◌≤◌, ◌<◌, ◌≡◌, refl, false, Option, none, some, List, [], ◌∷◌, ◌++◌, length, replicate,
  arith,
}
use dawn.Calls.Sample.{silent, one_integer, pool_of}
use dawn.Catalog.Changes.{change_table_name, get_table_meta_data}
use dawn.Catalog.Maps.{find_key}
use dawn.Catalog.Objects.{get_table_meta_data_again}
use dawn.Catalog.Records.{
  name_offset, name_at, read_tables, stored_pointer, find_record, check_space, no_space, add_record,
}
use dawn.Catalog.Space.{add_record_tight}
use dawn.Catalog.Stored.{read_tables-add_record}
use dawn.Catalog.{CatalogTable}
use dawn.Memory.{Memory, read32, write32, memcpy, sub32, slt, add32, mul32}
use dawn.Table.{new_table}
use dawn.Pool as Pool
use dawn.Pool.{BufferPool}
use dawn.TableMetaData.Object.{TableMetaData, stored_table}

-- a page with the table "ab" on page 7
abbrev one_table : Memory
one_table = add_record (λ _. 0) 1 0 4096 (97 ∷ 98 ∷ []) 7

-- its name begins at 4093, above the next free space pointer
first_name : name_offset one_table 0 ≡ 4093
unfolding add_record read32 write32 memcpy add32 mul32 sub32
first_name = refl

above : (j : ℕ) → j < 1 → 4093 ≤ name_offset one_table j
above j h = let first : j ≡ 0 = omega arith in rw first (omega (arith, first_name))

read_tables-add_record_example :
    (read32 (add_record one_table 2 1 4093 (99 ∷ []) 8) 64 ≡ 2)
    × (read_tables (add_record one_table 2 1 4093 (99 ∷ []) 8) 2 0
        ≡ read_tables one_table 1 0 ++ (8, 99 ∷ []) ∷ [])
    × (stored_pointer (add_record one_table 2 1 4093 (99 ∷ []) 8) ≡ 4091)
read_tables-add_record_example =
    read_tables-add_record one_table 1 4093 (99 ∷ []) 8 (omega arith) (omega arith)
      ((ground arith, tt)) (omega arith) above

-- a page of 300 tables, and a name of 416 bytes that fills it
abbrev long_name : List ℕ
long_name = replicate 416 97

abbrev crowded : Memory
crowded = write32 (λ _. 0) 64 300

add_record_tight_example :
    (no_space crowded (3680 + length long_name) long_name ≡ false)
    × (name_at
          (add_record crowded 301 300 (3680 + length long_name) long_name 7)
          3679
          (length long_name)
        ≡ [])
unfolding read32 write32
add_record_tight_example =
    add_record_tight crowded 300 415 long_name 7 refl refl (omega arith) (omega arith)

-- a catalog with the table "ab", whose object is not in memory
abbrev closed : CatalogTable
closed = record {
  self_page_id = 5;
  page = 0;
  free_space_pointer = 4093;
  tb_id_to_name = (7, 97 ∷ 98 ∷ []) ∷ [];
  tb_name_to_id = (97 ∷ 98 ∷ [], 7) ∷ [];
  table_num = 1;
  tb_id_to_meta = [];
}

-- the rename reads the end of the map
rename_stuck : change_table_name silent closed 7 (99 ∷ []) (pool_of one_table) ≡ none
unfolding change_table_name find_key find_record check_space add_record read32 write32 memcpy add32
    mul32 sub32 slt
rename_stuck = refl

-- page 5 as the meta data page of a table without columns
abbrev opened : Option (TableMetaData × BufferPool ℕ)
opened = stored_table silent (97 ∷ 98 ∷ []) 5 (pool_of (λ _. 0))

abbrev object_of : Option (TableMetaData × BufferPool ℕ) → TableMetaData
object_of none = record {
  table_name = [];
  table_id = 0;
  first_table_page_id = 0;
  index_header_page_id = 0;
  table_schema = one_integer;
  table = record { first_table_page_id = 0 };
}
object_of (some (t, b)) = t

abbrev pool_after : Option (TableMetaData × BufferPool ℕ) → BufferPool ℕ
pool_after none = pool_of (λ _. 0)
pool_after (some (t, b)) = b

opens : opened ≡ some (object_of opened, pool_after opened)
unfolding stored_table new_table Pool.get_page
opens = refl

-- the object is made once
object_again :
    (c₁ : CatalogTable) × (get_table_meta_data silent
        (record closed { tb_id_to_name = (5, 97 ∷ 98 ∷ []) ∷ [] })
        5
        (pool_of (λ _. 0))
      ≡ some ((some (object_of opened), c₁), pool_after opened))
    × (get_table_meta_data silent c₁ 5 (pool_of one_table)
        ≡ some ((some (object_of opened), c₁), pool_of one_table))
unfolding find_key
object_again =
    get_table_meta_data_again silent (record closed { tb_id_to_name = (5, 97 ∷ 98 ∷ []) ∷ [] }) 5
      (97 ∷ 98 ∷ []) (object_of opened) (pool_of (λ _. 0)) (pool_after opened) (pool_of one_table)
      refl refl opens
