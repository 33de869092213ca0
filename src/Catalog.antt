-- ===== src/Catalog.antt =====
-- The catalog of the tables: src/include/meta/catalog_table.h, src/meta/catalog_table.cpp and
-- src/include/meta/catalog.h. A call runs under the latch that the code takes. The unordered maps are
-- association lists, and the order of their entries is that of the lists.
pub mod Changes
pub mod Maps
pub mod Objects
pub mod Records
pub mod Space
pub mod Stored
mod Examples
use dawn.Base.{
  ℕ, zero, suc, ◌+◌, ◌-◌, Bool, true, false, ◌&&◌, Option, none, some, List, [], ◌∷◌, ◌++◌, map,
  length, ltb, ◌==◌, if◌then◌else◌, not,
}
use dawn.Calls.{
  Action, pure, stuck, defined, gets, modify, ◌>>=◌, ◌>>◌, unpin_page, get_page, new_page,
  delete_page, flush_page,
}
use dawn.Catalog.Maps.{find_key, insert_key, erase_key, same_id}
use dawn.Catalog.Records.{
  rounds, name_size, table_page_id, record_at, read_tables, stored_pointer, no_space, add_record,
  find_record, move_tables, move_up, move_down, check_space,
}
use dawn.Data.Bytes.{list_eq}
use dawn.Disk.{Stream}
use dawn.Memory.{Memory, read32, write32, memcpy, minus_one, add32, sub32, slt}
use dawn.Page.{Page}
use dawn.Schema.{Schema}
use dawn.Table.{Table}
use dawn.TableMetaData.Object.{TableMetaData, stored_table, made_table, destroy, delete_table_data}

pub record CatalogTable : Type 0 where
  pub self_page_id : ℕ
  pub page : ℕ
  pub free_space_pointer : ℕ
  pub tb_id_to_name : List (ℕ × List ℕ)
  pub tb_name_to_id : List (List ℕ × ℕ)
  pub table_num : ℕ
  pub tb_id_to_meta : List (ℕ × TableMetaData)

-- the two maps after the loop of the constructor
unfoldable pub insert_tables :
    List (ℕ × List ℕ)
    → List (ℕ × List ℕ) × List (List ℕ × ℕ)
    → List (ℕ × List ℕ) × List (List ℕ × ℕ)
insert_tables [] maps = maps
insert_tables ((id, name) ∷ rest) (names, ids) =
    insert_tables rest (insert_key same_id id name names, insert_key list_eq name id ids)

unfoldable pub get_table_id : CatalogTable → List ℕ → ℕ
get_table_id c tb_name = elim (find_key list_eq tb_name c.tb_name_to_id) [
  | none ↦ minus_one
  | some id ↦ id
]

unfoldable pub get_table_name : CatalogTable → ℕ → List ℕ
get_table_name c table_id = elim (find_key same_id table_id c.tb_id_to_name) [
  | none ↦ []
  | some name ↦ name
]

unfoldable pub get_free_space : CatalogTable → ℕ
get_free_space c = sub32 c.free_space_pointer (record_at (length c.tb_id_to_name))

unfoldable pub get_all_table_name : CatalogTable → List (List ℕ)
get_all_table_name c = map (λ e. e.0) c.tb_name_to_id

unfoldable pub get_all_table_id : CatalogTable → List ℕ
get_all_table_id c = map (λ e. e.1) c.tb_name_to_id

abbrev pub set_data : (Memory → Memory) → Page → Page
set_data g p = record p { data_ = g p.data_ }

module _ {S : Type 0} (io : Stream S) where
  -- the constructor; without its page the program ends
  unfoldable pub new_catalog_table : ℕ → Bool → Action S CatalogTable
  new_catalog_table page_id from_scratch = do
    page ← get_page io page_id
    modify page (set_data (λ m. if from_scratch then write32 m 64 0 else m))
    m ← gets page (λ p. p.data_)
    let tables = insert_tables (read_tables m (rounds (read32 m 64)) 0) ([], [])
    pure (record {
      self_page_id = page_id;
      page = page;
      free_space_pointer = stored_pointer m;
      tb_id_to_name = tables.0;
      tb_name_to_id = tables.1;
      table_num = read32 m 64;
      tb_id_to_meta = [];
    })

  -- the destructor of the object of each table
  unfoldable pub destroy_all : List (ℕ × TableMetaData) → Action S (Unit {0})
  destroy_all [] = pure tt
  destroy_all ((id, t) ∷ rest) = do destroy io t; destroy_all rest

  -- the destructor
  unfoldable pub close_catalog_table : CatalogTable → Action S (Unit {0})
  close_catalog_table c = do
    flushed ← flush_page io c.self_page_id
    unpin_page c.self_page_id true
    destroy_all c.tb_id_to_meta

  unfoldable pub create_table : CatalogTable → List ℕ → Schema → Action S (Bool × CatalogTable)
  create_table c table_name schema = elim (find_key list_eq table_name c.tb_name_to_id) [
    | some _ ↦ pure (false, c)
    | none ↦ do
      full ← gets c.page (λ p. no_space p.data_ c.free_space_pointer table_name)
      tb_num ← gets c.page (λ p. read32 p.data_ 64)
      if full then pure (false, c) else do
        new_page ← new_page io
        id ← gets new_page (λ p. p.page_id)
        t ← made_table io table_name schema id
        unpin_page id false
        modify c.page (
            set_data
              (λ m. add_record m (add32 c.table_num 1) tb_num c.free_space_pointer table_name id))
        flushed ← flush_page io c.self_page_id
        pure (
          true,
          record c {
            tb_id_to_meta = insert_key same_id id t c.tb_id_to_meta;
            tb_id_to_name = insert_key same_id id table_name c.tb_id_to_name;
            tb_name_to_id = insert_key list_eq table_name id c.tb_name_to_id;
            table_num = add32 c.table_num 1;
            free_space_pointer = sub32 c.free_space_pointer (length table_name + 1);
          },
        )
  ]
