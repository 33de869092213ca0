-- ===== src/Catalog/Changes.antt =====
-- The changes of the tables that are there, and their objects: the rest of src/meta/catalog_table.cpp and
-- src/include/meta/catalog.h.
use dawn.Base.{
  ℕ, ◌+◌, ◌-◌, Bool, true, false, ◌&&◌, Option, none, some, List, length, ltb, ◌==◌, if◌then◌else◌,
  not,
}
use dawn.Calls.{
  Action, pure, defined, gets, modify, ◌>>=◌, ◌>>◌, unpin_page, get_page, new_page, delete_page,
  flush_page,
}
use dawn.Catalog.Maps.{find_key, insert_key, erase_key, same_id}
use dawn.Catalog.{CatalogTable, set_data, new_catalog_table}
use dawn.Catalog.Records.{
  rounds, find_record, move_tables, move_up, move_down, check_space, write_name,
}
use dawn.Data.Bytes.{list_eq}
use dawn.Disk.{Stream}
use dawn.Memory.{read32, write32, minus_one, add32, sub32}
use dawn.Table.{Table}
use dawn.TableMetaData.Object.{TableMetaData, stored_table, destroy, delete_table_data}

module _ {S : Type 0} (io : Stream S) where
  -- the private `delete_table_data`; it looks the object up, or makes it, and destroys it
  unfoldable pub delete_data : CatalogTable → ℕ → List ℕ → Action S CatalogTable
  delete_data c table_id table_name = do
    t ← elim (find_key same_id table_id c.tb_id_to_meta) [
      | some t ↦ pure t
      | none ↦ stored_table io table_name table_id
    ]
    delete_table_data io t
    destroy io t
    pure (record c {
      tb_id_to_meta = erase_key same_id table_id c.tb_id_to_meta;
      tb_id_to_name = erase_key same_id table_id c.tb_id_to_name;
      tb_name_to_id = erase_key list_eq table_name c.tb_name_to_id;
    })

  -- `delete_table` of an id
  unfoldable pub delete_table : CatalogTable → ℕ → Action S (Bool × CatalogTable)
  delete_table c table_id = elim (find_key same_id table_id c.tb_id_to_name) [
    | none ↦ pure (true, c)
    | some deleted_tb_name ↦ do
      (i, tb_offset) ←
          gets c.page (λ p. find_record p.data_ (rounds c.table_num) 0 minus_one table_id)
      if tb_offset == minus_one then pure (false, c) else do
        deleted_name_size ← gets c.page (λ p. read32 p.data_ (tb_offset + 4))
        deleted_page_id ← gets c.page (λ p. read32 p.data_ (tb_offset + 8))
        modify c.page (
            set_data (λ m.
              write32 (move_tables m (c.table_num - (i + 1)) (i + 1) deleted_name_size) 64
                (sub32 c.table_num 1)))
        let smaller : CatalogTable = record c {
          table_num = sub32 c.table_num 1;
          free_space_pointer = add32 (add32 c.free_space_pointer deleted_name_size) 1;
        }
        after ← delete_data smaller table_id deleted_tb_name
        deleted ← delete_page io deleted_page_id
        flushed ← flush_page io c.self_page_id
        pure (true, after)
  ]

  -- `delete_table` of a name
  unfoldable pub delete_table_named : CatalogTable → List ℕ → Action S (Bool × CatalogTable)
  delete_table_named c table_name = elim (find_key list_eq table_name c.tb_name_to_id) [
    | none ↦ pure (true, c)
    | some table_id ↦ delete_table c table_id
  ]

  -- A table that has no object in memory is looked up and the end of the map is read: `none`. One that
  -- has an object keeps the old name in it.
  unfoldable pub change_table_name : CatalogTable → ℕ → List ℕ → Action S (Bool × CatalogTable)
  change_table_name c table_id new_name = elim (find_key same_id table_id c.tb_id_to_name) [
    | none ↦ pure (false, c)
    | some old_name ↦ do
      (i, tb_offset) ←
          gets c.page (λ p. find_record p.data_ (rounds c.table_num) 0 minus_one table_id)
      let shorter = length old_name - length new_name
      let longer = length new_name - length old_name
      if tb_offset == minus_one
          then pure (false, c)
          else if ltb 0 longer && not (check_space c.free_space_pointer c.table_num longer)
          then pure (false, c)
          else do
            modify c.page (
                set_data (λ m.
                  if ltb 0 shorter
                  then move_up m (c.table_num - (i + 1)) (i + 1) (sub32 c.table_num 1) shorter
                  else if ltb 0 longer
                  then move_down m (c.table_num - i) i longer
                  else m))
            modify c.page (set_data (λ m. write_name m tb_offset new_name))
            t ← defined (find_key same_id table_id c.tb_id_to_meta)
            flushed ← flush_page io c.self_page_id
            pure (
              true,
              record c {
                free_space_pointer = sub32 (add32 c.free_space_pointer shorter) longer;
                tb_id_to_name =
                    insert_key same_id table_id new_name
                      (erase_key same_id table_id c.tb_id_to_name);
                tb_name_to_id =
                    insert_key list_eq new_name table_id
                      (erase_key list_eq old_name c.tb_name_to_id);
              },
            )
  ]

  -- the object of a table, which is made if it is not in memory; `none` is the null pointer
  unfoldable pub get_table_meta_data :
      CatalogTable → ℕ → Action S (Option TableMetaData × CatalogTable)
  get_table_meta_data c table_id = elim (find_key same_id table_id c.tb_id_to_meta) [
    | some t ↦ pure (some t, c)
    | none ↦ elim (find_key same_id table_id c.tb_id_to_name) [
      | none ↦ pure (none, c)
      | some name ↦ do
        t ← stored_table io name table_id
        pure (some t, record c { tb_id_to_meta = insert_key same_id table_id t c.tb_id_to_meta })
    ]
  ]

  unfoldable pub get_meta_data_named :
      CatalogTable → List ℕ → Action S (Option TableMetaData × CatalogTable)
  get_meta_data_named c table_name = elim (find_key list_eq table_name c.tb_name_to_id) [
    | none ↦ pure (none, c)
    | some table_id ↦ get_table_meta_data c table_id
  ]

  -- `init_catalog` and the constructor of `Catalog`, whose own page holds the id of the other one
  unfoldable pub new_catalog : ℕ → Bool → Action S CatalogTable
  new_catalog self_page_id from_scratch = do
    page ← get_page io self_page_id
    (if not from_scratch then pure tt else do
      p ← new_page io
      id ← gets p (λ q. q.page_id)
      modify page (set_data (λ m. write32 m 64 id))
      unpin_page id true
      flushed ← flush_page io self_page_id
      pure tt)
    catalog_table_page_id ← gets page (λ p. read32 p.data_ 64)
    new_catalog_table io catalog_table_page_id from_scratch

  -- `Catalog::get_table`
  unfoldable pub get_table : CatalogTable → List ℕ → Action S (Option Table × CatalogTable)
  get_table c tb_name = do
    (found, after) ← get_meta_data_named c tb_name
    pure (elim found [ none ↦ none | some t ↦ some t.table ], after)
