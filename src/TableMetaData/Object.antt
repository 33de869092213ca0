-- ===== src/TableMetaData/Object.antt =====
-- The object of a table: both constructors, its destructor and `delete_table_data` of
-- src/include/meta/table_meta_data.h and src/meta/table_meta_data.cpp, as calls of the buffer pool.
-- The object keeps the pin of its meta data page; the program ends where that page is not got.
use dawn.Base.{ℕ, true, false, List, length}
use dawn.Calls.{Action, pure, gets, modify, ◌>>=◌, ◌>>◌, unpin_page, get_page, new_page, flush_page}
use dawn.Disk.{Stream}
use dawn.LinkHash.Slots.{init}
use dawn.Memory.{write32}
use dawn.Page.{Page}
use dawn.Schema.{Schema}
use dawn.Table.{Table, new_table, delete_all_data}
use dawn.TableMetaData.{write_columns, read_schema}

-- `table_id` is `self_page_id_` as well
pub record TableMetaData : Type 0 where
  pub table_name : List ℕ
  pub table_id : ℕ
  pub first_table_page_id : ℕ
  pub index_header_page_id : ℕ
  pub table_schema : Schema
  pub table : Table

-- what is written before the page is flushed
unfoldable pub write_columns_of : Schema → Page → Page
write_columns_of s p = record p {
  data_ = write_columns (write32 p.data_ 136 (length s.columns)) 140 s.columns;
}

module _ {S : Type 0} (io : Stream S) where
  -- the constructor for a table that is stored
  unfoldable pub stored_table : List ℕ → ℕ → Action S TableMetaData
  stored_table table_name table_id = do
    page ← get_page io table_id
    (table_schema, first_id, header_id) ← gets page (λ p. read_schema p.data_)
    table ← new_table io first_id false
    pure (record {
      table_name = table_name;
      table_id = table_id;
      first_table_page_id = first_id;
      index_header_page_id = header_id;
      table_schema = table_schema;
      table = table;
    })

  -- the constructor from scratch
  unfoldable pub made_table : List ℕ → Schema → ℕ → Action S TableMetaData
  made_table table_name schema table_id = do
    page ← get_page io table_id
    modify page (write_columns_of schema)
    flushed ← flush_page io table_id
    first_page ← new_page io
    modify first_page init
    first_id ← gets first_page (λ p. p.page_id)
    unpin_page first_id true
    modify page (λ p. record p { data_ = write32 p.data_ 64 first_id })
    header_page ← new_page io
    header_id ← gets header_page (λ p. p.page_id)
    unpin_page header_id false
    modify page (λ p. record p { data_ = write32 p.data_ 68 header_id })
    table ← new_table io first_id true
    pure (record {
      table_name = table_name;
      table_id = table_id;
      first_table_page_id = first_id;
      index_header_page_id = header_id;
      table_schema = schema;
      table = table;
    })

  -- the destructor
  unfoldable pub destroy : TableMetaData → Action S (Unit {0})
  destroy t = unpin_page t.table_id true

  unfoldable pub delete_table_data : TableMetaData → Action S (Unit {0})
  delete_table_data t = delete_all_data io t.table
