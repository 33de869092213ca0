-- ===== src/TableMetaData/Examples.antt =====
-- The meta data page of a table with an integer column `i` and a char column `c` of 3 bytes.
use dawn.Base.{◌≡◌, refl, [], ◌∷◌, arith}
use dawn.Data.{integer}
use dawn.Memory.{Memory}
use dawn.Schema.{Schema, new_column, char_column, new_schema}
use dawn.TableMetaData.Stored.{read_schema-write_schema}
use dawn.TableMetaData.{read_schema, write_schema}

abbrev two_columns : Schema
two_columns = record {
  columns = new_column integer (105 ∷ []) 0 ∷ char_column (99 ∷ []) 4 3 ∷ [];
  length_ = 7;
  key_idx = 0;
}

abbrev nines : Memory
nines x = 9

read_schema-write_schema_example :
    read_schema (write_schema nines two_columns 5 6) ≡ (new_schema two_columns.columns, 5, 6)
read_schema-write_schema_example =
    read_schema-write_schema nines two_columns 5 6
      (
        (ground arith, tt),
        omega arith,
        omega arith,
        refl,
        ((ground arith, tt), omega arith, omega arith, refl, omega arith),
      )
      (omega arith) (omega arith)
