-- ===== src/Schema/Examples.antt =====
-- A table with an integer column and a char column of 3 bytes, and a row of it.
use dawn.Base.{ℕ, ◌≡◌, refl, true, some, List, [], ◌∷◌, arith}
use dawn.Data.Bytes.{cstring}
use dawn.Data.{integer, char, Value, construct_integer}
use dawn.Memory.{Memory, add32}
use dawn.Page.{Rid, Tuple}
use dawn.Schema.Layout.{create_table_schema-Laid, Laid, column_types, column_names, row_size, room}
use dawn.Schema.Stored.{get_value-init}
use dawn.Schema.Strings.{content}
use dawn.Schema.{
  Schema, create_table_schema, null, undefined, made, new_column, char_column, get_column_idx, init,
  get_value, is_table_schemas_equal,
}

create_table_schema-Laid_example :
    (s : Schema) × (create_table_schema (integer ∷ char ∷ []) ((105 ∷ []) ∷ (99 ∷ []) ∷ []) (3 ∷ [])
      ≡ made s)
    × Laid 0 s.columns
    × (column_types s.columns ≡ integer ∷ char ∷ [])
    × (column_names s.columns ≡ (105 ∷ []) ∷ (99 ∷ []) ∷ [])
    × (s.length_ ≡ row_size (integer ∷ char ∷ []) (3 ∷ []))
    × (s.length_ ≡ room s.columns)
create_table_schema-Laid_example =
    create_table_schema-Laid (integer ∷ char ∷ []) ((105 ∷ []) ∷ (99 ∷ []) ∷ []) (3 ∷ []) refl
      (omega arith) (omega arith)

abbrev two_columns : Schema
two_columns = record {
  columns = new_column integer (105 ∷ []) 0 ∷ char_column (99 ∷ []) 4 3 ∷ [];
  length_ = 7;
  key_idx = 0;
}

creates :
    create_table_schema (integer ∷ char ∷ []) ((105 ∷ []) ∷ (99 ∷ []) ∷ []) (3 ∷ [])
    ≡ made two_columns
unfolding create_table_schema add32
creates = refl

-- a char column without a length, and a name that is missing
unsized : create_table_schema (char ∷ []) ((99 ∷ []) ∷ []) [] ≡ undefined
unfolding create_table_schema
unsized = refl

unnamed : create_table_schema (char ∷ []) [] (3 ∷ []) ≡ null
unfolding create_table_schema
unnamed = refl

finds : get_column_idx two_columns (99 ∷ []) ≡ 1
unfolding get_column_idx
finds = refl

equals : is_table_schemas_equal two_columns two_columns ≡ true
unfolding is_table_schemas_equal
equals = refl

abbrev ones : Memory
ones x = 1

abbrev junk : ℕ → List ℕ
junk i = 9 ∷ 9 ∷ 9 ∷ 9 ∷ []

abbrev here : Rid
here = record { page_id = 5; slot_num = 2 }

abbrev ab : Value
ab = record { type_id = char; bytes = 97 ∷ 98 ∷ 0 ∷ []; str_len = 2 }

get_value-init_example :
    (t : Tuple) × (w : Value) × (init junk ones here (construct_integer 70000 ∷ ab ∷ []) two_columns
      ≡ some t)
    × (t.size ≡ 7)
    × (get_value t two_columns 1 ≡ some w)
    × (w.type_id ≡ char)
    × (content w ≡ 97 ∷ 98 ∷ [])
unfolding cstring
get_value-init_example =
    get_value-init junk ones here (construct_integer 70000 ∷ ab ∷ []) two_columns 1
      (refl, refl, (refl, tt, tt)) refl ((refl, refl), ((refl, (omega arith, omega arith)), tt))
      refl refl
