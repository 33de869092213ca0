-- ===== src/Schema.antt =====
-- Columns, schemas and the values in a tuple: src/include/table/column.h and schema.h, and
-- src/table/schema.cpp and tuple.cpp.
-- A name is the list of its characters. An `int32_t` is its bit pattern. A read out of a vector's
-- range is undefined behaviour, as is the serialization of an invalid value: `none`.
mod Examples
pub mod Layout
pub mod Strings
pub mod Stored
use dawn.Base.{
  ℕ, zero, suc, ◌+◌, ◌-◌, Bool, true, false, ◌&&◌, Option, none, some, List, [], ◌∷◌, ◌++◌, ltb,
  ◌==◌, if◌then◌else◌, length, get_or, get_elem?, map,
}
use dawn.Data.Bytes.{cstring, list_eq, copy_into}
use dawn.Data.{
  TypeId, invalid, boolean, integer, decimal, char, same_type, get_type_size, Value,
  serialized_size, of_storage,
}
use dawn.Memory.{Memory, memcpy, minus_one, add32}
use dawn.Page.TablePage.{load}
use dawn.Page.{Tuple, Rid, rid_eq}

pub record Column : Type 0 where
  pub column_type : TypeId
  pub column_name : List ℕ
  pub offset : ℕ
  pub fixed_length : ℕ
  pub char_length : ℕ

-- the length of a column that is not of type char, whose `char_length_` is not set
abbrev pub new_column : TypeId → List ℕ → ℕ → Column
new_column column_type column_name offset = record {
  column_type = column_type;
  column_name = column_name;
  offset = offset;
  fixed_length = get_type_size column_type;
  char_length = 0;
}

abbrev pub char_column : List ℕ → ℕ → ℕ → Column
char_column column_name offset char_length = record {
  column_type = char;
  column_name = column_name;
  offset = offset;
  fixed_length = 8;
  char_length = char_length;
}

abbrev pub get_data_size : Column → ℕ
get_data_size c = if same_type c.column_type char then c.char_length else c.fixed_length

unfoldable pub is_columns_equal : Column → Column → Bool
unfolding list_eq
is_columns_equal a b =
    same_type a.column_type b.column_type
    && list_eq a.column_name b.column_name
    && a.offset == b.offset
    && get_data_size a == get_data_size b

pub record Schema : Type 0 where
  pub columns : List Column
  pub length_ : ℕ
  pub key_idx : ℕ

-- the loop of the constructor
unfoldable pub add_sizes : ℕ → List Column → ℕ
add_sizes sum [] = sum
add_sizes sum (c ∷ cs) = add_sizes (add32 sum (get_data_size c)) cs

unfoldable pub new_schema : List Column → Schema
unfolding add_sizes
new_schema columns = record { columns = columns; length_ = add_sizes 0 columns; key_idx = 0 }

-- the loop of `get_column_idx` from the column `i` on
unfoldable pub column_idx_from : List Column → ℕ → List ℕ → ℕ
unfolding list_eq
column_idx_from [] i column_name = minus_one
column_idx_from (c ∷ cs) i column_name =
    let rest = column_idx_from cs (i + 1) column_name in
    if list_eq c.column_name column_name then i else rest

unfoldable pub get_column_idx : Schema → List ℕ → ℕ
unfolding column_idx_from
get_column_idx s column_name = column_idx_from s.columns 0 column_name

-- the loop of `create_table_schema`; `none` is a read past the end of `char_len`
unfoldable pub create_columns : List TypeId → List (List ℕ) → List ℕ → ℕ → Option (List Column)
create_columns [] names char_len offset = some []
create_columns (t ∷ ts) [] char_len offset = none
create_columns (char ∷ ts) (n ∷ names) [] offset = none
create_columns (char ∷ ts) (n ∷ names) (l ∷ char_len) offset =
    elim (create_columns ts names char_len (add32 offset l)) [
      | none ↦ none
      | some cs ↦ some (char_column n offset l ∷ cs)
    ]
create_columns (t ∷ ts) (n ∷ names) char_len offset =
    elim (create_columns ts names char_len (add32 offset (get_type_size t))) [
      | none ↦ none
      | some cs ↦ some (new_column t n offset ∷ cs)
    ]

pub data Created : Type 0 where
  null undefined : Created
  made : Schema → Created

unfoldable pub create_table_schema : List TypeId → List (List ℕ) → List ℕ → Created
unfolding create_columns new_schema
create_table_schema types names char_len =
    if length types == length names
    then elim (create_columns types names char_len 0) [
      | none ↦ undefined
      | some cs ↦ made (new_schema cs)
    ]
    else null

unfoldable pub columns_equal : List Column → List Column → Bool
unfolding is_columns_equal
columns_equal [] [] = true
columns_equal [] (b ∷ bs) = false
columns_equal (a ∷ as') [] = false
columns_equal (a ∷ as') (b ∷ bs) = is_columns_equal a b && columns_equal as' bs

unfoldable pub is_table_schemas_equal : Schema → Schema → Bool
unfolding columns_equal
is_table_schemas_equal a b =
    length a.columns == length b.columns
    && a.length_ == b.length_
    && columns_equal a.columns b.columns

-- `set_value` at a column; `junk` is what `tmp` holds before it is written
unfoldable pub set_column : List ℕ → Memory → Column → Value → Option Memory
unfolding serialized_size copy_into
set_column junk m c v = elim (serialized_size v) [
  | none ↦ none
  | some n ↦ some (
      if same_type c.column_type char
      then memcpy m c.offset (copy_into junk v.bytes n) c.char_length
      else memcpy m c.offset v.bytes n)
]

unfoldable pub set_value : List ℕ → Memory → Schema → Value → ℕ → Option Memory
set_value junk m s v idx = elim (get_elem? s.columns idx) [
  | none ↦ none
  | some c ↦ set_column junk m c v
]

-- `get_value` at a column
unfoldable pub get_column : Memory → Column → Option Value
unfolding load of_storage
get_column m c =
    if same_type c.column_type char
    then of_storage (load m c.offset c.char_length ++ 0 ∷ []) char c.char_length
    else of_storage (load m c.offset (get_type_size c.column_type)) c.column_type minus_one

-- the bytes that `data_` points to
abbrev pub memory_of : Tuple → Memory
memory_of t x = get_or t.bytes x 0

unfoldable pub get_value : Tuple → Schema → ℕ → Option Value
get_value t s idx = elim (get_elem? s.columns idx) [
  | none ↦ none
  | some c ↦ get_column (memory_of t) c
]

-- the loop of `init`; each round has a `tmp` of its own
unfoldable pub set_columns : (ℕ → List ℕ) → List Column → List Value → Memory → Option Memory
set_columns junk [] vs m = some m
set_columns junk (c ∷ cs) [] m = none
set_columns junk (c ∷ cs) (v ∷ vs) m = elim (set_column (junk c.offset) m c v) [
  | none ↦ none
  | some m' ↦ set_columns junk cs vs m'
]

-- `init`, on memory that is fresh
unfoldable pub init : (ℕ → List ℕ) → Memory → Rid → List Value → Schema → Option Tuple
init junk fresh rid values s = elim (set_columns junk s.columns values fresh) [
  | none ↦ none
  | some m ↦
      some (record { allocated = true; rid = rid; size = s.length_; bytes = load m 0 s.length_ })
]

-- `operator==`
unfoldable pub tuple_eq : Tuple → Tuple → Bool
unfolding list_eq
tuple_eq a b =
    (if a.allocated then b.allocated else (if b.allocated then false else true))
    && a.size == b.size
    && (if a.allocated then list_eq a.bytes b.bytes else true)

unfoldable pub is_equal : Tuple → Tuple → Bool
unfolding tuple_eq rid_eq
is_equal a b = tuple_eq a b && rid_eq a.rid b.rid
