-- ===== src/Schema/Layout.antt =====
-- Where `create_table_schema` puts the columns.
use dawn.Base.{
  ℕ, suc, ◌+◌, ◌≤◌, ◌<◌, ◌≡◌, refl, ◌∙◌, ap, true, some, List, [], ◌∷◌, ◌==◌, length, arith,
}
use dawn.Data.{TypeId, invalid, boolean, integer, decimal, char, get_type_size}
use dawn.Memory.{u32_mod, add32, minus_one}
use dawn.Schema.{
  Column, new_column, char_column, get_data_size, Schema, add_sizes, new_schema, create_columns,
  made, create_table_schema,
}

-- the length that a column's constructor sets, where it is read
abbrev pub Sized : TypeId → ℕ → Type 0
Sized char n = Unit {0}
Sized invalid n = n ≡ minus_one
Sized boolean n = n ≡ 1
Sized integer n = n ≡ 4
Sized decimal n = n ≡ 8

-- the columns lie one behind the other from `lo` on
abbrev pub Laid : ℕ → List Column → Type 0
Laid lo [] = Unit {0}
Laid lo (c ∷ cs) =
    (c.offset ≡ lo) × Sized c.column_type c.fixed_length × Laid (lo + get_data_size c) cs

-- the room that the columns take
abbrev pub room : List Column → ℕ
room [] = 0
room (c ∷ cs) = get_data_size c + room cs

-- the bytes of a row of these types
abbrev pub row_size : List TypeId → List ℕ → ℕ
row_size [] ls = 0
row_size (char ∷ ts) [] = row_size ts []
row_size (char ∷ ts) (l ∷ ls) = l + row_size ts ls
row_size (t ∷ ts) ls = get_type_size t + row_size ts ls

abbrev pub column_types : List Column → List TypeId
column_types [] = []
column_types (c ∷ cs) = c.column_type ∷ column_types cs

abbrev pub column_names : List Column → List (List ℕ)
column_names [] = []
column_names (c ∷ cs) = c.column_name ∷ column_names cs

abbrev pub chars : List TypeId → ℕ
chars [] = 0
chars (char ∷ ts) = suc (chars ts)
chars (_ ∷ ts) = chars ts

add32_exact : (a b : ℕ) → a + b < u32_mod → add32 a b ≡ a + b
unfolding add32
add32_exact a b h = omega arith

-- what the loop of `create_table_schema` makes
pub record Made (ts : List TypeId) (names : List (List ℕ)) (ls : List ℕ) (offset : ℕ) : Type 0 where
  pub columns : List Column
  pub made_of : create_columns ts names ls offset ≡ some columns
  pub laid : Laid offset columns
  pub types : column_types columns ≡ ts
  pub named : column_names columns ≡ names
  pub size : room columns ≡ row_size ts ls

create_columns-Made :
    (ts : List TypeId) (names : List (List ℕ)) (ls : List ℕ) (offset : ℕ)
    → length ts ≡ length names
    → chars ts ≤ length ls
    → offset + row_size ts ls < u32_mod
    → Made ts names ls offset
unfolding create_columns
create_columns-Made [] [] ls offset e enough h = record {
  columns = [];
  made_of = refl;
  laid = tt;
  types = refl;
  named = refl;
  size = refl;
}
create_columns-Made [] (n ∷ names) ls offset e enough h = absurd (omega arith)
create_columns-Made (t ∷ ts) [] ls offset e enough h = absurd (omega arith)
create_columns-Made (char ∷ ts) (n ∷ names) [] offset e enough h = absurd (omega arith)
create_columns-Made (char ∷ ts) (n ∷ names) (l ∷ ls) offset e enough h =
    let rest =
      create_columns-Made ts names ls (offset + l) (omega arith) (omega arith) (omega arith) in
    record {
      columns = char_column n offset l ∷ rest.columns;
      made_of = rw (add32_exact offset l (omega arith), rest.made_of) refl;
      laid = (refl, tt, rest.laid);
      types = ap (λ (l : List TypeId). char ∷ l) rest.types;
      named = ap (λ (l : List (List ℕ)). n ∷ l) rest.named;
      size = omega (arith, rest.size);
    }
create_columns-Made (t ∷ ts) (n ∷ names) ls offset e enough h =
    let rest =
      create_columns-Made ts names ls (offset + get_type_size t) (omega arith) (omega arith)
        (omega arith) in
    record {
      columns = new_column t n offset ∷ rest.columns;
      made_of = rw (add32_exact offset (get_type_size t) (omega arith), rest.made_of) refl;
      laid = (refl, refl, rest.laid);
      types = ap (λ (l : List TypeId). t ∷ l) rest.types;
      named = ap (λ (l : List (List ℕ)). n ∷ l) rest.named;
      size = omega (arith, rest.size);
    }

add_sizes-room :
    (cs : List Column) (sum : ℕ) → sum + room cs < u32_mod → add_sizes sum cs ≡ sum + room cs
unfolding add_sizes
add_sizes-room [] sum h = omega arith
add_sizes-room (c ∷ cs) sum h =
    rw (add32_exact sum (get_data_size c) (omega arith))
      (omega (arith, add_sizes-room cs (sum + get_data_size c) (omega arith)))

-- With as many names as types, a length for each char column, and a row below 2 ^ 32 bytes,
-- `create_table_schema` makes a schema: its columns have the types and names in their order, each
-- begins where the one before ends, the first at 0, and the tuple size is the sum of their sizes.
pub create_table_schema-Laid :
    (ts : List TypeId) (names : List (List ℕ)) (ls : List ℕ)
    → length ts ≡ length names
    → chars ts ≤ length ls
    → row_size ts ls < u32_mod
    → (s : Schema) × (create_table_schema ts names ls ≡ made s)
      × Laid 0 s.columns
      × (column_types s.columns ≡ ts)
      × (column_names s.columns ≡ names)
      × (s.length_ ≡ row_size ts ls)
      × (s.length_ ≡ room s.columns)
unfolding create_table_schema new_schema
create_table_schema-Laid ts names ls e enough h =
    let cs = create_columns-Made ts names ls 0 e enough (omega arith) in
    let same : (length ts == length names) ≡ true = ground arith in
    (
      new_schema cs.columns,
      rw (same, cs.made_of) refl,
      cs.laid,
      cs.types,
      cs.named,
      add_sizes-room cs.columns 0 (omega (arith, cs.size)) ∙ omega (arith, cs.size),
      add_sizes-room cs.columns 0 (omega (arith, cs.size)) ∙ omega arith,
    )
