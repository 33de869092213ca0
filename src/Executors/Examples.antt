-- ===== src/Executors/Examples.antt =====
-- A selection of two rows by their key, and expressions.
use dawn.Base.{ℕ, ◌≡◌, refl, Bool, true, false, some, List, [], ◌∷◌, get_or, ◌==◌, arith}
use dawn.Calls.Sample.{patterns, one_integer}
use dawn.Data.{increment, construct_integer, equal, value_eq, compare_values}
use dawn.Executors.Selection.{Yields, filter, Decides, selection_next-Yields}
use dawn.Executors.{
  Expression, column_value, constant, comparison, evaluate, count_aggregate, perform_aggregation,
  Next, holds, selection_next,
}
use dawn.Memory.{read32, add32}
use dawn.Page.{Tuple, invalid_rid}
use dawn.Schema.{get_value, get_column}

abbrev row : ℕ → Tuple
row key = record { allocated = true; rid = invalid_rid; size = 4; bytes = key ∷ 0 ∷ 0 ∷ 0 ∷ [] }

-- an executor that gives the tuples of a list
abbrev from_list : Next (List Tuple)
from_list [] t = some (false, t, [])
from_list (u ∷ us) t = some (true, u, us)

-- the column is 3
abbrev is_three : Expression
is_three = comparison (column_value 0) (constant (construct_integer 3)) equal

abbrev keep : Tuple → Bool
keep u = get_or u.bytes 0 0 == 3

abbrev rows : List Tuple
rows = row 5 ∷ row 3 ∷ []

rows-Yields : Yields from_list rows rows
rows-Yields t = (row 3 ∷ [], refl, λ t₁. ([], refl, λ t₂. (t₂, [], refl)))

rows-Decides : Decides patterns is_three one_integer keep rows
unfolding holds evaluate get_value get_column compare_values value_eq read32
rows-Decides = (refl, (refl, tt))

selection_next-Yields_example :
    Yields (selection_next patterns is_three one_integer from_list 3) rows (filter keep rows)
selection_next-Yields_example =
    selection_next-Yields patterns is_three one_integer keep from_list rows 3 rows (omega arith)
      rows-Yields rows-Decides

keeps_one : filter keep rows ≡ row 3 ∷ []
unfolding filter
keeps_one = refl

counts :
    perform_aggregation patterns count_aggregate 0 one_integer (construct_integer 7) (row 3)
    ≡ some (construct_integer 8)
unfolding perform_aggregation increment add32
counts = refl
