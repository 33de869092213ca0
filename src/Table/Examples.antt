-- ===== src/Table/Examples.antt =====
-- The theorems of tables at a pool with page 5, and a walk over a table of two rows.
use dawn.Base.{ℕ, ◌≡◌, refl, true, false, some, arith}
use dawn.Calls.Sample.{silent, patterns, low_byte, one_integer, linked_nowhere, pool_of}
use dawn.Data.{construct_integer}
use dawn.Page.{empty_tuple}
use dawn.Pool.{BufferPool}
use dawn.Table.Fresh.{new_table-get_tuple}
use dawn.Table.{Table, new_table, get_tuple}

new_table-get_tuple_example :
    (t : Table) × (b₁ b₂ : BufferPool ℕ) × (new_table silent 5 true (pool_of linked_nowhere)
      ≡ some (t, b₁))
    × (get_tuple silent patterns low_byte t (construct_integer 3) empty_tuple one_integer b₁
        ≡ some ((false, empty_tuple), b₂))
new_table-get_tuple_example =
    new_table-get_tuple silent 5 0 (omega arith) patterns low_byte (pool_of linked_nowhere)
      (construct_integer 3) empty_tuple one_integer refl refl
