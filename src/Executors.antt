-- ===== src/Executors.antt =====
-- Expressions and executors: src/include/sql/expressions, src/include/executors and src/executors. An
-- executor's `get_next` is a function of its own state, and of the caller's tuple, which it fills in.
mod Examples
pub mod Selection
use dawn.Base.{
  ℕ, zero, suc, Bool, true, false, Option, none, some, List, [], ◌∷◌, ◌==◌, if◌then◌else◌,
}
use dawn.Data.{
  Doubles, Value, ComparisonType, compare_values, construct_cmp, construct_boolean,
  construct_integer, value_eq, CmpResult, is_true, is_false, less_than, greater_than, increment,
  calculate, add,
}
use dawn.Disk.{Stream}
use dawn.Memory.{minus_one}
use dawn.Page.{Tuple}
use dawn.Pool.{BufferPool}
use dawn.Schema.{Schema, get_value}
use dawn.Table.Iterator.{LinkHashTableIter, new_iter, next_tuple}
use dawn.Table.{Table}

-- the classes of expressions without a state
pub data Expression : Type 0 where
  column_value : ℕ → Expression
  constant : Value → Expression
  comparison : Expression → Expression → ComparisonType → Expression

-- `none` is a value that is undefined
unfoldable pub evaluate : Doubles → Schema → Tuple → Expression → Option Value
evaluate doubles schema tuple (column_value col_idx) = get_value tuple schema col_idx
evaluate doubles schema tuple (constant val) = some val
evaluate doubles schema tuple (comparison left right cmp_type) =
    let lhs = evaluate doubles schema tuple left in
    let rhs = evaluate doubles schema tuple right in
    elim lhs [
      | none ↦ none
      | some v ↦ elim rhs [
        | none ↦ none
        | some w ↦ elim (compare_values doubles v.type_id cmp_type v w) [
          | none ↦ none
          | some r ↦ some (construct_cmp r)
        ]
      ]
    ]

pub data AggregationType : Type 0 where
  count_aggregate sum_aggregate min_aggregate max_aggregate : AggregationType

-- the constructor of `AggregateExpression`
abbrev pub first_value : AggregationType → Value
first_value count_aggregate = construct_integer 0
first_value sum_aggregate = construct_integer 0
first_value min_aggregate = construct_integer 2147483647
first_value max_aggregate = construct_integer 2147483648

-- the minimum or the maximum takes the new value if the comparison says so
abbrev pub taken : Option CmpResult → Value → Value → Option Value
taken none old new = none
taken (some is_true) old new = some new
taken (some is_false) old new = some old

-- `perform_aggregation`
unfoldable pub perform_aggregation :
    Doubles → AggregationType → ℕ → Schema → Value → Tuple → Option Value
perform_aggregation doubles count_aggregate agg_idx schema val tuple = some (increment doubles val)
perform_aggregation doubles sum_aggregate agg_idx schema val tuple =
    elim (get_value tuple schema agg_idx) [
      | none ↦ none
      | some v ↦ calculate doubles val.type_id add val v
    ]
perform_aggregation doubles min_aggregate agg_idx schema val tuple =
    elim (get_value tuple schema agg_idx) [
      | none ↦ none
      | some v ↦ taken (compare_values doubles val.type_id less_than v val) val v
    ]
perform_aggregation doubles max_aggregate agg_idx schema val tuple =
    elim (get_value tuple schema agg_idx) [
      | none ↦ none
      | some v ↦ taken (compare_values doubles val.type_id greater_than v val) val v
    ]

-- `get_next` of an executor with a state in `X`: whether there is a tuple, and the tuple
abbrev pub Next : Type 0 → Type 0
Next X = X → Tuple → Option (Bool × Tuple × X)

-- whether the predicate of a selection holds of a tuple
unfoldable pub holds : Doubles → Expression → Schema → Tuple → Option Bool
holds doubles predicate schema tuple = elim (evaluate doubles schema tuple predicate) [
  | none ↦ none
  | some v ↦ some (value_eq doubles v (construct_boolean true))
]

-- `SelectionExecutor::get_next` over its child's, with `fuel` rounds of the loop
unfoldable pub selection_next : {X : Type 0} → Doubles → Expression → Schema → Next X → ℕ → Next X
selection_next doubles predicate schema child zero x tuple = none
selection_next doubles predicate schema child (suc fuel) x tuple = elim (child x tuple) [
  | none ↦ none
  | some (false, read, x₁) ↦ some (false, read, x₁)
  | some (true, read, x₁) ↦
      let rest = selection_next doubles predicate schema child fuel x₁ read in
      elim (holds doubles predicate schema read) [
        | none ↦ none
        | some ok ↦ if ok then some (true, read, x₁) else rest
      ]
]

module _ {S : Type 0} (io : Stream S) where
  -- `SeqScanExecutor`, whose state is the iterator and the pool; `open` makes the iterator
  unfoldable pub scan_open : Table → BufferPool S → Option (LinkHashTableIter × BufferPool S)
  scan_open t b = new_iter io t.first_table_page_id b

  unfoldable pub scan_next : Next (LinkHashTableIter × BufferPool S)
  scan_next (it, b) tuple =
      if it.tuple.rid.page_id == minus_one
      then some (false, tuple, (it, b))
      else elim (next_tuple io it b) [
        | none ↦ none
        | some (after, b₁) ↦ some (true, it.tuple, (after, b₁))
      ]
