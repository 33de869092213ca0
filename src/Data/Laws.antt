-- ===== src/Data/Laws.antt =====
-- Comparison, equality and arithmetic of values.
use dawn.Base.{ℕ, ◌<◌, ◌≡◌, false, not, ◌&&◌, ◌||◌, some, arith, ap}
use dawn.Data.{
  invalid, equal, not_equal, less_than, less_than_or_equal, greater_than, greater_than_or_equal,
  Value, Doubles, value_eq, value_ne, same_type, integer_cmp, minus, integer_calc,
}
use dawn.Memory.{u32_mod, slt, add32, sub32}

-- On 32-bit words the six comparisons of integers fit together: exactly one of <, = and > holds, <=
-- and >= are its unions, and <> is the negation of =.
pub integer_cmp_order :
    (l r : ℕ)
    → l < u32_mod
    → r < u32_mod
    → (integer_cmp less_than_or_equal l r ≡ (integer_cmp less_than l r || integer_cmp equal l r))
      × (integer_cmp greater_than_or_equal l r
          ≡ (integer_cmp greater_than l r || integer_cmp equal l r))
      × (integer_cmp not_equal l r ≡ (integer_cmp less_than l r || integer_cmp greater_than l r))
      × ((integer_cmp less_than l r && integer_cmp greater_than l r) ≡ false)
      × ((integer_cmp equal l r && integer_cmp not_equal l r) ≡ false)
unfolding integer_cmp slt
integer_cmp_order l r hl hr = (ground arith, ground arith, ground arith, ground arith, ground arith)

-- `operator!=` is the negation of `operator==` on two values of one valid type, and on values of
-- different types, or of no type, both are false.
pub value_ne-value_eq :
    (d : Doubles) (v w : Value)
    → value_ne d v w
      ≡ (same_type v.type_id w.type_id && not (same_type v.type_id invalid) && not (value_eq d v w))
unfolding value_ne value_eq
value_ne-value_eq d v w = ground arith

-- Subtraction undoes addition, wrap-around included.
pub integer_calc-add32 :
    (l r : ℕ) → l < u32_mod → r < u32_mod → integer_calc minus (add32 l r) r ≡ some l
unfolding integer_calc add32 sub32
integer_calc-add32 l r hl hr = ap some (omega arith)
