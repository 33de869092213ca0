-- ===== src/Data.antt =====
-- Types and values: src/include/data/types.h, values.h, integer.h, boolean.h, decimal.h and char.h, and
-- src/data/types.cpp and values.cpp.
-- The union of a value is the list of its bytes; for a char value it is the array that `char_` points
-- to. Bytes of the union that no constructor wrote read as 0. A decimal is the 64-bit pattern of a
-- double, whose arithmetic is the parameter `Doubles`. Integer sums, differences and products that
-- overflow, which C++ leaves undefined, wrap.
mod Examples
pub mod Bytes
pub mod Laws
use Prim.Native.String.{String}
use mathlib.Core.Option as Option
use dawn.Base.{
  ℕ, zero, suc, ◌+◌, ◌-◌, ◌*◌, ◌/◌, ◌%◌, Bool, true, false, not, ◌&&◌, ◌||◌, Option, none, some,
  List, [], ◌∷◌, ◌++◌, ltb, leb, ◌==◌, if◌then◌else◌, length, get_or, take, drop, replicate,
}
use dawn.Data.Bytes.{word_bytes, word_of, cstring, list_eq, list_lt, copy_into}
use dawn.Memory.{minus_one, add32, sub32, mul32, slt}

pub data TypeId : Type 0 where
  invalid boolean integer decimal char : TypeId

pub data CmpResult : Type 0 where
  is_true is_false : CmpResult

pub data ComparisonType : Type 0 where
  equal not_equal less_than less_than_or_equal greater_than greater_than_or_equal : ComparisonType

-- the operations of `Type` that make a value of two
pub data Operation : Type 0 where
  minus add multiply divide min max : Operation

abbrev pub same_type : TypeId → TypeId → Bool
same_type invalid invalid = true
same_type boolean boolean = true
same_type integer integer = true
same_type decimal decimal = true
same_type char char = true
same_type _ _ = false

unfoldable pub type_to_string : TypeId → String
type_to_string invalid = "kInvalid"
type_to_string boolean = "kBoolean"
type_to_string integer = "kInteger"
type_to_string decimal = "kDecimal"
type_to_string char = "kChar"

abbrev pub get_type_size : TypeId → ℕ
get_type_size boolean = 1
get_type_size integer = 4
get_type_size decimal = 8
get_type_size _ = minus_one

pub record Value : Type 0 where
  pub type_id : TypeId
  pub bytes : List ℕ
  pub str_len : ℕ

abbrev pub no_value : Value
no_value = record { type_id = invalid; bytes = []; str_len = minus_one }

abbrev pub construct_boolean : Bool → Value
construct_boolean b = record {
  type_id = boolean;
  bytes = (if b then 1 else 0) ∷ [];
  str_len = minus_one;
}

abbrev pub construct_cmp : CmpResult → Value
construct_cmp is_true = construct_boolean true
construct_cmp is_false = construct_boolean false

abbrev pub construct_integer : ℕ → Value
construct_integer val = record { type_id = integer; bytes = word_bytes 4 val; str_len = minus_one }

abbrev pub construct_decimal : ℕ → Value
construct_decimal val = record { type_id = decimal; bytes = word_bytes 8 val; str_len = minus_one }

-- `construct(val, size)`: `size` bytes of `val`, and the end
unfoldable pub construct_char : List ℕ → ℕ → Value
unfolding copy_into
construct_char val size = record {
  type_id = char;
  bytes = take size (copy_into (replicate (size + 1) 0) val size) ++ 0 ∷ [];
  str_len = size;
}

-- `Value(const char*)`
unfoldable pub of_c_string : List ℕ → Value
unfolding cstring construct_char
of_c_string val = construct_char val (length (cstring val))

-- `get_value<T>`
abbrev pub get_boolean : Value → Bool
get_boolean v = not (get_or v.bytes 0 0 == 0)

abbrev pub get_integer : Value → ℕ
get_integer v = word_of v.bytes 4

abbrev pub get_decimal : Value → ℕ
get_decimal v = word_of v.bytes 8

-- how many bytes `serialize_to` writes; `none` is the lookup `singleton[-1]`
unfoldable pub serialized_size : Value → Option ℕ
unfolding cstring
serialized_size v = elim v.type_id [
  | invalid ↦ none
  | boolean ↦ some 1
  | integer ↦ some 4
  | decimal ↦ some 8
  | char ↦ some (length (cstring v.bytes) + 1)
]

-- `deserialize_from(src)`, with the bytes from `src` on
unfoldable pub deserialize_from : Value → List ℕ → Option Value
unfolding cstring copy_into
deserialize_from v src = elim v.type_id [
  | invalid ↦ none
  | boolean ↦ some (record v { bytes = copy_into v.bytes src 1 })
  | integer ↦ some (record v { bytes = copy_into v.bytes src 4 })
  | decimal ↦ some (record v { bytes = copy_into v.bytes src 8 })
  | char ↦ some (record v { bytes = copy_into v.bytes src (length (cstring src) + 1) })
]

-- `Value(value, type_id, str_size)`
unfoldable pub of_storage : List ℕ → TypeId → ℕ → Option Value
unfolding deserialize_from
of_storage src type_id str_size =
    deserialize_from
      (record {
        type_id = type_id;
        bytes = elim type_id [ char ↦ replicate (str_size + 1) 0 | _ ↦ [] ];
        str_len = str_size;
      })
      src

-- what `get_hash_value` hands to the hash function; an invalid value has the hash 0
unfoldable pub hashed_bytes : Value → Option (List ℕ)
hashed_bytes v = elim v.type_id [
  | invalid ↦ none
  | boolean ↦ some (take 1 v.bytes)
  | integer ↦ some (take 4 v.bytes)
  | decimal ↦ some (take 8 v.bytes)
  | char ↦ some (take v.str_len v.bytes)
]

pub record Doubles : Type 0 where
  pub lt : ℕ → ℕ → Bool
  pub le : ℕ → ℕ → Bool
  pub eq : ℕ → ℕ → Bool
  pub calc : Operation → ℕ → ℕ → ℕ

-- the pattern of 1.0
abbrev pub one_bits : ℕ
one_bits = 4607182418800017408

abbrev pub same_bool : Bool → Bool → Bool
same_bool a b = if a then b else not b

unfoldable pub value_eq : Doubles → Value → Value → Bool
unfolding cstring list_eq
value_eq d v w = same_type v.type_id w.type_id && elim w.type_id [
  | invalid ↦ false
  | boolean ↦ same_bool (get_boolean v) (get_boolean w)
  | integer ↦ get_integer v == get_integer w
  | decimal ↦ d.eq (get_decimal v) (get_decimal w)
  | char ↦ list_eq (cstring v.bytes) (cstring w.bytes)
]

-- `operator!=`
unfoldable pub value_ne : Doubles → Value → Value → Bool
unfolding cstring list_eq
value_ne d v w = same_type v.type_id w.type_id && elim w.type_id [
  | invalid ↦ false
  | boolean ↦ not (same_bool (get_boolean v) (get_boolean w))
  | integer ↦ not (get_integer v == get_integer w)
  | decimal ↦ not (d.eq (get_decimal v) (get_decimal w))
  | char ↦ not (list_eq (cstring v.bytes) (cstring w.bytes))
]

-- `operator<`
unfoldable pub value_lt : Doubles → Value → Value → Bool
unfolding cstring list_lt
value_lt d v w = same_type v.type_id w.type_id && elim v.type_id [
  | invalid ↦ false
  | boolean ↦ false
  | integer ↦ slt (get_integer v) (get_integer w)
  | decimal ↦ d.lt (get_decimal v) (get_decimal w)
  | char ↦ list_lt (cstring v.bytes) (cstring w.bytes)
]

-- `operator++`
unfoldable pub increment : Doubles → Value → Value
unfolding copy_into
increment d v = elim v.type_id [
  | integer ↦ record v { bytes = copy_into v.bytes (word_bytes 4 (add32 (get_integer v) 1)) 4 }
  | decimal ↦ record v {
    bytes = copy_into v.bytes (word_bytes 8 (d.calc add (get_decimal v) one_bits)) 8;
  }
  | _ ↦ v
]

abbrev result_of : Bool → CmpResult
result_of true = is_true
result_of false = is_false

-- the six comparisons of `Integer`, of `Decimal` and of `Boolean`
unfoldable pub integer_cmp : ComparisonType → ℕ → ℕ → Bool
integer_cmp less_than l r = slt l r
integer_cmp less_than_or_equal l r = not (slt r l)
integer_cmp equal l r = l == r
integer_cmp not_equal l r = not (l == r)
integer_cmp greater_than_or_equal l r = not (slt l r)
integer_cmp greater_than l r = slt r l

unfoldable pub decimal_cmp : Doubles → ComparisonType → ℕ → ℕ → Bool
decimal_cmp d less_than l r = d.lt l r
decimal_cmp d less_than_or_equal l r = d.le l r
decimal_cmp d equal l r = d.eq l r
decimal_cmp d not_equal l r = not (d.eq l r)
decimal_cmp d greater_than_or_equal l r = d.le r l
decimal_cmp d greater_than l r = d.lt r l

unfoldable pub boolean_cmp : ComparisonType → Bool → Bool → Bool
boolean_cmp equal l r = same_bool l r
boolean_cmp not_equal l r = not (same_bool l r)
boolean_cmp _ l r = false

-- `Type::get_instance(type_id)` with the comparison; `Char` answers kFalse to all
unfoldable pub compare_values : Doubles → TypeId → ComparisonType → Value → Value → Option CmpResult
unfolding integer_cmp decimal_cmp boolean_cmp
compare_values d invalid op v w = none
compare_values d boolean op v w = some (result_of (boolean_cmp op (get_boolean v) (get_boolean w)))
compare_values d integer op v w = some (result_of (integer_cmp op (get_integer v) (get_integer w)))
compare_values d decimal op v w =
    some (result_of (decimal_cmp d op (get_decimal v) (get_decimal w)))
compare_values d char op v w = some is_false

abbrev pub is_negative : ℕ → Bool
is_negative w = leb 2147483648 w

abbrev pub magnitude : ℕ → ℕ
magnitude w = if is_negative w then 4294967296 - w else w

-- `l / r` on `int32_t`: towards zero; `none` where the result is undefined
unfoldable pub sdiv32 : ℕ → ℕ → Option ℕ
sdiv32 l r =
    if r == 0 || (l == 2147483648 && r == minus_one)
    then none
    else let q = magnitude l / magnitude r in
      some (if same_bool (is_negative l) (is_negative r) then q else sub32 0 q)

unfoldable pub integer_calc : Operation → ℕ → ℕ → Option ℕ
unfolding sdiv32
integer_calc minus l r = some (sub32 l r)
integer_calc add l r = some (add32 l r)
integer_calc multiply l r = some (mul32 l r)
integer_calc divide l r = sdiv32 l r
integer_calc min l r = some (if slt r l then r else l)
integer_calc max l r = some (if slt l r then r else l)

unfoldable pub decimal_calc : Doubles → Operation → ℕ → ℕ → ℕ
decimal_calc d minus l r = d.calc minus l r
decimal_calc d add l r = d.calc add l r
decimal_calc d multiply l r = d.calc multiply l r
decimal_calc d divide l r = d.calc divide l r
decimal_calc d min l r = if d.lt r l then r else l
decimal_calc d max l r = if d.lt l r then r else l

-- The operations of a type on two values; `none` is undefined behaviour.
unfoldable pub calculate : Doubles → TypeId → Operation → Value → Value → Option Value
unfolding integer_calc decimal_calc
calculate d invalid op v w = none
calculate d boolean op v w = some no_value
calculate d integer op v w =
    Option.map construct_integer (integer_calc op (get_integer v) (get_integer w))
calculate d decimal op v w =
    some (construct_decimal (decimal_calc d op (get_decimal v) (get_decimal w)))
calculate d char op v w = some no_value
