-- ===== src/Lex.antt =====
-- The scanner: src/include/sql/lex.h and src/sql/lex.cpp.
-- `pos` counts the characters that are read: it is `pos_ + 1`. A loop runs over the characters that
-- are left; with none left `next_char` returns 0 and does not move, and `back` moves all the same.
-- The codes of the tokens stand in a generated header; here they are a data type. A token's number is
-- what `atof` makes of its digits; a decimal number keeps the text that `atof` gets.
mod Examples
pub mod Words
pub mod Places
pub mod Advance
use Prim.Native.Char.{code}
use Prim.Native.String.{String}
use dawn.Base.{
  ℕ, zero, suc, ◌+◌, ◌-◌, ◌*◌, Bool, true, false, not, ◌&&◌, ◌||◌, Option, none, some, List, [],
  ◌∷◌, ◌++◌, ltb, leb, ◌==◌, if◌then◌else◌, drop, length,
}
use dawn.Data.Bytes.{cstring, list_eq}

pub data TokenType : Type 0 where
  create table primary_key char int decimal boolean drop_ insert into values delete from where_
        select token_true token_false natural join or not_ and left_parentheses right_parentheses
        semicolon comma less_sign le_eq greater_sign gt_eq star equal string id int_num
        decimal_num :
      TokenType

-- the union `val_`; a number that does not fit an `int` is converted to an unspecified one
pub data Payload : Type 0 where
  unset unspecified : Payload
  integer : ℕ → Payload
  decimal_text : List ℕ → Payload
  varchar : List ℕ → Payload

pub record Token : Type 0 where
  pub type : TokenType
  pub val : Payload

abbrev pub codes : String → List ℕ
codes String.[] = []
codes (String.◌∷◌ c s) = code c ∷ codes s

unfoldable pub key_words : List (List ℕ × TokenType)
key_words =
    (codes "create", create)
    ∷ (codes "CREATE", create)
    ∷ (codes "table", table)
    ∷ (codes "TABLE", table)
    ∷ (codes "primary key", primary_key)
    ∷ (codes "PRIMARY KEY", primary_key)
    ∷ (codes "char", char)
    ∷ (codes "CHAR", char)
    ∷ (codes "int", int)
    ∷ (codes "INT", int)
    ∷ (codes "decimal", decimal)
    ∷ (codes "DECIMAL", decimal)
    ∷ (codes "boolean", boolean)
    ∷ (codes "BOOLEAN", boolean)
    ∷ (codes "drop", drop_)
    ∷ (codes "DROP", drop_)
    ∷ (codes "insert", insert)
    ∷ (codes "INSERT", insert)
    ∷ (codes "into", into)
    ∷ (codes "INTO", into)
    ∷ (codes "values", values)
    ∷ (codes "VALUES", values)
    ∷ (codes "delete", delete)
    ∷ (codes "DELETE", delete)
    ∷ (codes "from", from)
    ∷ (codes "FROM", from)
    ∷ (codes "where", where_)
    ∷ (codes "WHERE", where_)
    ∷ (codes "select", select)
    ∷ (codes "SELECT", select)
    ∷ (codes "true", token_true)
    ∷ (codes "TRUE", token_true)
    ∷ (codes "false", token_false)
    ∷ (codes "FALSE", token_false)
    ∷ (codes "natural", natural)
    ∷ (codes "NATURAL", natural)
    ∷ (codes "join", join)
    ∷ (codes "JOIN", join)
    ∷ (codes "or", or)
    ∷ (codes "OR", or)
    ∷ (codes "not", not_)
    ∷ (codes "NOT", not_)
    ∷ (codes "and", and)
    ∷ (codes "AND", and)
    ∷ []

unfoldable pub find_word : List ℕ → List (List ℕ × TokenType) → Option TokenType
unfolding list_eq
find_word w [] = none
find_word w ((k, t) ∷ rest) = if list_eq k w then some t else find_word w rest

-- `is_key_word`, on `string_t(buf_.data())`
unfoldable pub key_word_type : List ℕ → Option TokenType
unfolding find_word key_words cstring
key_word_type buf = find_word (cstring buf) key_words

-- `key_words_prefix.find`
unfoldable pub is_prefix : List ℕ → Bool
unfolding list_eq cstring
is_prefix buf = list_eq (cstring buf) (codes "primary") || list_eq (cstring buf) (codes "PRIMARY")

abbrev pub is_letter : ℕ → Bool
is_letter c = leb b'a' c && leb c b'z' || leb b'A' c && leb c b'Z'

abbrev pub is_digit : ℕ → Bool
is_digit c = leb b'0' c && leb c b'9'

-- the characters that `read_id` takes up
abbrev pub is_word : ℕ → Bool
is_word c = is_letter c || is_digit c || c == b'_'

-- Does the loop of `read_id` stop at a space, which it has read? The place, and the buffer.
unfoldable pub id_loop : List ℕ → ℕ → List ℕ → Bool × ℕ × List ℕ
id_loop [] pos buf = (false, pos - 1, buf)
id_loop (c ∷ rest) pos buf =
    let more = id_loop rest (pos + 1) (buf ++ c ∷ []) in
    if is_word c then more else if c == b' ' then (true, pos + 1, buf) else (false, pos, buf)

-- the loop of `is_special_key_word`
unfoldable pub special_loop : List ℕ → ℕ → List ℕ → ℕ × List ℕ
special_loop [] pos buf = (pos - 1, buf)
special_loop (c ∷ rest) pos buf =
    let more = special_loop rest (pos + 1) (buf ++ c ∷ []) in if is_word c then more else (pos, buf)

-- the first character that is not a space, and what follows it
unfoldable pub skip_spaces : List ℕ → ℕ → ℕ × ℕ × List ℕ
skip_spaces [] pos = (0, pos, [])
skip_spaces (c ∷ rest) pos =
    let more = skip_spaces rest (pos + 1) in if c == b' ' then more else (c, pos + 1, rest)

abbrev pub with_type : Token → TokenType → Token
with_type tk t = record tk { type = t }

-- what a read returns: its result, the token, and the place
abbrev pub Outcome : Type 0
Outcome = Bool × Token × ℕ

-- `is_special_key_word`, at the characters `rest` after the prefix and a space
unfoldable pub is_special_key_word : Token → List ℕ → ℕ → List ℕ → Outcome
is_special_key_word tk rest pos buf =
    let (c, pos₁, rest₁) = skip_spaces rest pos in
    let (pos₂, buf₂) = special_loop rest₁ pos₁ (buf ++ b' ' ∷ c ∷ []) in
    elim (key_word_type (buf₂ ++ 0 ∷ [])) [
      | none ↦ (false, tk, pos₂)
      | some t ↦ (true, with_type tk t, pos₂)
    ]

-- the end of `read_id`
unfoldable pub finish_id : Token → ℕ → List ℕ → Outcome
finish_id tk pos buf = elim (key_word_type buf) [
  | none ↦ (true, record { type = id; val = varchar buf }, pos)
  | some t ↦ (true, with_type tk t, pos)
]

-- At a space the prefix test leaves its 0 in the buffer unless it succeeds.
unfoldable pub read_id : List ℕ → Token → ℕ → ℕ → Outcome
read_id sql tk first pos =
    let (space, pos₁, buf) = id_loop (drop pos sql) pos (first ∷ []) in
    if not space
    then finish_id tk pos₁ (buf ++ 0 ∷ [])
    else if is_prefix (buf ++ 0 ∷ [])
    then is_special_key_word tk (drop pos₁ sql) pos₁ buf
    else finish_id tk (pos₁ - 1) (buf ++ 0 ∷ 0 ∷ [])

-- the loop of `read_decimal`
unfoldable pub decimal_loop : List ℕ → ℕ → List ℕ → ℕ × List ℕ
decimal_loop [] pos buf = (pos - 1, buf)
decimal_loop (c ∷ rest) pos buf =
    let more = decimal_loop rest (pos + 1) (buf ++ c ∷ []) in
    if is_digit c then more else (pos, buf)

abbrev pub starts_digit : List ℕ → Bool
starts_digit [] = false
starts_digit (c ∷ rest) = is_digit c

pub data NumberEnd : Type 0 where
  whole fraction no_digit : NumberEnd

-- the loop of `read_number`, up to the end or past the point
unfoldable pub number_loop : List ℕ → ℕ → List ℕ → NumberEnd × ℕ × List ℕ
number_loop [] pos buf = (whole, pos - 1, buf)
number_loop (c ∷ rest) pos buf =
    let more = number_loop rest (pos + 1) (buf ++ c ∷ []) in
    if is_digit c
    then more
    else if c == b'.'
    then (if starts_digit rest
        then (fraction, pos + 1, buf ++ b'.' ∷ [])
        else (no_digit, pos + 1, buf))
    else (whole, pos, buf)

abbrev pub digits_value : ℕ → List ℕ → ℕ
digits_value n [] = n
digits_value n (c ∷ cs) = digits_value (n * 10 + (c - b'0')) cs

abbrev is_decimal_type : TokenType → Bool
is_decimal_type decimal = true
is_decimal_type _ = false

unfoldable pub read_number : List ℕ → Token → ℕ → ℕ → Outcome
read_number sql tk first pos =
    let (stop, pos₁, buf) = number_loop (drop pos sql) pos (first ∷ []) in
    let n = digits_value 0 buf in
    let (pos₂, text) = decimal_loop (drop pos₁ sql) pos₁ buf in
    elim stop [
      | whole ↦ (
        true,
        record {
          type = if is_decimal_type tk.type then decimal else int_num;
          val = if ltb n 2147483648 then integer n else unspecified;
        },
        pos₁,
      )
      | fraction ↦ (true, record { type = decimal_num; val = decimal_text text }, pos₂)
      | no_digit ↦ (false, tk, pos₁)
    ]

-- `read_string`, and its loop: a backslash takes the next character as it is, 0 at the end
unfoldable pub string_loop : List ℕ → ℕ → List ℕ → Bool × ℕ × List ℕ
string_loop [] pos buf = (false, pos, buf)
string_loop (c ∷ []) pos buf =
    if c == b'"' || c == 39 then (true, pos + 1, buf ++ 0 ∷ []) else (false, pos + 1, buf)
string_loop (c ∷ d ∷ rest) pos buf =
    let escaped = string_loop rest (pos + 2) (buf ++ d ∷ []) in
    let plain = string_loop (d ∷ rest) (pos + 1) (buf ++ c ∷ []) in
    if c == 0
    then (false, pos + 1, buf)
    else if c == b'"' || c == 39
    then (true, pos + 1, buf ++ 0 ∷ [])
    else if c == 92
    then escaped
    else plain

unfoldable pub read_string : List ℕ → Token → ℕ → Outcome
read_string sql tk pos =
    let (closed, pos₁, buf) = string_loop (drop pos sql) pos [] in
    if closed then (true, record { type = string; val = varchar buf }, pos₁) else (false, tk, pos₁)

-- spaces and line ends before a token
unfoldable pub skip_blank : List ℕ → ℕ → ℕ × ℕ
skip_blank [] pos = (0, pos)
skip_blank (c ∷ rest) pos =
    let more = skip_blank rest (pos + 1) in if c == b' ' || c == 10 then more else (c, pos + 1)

abbrev pub next_is_equal : List ℕ → Bool
next_is_equal [] = false
next_is_equal (c ∷ rest) = c == b'='

-- the place after `back`, which follows a `next_char` at the characters `rest`
abbrev pub after_back : List ℕ → ℕ → ℕ
after_back [] pos = pos - 1
after_back (c ∷ rest) pos = pos

unfoldable pub next_token : List ℕ → Token → ℕ → Outcome
next_token sql tk pos =
    let (c, at) = skip_blank (drop pos sql) pos in
    let rest = drop at sql in
    if c == 0
    then (false, tk, at)
    else if c == b'('
    then (true, with_type tk left_parentheses, at)
    else if c == b')'
    then (true, with_type tk right_parentheses, at)
    else if c == b';'
    then (true, with_type tk semicolon, at)
    else if c == b','
    then (true, with_type tk comma, at)
    else if c == b'<'
    then (if next_is_equal rest
        then (true, with_type tk le_eq, at + 1)
        else (true, with_type tk less_sign, after_back rest at))
    else if c == b'>'
    then (if next_is_equal rest
        then (true, with_type tk gt_eq, at + 1)
        else (true, with_type tk greater_sign, after_back rest at))
    else if c == b'*'
    then (true, with_type tk star, at)
    else if c == b'='
    then (true, with_type tk equal, at)
    else if c == b'"' || c == 39
    then read_string sql tk at
    else if is_letter c || c == b'_'
    then read_id sql tk c at
    else if is_digit c
    then read_number sql tk c at
    else (false, tk, at)

-- A round of the loop of `sql_execute`, which hands the token to the parser and goes on; the tokens are
-- the result.
abbrev pub round : Outcome → (Token → ℕ → Option (List Token)) → Option (List Token)
round (false, tk, pos) more = some []
round (true, tk, pos) more = elim (more tk pos) [ none ↦ none | some ts ↦ some (tk ∷ ts) ]

-- the loop; `none` is fuel that is used up
unfoldable pub scan : ℕ → List ℕ → Token → ℕ → Option (List Token)
scan zero sql tk pos = none
scan (suc fuel) sql tk pos = round (next_token sql tk pos) (scan fuel sql)
