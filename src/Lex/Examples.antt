-- ===== src/Lex/Examples.antt =====
-- Runs of the scanner on short texts.
use dawn.Base.{◌≤◌, ◌≡◌, refl, true, some, none, List, [], ◌∷◌, ◌++◌, length, arith}
use dawn.Lex.Advance.{scan_ends}
use dawn.Lex.Words.{next_token-word, scan-never, word_token}
use dawn.Lex.{
  Token, unset, integer, varchar, decimal_text, drop_, table, primary_key, id, int_num, decimal_num,
  semicolon, star, string, codes, next_token, scan, with_type, skip_blank, read_id, id_loop,
  is_prefix, is_special_key_word, finish_id, key_word_type, special_loop, skip_spaces, read_number,
  number_loop, decimal_loop, read_string, string_loop,
}

-- the token of the caller, before it is read
abbrev start : Token
start = record { type = star; val = unset }

next_token-word_example :
    next_token (codes " drop_it;") start 1 ≡ (true, word_token start (codes "drop_it") (0 ∷ []), 8)
next_token-word_example =
    next_token-word (codes " drop_it;") start 1 b'd' (codes "rop_it") b';' [] refl refl
      (refl, (refl, (refl, (refl, (refl, (refl, tt)))))) refl refl

scan-never_example :
    (next_token (codes "x") start 0 ≡ (true, word_token start (b'x' ∷ []) (0 ∷ []), 0))
    × (scan 100 (codes "x") start 0 ≡ none)
scan-never_example = scan-never (codes "x") 0 b'x' refl refl start 100

scan_ends_example : (ts : List Token) × (scan 4 (codes "a<2;") start 1 ≡ some ts) × (length ts ≤ 3)
scan_ends_example = scan_ends 4 (codes "a<2;") start 1 refl (omega arith)

statement :
    scan 40 (codes "drop table t1 1.5 12;") start 0
    ≡ some (
        with_type start drop_
        ∷ with_type start table
        ∷ record { type = id; val = varchar (codes "t1" ++ 0 ∷ 0 ∷ []) }
        ∷ record { type = decimal_num; val = decimal_text (codes "1.5") }
        ∷ record { type = int_num; val = integer 12 }
        ∷ record { type = semicolon; val = integer 12 }
        ∷ [])
unfolding scan next_token skip_blank read_id id_loop is_prefix finish_id key_word_type read_number
    number_loop decimal_loop
statement = refl

two_words : next_token (codes "primary  key;") start 0 ≡ (true, with_type start primary_key, 12)
unfolding next_token skip_blank read_id id_loop is_prefix is_special_key_word key_word_type
    special_loop skip_spaces
two_words = refl

-- a quote closes a string that the other quote began
quotes :
    next_token (codes "\"it's\"") start 0
    ≡ (true, record { type = string; val = varchar (codes "it" ++ 0 ∷ []) }, 4)
unfolding next_token skip_blank read_string string_loop
quotes = refl
