-- ===== src/Data/Examples.antt =====
-- Runs of the operations on values, with doubles taken by their patterns.
use dawn.Base.{◌≡◌, refl, true, some, none, [], ◌∷◌, ltb, leb, ◌==◌}
use dawn.Data.{
  Doubles, divide, of_c_string, construct_integer, value_lt, integer_calc, increment, get_integer,
  hashed_bytes, serialized_size,
}
use dawn.Memory.{add32, sub32}

-- positive doubles are ordered as their patterns are
abbrev patterns : Doubles
patterns = record { lt = ltb; le = leb; eq = λ l r. l == r; calc = λ op l r. l }

-- 7 / -2 is -3, and the quotient by 0 is undefined
divides : integer_calc divide 7 4294967294 ≡ some 4294967293
unfolding integer_calc sub32
divides = refl

divides_by_zero : integer_calc divide 7 0 ≡ none
unfolding integer_calc
divides_by_zero = refl

-- "ab" is below "b"
compares : value_lt patterns (of_c_string (97 ∷ 98 ∷ 0 ∷ [])) (of_c_string (98 ∷ 0 ∷ [])) ≡ true
unfolding value_lt of_c_string
compares = refl

increments : get_integer (increment patterns (construct_integer 255)) ≡ 256
unfolding increment add32
increments = refl

hashes : hashed_bytes (of_c_string (97 ∷ 98 ∷ 0 ∷ [])) ≡ some (97 ∷ 98 ∷ [])
unfolding hashed_bytes of_c_string
hashes = refl

takes : serialized_size (of_c_string (97 ∷ 98 ∷ 0 ∷ [])) ≡ some 3
unfolding serialized_size of_c_string
takes = refl
