-- ===== src/Data/Bytes.antt =====
-- Bytes and C strings.
use dawn.Base.{
  ℕ, zero, suc, ◌+◌, ◌*◌, ◌/◌, ◌%◌, Bool, true, false, ◌&&◌, List, [], ◌∷◌, ltb, ◌==◌,
  if◌then◌else◌,
}

-- the bytes of a word, low byte first
abbrev pub word_bytes : ℕ → ℕ → List ℕ
word_bytes zero w = []
word_bytes (suc n) w = (w % 256) ∷ word_bytes n (w / 256)

-- the word in the first `n` bytes
abbrev pub word_of : List ℕ → ℕ → ℕ
word_of bs zero = 0
word_of [] (suc n) = 0
word_of (b ∷ bs) (suc n) = b + 256 * word_of bs n

-- a C string ends before its first 0
unfoldable pub cstring : List ℕ → List ℕ
cstring [] = []
cstring (c ∷ cs) = let rest = c ∷ cstring cs in if c == 0 then [] else rest

unfoldable pub list_eq : List ℕ → List ℕ → Bool
list_eq [] [] = true
list_eq [] (y ∷ ys) = false
list_eq (x ∷ xs) [] = false
list_eq (x ∷ xs) (y ∷ ys) = x == y && list_eq xs ys

-- `compare(...) < 0` of two strings
unfoldable pub list_lt : List ℕ → List ℕ → Bool
list_lt xs [] = false
list_lt [] (y ∷ ys) = true
list_lt (x ∷ xs) (y ∷ ys) =
    let rest = list_lt xs ys in if ltb x y then true else if ltb y x then false else rest

-- `memcpy(dst, src, n)`; bytes that `src` does not have are not written, and those for which `dst` has
-- no room stand behind it
unfoldable pub copy_into : List ℕ → List ℕ → ℕ → List ℕ
copy_into dst src zero = dst
copy_into dst [] (suc n) = dst
copy_into [] (x ∷ src) (suc n) = x ∷ copy_into [] src n
copy_into (y ∷ dst) (x ∷ src) (suc n) = x ∷ copy_into dst src n
