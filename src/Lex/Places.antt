-- ===== src/Lex/Places.antt =====
-- How far the loops and the reads of the scanner go, on a text that ends in `;`.
use dawn.Base.{
  ℕ, zero, suc, ◌+◌, ◌-◌, ◌≤◌, ◌<◌, ◌≡◌, ◌⊎◌, inl, inr, refl, sym, ◌∙◌, ap, Bool, true, false, List,
  [], ◌∷◌, ◌++◌, drop, length, arith, Bool-cases, Option-cases, length-drop,
}
use dawn.Lex.{
  Outcome, key_word_type, is_prefix, Token, id_loop, special_loop, skip_spaces, finish_id, read_id,
  is_special_key_word, decimal_loop, number_loop, NumberEnd, whole, fraction, no_digit, string_loop,
  read_string, read_number,
}

-- empty, or with `;` at the end
abbrev pub Closed : List ℕ → Type 0
Closed [] = Unit {0}
Closed (c ∷ []) = c ≡ b';'
Closed (c ∷ d ∷ rest) = Closed (d ∷ rest)

pub Closed-tail : (c : ℕ) (rest : List ℕ) → Closed (c ∷ rest) → Closed rest
Closed-tail c [] h = tt
Closed-tail c (d ∷ rest) h = h

pub Closed-drop : (n : ℕ) (xs : List ℕ) → Closed xs → Closed (drop n xs)
Closed-drop zero xs h = h
Closed-drop (suc n) [] h = tt
Closed-drop (suc n) (x ∷ xs) h = Closed-drop n xs (Closed-tail x xs h)

-- the loops go on from `pos`, and not past the end
id_loop-place :
    (c : ℕ) (rest : List ℕ) (pos : ℕ) (buf : List ℕ)
    → Closed (c ∷ rest)
    → let (space, at, _) = id_loop (c ∷ rest) pos buf in
      (pos ≤ at) × (at ≤ pos + suc (length rest)) × (space ≡ true → pos < at)
unfolding id_loop
id_loop-place c [] pos buf h = ground arith
id_loop-place c (d ∷ rest) pos buf h =
    ground (arith, id_loop-place d rest (pos + 1) (buf ++ c ∷ []) h)

special_loop-place :
    (rest : List ℕ) (pos : ℕ) (buf : List ℕ)
    → (pos ≤ (special_loop rest pos buf).0 + 1)
      × ((special_loop rest pos buf).0 ≤ pos + length rest)
unfolding special_loop
special_loop-place [] pos buf = ground arith
special_loop-place (c ∷ rest) pos buf =
    ground (arith, special_loop-place rest (pos + 1) (buf ++ c ∷ []))

decimal_loop-place :
    (c : ℕ) (rest : List ℕ) (pos : ℕ) (buf : List ℕ)
    → Closed (c ∷ rest)
    → (pos ≤ (decimal_loop (c ∷ rest) pos buf).0)
      × ((decimal_loop (c ∷ rest) pos buf).0 ≤ pos + suc (length rest))
unfolding decimal_loop
decimal_loop-place c [] pos buf h = ground arith
decimal_loop-place c (d ∷ rest) pos buf h =
    ground (arith, decimal_loop-place d rest (pos + 1) (buf ++ c ∷ []) h)

string_loop-place :
    (rest : List ℕ) (pos : ℕ) (buf : List ℕ)
    → (pos ≤ (string_loop rest pos buf).1) × ((string_loop rest pos buf).1 ≤ pos + length rest)
unfolding string_loop
string_loop-place [] pos buf = ground arith
string_loop-place (c ∷ []) pos buf = ground arith
string_loop-place (c ∷ d ∷ rest) pos buf = ground (
  arith,
  string_loop-place rest (pos + 2) (buf ++ d ∷ []),
  string_loop-place (d ∷ rest) (pos + 1) (buf ++ c ∷ []),
)

abbrev pub place : Outcome → ℕ
place (ok, tk, pos) = pos

drop_end : (xs : List ℕ) (n : ℕ) → length xs ≤ n → drop n xs ≡ []
drop_end [] zero h = refl
drop_end [] (suc n) h = refl
drop_end (x ∷ xs) zero h = absurd (omega arith)
drop_end (x ∷ xs) (suc n) h = drop_end xs n (omega arith)

skip_spaces-place :
    (rest : List ℕ) (pos : ℕ)
    → (pos ≤ (skip_spaces rest pos).1)
      × ((skip_spaces rest pos).1 + length (skip_spaces rest pos).2 ≤ pos + length rest)
unfolding skip_spaces
skip_spaces-place [] pos = ground arith
skip_spaces-place (c ∷ rest) pos = ground (arith, skip_spaces-place rest (pos + 1))

special-place :
    (tk : Token) (rest : List ℕ) (pos : ℕ) (buf : List ℕ)
    → (pos ≤ place (is_special_key_word tk rest pos buf) + 1)
      × (place (is_special_key_word tk rest pos buf) ≤ pos + length rest)
unfolding is_special_key_word
special-place tk rest pos buf =
    let (c, at, left) = skip_spaces rest pos in
    let start = buf ++ b' ' ∷ c ∷ [] in
    let run = special_loop left at start in
    let (lo, hi) = skip_spaces-place rest pos in
    let (lo', hi') = special_loop-place left at start in
    elim (Option-cases (key_word_type (run.1 ++ 0 ∷ []))) [
      | inl e ↦ rw (is_special_key_word, e) (omega arith, omega arith)
      | inr (t, e) ↦ rw (is_special_key_word, e) (omega arith, omega arith)
    ]

finish_id-place : (tk : Token) (pos : ℕ) (buf : List ℕ) → place (finish_id tk pos buf) ≡ pos
unfolding finish_id
finish_id-place tk pos buf = elim (Option-cases (key_word_type buf)) [
  | inl e ↦ rw (finish_id, e) refl
  | inr (t, e) ↦ rw (finish_id, e) refl
]

abbrev is_fraction : NumberEnd → Bool
is_fraction fraction = true
is_fraction _ = false

number_loop-place :
    (c : ℕ) (rest : List ℕ) (pos : ℕ) (buf : List ℕ)
    → Closed (c ∷ rest)
    → let (stop, at, _) = number_loop (c ∷ rest) pos buf in
      (pos ≤ at)
      × (at ≤ pos + suc (length rest))
      × (is_fraction stop ≡ true → at < pos + suc (length rest))
unfolding number_loop
number_loop-place c [] pos buf h = ground arith
number_loop-place c (d ∷ rest) pos buf h =
    ground (arith, number_loop-place d rest (pos + 1) (buf ++ c ∷ []) h)

pub cons-cases : (xs : List ℕ) → (xs ≡ []) ⊎ ((x : ℕ) × (rest : List ℕ) × xs ≡ x ∷ rest)
cons-cases [] = inl refl
cons-cases (x ∷ rest) = inr (x, rest, refl)

NumberEnd-cases : (s : NumberEnd) → (s ≡ whole) ⊎ (s ≡ fraction) ⊎ (s ≡ no_digit)
NumberEnd-cases whole = inl refl
NumberEnd-cases fraction = inr (inl refl)
NumberEnd-cases no_digit = inr (inr refl)

pub read_string-place :
    (sql : List ℕ) (tk : Token) (pos : ℕ)
    → pos ≤ length sql
    → (pos ≤ place (read_string sql tk pos)) × (place (read_string sql tk pos) ≤ length sql)
unfolding read_string
read_string-place sql tk pos h =
    let run = string_loop (drop pos sql) pos [] in
    let (lo, hi) = string_loop-place (drop pos sql) pos [] in
    let end = length-drop pos sql in
    elim (Bool-cases run.0) [
      | inl t ↦ rw (read_string, t) (lo, omega (arith, hi, end))
      | inr t ↦ rw (read_string, t) (lo, omega (arith, hi, end))
    ]

module _ (sql : List ℕ) (tk : Token) (first pos c : ℕ) (rest : List ℕ)
    (left : drop pos sql ≡ c ∷ rest) (whole_closed : Closed sql) where
  pub closed : Closed (c ∷ rest)
  closed = rw left at (Closed-drop pos sql whole_closed)

  room : pos + suc (length rest) ≡ length sql
  room =
      let n : suc (length rest) ≡ length sql - pos = ap length (sym left) ∙ length-drop pos sql in
      omega arith

  pub read_id-place :
      (pos ≤ place (read_id sql tk first pos)) × (place (read_id sql tk first pos) ≤ length sql)
  unfolding read_id
  read_id-place =
      let run = id_loop (c ∷ rest) pos (first ∷ []) in
      let (lo, hi, after) = id_loop-place c rest pos (first ∷ []) closed in
      let end = length-drop run.1 sql in
      elim (Bool-cases run.0) [
        | inr word ↦
            rw (read_id, left, word, finish_id-place tk run.1 (run.2 ++ 0 ∷ []))
              (lo, omega (arith, hi, room))
        | inl space ↦
            let gone = after space in
            elim (Bool-cases (is_prefix (run.2 ++ 0 ∷ []))) [
              | inl special ↦
                  let (lo', hi') = special-place tk (drop run.1 sql) run.1 run.2 in
                  rw (read_id, left, space, special)
                    (omega (arith, gone, lo'), omega (arith, hi', end, room, hi))
              | inr plain ↦
                  rw
                    (
                      read_id,
                      left,
                      space,
                      plain,
                      finish_id-place tk (run.1 - 1) (run.2 ++ 0 ∷ 0 ∷ []),
                    )
                    (omega (arith, gone), omega (arith, hi, room))
            ]
      ]

  pub read_number-place :
      (pos ≤ place (read_number sql tk first pos))
      × (place (read_number sql tk first pos) ≤ length sql)
  unfolding read_number
  read_number-place =
      let run = number_loop (drop pos sql) pos (first ∷ []) in
      let (lo, hi, more) = rw (← left) at (number_loop-place c rest pos (first ∷ []) closed) in
      let end = length-drop run.1 sql in
      elim (NumberEnd-cases run.0) [
        | inl e ↦ rw (read_number, e) (lo, omega (arith, hi, room))
        | inr (inr e) ↦ rw (read_number, e) (lo, omega (arith, hi, room))
        | inr (inl e) ↦
            let short = more (rw e refl) in
            elim (cons-cases (drop run.1 sql)) [
              | inl none_left ↦ absurd (omega (arith, short, room, end, ap length none_left))
              | inr (d, rest', some_left) ↦
                  let still = Closed-drop run.1 sql whole_closed in
                  let (lo', hi') = decimal_loop-place d rest' run.1 run.2 (rw some_left at still) in
                  rw (read_number, e, some_left)
                    (omega (arith, lo, lo'), omega (arith, hi', end, ap length some_left, hi, room))
            ]
      ]
