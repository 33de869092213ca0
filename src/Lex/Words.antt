-- ===== src/Lex/Words.antt =====
-- Words: identifiers and keywords, and what happens at the end of the text.
use dawn.Base.{
  ℕ, zero, suc, ◌+◌, ◌-◌, ◌≡◌, inl, inr, refl, ◌∙◌, ap, Bool, true, false, ◌&&◌, ◌||◌, none, some,
  List, [], ◌∷◌, ◌++◌, ◌==◌, if◌then◌else◌, drop, length, arith, Bool-cases, Option-cases,
}
use mathlib.Core.List.{append_assoc, append-nil}
use dawn.Data.Bytes.{cstring}
use dawn.Lex.{
  id, Token, varchar, key_words, find_word, key_word_type, is_prefix, is_letter, is_word, id_loop,
  finish_id, read_id, next_token, skip_blank, with_type, scan,
}

abbrev pub Words : List ℕ → Type 0
Words [] = Unit {0}
Words (c ∷ cs) = (is_word c ≡ true) × Words cs

id_loop-word :
    (ws : List ℕ) (c : ℕ) (rest : List ℕ) (pos : ℕ) (buf : List ℕ)
    → Words ws
    → is_word c ≡ false
    → id_loop (ws ++ c ∷ rest) pos buf ≡ (
        if c == b' '
        then (true, pos + length ws + 1, buf ++ ws)
        else (false, pos + length ws, buf ++ ws))
unfolding id_loop
id_loop-word [] c rest pos buf w stop =
    let here : pos + 0 ≡ pos = omega arith in rw (stop, here, append-nil buf) refl
id_loop-word (d ∷ ws) c rest pos buf (w, more) stop =
    let here : pos + 1 + length ws ≡ pos + suc (length ws) = omega arith in
    rw w (
      id_loop-word ws c rest (pos + 1) (buf ++ d ∷ []) more stop
      ∙ rw (here, append_assoc buf (d ∷ []) ws) refl)

pub drop-suc :
    (sql : List ℕ) (pos c : ℕ) (rest : List ℕ) → drop pos sql ≡ c ∷ rest → drop (pos + 1) sql ≡ rest
drop-suc [] zero c rest e = cc
drop-suc [] (suc pos) c rest e = cc
drop-suc (x ∷ sql) zero c rest e = cc
drop-suc (x ∷ sql) (suc pos) c rest e =
    let next : suc pos + 1 ≡ suc (pos + 1) = omega arith in rw next (drop-suc sql pos c rest e)

abbrev pub starts_word : ℕ → Bool
starts_word c = is_letter c || c == b'_'

not_sign :
    (l : ℕ)
    → starts_word l ≡ true
    → ((l == 0) ≡ false)
      × ((l == b'(') ≡ false)
      × ((l == b')') ≡ false)
      × ((l == b';') ≡ false)
      × ((l == b',') ≡ false)
      × ((l == b'<') ≡ false)
      × ((l == b'>') ≡ false)
      × ((l == b'*') ≡ false)
      × ((l == b'=') ≡ false)
      × ((l == b'"' || l == 39) ≡ false)
      × ((l == b' ' || l == 10) ≡ false)
not_sign l s = (
  ground arith,
  ground arith,
  ground arith,
  ground arith,
  ground arith,
  ground arith,
  ground arith,
  ground arith,
  ground arith,
  ground arith,
  ground arith,
)

next_token-read_id :
    (sql : List ℕ) (tk : Token) (pos l : ℕ) (rest : List ℕ)
    → drop pos sql ≡ l ∷ rest
    → starts_word l ≡ true
    → next_token sql tk pos ≡ read_id sql tk l (pos + 1)
unfolding next_token skip_blank
next_token-read_id sql tk pos l rest e s =
    let (a, b, c, d, f, g, h, i, j, k, blank) = not_sign l s in
    rw (e, skip_blank, blank, a, b, c, d, f, g, h, i, j, k, s) refl

-- the token of the word `w`, with `tail` behind it in the buffer
abbrev pub word_token : Token → List ℕ → List ℕ → Token
word_token tk w tail = elim (find_word w key_words) [
  | none ↦ record { type = id; val = varchar (w ++ tail) }
  | some t ↦ with_type tk t
]

cstring-word : (w tail : List ℕ) → Words w → cstring (w ++ 0 ∷ tail) ≡ w
unfolding cstring
cstring-word [] tail h = refl
cstring-word (c ∷ w) tail (h, more) =
    let t : (c == 0) ≡ false = ground arith in rw (t, cstring-word w tail more) refl

finish_id-word :
    (tk : Token) (pos : ℕ) (w tail : List ℕ)
    → Words w
    → finish_id tk pos (w ++ 0 ∷ tail) ≡ (true, word_token tk w (0 ∷ tail), pos)
unfolding finish_id key_word_type
finish_id-word tk pos w tail h =
    let same : key_word_type (w ++ 0 ∷ tail) ≡ find_word w key_words =
      ap (λ (x : List ℕ). find_word x key_words) (cstring-word w tail h) in
    elim (Option-cases (find_word w key_words)) [
      | inl e ↦ rw (finish_id, same, e) refl
      | inr (t, e) ↦ rw (finish_id, same, e) refl
    ]

-- A word, which starts with a letter or an underscore and runs up to a character that cannot stand in
-- one, is read whole: `next_token` returns the keyword's token if it is one, and else an identifier
-- with the word as its text, and goes on at the character that ended it. The word `primary` before a
-- space is left out.
pub next_token-word :
    (sql : List ℕ) (tk : Token) (pos l : ℕ) (ws : List ℕ) (c : ℕ) (rest : List ℕ)
    → drop pos sql ≡ l ∷ (ws ++ c ∷ rest)
    → starts_word l ≡ true
    → Words ws
    → is_word c ≡ false
    → (c == b' ' && is_prefix (l ∷ (ws ++ 0 ∷ []))) ≡ false
    → next_token sql tk pos ≡ (
      true,
      word_token tk (l ∷ ws) (if c == b' ' then 0 ∷ 0 ∷ [] else 0 ∷ []),
      pos + 1 + length ws,
    )
unfolding read_id
next_token-word sql tk pos l ws c rest e s more stop other =
    let word : is_word l ≡ true = ground arith in
    let run = id_loop-word ws c rest (pos + 1) (l ∷ []) more stop in
    next_token-read_id sql tk pos l (ws ++ c ∷ rest) e s ∙ elim (Bool-cases (c == b' ')) [
      | inl space ↦
          let plain : is_prefix (l ∷ (ws ++ 0 ∷ [])) ≡ false = rw space at other in
          let back : pos + 1 + length ws + 1 - 1 ≡ pos + 1 + length ws = omega arith in
          rw (drop-suc sql pos l (ws ++ c ∷ rest) e, run, space, plain, back)
            (finish_id-word tk (pos + 1 + length ws) (l ∷ ws) (0 ∷ []) (word, more))
      | inr sign ↦
          rw (drop-suc sql pos l (ws ++ c ∷ rest) e, run, sign)
            (finish_id-word tk (pos + 1 + length ws) (l ∷ ws) [] (word, more))
    ]

next_token_end :
    (sql : List ℕ) (tk : Token) (pos l : ℕ)
    → drop pos sql ≡ l ∷ []
    → is_letter l ≡ true
    → next_token sql tk pos ≡ (true, word_token tk (l ∷ []) (0 ∷ []), pos)
unfolding read_id id_loop
next_token_end sql tk pos l e s =
    let word : is_word l ≡ true = ground arith in
    let start : starts_word l ≡ true = ground arith in
    let back : pos + 1 - 1 ≡ pos = omega arith in
    next_token-read_id sql tk pos l [] e start
    ∙ rw (drop-suc sql pos l [] e, id_loop, back) (finish_id-word tk pos (l ∷ []) [] (word, tt))

scan_stuck :
    (sql : List ℕ) (pos l : ℕ)
    → drop pos sql ≡ l ∷ []
    → is_letter l ≡ true
    → (tk : Token) (fuel : ℕ) → scan fuel sql tk pos ≡ none
unfolding scan
scan_stuck sql pos l e s tk zero = refl
scan_stuck sql pos l e s tk (suc fuel) =
    let next = scan_stuck sql pos l e s (word_token tk (l ∷ []) (0 ∷ [])) fuel in
    rw (scan, next_token_end sql tk pos l e s, next) refl

-- At a letter that is the last character of the text, where a token starts, `next_token` returns the
-- token of this one letter and the same place, so a loop over the tokens that has come there does not end
-- on any fuel.
pub scan-never :
    (sql : List ℕ) (pos l : ℕ)
    → drop pos sql ≡ l ∷ []
    → is_letter l ≡ true
    → (tk : Token) (fuel : ℕ)
    → (next_token sql tk pos ≡ (true, word_token tk (l ∷ []) (0 ∷ []), pos))
      × (scan fuel sql tk pos ≡ none)
scan-never sql pos l e s tk fuel =
    (next_token_end sql tk pos l e s, scan_stuck sql pos l e s tk fuel)
