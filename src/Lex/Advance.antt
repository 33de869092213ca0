-- ===== src/Lex/Advance.antt =====
-- On a text that ends in `;` every token moves the scanner on, so the loop over the tokens ends.
use dawn.Base.{
  ℕ, zero, suc, ◌+◌, ◌-◌, ◌≤◌, ◌<◌, ◌≡◌, ◌≢◌, ◌⊎◌, inl, inr, refl, ap, Bool, true, false, ◌||◌,
  some, List, [], ◌∷◌, ◌==◌, if◌then◌else◌, drop, length, arith, Bool-cases, length-drop,
}
use dawn.Lex.Words.{drop-suc}
use dawn.Lex.{
  Outcome, Token, is_letter, is_digit, read_id, read_number, next_token, skip_blank, after_back,
  next_is_equal, scan,
}
use dawn.Lex.Places.{
  Closed, Closed-tail, Closed-drop, place, cons-cases, read_string-place, closed, read_id-place,
  read_number-place,
}

-- the character that `skip_blank` stops at has been read, or there is none
skip_blank-cases :
    (sql : List ℕ) (pos : ℕ) (left : List ℕ)
    → drop pos sql ≡ left
    → let (c, at) = skip_blank left pos in
      (c ≡ 0) ⊎ ((pos < at) × (at ≤ length sql) × (Closed left → Closed (c ∷ drop at sql)))
unfolding skip_blank
skip_blank-cases sql pos [] e = inl refl
skip_blank-cases sql pos (c ∷ rest) e =
    let n = ap length e in
    let size = length-drop pos sql in
    let next = drop-suc sql pos c rest e in
    elim (Bool-cases (c == b' ' || c == 10)) [
      | inr stop ↦ rw stop (inr (omega arith, omega (arith, n, size), λ h. rw (← next) at h))
      | inl blank ↦ rw blank (elim (skip_blank-cases sql (pos + 1) rest next) [
        | inl z ↦ inl z
        | inr (lo, hi, closed) ↦ inr (omega (arith, lo), hi, λ h. closed (Closed-tail c rest h))
      ])
    ]

-- a token is returned only with a move on from `pos`, and not past the end
record Good (sql : List ℕ) (pos : ℕ) (o : Outcome) : Type 0 where
  moves : o.0 ≡ true → (pos < place o) × (place o ≤ length sql)

if-Good :
    {sql : List ℕ} {pos : ℕ} (b : Bool) (x y : Outcome)
    → (b ≡ true → Good sql pos x)
    → (b ≡ false → Good sql pos y)
    → Good sql pos (if b then x else y)
if-Good true x y f g = f refl
if-Good false x y f g = g refl

fails-Good : {sql : List ℕ} {pos : ℕ} (tk : Token) (at : ℕ) → Good sql pos (false, tk, at)
fails-Good tk at = record { moves = λ e. cc }

reads-Good :
    {sql : List ℕ} {pos : ℕ} (o : Outcome) → pos < place o → place o ≤ length sql → Good sql pos o
reads-Good o lo hi = record { moves = λ _. (lo, hi) }

after_back-place :
    (sql : List ℕ) (at c : ℕ)
    → Closed (c ∷ drop at sql)
    → c ≢ b';'
    → after_back (drop at sql) at ≡ at
after_back-place sql at c closed ne = elim (cons-cases (drop at sql)) [
  | inl none_left ↦ absurd (ne (rw none_left at closed))
  | inr (d, rest, left) ↦ rw left refl
]

next_is_equal-place :
    (sql : List ℕ) (at : ℕ) → next_is_equal (drop at sql) ≡ true → at + 1 ≤ length sql
next_is_equal-place sql at e = elim (cons-cases (drop at sql)) [
  | inl none_left ↦ (let f : false ≡ true = rw none_left at e in cc)
  | inr (d, rest, left) ↦ omega (arith, ap length left, length-drop at sql)
]

-- what stands behind a character that is not the last
word-Good :
    (sql : List ℕ) (tk : Token) (pos c at : ℕ)
    → Closed sql
    → pos < at
    → Closed (c ∷ drop at sql)
    → c ≢ b';'
    → Good sql pos (read_id sql tk c at) × Good sql pos (read_number sql tk c at)
word-Good sql tk pos c at shut lo end ne = elim (cons-cases (drop at sql)) [
  | inl none_left ↦ absurd (ne (rw none_left at end))
  | inr (d, rest, left) ↦
      let (a, b) = read_id-place sql tk c at d rest left shut in
      let (a', b') = read_number-place sql tk c at d rest left shut in
      (reads-Good _ (omega (arith, a, lo)) b, reads-Good _ (omega (arith, a', lo)) b')
]

equal-Good :
    (sql : List ℕ) (tk a b : Token) (pos c at : ℕ)
    → pos < at
    → at ≤ length sql
    → Closed (c ∷ drop at sql)
    → c ≢ b';'
    → Good sql pos (
        if next_is_equal (drop at sql)
        then (true, a, at + 1)
        else (true, b, after_back (drop at sql) at))
equal-Good sql tk a b pos c at lo hi end ne =
    let back = after_back-place sql at c end ne in
    if-Good (next_is_equal (drop at sql)) _ _
      (λ e. reads-Good _ (omega arith) (next_is_equal-place sql at e))
      (λ _. reads-Good _ (omega (arith, back)) (omega (arith, back)))

next_token-Good :
    (sql : List ℕ) (tk : Token) (pos : ℕ) → Closed sql → Good sql pos (next_token sql tk pos)
unfolding next_token
next_token-Good sql tk pos shut =
    let (c, at) = skip_blank (drop pos sql) pos in
    elim (skip_blank-cases sql pos (drop pos sql) refl) [
      | inl z ↦
          if-Good (c == 0) _ _ (λ _. fails-Good tk at)
            (λ nz. let bad : true ≡ false = rw z at nz in cc)
      | inr (lo, hi, ends) ↦
          let end = ends (Closed-drop pos sql shut) in
          let one = λ (o : Outcome) (e : place o ≡ at).
            reads-Good {sql = sql} {pos = pos} o (omega (arith, lo, e)) (omega (arith, hi, e)) in
          if-Good (c == 0) _ _ (λ _. fails-Good tk at)
            λ _.
              if-Good (c == b'(') _ _ (λ _. one _ refl)
                λ _.
                  if-Good (c == b')') _ _ (λ _. one _ refl)
                    λ _.
                      if-Good (c == b';') _ _ (λ _. one _ refl)
                        λ not_semi.
                          let ne : c ≢ b';' = ground arith in
                          if-Good (c == b',') _ _ (λ _. one _ refl)
                            λ _.
                              if-Good (c == b'<') _ _
                                (λ _. equal-Good sql tk _ _ pos c at lo hi end ne)
                                λ _.
                                  if-Good (c == b'>') _ _
                                    (λ _. equal-Good sql tk _ _ pos c at lo hi end ne)
                                    λ _.
                                      if-Good (c == b'*') _ _ (λ _. one _ refl)
                                        λ _.
                                          if-Good (c == b'=') _ _ (λ _. one _ refl)
                                            λ _.
                                              if-Good (c == b'"' || c == 39) _ _
                                                (λ _.
                                                  let (a, b) = read_string-place sql tk at hi in
                                                  reads-Good _ (omega (arith, lo, a)) b)
                                                λ _.
                                                  if-Good (is_letter c || c == b'_') _ _
                                                    (λ _.
                                                      (word-Good sql tk pos c at shut lo end ne).0)
                                                    λ _.
                                                      if-Good (is_digit c) _ _
                                                        (λ _.
                                                          (word-Good sql tk pos c at shut lo end
                                                            ne).1)
                                                        λ _. fails-Good tk at
    ]

-- On a text that ends in `;`, a call of `next_token` that returns a token has moved on, and not past
-- the end.
next_token_advances :
    (sql : List ℕ) (tk : Token) (pos : ℕ)
    → Closed sql
    → (next_token sql tk pos).0 ≡ true
    → (pos < (next_token sql tk pos).2) × ((next_token sql tk pos).2 ≤ length sql)
next_token_advances sql tk pos shut = (next_token-Good sql tk pos shut).moves

Outcome-cases : (o : Outcome) → (o ≡ (false, o.1, o.2)) ⊎ ((o ≡ (true, o.1, o.2)) × (o.0 ≡ true))
Outcome-cases (true, tk, pos) = inr (refl, refl)
Outcome-cases (false, tk, pos) = inl refl

-- The loop of `sql_execute` over the tokens ends on every text that ends in `;`, from every place:
-- one call for each character that is left, and one more, are enough, and it hands over at most one
-- token for each character.
pub scan_ends :
    (fuel : ℕ) (sql : List ℕ) (tk : Token) (pos : ℕ)
    → Closed sql
    → length sql - pos < fuel
    → (ts : List Token) × (scan fuel sql tk pos ≡ some ts) × (length ts ≤ length sql - pos)
unfolding scan
scan_ends zero sql tk pos shut h = absurd (omega arith)
scan_ends (suc fuel) sql tk pos shut h =
    let o = next_token sql tk pos in
    elim (Outcome-cases o) [
      | inl stop ↦ ([], rw (scan, stop) refl, omega arith)
      | inr (go, ok) ↦
          let (lo, hi) = next_token_advances sql tk pos shut ok in
          let (ts, run, few) = scan_ends fuel sql o.1 o.2 shut (omega (arith, lo, hi)) in
          (o.1 ∷ ts, rw (scan, go, run) refl, omega (arith, few, lo, hi))
    ]
