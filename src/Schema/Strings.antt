-- ===== src/Schema/Strings.antt =====
-- Bytes of a value on their way into a tuple and back.
use dawn.Base.{
  ℕ, zero, suc, ◌+◌, ◌-◌, ◌≤◌, ◌<◌, ◌≡◌, inl, inr, refl, ap, true, some, List, [], ◌∷◌, ◌++◌, ◌==◌,
  if◌then◌else◌, length, arith, Bool-cases, get_or,
}
use dawn.Data.Bytes.{cstring, copy_into}
use dawn.Data.{TypeId, invalid, boolean, integer, decimal, char, same_type, Value}
use dawn.Memory.{Memory, memcpy, inside}
use dawn.Page.TablePage.{load}
use dawn.Schema.{Column, get_column}

-- the first `n` bytes of a buffer
abbrev pub pad : ℕ → List ℕ → List ℕ
pad zero bs = []
pad (suc n) [] = 0 ∷ pad n []
pad (suc n) (b ∷ bs) = b ∷ pad n bs

pub pad_whole : (n : ℕ) (bs : List ℕ) → length bs ≡ n → pad n bs ≡ bs
pad_whole zero [] e = refl
pad_whole zero (b ∷ bs) e = absurd (omega arith)
pad_whole (suc n) [] e = absurd (omega arith)
pad_whole (suc n) (b ∷ bs) e = ap (λ (l : List ℕ). b ∷ l) (pad_whole n bs (omega arith))

load-eq-pad :
    (m : Memory) (at n : ℕ) (bs : List ℕ)
    → ((i : ℕ) → i < n → m (at + i) ≡ get_or bs i 0)
    → load m at n ≡ pad n bs
unfolding load
load-eq-pad m at zero bs h = refl
load-eq-pad m at (suc n) [] h =
    let here : at + 0 ≡ at = omega arith in
    let first : m at ≡ 0 = rw here at (h 0 (omega arith)) in
    let shift : (i : ℕ) → at + suc i ≡ at + 1 + i = λ i. omega arith in
    cc (first, load-eq-pad m (at + 1) n [] (λ i l. rw (shift i) at (h (suc i) (omega arith))))
load-eq-pad m at (suc n) (b ∷ bs) h =
    let here : at + 0 ≡ at = omega arith in
    let first : m at ≡ b = rw here at (h 0 (omega arith)) in
    let shift : (i : ℕ) → at + suc i ≡ at + 1 + i = λ i. omega arith in
    cc (first, load-eq-pad m (at + 1) n bs (λ i l. rw (shift i) at (h (suc i) (omega arith))))

pub load-memcpy-pad : (m : Memory) (f n : ℕ) (bs : List ℕ) → load (memcpy m f bs n) f n ≡ pad n bs
unfolding memcpy
load-memcpy-pad m f n bs = load-eq-pad _ f n bs (λ i h.
    let within : inside f n (f + i) ≡ true = ground arith in
    let back : f + i - f ≡ i = omega arith in rw (within, back) refl)

-- a C string goes through a `tmp` of `n` bytes and an end
pub cstring-tmp :
    (n : ℕ) (junk bs : List ℕ)
    → length (cstring bs) ≤ n
    → length (cstring bs) < length bs
    → cstring (pad n (copy_into junk bs (suc (length (cstring bs)))) ++ 0 ∷ []) ≡ cstring bs
unfolding cstring copy_into
cstring-tmp n junk [] h e = absurd (omega arith)
cstring-tmp zero junk (b ∷ bs) h e = elim (Bool-cases (b == 0)) [
  | inl stop ↦ rw stop
  | inr go ↦ let none_fits = rw go at h in absurd (omega arith)
]
cstring-tmp (suc n) [] (b ∷ bs) h e = elim (Bool-cases (b == 0)) [
  | inl stop ↦ rw stop
  | inr go ↦
      let fits = rw go at h in
      let ended = rw go at e in
      rw go (ap (λ (l : List ℕ). b ∷ l) (cstring-tmp n [] bs (omega arith) (omega arith)))
]
cstring-tmp (suc n) (j ∷ junk) (b ∷ bs) h e = elim (Bool-cases (b == 0)) [
  | inl stop ↦ rw stop
  | inr go ↦
      let fits = rw go at h in
      let ended = rw go at e in
      rw go (ap (λ (l : List ℕ). b ∷ l) (cstring-tmp n junk bs (omega arith) (omega arith)))
]

cstring-copy_into :
    (dst src : List ℕ)
    → length (cstring src) < length src
    → cstring (copy_into dst src (suc (length (cstring src)))) ≡ cstring src
unfolding cstring copy_into
cstring-copy_into dst [] e = absurd (omega arith)
cstring-copy_into [] (s ∷ src) e = elim (Bool-cases (s == 0)) [
  | inl stop ↦ rw stop
  | inr go ↦
      let short = rw go at e in
      rw go (ap (λ (l : List ℕ). s ∷ l) (cstring-copy_into [] src (omega arith)))
]
cstring-copy_into (d ∷ dst) (s ∷ src) e = elim (Bool-cases (s == 0)) [
  | inl stop ↦ rw stop
  | inr go ↦
      let short = rw go at e in
      rw go (ap (λ (l : List ℕ). s ∷ l) (cstring-copy_into dst src (omega arith)))
]

abbrev pub content : Value → List ℕ
content v = if same_type v.type_id char then cstring v.bytes else v.bytes

-- the value has the column's type; a string ends within its array, and is not longer than the column
abbrev pub FitsType : TypeId → ℕ → List ℕ → Type 0
FitsType invalid l bs = ⊥
FitsType boolean l bs = length bs ≡ 1
FitsType integer l bs = length bs ≡ 4
FitsType decimal l bs = length bs ≡ 8
FitsType char l bs = (length (cstring bs) ≤ l) × (length (cstring bs) < length bs)

abbrev pub Fits : Column → Value → Type 0
Fits c v = (v.type_id ≡ c.column_type) × FitsType c.column_type c.char_length v.bytes

-- the column reads back as the value
abbrev pub Holds : Column → Value → Memory → Type 0
Holds c v m =
    (w : Value) × (get_column m c ≡ some w) × (w.type_id ≡ v.type_id) × (content w ≡ content v)

pub copy_whole : (n : ℕ) (bs : List ℕ) → length bs ≡ n → copy_into [] bs n ≡ bs
unfolding copy_into
copy_whole zero [] e = refl
copy_whole zero (b ∷ bs) e = absurd (omega arith)
copy_whole (suc n) [] e = absurd (omega arith)
copy_whole (suc n) (b ∷ bs) e = ap (λ (l : List ℕ). b ∷ l) (copy_whole n bs (omega arith))

-- an array with an end behind it is longer than its string
pub ended_lem : (bs : List ℕ) → length (cstring (bs ++ 0 ∷ [])) < length (bs ++ 0 ∷ [])
unfolding cstring
ended_lem [] = omega arith
ended_lem (b ∷ bs) = ground (arith, ended_lem bs)

pub cstring_read :
    (dst src : List ℕ)
    → length (cstring src) < length src
    → cstring (copy_into dst src (length (cstring src) + 1)) ≡ cstring src
cstring_read dst src h =
    let count : length (cstring src) + 1 ≡ suc (length (cstring src)) = omega arith in
    rw count (cstring-copy_into dst src h)
