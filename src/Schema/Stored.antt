-- ===== src/Schema/Stored.antt =====
-- The values of a row come back from the tuple that `init` builds of them.
use dawn.Base.{
  ℕ, zero, suc, ◌+◌, ◌≤◌, ◌<◌, ◌≡◌, ◌⊎◌, inl, refl, ◌∙◌, ap, true, some, List, [], ◌∷◌, ◌++◌,
  length, arith, get_elem?, replicate,
}
use dawn.Data.Bytes.{cstring, copy_into}
use dawn.Data.{
  TypeId, invalid, boolean, integer, decimal, char, Value, serialized_size, of_storage,
  deserialize_from,
}
use dawn.Memory.{Memory, memcpy, memcpy_outside, minus_one}
use dawn.Page.TablePage.Layout.{load-congr, get_or-load}
use dawn.Page.TablePage.{load}
use dawn.Page.{Tuple, Rid}
use dawn.Schema.Layout.{Laid, Sized, room}
use dawn.Schema.{
  Column, Schema, get_data_size, set_column, set_columns, get_column, get_value, init, memory_of,
}
use dawn.Schema.Strings.{
  pad, pad_whole, load-memcpy-pad, cstring-tmp, content, FitsType, Fits, Holds, copy_whole,
  ended_lem, cstring_read,
}

-- a column and a value of the type `t`, field by field
abbrev column_of : TypeId → List ℕ → ℕ → ℕ → ℕ → Column
column_of t name o f l = record {
  column_type = t;
  column_name = name;
  offset = o;
  fixed_length = f;
  char_length = l;
}

abbrev value_of : TypeId → List ℕ → ℕ → Value
value_of t bs n = record { type_id = t; bytes = bs; str_len = n }

module _ (name : List ℕ) (o f l : ℕ) where
  column-congr :
      (t : TypeId) (m m' : Memory)
      → Sized t f
      → ((x : ℕ) → o ≤ x → x < o + get_data_size (column_of t name o f l) → m x ≡ m' x)
      → get_column m (column_of t name o f l) ≡ get_column m' (column_of t name o f l)
  unfolding get_column
  column-congr char m m' z h = rw (load-congr m m' o l h)
  column-congr invalid m m' z h =
      ap (λ (src : List ℕ). of_storage src invalid minus_one)
        (load-congr m m' o minus_one (λ x a b. h x a (omega arith)))
  column-congr boolean m m' z h =
      ap (λ (src : List ℕ). of_storage src boolean minus_one)
        (load-congr m m' o 1 (λ x a b. h x a (omega arith)))
  column-congr integer m m' z h =
      ap (λ (src : List ℕ). of_storage src integer minus_one)
        (load-congr m m' o 4 (λ x a b. h x a (omega arith)))
  column-congr decimal m m' z h =
      ap (λ (src : List ℕ). of_storage src decimal minus_one)
        (load-congr m m' o 8 (λ x a b. h x a (omega arith)))

  module _ (junk : List ℕ) (m : Memory) (bs : List ℕ) (n : ℕ) where
    abbrev Set : TypeId → Type 0
    Set t =
        (m' : Memory) × (set_column junk m (column_of t name o f l) (value_of t bs n) ≡ some m')
        × ((x : ℕ) → (x < o) ⊎ (o + get_data_size (column_of t name o f l) ≤ x) → m' x ≡ m x)
        × Holds (column_of t name o f l) (value_of t bs n) m'

    fixed_content : (k : ℕ) → length bs ≡ k → copy_into [] (load (memcpy m o bs k) o k) k ≡ bs
    fixed_content k e = rw (load-memcpy-pad m o k bs, pad_whole k bs e) (copy_whole k bs e)

    column-Set : (t : TypeId) → Sized t f → FitsType t l bs → Set t
    unfolding set_column get_column serialized_size of_storage deserialize_from
    column-Set invalid z fit = absurd fit
    column-Set boolean z fit = (
      memcpy m o bs 1,
      refl,
      λ x h. memcpy_outside m o bs 1 x (rw z at h),
      (
        value_of boolean (copy_into [] (load (memcpy m o bs 1) o 1) 1) minus_one,
        refl,
        refl,
        fixed_content 1 fit,
      ),
    )
    column-Set integer z fit = (
      memcpy m o bs 4,
      refl,
      λ x h. memcpy_outside m o bs 4 x (rw z at h),
      (
        value_of integer (copy_into [] (load (memcpy m o bs 4) o 4) 4) minus_one,
        refl,
        refl,
        fixed_content 4 fit,
      ),
    )
    column-Set decimal z fit = (
      memcpy m o bs 8,
      refl,
      λ x h. memcpy_outside m o bs 8 x (rw z at h),
      (
        value_of decimal (copy_into [] (load (memcpy m o bs 8) o 8) 8) minus_one,
        refl,
        refl,
        fixed_content 8 fit,
      ),
    )
    column-Set char z (short, ended) =
        let count : length (cstring bs) + 1 ≡ suc (length (cstring bs)) = omega arith in
        let tmp = copy_into junk bs (length (cstring bs) + 1) in
        let src = load (memcpy m o tmp l) o l ++ 0 ∷ [] in
        let back : src ≡ pad l tmp ++ 0 ∷ [] = rw (load-memcpy-pad m o l tmp) refl in
        let same : cstring src ≡ cstring bs =
          ap cstring back ∙ rw count (cstring-tmp l junk bs short ended) in
        (
          memcpy m o tmp l,
          refl,
          λ x h. memcpy_outside m o tmp l x h,
          (
            value_of char (copy_into (replicate (l + 1) 0) src (length (cstring src) + 1)) l,
            refl,
            refl,
            cstring_read (replicate (l + 1) 0) src (ended_lem _) ∙ same,
          ),
        )

get_column-congr :
    (m m' : Memory) (c : Column)
    → Sized c.column_type c.fixed_length
    → ((x : ℕ) → c.offset ≤ x → x < c.offset + get_data_size c → m x ≡ m' x)
    → get_column m c ≡ get_column m' c
get_column-congr m m' c z h =
    column-congr c.column_name c.offset c.fixed_length c.char_length c.column_type m m' z h

set_column-Holds :
    (junk : List ℕ) (m : Memory) (c : Column) (v : Value)
    → Sized c.column_type c.fixed_length
    → Fits c v
    → (m' : Memory) × (set_column junk m c v ≡ some m')
      × ((x : ℕ) → (x < c.offset) ⊎ (c.offset + get_data_size c ≤ x) → m' x ≡ m x)
      × Holds c v m'
set_column-Holds junk m c v z (t, f) = rw t (
    column-Set c.column_name c.offset c.fixed_length c.char_length junk m v.bytes v.str_len
      c.column_type z f)

abbrev pub HoldsAll : List Column → List Value → Memory → Type 0
HoldsAll [] vs m = Unit {0}
HoldsAll (c ∷ cs) [] m = ⊥
HoldsAll (c ∷ cs) (v ∷ vs) m = Holds c v m × HoldsAll cs vs m

-- a value for each column
abbrev pub FitsAll : List Column → List Value → Type 0
FitsAll [] vs = Unit {0}
FitsAll (c ∷ cs) [] = ⊥
FitsAll (c ∷ cs) (v ∷ vs) = Fits c v × FitsAll cs vs

Holds-congr :
    (c : Column) (v : Value) (m m' : Memory)
    → Sized c.column_type c.fixed_length
    → ((x : ℕ) → c.offset ≤ x → x < c.offset + get_data_size c → m' x ≡ m x)
    → Holds c v m
    → Holds c v m'
Holds-congr c v m m' z h (w, e, t, same) = (w, get_column-congr m' m c z h ∙ e, t, same)

HoldsAll-congr :
    (cs : List Column) (vs : List Value) (lo : ℕ) (m m' : Memory)
    → Laid lo cs
    → ((x : ℕ) → lo ≤ x → x < lo + room cs → m' x ≡ m x)
    → HoldsAll cs vs m
    → HoldsAll cs vs m'
HoldsAll-congr [] vs lo m m' laid h a = tt
HoldsAll-congr (c ∷ cs) [] lo m m' laid h a = absurd a
HoldsAll-congr (c ∷ cs) (v ∷ vs) lo m m' (at, z, laid) h (one, a) = (
  Holds-congr c v m m' z (λ x a b. h x (omega arith) (omega arith)) one,
  HoldsAll-congr cs vs (lo + get_data_size c) m m' laid (λ x a b. h x (omega arith) (omega arith))
      a,
)

-- what the loop of `init` leaves
set_columns-HoldsAll :
    (junk : ℕ → List ℕ) (cs : List Column) (vs : List Value) (lo : ℕ) (m : Memory)
    → Laid lo cs
    → FitsAll cs vs
    → (m' : Memory) × (set_columns junk cs vs m ≡ some m')
      × ((x : ℕ) → x < lo → m' x ≡ m x)
      × HoldsAll cs vs m'
unfolding set_columns
set_columns-HoldsAll junk [] vs lo m laid f = (m, refl, λ x h. refl, tt)
set_columns-HoldsAll junk (c ∷ cs) [] lo m laid f = absurd f
set_columns-HoldsAll junk (c ∷ cs) (v ∷ vs) lo m (at, z, laid) (one, f) =
    let (m₁, set, kept, holds) = set_column-Holds (junk c.offset) m c v z one in
    let (m₂, run, below, all) = set_columns-HoldsAll junk cs vs (lo + get_data_size c) m₁ laid f in
    (
      m₂,
      rw (set_columns, set) run,
      λ x h. below x (omega arith) ∙ kept x (inl (omega arith)),
      (Holds-congr c v m₁ m₂ z (λ x a b. below x (omega arith)) holds, all),
    )

HoldsAll-at :
    (cs : List Column) (vs : List Value) (i : ℕ) (m : Memory) (c : Column) (v : Value)
    → HoldsAll cs vs m
    → get_elem? cs i ≡ some c
    → get_elem? vs i ≡ some v
    → Holds c v m
HoldsAll-at [] vs i m c v a e f = cc
HoldsAll-at (c' ∷ cs) [] i m c v a e f = absurd a
HoldsAll-at (c' ∷ cs) (v' ∷ vs) zero m c v a e f =
    let col : c' ≡ c = cc in let val : v' ≡ v = cc in rw (← col, ← val) a.0
HoldsAll-at (c' ∷ cs) (v' ∷ vs) (suc i) m c v a e f = HoldsAll-at cs vs i m c v a.1 e f

-- Reading back a row: for a schema whose columns lie one behind the other from 0 and fill its tuple
-- size, `init` with a value for each column, of the column's type and for a string not longer than
-- the column, makes a tuple of that size; `get_value` at a column then returns a value of the same
-- type with the same bytes, or the same string.
pub get_value-init :
    (junk : ℕ → List ℕ) (fresh : Memory) (rid : Rid) (values : List Value) (s : Schema) (i : ℕ)
    {c : Column} {v : Value}
    → Laid 0 s.columns
    → s.length_ ≡ room s.columns
    → FitsAll s.columns values
    → get_elem? s.columns i ≡ some c
    → get_elem? values i ≡ some v
    → (t : Tuple) × (w : Value) × (init junk fresh rid values s ≡ some t)
      × (t.size ≡ s.length_)
      × (get_value t s i ≡ some w)
      × (w.type_id ≡ v.type_id)
      × (content w ≡ content v)
unfolding init get_value
get_value-init junk fresh rid values s i {c} {v} laid full fits ec ev =
    let (m, run, _, all) = set_columns-HoldsAll junk s.columns values 0 fresh laid fits in
    let t : Tuple = record {
      allocated = true;
      rid = rid;
      size = s.length_;
      bytes = load m 0 s.length_;
    } in
    let back =
      HoldsAll-congr s.columns values 0 m (memory_of t) laid
        (λ x a b. get_or-load m 0 s.length_ x (omega arith) ∙ ap m (omega arith)) all in
    let (w, got, ty, same) = HoldsAll-at s.columns values i (memory_of t) c v back ec ev in
    (t, w, rw (init, run) refl, refl, rw (get_value, ec) got, ty, same)
