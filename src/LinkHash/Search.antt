-- ===== src/LinkHash/Search.antt =====
-- The loop of the index over the tuples of a table page: what it finds.
use dawn.Base.{
  ℕ, zero, suc, ◌+◌, ◌-◌, ◌<◌, ◌≤◌, ◌≡◌, ◌≢◌, refl, sym, ap, ◌∙◌, Bool, true, false, Bool-cases,
  Option, none, some, ltb, ◌==◌, ◌⊎◌, inl, inr, if◌then◌else◌, arith,
}
use dawn.Data.{Doubles, Value, value_eq}
use dawn.LinkHash.{find_in_page}
use dawn.Memory.{minus_one, add32, slt}
use dawn.Page.TablePage.{
  get_tuple, get_next_tuple_rid, get_the_first_tuple, find_used, get_tuple_offset, slots,
  is_missing,
}
use dawn.Page.{Page, Rid, invalid_rid, Tuple}
use dawn.Pool.Frames.{if_false}
use dawn.Schema.{Schema, get_value}

-- the place of a slot of a page
abbrev pub at_slot : Page → ℕ → Rid
at_slot p slot_num = record { page_id = p.page_id; slot_num = slot_num }

-- The reference: the first of the `left` slots from `slot_num` that holds a tuple with the key. `none`
-- is a tuple before it whose key is undefined.
unfoldable pub search : Doubles → Page → Schema → Value → Tuple → ℕ → ℕ → Option (Option Rid)
search doubles p tb_schema key_value spare zero slot_num = some none
search doubles p tb_schema key_value spare (suc left) slot_num =
    let rest = search doubles p tb_schema key_value spare left (slot_num + 1) in
    if get_tuple_offset p slot_num == 0
    then rest
    else elim (get_value (get_tuple p spare (at_slot p slot_num)).1 tb_schema tb_schema.key_idx) [
      | none ↦ none
      | some v ↦ if value_eq doubles key_value v then some (some (at_slot p slot_num)) else rest
    ]

slots-is_missing :
    (p : Page) (s : ℕ)
    → s < slots p
    → (get_tuple_offset p s == 0) ≡ false
    → (is_missing p s ≡ false) × (slots p < 2147483648)
unfolding slt
slots-is_missing p s small used = (rw used (ground arith), ground arith)

-- The tuple of a slot that is used does not depend on what it is read into.
get_tuple_used :
    (p : Page) (s : ℕ) (t u : Tuple)
    → is_missing p s ≡ false
    → (get_tuple p t (at_slot p s) ≡ get_tuple p u (at_slot p s))
      × ((get_tuple p t (at_slot p s)).1.rid ≡ at_slot p s)
unfolding get_tuple
get_tuple_used p s t u there = (
  if_false _ _ _ there ∙ sym (if_false _ _ _ there),
  ap (λ (r : Bool × Tuple). r.1.rid) (if_false _ _ _ there),
)

-- The walk from a slot of the page goes to the next slot that is used.
get_next_tuple_rid_used :
    (p : Page) (s left : ℕ) (next_rid : Rid)
    → p.page_id ≢ minus_one
    → s + suc left ≡ slots p
    → slots p < 2147483648
    → get_next_tuple_rid p (at_slot p s) next_rid ≡ (
        if ltb (find_used p left (s + 1) (slots p)) (slots p)
        then (true, at_slot p (find_used p left (s + 1) (slots p)))
        else (false, invalid_rid))
unfolding get_next_tuple_rid add32
get_next_tuple_rid_used p s left next_rid own width small =
    let valid : (p.page_id == minus_one) ≡ false = ground arith in
    let start : add32 s 1 ≡ s + 1 = omega arith in
    let rest : slots p - (s + 1) ≡ left = omega (arith, width) in
    if_false _ _ _ valid
    ∙ ap
        (λ k.
          if ltb (find_used p (slots p - k) k (slots p)) (slots p)
          then (true, at_slot p (find_used p (slots p - k) k (slots p)))
          else (false, invalid_rid))
        start
    ∙ rw rest refl

if_pair :
    {A B : Type 0} (c : Bool) (w v : Bool × A) (f : A → B) (z : B)
    → w.0 ≡ true
    → v.0 ≡ false
    → (if (if c then w else v).0 then f (if c then w else v).1 else z) ≡ (if c then f w.1 else z)
if_pair true w v f z first second = rw first refl
if_pair false w v f z first second = rw second refl

find_used_none : (p : Page) (s past : ℕ) → find_used p 0 s past ≡ past
unfolding find_used
find_used_none p s past = refl

find_used_later :
    (p : Page) (left s past : ℕ)
    → (get_tuple_offset p s == 0) ≡ true
    → find_used p (suc left) s past ≡ find_used p left (s + 1) past
unfolding find_used
find_used_later p left s past e = rw e refl

find_used_here :
    (p : Page) (left s past : ℕ)
    → (get_tuple_offset p s == 0) ≡ false
    → find_used p (suc left) s past ≡ s
unfolding find_used
find_used_here p left s past e = rw e refl

answer : Option (Bool × Tuple) → Bool × Tuple → Bool × Tuple
answer none q = q
answer (some q) _ = q

-- `get_the_first_tuple` by its two tests
abbrev first_by : Bool → Bool → Tuple → Tuple → Option (Bool × Tuple)
first_by inside allocates t spare =
    if inside then (if allocates then some (true, t) else none) else some (false, spare)

tests-cases :
    (inside allocates ok : Bool) (t spare cmp : Tuple)
    → first_by inside allocates t spare ≡ some (ok, cmp)
    → ((ok ≡ true) × (inside ≡ true) × (cmp.rid ≡ t.rid)) ⊎ ((ok ≡ false) × (inside ≡ false))
unfolding answer
tests-cases true true ok t spare cmp e =
    inl
      (ap (λ o. (answer o (ok, cmp)).0) (sym e), refl, ap (λ o. (answer o (ok, cmp)).1.rid) (sym e))
tests-cases true false ok t spare cmp e = absurd cc
tests-cases false allocates ok t spare cmp e = inr (ap (λ o. (answer o (ok, cmp)).0) (sym e), refl)

-- what the read of the first tuple says of the first slot that is used
get_the_first_tuple-cases :
    (p : Page) (spare cmp : Tuple) (ok : Bool)
    → get_the_first_tuple p spare ≡ some (ok, cmp)
    → ((ok ≡ true)
        × (ltb (find_used p (slots p) 0 (slots p)) (slots p) ≡ true)
        × (cmp.rid ≡ at_slot p (find_used p (slots p) 0 (slots p))))
      ⊎ ((ok ≡ false) × (ltb (find_used p (slots p) 0 (slots p)) (slots p) ≡ false))
unfolding get_the_first_tuple
get_the_first_tuple-cases p spare cmp ok first = tests-cases _ _ ok _ spare cmp first

pub if_true : {A : Type 0} (c : Bool) (x y : A) → c ≡ true → (if c then x else y) ≡ x
if_true c x y e = rw e refl

-- what the value of a tuple's key decides
abbrev judged : Doubles → Value → Rid → Option (Option Rid) → Option Value → Option (Option Rid)
judged doubles key_value rid rest none = none
judged doubles key_value rid rest (some v) =
    if value_eq doubles key_value v then some (some rid) else rest

module _ (doubles : Doubles) (p : Page) (tb_schema : Schema) (key_value : Value)
    (own : p.page_id ≢ minus_one) where
  -- what the loop finds from a slot on, by the first used slot from there
  abbrev Found : ℕ → ℕ → ℕ → Type 0
  Found left s next =
      (n : ℕ) (cmp spare : Tuple)
      → left ≤ n
      → (if ltb next (slots p)
          then find_in_page doubles n p tb_schema key_value cmp (at_slot p next)
          else some none)
        ≡ search doubles p tb_schema key_value spare left s

  -- One round at a slot that is used, when the rest is known.
  Found-here :
      (left s : ℕ)
      → s + suc left ≡ slots p
      → (get_tuple_offset p s == 0) ≡ false
      → Found left (s + 1) (find_used p left (s + 1) (slots p))
      → Found (suc left) s s
  unfolding find_in_page search
  Found-here left s width used rest zero cmp spare enough = absurd (omega (arith, enough))
  Found-here left s width used rest (suc n) cmp spare enough =
      let (there, small) = slots-is_missing p s (omega (arith, width)) used in
      let (same, place) = get_tuple_used p s cmp spare there in
      let inside : ltb s (slots p) ≡ true = ground arith in
      let next = get_next_tuple_rid_used p s left (at_slot p s) own width small in
      let more = rest n (get_tuple p cmp (at_slot p s)).1 spare (omega (arith, enough)) in
      let later = ap (λ i. get_next_tuple_rid p i (at_slot p s)) place ∙ next in
      let go : Bool × Rid → Option (Option Rid) = λ w.
        if w.0
        then find_in_page doubles n p tb_schema key_value (get_tuple p cmp (at_slot p s)).1 w.1
        else some none in
      let goes =
        ap go later
        ∙ if_pair _ _ _
            (λ (i : Rid).
              find_in_page doubles n p tb_schema key_value (get_tuple p cmp (at_slot p s)).1 i)
            (some none) refl refl
        ∙ more in
      let value : Bool × Tuple → Option Value = λ q. get_value q.1 tb_schema tb_schema.key_idx in
      if_true _ _ _ inside
      ∙ ap (λ w. judged doubles key_value (at_slot p s) w (value (get_tuple p cmp (at_slot p s))))
          goes
      ∙ ap
          (λ q.
            judged doubles key_value (at_slot p s)
              (search doubles p tb_schema key_value spare left (s + 1)) (value q))
          same
      ∙ sym (if_false _ _ _ used)

  finds : (left s : ℕ) → s + left ≡ slots p → Found left s (find_used p left s (slots p))
  unfolding search
  finds zero s width n cmp spare enough =
      let past : ltb (slots p) (slots p) ≡ false = ground arith in
      rw (find_used_none p s (slots p)) (if_false _ _ _ past)
  finds (suc left) s width n cmp spare enough =
      let rest = finds left (s + 1) (omega (arith, width)) in
      elim (Bool-cases (get_tuple_offset p s == 0)) [
        | inl e ↦
            rw (find_used_later p left s (slots p) e)
              (rest n cmp spare (omega (arith, enough)) ∙ sym (if_true _ _ _ e))
        | inr e ↦
            rw (find_used_here p left s (slots p) e)
              (Found-here left s width e rest n cmp spare enough)
      ]

  -- From the first tuple of a page, which is there, the index's loop finds what the search over all the
  -- slots finds, and as many rounds as the page has slots are enough. A page without a first tuple has
  -- nothing to find.
  pub find_in_page-search :
      (spare cmp : Tuple) (some_tuple : Bool)
      → get_the_first_tuple p spare ≡ some (some_tuple, cmp)
      → (if some_tuple
          then find_in_page doubles (slots p) p tb_schema key_value cmp cmp.rid
          else some none)
        ≡ search doubles p tb_schema key_value spare (slots p) 0
  find_in_page-search spare cmp some_tuple first =
      elim (get_the_first_tuple-cases p spare cmp some_tuple first) [
        | inl (yes_there, inside, place) ↦ rw yes_there (
            ap (λ i. find_in_page doubles (slots p) p tb_schema key_value cmp i) place
            ∙ sym (if_true _ _ _ inside)
            ∙ finds (slots p) 0 (omega arith) (slots p) cmp spare (omega arith))
        | inr (not_there, outside) ↦ rw not_there (
            sym (if_false _ _ _ outside)
            ∙ finds (slots p) 0 (omega arith) (slots p) cmp spare (omega arith))
      ]
