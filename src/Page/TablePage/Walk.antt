-- ===== src/Page/TablePage/Walk.antt =====
-- `get_next_tuple_rid`: the walk over the used slots of a page.
use dawn.Base.{
  ℕ, zero, suc, ◌+◌, ◌-◌, ◌≤◌, ◌<◌, ◌≡◌, ◌≢◌, ◌⊎◌, inl, inr, refl, true, false, none, ltb, ◌==◌,
  if◌then◌else◌, arith, Bool-cases, ℕ_discrete, dec_lt, lt→ltb,
}
use dawn.Memory.{minus_one, add32, add32_small}
use dawn.Page.TablePage.Layout.{cnt, off, record_offset_lem}
use dawn.Page.TablePage.View.{IsValid, view, view_lem, view_unused, count-le, slots_lem}
use dawn.Page.TablePage.{find_used, get_next_tuple_rid}
use dawn.Page.{Page, Rid, invalid_rid}

-- the slot from which the walk goes on
abbrev pub start_of : Rid → ℕ
start_of cur = if cur.page_id == minus_one then 0 else cur.slot_num + 1

view_taken : (p : Page) (k : ℕ) → k < cnt p.data_ → off p.data_ k ≢ 0 → view p.data_ k ≢ none
view_taken p k lt u e = let e' = rw (view_lem p.data_ k lt u) at e in cc

find_used-cases :
    (p : Page) (left s past : ℕ)
    → s + left ≤ cnt p.data_
    → cnt p.data_ ≤ 494
    → (((s ≤ find_used p left s past)
          × (find_used p left s past < s + left)
          × view p.data_ (find_used p left s past) ≢ none)
        ⊎ (find_used p left s past ≡ past
            × ((j : ℕ) → s ≤ j → j < s + left → view p.data_ j ≡ none)))
      × ((j : ℕ) → s ≤ j → j < s + left → j < find_used p left s past → view p.data_ j ≡ none)
unfolding find_used
find_used-cases p zero s past h small = (
  inr (refl, λ j lo hi. absurd (omega (arith, lo, hi))),
  λ j lo hi _. absurd (omega (arith, lo, hi)),
)
find_used-cases p (suc left) s past h small = elim (ℕ_discrete (off p.data_ s) 0) [
  | no u ↦
      let t : (off p.data_ s == 0) ≡ false = ground arith in
      rw (record_offset_lem s (omega arith), t)
        (
          inl (omega arith, omega arith, view_taken p s (omega arith) u),
          λ j lo hi b. absurd (omega (arith, lo, b)),
        )
  | yes e ↦
      let here : view p.data_ s ≡ none = view_unused p.data_ s (inr e) in
      let (out, before) = find_used-cases p left (s + 1) past (omega arith) small in
      rw (record_offset_lem s (omega arith), e)
        (
          elim out [
            | inl (lo, hi, got) ↦ inl (omega arith, omega arith, got)
            | inr (same, all) ↦ inr (
              same,
              λ j lo hi. elim (ℕ_discrete j s) [
                | yes e' ↦ rw e' here
                | no ne ↦ all j (omega arith) (omega arith)
              ],
            )
          ],
          λ j lo hi b. elim (ℕ_discrete j s) [
            | yes e' ↦ rw e' here
            | no ne ↦ before j (omega arith) (omega arith) b
          ],
        )
]

-- the slot that the walk finds from `s` on, which is the number of slots if there is none
walk : Page → ℕ → ℕ
unfolding find_used
walk p s = find_used p (cnt p.data_ - s) s (cnt p.data_)

walk_first : (p : Page) → find_used p (cnt p.data_) 0 (cnt p.data_) ≡ walk p 0
unfolding walk
walk_first p = let all : cnt p.data_ - 0 ≡ cnt p.data_ = omega arith in rw all refl

walk_later : (p : Page) (s : ℕ) → find_used p (cnt p.data_ - s) s (cnt p.data_) ≡ walk p s
unfolding walk
walk_later p s = refl

walk-cases :
    (p : Page)
    → IsValid p
    → (s : ℕ)
    → ((ltb (walk p s) (cnt p.data_) ≡ true)
        × (s ≤ walk p s)
        × (view p.data_ (walk p s) ≢ none)
        × ((j : ℕ) → s ≤ j → j < walk p s → view p.data_ j ≡ none))
      ⊎ ((ltb (walk p s) (cnt p.data_) ≡ false) × ((j : ℕ) → s ≤ j → view p.data_ j ≡ none))
unfolding walk
walk-cases p v s = elim (dec_lt (cnt p.data_) s) [
  | yes over ↦
      let left : cnt p.data_ - s ≡ 0 = omega arith in
      rw left (inr (ground arith, λ j lo. view_unused p.data_ j (inl (omega arith))))
  | no within ↦
      let (out, before) =
        find_used-cases p (cnt p.data_ - s) s (cnt p.data_) (omega arith) (count-le p v) in
      elim out [
        | inl (lo, hi, got) ↦
            inl (lt→ltb _ _ (omega arith), lo, got, λ j a b. before j a (omega arith) b)
        | inr (same, all) ↦ inr (
          rw same (ground arith),
          λ j lo. elim (dec_lt j (cnt p.data_)) [
            | yes lt ↦ all j lo (omega arith)
            | no past ↦ view_unused p.data_ j (inl (omega arith))
          ],
        )
      ]
]

next_small :
    (cur : Rid)
    → (cur.page_id == minus_one) ≡ false
    → ((cur.page_id ≡ minus_one) ⊎ (cur.slot_num < 500))
    → add32 cur.slot_num 1 ≡ cur.slot_num + 1
next_small cur later (inl first) = absurd (ground arith)
next_small cur later (inr h) = add32_small cur.slot_num 1 (omega arith)

-- On a valid page `get_next_tuple_rid` returns the first used slot after the current RID's, whose slot
-- number is below 500, or the first used slot of all if the current RID has no page, whatever its slot
-- number is: no used slot between is passed over. It fails exactly if there is none, and it then leaves `next_rid` or sets it to the invalid RID.
pub get_next_tuple_rid_lem :
    (p : Page) (cur next : Rid)
    → IsValid p
    → ((cur.page_id ≡ minus_one) ⊎ (cur.slot_num < 500))
    → ((k : ℕ) × (get_next_tuple_rid p cur next
          ≡ (true, record { page_id = p.page_id; slot_num = k }))
        × (start_of cur ≤ k)
        × (view p.data_ k ≢ none)
        × ((j : ℕ) → start_of cur ≤ j → j < k → view p.data_ j ≡ none))
      ⊎ ((get_next_tuple_rid p cur next
            ≡ (false, if cur.page_id == minus_one then next else invalid_rid))
          × ((j : ℕ) → start_of cur ≤ j → view p.data_ j ≡ none))
unfolding get_next_tuple_rid
get_next_tuple_rid_lem p cur next v h = elim (Bool-cases (cur.page_id == minus_one)) [
  | inl first ↦ elim (walk-cases p v 0) [
    | inl (t, lo, got, before) ↦ inl (
      walk p 0,
      rw (first, slots_lem p v, walk_first p, t) refl,
      rw first lo,
      got,
      rw first before,
    )
    | inr (t, all) ↦ inr (rw (first, slots_lem p v, walk_first p, t) refl, rw first all)
  ]
  | inr later ↦
      let small : add32 cur.slot_num 1 ≡ cur.slot_num + 1 = next_small cur later h in
      elim (walk-cases p v (cur.slot_num + 1)) [
        | inl (t, lo, got, before) ↦ inl (
          walk p (cur.slot_num + 1),
          rw (later, small, slots_lem p v, walk_later p (cur.slot_num + 1), t) refl,
          rw later lo,
          got,
          rw later before,
        )
        | inr (t, all) ↦ inr (
          rw (later, small, slots_lem p v, walk_later p (cur.slot_num + 1), t) refl,
          rw later all,
        )
      ]
]
