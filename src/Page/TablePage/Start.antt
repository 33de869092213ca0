-- ===== src/Page/TablePage/Start.antt =====
-- `init` and `get_stored_tuple_cnt`.
use dawn.Base.{
  ℕ, zero, suc, ◌+◌, ◌≤◌, ◌<◌, ◌≡◌, inl, inr, refl, ◌∙◌, ◌==◌, arith, false, none, some, ℕ_discrete,
}
use dawn.Memory.{Memory, read32, write32, memset0, u32_mod, read32-write32, read32-write32-Apart}
use dawn.Page.{Page}
use dawn.Page.TablePage.Layout.{cnt, off, record_offset_lem}
use dawn.Page.TablePage.View.{IsValid, Slot, view, view_lem, view_unused, count-le, slots_lem}
use dawn.Page.TablePage.{init, get_prev_page_id, get_next_page_id, get_stored_tuple_cnt, count_used}

-- `init` gives a valid page, whatever the page held, with no tuple and the two links.
pub init_lem :
    (p : Page) (prev_pgid next_pgid : ℕ)
    → prev_pgid < u32_mod
    → next_pgid < u32_mod
    → let p' = init p prev_pgid next_pgid in
      IsValid p'
      × ((i : ℕ) → view p'.data_ i ≡ none)
      × (get_prev_page_id p' ≡ prev_pgid)
      × (get_next_page_id p' ≡ next_pgid)
unfolding init
init_lem p a b ha hb =
    let m₀ = memset0 p.data_ 64 4032 in
    let m₁ = write32 m₀ 64 a in
    let m₂ = write32 m₁ 68 b in
    let m₃ = write32 m₂ 140 0 in
    let c : read32 (write32 m₃ 72 4096) 140 ≡ 0 =
      read32-write32-Apart m₃ 72 4096 140 (omega arith) ∙ read32-write32 m₂ 140 0 (omega arith) in
    let f : read32 (write32 m₃ 72 4096) 72 ≡ 4096 = read32-write32 m₃ 72 4096 (omega arith) in
    (
      record {
        floor = rw (c, f) (omega arith);
        ceiling = rw f (omega arith);
        above = λ i h s u. absurd (omega (arith, c, h));
        below = λ i h s u. absurd (omega (arith, c, h));
        sized = λ i h s u. absurd (omega (arith, c, h));
        filled = λ i h s u. absurd (omega (arith, c, h));
        apart = λ i j h hj si sj ne ui uj. absurd (omega (arith, c, h));
      },
      λ i. view_unused _ i (inl (rw c (omega arith))),
      read32-write32-Apart m₃ 72 4096 64 (omega arith)
          ∙ read32-write32-Apart m₂ 140 0 64 (omega arith)
          ∙ read32-write32-Apart m₁ 68 b 64 (omega arith)
          ∙ read32-write32 m₀ 64 a ha,
      read32-write32-Apart m₃ 72 4096 68 (omega arith)
          ∙ read32-write32-Apart m₂ 140 0 68 (omega arith)
          ∙ read32-write32 m₁ 68 b hb,
    )

-- how many of the `n` slots from `s` hold a tuple
abbrev pub tally : Slot → ℕ
tally none = 0
tally (some _) = 1

abbrev pub tuples_from : Memory → ℕ → ℕ → ℕ
tuples_from m s zero = 0
tuples_from m s (suc n) = tally (view m s) + tuples_from m (s + 1) n

count_used-tuples_from :
    (p : Page) (left s : ℕ)
    → s + left ≤ cnt p.data_
    → cnt p.data_ ≤ 494
    → count_used p left s ≡ tuples_from p.data_ s left
unfolding count_used
count_used-tuples_from p zero s h small = refl
count_used-tuples_from p (suc left) s h small =
    let rest = count_used-tuples_from p left (s + 1) (omega arith) small in
    elim (ℕ_discrete (off p.data_ s) 0) [
      | yes e ↦
          rw (record_offset_lem s (omega arith), e, view_unused p.data_ s (inr e))
            (omega (arith, rest))
      | no u ↦
          let t : (off p.data_ s == 0) ≡ false = ground arith in
          rw (record_offset_lem s (omega arith), t, view_lem p.data_ s (omega arith) u)
            (omega (arith, rest))
    ]

-- On a valid page `get_stored_tuple_cnt` is the number of slots that hold a tuple, marked or not.
pub get_stored_tuple_cnt-tuples_from :
    (p : Page) → IsValid p → get_stored_tuple_cnt p ≡ tuples_from p.data_ 0 (cnt p.data_)
unfolding get_stored_tuple_cnt
get_stored_tuple_cnt-tuples_from p v =
    rw (slots_lem p v) (count_used-tuples_from p (cnt p.data_) 0 (omega arith) (count-le p v))
