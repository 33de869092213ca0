-- ===== src/Table/Walk.antt =====
-- The searches of the iterator for a slot that names a page, and the iterator over an empty table.
use dawn.Base.{
  ℕ, zero, suc, ◌<◌, ◌≤◌, ◌+◌, ◌≡◌, ◌≢◌, refl, ◌∙◌, ◌⊎◌, inl, inr, true, false, Bool-cases, some,
  ℕ_discrete, ◌==◌, arith,
}
use dawn.Calls.Holds.{get_page-Holds}
use dawn.Calls.{◌>>=◌}
use dawn.Disk.{Stream}
use dawn.LinkHash.Slots.{slot_num_of_page, get_pgid_in_slot}
use dawn.Memory.{minus_one}
use dawn.Page.{Page, empty_tuple}
use dawn.Pool.{BufferPool, find}
use dawn.Table.Fresh.{Cleared, fresh, new_table-Cleared}
use dawn.Table.Iterator.{LinkHashTableIter, find_slot, find_first, new_iter, next_tuple}
use dawn.Table.{Table, new_table}

-- no slot from `lo` on and before `hi` names a page
abbrev pub NoneNamed : Page → ℕ → ℕ → Type 0
NoneNamed p lo hi = (i : ℕ) → lo ≤ i → i < hi → get_pgid_in_slot i p ≡ minus_one

NoneNamed-first :
    (p : Page) (lo hi : ℕ)
    → get_pgid_in_slot lo p ≡ minus_one
    → NoneNamed p (lo + 1) hi
    → NoneNamed p lo hi
NoneNamed-first p lo hi here before i l h = elim (ℕ_discrete i lo) [
  | yes e ↦ rw e here
  | no ne ↦ before i (omega arith) h
]

-- The search gives the first slot that names a page, with the page's id, and else the slot behind the
-- last one with -1.
pub find_slot-cases :
    (p : Page) (left slot_num : ℕ)
    → ((slot_num ≤ (find_slot p left slot_num).0)
        × ((find_slot p left slot_num).0 < slot_num + left)
        × (get_pgid_in_slot (find_slot p left slot_num).0 p ≡ (find_slot p left slot_num).1)
        × ((find_slot p left slot_num).1 ≢ minus_one)
        × NoneNamed p slot_num (find_slot p left slot_num).0)
      ⊎ (((find_slot p left slot_num).0 ≡ slot_num + left)
          × ((find_slot p left slot_num).1 ≡ minus_one)
          × NoneNamed p slot_num (slot_num + left))
unfolding find_slot
find_slot-cases p zero slot_num = inr (omega arith, refl, λ i lo hi. absurd (omega (arith, lo, hi)))
find_slot-cases p (suc left) slot_num =
    elim (Bool-cases (get_pgid_in_slot slot_num p == minus_one)) [
      | inr e ↦
          let named : get_pgid_in_slot slot_num p ≢ minus_one = ground arith in
          rw e
            (inl (omega arith, omega arith, refl, named, λ i lo hi. absurd (omega (arith, lo, hi))))
      | inl e ↦
          let here : get_pgid_in_slot slot_num p ≡ minus_one = ground arith in
          rw e (elim (find_slot-cases p left (slot_num + 1)) [
            | inl (lo, hi, same, named, before) ↦
                inl
                  (omega arith, omega arith, same, named, NoneNamed-first p slot_num _ here before)
            | inr (past, none_there, before) ↦ inr (
              omega arith,
              none_there,
              NoneNamed-first p slot_num _ here (λ i lo hi. before i lo (omega arith)),
            )
          ])
    ]

module _ {S : Type 0} (io : Stream S) (first_page_id f : ℕ) where
  -- the iterator that is at the end
  abbrev pub ended : LinkHashTableIter
  ended = record {
    first_page_id = first_page_id;
    tuple = empty_tuple;
    slot1_num = minus_one;
    slot2_num = minus_one;
  }

  find_first-Cleared :
      (b : BufferPool S) (left slot1_num : ℕ)
      → Cleared (b.pages f).data_
      → find_first io ended f left slot1_num b ≡ some (ended, b)
  unfolding find_first
  find_first-Cleared b zero slot1_num cleared = refl
  find_first-Cleared b (suc left) slot1_num cleared =
      let empty = cleared (b.pages f) slot1_num refl in
      rw (◌>>=◌, empty) (find_first-Cleared b left (slot1_num + 1) cleared)

  -- The iterator over a table that was made from scratch is at the end at once, with an invalid RID, and
  -- stays there when it is moved on.
  pub new_table-new_iter :
      (b : BufferPool S)
      → first_page_id < 2147483648
      → b.latch_kept ≡ false
      → find first_page_id b.mapping ≡ some f
      → (t : Table) × (b₁ b₂ : BufferPool S) × (new_table io first_page_id true b ≡ some (t, b₁))
        × (new_iter io t.first_table_page_id b₁ ≡ some (ended, b₂))
        × (next_tuple io ended b₂ ≡ some (ended, b₂))
  unfolding new_iter next_tuple
  new_table-new_iter b small unlocked mapped =
      let (b₁, m₁, made, held, cleared) =
        new_table-Cleared io first_page_id f small b (b.pages f).data_ (unlocked, mapped, refl) in
      let (b₂, got, held₂) = get_page-Holds io b₁ first_page_id f m₁ small held in
      let none_found =
        find_first-Cleared b₂ slot_num_of_page 0 (λ p slot same. cleared p slot (same ∙ held₂.2)) in
      (fresh io first_page_id f small, b₁, b₂, made, rw (◌>>=◌, got, none_found) refl, refl)
