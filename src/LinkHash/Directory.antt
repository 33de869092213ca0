-- ===== src/LinkHash/Directory.antt =====
-- The slots of a page of the hash index, and the two slots of a hash value.
use dawn.Base.{
  ℕ, zero, suc, ◌+◌, ◌*◌, ◌%◌, ◌<◌, ◌≤◌, ◌≡◌, ◌≢◌, refl, ap, ◌∙◌, ◌⊎◌, inl, inr, ℕ_discrete, leb,
  arith, if◌then◌else◌, false, Bool-cases,
}
use dawn.LinkHash.Slots.{slot_num_of_page, clear_slots, init, get_pgid_in_slot, set_pgid_in_slot}
use dawn.LinkHash.{hash_to_slot}
use dawn.Memory.{
  Memory, read32, write32, minus_one, read32-write32, read32-write32-Apart, write32_outside,
}
use dawn.Page.{Page}

-- Both slots of a hash value are slots of a page, and together they give the hash value modulo the
-- number of lists.
pub hash_to_slot_lem :
    (h : ℕ)
    → ((hash_to_slot h).0 < slot_num_of_page)
      × ((hash_to_slot h).1 < slot_num_of_page)
      × ((hash_to_slot h).0 * slot_num_of_page + (hash_to_slot h).1
          ≡ h % (slot_num_of_page * slot_num_of_page))
unfolding hash_to_slot
hash_to_slot_lem h = (omega arith, omega arith, omega arith)

-- Page ids of 32 bits come back from a slot as they were set, and the other slots keep theirs.
pub get_pgid_in_slot-set_pgid_in_slot :
    (p : Page) (slot page_id : ℕ)
    → slot < slot_num_of_page
    → page_id < 4294967296
    → (get_pgid_in_slot slot (set_pgid_in_slot slot page_id p) ≡ page_id)
      × ((other : ℕ)
          → other ≢ slot
          → get_pgid_in_slot other (set_pgid_in_slot slot page_id p) ≡ get_pgid_in_slot other p)
unfolding get_pgid_in_slot set_pgid_in_slot
get_pgid_in_slot-set_pgid_in_slot p slot page_id small word =
    let inside : leb slot_num_of_page slot ≡ false = ground arith in
    (
      rw inside (read32-write32 p.data_ (64 + slot * 4) page_id word),
      λ other ne. rw inside (
          ap (λ v. if leb slot_num_of_page other then minus_one else v)
            (read32-write32-Apart p.data_ (64 + slot * 4) page_id (64 + other * 4) (omega arith))),
    )

-- A slot that the loop does not reach keeps its number, and those that it reaches hold -1.
clear_slots_lem :
    (left i : ℕ) (m : Memory) (slot : ℕ)
    → ((slot < i) ⊎ (i + left ≤ slot)
        → read32 (clear_slots left i m) (64 + slot * 4) ≡ read32 m (64 + slot * 4))
      × (i ≤ slot → slot < i + left → read32 (clear_slots left i m) (64 + slot * 4) ≡ minus_one)
unfolding clear_slots
clear_slots_lem zero i m slot = (λ _. refl, λ lo hi. omega arith)
clear_slots_lem (suc left) i m slot =
    let next = clear_slots_lem left (i + 1) (write32 m (64 + i * 4) minus_one) slot in
    (
      λ out.
          next.0 (omega arith)
          ∙ read32-write32-Apart m (64 + i * 4) minus_one (64 + slot * 4) (omega arith),
      λ lo hi. elim (ℕ_discrete slot i) [
        | yes e ↦
            next.0 (omega arith) ∙ rw e (read32-write32 m (64 + i * 4) minus_one (omega arith))
        | no ne ↦ next.1 (omega arith) (omega arith)
      ],
    )

clear_slots_below : (left i : ℕ) (m : Memory) (x : ℕ) → x < 64 → clear_slots left i m x ≡ m x
unfolding clear_slots
clear_slots_below zero i m x low = refl
clear_slots_below (suc left) i m x low =
    clear_slots_below left (i + 1) (write32 m (64 + i * 4) minus_one) x low
    ∙ write32_outside m (64 + i * 4) minus_one x (omega arith)

-- After `init` no slot names a page, also a slot number out of range, and the 64 bytes of the header
-- are as before.
pub get_pgid_in_slot-init :
    (p : Page) (slot : ℕ)
    → (get_pgid_in_slot slot (init p) ≡ minus_one)
      × ((x : ℕ) → x < 64 → (init p).data_ x ≡ p.data_ x)
unfolding get_pgid_in_slot init
get_pgid_in_slot-init p slot = (
  elim (Bool-cases (leb slot_num_of_page slot)) [
    | inl e ↦ rw e refl
    | inr e ↦
        rw e ((clear_slots_lem slot_num_of_page 0 p.data_ slot).1 (omega arith) (ground arith))
  ],
  λ x low. clear_slots_below slot_num_of_page 0 p.data_ x low,
)
