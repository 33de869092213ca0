-- ===== src/Catalog/Space.antt =====
-- The room in the catalog's page: `create_table` counts the record and the name without its end.
use dawn.Base.{ℕ, suc, ◌+◌, ◌*◌, ◌≤◌, ◌<◌, ◌≡◌, refl, ap, ◌∙◌, false, List, [], length, arith}
use dawn.Catalog.Records.{record_at, name_at, no_space, add_record}
use dawn.Catalog.Stored.{record_at_lem}
use dawn.Memory.{Memory, read32, write32, sub32, sub32_small, slt, slt_small}

name_at_empty : (m : Memory) (at n : ℕ) → m at ≡ 0 → name_at m at (suc n) ≡ []
unfolding name_at
name_at_empty m at n e = rw e refl

write32_top : (m : Memory) (at v : ℕ) → v < 16777216 → write32 m at v (at + 3) ≡ 0
unfolding write32
write32_top m at v h = ground arith

-- If a table's record and its name just fill the room between the records and the names, the room is
-- taken to be enough. The record then lies over the first byte of the name: for a page id below 2 ^ 24
-- the name that is read back is empty.
pub add_record_tight :
    (m : Memory) (n k : ℕ) (name : List ℕ) (id : ℕ)
    → read32 m 64 ≡ n
    → length name ≡ suc k
    → 80 + n * 12 + length name ≤ 4096
    → id < 16777216
    → (no_space m (80 + n * 12 + length name) name ≡ false)
      × (name_at
            (add_record m (n + 1) n (80 + n * 12 + length name) name id)
            (79 + n * 12)
            (length name)
          ≡ [])
unfolding no_space add_record
add_record_tight m n k name id count size fits small =
    let slot = record_at_lem n (omega arith) in
    let room : sub32 (80 + n * 12 + length name) (68 + n * 12) ≡ length name + 12 =
      sub32_small _ _ (omega arith) (omega arith) ∙ omega arith in
    let equal : slt (length name + 12) (length name + 12) ≡ false =
      slt_small _ _ (omega arith) (omega arith) ∙ ground arith in
    let written = add_record m (n + 1) n (80 + n * 12 + length name) name id in
    let start : 79 + n * 12 ≡ record_at n + 8 + 3 = omega (arith, slot) in
    let top : written (79 + n * 12) ≡ 0 =
      ap written start ∙ write32_top _ (record_at n + 8) id small in
    (
      rw (count, slot, room) equal,
      ap (name_at written (79 + n * 12)) size ∙ name_at_empty written (79 + n * 12) k top,
    )
