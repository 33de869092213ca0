-- ===== src/LinkHash/Examples.antt =====
-- The theorems of the index at a pool with page 5, and runs.
use dawn.Base.{
  ℕ, ◌+◌, ◌*◌, ◌%◌, ◌<◌, ◌≤◌, ◌≡◌, ◌⊎◌, refl, true, false, Option, none, some, [], ◌∷◌, arith, leb,
  ◌==◌, if◌then◌else◌,
}
use dawn.Calls.{pure, ◌>>=◌}
use dawn.Calls.Sample.{silent, patterns, low_byte, one_integer, linked_nowhere, pool_of}
use dawn.Data.{construct_integer, value_eq}
use dawn.Disk as Disk
use dawn.Disk.{take_id, refill, commit_id}
use dawn.Calls.Holds.{Alike}
use dawn.LinkHash.Chain.{Chain, search_list, find_in_list-search_list}
use dawn.LinkHash.Directory.{hash_to_slot_lem}
use dawn.LinkHash.Lists.{Zeros, find_in_list_empty, next_for_insert-Zeros}
use dawn.LinkHash.Marking.{lk_ha_mark_delete_lem}
use dawn.LinkHash.Search.{search}
use dawn.LinkHash.Slots.{slot_num_of_page, init, get_pgid_in_slot, set_pgid_in_slot}
use dawn.LinkHash.{
  OpCode, op_success, hash_to_slot, find_in_page, find_in_list, lk_ha_check_duplicate_key,
  find_list, get_hash_value, lk_ha_get_tuple,
}
use dawn.LinkHash.Changes.{
  lk_ha_insert_tuple, second_level, third_level, insert_loop, lk_ha_mark_delete, next_for_insert,
}
use dawn.Memory.{Memory, minus_one, slt, sub32, add32, mul32, read32, write32, memcpy}
use dawn.Page.TablePage as TablePage
use dawn.Page.TablePage.{
  get_empty_slot, find_empty, get_the_first_tuple, slots, insert_tuple, get_tuple,
  get_next_tuple_rid, set_next_page_id, set_prev_page_id, get_next_page_id, get_prev_page_id,
}
use dawn.Page.{
  Page, Rid, new_page, set_status, set_page_id, set_lsn, invalid_rid, serialize_to, Tuple,
  empty_tuple,
}
use dawn.Pool as Pool
use dawn.Pool.{BufferPool}
use dawn.Replacer.{new, pin, unpin}
use dawn.Schema.{get_value, get_column}

hash_to_slot_lem_example :
    ((hash_to_slot 4000000001).0 < slot_num_of_page)
    × ((hash_to_slot 4000000001).1 < slot_num_of_page)
    × ((hash_to_slot 4000000001).0 * slot_num_of_page + (hash_to_slot 4000000001).1
        ≡ 4000000001 % (slot_num_of_page * slot_num_of_page))
hash_to_slot_lem_example = hash_to_slot_lem 4000000001

-- the pool after another page was made, in frame 1
abbrev grown : BufferPool ℕ
grown = elim (Pool.alloc_page silent (pool_of linked_nowhere) 1) [
  | none ↦ pool_of linked_nowhere
  | some (_, b₁) ↦ b₁
]

abbrev row : Tuple
row = record { allocated = true; rid = invalid_rid; size = 4; bytes = 3 ∷ 0 ∷ 0 ∷ 0 ∷ [] }

header_bytes :
    (x : ℕ) → 64 ≤ x → (if x == 0 then 1 else write32 (write32 (λ _. 0) 1 minus_one) 5 6 x) ≡ 0
unfolding write32
header_bytes x lo = ground arith

grown-Zeros : Zeros (grown.pages 1).data_
unfolding Pool.alloc_page Disk.alloc_page take_id refill commit_id Pool.free_frame set_status
    set_page_id set_lsn new_page new
grown-Zeros x lo hi = header_bytes x lo

next_for_insert-Zeros_example :
    (b₂ : BufferPool ℕ) × (next_for_insert patterns silent low_byte 0 (pool_of linked_nowhere)
      ≡ some ((1, (grown.pages 1).page_id), b₂))
    × (get_next_page_id (b₂.pages 0) ≡ (grown.pages 1).page_id)
    × (get_prev_page_id (b₂.pages 1) ≡ 5)
    × (insert_tuple (b₂.pages 1) row ≡ (false, invalid_rid, b₂.pages 1))
    × (get_next_page_id (b₂.pages 1) ≡ 0)
unfolding Pool.alloc_page Disk.alloc_page take_id refill commit_id Pool.free_frame read32 new
    set_status set_page_id
next_for_insert-Zeros_example =
    next_for_insert-Zeros patterns silent low_byte (pool_of linked_nowhere) grown 0 1 row refl refl
      refl (omega arith) grown-Zeros (omega arith) (omega arith) (omega arith)

lk_ha_mark_delete_lem_example :
    (lk_ha_mark_delete patterns silent low_byte 5
        (construct_integer 3)
        one_integer
        (pool_of linked_nowhere)
      ≡ none)
    ⊎ ((t : Tuple) × (b₁ : BufferPool ℕ) × (lk_ha_get_tuple patterns silent low_byte 5
            (construct_integer 3)
            empty_tuple
            one_integer
            (pool_of linked_nowhere)
          ≡ some ((op_success, t), b₁))
        × (lk_ha_mark_delete patterns silent low_byte 5
              (construct_integer 3)
              one_integer
              (pool_of linked_nowhere)
            ≡ some (op_success, b₁)))
lk_ha_mark_delete_lem_example =
    lk_ha_mark_delete_lem patterns silent low_byte 5 (construct_integer 3) one_integer
      (pool_of linked_nowhere)

-- a page with one row, whose key is 3
abbrev one_row : Page
one_row =
    (insert_tuple (TablePage.init (record new_page { page_id = 5 }) minus_one minus_one) row).2

abbrev stored : Tuple
stored = record {
  allocated = true;
  rid = record { page_id = 5; slot_num = 0 };
  size = 4;
  bytes = 3 ∷ 0 ∷ 0 ∷ 0 ∷ [];
}

-- what a run of calls returns
abbrev result : {A : Type 0} → Option (A × BufferPool ℕ) → Option A
result none = none
result (some (a, _)) = some a

-- An empty page of the index; the row is inserted, and its key looked up.
abbrev inserted : BufferPool ℕ → Option (OpCode × BufferPool ℕ)
inserted = do
  (code, t) ← lk_ha_insert_tuple patterns silent low_byte 5 row one_integer
  (found, u) ←
      lk_ha_get_tuple patterns silent low_byte 5 (construct_integer 3) empty_tuple one_integer
  pure found

abbrev all_slots : Memory
all_slots x = if leb 64 x then 255 else 0

program : Unit {0}
unfolding insert_tuple get_empty_slot find_empty TablePage.init new_page get_the_first_tuple slt
    sub32 read32 write32 add32 mul32 serialize_to memcpy Pool.alloc_page Disk.alloc_page take_id
    refill commit_id Pool.free_frame set_status set_page_id set_lsn new Pool.get_page
    Pool.unpin_page lk_ha_insert_tuple lk_ha_get_tuple lk_ha_check_duplicate_key find_list
    find_in_list find_in_page second_level third_level insert_loop next_for_insert hash_to_slot
    get_hash_value init get_pgid_in_slot set_pgid_in_slot get_tuple get_next_tuple_rid get_value
    get_column value_eq set_next_page_id set_prev_page_id pin unpin
program = tt

run_inserted : result (inserted (pool_of all_slots)) ≡ some op_success
unfolding program
run_inserted = refl

one_row-Chain : Chain (pool_of one_row.data_) 5 (one_row ∷ [])
unfolding program
one_row-Chain = (0, stored, refl, omega arith, refl, refl, omega arith, refl, refl)

found_row :
    search_list patterns one_integer (construct_integer 3) (one_row ∷ []) ≡ some (some stored.rid)
unfolding program search_list search
found_row = refl

find_in_list-search_list_example :
    (b₁ : BufferPool ℕ) × (find_in_list patterns silent one_integer
        (construct_integer 3)
        2
        5
        (pool_of one_row.data_)
      ≡ some (some stored.rid, b₁))
    × Alike (pool_of one_row.data_) b₁
find_in_list-search_list_example =
    find_in_list-search_list patterns silent one_integer (construct_integer 3) (one_row ∷ []) 5 1
      (pool_of one_row.data_) (some stored.rid) (omega arith) refl one_row-Chain found_row

-- page 5 without a tuple, and behind it page 6 with the row
abbrev second : Page
second = (insert_tuple (TablePage.init (record new_page { page_id = 6 }) minus_one minus_one) row).2

abbrev linked : BufferPool ℕ
linked = record (pool_of (write32 (λ _. 0) 68 6)) {
  pages = λ i.
      if i == 0 then record new_page { page_id = 5; data_ = write32 (λ _. 0) 68 6 } else second;
  mapping = (5, 0) ∷ (6, 1) ∷ [];
}

abbrev behind_rid : Rid
behind_rid = record { page_id = 6; slot_num = 0 }

second-Chain : Chain linked (get_next_page_id (linked.pages 0)) (second ∷ [])
unfolding program
second-Chain =
    (1, record stored { rid = behind_rid }, refl, omega arith, refl, refl, omega arith, refl, refl)

found_behind :
    search_list patterns one_integer (construct_integer 3) (second ∷ []) ≡ some (some behind_rid)
unfolding program search_list search
found_behind = refl

no_slots : TablePage.get_tuple_count (linked.pages 0) ≡ 0
unfolding program
no_slots = refl

find_in_list_empty_example :
    (b₁ b₂ : BufferPool ℕ) × (find_in_list patterns silent one_integer
        (construct_integer 3)
        2
        5
        linked
      ≡ some (none, b₁))
    × Alike linked b₁
    × (find_in_list patterns silent one_integer
          (construct_integer 3)
          2
          (get_next_page_id (linked.pages 0))
          linked
        ≡ some (some behind_rid, b₂))
find_in_list_empty_example =
    find_in_list_empty patterns silent one_integer (construct_integer 3) linked 5 0 1 (second ∷ [])
      behind_rid refl refl (omega arith) no_slots (omega arith) second-Chain found_behind
