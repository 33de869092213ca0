-- ===== src/Page/TablePage.antt =====
-- The slotted page: src/include/storage/page/table_page.h and src/storage/page/table_page.cpp.
-- A `TablePage` is a `Page` with no field of its own; every operation reads and writes `data_`.
-- The records of 8 bytes (offset, size) grow up from offset 144, the tuples grow down from 4096.
-- A loop over the slots runs on the number of slots that are left.
pub mod Layout
pub mod View
pub mod Grow
pub mod Insert
pub mod Marks
pub mod Start
pub mod Compact
pub mod Update
pub mod Walk
use dawn.Base.{
  ℕ, zero, suc, ◌+◌, ◌-◌, ◌*◌, ◌/◌, ◌%◌, ◌<◌, Bool, true, false, ◌&&◌, ◌||◌, not, List, [], ◌∷◌,
  ltb, leb, ◌==◌, if◌then◌else◌, Option, none, some,
}
use dawn.Memory.{Memory, read32, write32, memmove, memset0, minus_one, add32, sub32, mul32, slt}
use dawn.Page.{Page, Rid, Tuple, serialize_to, invalid_rid}

abbrev pub first_tuple_offset : ℕ
first_tuple_offset = 144

abbrev pub tuple_record_sz : ℕ
tuple_record_sz = 8

-- DELETE_MASK, the top bit of the size
abbrev pub delete_mask : ℕ
delete_mask = 2147483648

unfoldable pub is_deleted : ℕ → Bool
is_deleted tuple_size = leb delete_mask tuple_size

unfoldable pub set_deleted_flag : ℕ → ℕ
unfolding is_deleted
set_deleted_flag tuple_size = if is_deleted tuple_size then tuple_size else tuple_size + delete_mask

unfoldable pub unset_deleted_flag : ℕ → ℕ
unset_deleted_flag tuple_size = tuple_size % delete_mask

abbrev pub get_prev_page_id : Page → ℕ
get_prev_page_id p = read32 p.data_ 64

abbrev pub get_next_page_id : Page → ℕ
get_next_page_id p = read32 p.data_ 68

unfoldable pub set_prev_page_id : Page → ℕ → Page
set_prev_page_id p id = record p { data_ = write32 p.data_ 64 id }

unfoldable pub set_next_page_id : Page → ℕ → Page
set_next_page_id p id = record p { data_ = write32 p.data_ 68 id }

abbrev pub get_free_space_pointer : Page → ℕ
get_free_space_pointer p = read32 p.data_ 72

abbrev pub set_free_space_pointer : Page → ℕ → Page
set_free_space_pointer p fsp = record p { data_ = write32 p.data_ 72 fsp }

abbrev pub get_tuple_count : Page → ℕ
get_tuple_count p = read32 p.data_ 140

abbrev pub set_tuple_count : Page → ℕ → Page
set_tuple_count p n = record p { data_ = write32 p.data_ 140 n }

-- the rounds of a loop `for (slot_num = 0; slot_num < tuple_count; slot_num++)`
abbrev pub slots : Page → ℕ
slots p = let n = get_tuple_count p in if leb 2147483648 n then 0 else n

-- `FIRST_TUPLE_OFFSET + slot_num * TUPLE_RECORD_SZ`
abbrev pub record_offset : ℕ → ℕ
record_offset slot_num = add32 first_tuple_offset (mul32 slot_num tuple_record_sz)

abbrev pub get_tuple_offset : Page → ℕ → ℕ
get_tuple_offset p slot_num = read32 p.data_ (record_offset slot_num)

abbrev pub get_tuple_size : Page → ℕ → ℕ
get_tuple_size p slot_num = read32 p.data_ (record_offset slot_num + 4)

abbrev pub set_tuple_offset : Page → ℕ → ℕ → Page
set_tuple_offset p slot_num offset = record p {
  data_ = write32 p.data_ (record_offset slot_num) offset;
}

abbrev pub set_tuple_size : Page → ℕ → ℕ → Page
set_tuple_size p slot_num size = record p {
  data_ = write32 p.data_ (record_offset slot_num + 4) size;
}

abbrev pub insert_tuple_record : Page → ℕ → ℕ → ℕ → Page
insert_tuple_record p slot_num offset size =
    set_tuple_size (set_tuple_offset p slot_num offset) slot_num size

unfoldable pub delete_tuple_record : Page → ℕ → Page
delete_tuple_record p slot_num =
    if slt slot_num (get_tuple_count p)
    then record p { data_ = memset0 p.data_ (record_offset slot_num) tuple_record_sz }
    else p

abbrev pub get_free_space : Page → ℕ
get_free_space p =
    sub32 (get_free_space_pointer p)
      (add32 first_tuple_offset (mul32 (get_tuple_count p) tuple_record_sz))

unfoldable pub init : Page → ℕ → ℕ → Page
init p prev_pgid next_pgid =
    let cleared = memset0 p.data_ 64 4032 in
    set_free_space_pointer
      (set_tuple_count (record p { data_ = write32 (write32 cleared 64 prev_pgid) 68 next_pgid }) 0)
      4096

-- the first of the `left` slots from `slot_num` whose offset is 0
unfoldable pub find_empty : Page → ℕ → ℕ → ℕ → ℕ
find_empty p zero slot_num otherwise = otherwise
find_empty p (suc left) slot_num otherwise =
    let rest = find_empty p left (slot_num + 1) otherwise in
    if get_tuple_offset p slot_num == 0 then slot_num else rest

-- the loop of `get_empty_slot` ends past the last slot exactly when no slot is empty
unfoldable pub get_empty_slot : Page → ℕ × Page
unfolding find_empty
get_empty_slot p =
    let tuple_count = get_tuple_count p in
    let slot_num = find_empty p (slots p) 0 (slots p) in
    if ltb slot_num (slots p)
    then (slot_num, p)
    else if slt (get_free_space p) tuple_record_sz
    then (minus_one, p)
    else (tuple_count, set_tuple_count p (add32 tuple_count 1))

-- the result, the RID if one is set, and the page
unfoldable pub insert_tuple : Page → Tuple → Bool × Rid × Page
insert_tuple p tuple =
    let (inserted_slot_num, p₁) = get_empty_slot p in
    if slt (get_free_space p₁) tuple.size
    then (false, invalid_rid, p₁)
    else let free_space_pointer = sub32 (get_free_space_pointer p₁) tuple.size in
      let p₂ = record p₁ { data_ = serialize_to tuple p₁.data_ free_space_pointer } in
      let p₃ = set_free_space_pointer p₂ free_space_pointer in
      (
        true,
        record { page_id = p.page_id; slot_num = inserted_slot_num },
        insert_tuple_record p₃ inserted_slot_num free_space_pointer tuple.size,
      )

-- `slot_num >= get_tuple_count() || offset == 0`
abbrev pub is_missing : Page → ℕ → Bool
is_missing p slot_num = not (slt slot_num (get_tuple_count p)) || get_tuple_offset p slot_num == 0

unfoldable pub mark_delete : Page → Rid → Bool × Page
mark_delete p rid =
    if is_missing p rid.slot_num || not (p.page_id == rid.page_id)
    then (false, p)
    else (true, set_tuple_size p rid.slot_num (set_deleted_flag (get_tuple_size p rid.slot_num)))

unfoldable pub rollback_delete : Page → Rid → Page
rollback_delete p rid =
    if is_missing p rid.slot_num
    then p
    else set_tuple_size p rid.slot_num (unset_deleted_flag (get_tuple_size p rid.slot_num))

-- the last loop of `apply_delete`
unfoldable pub move_records : Page → ℕ → ℕ → ℕ → ℕ → Page
move_records p zero slot_num deleted_offset deleted_size = p
move_records p (suc left) slot_num deleted_offset deleted_size =
    let tuple_offset = get_tuple_offset p slot_num in
    move_records
      (if not (tuple_offset == 0) && slt tuple_offset deleted_offset
        then set_tuple_offset p slot_num (add32 tuple_offset deleted_size)
        else p)
      left (slot_num + 1) deleted_offset deleted_size

-- The length of the `memmove` is a `size_t`: a negative difference is a length of about 2 ^ 64.
unfoldable pub move_length : ℕ → ℕ → ℕ
move_length deleted_offset free_space_pointer =
    if slt deleted_offset free_space_pointer
    then 18446744073709551616 + deleted_offset - free_space_pointer
    else sub32 deleted_offset free_space_pointer

unfoldable pub apply_delete : Page → Rid → Page
unfolding move_length
apply_delete p rid =
    let slot_num = rid.slot_num in
    let offset = get_tuple_offset p slot_num in
    if is_missing p slot_num && is_deleted (get_tuple_size p slot_num)
    then p
    else let free_space_pointer = get_free_space_pointer p in
      let size = unset_deleted_flag (get_tuple_size p slot_num) in
      let p₁ = delete_tuple_record p slot_num in
      let p₂ = record p₁ {
        data_ =
            memmove p₁.data_ (add32 free_space_pointer size) free_space_pointer
              (move_length offset free_space_pointer);
      } in
      let p₃ = set_free_space_pointer p₂ (add32 free_space_pointer size) in
      move_records p₃ (slots p₃) 0 offset size

unfoldable pub update_tuple : Page → Tuple → Rid → Bool × Page
update_tuple p new_tuple rid =
    if is_missing p rid.slot_num
      || not (get_tuple_size p rid.slot_num == new_tuple.size)
      || not (rid.page_id == p.page_id)
    then (false, p)
    else (
      true,
      record p { data_ = serialize_to new_tuple p.data_ (get_tuple_offset p rid.slot_num) },
    )

-- `deserialize_from(data_ + at)`, a memcpy of `n` bytes out of the page
unfoldable pub load : Memory → ℕ → ℕ → List ℕ
load m at zero = []
load m at (suc n) = m at ∷ load m (at + 1) n

-- the result, and the tuple as it is filled in
unfoldable pub get_tuple : Page → Tuple → Rid → Bool × Tuple
unfolding is_deleted unset_deleted_flag load
get_tuple p tuple rid =
    let stored = get_tuple_size p rid.slot_num in
    let tuple_size = if is_deleted stored then unset_deleted_flag stored else stored in
    if is_missing p rid.slot_num then (false, tuple) else (
      true,
      record {
        allocated = true;
        rid = rid;
        size = tuple_size;
        bytes = load p.data_ (get_tuple_offset p rid.slot_num) tuple_size;
      },
    )

-- the first of the `left` slots from `slot_num` whose offset is not 0
unfoldable pub find_used : Page → ℕ → ℕ → ℕ → ℕ
find_used p zero slot_num otherwise = otherwise
find_used p (suc left) slot_num otherwise =
    let rest = find_used p left (slot_num + 1) otherwise in
    if get_tuple_offset p slot_num == 0 then rest else slot_num

-- The result, and `next_rid` after the call. A slot number is -1 or more.
unfoldable pub get_next_tuple_rid : Page → Rid → Rid → Bool × Rid
unfolding find_used
get_next_tuple_rid p cur_rid next_rid =
    let count = slots p in
    let start = add32 cur_rid.slot_num 1 in
    let first = find_used p count 0 count in
    let next = find_used p (count - start) start count in
    if cur_rid.page_id == minus_one
    then (if ltb first count
        then (true, record { page_id = p.page_id; slot_num = first })
        else (false, next_rid))
    else (if ltb next count
        then (true, record { page_id = p.page_id; slot_num = next })
        else (false, invalid_rid))

-- `Tuple(rid, size)` allocates only a positive size, and `deserialize_from` asserts that the tuple
-- is allocated: `none` is the failed assertion.
unfoldable pub get_the_first_tuple : Page → Tuple → Option (Bool × Tuple)
unfolding find_used load
get_the_first_tuple p tuple =
    let count = slots p in
    let slot_num = find_used p count 0 count in
    let size = get_tuple_size p slot_num in
    if ltb slot_num count
    then (if slt 0 size
        then some (
          true,
          record {
            allocated = true;
            rid = record { page_id = p.page_id; slot_num = slot_num };
            size = size;
            bytes = load p.data_ (get_tuple_offset p slot_num) size;
          },
        )
        else none)
    else some (false, tuple)

count_used : Page → ℕ → ℕ → ℕ
count_used p zero slot_num = 0
count_used p (suc left) slot_num =
    count_used p left (slot_num + 1) + (if get_tuple_offset p slot_num == 0 then 0 else 1)

unfoldable pub get_stored_tuple_cnt : Page → ℕ
unfolding count_used
get_stored_tuple_cnt p = count_used p (slots p) 0
