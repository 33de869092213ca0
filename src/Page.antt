-- ===== src/Page.antt =====
-- Pages, record ids and tuples as the storage layer sees them: src/include/storage/page/page.h,
-- src/include/table/rid.h and the storage part of src/include/table/tuple.h. Latches are left out:
-- a call here is one that runs under the latch that its caller takes.
pub mod TablePage
mod Examples
use dawn.Base.{ℕ, ◌+◌, ◌-◌, Bool, true, false, List, [], ◌&&◌, ◌==◌, if◌then◌else◌}
use dawn.Memory.{Memory, read32, write32, memcpy, minus_one}

-- STATUS_OFFSET is 0, LSN_OFFSET is 1, PAGE_ID_OFFSET is 5; STATUS_EXIST is 1
pub record Page : Type 0 where
  pub page_id : ℕ
  pub pin_count : ℕ
  pub is_dirty : Bool
  pub lsn : ℕ
  pub data_ : Memory

-- `Page()`; the constructor does not set `lsn_`, which is 0 here
unfoldable pub new_page : Page
new_page = record { page_id = minus_one; pin_count = 0; is_dirty = false; lsn = 0; data_ = λ _. 0 }

unfoldable pub set_page_id : Page → ℕ → Page
set_page_id p id = record p { data_ = write32 p.data_ 5 id; page_id = id }

unfoldable pub set_lsn : Page → ℕ → Page
set_lsn p lsn = record p { data_ = write32 p.data_ 1 lsn; lsn = lsn }

unfoldable pub set_status : Page → Page
set_status p = record p { data_ = λ x. if x == 0 then 1 else p.data_ x }

-- `RID`
pub record Rid : Type 0 where
  pub page_id : ℕ
  pub slot_num : ℕ

abbrev pub invalid_rid : Rid
invalid_rid = record { page_id = minus_one; slot_num = minus_one }

unfoldable pub rid_eq : Rid → Rid → Bool
rid_eq a b = a.page_id == b.page_id && a.slot_num == b.slot_num

-- `Tuple`: `data_` points to `size_` bytes if the tuple is allocated
pub record Tuple : Type 0 where
  pub allocated : Bool
  pub rid : Rid
  pub size : ℕ
  pub bytes : List ℕ

abbrev pub empty_tuple : Tuple
empty_tuple = record { allocated = false; rid = invalid_rid; size = minus_one; bytes = [] }

-- `serialize_to(data_ + dst)`
unfoldable pub serialize_to : Tuple → Memory → ℕ → Memory
serialize_to t m dst = if t.allocated then memcpy m dst t.bytes t.size else m
