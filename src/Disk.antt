-- ===== src/Disk.antt =====
-- The disk manager's page ids: src/include/storage/disk/disk_manager.h and
-- src/storage/disk/disk_manager.cpp. `fstream_t` is the library's: the stream of the .db file is a
-- parameter, with what the code calls of it. A page id is a number below 2 ^ 31, and -1 is
-- `minus_one`; the latches make each call atomic.
pub mod IdSet
pub mod Alloc
pub mod Start
mod Examples
use dawn.Base.{
  ℕ, ◌+◌, ◌-◌, ◌*◌, ◌%◌, Bool, true, false, Option, none, some, List, [], ◌∷◌, not, ◌&&◌, ltb, leb,
  ◌==◌, if◌then◌else◌, length,
}
use dawn.Disk.IdSet.{insert, erase, ids, member, last}
use dawn.Memory.{minus_one, mul32, slt}

-- A seek that is followed by a write or a read of bytes; `write` says if the stream failed, and
-- `read` gives the bytes that it got.
pub record Stream (S : Type 0) : Type 0 where
  pub is_open : S → Bool
  pub write : S → ℕ → List ℕ → S × Bool
  pub read : S → ℕ → ℕ → S × List ℕ

pub record DiskManager (S : Type 0) : Type 0 where
  pub db_io : S
  pub status : Bool
  pub max_ava_pgid : ℕ
  pub max_alloced_pgid : ℕ
  pub alloced_pgid : List ℕ
  pub free_pgid : List ℕ
  pub page_buf : List ℕ

module _ {S : Type 0} where
  -- `is_free` and `is_allocated`
  abbrev pub is_free : DiskManager S → ℕ → Bool
  is_free d page_id = member page_id d.free_pgid

  abbrev pub is_allocated : DiskManager S → ℕ → Bool
  is_allocated d page_id = member page_id d.alloced_pgid

  -- the first branch of `alloc_page`: no id is free, so their number is doubled
  unfoldable pub refill : DiskManager S → DiskManager S
  refill d = elim d.free_pgid [
    | [] ↦
        let doubled = mul32 d.max_ava_pgid 2 in
        record d {
          max_ava_pgid = doubled;
          free_pgid =
              if slt d.max_ava_pgid doubled
              then ids d.max_ava_pgid (doubled - d.max_ava_pgid)
              else [];
        }
    | _ ∷ _ ↦ d
  ]

  -- the smallest free id becomes an allocated one; `none` is `*end()` of an empty set
  unfoldable pub take_id : DiskManager S → Option (ℕ × DiskManager S)
  take_id d = elim d.free_pgid [
    | [] ↦ none
    | id ∷ rest ↦ some (id, record d { free_pgid = rest; alloced_pgid = insert id d.alloced_pgid })
  ]

-- the offset `page_id * PAGE_SIZE` of `alloc_page` and `free_page` is an `int`
unfoldable pub seek_offset : ℕ → ℕ
seek_offset page_id = mul32 page_id 4096

-- the offset of `write_page` and `read_page` is a `long`
unfoldable pub long_offset : ℕ → ℕ
long_offset page_id = page_id * 4096

module _ {S : Type 0} (io : Stream S) where
  -- the write of the new page, and what follows it
  unfoldable pub commit_id : DiskManager S → ℕ → ℕ → ℕ × DiskManager S
  unfolding seek_offset
  commit_id d flag id =
      let buf : List ℕ = elim d.page_buf [ [] ↦ [] | _ ∷ rest ↦ flag ∷ rest ] in
      let (s, failed) = io.write d.db_io (seek_offset id) buf in
      if failed
      then (
        minus_one,
        record d {
          db_io = s;
          page_buf = buf;
          free_pgid = insert id d.free_pgid;
          alloced_pgid = erase id d.alloced_pgid;
        },
      )
      else (
        id,
        record d {
          db_io = s;
          page_buf = buf;
          max_alloced_pgid = if slt d.max_alloced_pgid id then id else d.max_alloced_pgid;
        },
      )

  unfoldable pub alloc_page : DiskManager S → ℕ → Option (ℕ × DiskManager S)
  alloc_page d flag =
      if io.is_open d.db_io
      then elim (take_id (refill d)) [ none ↦ none | some (id, d₁) ↦ some (commit_id d₁ flag id) ]
      else some (minus_one, record d { status = false })

  -- `page_id < 0` is the sign bit
  unfoldable pub free_page : DiskManager S → ℕ → Bool × DiskManager S
  unfolding seek_offset
  free_page d page_id =
      if leb 2147483648 page_id
      then (false, d)
      else if not (is_allocated d page_id)
      then (true, d)
      else let (s, failed) = io.write d.db_io (seek_offset page_id) (2 ∷ []) in
        let alloced = erase page_id d.alloced_pgid in
        if failed then (false, record d { db_io = s }) else (
          true,
          record d {
            db_io = s;
            free_pgid = insert page_id d.free_pgid;
            alloced_pgid = alloced;
            max_alloced_pgid =
                if d.max_alloced_pgid == page_id
                then last minus_one alloced
                else d.max_alloced_pgid;
          },
        )

  unfoldable pub write_page : DiskManager S → ℕ → List ℕ → Bool × DiskManager S
  unfolding long_offset
  write_page d page_id bytes =
      let (s, failed) = io.write d.db_io (long_offset page_id) bytes in
      if not (io.is_open d.db_io)
      then (false, record d { status = false })
      else (not failed, record d { db_io = s })

  -- the result, and the bytes that arrive in `dst`
  unfoldable pub read_page : DiskManager S → ℕ → Bool × List ℕ × DiskManager S
  unfolding long_offset
  read_page d page_id =
      let (s, got) = io.read d.db_io (long_offset page_id) 4096 in
      if not (io.is_open d.db_io)
      then (false, [], record d { status = false })
      else (length got == 4096, got, record d { db_io = s })
