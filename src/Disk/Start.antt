-- ===== src/Disk/Start.antt =====
-- The start of the disk manager: the .mtd file, which `write_meta_data` of
-- src/storage/disk/disk_manager.cpp writes and `from_mtd` reads, and the scan of the .db file.
-- The offsets in the .mtd file are small and do not wrap.
pub mod Names
pub mod Scan
use dawn.Base.{
  ℕ, zero, suc, ◌+◌, ◌-◌, ◌*◌, ◌/◌, ◌%◌, Bool, true, false, Option, none, some, List, [], ◌∷◌, ◌++◌,
  not, ltb, leb, ◌==◌, if◌then◌else◌, length, get_or,
}
use dawn.Data.Bytes.{cstring}
use dawn.Disk.IdSet.{insert}
use dawn.Disk.{Stream, DiskManager}
use dawn.Memory.{Memory, read32, write32, memcpy, memset0, minus_one}
use dawn.Page.TablePage.{load}

-- what the .mtd file holds
pub record MetaData : Type 0 where
  pub db_name : List ℕ
  pub log_name : List ℕ
  pub max_ava_pgid : ℕ
  pub catalog_page_id : ℕ

-- the length of a name, its characters and their end
unfoldable pub fill_name : Memory → ℕ → List ℕ → Memory
fill_name m at name =
    memcpy (write32 m at (length name)) (at + 4) (name ++ 0 ∷ []) (length name + 1)

abbrev pub log_name_sz_offset : MetaData → ℕ
log_name_sz_offset d = 4 + length d.db_name + 1

abbrev pub max_ava_pgid_offset : MetaData → ℕ
max_ava_pgid_offset d = log_name_sz_offset d + 4 + length d.log_name + 1

abbrev pub reserved_offset : MetaData → ℕ
reserved_offset d = max_ava_pgid_offset d + 8

-- what `write_meta_data` puts into the buffer, whose size it does not test
unfoldable pub fill_meta : Memory → MetaData → Memory
unfolding fill_name
fill_meta m d =
    let m₁ = fill_name m 0 d.db_name in
    let m₂ = fill_name m₁ (log_name_sz_offset d) d.log_name in
    let m₃ = write32 m₂ (max_ava_pgid_offset d) d.max_ava_pgid in
    let m₄ = write32 m₃ (max_ava_pgid_offset d + 4) d.catalog_page_id in
    memset0 m₄ (reserved_offset d) 128

-- the result, the buffer and the stream of the .mtd file
unfoldable pub write_meta_data :
    {S : Type 0} → Stream S → S → Option Memory → ℕ → MetaData → Bool × Option Memory × S
unfolding fill_meta
write_meta_data io meta_io meta_buffer buffer_size d = elim meta_buffer [
  | none ↦ (false, none, meta_io)
  | some m ↦
      let m₁ = fill_meta m d in
      let (s, failed) = io.write meta_io 0 (load m₁ 0 buffer_size) in (not failed, some m₁, s)
]

-- what `from_mtd` takes from the bytes of the .mtd file
unfoldable pub read_meta : List ℕ → MetaData
unfolding cstring
read_meta buffer =
    let m : Memory = λ x. get_or buffer x 0 in
    let n = length buffer in
    let log_at = 4 + read32 m 0 + 1 in
    let max_at = log_at + 4 + read32 m log_at + 1 in
    record {
      db_name = cstring (load m 4 (n - 4));
      log_name = cstring (load m (log_at + 4) (n - (log_at + 4)));
      max_ava_pgid = read32 m max_at;
      catalog_page_id = read32 m (max_at + 4);
    }

-- READ_DB_PG_NUM and READ_DB_BUF_SZ
abbrev pub batch_pages : ℕ
batch_pages = 10240

abbrev pub batch_size : ℕ
batch_size = 41943040

-- the ids from `page_id` on, `n` of them
unfoldable pub free_rest : ℕ → ℕ → List ℕ → List ℕ
free_rest zero page_id free = free
free_rest (suc n) page_id free = free_rest n (suc page_id) (insert page_id free)

module _ {S : Type 0} where
  -- a page of the .db file, by its first byte: STATUS_EXIST is 1
  unfoldable pub mark_page : DiskManager S → ℕ → ℕ → DiskManager S
  mark_page d page_id status =
      if status % 2 == 1
      then record d { max_alloced_pgid = page_id; alloced_pgid = insert page_id d.alloced_pgid }
      else record d { free_pgid = insert page_id d.free_pgid }

  -- `n` pages of a batch from `offset` on, the first of the batch has the id `base`
  unfoldable pub scan_pages : ℕ → List ℕ → ℕ → ℕ → DiskManager S → DiskManager S
  unfolding mark_page
  scan_pages zero tmp_buf base offset d = d
  scan_pages (suc n) tmp_buf base offset d =
      scan_pages n tmp_buf base (offset + 4096)
        (mark_page d (base + offset / 4096) (get_or tmp_buf offset 0))

  module _ (io : Stream S) where
    -- `n` batches from the `i`-th on, with `size` bytes left; a read that gets less fails
    unfoldable pub scan_batches : ℕ → ℕ → ℕ → DiskManager S → Bool × DiskManager S
    unfolding scan_pages
    scan_batches zero i size d = (true, d)
    scan_batches (suc n) i size d =
        let read_size = if leb batch_size size then batch_size else size in
        let (s, got) = io.read d.db_io (i * batch_size) read_size in
        let read_sz = length got in
        if read_sz == read_size
        then scan_batches n (i + 1) (size - batch_size)
            (scan_pages ((read_sz + 4095) / 4096) got (i * batch_pages) 0 (record d { db_io = s }))
        else (false, record d { db_io = s })

    -- `from_mtd` from the size of the .db file on, which is `none` where it cannot be told. After the
    -- batches `page_id` is the number of the pages.
    unfoldable pub scan_db : Option ℕ → DiskManager S → Bool × DiskManager S
    unfolding free_rest
    scan_db none d = (false, d)
    scan_db (some size) d =
        let (ok, d₁) = scan_batches ((size + (batch_size - 1)) / batch_size) 0 size d in
        let pages = size / 4096 in
        if not (size % 4096 == 0)
        then (false, d)
        else if size == 0
        then (
          true,
          record d {
            free_pgid = free_rest d.max_ava_pgid 0 d.free_pgid;
            max_alloced_pgid = minus_one;
            status = true;
          },
        )
        else if ok
        then (
          true,
          record d₁ {
            free_pgid = free_rest (d₁.max_ava_pgid - pages) pages d₁.free_pgid;
            status = true;
          },
        )
        else (false, d₁)
