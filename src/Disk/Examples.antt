-- ===== src/Disk/Examples.antt =====
-- Runs of the disk manager on a small .db file whose pages 0 and 2 are in use.
use dawn.Base.{
  ℕ, ◌+◌, ◌≤◌, ◌≡◌, ◌⊎◌, refl, true, false, if◌then◌else◌, ltb, none, ◌&&◌, ◌||◌, not, some, [],
  ◌∷◌, leb, ◌==◌, replicate, arith,
}
use dawn.Disk.Alloc.{IsValid, alloc_page_lem, free_page_lem}
use dawn.Disk.Start.Names.{read_meta-fill_meta}
use dawn.Disk.Start.Scan.{scan_db-IsValid, is_used}
use dawn.Disk.Start.{MetaData, scan_db, read_meta, fill_meta, write_meta_data}
use dawn.Disk.IdSet.{insert, erase, ids, last}
use dawn.Disk.{
  Stream, DiskManager, is_free, is_allocated, refill, alloc_page, free_page, seek_offset,
}
use dawn.Page.TablePage.{load}
use dawn.Memory.{Memory, minus_one, mul32, slt}

-- a stream that counts its writes and fails from the sixth on
abbrev counting : Stream ℕ
counting = record {
  is_open = λ s. true;
  write = λ s off bytes. (s + 1, leb 5 s);
  read = λ s off n. (s, replicate n 0);
}

abbrev two_used : DiskManager ℕ
two_used = record {
  db_io = 0;
  status = true;
  max_ava_pgid = 4;
  max_alloced_pgid = 2;
  alloced_pgid = 0 ∷ 2 ∷ [];
  free_pgid = 1 ∷ 3 ∷ [];
  page_buf = replicate 4 0;
}

two_used-IsValid : IsValid two_used
two_used-IsValid = record {
  some_ava = omega arith;
  free_ascending = (omega arith, (omega arith, tt));
  alloced_ascending = (omega arith, (omega arith, tt));
  below = λ z. ground arith;
  apart = λ z. ground arith;
}

alloc_page_lem_example :
    (r : ℕ) × (after : DiskManager ℕ) × (alloc_page counting two_used 1 ≡ some (r, after))
    × IsValid after
    × (((r ≡ minus_one) × ((z : ℕ) → is_allocated after z ≡ is_allocated two_used z))
        ⊎ ((is_allocated two_used r ≡ false)
            × ((z : ℕ) → is_allocated after z ≡ (r == z || is_allocated two_used z))
            × ((z : ℕ) → is_free two_used z ≡ true → r ≤ z)))
alloc_page_lem_example = alloc_page_lem counting two_used 1 two_used-IsValid (omega arith)

free_page_lem_example :
    IsValid (free_page counting two_used 2).1
    × ((z : ℕ)
        → is_allocated (free_page counting two_used 2).1 z
          ≡ (not ((free_page counting two_used 2).0 && 2 == z) && is_allocated two_used z))
free_page_lem_example = free_page_lem counting two_used 2 two_used-IsValid

-- freeing the largest page in use moves `max_alloced_pgid` down
free_page_run : (free_page counting two_used 2).1.max_alloced_pgid ≡ 0
unfolding free_page seek_offset mul32 slt insert erase last
free_page_run = refl

-- with no id left, their number is doubled
refill_run : (refill (record two_used { free_pgid = [] })).free_pgid ≡ 4 ∷ 5 ∷ 6 ∷ 7 ∷ []
unfolding refill mul32 slt ids
refill_run = refl

-- a file of three pages, whose second is free
abbrev three_pages : Memory
three_pages x = if x == 4096 then 2 else 1

abbrev reading : Stream ℕ
reading = record {
  is_open = λ s. true;
  write = λ s off bytes. (s + 1, false);
  read = λ s off n. (s, load three_pages off n);
}

abbrev empty_sets : DiskManager ℕ
empty_sets = record {
  db_io = 0;
  status = false;
  max_ava_pgid = 100;
  max_alloced_pgid = minus_one;
  alloced_pgid = [];
  free_pgid = [];
  page_buf = replicate 4 0;
}

scan_db-IsValid_example :
    (d₁ : DiskManager ℕ) × (scan_db reading (some 12288) empty_sets ≡ (true, d₁))
    × IsValid d₁
    × (d₁.max_ava_pgid ≡ 100)
    × ((z : ℕ) → is_allocated d₁ z ≡ (ltb z 3 && is_used three_pages z))
scan_db-IsValid_example =
    scan_db-IsValid three_pages reading 12288 (λ s off n h. refl) 3 empty_sets refl refl refl
      (omega arith) (omega arith)

abbrev some_meta : MetaData
some_meta = record {
  db_name = 97 ∷ 46 ∷ 100 ∷ 98 ∷ [];
  log_name = 97 ∷ 46 ∷ 108 ∷ 111 ∷ 103 ∷ [];
  max_ava_pgid = 100;
  catalog_page_id = 0;
}

abbrev nines : Memory
nines x = 9

read_meta-fill_meta_example : read_meta (load (fill_meta nines some_meta) 0 512) ≡ some_meta
read_meta-fill_meta_example =
    read_meta-fill_meta nines some_meta 512 (omega arith)
      (ground arith, (ground arith, (ground arith, (ground arith, tt))))
      (ground arith, (ground arith, (ground arith, (ground arith, (ground arith, tt)))))
      (omega arith) (omega arith) (omega arith)

-- without a buffer nothing is written
no_buffer : write_meta_data counting 0 none 512 some_meta ≡ (false, none, 0)
unfolding write_meta_data
no_buffer = refl

-- a file that is not made of whole pages
broken_file : (scan_db reading (some 5000) empty_sets).0 ≡ false
unfolding scan_db
broken_file = refl
