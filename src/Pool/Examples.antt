-- ===== src/Pool/Examples.antt =====
-- The buffer pool's theorems at a pool of two frames that holds page 5 in frame 0.
use dawn.Base.{
  ℕ, ◌≡◌, ◌≢◌, ◌⊎◌, Option, List, length, replicate, refl, Bool, true, false, some, none, [], ◌∷◌,
  arith, ◌<◌,
}
use dawn.Disk.{Stream, DiskManager}
use dawn.Disk as Disk
use dawn.Page.{new_page, set_page_id}
use dawn.Pool.Frames.{get_page-unpin_page, get_page-delete_page}
use dawn.Pool.Blocked.{Blocked, get_page-Blocked}
use dawn.Memory.{add32, sub32, slt, memcpy, minus_one}
use dawn.Pool.Flush.{flush_all_lem}
use dawn.Pool.{
  BufferPool, find, unpin_page, get_page, delete_page, flush_all, free_frame, get_threshold_page,
  return_threshold_page, new_buffer_pool, frames_from,
}
use dawn.Replacer.Members.{new-IsValid}
use dawn.Replacer.{ClockReplacer, new, flag, present, unpin}

-- a stream whose reads get no byte
abbrev silent : Stream ℕ
silent = record {
  is_open = λ s. true;
  write = λ s off bytes. (s, false);
  read = λ s off n. (s, []);
}

abbrev pool_of : ℕ → ClockReplacer → BufferPool ℕ
pool_of pins r = record {
  pages = λ i. record {
    page_id = 5;
    pin_count = pins;
    is_dirty = false;
    lsn = 0;
    data_ = new_page.data_;
  };
  pool_size = 2;
  available_threshold_page = 0;
  allocated_threshold_pages = 0;
  free_list = 1 ∷ [];
  mapping = (5, 0) ∷ [];
  disk_manager = record {
    db_io = 0;
    status = true;
    max_ava_pgid = 100;
    max_alloced_pgid = 5;
    alloced_pgid = 5 ∷ [];
    free_pgid = [];
    page_buf = [];
  };
  replacer = r;
  latch_kept = false;
}

abbrev in_use : BufferPool ℕ
in_use = pool_of 1 (new 2)

abbrev idle : BufferPool ℕ
idle = pool_of 0 (unpin (new 2) 0)

two_frames : 0 < (new 2).pool_size
unfolding new
two_frames = omega arith

get_page-unpin_page_example :
    (b₁ b₂ : BufferPool ℕ) × (unpin_page in_use 5 true ≡ some b₁)
    × (present (flag b₁.replacer 0) ≡ true)
    × (get_page silent b₁ 5 ≡ some (some 0, b₂))
    × ((b₂.pages 0).data_ ≡ (in_use.pages 0).data_)
    × ((b₂.pages 0).pin_count ≡ 1)
    × (present (flag b₂.replacer 0) ≡ false)
    × (b₂.mapping ≡ in_use.mapping)
    × (b₂.free_list ≡ in_use.free_list)
get_page-unpin_page_example =
    get_page-unpin_page silent in_use 5 0 refl (omega arith) refl true refl
      (new-IsValid 2 (omega arith)).0 two_frames

idle_there : present (flag idle.replacer 0) ≡ true
unfolding new unpin
idle_there = refl

-- a stream whose reads get a page in use
abbrev in_order : Stream ℕ
in_order = record silent { read = λ s off n. (s, replicate n 1) }

-- the page that nobody uses, and no free frame
abbrev crowded : BufferPool ℕ
crowded = record idle { free_list = [] }

abbrev emptied : DiskManager ℕ
emptied = (Disk.free_page in_order crowded.disk_manager 5).1

page_read_in :
    Disk.read_page in_order emptied 7
    ≡ (true, replicate 4096 1, (Disk.read_page in_order emptied 7).2)
unfolding Disk.read_page Disk.free_page
page_read_in = refl

read_status :
    memcpy
      (set_page_id (crowded.pages 0) minus_one).data_
      0
      (replicate 4096 1)
      (length (replicate {A = ℕ} 4096 1))
      0
    ≡ 1
unfolding memcpy
read_status = refl

get_page-delete_page_example :
    (b₁ b₂ : BufferPool ℕ) × (delete_page in_order crowded 5 ≡ some (true, b₁))
    × (get_page in_order b₁ 7 ≡ some (some 0, b₂))
    × (find 7 b₂.mapping ≡ some 0)
    × ((b₂.pages 0).pin_count ≡ 1)
    × (present (flag b₂.replacer 0) ≡ true)
get_page-delete_page_example =
    get_page-delete_page in_order crowded 5 0 refl (omega arith) refl 7 (replicate 4096 1)
      (Disk.read_page in_order emptied 7).2 refl idle_there refl (omega arith) refl page_read_in
      read_status

get_page-Blocked_example :
    ((r : Option ℕ) × (b' : BufferPool ℕ) × (get_page silent in_use 7 ≡ some (r, b'))
      × (b'.latch_kept ≡ false)
      × ((find 7 in_use.mapping ≢ none)
          ⊎ ((f : ℕ) × (rest : List ℕ) × (b₁ : BufferPool ℕ) × (free_frame silent in_use
                ≡ some (f, rest, b₁))
              × ((Disk.read_page silent b₁.disk_manager 7).0 ≡ true))))
    ⊎ ((f : ℕ) × (rest : List ℕ) × (b₁ b' : BufferPool ℕ) × (find 7 in_use.mapping ≡ none)
        × (free_frame silent in_use ≡ some (f, rest, b₁))
        × ((Disk.read_page silent b₁.disk_manager 7).0 ≡ false)
        × (get_page silent in_use 7 ≡ some (none, b'))
        × Blocked silent b')
    ⊎ ((find 7 in_use.mapping ≡ none)
        × (free_frame silent in_use ≡ none)
        × (get_page silent in_use 7 ≡ none))
get_page-Blocked_example = get_page-Blocked silent in_use 7 refl (omega arith)

flush_all_lem_example :
    (ok : Bool) × (b₁ : BufferPool ℕ) × (flush_all silent in_use ≡ some (ok, b₁))
    × (b₁.mapping ≡ in_use.mapping)
    × (ok ≡ true → (id f : ℕ) → find id b₁.mapping ≡ some f → (b₁.pages f).is_dirty ≡ false)
flush_all_lem_example = flush_all_lem silent in_use refl

-- a new pool of five frames gives two pages to each executor, however many ask
threshold : get_threshold_page (new_buffer_pool in_use.disk_manager 5) ≡ some 2
unfolding get_threshold_page new_buffer_pool add32 slt
threshold = refl

all_free : (new_buffer_pool in_use.disk_manager 3).free_list ≡ 0 ∷ 1 ∷ 2 ∷ []
unfolding new_buffer_pool frames_from
all_free = refl

returned :
    return_threshold_page (record in_use { allocated_threshold_pages = 4 }) 1
    ≡ some (record in_use { allocated_threshold_pages = 3 })
unfolding return_threshold_page sub32
returned = refl
