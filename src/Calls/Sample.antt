-- ===== src/Calls/Sample.antt =====
-- A small pool for the runs of the modules above the buffer pool: page 5 in the first of its frames.
use dawn.Base.{ℕ, true, false, List, [], ◌∷◌, ltb, leb, ◌==◌, if◌then◌else◌, ◌&&◌, get_or}
use dawn.Data.{Doubles, integer}
use dawn.Disk.{Stream}
use dawn.Memory.{Memory}
use dawn.Page.{new_page}
use dawn.Pool.{BufferPool}
use dawn.Replacer.{new}
use dawn.Schema.{Schema, new_column}

-- a stream whose reads get no byte
abbrev pub silent : Stream ℕ
silent = record {
  is_open = λ s. true;
  write = λ s off bytes. (s, false);
  read = λ s off n. (s, []);
}

-- positive doubles are ordered as their patterns are
abbrev pub patterns : Doubles
patterns = record { lt = ltb; le = leb; eq = λ l r. l == r; calc = λ op l r. l }

-- the low byte of a key
abbrev pub low_byte : List ℕ → ℕ
low_byte bs = get_or bs 0 0

abbrev pub one_integer : Schema
one_integer = record { columns = new_column integer (105 ∷ []) 0 ∷ []; length_ = 4; key_idx = 0 }

-- no slot of the index, or the last page of a list
abbrev pub linked_nowhere : Memory
linked_nowhere x = if leb 64 x && ltb x 72 then 255 else 0

-- page 5 with these bytes in frame 0, and four free frames
abbrev pub pool_of : Memory → BufferPool ℕ
pool_of m = record {
  pages = λ i.
      if i == 0
      then record { page_id = 5; pin_count = 0; is_dirty = false; lsn = 0; data_ = m }
      else new_page;
  pool_size = 5;
  available_threshold_page = 4;
  allocated_threshold_pages = 0;
  free_list = 1 ∷ 2 ∷ 3 ∷ 4 ∷ [];
  mapping = (5, 0) ∷ [];
  disk_manager = record {
    db_io = 0;
    status = true;
    max_ava_pgid = 10;
    max_alloced_pgid = 5;
    alloced_pgid = 5 ∷ [];
    free_pgid = 6 ∷ 7 ∷ 8 ∷ 9 ∷ [];
    page_buf = [];
  };
  replacer = new 5;
  latch_kept = false;
}
