-- ===== src/Latch.antt =====
-- The reader-writer latch: src/include/util/rwlatch.h.
-- Each test and update is made under the mutex, so it is one step. A wait may end at any time, and
-- its loop then tests again: a thread that waits has not changed the latch.
mod Examples
pub mod Holders
pub mod Safety
use dawn.Base.{
  ℕ, zero, suc, ◌+◌, ◌-◌, ◌≡◌, Bool, true, false, ◌||◌, Option, none, some, List, ltb, ◌==◌,
  if◌then◌else◌, get_elem?, set, replicate,
}
use dawn.Memory.{minus_one, add32, sub32}

-- UINT_MAX
abbrev pub max_readers : ℕ
max_readers = minus_one

pub record Latch : Type 0 where
  pub reader_count : ℕ
  pub writer_entered : Bool

abbrev pub new_latch : Latch
new_latch = record { reader_count = 0; writer_entered = false }

-- `w_lock` up to its second loop; `none` waits
unfoldable pub w_enter : Latch → Option Latch
w_enter l = if l.writer_entered then none else some (record l { writer_entered = true })

-- the second loop of `w_lock`
unfoldable pub w_drain : Latch → Option Latch
w_drain l = if ltb 0 l.reader_count then none else some l

unfoldable pub w_unlock : Latch → Latch
w_unlock l = record l { writer_entered = false }

unfoldable pub r_lock : Latch → Option Latch
r_lock l =
    if l.writer_entered || l.reader_count == max_readers
    then none
    else some (record l { reader_count = add32 l.reader_count 1 })

unfoldable pub r_unlock : Latch → Latch
r_unlock l = record l { reader_count = sub32 l.reader_count 1 }

-- where a thread is: `entered` waits in the second loop of `w_lock`
pub data Phase : Type 0 where
  outside entered writing reading : Phase

pub record System : Type 0 where
  pub latch : Latch
  pub threads : List Phase

-- A thread unlocks only what it has locked.
pub data Step (s : System) : System → Type 0 where
  enters :
      (i : ℕ) {l : Latch}
      → get_elem? s.threads i ≡ some outside
      → w_enter s.latch ≡ some l
      → Step s (record { latch = l; threads = set s.threads i entered })
  drains :
      (i : ℕ) {l : Latch}
      → get_elem? s.threads i ≡ some entered
      → w_drain s.latch ≡ some l
      → Step s (record { latch = l; threads = set s.threads i writing })
  w_unlocks :
      (i : ℕ)
      → get_elem? s.threads i ≡ some writing
      → Step s (record { latch = w_unlock s.latch; threads = set s.threads i outside })
  r_locks :
      (i : ℕ) {l : Latch}
      → get_elem? s.threads i ≡ some outside
      → r_lock s.latch ≡ some l
      → Step s (record { latch = l; threads = set s.threads i reading })
  r_unlocks :
      (i : ℕ)
      → get_elem? s.threads i ≡ some reading
      → Step s (record { latch = r_unlock s.latch; threads = set s.threads i outside })

-- `n` threads, with nobody in the latch
abbrev pub start : ℕ → System
start n = record { latch = new_latch; threads = replicate n outside }

pub data Reach (n : ℕ) : System → Type 0 where
  begin : Reach n (start n)
  later : {s t : System} → Reach n s → Step s t → Reach n t
