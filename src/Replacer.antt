-- ===== src/Replacer.antt =====
-- The clock replacer: src/include/buffer/clock_replacer.h and src/buffer/clock_replacer.cpp.
-- `flags` is the array of `pool_size` bytes; a frame id outside it is undefined behaviour in the
-- code, here it reads as `not_exist` and is not written. The mutex makes each call atomic.
pub mod Victim
pub mod Members
pub mod Chance
mod Examples
use dawn.Base.{
  ℕ, zero, suc, ◌+◌, ◌-◌, ◌*◌, ◌%◌, Bool, true, false, List, [], ◌∷◌, get_or, set, replicate, ltb,
  if◌then◌else◌,
}

-- FRAME_NOT_EXIST, FRAME_EXIST_TRUE, FRAME_EXIST_FALSE
pub data Flag : Type 0 where
  not_exist exist_true exist_false : Flag

pub record ClockReplacer : Type 0 where
  pub flags : List Flag
  pub pool_size : ℕ
  pub clock_pointer : ℕ
  pub exit_num : ℕ

unfoldable pub new : ℕ → ClockReplacer
new pool_size = record {
  flags = replicate pool_size not_exist;
  pool_size = pool_size;
  clock_pointer = 0;
  exit_num = 0;
}

abbrev pub flag : ClockReplacer → ℕ → Flag
flag r i = get_or r.flags i not_exist

-- `clock_pointer_to_next`
abbrev pub clock_pointer_to_next : ClockReplacer → ClockReplacer
clock_pointer_to_next r = record r { clock_pointer = (r.clock_pointer + 1) % r.pool_size }

unfoldable pub pin : ClockReplacer → ℕ → ClockReplacer
pin r frame_id = elim (flag r frame_id) [
  | not_exist ↦ r
  | _ ↦ record r { exit_num = r.exit_num - 1; flags = set r.flags frame_id not_exist }
]

unfoldable pub unpin : ClockReplacer → ℕ → ClockReplacer
unpin r frame_id = elim (flag r frame_id) [
  | not_exist ↦ record r { exit_num = r.exit_num + 1; flags = set r.flags frame_id exist_true }
  | _ ↦ r
]

-- What a call of `victim` comes to: it waits while the replacer is empty, or it returns a frame.
-- `spins` is a run of the second loop that is still going when the fuel is used up.
pub data Outcome : Type 0 where
  waits spins : Outcome
  evicts : ℕ → ClockReplacer → Outcome

-- the second loop of `victim`
unfoldable pub scan : ℕ → ClockReplacer → Outcome
scan zero r = spins
scan (suc fuel) r = elim (flag r r.clock_pointer) [
  | exist_false ↦ evicts r.clock_pointer (
      clock_pointer_to_next
        (record r { flags = set r.flags r.clock_pointer not_exist; exit_num = r.exit_num - 1 }))
  | exist_true ↦
      scan fuel
        (clock_pointer_to_next (record r { flags = set r.flags r.clock_pointer exist_false }))
  | not_exist ↦ scan fuel (clock_pointer_to_next r)
]

unfoldable pub victim : ClockReplacer → Outcome
unfolding scan
victim r = if ltb 0 r.exit_num then scan (2 * r.pool_size) r else waits

unfoldable pub size : ClockReplacer → ℕ
size r = r.exit_num

-- is the frame in the replacer
abbrev pub present : Flag → Bool
present not_exist = false
present exist_true = true
present exist_false = true
