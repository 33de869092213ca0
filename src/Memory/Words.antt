-- ===== src/Memory/Words.antt =====
-- `int32_t` arithmetic and comparison on bit patterns.
use dawn.Base.{ℕ, ◌+◌, ◌-◌, ◌*◌, ◌%◌, ◌≤◌, ◌<◌, ◌≡◌, ltb, arith, Bool}

-- -1, which is INVALID_PAGE_ID and INVALID_SLOT_NUM too
abbrev pub minus_one : ℕ
minus_one = 4294967295

abbrev pub u32_mod : ℕ
u32_mod = 4294967296

unfoldable pub add32 : ℕ → ℕ → ℕ
add32 a b = (a + b) % u32_mod

unfoldable pub sub32 : ℕ → ℕ → ℕ
sub32 a b = (a + u32_mod - b) % u32_mod

unfoldable pub mul32 : ℕ → ℕ → ℕ
mul32 a b = a * b % u32_mod

-- `a < b` on `int32_t`
unfoldable pub slt : ℕ → ℕ → Bool
slt a b = ltb ((a + 2147483648) % u32_mod) ((b + 2147483648) % u32_mod)

pub slt_small : (a b : ℕ) → a < 2147483648 → b < 2147483648 → slt a b ≡ ltb a b
unfolding slt
slt_small a b ha hb = ground arith

pub sub32_small : (a b : ℕ) → a < u32_mod → b ≤ a → sub32 a b ≡ a - b
unfolding sub32
sub32_small a b ha hb = omega arith

pub add32_small : (a b : ℕ) → a + b < u32_mod → add32 a b ≡ a + b
unfolding add32
add32_small a b h = omega arith
