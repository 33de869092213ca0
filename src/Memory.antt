-- ===== src/Memory.antt =====
-- A page's bytes and the machine words in them: what `reinterpret_cast`, memcpy, memmove and memset
-- do in src/storage/page and src/include/storage/page.
-- A memory gives the byte at each offset from `data_`. An `int32_t` is its bit pattern, a number
-- below 2 ^ 32, stored low byte first; -1 is 2 ^ 32 - 1.
mod Words
unfoldable pub use Words.{minus_one, u32_mod, add32, sub32, mul32, slt}
pub use Words.{slt_small, sub32_small, add32_small}
use dawn.Base.{
  ℕ, ◌+◌, ◌-◌, ◌*◌, ◌/◌, ◌%◌, ◌≤◌, ◌<◌, ◌≡◌, ◌⊎◌, inl, inr, List, ◌&&◌, Bool, length, get_or, ltb,
  leb, ◌==◌, if◌then◌else◌, arith,
}

abbrev pub Memory : Type 0
Memory = ℕ → ℕ

-- `*reinterpret_cast<int32_t*>(data_ + at)`
unfoldable pub read32 : Memory → ℕ → ℕ
read32 m at = m at + 256 * m (at + 1) + 65536 * m (at + 2) + 16777216 * m (at + 3)

-- `*reinterpret_cast<int32_t*>(data_ + at) = v`
unfoldable pub write32 : Memory → ℕ → ℕ → Memory
write32 m at v x =
    if x == at
    then v % 256
    else if x == (at + 1)
    then v / 256 % 256
    else if x == (at + 2)
    then v / 65536 % 256
    else if x == (at + 3)
    then v / 16777216 % 256
    else m x

-- `x` is one of the `n` offsets from `at`
abbrev pub inside : ℕ → ℕ → ℕ → Bool
inside at n x = leb at x && ltb x (at + n)

-- `memcpy(data_ + dst, src, n)` from a buffer
unfoldable pub memcpy : Memory → ℕ → List ℕ → ℕ → Memory
memcpy m dst src n x = if inside dst n x then get_or src (x - dst) 0 else m x

-- `memmove(data_ + dst, data_ + src, n)`
unfoldable pub memmove : Memory → ℕ → ℕ → ℕ → Memory
memmove m dst src n x = if inside dst n x then m (src + (x - dst)) else m x

-- `memset(data_ + at, 0, n)`
unfoldable pub memset0 : Memory → ℕ → ℕ → Memory
memset0 m at n x = if inside at n x then 0 else m x

-- The four bytes of `read32` and those of a write do not meet.
abbrev pub Apart : ℕ → ℕ → ℕ → Type 0
Apart at n b = (at + n ≤ b) ⊎ (b + 4 ≤ at)

pub read32-write32 : (m : Memory) (at v : ℕ) → v < 4294967296 → read32 (write32 m at v) at ≡ v
unfolding read32 write32
read32-write32 m at v h = ground arith

pub write32_outside : (m : Memory) (at v x : ℕ) → (x < at) ⊎ (at + 4 ≤ x) → write32 m at v x ≡ m x
unfolding write32
write32_outside m at v x h = ground arith

pub read32-congr :
    (m m' : Memory) (b : ℕ) → ((x : ℕ) → b ≤ x → x < b + 4 → m x ≡ m' x) → read32 m b ≡ read32 m' b
unfolding read32
read32-congr m m' b same = omega (
  arith,
  same b (omega arith) (omega arith),
  same (b + 1) (omega arith) (omega arith),
  same (b + 2) (omega arith) (omega arith),
  same (b + 3) (omega arith) (omega arith),
)

pub read32-write32-Apart :
    (m : Memory) (at v b : ℕ) → Apart at 4 b → read32 (write32 m at v) b ≡ read32 m b
read32-write32-Apart m at v b h =
    read32-congr _ m b (λ x lo hi. write32_outside m at v x (omega arith))

pub memcpy_outside :
    (m : Memory) (dst : ℕ) (src : List ℕ) (n x : ℕ)
    → (x < dst) ⊎ (dst + n ≤ x)
    → memcpy m dst src n x ≡ m x
unfolding memcpy
memcpy_outside m dst src n x h = ground arith

pub read32-memcpy :
    (m : Memory) (dst : ℕ) (src : List ℕ) (n b : ℕ)
    → Apart dst n b
    → read32 (memcpy m dst src n) b ≡ read32 m b
read32-memcpy m dst src n b h =
    read32-congr _ m b (λ x lo hi. memcpy_outside m dst src n x (omega arith))

pub memmove_outside :
    (m : Memory) (dst src n x : ℕ) → (x < dst) ⊎ (dst + n ≤ x) → memmove m dst src n x ≡ m x
unfolding memmove
memmove_outside m dst src n x h = ground arith

pub memmove_inside :
    (m : Memory) (dst src n x : ℕ)
    → dst ≤ x
    → x < dst + n
    → memmove m dst src n x ≡ m (src + (x - dst))
unfolding memmove
memmove_inside m dst src n x lo hi = ground arith

pub read32-memmove :
    (m : Memory) (dst src n b : ℕ) → Apart dst n b → read32 (memmove m dst src n) b ≡ read32 m b
read32-memmove m dst src n b h =
    read32-congr _ m b (λ x lo hi. memmove_outside m dst src n x (omega arith))

pub memset0_outside : (m : Memory) (at n x : ℕ) → (x < at) ⊎ (at + n ≤ x) → memset0 m at n x ≡ m x
unfolding memset0
memset0_outside m at n x h = ground arith

pub read32-memset0 :
    (m : Memory) (at n b : ℕ) → Apart at n b → read32 (memset0 m at n) b ≡ read32 m b
read32-memset0 m at n b h = read32-congr _ m b (λ x lo hi. memset0_outside m at n x (omega arith))

pub read32-memset0_inside :
    (m : Memory) (at n b : ℕ) → at ≤ b → b + 4 ≤ at + n → read32 (memset0 m at n) b ≡ 0
unfolding memset0 read32
read32-memset0_inside m at n b lo hi =
    read32-congr (memset0 m at n) (λ _. 0) b (λ x l h. ground arith)
