-- ===== src/LinkHash/Slots.antt =====
-- A page of the hash index: src/include/storage/page/link_hash_page.h.
-- The slots stand behind the header of 64 bytes, 4 bytes each; all accesses are those of a `Page`.
use dawn.Base.{ℕ, zero, suc, ◌+◌, ◌*◌, leb, ◌==◌, if◌then◌else◌}
use dawn.Memory.{Memory, read32, write32, minus_one, add32}
use dawn.Page.{Page}

-- LK_HA_PG_SLOT_NUM
abbrev pub slot_num_of_page : ℕ
slot_num_of_page = 1008

-- the loop of `init`, with `left` slots to go
unfoldable pub clear_slots : ℕ → ℕ → Memory → Memory
clear_slots zero i m = m
clear_slots (suc left) i m = clear_slots left (i + 1) (write32 m (64 + i * 4) minus_one)

unfoldable pub init : Page → Page
unfolding clear_slots
init p = record p { data_ = clear_slots slot_num_of_page 0 p.data_ }

-- A negative slot number is a large bit pattern.
unfoldable pub get_pgid_in_slot : ℕ → Page → ℕ
get_pgid_in_slot slot_num p =
    if leb slot_num_of_page slot_num then minus_one else read32 p.data_ (64 + slot_num * 4)

unfoldable pub set_pgid_in_slot : ℕ → ℕ → Page → Page
set_pgid_in_slot slot_num page_id p =
    if leb slot_num_of_page slot_num
    then p
    else record p { data_ = write32 p.data_ (64 + slot_num * 4) page_id }

-- The loop of `get_next_pgid_in_slot`, which writes its own variable, not yet set, into the slot: `junk`
-- is what it holds. The id it returns, and the page.
unfoldable pub next_pgid_loop : (ℕ → ℕ) → ℕ → ℕ → Page → ℕ × Page
next_pgid_loop junk zero slot_num p = (minus_one, p)
next_pgid_loop junk (suc left) slot_num p =
    let written : Page = record p { data_ = write32 p.data_ (64 + slot_num * 4) (junk slot_num) } in
    let rest = next_pgid_loop junk left (slot_num + 1) written in
    if junk slot_num == minus_one then rest else (junk slot_num, written)

-- Both branches give slot 0.
unfoldable pub get_next_pgid_in_slot : (ℕ → ℕ) → ℕ → Page → ℕ × Page
unfolding next_pgid_loop
get_next_pgid_in_slot junk start_slot p =
    next_pgid_loop junk slot_num_of_page (if start_slot == minus_one then add32 start_slot 1 else 0)
      p
