-- ===== src/Table/Iterator.antt =====
-- The iterator over a table with a link hash index: src/include/table/lk_ha_tb_iter.h and
-- src/table/lk_ha_tb_iter.cpp. The numbers of the slots are bit patterns; -1 is no slot.
use dawn.Base.{
  ℕ, zero, suc, ◌+◌, ◌-◌, Bool, true, false, Option, some, ◌==◌, leb, if◌then◌else◌, not,
}
use dawn.Calls.{Action, pure, stuck, defined, gets, ◌>>=◌, ◌>>◌, unpin_page, page_fuel, get_page}
use dawn.Disk.{Stream}
use dawn.LinkHash.Slots.{slot_num_of_page, get_pgid_in_slot}
use dawn.LinkHash.{set_rid}
use dawn.Memory.{minus_one}
use dawn.Page.TablePage.{get_next_page_id, get_tuple, get_next_tuple_rid, get_the_first_tuple}
use dawn.Page.{Page, Rid, invalid_rid, Tuple, empty_tuple}

pub record LinkHashTableIter : Type 0 where
  pub first_page_id : ℕ
  pub tuple : Tuple
  pub slot1_num : ℕ
  pub slot2_num : ℕ

-- The first of the `left` slots from `slot_num` that names a page, and that page's id; the number of the
-- slots, and -1, if there is none.
unfoldable pub find_slot : Page → ℕ → ℕ → ℕ × ℕ
unfolding get_pgid_in_slot
find_slot p zero slot_num = (slot_num, minus_one)
find_slot p (suc left) slot_num =
    let id = get_pgid_in_slot slot_num p in
    let rest = find_slot p left (slot_num + 1) in if id == minus_one then rest else (slot_num, id)

-- the slot after `slot_num` that names a page, of the loops that increment the number first
abbrev pub next_slot : Page → ℕ → ℕ × ℕ
unfolding find_slot
next_slot p slot_num = find_slot p (slot_num_of_page - (slot_num + 1)) (slot_num + 1)

module _ {S : Type 0} (io : Stream S) where
  -- The loop of the constructor over the slots of the first page. It keeps the pins of the first page
  -- and of the pages of the second level. An empty table page ends the program.
  unfoldable pub find_first : LinkHashTableIter → ℕ → ℕ → ℕ → Action S LinkHashTableIter
  find_first it level1_page zero slot1_num =
      pure (record it { tuple = set_rid it.tuple invalid_rid; slot1_num = minus_one })
  find_first it level1_page (suc left) slot1_num = do
    sec_page_id ← gets level1_page (get_pgid_in_slot slot1_num)
    if sec_page_id == minus_one then find_first it level1_page left (slot1_num + 1) else do
      level2_page ← get_page io sec_page_id
      (slot2_num, level3_page_id) ← gets level2_page (λ p. find_slot p slot_num_of_page 0)
      if level3_page_id == minus_one then find_first it level1_page left (slot1_num + 1) else do
        level3_page ← get_page io level3_page_id
        first ← gets level3_page (λ p. get_the_first_tuple p it.tuple)
        (ok, tuple) ← defined first
        if not ok then stuck else do
          unpin_page level3_page_id false
          pure (record it { tuple = tuple; slot1_num = slot1_num; slot2_num = slot2_num })

  -- the constructor; the slot that it does not set is -1 here
  unfoldable pub new_iter : ℕ → Action S LinkHashTableIter
  new_iter first_page_id = do
    level1_page ← get_page io first_page_id
    find_first
        (record {
          first_page_id = first_page_id;
          tuple = empty_tuple;
          slot1_num = minus_one;
          slot2_num = minus_one;
        })
        level1_page slot_num_of_page 0

  -- the tuple after `cur_rid` on the page, or the first one if the RID is not of this page
  abbrev pub next_on_page : Page → Rid → Tuple → Option (Bool × Tuple)
  next_on_page p cur_rid tuple =
      let (ok, next_rid) = get_next_tuple_rid p cur_rid invalid_rid in
      if cur_rid.page_id == p.page_id
      then some (ok, (get_tuple p tuple next_rid).1)
      else get_the_first_tuple p tuple

  -- the loop of `operator++` over a list of table pages: whether a tuple was found, and the tuple
  unfoldable pub next_in_list : Rid → ℕ → ℕ → Tuple → Action S (Bool × Tuple)
  next_in_list cur_rid zero cur_tb_pgid tuple = stuck
  next_in_list cur_rid (suc fuel) cur_tb_pgid tuple = do
    cur_tb_page ← get_page io cur_tb_pgid
    found ← gets cur_tb_page (λ p. next_on_page p cur_rid tuple)
    (ok, read) ← defined found
    unpin_page cur_tb_pgid false
    if ok then pure (true, read) else do
      next ← gets cur_tb_page get_next_page_id
      if next == minus_one then pure (false, read) else next_in_list cur_rid fuel next read

  -- The loop over the lists of a page of the second level, from the list `cur_tb_pgid` of the slot
  -- `cur_slot2_num` on: whether a tuple was found, the slot and the tuple.
  unfoldable pub next_in_level2 : Rid → ℕ → ℕ → ℕ → ℕ → Tuple → Action S (Bool × ℕ × Tuple)
  next_in_level2 cur_rid level2_page zero cur_slot2_num cur_tb_pgid tuple = stuck
  next_in_level2 cur_rid level2_page (suc left) cur_slot2_num cur_tb_pgid tuple = do
    fuel ← page_fuel
    (ok, read) ← next_in_list cur_rid fuel cur_tb_pgid tuple
    if ok then pure (true, cur_slot2_num, read) else do
      (slot2_num, tb_pgid) ← gets level2_page (λ p. next_slot p cur_slot2_num)
      if leb slot_num_of_page slot2_num
          then pure (false, slot2_num, read)
          else next_in_level2 cur_rid level2_page left slot2_num tb_pgid read

  -- The loop over the pages of the second level. On a page after the first one the search begins at the
  -- first list, which is there if the page has one.
  unfoldable pub next_in_level1 :
      LinkHashTableIter → Rid → ℕ → ℕ → ℕ → ℕ → ℕ → ℕ → Tuple → Action S LinkHashTableIter
  next_in_level1 it cur_rid level1_page zero cur_slot1_num cur_level2_pgid cur_slot2_num cur_tb_pgid
        tuple =
      stuck
  next_in_level1 it cur_rid level1_page (suc left) cur_slot1_num cur_level2_pgid cur_slot2_num
        cur_tb_pgid tuple =
      do
        level2_page ← get_page io cur_level2_pgid
        (slot2_num, tb_pgid) ← gets level2_page (λ p.
            if cur_tb_pgid == minus_one
            then find_slot p slot_num_of_page 0
            else (cur_slot2_num, cur_tb_pgid))
        (ok, found_slot, read) ←
            (if tb_pgid == minus_one
              then pure (false, slot2_num, tuple)
              else next_in_level2 cur_rid level2_page slot_num_of_page slot2_num tb_pgid tuple)
        own ← gets level2_page (λ p. p.page_id)
        unpin_page own false
        if ok
            then (do
              unpin_page it.first_page_id false
              pure (record it { tuple = read; slot1_num = cur_slot1_num; slot2_num = found_slot }))
            else do
              (slot1_num, level2_pgid) ← gets level1_page (λ p. next_slot p cur_slot1_num)
              if leb slot_num_of_page slot1_num
                  then (do
                    unpin_page it.first_page_id false
                    pure (record it {
                      tuple = set_rid read invalid_rid;
                      slot1_num = minus_one;
                      slot2_num = minus_one;
                    }))
                  else next_in_level1 it cur_rid level1_page left slot1_num level2_pgid minus_one
                      minus_one read

  -- `operator++`
  unfoldable pub next_tuple : LinkHashTableIter → Action S LinkHashTableIter
  next_tuple it =
      if it.tuple.rid.page_id == minus_one
      then pure (record it { tuple = set_rid it.tuple invalid_rid })
      else do
        level1_page ← get_page io it.first_page_id
        cur_level2_pgid ← gets level1_page (get_pgid_in_slot it.slot1_num)
        next_in_level1 it it.tuple.rid level1_page slot_num_of_page it.slot1_num cur_level2_pgid
            it.slot2_num it.tuple.rid.page_id it.tuple
