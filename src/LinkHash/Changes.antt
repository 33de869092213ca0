-- ===== src/LinkHash/Changes.antt =====
-- Insertion, update and deletion of the link hash index, src/index/link_hash.cpp, and
-- `get_tuple_directly` of src/include/table/tb_common_op.h.
use dawn.Base.{
  ℕ, zero, suc, Bool, true, false, Option, none, some, List, [], ◌∷◌, ◌++◌, ◌==◌, if◌then◌else◌,
  not,
}
use dawn.Calls.{
  Action, pure, stuck, defined, gets, modify, ◌>>=◌, ◌>>◌, unpin_page, page_fuel, try_page,
  get_page, new_page, delete_page,
}
use dawn.Data.{Doubles, Value, value_eq}
use dawn.Disk.{Stream}
use dawn.LinkHash.Slots.{init, get_pgid_in_slot, set_pgid_in_slot}
use dawn.Memory.{minus_one}
use dawn.Page.TablePage as TablePage
use dawn.Page.TablePage.{
  get_next_page_id, set_next_page_id, set_prev_page_id, get_tuple, get_next_tuple_rid,
  get_the_first_tuple, get_stored_tuple_cnt, slots,
}
use dawn.Page.{Rid, Tuple, empty_tuple}
use dawn.Schema.{Schema, get_value}
use dawn.LinkHash.{
  OpCode, op_success, dup_key, tuple_not_found, mark_delete_fail, is_zero, get_hash_value,
  hash_to_slot, set_rid, lk_ha_check_duplicate_key, lk_ha_get_tuple,
}

module _ {S : Type 0} where
  -- `third_level_page->insert_tuple`
  abbrev pub insert_at : ℕ → Tuple → Action S (Bool × Rid)
  insert_at f tuple b =
      let (ok, rid, p) = TablePage.insert_tuple (b.pages f) tuple in
      (do modify f (λ _. p); pure (ok, rid)) b

  -- `tb_page->mark_delete`
  abbrev pub mark_at : ℕ → Rid → Action S Bool
  mark_at f rid b =
      let (ok, p) = TablePage.mark_delete (b.pages f) rid in (do modify f (λ _. p); pure ok) b

module _ (doubles : Doubles) {S : Type 0} (io : Stream S) (hash : List ℕ → ℕ) where
  -- The page of the second level for an insertion, which is made if there is none; its frame, and
  -- its id.
  unfoldable pub second_level : ℕ → ℕ → Action S (ℕ × ℕ)
  second_level first_page_id sec_pg_slot_num = do
    first_level_page ← get_page io first_page_id
    second_level_page_id ← gets first_level_page (get_pgid_in_slot sec_pg_slot_num)
    if second_level_page_id == minus_one
        then (do
          second_level_page ← new_page io
          new_id ← gets second_level_page (λ p. p.page_id)
          modify second_level_page init
          modify first_level_page (set_pgid_in_slot sec_pg_slot_num new_id)
          unpin_page first_page_id true
          pure (second_level_page, new_id))
        else do
          second_level_page ← get_page io second_level_page_id
          unpin_page first_page_id false
          pure (second_level_page, second_level_page_id)

  -- the first table page of the list, which is made if there is none
  unfoldable pub third_level : ℕ → ℕ → ℕ → Action S (ℕ × ℕ)
  third_level second_level_page second_level_page_id tb_pg_slot_num = do
    third_level_page_id ← gets second_level_page (get_pgid_in_slot tb_pg_slot_num)
    if third_level_page_id == minus_one
        then (do
          third_level_page ← new_page io
          new_id ← gets third_level_page (λ p. p.page_id)
          modify third_level_page (λ p. TablePage.init p minus_one minus_one)
          modify second_level_page (set_pgid_in_slot tb_pg_slot_num new_id)
          unpin_page second_level_page_id true
          pure (third_level_page, new_id))
        else do
          third_level_page ← get_page io third_level_page_id
          unpin_page second_level_page_id false
          pure (third_level_page, third_level_page_id)

  -- After a full page: the next page of the list, or a new page behind it, which is linked but not
  -- initialised.
  unfoldable pub next_for_insert : ℕ → Action S (ℕ × ℕ)
  next_for_insert third_level_page = do
    third_level_page_id ← gets third_level_page get_next_page_id
    own ← gets third_level_page (λ p. p.page_id)
    if third_level_page_id == minus_one
        then (do
          new_pg ← new_page io
          new_id ← gets new_pg (λ p. p.page_id)
          modify third_level_page (λ p. set_next_page_id p new_id)
          modify new_pg (λ p. set_prev_page_id p own)
          unpin_page own true
          pure (new_pg, new_id))
        else do
          next_page ← get_page io third_level_page_id
          unpin_page own false
          pure (next_page, third_level_page_id)

  -- the loop of the insertion, at the page in a frame
  unfoldable pub insert_loop : Tuple → ℕ → ℕ → ℕ → Action S Rid
  insert_loop tuple zero third_level_page third_level_page_id = stuck
  insert_loop tuple (suc fuel) third_level_page third_level_page_id = do
    (ok, rid) ← insert_at third_level_page tuple
    if ok then (do unpin_page third_level_page_id true; pure rid) else do
      (next_page, next_id) ← next_for_insert third_level_page
      insert_loop tuple fuel next_page next_id

  -- the result, and the tuple with its place
  unfoldable pub lk_ha_insert_tuple : ℕ → Tuple → Schema → Action S (OpCode × Tuple)
  lk_ha_insert_tuple first_page_id tuple tb_schema = do
    key_value ← defined (get_value tuple tb_schema tb_schema.key_idx)
    found ← lk_ha_check_duplicate_key doubles io hash first_page_id key_value tb_schema
    elim found [
      | some _ ↦ pure (dup_key, tuple)
      | none ↦ do
        (second_level_page, second_id) ←
            second_level first_page_id (hash_to_slot (get_hash_value hash key_value)).0
        (third_level_page, third_id) ←
            third_level second_level_page second_id (hash_to_slot (get_hash_value hash key_value)).1
        fuel ← page_fuel
        rid ← insert_loop tuple fuel third_level_page third_id
        pure (op_success, set_rid tuple rid)
    ]

  -- `get_tuple_directly`
  unfoldable pub get_tuple_directly : Rid → Tuple → Action S (OpCode × Tuple)
  get_tuple_directly rid tuple = do
    page ← try_page io rid.page_id
    elim page [
      | none ↦ pure (tuple_not_found, tuple)
      | some tb_page ↦ do
        (ok, read) ← gets tb_page (λ p. get_tuple p tuple rid)
        unpin_page rid.page_id false
        pure (if ok then op_success else tuple_not_found, read)
    ]

  -- On a duplicate key the page of the old tuple keeps its pin.
  unfoldable pub lk_ha_update_tuple : ℕ → Tuple → Rid → Schema → Action S (OpCode × Tuple)
  lk_ha_update_tuple first_page_id new_tuple old_rid tb_schema = do
    key_val ← defined (get_value new_tuple tb_schema tb_schema.key_idx)
    (code, old_tuple) ← get_tuple_directly old_rid empty_tuple
    if not (is_zero code) then pure (tuple_not_found, new_tuple) else do
      tb_page ← get_page io old_rid.page_id
      old_val ← defined (get_value old_tuple tb_schema tb_schema.key_idx)
      if value_eq doubles key_val old_val
          then (do
            modify tb_page (λ p. (TablePage.update_tuple p new_tuple old_rid).1)
            unpin_page old_rid.page_id true
            pure (op_success, set_rid new_tuple old_rid))
          else do
            (inserted, placed) ← lk_ha_insert_tuple first_page_id new_tuple tb_schema
            elim inserted [
              | dup_key ↦ pure (dup_key, placed)
              | _ ↦ do
                ok ← mark_at tb_page old_rid
                if not ok
                    then (do unpin_page old_rid.page_id false; pure (mark_delete_fail, placed))
                    else do
                      modify tb_page (λ p. TablePage.apply_delete p old_rid)
                      unpin_page old_rid.page_id true
                      pure (op_success, placed)
            ]

  -- `!lk_ha_get_tuple(...)` holds exactly if the tuple was found; `false` is OP_SUCCESS.
  unfoldable pub lk_ha_mark_delete : ℕ → Value → Schema → Action S OpCode
  lk_ha_mark_delete first_page_id key_value tb_schema = do
    (code, tuple) ← lk_ha_get_tuple doubles io hash first_page_id key_value empty_tuple tb_schema
    if is_zero code then pure op_success else do
      table_page ← get_page io tuple.rid.page_id
      ok ← mark_at table_page tuple.rid
      unpin_page tuple.rid.page_id true
      pure (if ok then op_success else tuple_not_found)

  -- The loop that collects the empty pages at the beginning of a list: their frames, and the first
  -- page that is not empty with its frame, if there is one.
  unfoldable pub collect_empty : ℕ → ℕ → ℕ → List ℕ → Action S (List ℕ × Option (ℕ × ℕ))
  collect_empty zero checked_tb_page checked_pgid empty_pages = stuck
  collect_empty (suc fuel) checked_tb_page checked_pgid empty_pages = do
    count ← gets checked_tb_page get_stored_tuple_cnt
    if not (count == 0) then pure (empty_pages, some (checked_tb_page, checked_pgid)) else do
      next ← gets checked_tb_page get_next_page_id
      if next == minus_one then pure (empty_pages ++ checked_tb_page ∷ [], none) else do
        next_page ← get_page io next
        collect_empty fuel next_page next (empty_pages ++ checked_tb_page ∷ [])

  -- a page that somebody uses is waited for
  unfoldable pub delete_pages : List ℕ → Action S (Unit {0})
  delete_pages [] = pure tt
  delete_pages (f ∷ rest) = do
    own ← gets f (λ p. p.page_id)
    unpin_page own false
    again ← gets f (λ p. p.page_id)
    deleted ← delete_page io again
    if deleted then delete_pages rest else stuck

  unfoldable pub lk_ha_clear_empty_page : ℕ → ℕ → ℕ → Action S (Unit {0})
  lk_ha_clear_empty_page first_page_id sec_pg_slot_num tb_pg_slot_num = do
    first_level_pg ← get_page io first_page_id
    sec_level_pgid ← gets first_level_pg (get_pgid_in_slot sec_pg_slot_num)
    unpin_page first_page_id false
    sec_level_pg ← get_page io sec_level_pgid
    checked_pgid ← gets sec_level_pg (get_pgid_in_slot tb_pg_slot_num)
    checked_tb_page ← get_page io checked_pgid
    fuel ← page_fuel
    (empty_pages, left) ← collect_empty fuel checked_tb_page checked_pgid []
    delete_pages empty_pages
    elim left [
      | none ↦ do
        modify sec_level_pg (set_pgid_in_slot tb_pg_slot_num minus_one)
        unpin_page sec_level_pgid true
      | some (page, pgid) ↦ do
        modify sec_level_pg (set_pgid_in_slot tb_pg_slot_num pgid)
        modify page (λ p. set_prev_page_id p minus_one)
        unpin_page pgid true
        unpin_page sec_level_pgid true
    ]

  unfoldable pub lk_ha_apply_delete : ℕ → Value → Schema → Action S (Unit {0})
  lk_ha_apply_delete first_page_id key_value tb_schema = do
    (code, tuple) ← lk_ha_get_tuple doubles io hash first_page_id key_value empty_tuple tb_schema
    if not (is_zero code) then pure tt else do
      tb_page ← get_page io tuple.rid.page_id
      modify tb_page (λ p. TablePage.apply_delete p tuple.rid)
      tuple_cnt ← gets tb_page get_stored_tuple_cnt
      unpin_page tuple.rid.page_id true
      if not (tuple_cnt == 0)
          then pure tt
          else lk_ha_clear_empty_page first_page_id (hash_to_slot (get_hash_value hash key_value)).0
              (hash_to_slot (get_hash_value hash key_value)).1

  -- which does nothing
  unfoldable pub lk_ha_rollback_delete : ℕ → Value → Schema → Action S (Unit {0})
  lk_ha_rollback_delete first_page_id key_value tb_schema = pure tt
