-- ===== src/LinkHash.antt =====
-- The link hash index: src/include/index/link_hash.h and src/index/link_hash.cpp.
-- A key's hash names a slot of the first page and a slot of a page of the second level, which names the
-- first page of a list of table pages. murmur3, of a submodule, is the parameter `hash`, and arithmetic
-- on doubles is a parameter too. A wait for another thread is a call that does not return.
pub mod Slots
pub mod Chain
pub mod Changes
pub mod Directory
pub mod Search
pub mod Marking
pub mod Lists
mod Examples
use dawn.Base.{
  ℕ, zero, suc, ◌+◌, ◌*◌, ◌/◌, ◌%◌, Bool, true, false, Option, none, some, List, [], ◌∷◌, ◌++◌,
  ◌==◌, if◌then◌else◌, not,
}
use dawn.Calls.{
  Action, pure, stuck, defined, gets, modify, ◌>>=◌, ◌>>◌, unpin_page, page_fuel, try_page,
  get_page, new_page, delete_page,
}
use dawn.Data.{Doubles, Value, value_eq, hashed_bytes}
use dawn.Disk.{Stream}
use dawn.LinkHash.Slots.{slot_num_of_page, init, get_pgid_in_slot, set_pgid_in_slot}
use dawn.Memory.{minus_one}
use dawn.Page.TablePage as TablePage
use dawn.Page.TablePage.{
  get_next_page_id, set_next_page_id, set_prev_page_id, get_tuple, get_next_tuple_rid,
  get_the_first_tuple, get_stored_tuple_cnt, slots,
}
use dawn.Page.{Page, Rid, invalid_rid, Tuple, empty_tuple}
use dawn.Schema.{Schema, get_value}

-- the results of an operation, of which OP_SUCCESS is 0
pub data OpCode : Type 0 where
  op_success dup_key new_pg_fail tuple_not_found mark_delete_fail : OpCode

-- `if (!code)`
abbrev pub is_zero : OpCode → Bool
is_zero op_success = true
is_zero _ = false

-- `get_hash_value`
unfoldable pub get_hash_value : (List ℕ → ℕ) → Value → ℕ
unfolding hashed_bytes
get_hash_value hash v = elim (hashed_bytes v) [ none ↦ 0 | some bs ↦ hash bs ]

-- the slot in the first page, and the slot in the page of the second level
unfoldable pub hash_to_slot : ℕ → ℕ × ℕ
hash_to_slot hash_val =
    let slot_num = hash_val % (slot_num_of_page * slot_num_of_page) in
    (slot_num / slot_num_of_page, slot_num % slot_num_of_page)

-- `new_tuple->set_rid(rid)`
abbrev pub set_rid : Tuple → Rid → Tuple
set_rid t rid = record t { rid = rid }

module _ (doubles : Doubles) where
  -- The loop over the tuples of a page, for at most `n` of them; the last tuple read stays where a read
  -- fails. `none` is the read of a value that is undefined, or `n` used up.
  unfoldable pub find_in_page : ℕ → Page → Schema → Value → Tuple → Rid → Option (Option Rid)
  find_in_page zero p tb_schema key_value cmp_tuple rid = none
  find_in_page (suc n) p tb_schema key_value cmp_tuple rid =
      let (_, read) = get_tuple p cmp_tuple rid in
      let (more, next) = get_next_tuple_rid p read.rid rid in
      let rest = find_in_page n p tb_schema key_value read next in
      elim (get_value read tb_schema tb_schema.key_idx) [
        | none ↦ none
        | some v ↦
            if value_eq doubles key_value v
            then some (some rid)
            else if more
            then rest
            else some none
      ]

  module _ {S : Type 0} (io : Stream S) where
    -- after the tuples of a page: `more` goes on at the next page of the list
    abbrev pub after_page : ℕ → ℕ → Option Rid → (ℕ → Action S (Option Rid)) → Action S (Option Rid)
    after_page page_id f (some rid) more = do unpin_page page_id false; pure (some rid)
    after_page page_id f none more = do
      next ← gets f get_next_page_id
      own ← gets f (λ p. p.page_id)
      unpin_page own false
      more next

    -- The loop over the pages of a list, from the page `third_level_page_id` on. A page without a tuple
    -- ends it.
    unfoldable pub find_in_list : Schema → Value → ℕ → ℕ → Action S (Option Rid)
    find_in_list tb_schema key_value zero third_level_page_id = stuck
    find_in_list tb_schema key_value (suc fuel) third_level_page_id =
        if third_level_page_id == minus_one then pure none else do
          f ← get_page io third_level_page_id
          first ← gets f (λ p. get_the_first_tuple p empty_tuple)
          (some_tuple, cmp_tuple) ← defined first
          found ← gets f (λ p. find_in_page (slots p) p tb_schema key_value cmp_tuple cmp_tuple.rid)
          if not some_tuple then (do unpin_page third_level_page_id false; pure none) else do
            rid ← defined found
            after_page third_level_page_id f rid (find_in_list tb_schema key_value fuel)

    -- the first page of the list of a hash value, or -1
    unfoldable pub find_list : ℕ → ℕ → Action S ℕ
    find_list first_page_id hash_val = do
      first_level_page ← get_page io first_page_id
      second_level_page_id ← gets first_level_page (get_pgid_in_slot (hash_to_slot hash_val).0)
      unpin_page first_page_id false
      if second_level_page_id == minus_one then pure minus_one else do
        second_level_page ← get_page io second_level_page_id
        third_level_page_id ← gets second_level_page (get_pgid_in_slot (hash_to_slot hash_val).1)
        unpin_page second_level_page_id false
        pure third_level_page_id

    module _ (hash : List ℕ → ℕ) where
      -- whether the key is there, and where
      unfoldable pub lk_ha_check_duplicate_key : ℕ → Value → Schema → Action S (Option Rid)
      lk_ha_check_duplicate_key first_page_id key_value tb_schema = do
        third_level_page_id ← find_list first_page_id (get_hash_value hash key_value)
        fuel ← page_fuel
        find_in_list tb_schema key_value fuel third_level_page_id

      unfoldable pub lk_ha_get_tuple : ℕ → Value → Tuple → Schema → Action S (OpCode × Tuple)
      lk_ha_get_tuple first_page_id key_value tuple tb_schema = do
        found ← lk_ha_check_duplicate_key first_page_id key_value tb_schema
        elim found [
          | none ↦ pure (tuple_not_found, tuple)
          | some rid ↦ do
            table_page ← get_page io rid.page_id
            (ok, read) ← gets table_page (λ p. get_tuple p tuple rid)
            unpin_page rid.page_id false
            pure (if ok then op_success else tuple_not_found, read)
        ]
