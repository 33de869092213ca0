-- ===== src/Table.antt =====
-- Tables: src/include/table/table.h and src/table/table.cpp. A table has the link hash index, the only
-- one that there is; its state is the id of its first page, and the pool.
mod Examples
pub mod Fresh
pub mod Iterator
pub mod Walk
use dawn.Base.{
  ℕ, zero, suc, Bool, true, false, Option, none, some, List, [], ◌∷◌, ◌==◌, leb, if◌then◌else◌, not,
}
use dawn.Calls.{
  Action, pure, stuck, gets, modify, ◌>>=◌, ◌>>◌, unpin_page, page_fuel, try_page, get_page,
  delete_page,
}
use dawn.Data.{Doubles, Value}
use dawn.Disk.IdSet.{insert}
use dawn.Disk.{Stream}
use dawn.LinkHash.Slots as Slots
use dawn.LinkHash.{OpCode, is_zero, lk_ha_get_tuple}
use dawn.LinkHash.Changes.{
  mark_at, get_tuple_directly, lk_ha_insert_tuple, lk_ha_update_tuple, lk_ha_mark_delete,
  lk_ha_apply_delete, lk_ha_rollback_delete,
}
use dawn.Memory.{minus_one}
use dawn.Page.TablePage as TablePage
use dawn.Page.TablePage.{get_next_page_id}
use dawn.Page.{Rid, Tuple, empty_tuple}
use dawn.Schema.{Schema}

pub record Table : Type 0 where
  pub first_table_page_id : ℕ

-- the result of a call as a Boolean, with the tuple
abbrev succeeded : {S : Type 0} → OpCode × Tuple → Action S (Bool × Tuple)
succeeded (code, tuple) = pure (is_zero code, tuple)

module _ {S : Type 0} (io : Stream S) where
  -- the constructor; without the first page the program ends
  unfoldable pub new_table : ℕ → Bool → Action S Table
  new_table first_table_page_id from_scratch =
      let t : Table = record { first_table_page_id = first_table_page_id } in
      if not from_scratch then pure t else do
        page ← get_page io first_table_page_id
        modify page Slots.init
        unpin_page first_table_page_id true
        pure t

  -- the loop of `delete_all_data` that collects the ids, which reads a page after it is unpinned;
  -- `none` is the return for a page that is missing
  unfoldable pub collect_pages : ℕ → ℕ → List ℕ → Action S (Option (List ℕ))
  collect_pages zero next_page_id deleted_pages = stuck
  collect_pages (suc fuel) next_page_id deleted_pages =
      if next_page_id == minus_one then pure (some deleted_pages) else do
        page ← try_page io next_page_id
        elim page [
          | none ↦ pure none
          | some table_page ↦ do
            unpin_page next_page_id false
            next ← gets table_page get_next_page_id
            collect_pages fuel next (insert next_page_id deleted_pages)
        ]

  unfoldable pub delete_each : List ℕ → Action S (Unit {0})
  delete_each [] = pure tt
  delete_each (page_id ∷ rest) = do deleted ← delete_page io page_id; delete_each rest

  unfoldable pub delete_all_data : Table → Action S (Unit {0})
  delete_all_data t = do
    fuel ← page_fuel
    deleted_pages ← collect_pages fuel t.first_table_page_id []
    elim deleted_pages [ none ↦ pure tt | some ids ↦ delete_each ids ]

  -- The calls that take a RID. `page_id < 0` is the sign bit.
  unfoldable pub mark_delete_at : Rid → Action S Bool
  mark_delete_at rid = if leb 2147483648 rid.page_id then pure false else do
    table_page ← get_page io rid.page_id
    ok ← mark_at table_page rid
    unpin_page rid.page_id true
    pure ok

  unfoldable pub apply_delete_at : Rid → Action S (Unit {0})
  apply_delete_at rid = if leb 2147483648 rid.page_id then pure tt else do
    page ← try_page io rid.page_id
    elim page [
      | none ↦ pure tt
      | some table_page ↦ do
        modify table_page (λ p. TablePage.apply_delete p rid)
        unpin_page rid.page_id true
    ]

  unfoldable pub rollback_delete_at : Rid → Action S (Unit {0})
  rollback_delete_at rid = if leb 2147483648 rid.page_id then pure tt else do
    table_page ← get_page io rid.page_id
    modify table_page (λ p. TablePage.rollback_delete p rid)
    unpin_page rid.page_id true

  module _ (doubles : Doubles) (hash : List ℕ → ℕ) where
    unfoldable pub get_tuple_at : Tuple → Rid → Action S (Bool × Tuple)
    get_tuple_at tuple rid = do r ← get_tuple_directly doubles io hash rid tuple; succeeded r

    -- the calls that take a key
    unfoldable pub get_tuple : Table → Value → Tuple → Schema → Action S (Bool × Tuple)
    get_tuple t key_value tuple tb_schema = do
      r ← lk_ha_get_tuple doubles io hash t.first_table_page_id key_value tuple tb_schema
      succeeded r

    unfoldable pub insert_tuple : Table → Tuple → Schema → Action S (Bool × Tuple)
    insert_tuple t tuple tb_schema = do
      r ← lk_ha_insert_tuple doubles io hash t.first_table_page_id tuple tb_schema
      succeeded r

    unfoldable pub update_tuple : Table → Tuple → Rid → Schema → Action S (Bool × Tuple)
    update_tuple t new_tuple old_rid tb_schema = do
      r ← lk_ha_update_tuple doubles io hash t.first_table_page_id new_tuple old_rid tb_schema
      succeeded r

    unfoldable pub mark_delete : Table → Value → Schema → Action S Bool
    mark_delete t key_value tb_schema = do
      code ← lk_ha_mark_delete doubles io hash t.first_table_page_id key_value tb_schema
      pure (is_zero code)

    unfoldable pub apply_delete : Table → Value → Schema → Action S (Unit {0})
    apply_delete t key_value tb_schema = do
      (found, tuple) ← get_tuple t key_value empty_tuple tb_schema
      if not found
          then pure tt
          else lk_ha_apply_delete doubles io hash t.first_table_page_id key_value tb_schema

    unfoldable pub rollback_delete : Table → Value → Schema → Action S (Unit {0})
    rollback_delete t key_value tb_schema =
        lk_ha_rollback_delete doubles io hash t.first_table_page_id key_value tb_schema
