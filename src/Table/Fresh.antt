-- ===== src/Table/Fresh.antt =====
-- A table right after it was made, and what its other operations do then.
use dawn.Base.{ℕ, suc, ◌<◌, ◌≡◌, Option, refl, ◌∙◌, true, false, none, some, List}
use dawn.Calls.Holds.{Holds, get_page-Holds, unpin_page-Holds, modify-Holds}
use dawn.Calls.{◌>>=◌}
use dawn.Data.{Doubles, Value}
use dawn.Disk.{Stream}
use dawn.LinkHash.Directory.{get_pgid_in_slot-init}
use dawn.LinkHash.Slots.{init, get_pgid_in_slot}
use dawn.LinkHash.{
  find_list, hash_to_slot, get_hash_value, find_in_list, lk_ha_check_duplicate_key, lk_ha_get_tuple,
  tuple_not_found,
}
use dawn.Memory.{Memory, minus_one}
use dawn.Page.{Page, Tuple}
use dawn.Pool.{BufferPool, find, put}
use dawn.Schema.{Schema}
use dawn.Table.{Table, new_table, delete_each, get_tuple}

-- the bytes of a page of the index whose slots are all -1
abbrev pub Cleared : Memory → Type 0
Cleared m = (p : Page) (slot : ℕ) → p.data_ ≡ m → get_pgid_in_slot slot p ≡ minus_one

slots_by_data :
    (p q : Page) (slot : ℕ) → p.data_ ≡ q.data_ → get_pgid_in_slot slot p ≡ get_pgid_in_slot slot q
unfolding get_pgid_in_slot
slots_by_data p q slot same = rw same refl

module _ {S : Type 0} (io : Stream S) where
  -- the end of `delete_all_data`, after the ids are collected
  abbrev pub deleting : Option (Option (List ℕ) × BufferPool S) → Option (Unit {0} × BufferPool S)
  deleting none = none
  deleting (some (none, b)) = some (tt, b)
  deleting (some (some ids, b)) = delete_each io ids b

module _ {S : Type 0} (io : Stream S) (first_page_id f : ℕ)
    (small : first_page_id < 2147483648) where
  abbrev pub fresh : Table
  fresh = record { first_table_page_id = first_page_id }

  -- The constructor puts -1 into all slots of the first page.
  pub new_table-Cleared :
      (b : BufferPool S) (m : Memory)
      → Holds b first_page_id f m
      → (b₁ : BufferPool S) × (m₁ : Memory) × (new_table io first_page_id true b ≡ some (fresh, b₁))
        × Holds b₁ first_page_id f m₁
        × Cleared m₁
  unfolding new_table
  new_table-Cleared b m held =
      let (b₁, got, held₁) = get_page-Holds io b first_page_id f m small held in
      let p = init (b₁.pages f) in
      let b₂ = record b₁ { pages = put b₁.pages f p } in
      let held₂ = modify-Holds b₁ first_page_id f m p held₁ in
      let (b₃, gone, held₃) =
        unpin_page-Holds b₂ first_page_id f first_page_id true p.data_ held₂ in
      (
        b₃,
        p.data_,
        rw (◌>>=◌, got, gone) refl,
        held₃,
        λ q slot same. slots_by_data q p slot same ∙ (get_pgid_in_slot-init (b₁.pages f) slot).0,
      )

  -- No list is found in a cleared first page.
  find_list-Cleared :
      (doubles : Doubles) (b : BufferPool S) (m : Memory) (hash_val : ℕ)
      → Holds b first_page_id f m
      → Cleared m
      → (b₁ : BufferPool S) × (find_list doubles io first_page_id hash_val b ≡ some (minus_one, b₁))
        × Holds b₁ first_page_id f m
  unfolding find_list
  find_list-Cleared doubles b m hash_val held cleared =
      let (b₁, got, held₁) = get_page-Holds io b first_page_id f m small held in
      let (b₂, gone, held₂) = unpin_page-Holds b₁ first_page_id f first_page_id false m held₁ in
      let empty = cleared (b₁.pages f) (hash_to_slot hash_val).0 held₁.2 in
      (b₂, rw (◌>>=◌, got, gone, empty) refl, held₂)

  find_in_list_end :
      (doubles : Doubles) (tb_schema : Schema) (key_value : Value) (fuel : ℕ) (b : BufferPool S)
      → find_in_list doubles io tb_schema key_value (suc fuel) minus_one b ≡ some (none, b)
  unfolding find_in_list
  find_in_list_end doubles tb_schema key_value fuel b = refl

  -- A key is looked up in a cleared first page, and not found.
  lk_ha_get_tuple-Cleared :
      (doubles : Doubles) (hash : List ℕ → ℕ) (b : BufferPool S) (m : Memory) (key_value : Value)
      (tuple : Tuple) (tb_schema : Schema)
      → Holds b first_page_id f m
      → Cleared m
      → (b₁ : BufferPool S) × (lk_ha_get_tuple doubles io hash first_page_id key_value tuple
            tb_schema b
          ≡ some ((tuple_not_found, tuple), b₁))
  unfolding lk_ha_get_tuple lk_ha_check_duplicate_key
  lk_ha_get_tuple-Cleared doubles hash b m key_value tuple tb_schema held cleared =
      let (b₁, ran, _) =
        find_list-Cleared doubles b m (get_hash_value hash key_value) held cleared in
      let ends = find_in_list_end doubles tb_schema key_value b₁.disk_manager.max_ava_pgid b₁ in
      (b₁, rw (◌>>=◌, ran, ends) refl)

  -- A table whose first page is in the pool is made from scratch, and no key is found in it: the calls
  -- return, the result is false and the caller's tuple is as it was.
  pub new_table-get_tuple :
      (doubles : Doubles) (hash : List ℕ → ℕ) (b : BufferPool S) (key_value : Value) (tuple : Tuple)
      (tb_schema : Schema)
      → b.latch_kept ≡ false
      → find first_page_id b.mapping ≡ some f
      → (t : Table) × (b₁ b₂ : BufferPool S) × (new_table io first_page_id true b ≡ some (t, b₁))
        × (get_tuple io doubles hash t key_value tuple tb_schema b₁ ≡ some ((false, tuple), b₂))
  unfolding get_tuple
  new_table-get_tuple doubles hash b key_value tuple tb_schema unlocked mapped =
      let (b₁, m₁, made, held, cleared) =
        new_table-Cleared b (b.pages f).data_ (unlocked, mapped, refl) in
      let (b₂, looked) =
        lk_ha_get_tuple-Cleared doubles hash b₁ m₁ key_value tuple tb_schema held cleared in
      (fresh, b₁, b₂, made, rw (◌>>=◌, looked) refl)
