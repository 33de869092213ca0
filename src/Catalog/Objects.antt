-- ===== src/Catalog/Objects.antt =====
-- The objects of the tables, and the tables' names in them.
use dawn.Base.{
  ℕ, ◌-◌, ◌+◌, ◌≡◌, ◌≢◌, refl, ◌⊎◌, Bool, true, false, none, some, List, ◌∷◌, ◌==◌, ltb, not,
  if◌then◌else◌, ◌&&◌, length, arith,
}
use dawn.Calls.{◌>>=◌}
use dawn.Catalog.Changes.{get_table_meta_data}
use dawn.Catalog.Maps.{find_key, insert_key, erase_key, same_id}
use dawn.Catalog.Records.{find_record, rounds, check_space, move_up, move_down, write_name}
use dawn.Data.Bytes.{list_eq}
use dawn.Catalog.{CatalogTable, set_data}
use dawn.Disk.{Stream}
use dawn.Memory.{Memory, minus_one, add32, sub32}
use dawn.Pool.{BufferPool, put}
use dawn.TableMetaData.Object.{TableMetaData, stored_table}

find_key_first :
    {A : Type 0} (k : ℕ) (a : A) (m : List (ℕ × A)) → find_key same_id k ((k, a) ∷ m) ≡ some a
unfolding find_key
find_key_first k a m = let self : (k == k) ≡ true = ground arith in rw self refl

-- An entry that was not there is found after it was inserted.
find_key-insert_key :
    {A : Type 0} (k : ℕ) (a : A) (m : List (ℕ × A))
    → find_key same_id k m ≡ none
    → find_key same_id k (insert_key same_id k a m) ≡ some a
unfolding insert_key
find_key-insert_key k a m absent = rw (insert_key, absent) (find_key_first k a m)

module _ (c : CatalogTable) (table_id : ℕ) where
  -- the last record offset that the search for the table's record came to, or -1
  abbrev pub offset_found : {S : Type 0} → BufferPool S → ℕ
  offset_found b = (find_record (b.pages c.page).data_ (rounds c.table_num) 0 minus_one table_id).1

  -- the longer name does not fit
  abbrev pub is_crowded : List ℕ → List ℕ → Bool
  is_crowded old_name new_name =
      let longer = length new_name - length old_name in
      ltb 0 longer && not (check_space c.free_space_pointer c.table_num longer)

  -- `change_table_name` returns false: the table is unknown, has no record, or the longer name does not fit
  abbrev pub Refused : {S : Type 0} → List ℕ → BufferPool S → Type 0
  Refused new_name b =
      (find_key same_id table_id c.tb_id_to_name ≡ none)
      ⊎ ((old_name : List ℕ) × (find_key same_id table_id c.tb_id_to_name ≡ some old_name)
          × ((offset_found b ≡ minus_one) ⊎ (is_crowded old_name new_name ≡ true)))

  -- the tests that stand before the first write are passed
  abbrev pub Accepted : {S : Type 0} → List ℕ → BufferPool S → Type 0
  Accepted new_name b =
      (old_name : List ℕ) × (find_key same_id table_id c.tb_id_to_name ≡ some old_name)
      × (offset_found b ≢ minus_one)
      × (is_crowded old_name new_name ≡ false)

module _ {S : Type 0} (io : Stream S) (c : CatalogTable) (table_id : ℕ) where
  -- The object of a table that is not in memory is made once: the call that makes it returns, and from
  -- then on, in whatever state the pool is, a call gives the same object and leaves the pool alone.
  pub get_table_meta_data_again :
      (name : List ℕ) (t : TableMetaData) (b b₁ b₂ : BufferPool S)
      → find_key same_id table_id c.tb_id_to_meta ≡ none
      → find_key same_id table_id c.tb_id_to_name ≡ some name
      → stored_table io name table_id b ≡ some (t, b₁)
      → (c₁ : CatalogTable) × (get_table_meta_data io c table_id b ≡ some ((some t, c₁), b₁))
        × (get_table_meta_data io c₁ table_id b₂ ≡ some ((some t, c₁), b₂))
  unfolding get_table_meta_data
  get_table_meta_data_again name t b b₁ b₂ absent named made = (
    record c { tb_id_to_meta = insert_key same_id table_id t c.tb_id_to_meta },
    rw (get_table_meta_data, absent, named, ◌>>=◌, made) refl,
    rw (get_table_meta_data, find_key-insert_key table_id t c.tb_id_to_meta absent) refl,
  )

  -- the pool after both writes to the page, and the maps of the catalog
  abbrev written : List ℕ → List ℕ → BufferPool S → BufferPool S
  written old_name new_name b =
      let shorter = length old_name - length new_name in
      let longer = length new_name - length old_name in
      let i = (find_record (b.pages c.page).data_ (rounds c.table_num) 0 minus_one table_id).0 in
      let b₁ = record b {
        pages = put b.pages c.page (
            set_data
              (λ m.
                if ltb 0 shorter
                then move_up m (c.table_num - (i + 1)) (i + 1) (sub32 c.table_num 1) shorter
                else if ltb 0 longer
                then move_down m (c.table_num - i) i longer
                else m)
              (b.pages c.page));
      } in
      record b₁ {
        pages =
            put b₁.pages c.page
              (set_data (λ m. write_name m (offset_found c table_id b) new_name) (b₁.pages c.page));
      }

  abbrev renamed : List ℕ → List ℕ → CatalogTable
  renamed old_name new_name =
      let shorter = length old_name - length new_name in
      let longer = length new_name - length old_name in
      record c {
        free_space_pointer = sub32 (add32 c.free_space_pointer shorter) longer;
        tb_id_to_name =
            insert_key same_id table_id new_name (erase_key same_id table_id c.tb_id_to_name);
        tb_name_to_id =
            insert_key list_eq new_name table_id (erase_key list_eq old_name c.tb_name_to_id);
      }
