-- ===== src/Page/Examples.antt =====
-- The theorems of the table page at a page that is set up by `init` and holds a tuple of 8 bytes.
use dawn.Base.{
  inl, ℕ, ◌≢◌, ◌⊎◌, ◌<◌, ◌≡◌, ◌≤◌, ◌<◌, refl, true, false, if◌then◌else◌, ◌==◌, arith, [], ◌∷◌,
  none, some, not, ◌&&◌,
}
use dawn.Memory.{minus_one, read32, write32, memset0, memcpy, add32, sub32, mul32, slt}
use dawn.Page.TablePage.Compact.Delete.{apply_delete_lem}
use dawn.Page.TablePage.Insert.{
  Inserted, IsFull, Outcome, insert_tuple-Outcome, insert_tuple-Inserted, insert_tuple_narrow,
  get_tuple-insert_tuple,
}
use dawn.Page.TablePage.Layout.{cnt, fsp, off, siz}
use dawn.Page.TablePage.Start.{init_lem}
use dawn.Page.TablePage.View.{IsValid, view, reads, get_tuple-view}
use dawn.Page.TablePage.Update.{update_tuple_lem}
use dawn.Page.TablePage.Walk.{start_of, get_next_tuple_rid_lem}
use dawn.Page.TablePage.{
  get_next_tuple_rid, init, insert_tuple, get_tuple, apply_delete, get_empty_slot, is_missing,
  update_tuple, get_next_page_id, get_prev_page_id,
}
use dawn.Page.{Page, Rid, Tuple, empty_tuple, invalid_rid, new_page, serialize_to, set_page_id}

program : Unit {0}
unfolding init insert_tuple get_empty_slot new_page set_page_id serialize_to read32 write32 memset0
    memcpy add32 sub32 mul32 slt
program = tt

abbrev blank : Page
blank = init (set_page_id new_page 7) 3 9

init_lem_example :
    IsValid blank
    × ((i : ℕ) → view blank.data_ i ≡ none)
    × (get_prev_page_id blank ≡ 3)
    × (get_next_page_id blank ≡ 9)
init_lem_example = init_lem (set_page_id new_page 7) 3 9 (omega arith) (omega arith)

abbrev row : Tuple
row = record {
  allocated = true;
  rid = invalid_rid;
  size = 8;
  bytes = 1 ∷ 2 ∷ 3 ∷ 4 ∷ 5 ∷ 6 ∷ 7 ∷ 8 ∷ [];
}

insert_tuple-Outcome_example : Outcome blank row
insert_tuple-Outcome_example =
    insert_tuple-Outcome blank init_lem_example.0 row refl refl (omega arith) (omega arith)

abbrev first_rid : Rid
first_rid = record { page_id = 7; slot_num = 0 }

abbrev one_row : Page
one_row = (insert_tuple blank row).2

inserts_row : insert_tuple blank row ≡ (true, first_rid, one_row)
unfolding program
inserts_row = refl

get_tuple-insert_tuple_example :
    get_tuple one_row empty_tuple first_rid
    ≡ (true, record { allocated = true; rid = first_rid; size = 8; bytes = row.bytes })
get_tuple-insert_tuple_example =
    get_tuple-insert_tuple blank row empty_tuple first_rid one_row init_lem_example.0 refl refl
      (omega arith) (omega arith) inserts_row

one_row-Inserted : Inserted blank row first_rid one_row
one_row-Inserted =
    insert_tuple-Inserted blank row first_rid one_row init_lem_example.0 refl refl (omega arith)
      (omega arith) inserts_row

get_tuple-view_example :
    get_tuple one_row empty_tuple first_rid ≡ reads (view one_row.data_ 0) empty_tuple first_rid
get_tuple-view_example =
    get_tuple-view one_row one_row-Inserted.valid empty_tuple first_rid (omega arith)

row_there : is_missing one_row 0 ≡ false
unfolding program
row_there = refl

apply_delete_lem_example :
    let p' = apply_delete one_row first_rid in
    IsValid p'
    × ((i : ℕ) → view p'.data_ i ≡ (if 0 == i then none else view one_row.data_ i))
    × (p'.page_id ≡ one_row.page_id)
    × (get_next_page_id p' ≡ get_next_page_id one_row)
    × (get_prev_page_id p' ≡ get_prev_page_id one_row)
apply_delete_lem_example =
    apply_delete_lem one_row first_rid one_row-Inserted.valid (omega arith) row_there

-- one tuple of 3940 bytes fills a page up to 4 bytes after its record
abbrev packed : Page
packed = record {
  page_id = 7;
  lsn = 0;
  data_ = write32 (write32 (write32 (write32 new_page.data_ 140 1) 72 156) 144 156) 148 3940;
  pin_count = 0;
  is_dirty = false;
}

packed_reads :
    (cnt packed.data_ ≡ 1)
    × (fsp packed.data_ ≡ 156)
    × (off packed.data_ 0 ≡ 156)
    × (siz packed.data_ 0 ≡ 3940)
unfolding program
packed_reads = (refl, refl, refl, refl)

packed_one : (i : ℕ) → i < cnt packed.data_ → i ≡ 0
packed_one i h = omega (arith, h, packed_reads.0)

packed-IsFull : IsFull packed.data_
packed-IsFull i h e =
    let z = packed_one i h in
    let e' : off packed.data_ 0 ≡ 0 = rw z at e in omega (arith, e', packed_reads.2)

packed-IsValid : IsValid packed
packed-IsValid =
    let (c, f, o, s) = packed_reads in
    record {
      floor = omega (arith, c, f);
      ceiling = omega (arith, f);
      above = λ i h _ _. rw (packed_one i h) (omega (arith, o, f));
      below = λ i h _ _. rw (packed_one i h) (omega (arith, o, s));
      sized = λ i h _ _. rw (packed_one i h) (omega (arith, s));
      filled = λ i h _ _. rw (packed_one i h) (omega (arith, s));
      apart = λ i j hi hj _ _ ne _ _. absurd (ne (omega (arith, packed_one i hi, packed_one j hj)));
    }

abbrev narrow : Tuple
narrow = record { allocated = true; rid = invalid_rid; size = 4; bytes = 1 ∷ 2 ∷ 3 ∷ 4 ∷ [] }

insert_tuple_narrow_example :
    (p' : Page) × (insert_tuple packed narrow
      ≡ (true, record { page_id = 7; slot_num = minus_one }, p'))
    × (cnt p'.data_ ≡ 4)
insert_tuple_narrow_example =
    insert_tuple_narrow packed narrow packed-IsValid packed-IsFull
      (omega (arith, packed_reads.0, packed_reads.1))
      (omega (arith, packed_reads.0, packed_reads.1))

abbrev other_row : Tuple
other_row = record {
  allocated = true;
  rid = invalid_rid;
  size = 8;
  bytes = 9 ∷ 9 ∷ 9 ∷ 9 ∷ 9 ∷ 9 ∷ 9 ∷ 9 ∷ [];
}

get_next_tuple_rid_lem_example :
    ((k : ℕ) × (get_next_tuple_rid one_row invalid_rid first_rid
        ≡ (true, record { page_id = one_row.page_id; slot_num = k }))
      × (start_of invalid_rid ≤ k)
      × (view one_row.data_ k ≢ none)
      × ((j : ℕ) → start_of invalid_rid ≤ j → j < k → view one_row.data_ j ≡ none))
    ⊎ ((get_next_tuple_rid one_row invalid_rid first_rid ≡ (false, first_rid))
        × ((j : ℕ) → start_of invalid_rid ≤ j → view one_row.data_ j ≡ none))
get_next_tuple_rid_lem_example =
    get_next_tuple_rid_lem one_row invalid_rid first_rid one_row-Inserted.valid (inl refl)

update_tuple_lem_example :
    let hit =
      not (is_missing one_row 0)
      && siz one_row.data_ 0 == 8
      && first_rid.page_id == one_row.page_id in
    ((update_tuple one_row other_row first_rid).0 ≡ hit)
    × IsValid (update_tuple one_row other_row first_rid).1
    × ((i : ℕ)
        → view (update_tuple one_row other_row first_rid).1.data_ i
          ≡ (if hit && 0 == i then some (false, other_row.bytes) else view one_row.data_ i))
update_tuple_lem_example =
    update_tuple_lem one_row other_row first_rid one_row-Inserted.valid (omega arith) refl refl
      (omega arith)
