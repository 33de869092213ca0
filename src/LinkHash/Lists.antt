-- ===== src/LinkHash/Lists.antt =====
-- Pages of a list that stop the search or the insertion of the index.
use dawn.Base.{
  ℕ, suc, ◌<◌, ◌≤◌, ◌+◌, ◌≡◌, ◌≢◌, refl, ap, ◌∙◌, true, false, List, length, none, some, ◌==◌,
  arith,
}
use dawn.Calls.Holds.{Alike, Alike-trans, get_page-Alike, unpin_page-Alike}
use dawn.LinkHash.Chain.{Chain, search_list, find_in_list-search_list}
use dawn.Calls.{◌>>=◌}
use dawn.Data.{Doubles, Value}
use dawn.Disk.{Stream}
use dawn.LinkHash.Search.{if_true}
use dawn.LinkHash.{find_in_list}
use dawn.LinkHash.Changes.{next_for_insert}
use dawn.Memory.{
  Memory, read32, write32, minus_one, sub32, add32, mul32, slt, read32-congr, read32-write32,
  read32-write32-Apart,
}
use dawn.Page.TablePage.{
  get_tuple_count, get_next_page_id, get_prev_page_id, get_free_space_pointer, get_free_space,
  get_the_first_tuple, get_empty_slot, find_empty, insert_tuple, set_prev_page_id, set_next_page_id,
}
use dawn.Page.{Page, Rid, invalid_rid, Tuple, empty_tuple}
use dawn.Pool as Pool
use dawn.Pool.{BufferPool, put}
use dawn.Schema.{Schema}

get_the_first_tuple_empty :
    (p : Page) (t : Tuple) → get_tuple_count p ≡ 0 → get_the_first_tuple p t ≡ some (false, t)
unfolding get_the_first_tuple
get_the_first_tuple_empty p t e = rw e refl

-- The search of a list ends at a page in the pool that has no tuple slot: it finds nothing, although from
-- the page behind on, which is also in the pool with those behind it, each with a first tuple that can be
-- read, the same search in the same pool finds the key.
pub find_in_list_empty :
    (doubles : Doubles) {S : Type 0} (io : Stream S) (tb_schema : Schema) (key_value : Value)
    (b : BufferPool S) (id f fuel : ℕ) (behind : List Page) (rid : Rid)
    → b.latch_kept ≡ false
    → Pool.find id b.mapping ≡ some f
    → id < 2147483648
    → get_tuple_count (b.pages f) ≡ 0
    → length behind ≤ fuel
    → Chain b (get_next_page_id (b.pages f)) behind
    → search_list doubles tb_schema key_value behind ≡ some (some rid)
    → (b₁ b₂ : BufferPool S) × (find_in_list doubles io tb_schema key_value (suc fuel) id b
        ≡ some (none, b₁))
      × Alike b b₁
      × (find_in_list doubles io tb_schema key_value (suc fuel) (get_next_page_id (b.pages f)) b
          ≡ some (some rid, b₂))
unfolding find_in_list
find_in_list_empty doubles io tb_schema key_value b id f fuel behind rid unlocked mapped small empty
      enough chain found =
    let (b₁, got, alike) = get_page-Alike io b id f small unlocked mapped in
    let (b₂, gone, alike₂) = unpin_page-Alike b₁ id false alike.0 in
    let valid : (id == minus_one) ≡ false = ground arith in
    let still : get_tuple_count (b₁.pages f) ≡ 0 = ap (λ m. read32 m 140) (alike.2 f) ∙ empty in
    let first = get_the_first_tuple_empty (b₁.pages f) empty_tuple still in
    let (b₃, there, _) =
      find_in_list-search_list doubles io tb_schema key_value behind (get_next_page_id (b.pages f))
        fuel b (some rid) enough unlocked chain found in
    (
      b₂,
      b₃,
      rw (find_in_list, valid, ◌>>=◌, got, first, gone) refl,
      Alike-trans b b₁ b₂ alike alike₂,
      there,
    )

get_free_space_zeros :
    (p : Page)
    → get_tuple_count p ≡ 0
    → get_free_space_pointer p ≡ 0
    → get_free_space p ≡ 4294967152
unfolding sub32 add32 mul32
get_free_space_zeros p none_there no_space = rw (none_there, no_space) refl

get_empty_slot_zeros :
    (p : Page)
    → get_tuple_count p ≡ 0
    → get_free_space p ≡ 4294967152
    → get_empty_slot p ≡ (minus_one, p)
unfolding get_empty_slot find_empty slt
get_empty_slot_zeros p none_there space = rw (space, none_there) refl

-- A page that was never initialised and holds zeros takes no tuple.
insert_tuple_zeros :
    (p : Page) (t : Tuple)
    → get_tuple_count p ≡ 0
    → get_free_space_pointer p ≡ 0
    → t.size < 2147483648
    → insert_tuple p t ≡ (false, invalid_rid, p)
unfolding insert_tuple slt
insert_tuple_zeros p t none_there no_space small =
    let space = get_free_space_zeros p none_there no_space in
    let full : slt 4294967152 t.size ≡ true = ground arith in
    rw (get_empty_slot_zeros p none_there space, space) (if_true _ _ _ full)

-- the bytes from the links to the first slot are 0
abbrev pub Zeros : Memory → Type 0
Zeros m = (x : ℕ) → 64 ≤ x → x < 144 → m x ≡ 0

Zeros-prev :
    (m : Memory) (own at : ℕ) → Zeros m → 68 ≤ at → at + 4 ≤ 144 → read32 (write32 m 64 own) at ≡ 0
unfolding read32
Zeros-prev m own at zeros lo hi =
    read32-write32-Apart m 64 own at (omega arith)
    ∙ read32-congr m (λ _. 0) at (λ x l h. zeros x (omega arith) (omega arith))

-- At a page that is the last of its list, where `alloc_page` gives a frame of its own for a new page,
-- `next_for_insert` links the two pages to each other, but does not initialise the new one: if the bytes of
-- that frame behind its header are 0, the tuple does not go into it, and it names page 0 as the next one.
-- The latch is free, the ids of the two pages are below 2 ^ 32 and the size of the tuple is below 2 ^ 31.
pub next_for_insert-Zeros :
    (doubles : Doubles) {S : Type 0} (io : Stream S) (hash : List ℕ → ℕ) (b b₁ : BufferPool S)
    (f g : ℕ) (t : Tuple)
    → get_next_page_id (b.pages f) ≡ minus_one
    → Pool.alloc_page io b 1 ≡ some (g, b₁)
    → b₁.latch_kept ≡ false
    → g ≢ f
    → Zeros (b₁.pages g).data_
    → (b₁.pages g).page_id < 4294967296
    → (b.pages f).page_id < 4294967296
    → t.size < 2147483648
    → (b₂ : BufferPool S) × (next_for_insert doubles io hash f b
        ≡ some ((g, (b₁.pages g).page_id), b₂))
      × (get_next_page_id (b₂.pages f) ≡ (b₁.pages g).page_id)
      × (get_prev_page_id (b₂.pages g) ≡ (b.pages f).page_id)
      × (insert_tuple (b₂.pages g) t ≡ (false, invalid_rid, b₂.pages g))
      × (get_next_page_id (b₂.pages g) ≡ 0)
unfolding next_for_insert set_prev_page_id set_next_page_id
next_for_insert-Zeros doubles io hash b b₁ f g t last made unlocked apart zeros new_small own_small
      small =
    let new_id = (b₁.pages g).page_id in
    let linked = put b₁.pages f (set_next_page_id (b₁.pages f) new_id) in
    let own = (b.pages f).page_id in
    let b' = record b₁ { pages = put linked g (set_prev_page_id (linked g) own) } in
    let (b₂, gone, (_, _, kept, _)) = unpin_page-Alike b' own true unlocked in
    let self : (g == g) ≡ true = ground arith in
    let first : (f == f) ≡ true = ground arith in
    let other : (g == f) ≡ false = ground arith in
    let other' : (f == g) ≡ false = ground arith in
    let bytes : (b₂.pages g).data_ ≡ write32 (b₁.pages g).data_ 64 own =
      kept g ∙ rw (self, other) refl in
    let old_bytes : (b₂.pages f).data_ ≡ write32 (b₁.pages f).data_ 68 new_id =
      kept f ∙ rw (other', first) refl in
    let later : (at : ℕ) → 68 ≤ at → at + 4 ≤ 144 → read32 (b₂.pages g).data_ at ≡ 0 =
      λ at lo hi. ap (λ m. read32 m at) bytes ∙ Zeros-prev (b₁.pages g).data_ own at zeros lo hi in
    (
      b₂,
      rw (◌>>=◌, last, made, gone) refl,
      ap (λ m. read32 m 68) old_bytes ∙ read32-write32 (b₁.pages f).data_ 68 new_id new_small,
      ap (λ m. read32 m 64) bytes ∙ read32-write32 (b₁.pages g).data_ 64 own own_small,
      insert_tuple_zeros (b₂.pages g) t (later 140 (omega arith) (omega arith))
          (later 72 (omega arith) (omega arith)) small,
      later 68 (omega arith) (omega arith),
    )
