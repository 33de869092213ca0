-- ===== src/Pool.antt =====
-- The buffer pool: src/include/buffer/buffer_pool_manager.h and src/buffer/buffer_pool_manager.cpp.
-- A returned `Page*` is the frame's number. A call is atomic; `none` is a call that does not return:
-- no frame can be evicted, or a call before has kept `latch_`.
pub mod Frames
pub mod Blocked
pub mod Flush
mod Examples
use dawn.Base.{
  ℕ, zero, suc, ◌+◌, ◌-◌, ◌*◌, ◌/◌, Bool, true, false, ◌||◌, Option, none, some, List, [], ◌∷◌, not,
  ltb, leb, ◌==◌, if◌then◌else◌, length,
}
use dawn.Disk.{Stream, DiskManager}
use dawn.Disk as Disk
use dawn.Memory.{memcpy, minus_one, add32, sub32, slt}
use dawn.Page.TablePage.{load}
use dawn.Page.{Page, new_page, set_page_id, set_lsn, set_status}
use dawn.Replacer.{ClockReplacer, Outcome, waits, spins, evicts, pin, unpin, victim}
use dawn.Replacer as Replacer

pub record BufferPool (S : Type 0) : Type 0 where
  pub pages : ℕ → Page
  pub pool_size : ℕ
  pub available_threshold_page : ℕ
  pub allocated_threshold_pages : ℕ
  pub free_list : List ℕ
  pub mapping : List (ℕ × ℕ)
  pub disk_manager : DiskManager S
  pub replacer : ClockReplacer
  -- a call has returned without giving `latch_` back
  pub latch_kept : Bool

-- `mapping_.find`
abbrev pub find : ℕ → List (ℕ × ℕ) → Option ℕ
find id [] = none
find id ((k, f) ∷ rest) = if k == id then some f else find id rest

abbrev pub drop_id : ℕ → List (ℕ × ℕ) → List (ℕ × ℕ)
drop_id id [] = []
drop_id id ((k, f) ∷ rest) = if k == id then rest else (k, f) ∷ drop_id id rest

-- `mapping_.insert`, which keeps an entry that is there
abbrev pub add_id : ℕ → ℕ → List (ℕ × ℕ) → List (ℕ × ℕ)
add_id id f m = elim (find id m) [ none ↦ (id, f) ∷ m | some _ ↦ m ]

abbrev pub push_back : List ℕ → ℕ → List ℕ
push_back [] f = f ∷ []
push_back (x ∷ xs) f = x ∷ push_back xs f

-- `free_list_.empty()`, and else `free_list_.front()` with the frames behind it
abbrev pub front : {A : Type 0} → List ℕ → A → (ℕ → List ℕ → A) → A
front [] n c = n
front (f ∷ rest) n c = c f rest

abbrev pub put : (ℕ → Page) → ℕ → Page → ℕ → Page
put pages f p i = if i == f then p else pages i

module _ {S : Type 0} where
  unfoldable pub unpin_page : BufferPool S → ℕ → Bool → Option (BufferPool S)
  unpin_page b page_id dirty = if b.latch_kept then none else elim (find page_id b.mapping) [
    | none ↦ some b
    | some f ↦
        let p = b.pages f in
        let count = sub32 p.pin_count 1 in
        let p₁ = record p { is_dirty = if dirty then true else p.is_dirty; pin_count = count } in
        some (record b {
          pages = put b.pages f p₁;
          replacer = if count == 0 then unpin b.replacer f else b.replacer;
        })
  ]

module _ {S : Type 0} (io : Stream S) where
  unfoldable pub flush_page : BufferPool S → ℕ → Option (Bool × BufferPool S)
  flush_page b page_id = if b.latch_kept then none else elim (find page_id b.mapping) [
    | none ↦ some (false, b)
    | some f ↦
        let p = b.pages f in
        let (ok, d) = Disk.write_page io b.disk_manager page_id (load p.data_ 0 4096) in
        let b₁ = record b { disk_manager = d } in
        some (
          ok,
          if ok then record b₁ { pages = put b.pages f (record p { is_dirty = false }) } else b₁,
        )
  ]

  -- the page's own id is -1 before its bytes are written
  unfoldable pub evict_page : BufferPool S → ℕ → ℕ → BufferPool S
  evict_page b page_id f = elim (find page_id b.mapping) [
    | none ↦ b
    | some _ ↦
        let p = set_page_id (b.pages f) minus_one in
        let b₁ = record b {
          pages = put b.pages f p;
          mapping = drop_id page_id b.mapping;
          free_list = push_back b.free_list f;
        } in
        let (ok, d) = Disk.write_page io b.disk_manager page_id (load p.data_ 0 4096) in
        if p.is_dirty then record b₁ { disk_manager = d } else b₁
  ]

  -- the loop that waits for a free frame; each turn takes one out of the replacer
  unfoldable pub obtain_frame : ℕ → BufferPool S → Option (BufferPool S)
  unfolding evict_page
  obtain_frame zero b = none
  obtain_frame (suc fuel) b =
      front b.free_list
        (elim (victim b.replacer) [
          | waits ↦ none
          | spins ↦ none
          | evicts f r ↦
              obtain_frame fuel (evict_page (record b { replacer = r }) (b.pages f).page_id f)
        ])
        (λ _ _. some b)

  -- enough turns to empty the replacer, and one to see that it is
  unfoldable pub free_frame : BufferPool S → Option (ℕ × List ℕ × BufferPool S)
  unfolding obtain_frame
  free_frame b = elim (obtain_frame (b.replacer.exit_num + 1) b) [
    | none ↦ none
    | some b₁ ↦ front b₁.free_list none (λ f rest. some (f, rest, b₁))
  ]

  unfoldable pub alloc_page : BufferPool S → ℕ → Option (ℕ × BufferPool S)
  alloc_page b flag = if b.latch_kept then none else elim (Disk.alloc_page io b.disk_manager flag) [
    | none ↦ none
    | some (id, d) ↦ elim (free_frame (record b { disk_manager = d })) [
      | none ↦ none
      | some (f, rest, b₁) ↦
          let p = record (b₁.pages f) { is_dirty = true; pin_count = 1 } in
          some (
            f,
            record b₁ {
              pages = put b₁.pages f (set_status (set_page_id (set_lsn p minus_one) id));
              free_list = rest;
              mapping = add_id id f b₁.mapping;
            },
          )
    ]
  ]

  -- `page_id <= INVALID_PAGE_ID` is the sign bit. The path of a failed read keeps `latch_`.
  unfoldable pub get_page : BufferPool S → ℕ → Option (Option ℕ × BufferPool S)
  get_page b page_id =
      if leb 2147483648 page_id
      then some (none, b)
      else if b.latch_kept
      then none
      else elim (find page_id b.mapping) [
        | some f ↦
            let p = b.pages f in
            some (
              some f,
              record b {
                pages = put b.pages f (record p { pin_count = add32 p.pin_count 1 });
                replacer = pin b.replacer f;
              },
            )
        | none ↦ elim (free_frame b) [
          | none ↦ none
          | some (f, rest, b₁) ↦
              let (ok, got, d) = Disk.read_page io b₁.disk_manager page_id in
              let p = b₁.pages f in
              let q = record p { data_ = memcpy p.data_ 0 got (length got) } in
              let b₂ = record b₁ { pages = put b₁.pages f q; disk_manager = d } in
              some (
                if not ok
                then (none, record b₂ { latch_kept = true })
                else if not (q.data_ 0 == 1)
                then (none, b₂)
                else (
                  some f,
                  record b₂ {
                    pages = put b₂.pages f (record (set_lsn (set_page_id q page_id) minus_one) {
                      is_dirty = false;
                      pin_count = 1;
                    });
                    mapping = add_id page_id f b₂.mapping;
                    free_list = rest;
                  },
                ))
        ]
      ]

  unfoldable pub delete_page : BufferPool S → ℕ → Option (Bool × BufferPool S)
  delete_page b page_id =
      let (_, d) = Disk.free_page io b.disk_manager page_id in
      if b.latch_kept
      then none
      else some (elim (find page_id b.mapping) [
        | none ↦ (true, record b { disk_manager = d })
        | some f ↦ if not ((b.pages f).pin_count == 0) then (false, b) else (
          true,
          record b {
            pages = put b.pages f (set_page_id (b.pages f) minus_one);
            free_list = push_back b.free_list f;
            mapping = drop_id page_id b.mapping;
            disk_manager = d;
          },
        )
      ])

  -- the loop of `flush_all` over the entries of `mapping_`
  unfoldable pub flush_each : List (ℕ × ℕ) → Bool → BufferPool S → Option (Bool × BufferPool S)
  flush_each [] ok b = some (ok, b)
  flush_each ((page_id, f) ∷ rest) ok b = elim (flush_page b page_id) [
    | none ↦ none
    | some (done, b₁) ↦ flush_each rest (if done then ok else false) b₁
  ]

  unfoldable pub flush_all : BufferPool S → Option (Bool × BufferPool S)
  unfolding flush_each
  flush_all b = if b.latch_kept then none else flush_each b.mapping true b

-- the frames from `f` on, `n` of them
unfoldable pub frames_from : ℕ → ℕ → List ℕ
frames_from f zero = []
frames_from f (suc n) = f ∷ frames_from (suc f) n

-- the constructor; `pages_` is an array of new pages
unfoldable pub new_buffer_pool : {S : Type 0} → DiskManager S → ℕ → BufferPool S
unfolding frames_from
new_buffer_pool disk_manager pool_size = record {
  pages = λ _. new_page;
  pool_size = pool_size;
  available_threshold_page = pool_size / 5 * 4;
  allocated_threshold_pages = 0;
  free_list = frames_from 0 pool_size;
  mapping = [];
  disk_manager = disk_manager;
  replacer = Replacer.new pool_size;
  latch_kept = false;
}

module _ {S : Type 0} where
  -- a round of the loop of `get_threshold_page`; `none` waits
  unfoldable pub get_threshold_page : BufferPool S → Option ℕ
  get_threshold_page b =
      let alloc_num = b.available_threshold_page / 2 in
      if b.latch_kept
        || slt b.available_threshold_page (add32 alloc_num b.allocated_threshold_pages)
      then none
      else some alloc_num

  unfoldable pub return_threshold_page : BufferPool S → ℕ → Option (BufferPool S)
  return_threshold_page b ret_thre_page =
      if b.latch_kept
      then none
      else some
          (record b { allocated_threshold_pages = sub32 b.allocated_threshold_pages ret_thre_page })
