-- ===== src/Pool/Frames.antt =====
-- Which frames the buffer pool hands out, and which of them can be evicted.
use dawn.Base.{
  ℕ, inl, inr, suc, ◌+◌, ◌<◌, ◌≡◌, refl, ◌∙◌, Bool, true, false, none, some, List, [], ◌∷◌, leb,
  Bool-cases, ◌==◌, arith, if◌then◌else◌, length,
}
use dawn.Disk.{Stream, DiskManager}
use dawn.Disk as Disk
use dawn.Memory.{memcpy, minus_one, add32, sub32}
use dawn.Page.{set_page_id, set_lsn}
use dawn.Pool.{
  front, BufferPool, find, drop_id, add_id, push_back, put, unpin_page, obtain_frame, free_frame,
  get_page, delete_page,
}
use dawn.Replacer.Members.{pin_lem, unpin_lem}
use dawn.Replacer.Victim.{IsValid, Flag-cases}
use dawn.Replacer.{ClockReplacer, flag, present, pin, unpin}

pub if_false : {A : Type 0} (c : Bool) (x y : A) → c ≡ false → (if c then x else y) ≡ y
if_false c x y e = rw e refl

unpin-pool_size : (r : ClockReplacer) (f : ℕ) → (unpin r f).pool_size ≡ r.pool_size
unfolding unpin
unpin-pool_size r f = elim (Flag-cases (flag r f)) [
  | inl e ↦ rw (unpin, e) refl
  | inr (inl e) ↦ rw (unpin, e) refl
  | inr (inr e) ↦ rw (unpin, e) refl
]

find-drop_id : (q id : ℕ) (m : List (ℕ × ℕ)) → find q m ≡ none → find q (drop_id id m) ≡ none
find-drop_id q id [] e = refl
find-drop_id q id ((k, f) ∷ rest) e = elim (Bool-cases (k == q)) [
  | inl same ↦ absurd cc
  | inr other ↦
      let later : find q rest ≡ none = rw other at e in
      elim (Bool-cases (k == id)) [
        | inl t ↦ rw t later
        | inr t ↦ rw (t, other) (find-drop_id q id rest later)
      ]
]

find-add_id : (q f : ℕ) (m : List (ℕ × ℕ)) → find q m ≡ none → find q (add_id q f m) ≡ some f
find-add_id q f m e = let own : (q == q) ≡ true = ground arith in rw (add_id, e, own) refl

pub front_lem :
    {A : Type 0} (xs : List ℕ) (n : A) (c : ℕ → List ℕ → A) (f : ℕ) (rest : List ℕ)
    → xs ≡ f ∷ rest
    → front xs n c ≡ c f rest
front_lem xs n c f rest e = rw e refl

obtain_frame_ready :
    {S : Type 0} (io : Stream S) (b : BufferPool S) (n f : ℕ) (rest : List ℕ)
    → b.free_list ≡ f ∷ rest
    → obtain_frame io (suc n) b ≡ some b
unfolding obtain_frame
obtain_frame_ready io b n f rest list = front_lem b.free_list _ (λ _ _. some b) f rest list

free_frame_ready :
    {S : Type 0} (io : Stream S) (b : BufferPool S) (f : ℕ) (rest : List ℕ)
    → b.free_list ≡ f ∷ rest
    → free_frame io b ≡ some (f, rest, b)
unfolding free_frame
free_frame_ready io b f rest list =
    let fuel : b.replacer.exit_num + 1 ≡ suc b.replacer.exit_num = omega arith in
    rw (free_frame, fuel, obtain_frame_ready io b b.replacer.exit_num f rest list)
      (front_lem b.free_list none (λ g r. some (g, r, b)) f rest list)

module _ {S : Type 0} (io : Stream S) (b : BufferPool S) (page_id f : ℕ)
    (free_latch : b.latch_kept ≡ false) (in_range : page_id < 2147483648)
    (mapped : find page_id b.mapping ≡ some f) where
  -- the pool after the page is unpinned, and after it is got again
  abbrev released : Bool → BufferPool S
  released dirty =
      let p = b.pages f in
      record b {
        pages =
            put b.pages f
              (record p { is_dirty = if dirty then true else p.is_dirty; pin_count = 0 });
        replacer = unpin b.replacer f;
      }

  abbrev held : Bool → BufferPool S
  held dirty =
      let b₁ = released dirty in
      record b₁ {
        pages = put b₁.pages f (record (b₁.pages f) { pin_count = 1 });
        replacer = pin b₁.replacer f;
      }

  abbrev deleted : BufferPool S
  deleted = record b {
    pages = put b.pages f (set_page_id (b.pages f) minus_one);
    free_list = push_back b.free_list f;
    mapping = drop_id page_id b.mapping;
    disk_manager = (Disk.free_page io b.disk_manager page_id).1;
  }

  -- When the only user of a page in the pool unpins it, its frame can be evicted; a `get_page` right
  -- after finds the page in the same frame with the same bytes, pinned once, and out of the replacer.
  pub get_page-unpin_page :
      (dirty : Bool)
      → (b.pages f).pin_count ≡ 1
      → IsValid b.replacer
      → f < b.replacer.pool_size
      → (b₁ b₂ : BufferPool S) × (unpin_page b page_id dirty ≡ some b₁)
        × (present (flag b₁.replacer f) ≡ true)
        × (get_page io b₁ page_id ≡ some (some f, b₂))
        × ((b₂.pages f).data_ ≡ (b.pages f).data_)
        × ((b₂.pages f).pin_count ≡ 1)
        × (present (flag b₂.replacer f) ≡ false)
        × (b₂.mapping ≡ b.mapping)
        × (b₂.free_list ≡ b.free_list)
  unfolding unpin_page get_page sub32 add32
  get_page-unpin_page dirty once v here =
      let self : (f == f) ≡ true = ground arith in
      let valid : leb 2147483648 page_id ≡ false = ground arith in
      let (v₁, _, in_after, _) = unpin_lem b.replacer v f here in
      let width : f < (unpin b.replacer f).pool_size = rw (unpin-pool_size b.replacer f) here in
      let (_, _, out_after) = pin_lem (unpin b.replacer f) v₁ f width in
      (
        released dirty,
        held dirty,
        if_false b.latch_kept _ _ free_latch ∙ rw (mapped, once) refl,
        rw (in_after f, self) refl,
        if_false _ _ _ valid ∙ if_false b.latch_kept _ _ free_latch ∙ rw (mapped, self) refl,
        rw self refl,
        rw self refl,
        rw (out_after f, self) refl,
        refl,
        refl,
      )

  -- the pool after another page is read into the frame
  abbrev fetched : ℕ → List ℕ → DiskManager S → BufferPool S
  fetched q got d =
      let p = set_page_id (b.pages f) minus_one in
      let read = put deleted.pages f (record p { data_ = memcpy p.data_ 0 got (length got) }) in
      record deleted {
        pages = put read f (record (set_lsn (set_page_id (read f) q) minus_one) {
          is_dirty = false;
          pin_count = 1;
        });
        free_list = [];
        mapping = add_id q f deleted.mapping;
        disk_manager = d;
      }

  -- When no frame is free and a page that nobody uses, whose frame can be evicted, is deleted, a
  -- `get_page` of another page that is outside the pool and is read as one in use puts it into that frame.
  -- It is pinned once there, and the frame is still in the replacer, from which `victim` takes the frames to
  -- evict. The latch is free and both ids are below 2 ^ 31.
  pub get_page-delete_page :
      (q : ℕ) (got : List ℕ) (d : DiskManager S)
      → (b.pages f).pin_count ≡ 0
      → present (flag b.replacer f) ≡ true
      → b.free_list ≡ []
      → q < 2147483648
      → find q b.mapping ≡ none
      → Disk.read_page io (Disk.free_page io b.disk_manager page_id).1 q ≡ (true, got, d)
      → memcpy (set_page_id (b.pages f) minus_one).data_ 0 got (length got) 0 ≡ 1
      → (b₁ b₂ : BufferPool S) × (delete_page io b page_id ≡ some (true, b₁))
        × (get_page io b₁ q ≡ some (some f, b₂))
        × (find q b₂.mapping ≡ some f)
        × ((b₂.pages f).pin_count ≡ 1)
        × (present (flag b₂.replacer f) ≡ true)
  unfolding delete_page get_page
  get_page-delete_page q got d idle there none_free small out ok in_use =
      let self : (f == f) ≡ true = ground arith in
      let valid : leb 2147483648 q ≡ false = ground arith in
      let list : deleted.free_list ≡ f ∷ [] = rw none_free refl in
      let absent = find-drop_id q page_id b.mapping out in
      let status : (memcpy (set_page_id (b.pages f) minus_one).data_ 0 got (length got) 0 == 1)
          ≡ true =
        ground arith in
      (
        deleted,
        fetched q got d,
        if_false b.latch_kept _ _ free_latch ∙ rw (mapped, idle) refl,
        if_false _ _ _ valid
            ∙ if_false b.latch_kept _ _ free_latch
            ∙ rw (absent, free_frame_ready io deleted f [] list, ok, self, status) refl,
        find-add_id q f (drop_id page_id b.mapping) absent,
        rw self refl,
        there,
      )
