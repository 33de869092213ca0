-- ===== src/Pool/Blocked.antt =====
-- When a `get_page` gives the pool's latch back, and what it means if it does not.
use dawn.Base.{
  ℕ, zero, suc, ◌+◌, ◌<◌, ◌≡◌, ◌≢◌, ◌⊎◌, inl, inr, refl, sym, ap, ◌∙◌, Bool, true, false, not,
  Bool-cases, Option, Option-cases, none, some, List, [], ◌∷◌, leb, ◌==◌, arith, if◌then◌else◌,
  length,
}
use dawn.Disk.{Stream}
use dawn.Disk as Disk
use dawn.Pool.Frames.{if_false, front_lem}
use dawn.Pool.{
  BufferPool, find, front, put, add_id, get_page, unpin_page, alloc_page, delete_page, flush_page,
  flush_all, evict_page, obtain_frame, free_frame,
}
use dawn.Page.{Page, set_page_id, set_lsn}
use dawn.Memory.{memcpy, minus_one, add32}
use dawn.Replacer.{ClockReplacer, Outcome, waits, spins, evicts, victim, pin}

module _ {S : Type 0} (io : Stream S) where
  -- no call of the pool returns, but for a `get_page` of an id that is not valid
  abbrev pub Blocked : BufferPool S → Type 0
  Blocked b =
      ((q : ℕ) → q < 2147483648 → get_page io b q ≡ none)
      × ((q : ℕ) (dirty : Bool) → unpin_page b q dirty ≡ none)
      × ((flag : ℕ) → alloc_page io b flag ≡ none)
      × ((q : ℕ) → delete_page io b q ≡ none)
      × ((q : ℕ) → flush_page io b q ≡ none)
      × (flush_all io b ≡ none)

  latch_kept-Blocked : (b : BufferPool S) → b.latch_kept ≡ true → Blocked b
  unfolding get_page unpin_page alloc_page delete_page flush_page flush_all
  latch_kept-Blocked b kept = (
    λ q h. let small : leb 2147483648 q ≡ false = ground arith in rw (small, kept) refl,
    λ q dirty. rw kept refl,
    λ flag. rw kept refl,
    λ q. rw kept refl,
    λ q. rw kept refl,
    rw kept refl,
  )

  if-latch :
      (c : Bool) (x y : BufferPool S) (k : Bool)
      → x.latch_kept ≡ k
      → y.latch_kept ≡ k
      → (if c then x else y).latch_kept ≡ k
  if-latch true x y k e₁ e₂ = e₁
  if-latch false x y k e₁ e₂ = e₂

  evict_page-latch :
      (b : BufferPool S) (id f : ℕ) → (evict_page io b id f).latch_kept ≡ b.latch_kept
  unfolding evict_page
  evict_page-latch b id f = elim (Option-cases (find id b.mapping)) [
    | inl e ↦ rw (evict_page, e) refl
    | inr (g, e) ↦ rw (evict_page, e) (if-latch _ _ _ b.latch_kept refl refl)
  ]

  list_ends : (xs : List ℕ) → (xs ≡ []) ⊎ ((f : ℕ) × (rest : List ℕ) × (xs ≡ f ∷ rest))
  list_ends [] = inl refl
  list_ends (f ∷ rest) = inr (f, rest, refl)

  outcome_ends :
      (o : Outcome) → (o ≡ waits) ⊎ (o ≡ spins) ⊎ ((f : ℕ) × (r : ClockReplacer) × (o ≡ evicts f r))
  outcome_ends waits = inl refl
  outcome_ends spins = inr (inl refl)
  outcome_ends (evicts f r) = inr (inr (f, r, refl))

  front_nil : {A : Type 0} (xs : List ℕ) (n : A) (c : ℕ → List ℕ → A) → xs ≡ [] → front xs n c ≡ n
  front_nil xs n c e = rw e refl

  -- the latch of a pool that is there
  abbrev latch_of : BufferPool S → Option (BufferPool S) → Bool
  latch_of b none = b.latch_kept
  latch_of b (some c) = c.latch_kept

  -- The wait for a free frame leaves the latch as it is.
  obtain_frame-latch :
      (n : ℕ) (b b₁ : BufferPool S) → obtain_frame io n b ≡ some b₁ → b₁.latch_kept ≡ b.latch_kept
  unfolding obtain_frame
  obtain_frame-latch zero b b₁ e = absurd cc
  obtain_frame-latch (suc n) b b₁ e = elim (list_ends b.free_list) [
    | inr (f, rest, list) ↦
        let same : some b ≡ some b₁ =
          sym (front_lem b.free_list _ (λ _ _. some b) f rest list) ∙ e in
        ap (latch_of b) (sym same)
    | inl list ↦
        let turn = sym (front_nil b.free_list _ (λ _ _. some b) list) ∙ e in
        elim (outcome_ends (victim b.replacer)) [
          | inl o ↦ let no = rw o at turn in absurd cc
          | inr (inl o) ↦ let no = rw o at turn in absurd cc
          | inr (inr (f, r, o)) ↦
              obtain_frame-latch n _ b₁ (rw o at turn)
              ∙ evict_page-latch (record b { replacer = r }) (b.pages f).page_id f
        ]
  ]

  free_frame-latch :
      (b b₁ : BufferPool S) (f : ℕ) (rest : List ℕ)
      → free_frame io b ≡ some (f, rest, b₁)
      → b₁.latch_kept ≡ b.latch_kept
  unfolding free_frame
  free_frame-latch b b₁ f rest e =
      elim (Option-cases (obtain_frame io (b.replacer.exit_num + 1) b)) [
        | inl none_there ↦ let no = rw (free_frame, none_there) at e in absurd cc
        | inr (b₂, got) ↦ elim (list_ends b₂.free_list) [
          | inl list ↦
              let no =
                sym (front_nil b₂.free_list none (λ g r. some (g, r, b₂)) list)
                ∙ (rw (free_frame, got) at e) in
              absurd cc
          | inr (g, others, list) ↦
              let same : some (g, others, b₂) ≡ some (f, rest, b₁) =
                sym (front_lem b₂.free_list none (λ g r. some (g, r, b₂)) g others list)
                ∙ (rw (free_frame, got) at e) in
              let kept = obtain_frame-latch (b.replacer.exit_num + 1) b b₂ got in
              ap (λ o. elim o [ none ↦ b.latch_kept | some (_, _, c) ↦ c.latch_kept ]) (sym same)
              ∙ kept
        ]
      ]

  -- the page that a read leaves in a frame, and the pool around it
  abbrev page_read : BufferPool S → ℕ → ℕ → Page
  page_read b f page_id =
      let got = (Disk.read_page io b.disk_manager page_id).1 in
      let p = b.pages f in record p { data_ = memcpy p.data_ 0 got (length got) }

  abbrev read_in : BufferPool S → ℕ → ℕ → BufferPool S
  read_in b f page_id = record b {
    pages = put b.pages f (page_read b f page_id);
    disk_manager = (Disk.read_page io b.disk_manager page_id).2;
  }

  -- the pool with a page that was read in
  abbrev arrived : BufferPool S → ℕ → List ℕ → ℕ → BufferPool S
  arrived b f rest page_id =
      let b₂ = read_in b f page_id in
      record b₂ {
        pages =
            put b₂.pages f
              (record (set_lsn (set_page_id (page_read b f page_id) page_id) minus_one) {
                is_dirty = false;
                pin_count = 1;
              });
        mapping = add_id page_id f b₂.mapping;
        free_list = rest;
      }

  returned :
      (run : Option (Option ℕ × BufferPool S)) (c : Bool) (x y : Option ℕ × BufferPool S)
      → run ≡ some (if c then x else y)
      → x.1.latch_kept ≡ false
      → y.1.latch_kept ≡ false
      → (r : Option ℕ) × (b' : BufferPool S) × (run ≡ some (r, b')) × (b'.latch_kept ≡ false)
  returned run true x y e l m = (x.0, x.1, e, l)
  returned run false x y e l m = (y.0, y.1, e, m)

  -- A `get_page` of a valid id, when the latch is free, has one of three ends. It returns, the latch is free
  -- again, and the page was in the pool, or a frame was obtained for it and its read did not fail. Or
  -- the page is not in the pool, a frame is obtained and the read into it fails: the call returns no page,
  -- and no later get_page of a valid id, unpin_page, alloc_page, delete_page, flush_page or flush_all
  -- returns. Or it does not return, as the page is not in the pool and no frame is obtained.
  pub get_page-Blocked :
      (b : BufferPool S) (page_id : ℕ)
      → b.latch_kept ≡ false
      → page_id < 2147483648
      → ((r : Option ℕ) × (b' : BufferPool S) × (get_page io b page_id ≡ some (r, b'))
          × (b'.latch_kept ≡ false)
          × ((find page_id b.mapping ≢ none)
              ⊎ ((f : ℕ) × (rest : List ℕ) × (b₁ : BufferPool S) × (free_frame io b
                    ≡ some (f, rest, b₁))
                  × ((Disk.read_page io b₁.disk_manager page_id).0 ≡ true))))
        ⊎ ((f : ℕ) × (rest : List ℕ) × (b₁ b' : BufferPool S) × (find page_id b.mapping ≡ none)
            × (free_frame io b ≡ some (f, rest, b₁))
            × ((Disk.read_page io b₁.disk_manager page_id).0 ≡ false)
            × (get_page io b page_id ≡ some (none, b'))
            × Blocked b')
        ⊎ ((find page_id b.mapping ≡ none)
            × (free_frame io b ≡ none)
            × (get_page io b page_id ≡ none))
  unfolding get_page
  get_page-Blocked b page_id unlocked small =
      let valid : leb 2147483648 page_id ≡ false = ground arith in
      let there = if_false _ _ _ valid ∙ if_false b.latch_kept _ _ unlocked in
      elim (Option-cases (find page_id b.mapping)) [
        | inr (f, e) ↦ inl (
          some f,
          record b {
            pages =
                put b.pages f (record (b.pages f) { pin_count = add32 (b.pages f).pin_count 1 });
            replacer = pin b.replacer f;
          },
          there ∙ rw e refl,
          unlocked,
          inl (λ out. absurd cc),
        )
        | inl e ↦ elim (Option-cases (free_frame io b)) [
          | inl stuck ↦ inr (inr (e, stuck, there ∙ rw (e, stuck) refl))
          | inr ((f, rest, b₁), got) ↦
              let kept = free_frame-latch b b₁ f rest got ∙ unlocked in
              elim (Bool-cases (Disk.read_page io b₁.disk_manager page_id).0) [
                | inl ok ↦
                    let (r, b', ran, latch) =
                      returned (get_page io b page_id) (not ((page_read b₁ f page_id).data_ 0 == 1))
                        (none, read_in b₁ f page_id) (some f, arrived b₁ f rest page_id)
                        (there ∙ rw (e, got, ok) refl) kept kept in
                    inl (r, b', ran, latch, inr (f, rest, b₁, got, ok))
                | inr bad ↦
                    let b' = record (read_in b₁ f page_id) { latch_kept = true } in
                    inr (
                      inl (
                        f,
                        rest,
                        b₁,
                        b',
                        e,
                        got,
                        bad,
                        there ∙ rw (e, got, bad) refl,
                        latch_kept-Blocked b' refl,
                      ))
              ]
        ]
      ]
