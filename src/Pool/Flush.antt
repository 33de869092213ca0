-- ===== src/Pool/Flush.antt =====
-- What `flush_all` leaves.
use dawn.Base.{
  ℕ, ◌≡◌, inl, inr, refl, ap, ◌∙◌, Bool, true, false, some, List, [], ◌∷◌, ◌==◌, arith,
  if◌then◌else◌, Bool-cases, Option-cases,
}
use dawn.Disk.{Stream}
use dawn.Disk as Disk
use dawn.Page.TablePage.{load}
use dawn.Pool.{BufferPool, find, put, flush_page, flush_each, flush_all}

if_false : {A : Type 0} (c : Bool) (x y : A) → c ≡ false → (if c then x else y) ≡ y
if_false c x y e = rw e refl

both_true : (a b : Bool) → (if a then b else false) ≡ true → (a ≡ true) × (b ≡ true)
both_true true b e = (refl, e)
both_true false b e = cc

module _ {S : Type 0} (io : Stream S) where
  -- a flush keeps the frames where they are, makes no page dirty, and where it succeeds its page is clean
  record Flushed (page_id : ℕ) (b : BufferPool S) (ok : Bool) (b₁ : BufferPool S) : Type 0 where
    mapping_kept : b₁.mapping ≡ b.mapping
    latch_free : b₁.latch_kept ≡ false
    clean_stays : (f : ℕ) → (b.pages f).is_dirty ≡ false → (b₁.pages f).is_dirty ≡ false
    cleans : ok ≡ true → (f : ℕ) → find page_id b.mapping ≡ some f → (b₁.pages f).is_dirty ≡ false

  flush_page-Flushed :
      (b : BufferPool S) (page_id : ℕ)
      → b.latch_kept ≡ false
      → (ok : Bool) × (b₁ : BufferPool S) × (flush_page io b page_id ≡ some (ok, b₁))
        × Flushed page_id b ok b₁
  unfolding flush_page
  flush_page-Flushed b page_id free = elim (Option-cases (find page_id b.mapping)) [
    | inl e ↦ (
      false,
      b,
      if_false b.latch_kept _ _ free ∙ rw e refl,
      record {
        mapping_kept = refl;
        latch_free = free;
        clean_stays = λ f c. c;
        cleans = λ no f. cc;
      },
    )
    | inr (f, e) ↦
        let p = b.pages f in
        let write = Disk.write_page io b.disk_manager page_id (load p.data_ 0 4096) in
        let b₁ = record b { disk_manager = write.1 } in
        let clean = record p { is_dirty = false } in
        elim (Bool-cases write.0) [
          | inr fail ↦ (
            false,
            b₁,
            if_false b.latch_kept _ _ free ∙ rw (e, fail) refl,
            record {
              mapping_kept = refl;
              latch_free = free;
              clean_stays = λ f c. c;
              cleans = λ no f. cc;
            },
          )
          | inl done ↦ (
            true,
            record b₁ { pages = put b.pages f clean },
            if_false b.latch_kept _ _ free ∙ rw (e, done) refl,
            record {
              mapping_kept = refl;
              latch_free = free;
              clean_stays =
                  λ g c. elim (Bool-cases (g == f)) [ inl t ↦ rw t refl | inr t ↦ rw t c ];
              cleans = λ _ g found.
                  let same : f ≡ g = cc in
                  let self : (g == f) ≡ true = ground arith in rw self refl;
            },
          )
        ]
  ]

  -- the loop, on entries that are in the map
  flush_each-clean :
      (entries : List (ℕ × ℕ)) (ok : Bool) (b : BufferPool S)
      → b.latch_kept ≡ false
      → (done : Bool) × (b₁ : BufferPool S) × (flush_each io entries ok b ≡ some (done, b₁))
        × (b₁.mapping ≡ b.mapping)
        × ((f : ℕ) → (b.pages f).is_dirty ≡ false → (b₁.pages f).is_dirty ≡ false)
        × (done ≡ true
            → (ok ≡ true)
              × ((id f : ℕ)
                  → find id entries ≡ some f
                  → find id b.mapping ≡ some f
                  → (b₁.pages f).is_dirty ≡ false))
  unfolding flush_each
  flush_each-clean [] ok b free = (ok, b, refl, refl, λ f c. c, λ e. (e, λ id f. cc))
  flush_each-clean ((page_id, g) ∷ rest) ok b free =
      let (one, b₁, run, flushed) = flush_page-Flushed b page_id free in
      let (done, b₂, more, kept, stays, cleans) =
        flush_each-clean rest (if one then ok else false) b₁ flushed.latch_free in
      (
        done,
        b₂,
        rw (flush_each, run) more,
        kept ∙ flushed.mapping_kept,
        λ f c. stays f (flushed.clean_stays f c),
        λ e.
            let (both, all) = cleans e in
            let (first, before) = both_true one ok both in
            (
              before,
              λ id f here there. elim (Bool-cases (page_id == id)) [
                | inl t ↦
                    let same : page_id ≡ id = ground arith in
                    stays f (flushed.cleans first f (rw same there))
                | inr t ↦ all id f (rw t at here) (ap (find id) flushed.mapping_kept ∙ there)
              ],
            ),
      )

  -- `flush_all`, unless a call has kept `latch_`, returns; the mapping is as before, and if the result is
  -- true then no page in the pool is dirty.
  pub flush_all_lem :
      (b : BufferPool S)
      → b.latch_kept ≡ false
      → (ok : Bool) × (b₁ : BufferPool S) × (flush_all io b ≡ some (ok, b₁))
        × (b₁.mapping ≡ b.mapping)
        × (ok ≡ true → (id f : ℕ) → find id b₁.mapping ≡ some f → (b₁.pages f).is_dirty ≡ false)
  unfolding flush_all
  flush_all_lem b free =
      let (ok, b₁, run, kept, _, cleans) = flush_each-clean b.mapping true b free in
      (
        ok,
        b₁,
        if_false b.latch_kept _ _ free ∙ run,
        kept,
        λ e id f found. let here = rw kept at found in (cleans e).1 id f here here,
      )
