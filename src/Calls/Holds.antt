-- ===== src/Calls/Holds.antt =====
-- A page that the buffer pool has in a frame stays there, with its bytes, over the calls that get it,
-- change it and give it back.
use dawn.Base.{
  ℕ, ◌<◌, ◌≡◌, refl, ap, Bool, true, false, some, leb, ◌==◌, if◌then◌else◌, arith, Option-cases,
  ◌∙◌, ℕ_discrete, inl, inr,
}
use dawn.Disk.{Stream}
use dawn.Disk as Disk
use dawn.Page.TablePage.{load}
use dawn.Memory.{Memory, add32, sub32}
use dawn.Replacer.{pin, unpin}
use dawn.Page.{Page}
use dawn.Pool as Pool
use dawn.Pool.Frames.{if_false}
use dawn.Pool.{BufferPool, find, put}

-- the page `id` is in the frame `f`, with the bytes `m`, and the pool's latch is free
abbrev pub Holds : {S : Type 0} → BufferPool S → ℕ → ℕ → Memory → Type 0
Holds b id f m = (b.latch_kept ≡ false) × (find id b.mapping ≡ some f) × ((b.pages f).data_ ≡ m)

put_same : (pages : ℕ → Page) (f : ℕ) (p : Page) → put pages f p f ≡ p
put_same pages f p = let self : (f == f) ≡ true = ground arith in rw self refl

-- What a page that is put in its own frame keeps, every frame keeps.
put-kept :
    {A : Type 0} (field : Page → A) (pages : ℕ → Page) (f : ℕ) (p : Page) (i : ℕ)
    → field p ≡ field (pages f)
    → field (put pages f p i) ≡ field (pages i)
put-kept field pages f p i same = elim (ℕ_discrete i f) [
  | yes e ↦ rw e (ap field (put_same pages f p) ∙ same)
  | no ne ↦ let other : (i == f) ≡ false = ground arith in rw other refl
]

-- the latch is free, and the places, the bytes and the ids of the pages are the same
abbrev pub Alike : {S : Type 0} → BufferPool S → BufferPool S → Type 0
Alike b b₁ =
    (b₁.latch_kept ≡ false)
    × (b₁.mapping ≡ b.mapping)
    × ((i : ℕ) → (b₁.pages i).data_ ≡ (b.pages i).data_)
    × ((i : ℕ) → (b₁.pages i).page_id ≡ (b.pages i).page_id)

pub Alike-trans : {S : Type 0} (b b₁ b₂ : BufferPool S) → Alike b b₁ → Alike b₁ b₂ → Alike b b₂
Alike-trans b b₁ b₂ (_, places, bytes, ids) (unlocked, places₁, bytes₁, ids₁) =
    (unlocked, places₁ ∙ places, λ i. bytes₁ i ∙ bytes i, λ i. ids₁ i ∙ ids i)

Alike-if :
    {S : Type 0} (c : Bool) (b x y : BufferPool S)
    → Alike b x
    → Alike b y
    → Alike b (if c then x else y)
Alike-if true b x y l r = l
Alike-if false b x y l r = r

Holds-Alike :
    {S : Type 0} (b b₁ : BufferPool S) (id f : ℕ) (m : Memory)
    → Holds b id f m
    → Alike b b₁
    → Holds b₁ id f m
Holds-Alike b b₁ id f m (_, mapped, bytes) (unlocked, places, kept, _) =
    (unlocked, ap (find id) places ∙ mapped, kept f ∙ bytes)

module _ {S : Type 0} (io : Stream S) where
  -- A page that is in a frame is got there, and nothing else changes.
  pub get_page-Alike :
      (b : BufferPool S) (id f : ℕ)
      → id < 2147483648
      → b.latch_kept ≡ false
      → find id b.mapping ≡ some f
      → (b₁ : BufferPool S) × (Pool.get_page io b id ≡ some (some f, b₁)) × Alike b b₁
  unfolding Pool.get_page
  get_page-Alike b id f small unlocked mapped =
      let valid : leb 2147483648 id ≡ false = ground arith in
      let p = record (b.pages f) { pin_count = add32 (b.pages f).pin_count 1 } in
      (
        record b { pages = put b.pages f p; replacer = pin b.replacer f },
        if_false _ _ _ valid ∙ if_false _ _ _ unlocked ∙ rw mapped refl,
        (
          unlocked,
          refl,
          λ i. put-kept (λ q. q.data_) b.pages f p i refl,
          λ i. put-kept (λ q. q.page_id) b.pages f p i refl,
        ),
      )

  -- A flush when the latch is free returns, and keeps every page's bytes and place.
  pub flush_page-Alike :
      (b : BufferPool S) (id : ℕ)
      → b.latch_kept ≡ false
      → (ok : Bool) × (b₁ : BufferPool S) × (Pool.flush_page io b id ≡ some (ok, b₁)) × Alike b b₁
  unfolding Pool.flush_page
  flush_page-Alike b id unlocked = elim (Option-cases (find id b.mapping)) [
    | inl e ↦
        (false, b, if_false _ _ _ unlocked ∙ rw e refl, (unlocked, refl, λ i. refl, λ i. refl))
    | inr (f, e) ↦
        let (ok, d) = Disk.write_page io b.disk_manager id (load (b.pages f).data_ 0 4096) in
        let p = record (b.pages f) { is_dirty = false } in
        let b₁ = record b { disk_manager = d } in
        let b₂ = record b₁ { pages = put b.pages f p } in
        let same : Alike b b₂ = (
          unlocked,
          refl,
          λ i. put-kept (λ q. q.data_) b.pages f p i refl,
          λ i. put-kept (λ q. q.page_id) b.pages f p i refl,
        ) in
        (
          ok,
          if ok then b₂ else b₁,
          if_false _ _ _ unlocked ∙ rw e refl,
          Alike-if ok b b₂ b₁ same (unlocked, refl, λ i. refl, λ i. refl),
        )
  ]

  pub get_page-Holds :
      (b : BufferPool S) (id f : ℕ) (m : Memory)
      → id < 2147483648
      → Holds b id f m
      → (b₁ : BufferPool S) × (Pool.get_page io b id ≡ some (some f, b₁)) × Holds b₁ id f m
  get_page-Holds b id f m small held =
      let (b₁, ran, alike) = get_page-Alike b id f small held.0 held.1 in
      (b₁, ran, Holds-Alike b b₁ id f m held alike)

module _ {S : Type 0} where
  -- A page is given back, with every page's bytes and place kept.
  pub unpin_page-Alike :
      (b : BufferPool S) (id : ℕ) (dirty : Bool)
      → b.latch_kept ≡ false
      → (b₁ : BufferPool S) × (Pool.unpin_page b id dirty ≡ some b₁) × Alike b b₁
  unfolding Pool.unpin_page
  unpin_page-Alike b id dirty unlocked = elim (Option-cases (find id b.mapping)) [
    | inl e ↦ (b, if_false _ _ _ unlocked ∙ rw e refl, (unlocked, refl, λ i. refl, λ i. refl))
    | inr (f, e) ↦
        let count = sub32 (b.pages f).pin_count 1 in
        let p = record (b.pages f) {
          is_dirty = if dirty then true else (b.pages f).is_dirty;
          pin_count = count;
        } in
        (
          record b {
            pages = put b.pages f p;
            replacer = if count == 0 then unpin b.replacer f else b.replacer;
          },
          if_false _ _ _ unlocked ∙ rw e refl,
          (
            unlocked,
            refl,
            λ i. put-kept (λ q. q.data_) b.pages f p i refl,
            λ i. put-kept (λ q. q.page_id) b.pages f p i refl,
          ),
        )
  ]

  pub unpin_page-Holds :
      (b : BufferPool S) (id f own : ℕ) (dirty : Bool) (m : Memory)
      → Holds b id f m
      → (b₁ : BufferPool S) × (Pool.unpin_page b own dirty ≡ some b₁) × Holds b₁ id f m
  unpin_page-Holds b id f own dirty m held =
      let (b₁, ran, alike) = unpin_page-Alike b own dirty held.0 in
      (b₁, ran, Holds-Alike b b₁ id f m held alike)

  -- A change of the page in the frame.
  pub modify-Holds :
      (b : BufferPool S) (id f : ℕ) (m : Memory) (p : Page)
      → Holds b id f m
      → Holds (record b { pages = put b.pages f p }) id f p.data_
  modify-Holds b id f m p (unlocked, mapped, bytes) =
      (unlocked, mapped, ap (λ q. q.data_) (put_same b.pages f p))
