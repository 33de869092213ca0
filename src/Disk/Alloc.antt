-- ===== src/Disk/Alloc.antt =====
-- What `alloc_page` and `free_page` promise of the sets of page ids.
use dawn.Base.{
  ℕ, suc, ◌-◌, ◌*◌, ◌≤◌, ◌<◌, ◌≡◌, ◌⊎◌, ◌↔◌, inl, inr, refl, true, false, ◌&&◌, ◌||◌, not, some,
  List, [], ◌∷◌, ltb, leb, ◌==◌, if◌then◌else◌, arith, Bool-cases, lt→ltb,
}
use dawn.Disk.IdSet.{
  Ascending, insert, erase, ids, member, member-insert, member_below, member-erase,
  Ascending-insert, Ascending-mono, Ascending-erase, Ascending-ids, member-ids,
}
use dawn.Disk.{
  Stream, DiskManager, is_free, is_allocated, refill, take_id, commit_id, alloc_page, free_page,
  seek_offset, long_offset,
}
use dawn.Memory.{minus_one, mul32, slt, slt_small}

-- The two sets share no id, and together they hold the ids below `max_ava_pgid`.
pub record Parted (max_ava : ℕ) (free alloced : List ℕ) : Type 0 where
  pub some_ava : 0 < max_ava
  pub free_ascending : Ascending 0 free
  pub alloced_ascending : Ascending 0 alloced
  pub below : (z : ℕ) → (member z free || member z alloced) ≡ ltb z max_ava
  pub apart : (z : ℕ) → (member z free && member z alloced) ≡ false

abbrev pub IsValid : {S : Type 0} → DiskManager S → Type 0
IsValid d = Parted d.max_ava_pgid d.free_pgid d.alloced_pgid

Parted-ids : (m : ℕ) (al : List ℕ) → Parted m [] al → Parted (m * 2) (ids m (m * 2 - m)) al
Parted-ids m al v = record {
  some_ava = omega (arith, v.some_ava);
  free_ascending =
      Ascending-mono m 0 (ids m (m * 2 - m)) (omega arith) (Ascending-ids m (m * 2 - m));
  alloced_ascending = v.alloced_ascending;
  below = λ z. rw (member-ids m (m * 2 - m) z) (ground (arith, v.some_ava, v.below z));
  apart = λ z. rw (member-ids m (m * 2 - m) z) (ground (arith, v.some_ava, v.below z));
}

Parted-insert : (m x : ℕ) (rest al : List ℕ) → Parted m (x ∷ rest) al → Parted m rest (insert x al)
Parted-insert m x rest al v = record {
  some_ava = v.some_ava;
  free_ascending = Ascending-mono (suc x) 0 rest (omega arith) v.free_ascending.1;
  alloced_ascending = Ascending-insert 0 x al v.alloced_ascending (omega arith);
  below = λ z. rw (member-insert x z al) (ground (arith, v.below z));
  apart = λ z.
      rw (member-insert x z al)
        (ground (arith, v.apart z, member_below (suc x) z rest v.free_ascending.1));
}

Parted-erase :
    (m x : ℕ) (free al : List ℕ)
    → Parted m free al
    → member x al ≡ true
    → Parted m (insert x free) (erase x al)
Parted-erase m x free al v h = record {
  some_ava = v.some_ava;
  free_ascending = Ascending-insert 0 x free v.free_ascending (omega arith);
  alloced_ascending = Ascending-erase 0 x al v.alloced_ascending;
  below = λ z.
      rw (member-insert x z free, member-erase 0 x z al v.alloced_ascending)
        (elim (Bool-cases (x == z)) [
          | inl t ↦ ground (arith, v.below z, v.below x)
          | inr t ↦ rw t (v.below z)
        ]);
  apart = λ z.
      rw (member-insert x z free, member-erase 0 x z al v.alloced_ascending)
        (elim (Bool-cases (x == z)) [ inl t ↦ rw t (ground arith) | inr t ↦ rw t (v.apart z) ]);
}

cons-cases : (xs : List ℕ) → (xs ≡ []) ⊎ ((x : ℕ) × (rest : List ℕ) × xs ≡ x ∷ rest)
cons-cases [] = inl refl
cons-cases (x ∷ rest) = inr (x, rest, refl)

mul32-two : (m : ℕ) → m < 1073741824 → mul32 m 2 ≡ m * 2
unfolding mul32
mul32-two m h = omega arith

slt-doubled : (m : ℕ) → 0 < m → m < 1073741824 → slt m (m * 2) ≡ true
slt-doubled m p h =
    rw (slt_small m (m * 2) (omega arith) (omega arith)) (lt→ltb m (m * 2) (omega arith))

ids-doubled : (m : ℕ) → 0 < m → ids m (m * 2 - m) ≡ m ∷ ids (suc m) (m - 1)
unfolding ids
ids-doubled m p = let size : m * 2 - m ≡ suc (m - 1) = omega arith in rw size refl

-- the smallest free id, after `refill`
record Smallest {S : Type 0} (d : DiskManager S) (id : ℕ) (d₁ : DiskManager S) : Type 0 where
  taken : take_id (refill d) ≡ some (id, d₁)
  valid : IsValid d₁
  apart : is_allocated d id ≡ false
  joins : (z : ℕ) → is_allocated d₁ z ≡ (id == z || is_allocated d z)
  least : (z : ℕ) → is_free d z ≡ true → id ≤ z

module _ {S : Type 0} where
  take_id-Smallest :
      (d : DiskManager S)
      → IsValid d
      → d.max_ava_pgid < 1073741824
      → (id : ℕ) × (d₁ : DiskManager S) × Smallest d id d₁
  unfolding take_id refill
  take_id-Smallest d v h = elim (cons-cases d.free_pgid) [
    | inl e ↦
        let m = d.max_ava_pgid in
        let w : Parted m [] d.alloced_pgid = rw e at v in
        let new : Parted (m * 2) (m ∷ ids (suc m) (m - 1)) d.alloced_pgid =
          rw (ids-doubled m w.some_ava) at (Parted-ids m d.alloced_pgid w) in
        (
          m,
          record d {
            max_ava_pgid = m * 2;
            free_pgid = ids (suc m) (m - 1);
            alloced_pgid = insert m d.alloced_pgid;
          },
          record {
            taken =
                rw (e, mul32-two m h, slt-doubled m w.some_ava h, ids-doubled m w.some_ava) refl;
            valid = Parted-insert (m * 2) m (ids (suc m) (m - 1)) d.alloced_pgid new;
            apart = ground (arith, w.below m);
            joins = λ z. member-insert m z d.alloced_pgid;
            least = λ z f. (let f' : false ≡ true = rw e at f in cc);
          },
        )
    | inr (x, rest, e) ↦
        let w : Parted d.max_ava_pgid (x ∷ rest) d.alloced_pgid = rw e at v in
        (
          x,
          record d { free_pgid = rest; alloced_pgid = insert x d.alloced_pgid },
          record {
            taken = rw e refl;
            valid = Parted-insert d.max_ava_pgid x rest d.alloced_pgid w;
            apart = ground (arith, w.apart x);
            joins = λ z. member-insert x z d.alloced_pgid;
            least = rw e (λ z f. ground (arith, member_below (suc x) z rest w.free_ascending.1));
          },
        )
  ]

  commit_id_lem :
      (io : Stream S) (d d₁ : DiskManager S) (id flag : ℕ)
      → Smallest d id d₁
      → (r : ℕ) × (after : DiskManager S) × (commit_id io d₁ flag id ≡ (r, after))
        × IsValid after
        × (((r ≡ minus_one) × ((z : ℕ) → is_allocated after z ≡ is_allocated d z))
            ⊎ ((is_allocated d r ≡ false)
                × ((z : ℕ) → is_allocated after z ≡ (r == z || is_allocated d z))
                × ((z : ℕ) → is_free d z ≡ true → r ≤ z)))
  unfolding commit_id
  commit_id_lem io d d₁ id flag s =
      let buf : List ℕ = elim d₁.page_buf [ [] ↦ [] | _ ∷ rest ↦ flag ∷ rest ] in
      let wrote = io.write d₁.db_io (seek_offset id) buf in
      elim (Bool-cases wrote.1) [
        | inl t ↦
            let back : is_allocated d₁ id ≡ true = rw (s.joins id) (ground arith) in
            (
              minus_one,
              record d₁ {
                db_io = wrote.0;
                page_buf = buf;
                free_pgid = insert id d₁.free_pgid;
                alloced_pgid = erase id d₁.alloced_pgid;
              },
              rw t refl,
              Parted-erase d₁.max_ava_pgid id d₁.free_pgid d₁.alloced_pgid s.valid back,
              inl (
                refl,
                λ z.
                    rw (member-erase 0 id z d₁.alloced_pgid s.valid.alloced_ascending, s.joins z)
                      (elim (Bool-cases (id == z)) [
                        | inl e ↦ ground (arith, s.apart)
                        | inr e ↦ rw e refl
                      ]),
              ),
            )
        | inr t ↦ (
          id,
          record d₁ {
            db_io = wrote.0;
            page_buf = buf;
            max_alloced_pgid = if slt d₁.max_alloced_pgid id then id else d₁.max_alloced_pgid;
          },
          rw t refl,
          s.valid,
          inr (s.apart, s.joins, s.least),
        )
      ]

  -- `alloc_page` always returns. It leaves the sets valid, and either it returns -1 and no more is
  -- allocated than before, or it returns an id that was not allocated, that is now allocated
  -- besides those that were, and that is at most every id that was free. The condition is that
  -- the number of ids can be doubled below 2 ^ 31.
  pub alloc_page_lem :
      (io : Stream S) (d : DiskManager S) (flag : ℕ)
      → IsValid d
      → d.max_ava_pgid < 1073741824
      → (r : ℕ) × (after : DiskManager S) × (alloc_page io d flag ≡ some (r, after))
        × IsValid after
        × (((r ≡ minus_one) × ((z : ℕ) → is_allocated after z ≡ is_allocated d z))
            ⊎ ((is_allocated d r ≡ false)
                × ((z : ℕ) → is_allocated after z ≡ (r == z || is_allocated d z))
                × ((z : ℕ) → is_free d z ≡ true → r ≤ z)))
  unfolding alloc_page commit_id
  alloc_page_lem io d flag v h = elim (Bool-cases (io.is_open d.db_io)) [
    | inr shut ↦ (minus_one, record d { status = false }, rw shut refl, v, inl (refl, λ z. refl))
    | inl opened ↦
        let (id, d₁, s) = take_id-Smallest d v h in
        let (r, after, same, valid, rest) = commit_id_lem io d d₁ id flag s in
        (r, after, rw (opened, s.taken, same) refl, valid, rest)
  ]

  -- On valid sets, `free_page` leaves valid sets on every branch. When it reports success, exactly
  -- that id is no longer allocated; when it reports failure, what is allocated has not changed.
  pub free_page_lem :
      (io : Stream S) (d : DiskManager S) (page_id : ℕ)
      → IsValid d
      → IsValid (free_page io d page_id).1
        × ((z : ℕ)
            → is_allocated (free_page io d page_id).1 z
              ≡ (not ((free_page io d page_id).0 && page_id == z) && is_allocated d z))
  unfolding free_page
  free_page_lem io d page_id v = elim (Bool-cases (leb 2147483648 page_id)) [
    | inl t ↦ rw t (v, λ z. refl)
    | inr t ↦ elim (Bool-cases (is_allocated d page_id)) [
      | inr out ↦ rw (t, out) (v, λ z. ground (arith, out))
      | inl in_use ↦
          let wrote = io.write d.db_io (seek_offset page_id) (2 ∷ []) in
          elim (Bool-cases wrote.1) [
            | inl failed ↦ rw (t, in_use, failed) (v, λ z. refl)
            | inr done ↦
                rw (t, in_use, done)
                  (
                    Parted-erase d.max_ava_pgid page_id d.free_pgid d.alloced_pgid v in_use,
                    λ z. member-erase 0 page_id z d.alloced_pgid v.alloced_ascending,
                  )
          ]
    ]
  ]

-- The `int` offset of `alloc_page` and `free_page` is not negative and is the one that `read_page`
-- and `write_page` use exactly for the ids below 2 ^ 19.
pub seek_offset-long_offset_iff :
    (page_id : ℕ)
    → page_id < 2147483648
    → ((seek_offset page_id ≡ long_offset page_id) × seek_offset page_id < 2147483648)
      ↔ (page_id < 524288)
unfolding seek_offset long_offset mul32
seek_offset-long_offset_iff page_id h =
    (λ e. omega (arith, e.0, e.1), λ l. (omega arith, omega arith))
