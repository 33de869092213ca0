-- ===== src/Disk/Start/Scan.antt =====
-- The sets that the scan of the .db file builds.
use dawn.Base.{
  ℕ, zero, suc, ◌+◌, ◌-◌, ◌*◌, ◌/◌, ◌%◌, ◌≤◌, ◌<◌, ◌≡◌, ◌≢◌, inl, inr, refl, sym, ap, ◌∙◌, Bool,
  true, false, ◌&&◌, ◌||◌, not, some, List, [], ltb, leb, ◌==◌, length, get_or, arith, Bool-cases,
  ℕ_discrete,
}
use dawn.Disk.Alloc.{Parted, IsValid}
use dawn.Disk.IdSet.{Ascending, insert, member, member-insert, Ascending-insert}
use dawn.Disk.Start.{
  batch_pages, batch_size, mark_page, scan_pages, free_rest, scan_batches, scan_db,
}
use dawn.Disk.{Stream, DiskManager, is_free, is_allocated}
use dawn.Memory.{Memory, minus_one}
use dawn.Page.TablePage.Layout.{get_or-load, length-load}
use dawn.Page.TablePage.{load}

-- one id more
next_ltb : (k z : ℕ) → k ≢ z → ((k == z) ≡ false) × (ltb z k ≡ ltb z (suc k))
next_ltb k z ne = (ground arith, ground arith)

count_in :
    (b : ℕ → Bool) (k z : ℕ) → b k ≡ true → (k == z || ltb z k && b z) ≡ (ltb z (suc k) && b z)
count_in b k z h = elim (ℕ_discrete k z) [
  | yes e ↦
      let here : (k == z) ≡ true = ground arith in
      let above : ltb z (suc k) ≡ true = ground arith in
      let bz : b z ≡ true = ap b (sym e) ∙ h in rw (here, above, bz) refl
  | no ne ↦ let (other, same) = next_ltb k z ne in rw (other, same) refl
]

count_out : (b : ℕ → Bool) (k z : ℕ) → b k ≡ false → (ltb z k && b z) ≡ (ltb z (suc k) && b z)
count_out b k z h = elim (ℕ_discrete k z) [
  | yes e ↦
      let below : ltb z k ≡ false = ground arith in
      let bz : b z ≡ false = ap b (sym e) ∙ h in
      let above : ltb z (suc k) ≡ true = ground arith in rw (below, above, bz) refl
  | no ne ↦ let (other, same) = next_ltb k z ne in rw same refl
]

-- is the page in use, by its first byte?
abbrev pub is_used : Memory → ℕ → Bool
is_used file id = file (id * 4096) % 2 == 1

-- the ids behind the last page are free
free_rest_lem :
    (n id : ℕ) (free : List ℕ)
    → Ascending 0 free
    → Ascending 0 (free_rest n id free)
      × ((z : ℕ)
          → member z (free_rest n id free) ≡ (member z free || not (ltb z id) && ltb z (id + n)))
unfolding free_rest
free_rest_lem zero id free a = (a, λ z. ground arith)
free_rest_lem (suc n) id free a =
    let (up, all) =
      free_rest_lem n (suc id) (insert id free) (Ascending-insert 0 id free a (omega arith)) in
    (up, λ z. rw (all z, member-insert id z free) (ground arith))

-- the ids below `k` by their pages and those above up to `max` are all ids below `max`, and each is in
-- one of the sets
parted :
    (z k max : ℕ) (u : Bool)
    → k ≤ max
    → ((ltb z k && not u || not (ltb z k) && ltb z (k + (max - k)) || ltb z k && u) ≡ ltb z max)
      × (((ltb z k && not u || not (ltb z k) && ltb z (k + (max - k))) && (ltb z k && u)) ≡ false)
parted z k max true h = (ground arith, ground arith)
parted z k max false h = (ground arith, ground arith)

module _ {S : Type 0} (file : Memory) where
  -- the sets after the pages below `k`
  record Seen (max k : ℕ) (d : DiskManager S) : Type 0 where
    kept : d.max_ava_pgid ≡ max
    free_ascending : Ascending 0 d.free_pgid
    alloced_ascending : Ascending 0 d.alloced_pgid
    allocs : (z : ℕ) → is_allocated d z ≡ (ltb z k && is_used file z)
    frees : (z : ℕ) → is_free d z ≡ (ltb z k && not (is_used file z))

  Seen-at : {max k k' : ℕ} {d : DiskManager S} → k ≡ k' → Seen max k d → Seen max k' d
  Seen-at e seen = rw (← e) seen

  mark_page-Seen :
      (max k status : ℕ) (d : DiskManager S)
      → Seen max k d
      → status ≡ file (k * 4096)
      → Seen max (suc k) (mark_page d k status)
  unfolding mark_page
  mark_page-Seen max k status d seen e = elim (Bool-cases (is_used file k)) [
    | inl used ↦
        let u : (status % 2 == 1) ≡ true = rw e used in
        rw u (record {
          kept = seen.kept;
          free_ascending = seen.free_ascending;
          alloced_ascending =
              Ascending-insert 0 k d.alloced_pgid seen.alloced_ascending (omega arith);
          allocs = λ z.
              rw (member-insert k z d.alloced_pgid, seen.allocs z)
                (count_in (is_used file) k z used);
          frees = λ z. rw (seen.frees z) (count_out (λ x. not (is_used file x)) k z (ap not used));
        })
    | inr unused ↦
        let u : (status % 2 == 1) ≡ false = rw e unused in
        rw u (record {
          kept = seen.kept;
          free_ascending = Ascending-insert 0 k d.free_pgid seen.free_ascending (omega arith);
          alloced_ascending = seen.alloced_ascending;
          allocs = λ z. rw (seen.allocs z) (count_out (is_used file) k z unused);
          frees = λ z.
              rw (member-insert k z d.free_pgid, seen.frees z)
                (count_in (λ x. not (is_used file x)) k z (ap not unused));
        })
  ]

  -- the pages of a batch, which starts at the page `base`
  scan_pages-Seen :
      (n max base j : ℕ) (tmp_buf : List ℕ) (d : DiskManager S)
      → Seen max (base + j) d
      → ((i : ℕ) → i < j + n → get_or tmp_buf (i * 4096) 0 ≡ file ((base + i) * 4096))
      → Seen max (base + (j + n)) (scan_pages n tmp_buf base (j * 4096) d)
  unfolding scan_pages
  scan_pages-Seen zero max base j tmp_buf d seen h =
      let same : base + (j + 0) ≡ base + j = omega arith in rw same seen
  scan_pages-Seen (suc n) max base j tmp_buf d seen h =
      let id : j * 4096 / 4096 ≡ j = omega arith in
      let at : j * 4096 + 4096 ≡ (j + 1) * 4096 = omega arith in
      let count : base + (j + suc n) ≡ base + (j + 1 + n) = omega arith in
      let more : suc (base + j) ≡ base + (j + 1) = omega arith in
      let one =
        mark_page-Seen max (base + j) (get_or tmp_buf (j * 4096) 0) d seen (h j (omega arith)) in
      rw (id, at, count)
        (scan_pages-Seen n max base (j + 1) tmp_buf
          (mark_page d (base + j) (get_or tmp_buf (j * 4096) 0)) (rw more at one)
          (λ i l. h i (omega arith)))

  -- the file has `size` bytes, which a read delivers
  module _ (io : Stream S) (whole : ℕ)
      (delivers : (s : S) (off n : ℕ)
        → off + n ≤ whole
        → (io.read s off n).1 ≡ load file off n) where
    batch-Seen :
        (i n max : ℕ) (d : DiskManager S)
        → i * batch_size + n * 4096 ≤ whole
        → Seen max (i * batch_pages) d
        → let (s, got) = io.read d.db_io (i * batch_size) (n * 4096) in
          (length got ≡ n * 4096)
          × Seen max (i * batch_pages + n) (
              scan_pages
                ((length got + 4095) / 4096)
                got
                (i * batch_pages)
                0
                (record d { db_io = s }))
    batch-Seen i n max d h seen =
        let (s, got) = io.read d.db_io (i * batch_size) (n * 4096) in
        let bytes = delivers d.db_io (i * batch_size) (n * 4096) h in
        let size : length got ≡ n * 4096 =
          ap length bytes ∙ length-load file (i * batch_size) (n * 4096) in
        let count : (n * 4096 + 4095) / 4096 ≡ n = omega arith in
        let d' = record d { db_io = s } in
        let base = i * batch_pages in
        let seen' : Seen max (base + 0) d' =
          let same : base + 0 ≡ base = omega arith in
          rw same (record {
            kept = seen.kept;
            free_ascending = seen.free_ascending;
            alloced_ascending = seen.alloced_ascending;
            allocs = seen.allocs;
            frees = seen.frees;
          }) in
        let first : (x : ℕ) → x < 0 + n → get_or got (x * 4096) 0 ≡ file ((base + x) * 4096) =
          λ x l.
            let place : i * batch_size + x * 4096 ≡ (base + x) * 4096 = omega arith in
            ap (λ (bs : List ℕ). get_or bs (x * 4096) 0) bytes
            ∙ get_or-load file (i * batch_size) (n * 4096) (x * 4096) (omega arith)
            ∙ ap file place in
        let end : 0 + n ≡ n = omega arith in
        (size, rw (size, count) (rw end at (scan_pages-Seen n max base 0 got d' seen' first)))

    scan_batches-Seen :
        (n i p max : ℕ) (d : DiskManager S)
        → i * batch_size + p * 4096 ≡ whole
        → p ≤ n * batch_pages
        → n * batch_pages < p + batch_pages
        → Seen max (i * batch_pages) d
        → (d₁ : DiskManager S) × (scan_batches io n i (p * 4096) d ≡ (true, d₁))
          × Seen max (i * batch_pages + p) d₁
    unfolding scan_batches
    scan_batches-Seen zero i p max d all few enough seen =
        let same : i * batch_pages + p ≡ i * batch_pages = omega arith in (d, refl, rw same seen)
    scan_batches-Seen (suc n) i p max d all few enough seen =
        elim (Bool-cases (leb batch_size (p * 4096))) [
          | inl full ↦
              let (size, one) = batch-Seen i 10240 max d (ground arith) seen in
              let next : i * batch_pages + 10240 ≡ (i + 1) * batch_pages = omega arith in
              let left : p * 4096 - batch_size ≡ (p - 10240) * 4096 = omega arith in
              let end : (i + 1) * batch_pages + (p - 10240) ≡ i * batch_pages + p = ground arith in
              let (d₁, run, seen₁) =
                scan_batches-Seen n (i + 1) (p - 10240) max _ (ground arith) (ground arith)
                  (ground arith) (rw next at one) in
              let whole_batch : (length (io.read d.db_io (i * batch_size) batch_size).1
                    == batch_size)
                  ≡ true =
                ground (arith, size) in
              (d₁, rw (full, whole_batch, left) run, Seen-at {d = d₁} end seen₁)
          | inr part ↦
              let (size, one) = batch-Seen i p max d (omega arith) seen in
              let last : n ≡ 0 = ground arith in
              let whole_part : (length (io.read d.db_io (i * batch_size) (p * 4096)).1 == p * 4096)
                  ≡ true =
                ground (arith, size) in
              (_, rw (part, whole_part, last) refl, one)
        ]

    Seen-Parted :
        (max k : ℕ) (d : DiskManager S)
        → Seen max k d
        → k ≤ max
        → 0 < max
        → Parted max (free_rest (max - k) k d.free_pgid) d.alloced_pgid
    Seen-Parted max k d seen h pos =
        let (up, all) = free_rest_lem (max - k) k d.free_pgid seen.free_ascending in
        record {
          some_ava = pos;
          free_ascending = up;
          alloced_ascending = seen.alloced_ascending;
          below =
              λ z. rw (all z, seen.frees z, seen.allocs z) (parted z k max (is_used file z) h).0;
          apart =
              λ z. rw (all z, seen.frees z, seen.allocs z) (parted z k max (is_used file z) h).1;
        }

    filled_lem :
        (pages max : ℕ) (d d₁ : DiskManager S)
        → pages * 4096 ≡ whole
        → (whole == 0) ≡ false
        → scan_batches io ((whole + (batch_size - 1)) / batch_size) 0 whole d ≡ (true, d₁)
        → Seen max pages d₁
        → pages ≤ max
        → 0 < max
        → (d₂ : DiskManager S) × (scan_db io (some whole) d ≡ (true, d₂))
          × IsValid d₂
          × (d₂.max_ava_pgid ≡ max)
          × ((z : ℕ) → is_allocated d₂ z ≡ (ltb z pages && is_used file z))
    unfolding scan_db
    filled_lem pages max d d₁ size filled run seen few pos =
        let even : (whole % 4096 == 0) ≡ true = ground arith in
        let count : whole / 4096 ≡ pages = omega arith in
        let valid : Parted d₁.max_ava_pgid (free_rest (d₁.max_ava_pgid - pages) pages d₁.free_pgid)
            d₁.alloced_pgid =
          rw seen.kept (Seen-Parted max pages d₁ seen few pos) in
        (
          record d₁ {
            free_pgid = free_rest (d₁.max_ava_pgid - pages) pages d₁.free_pgid;
            status = true;
          },
          rw (even, filled, run, count) refl,
          valid,
          seen.kept,
          seen.allocs,
        )

    -- For a .db file of whole pages, not more than the ids there are, whose reads deliver its bytes: the
    -- scan from empty sets succeeds; an id is allocated exactly if the file has its page and the page's
    -- first byte has STATUS_EXIST, and the free ids are all others below `max_ava_pgid_`, so the sets
    -- are as `alloc_page` and `free_page` need them.
    pub scan_db-IsValid :
        (pages : ℕ) (d : DiskManager S)
        → pages * 4096 ≡ whole
        → d.free_pgid ≡ []
        → d.alloced_pgid ≡ []
        → pages ≤ d.max_ava_pgid
        → 0 < d.max_ava_pgid
        → (d₁ : DiskManager S) × (scan_db io (some whole) d ≡ (true, d₁))
          × IsValid d₁
          × (d₁.max_ava_pgid ≡ d.max_ava_pgid)
          × ((z : ℕ) → is_allocated d₁ z ≡ (ltb z pages && is_used file z))
    unfolding scan_db
    scan_db-IsValid pages d size no_free no_alloced few pos =
        let max = d.max_ava_pgid in
        let none_seen : Seen max 0 d = record {
          kept = refl;
          free_ascending = rw no_free tt;
          alloced_ascending = rw no_alloced tt;
          allocs = λ z. rw no_alloced (ground arith);
          frees = λ z. rw no_free (ground arith);
        } in
        let even : (whole % 4096 == 0) ≡ true = ground arith in
        elim (Bool-cases (whole == 0)) [
          | inl empty ↦
              let zero_pages : pages ≡ 0 = ground arith in
              let all : max - 0 ≡ max = omega arith in
              let d₁ = record d {
                free_pgid = free_rest max 0 d.free_pgid;
                max_alloced_pgid = minus_one;
                status = true;
              } in
              (
                d₁,
                rw (even, empty) refl,
                rw all at (Seen-Parted max 0 d none_seen (omega arith) pos),
                refl,
                λ z. rw zero_pages (none_seen.allocs z),
              )
          | inr filled ↦
              let (d₁, run, seen) =
                scan_batches-Seen ((whole + (batch_size - 1)) / batch_size) 0 pages max d
                  (omega arith) (omega arith) (omega arith) none_seen in
              let all : 0 * batch_pages + pages ≡ pages = omega arith in
              filled_lem pages max d d₁ size filled
                (ap (λ (n : ℕ). scan_batches io ((whole + (batch_size - 1)) / batch_size) 0 n d)
                    (sym size)
                  ∙ run)
                (Seen-at {d = d₁} all seen) few pos
        ]
