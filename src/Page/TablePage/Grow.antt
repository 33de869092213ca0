-- ===== src/Page/TablePage/Grow.antt =====
-- The write of `get_empty_slot`: one more slot, whose record holds what stood there.
use dawn.Base.{ℕ, ◌+◌, ◌*◌, ◌≤◌, ◌<◌, ◌≡◌, ◌≢◌, arith}
use dawn.Memory.{
  Memory, read32, write32, Apart, read32-write32, read32-write32-Apart, write32_outside,
}
use dawn.Page.TablePage.Layout.{Layout, cnt, fsp, off, siz}
use dawn.Page.TablePage.View.{view, view-congr}

abbrev pub grown : Memory → Memory
grown m = write32 m 140 (cnt m + 1)

module _ (m : Memory) (small : cnt m ≤ 494) where
  pub grown-cnt : cnt (grown m) ≡ cnt m + 1
  grown-cnt = read32-write32 m 140 (cnt m + 1) (omega arith)

  pub grown-word : (b : ℕ) → Apart 140 4 b → read32 (grown m) b ≡ read32 m b
  grown-word b h = read32-write32-Apart m 140 (cnt m + 1) b h

  grown-off : (i : ℕ) → off (grown m) i ≡ off m i
  grown-off i = grown-word (144 + 8 * i) (omega arith)

  grown-siz : (i : ℕ) → siz (grown m) i ≡ siz m i
  grown-siz i = grown-word (148 + 8 * i) (omega arith)

  grown-fsp : fsp (grown m) ≡ fsp m
  grown-fsp = grown-word 72 (omega arith)

  old_slot : (i : ℕ) → i < cnt (grown m) → i ≢ cnt m → i < cnt m
  old_slot i h ne = omega (arith, grown-cnt)

  pub grown-Layout : Layout (cnt m) m → 144 + 8 * cnt m + 8 ≤ fsp m → Layout (cnt m) (grown m)
  grown-Layout v space = record {
    floor = rw (grown-fsp, grown-cnt) (omega arith);
    ceiling = rw grown-fsp v.ceiling;
    above = λ i h s u.
        rw (grown-fsp, grown-off i) (v.above i (old_slot i h s) s (rw (grown-off i) at u));
    below = λ i h s u.
        rw (grown-off i, grown-siz i) (v.below i (old_slot i h s) s (rw (grown-off i) at u));
    sized = λ i h s u. rw (grown-siz i) (v.sized i (old_slot i h s) s (rw (grown-off i) at u));
    filled = λ i h s u. rw (grown-siz i) (v.filled i (old_slot i h s) s (rw (grown-off i) at u));
    apart = λ i j hi hj si sj ne ui uj.
        rw (grown-off i, grown-siz i, grown-off j, grown-siz j)
          (v.apart i j (old_slot i hi si) (old_slot j hj sj) si sj ne (rw (grown-off i) at ui)
            (rw (grown-off j) at uj));
  }

  pub grown-view : (i : ℕ) → i ≢ cnt m → Layout (cnt m) m → view (grown m) i ≡ view m i
  grown-view i ne v =
      view-congr m (grown m) i (rw grown-cnt (ground arith)) (λ _. grown-off i) (λ _ _. grown-siz i)
        (λ h u x lo hi.
          write32_outside m 140 (cnt m + 1) x (omega (arith, v.above i h ne u, v.floor, lo)))
