-- ===== src/Latch/Holders.antt =====
-- How many threads hold the latch: what every step of the threads keeps.
use dawn.Base.{
  ℕ, zero, suc, ◌+◌, ◌≤◌, ◌≡◌, ◌≢◌, ◌⊎◌, inl, inr, refl, ap, Bool, true, false, ◌||◌, some, List,
  [], ◌∷◌, ltb, ◌==◌, get_elem?, set, replicate, arith, Bool-cases,
}
use dawn.Latch.{
  w_enter, w_drain, w_unlock, r_lock, r_unlock, Phase, outside, entered, writing, reading, System,
  Step, enters, drains, w_unlocks, r_locks, r_unlocks, start, Reach, begin, later, max_readers,
}
use dawn.Memory.{add32, sub32}

abbrev pub is_reader : Phase → ℕ
is_reader reading = 1
is_reader _ = 0

abbrev pub is_writer : Phase → ℕ
is_writer writing = 1
is_writer _ = 0

abbrev pub is_waiting : Phase → ℕ
is_waiting entered = 1
is_waiting _ = 0

abbrev pub has_entered : Phase → ℕ
has_entered writing = 1
has_entered entered = 1
has_entered _ = 0

-- how much the threads count
abbrev pub tally : (Phase → ℕ) → List Phase → ℕ
tally w [] = 0
tally w (p ∷ ps) = w p + tally w ps

-- the threads that hold the latch for reading, and for writing
abbrev pub readers : System → ℕ
readers s = tally is_reader s.threads

abbrev pub writers : System → ℕ
writers s = tally is_writer s.threads

pub tally-set :
    (w : Phase → ℕ) (ps : List Phase) (i : ℕ) {p : Phase} (q : Phase)
    → get_elem? ps i ≡ some p
    → tally w (set ps i q) + w p ≡ tally w ps + w q
tally-set w [] i q e = cc
tally-set w (p' ∷ ps) zero {p} q e = let same : p' ≡ p = cc in omega (arith, ap w same)
tally-set w (p' ∷ ps) (suc i) q e = omega (arith, tally-set w ps i q e)

pub tally_one :
    (w : Phase → ℕ) (ps : List Phase) (i : ℕ) {p : Phase}
    → get_elem? ps i ≡ some p
    → w p ≤ tally w ps
tally_one w [] i e = cc
tally_one w (p' ∷ ps) zero {p} e = let same : p' ≡ p = cc in omega (arith, ap w same)
tally_one w (p' ∷ ps) (suc i) e = omega (arith, tally_one w ps i e)

tally_none : (w : Phase → ℕ) (n : ℕ) → w outside ≡ 0 → tally w (replicate n outside) ≡ 0
tally_none w zero h = refl
tally_none w (suc n) h = omega (arith, h, tally_none w n h)

pub writer-has_entered :
    (ps : List Phase) → tally is_writer ps + tally is_waiting ps ≡ tally has_entered ps
writer-has_entered [] = refl
writer-has_entered (outside ∷ ps) = omega (arith, writer-has_entered ps)
writer-has_entered (entered ∷ ps) = omega (arith, writer-has_entered ps)
writer-has_entered (writing ∷ ps) = omega (arith, writer-has_entered ps)
writer-has_entered (reading ∷ ps) = omega (arith, writer-has_entered ps)

abbrev bit : Bool → ℕ
bit true = 1
bit false = 0

pub bit-one : (b : Bool) → bit b ≤ 1
bit-one true = omega arith
bit-one false = omega arith

pub record Inv (s : System) : Type 0 where
  pub counted : readers s ≡ s.latch.reader_count
  pub few : s.latch.reader_count ≤ max_readers
  pub one : tally has_entered s.threads ≡ bit s.latch.writer_entered
  pub alone : (writers s ≡ 0) ⊎ (readers s ≡ 0)

Step-Inv : {s t : System} → Step s t → Inv s → Inv t
unfolding w_enter w_drain w_unlock r_lock r_unlock add32 sub32
Step-Inv {s} (enters i {l} at go) inv = elim (Bool-cases s.latch.writer_entered) [
  | inl busy ↦ let no = rw busy at go in cc
  | inr free ↦
      let new : record s.latch { writer_entered = true } ≡ l = let go' = rw free at go in cc in
      let r = tally-set is_reader s.threads i entered at in
      let w = tally-set is_writer s.threads i entered at in
      let h = tally-set has_entered s.threads i entered at in
      let o : tally has_entered s.threads ≡ 0 = rw free at inv.one in
      rw (← new) (record {
        counted = omega (arith, r, inv.counted);
        few = inv.few;
        one = omega (arith, h, o);
        alone = elim inv.alone [
          | inl a ↦ inl (omega (arith, a, w))
          | inr a ↦ inr (omega (arith, a, r))
        ];
      })
]
Step-Inv {s} (drains i {l} at go) inv = elim (Bool-cases (ltb 0 s.latch.reader_count)) [
  | inl busy ↦ let no = rw busy at go in cc
  | inr free ↦
      let new : s.latch ≡ l = let go' = rw free at go in cc in
      let r = tally-set is_reader s.threads i writing at in
      let w = tally-set is_writer s.threads i writing at in
      let h = tally-set has_entered s.threads i writing at in
      let z : s.latch.reader_count ≡ 0 = ground arith in
      rw (← new) (record {
        counted = omega (arith, r, inv.counted);
        few = inv.few;
        one = omega (arith, h, inv.one);
        alone = inr (omega (arith, r, inv.counted, z));
      })
]
Step-Inv {s} (w_unlocks i at) inv =
    let r = tally-set is_reader s.threads i outside at in
    let w = tally-set is_writer s.threads i outside at in
    let h = tally-set has_entered s.threads i outside at in
    let some_one = tally_one has_entered s.threads i at in
    let le = writer-has_entered s.threads in
    let up = bit-one s.latch.writer_entered in
    record {
      counted = omega (arith, r, inv.counted);
      few = inv.few;
      one = omega (arith, h, inv.one, up, some_one);
      alone = inl (omega (arith, w, le, inv.one, up));
    }
Step-Inv {s} (r_locks i {l} at go) inv =
    elim (Bool-cases (s.latch.writer_entered || s.latch.reader_count == max_readers)) [
      | inl busy ↦ let no = rw busy at go in cc
      | inr free ↦
          let (open_, room) : (s.latch.writer_entered ≡ false)
              × (s.latch.reader_count ≢ max_readers) =
            (ground arith, ground arith) in
          let new : record s.latch { reader_count = add32 s.latch.reader_count 1 } ≡ l =
            let go' = rw free at go in cc in
          let r = tally-set is_reader s.threads i reading at in
          let w = tally-set is_writer s.threads i reading at in
          let h = tally-set has_entered s.threads i reading at in
          let o : tally has_entered s.threads ≡ 0 = rw open_ at inv.one in
          let le = writer-has_entered s.threads in
          rw (← new) (record {
            counted = omega (arith, r, inv.counted, inv.few);
            few = omega (arith, inv.few);
            one = omega (arith, h, inv.one);
            alone = inl (omega (arith, w, le, o));
          })
    ]
Step-Inv {s} (r_unlocks i at) inv =
    let r = tally-set is_reader s.threads i outside at in
    let w = tally-set is_writer s.threads i outside at in
    let h = tally-set has_entered s.threads i outside at in
    let some_one = tally_one is_reader s.threads i at in
    record {
      counted = omega (arith, r, inv.counted, inv.few, some_one);
      few = omega (arith, inv.few, some_one, inv.counted);
      one = omega (arith, h, inv.one);
      alone = elim inv.alone [
        | inl a ↦ inl (omega (arith, a, w))
        | inr a ↦ inr (omega (arith, a, r))
      ];
    }

start-Inv : (n : ℕ) → Inv (start n)
start-Inv n =
    let r = tally_none is_reader n refl in
    record { counted = r; few = omega arith; one = tally_none has_entered n refl; alone = inr r }

pub Reach-Inv : {n : ℕ} {s : System} → Reach n s → Inv s
Reach-Inv {n} begin = start-Inv n
Reach-Inv (later r st) = Step-Inv st (Reach-Inv r)

pub tally_two :
    (w : Phase → ℕ) (ps : List Phase) (i j : ℕ) {p q : Phase}
    → get_elem? ps i ≡ some p
    → get_elem? ps j ≡ some q
    → i ≢ j
    → w p + w q ≤ tally w ps
tally_two w [] i j e f ne = cc
tally_two w (p' ∷ ps) zero zero e f ne = absurd (ne refl)
tally_two w (p' ∷ ps) zero (suc j) {p} {q} e f ne =
    let same : p' ≡ p = cc in omega (arith, ap w same, tally_one w ps j f)
tally_two w (p' ∷ ps) (suc i) zero {p} {q} e f ne =
    let same : p' ≡ q = cc in omega (arith, ap w same, tally_one w ps i e)
tally_two w (p' ∷ ps) (suc i) (suc j) e f ne =
    omega (arith, tally_two w ps i j e f (λ k. ne (ap suc k)))
