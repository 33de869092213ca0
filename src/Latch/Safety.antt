-- ===== src/Latch/Safety.antt =====
-- A writer is alone in the latch.
use dawn.Base.{
  ℕ, suc, ◌≤◌, ◌≡◌, ◌≢◌, inl, inr, refl, true, false, ◌||◌, none, some, ltb, ◌==◌, get_elem?, arith,
  Bool-cases, ℕ_discrete,
}
use dawn.Latch.{
  Latch, w_enter, w_drain, r_lock, outside, entered, writing, reading, System, Step, enters, drains,
  w_unlocks, r_locks, r_unlocks, Reach, max_readers,
}
use dawn.Memory.{add32}
use dawn.Latch.Holders.{
  is_reader, is_writer, is_waiting, has_entered, tally, readers, writers, tally-set, tally_one,
  writer-has_entered, bit-one, Inv, Reach-Inv, tally_two,
}

-- However many threads take and release the latch, in every order: a thread that holds it for writing
-- is the only one that does, and no thread holds it for reading then.
pub writing_alone :
    {n : ℕ} {s : System}
    → Reach n s
    → (i j : ℕ) → get_elem? s.threads i ≡ some writing
    → (get_elem? s.threads j ≡ some writing → i ≡ j) × (get_elem? s.threads j ≢ some reading)
writing_alone {s} reach i j here =
    let inv = Reach-Inv reach in
    let le = writer-has_entered s.threads in
    let up = bit-one s.latch.writer_entered in
    let mine = tally_one is_writer s.threads i here in
    (
      λ there. elim (ℕ_discrete i j) [
        | yes e ↦ e
        | no ne ↦
            absurd (omega (arith, tally_two is_writer s.threads i j here there ne, le, up, inv.one))
      ],
      λ there.
          let other = tally_one is_reader s.threads j there in
          elim inv.alone [
            | inl a ↦ absurd (omega (arith, a, mine))
            | inr a ↦ absurd (omega (arith, a, other))
          ],
    )

-- A lock that `r` threads share and `w` threads have for themselves, before and after a step.
pub data Lock (r w r' w' : ℕ) : Type 0 where
  stays : r ≡ r' → w ≡ w' → Lock r w r' w'
  shares : w ≡ 0 → w' ≡ 0 → r' ≡ suc r → Lock r w r' w'
  unshares : w ≡ 0 → w' ≡ 0 → r ≡ suc r' → Lock r w r' w'
  takes : r ≡ 0 → r' ≡ 0 → w ≡ 0 → w' ≡ 1 → Lock r w r' w'
  releases : r ≡ 0 → r' ≡ 0 → w ≡ 1 → w' ≡ 0 → Lock r w r' w'

Step-Lock : {s t : System} → Step s t → Inv s → Lock (readers s) (writers s) (readers t) (writers t)
unfolding r_lock w_drain
Step-Lock {s} (enters i at go) inv =
    let r = tally-set is_reader s.threads i entered at in
    let w = tally-set is_writer s.threads i entered at in
    stays (omega (arith, r)) (omega (arith, w))
Step-Lock {s} (drains i at go) inv = elim (Bool-cases (ltb 0 s.latch.reader_count)) [
  | inl busy ↦ let no = rw busy at go in cc
  | inr free ↦
      let r = tally-set is_reader s.threads i writing at in
      let w = tally-set is_writer s.threads i writing at in
      let le = writer-has_entered s.threads in
      let up = bit-one s.latch.writer_entered in
      let mine = tally_one is_waiting s.threads i at in
      let z : readers s ≡ 0 = ground (arith, inv.counted) in
      takes z (omega (arith, r, z)) (omega (arith, le, up, mine, inv.one))
        (omega (arith, w, le, up, mine, inv.one))
]
Step-Lock {s} (w_unlocks i at) inv =
    let r = tally-set is_reader s.threads i outside at in
    let w = tally-set is_writer s.threads i outside at in
    let le = writer-has_entered s.threads in
    let up = bit-one s.latch.writer_entered in
    let mine = tally_one is_writer s.threads i at in
    elim inv.alone [
      | inl a ↦ absurd (omega (arith, a, mine))
      | inr a ↦
          releases a (omega (arith, r, a)) (omega (arith, le, up, mine, inv.one))
            (omega (arith, w, le, up, mine, inv.one))
    ]
Step-Lock {s} (r_locks i at go) inv =
    elim (Bool-cases (s.latch.writer_entered || s.latch.reader_count == max_readers)) [
      | inl busy ↦ let no = rw busy at go in cc
      | inr free ↦
          let open_ : s.latch.writer_entered ≡ false = ground arith in
          let r = tally-set is_reader s.threads i reading at in
          let w = tally-set is_writer s.threads i reading at in
          let o : tally has_entered s.threads ≡ 0 = rw open_ at inv.one in
          let le = writer-has_entered s.threads in
          shares (omega (arith, le, o)) (omega (arith, w, le, o)) (omega (arith, r))
    ]
Step-Lock {s} (r_unlocks i at) inv =
    let r = tally-set is_reader s.threads i outside at in
    let w = tally-set is_writer s.threads i outside at in
    let mine = tally_one is_reader s.threads i at in
    elim inv.alone [
      | inl a ↦ unshares a (omega (arith, w, a)) (omega (arith, r))
      | inr a ↦ absurd (omega (arith, a, mine))
    ]

-- The latch implements a lock that is free, shared or exclusive: each step of its threads from a state
-- that they reach takes or gives back a share while nobody has the lock for itself, takes the free lock
-- or frees it, or changes neither number of holders.
pub Reach-Lock :
    {n : ℕ} {s t : System}
    → Reach n s
    → Step s t
    → Lock (readers s) (writers s) (readers t) (writers t)
Reach-Lock reach st = Step-Lock st (Reach-Inv reach)

-- A thread that holds the latch for reading must not ask for it again: if a writer has entered in
-- between, the second `r_lock` waits for the writer and the writer waits for the thread.
pub r_lock-w_enter_stuck :
    (l l₁ l₂ : Latch)
    → l.reader_count ≤ max_readers
    → r_lock l ≡ some l₁
    → w_enter l₁ ≡ some l₂
    → (r_lock l₂ ≡ none) × (w_drain l₂ ≡ none)
unfolding r_lock w_enter w_drain add32
r_lock-w_enter_stuck l l₁ l₂ few locked waits_for =
    elim (Bool-cases (l.writer_entered || l.reader_count == max_readers)) [
      | inl shut ↦ (let bad = rw shut at locked in cc)
      | inr free ↦
          let new : record l { reader_count = add32 l.reader_count 1 } ≡ l₁ =
            let go = rw free at locked in cc in
          let count : ltb 0 l₁.reader_count ≡ true = rw (← new) (ground arith) in
          elim (Bool-cases l₁.writer_entered) [
            | inl shut ↦ (let bad = rw shut at waits_for in cc)
            | inr open_ ↦
                let after : record l₁ { writer_entered = true } ≡ l₂ =
                  let go = rw open_ at waits_for in cc in
                rw (← after) (refl, rw count refl)
          ]
    ]
