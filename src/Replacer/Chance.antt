-- ===== src/Replacer/Chance.antt =====
-- The second chance: a frame that was unpinned since the pointer passed it is not evicted while
-- the replacer holds a frame that the pointer has passed.
use dawn.Base.{
  ℕ, zero, suc, ◌+◌, ◌*◌, ◌%◌, ◌≤◌, ◌<◌, ◌≡◌, ◌∙◌, sym, inl, inr, arith, ap, ◌≢◌, dec_lt, lt→ltb,
}
use mathlib.Core.Path.{subst}
use dawn.Replacer.Victim.{
  IsValid, distance, distance-next, distance-next_self, distance-lt, Flag-cases, mark, mark-flag,
  mark-IsValid, skip-IsValid,
}
use dawn.Replacer.{exist_false, ClockReplacer, flag, clock_pointer_to_next, evicts, scan, victim}

distance_self : (n p : ℕ) → distance n p p ≡ 0
distance_self n p = ground arith

-- the frame found is at most as far from the pointer as a frame marked `exist_false`
scan-nearest :
    (fuel : ℕ) (r : ClockReplacer) (q x : ℕ) {r' : ClockReplacer}
    → IsValid r
    → q < r.pool_size
    → flag r q ≡ exist_false
    → scan fuel r ≡ evicts x r'
    → (flag r x ≡ exist_false)
      × (distance r.pool_size r.clock_pointer x ≤ distance r.pool_size r.clock_pointer q)
      × (x < r.pool_size)
unfolding scan
scan-nearest zero r q x h hq e run = cc
scan-nearest (suc fuel) r q x h hq e run = elim (Flag-cases (flag r r.clock_pointer)) [
  | inl f ↦
      let n = r.pool_size in
      let p = r.clock_pointer in
      let (was, near, lt) =
        scan-nearest fuel (clock_pointer_to_next r) q x (skip-IsValid r h) hq e
          (rw (f, scan) at run) in
      (
        was,
        omega (
          arith,
          near,
          distance-next n p q h.pointer hq (λ same. cc (ap (flag r) same)),
          distance-next n p x h.pointer lt (λ same. cc (ap (flag r) same)),
        ),
        lt,
      )
  | inr (inl f) ↦
      let n = r.pool_size in
      let p = r.clock_pointer in
      let ne : p ≢ q = λ same. cc (ap (flag r) same) in
      let (was, near, lt) =
        scan-nearest fuel (mark r) q x (mark-IsValid r h f) hq
          (mark-flag r h q ∙ ground (arith, e, ne)) (rw (f, scan) at run) in
      let apart : p ≢ x = λ same. absurd (
        omega (
          arith,
          near,
          distance-next n p q h.pointer hq ne,
          distance-lt n p q h.pointer hq,
          subst (λ y. distance n ((p + 1) % n) y + 1 ≡ n) same (distance-next_self n p h.pointer),
        )) in
      (
        sym (mark-flag r h x ∙ ground (arith, apart)) ∙ was,
        omega (
          arith,
          near,
          distance-next n p q h.pointer hq ne,
          distance-next n p x h.pointer lt apart,
        ),
        lt,
      )
  | inr (inr f) ↦
      let here : r.clock_pointer ≡ x = ground (arith, rw (f, scan) at run) in
      (
        rw (← here) f,
        rw (← here, distance_self r.pool_size r.clock_pointer) (omega arith),
        rw (← here) h.pointer,
      )
]

-- While a valid replacer holds a frame marked FRAME_EXIST_FALSE, `victim` returns a frame with that
-- mark, and of those the one that the pointer meets first: a frame that was unpinned since the
-- pointer last passed it stays.
pub victim-nearest :
    (r : ClockReplacer) (x q : ℕ) {r' : ClockReplacer}
    → IsValid r
    → victim r ≡ evicts x r'
    → q < r.pool_size
    → flag r q ≡ exist_false
    → (flag r x ≡ exist_false)
      × (distance r.pool_size r.clock_pointer x ≤ distance r.pool_size r.clock_pointer q)
unfolding victim
victim-nearest r x q h run hq e = elim (dec_lt 0 r.exit_num) [
  | yes some_in ↦
      let (was, near, _) =
        scan-nearest (2 * r.pool_size) r q x h hq e (rw (lt→ltb 0 r.exit_num some_in) at run) in
      (was, near)
  | no empty ↦ let e0 : r.exit_num ≡ 0 = omega (arith, empty) in cc (rw e0 at run)
]
