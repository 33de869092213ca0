-- ===== src/Replacer/Members.antt =====
-- The replacer as a set of frames: what the constructor, pin and unpin do to it, and when
-- `victim` waits.
use dawn.Base.{
  ℕ, ◌+◌, ◌-◌, ◌≤◌, ◌<◌, ◌≡◌, refl, ◌∙◌, inl, inr, Bool, true, false, length, set, get_or, ◌==◌,
  if◌then◌else◌, arith, length-set, get_or-set, get_or-replicate, length-replicate, ◌↔◌, ℕ_discrete,
  dec_lt, List, [], ◌∷◌, zero, suc,
}
use dawn.Replacer.Victim.{
  IsValid, frames, frames-set, frames-replicate, weight, Flag-cases, victim-Evicts, frames-find,
}
use dawn.Replacer.{
  Flag, not_exist, exist_true, exist_false, ClockReplacer, new, flag, pin, unpin, waits, victim,
  size, present,
}

-- The constructor gives a valid replacer that holds no frame, for every positive pool size.
pub new-IsValid :
    (n : ℕ)
    → 0 < n
    → IsValid (new n) × (size (new n) ≡ 0) × ((j : ℕ) → present (flag (new n) j) ≡ false)
unfolding new size
new-IsValid n pos = (
  record { width = length-replicate n not_exist; pointer = pos; counted = frames-replicate n },
  refl,
  λ j. rw get_or-replicate,
)

module _ (r : ClockReplacer) (h : IsValid r) (i : ℕ) (within : i < r.pool_size) where
  in_range : i < length r.flags
  in_range = omega (arith, h.width, within)

  write-IsValid :
      (v : Flag) (k : ℕ)
      → k + weight (flag r i) ≡ r.exit_num + weight v
      → IsValid (record r { flags = set r.flags i v; exit_num = k })
  write-IsValid v k e = record {
    width = length-set r.flags i v ∙ h.width;
    pointer = h.pointer;
    counted = omega (arith, h.counted, frames-set r.flags i v in_range);
  }

  write-present :
      (v : Flag) (b : Bool)
      → present v ≡ b
      → (j : ℕ)
      → present (get_or (set r.flags i v) j not_exist) ≡ (if i == j then b else present (flag r j))
  write-present v b e j = rw (get_or-set r.flags i j v not_exist in_range) (ground arith)

  keep-present :
      (b : Bool)
      → present (flag r i) ≡ b
      → (j : ℕ) → present (flag r j) ≡ (if i == j then b else present (flag r j))
  keep-present b e j = elim (ℕ_discrete i j) [ yes same ↦ ground arith | no other ↦ ground arith ]

  taken : weight (flag r i) ≡ 1 → 1 ≤ r.exit_num
  taken e = omega (arith, e, h.counted, frames-set r.flags i not_exist in_range)

  -- `pin` keeps the invariant, takes out the frame and no other, and counts it out if it was in.
  pub pin_lem :
      IsValid (pin r i)
      × (size (pin r i) + weight (flag r i) ≡ size r)
      × ((j : ℕ) → present (flag (pin r i) j) ≡ (if i == j then false else present (flag r j)))
  unfolding pin size
  pin_lem = elim (Flag-cases (flag r i)) [
    | inl e ↦ rw (e, pin) (h, omega arith, keep-present false (rw e))
    | inr (inl e) ↦
        let k = taken (rw e) in
        rw (e, pin)
          (
            write-IsValid not_exist (r.exit_num - 1) (rw e (omega (arith, k))),
            omega (arith, k),
            write-present not_exist false refl,
          )
    | inr (inr e) ↦
        let k = taken (rw e) in
        rw (e, pin)
          (
            write-IsValid not_exist (r.exit_num - 1) (rw e (omega (arith, k))),
            omega (arith, k),
            write-present not_exist false refl,
          )
  ]

  -- `unpin` keeps the invariant, puts in the frame and no other, and counts it in if it was not
  -- there; a frame that was there keeps its flag.
  pub unpin_lem :
      IsValid (unpin r i)
      × (size (unpin r i) + weight (flag r i) ≡ size r + 1)
      × ((j : ℕ) → present (flag (unpin r i) j) ≡ (if i == j then true else present (flag r j)))
      × (present (flag r i) ≡ true → unpin r i ≡ r)
  unfolding unpin size
  unpin_lem = elim (Flag-cases (flag r i)) [
    | inl e ↦
        rw (e, unpin)
          (
            write-IsValid exist_true (r.exit_num + 1) (rw e (omega arith)),
            omega arith,
            write-present exist_true true refl,
            λ p. cc,
          )
    | inr (inl e) ↦ rw (e, unpin) (h, omega arith, keep-present true (rw e), λ p. refl)
    | inr (inr e) ↦ rw (e, unpin) (h, omega arith, keep-present true (rw e), λ p. refl)
  ]

none-present : (xs : List Flag) → frames xs ≡ 0 → (j : ℕ) → present (get_or xs j not_exist) ≡ false
unfolding frames
none-present [] e j = refl
none-present (not_exist ∷ xs) e zero = refl
none-present (not_exist ∷ xs) e (suc j) = none-present xs (omega arith) j
none-present (exist_true ∷ xs) e j = absurd (omega arith)
none-present (exist_false ∷ xs) e j = absurd (omega arith)

victim_empty : (r : ClockReplacer) → r.exit_num ≡ 0 → victim r ≡ waits
unfolding victim
victim_empty r e = rw e refl

-- On a valid replacer `victim` waits exactly when no frame is in it.
pub victim-waits_iff :
    (r : ClockReplacer) → IsValid r → (victim r ≡ waits) ↔ ((j : ℕ) → present (flag r j) ≡ false)
victim-waits_iff r h = elim (dec_lt 0 r.exit_num) [
  | yes some_in ↦
      let (x, r', run, _) = victim-Evicts r h some_in in
      let (q, _, there) = frames-find r.flags (rw h.counted some_in) in (λ w. cc, λ all. cc (all q))
  | no empty ↦ (
    λ w. none-present r.flags (omega (arith, h.counted, empty)),
    λ all. victim_empty r (omega (arith, empty)),
  )
]
