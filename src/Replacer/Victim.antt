-- ===== src/Replacer/Victim.antt =====
-- The invariant of the clock replacer, and what pin, unpin and victim do to the set of frames.
use dawn.Base.{
  ℕ, zero, suc, ◌+◌, ◌-◌, ◌*◌, ◌%◌, ◌≤◌, ◌<◌, ◌≡◌, refl, sym, ◌∙◌, true, false, List, [], ◌∷◌,
  length, get_or, set, replicate, leb, ◌==◌, if◌then◌else◌, arith, length-set, get_or-set, ◌≢◌, ◌⊎◌,
  inl, inr, dec_lt, ℕ_discrete, lt→ltb,
}
use mathlib.Core.Path.{subst}
use native.Mathlib.Nat.{mod-eq_of_lt, mod_self, mod-lt}
use native.Mathlib.Numerals.{add-one}
use dawn.Replacer.{
  Flag, not_exist, exist_true, exist_false, ClockReplacer, flag, clock_pointer_to_next, Outcome,
  evicts, scan, victim, present,
}

abbrev pub weight : Flag → ℕ
weight not_exist = 0
weight exist_true = 1
weight exist_false = 1

-- how many frames the flags hold
unfoldable pub frames : List Flag → ℕ
frames [] = 0
frames (x ∷ xs) = weight x + frames xs

pub record IsValid (r : ClockReplacer) : Type 0 where
  pub width : length r.flags ≡ r.pool_size
  pub pointer : r.clock_pointer < r.pool_size
  pub counted : frames r.flags ≡ r.exit_num

pub frames-set :
    (xs : List Flag) (i : ℕ) (v : Flag)
    → i < length xs
    → frames (set xs i v) + weight (get_or xs i not_exist) ≡ frames xs + weight v
unfolding frames
frames-set [] i v h = absurd (omega arith)
frames-set (x ∷ xs) zero v h = omega arith
frames-set (x ∷ xs) (suc i) v h = omega (arith, frames-set xs i v (omega arith))

pub frames-replicate : (n : ℕ) → frames (replicate n not_exist) ≡ 0
unfolding frames
frames-replicate zero = refl
frames-replicate (suc n) = omega (arith, frames-replicate n)

-- a frame that is there
pub frames-find :
    (xs : List Flag)
    → 0 < frames xs
    → (i : ℕ) × (i < length xs) × (present (get_or xs i not_exist) ≡ true)
unfolding frames
frames-find [] h = absurd (omega arith)
frames-find (exist_true ∷ xs) h = (0, omega arith, refl)
frames-find (exist_false ∷ xs) h = (0, omega arith, refl)
frames-find (not_exist ∷ xs) h =
    let (i, lt, there) = frames-find xs (omega arith) in (suc i, omega arith, there)

flag-outside : (xs : List Flag) (i : ℕ) → length xs ≤ i → get_or xs i not_exist ≡ not_exist
flag-outside [] i h = refl
flag-outside (x ∷ xs) zero h = absurd (omega arith)
flag-outside (x ∷ xs) (suc i) h = flag-outside xs i (omega arith)

next_below : (p n : ℕ) → suc p < n → (p + 1) % n ≡ suc p
next_below p n h = mod-eq_of_lt (omega arith) ∙ omega arith

next_wraps : (p : ℕ) → (p + 1) % suc p ≡ 0
next_wraps p = rw add-one (mod_self (suc p))

-- the pointer moves on by one, and from the end to the beginning
pub next_lem :
    (p n : ℕ) → p < n → ((suc p < n) × ((p + 1) % n ≡ suc p)) ⊎ ((suc p ≡ n) × ((p + 1) % n ≡ 0))
next_lem p n h = elim (dec_lt (suc p) n) [
  | yes lt ↦ inl (lt, next_below p n lt)
  | no ge ↦ let e : suc p ≡ n = omega arith in inr (e, rw (← e) (next_wraps p))
]

-- how far the pointer `p` is from the frame `q`, going round
abbrev pub distance : ℕ → ℕ → ℕ → ℕ
distance n p q = if leb p q then q - p else q + n - p

pub distance-next :
    (n p q : ℕ) → p < n → q < n → p ≢ q → distance n ((p + 1) % n) q + 1 ≡ distance n p q
distance-next n p q hp hq ne = elim (next_lem p n hp) [
  | inl (lt, e) ↦ rw e (ground arith)
  | inr (last, e) ↦ rw e (ground arith)
]

pub distance-next_self : (n p : ℕ) → p < n → distance n ((p + 1) % n) p + 1 ≡ n
distance-next_self n p hp = elim (next_lem p n hp) [
  | inl (lt, e) ↦ rw e (ground arith)
  | inr (last, e) ↦ rw e (ground arith)
]

pub distance-lt : (n p q : ℕ) → p < n → q < n → distance n p q < n
distance-lt n p q hp hq = ground arith

-- the frame `x` is taken out, and nothing else
pub record Evicts (r : ClockReplacer) (x : ℕ) (r' : ClockReplacer) : Type 0 where
  pub valid : IsValid r'
  pub width : r'.pool_size ≡ r.pool_size
  pub within : x < r.pool_size
  pub was : present (flag r x) ≡ true
  pub gone : (j : ℕ) → present (flag r' j) ≡ (if x == j then false else present (flag r j))
  pub left : r'.exit_num + 1 ≡ r.exit_num

write-IsValid :
    (r : ClockReplacer) (v : Flag) (k : ℕ)
    → IsValid r
    → k + weight (flag r r.clock_pointer) ≡ r.exit_num + weight v
    → IsValid
        (clock_pointer_to_next (record r { flags = set r.flags r.clock_pointer v; exit_num = k }))
write-IsValid r v k h e = record {
  width = length-set r.flags _ v ∙ h.width;
  pointer = mod-lt _ (omega arith);
  counted =
      omega
        (arith, h.counted, h.width, h.pointer, frames-set r.flags r.clock_pointer v (omega arith));
}

pub skip-IsValid : (r : ClockReplacer) → IsValid r → IsValid (clock_pointer_to_next r)
skip-IsValid r h = record { width = h.width; pointer = mod-lt _ (omega arith); counted = h.counted }

-- the rounds until the pointer meets `q` and finds `exist_false` there
abbrev delay : ℕ → Flag → ℕ
delay n exist_true = n
delay n _ = 0

delay-le : (n : ℕ) (f : Flag) → delay n f ≤ n
delay-le n not_exist = omega arith
delay-le n exist_true = omega arith
delay-le n exist_false = omega arith

abbrev rounds : ClockReplacer → ℕ → ℕ
rounds r q = distance r.pool_size r.clock_pointer q + delay r.pool_size (flag r q)

abbrev pub Found : ClockReplacer → Outcome → Type 0
Found r o = (x : ℕ) × (r' : ClockReplacer) × (o ≡ evicts x r') × Evicts r x r'

-- a round that leaves the set of frames as it was
Evicts-after :
    {r s : ClockReplacer} {o : Outcome}
    → s.pool_size ≡ r.pool_size
    → s.exit_num ≡ r.exit_num
    → ((j : ℕ) → present (flag s j) ≡ present (flag r j))
    → Found s o
    → Found r o
Evicts-after {r} {s} w e same (x, r', run, ev) = (
  x,
  r',
  run,
  record {
    valid = ev.valid;
    width = ev.width ∙ w;
    within = omega (arith, ev.within);
    was = sym (same x) ∙ ev.was;
    gone = λ j. rw (← same j) (ev.gone j);
    left = omega (arith, ev.left);
  },
)

take_out : ClockReplacer → ClockReplacer
take_out r =
    clock_pointer_to_next
      (record r { flags = set r.flags r.clock_pointer not_exist; exit_num = r.exit_num - 1 })

abbrev pub mark : ClockReplacer → ClockReplacer
mark r = clock_pointer_to_next (record r { flags = set r.flags r.clock_pointer exist_false })

module _ (r : ClockReplacer) (h : IsValid r) where
  take_out-Evicts : flag r r.clock_pointer ≡ exist_false → Evicts r r.clock_pointer (take_out r)
  unfolding take_out
  take_out-Evicts e =
      let in_range : r.clock_pointer < length r.flags = omega (arith, h.width, h.pointer) in
      let total = frames-set r.flags r.clock_pointer not_exist in_range in
      let here : weight (flag r r.clock_pointer) ≡ 1 = rw e refl in
      record {
        valid =
            write-IsValid r not_exist (r.exit_num - 1) h (omega (arith, total, here, h.counted));
        width = refl;
        within = h.pointer;
        was = rw e;
        gone = λ j.
            rw (get_or-set r.flags r.clock_pointer j not_exist not_exist in_range) (ground arith);
        left = omega (arith, total, here, h.counted);
      }

  pub mark-flag :
      (j : ℕ) → flag (mark r) j ≡ (if r.clock_pointer == j then exist_false else flag r j)
  mark-flag j =
      get_or-set r.flags r.clock_pointer j exist_false not_exist (omega (arith, h.width, h.pointer))

  pub mark-IsValid : flag r r.clock_pointer ≡ exist_true → IsValid (mark r)
  mark-IsValid e = write-IsValid r exist_false r.exit_num h (rw e refl)

  mark-present :
      flag r r.clock_pointer ≡ exist_true → (j : ℕ) → present (flag (mark r) j) ≡ present (flag r j)
  mark-present e j = elim (ℕ_discrete r.clock_pointer j) [
    | yes same ↦ rw (mark-flag j, ← same, e) (ground arith)
    | no other ↦ rw (mark-flag j) (ground arith)
  ]

pub Flag-cases : (f : Flag) → (f ≡ not_exist) ⊎ (f ≡ exist_true) ⊎ (f ≡ exist_false)
Flag-cases not_exist = inl refl
Flag-cases exist_true = inr (inl refl)
Flag-cases exist_false = inr (inr refl)

-- a round that clears the second chance brings the pointer nearer too
mark-rounds :
    (r : ClockReplacer) (h : IsValid r) (q : ℕ) {fuel : ℕ}
    → q < r.pool_size
    → flag r r.clock_pointer ≡ exist_true
    → rounds r q < suc fuel
    → rounds (mark r) q < fuel
mark-rounds r h q hq e enough = elim (ℕ_discrete r.clock_pointer q) [
  | yes same ↦
      let now : flag (mark r) q ≡ exist_false = mark-flag r h q ∙ rw same (ground arith) in
      let was : flag r q ≡ exist_true = rw (← same) e in
      let near =
        subst (λ x. distance r.pool_size ((r.clock_pointer + 1) % r.pool_size) x + 1 ≡ r.pool_size)
          same (distance-next_self r.pool_size r.clock_pointer h.pointer) in
      let far : r.pool_size ≤ rounds r q = rw was (omega arith) in
      rw now (omega (arith, near, far, enough))
  | no other ↦
      let now : flag (mark r) q ≡ flag r q = mark-flag r h q ∙ ground arith in
      rw now (omega (arith, enough, distance-next r.pool_size r.clock_pointer q h.pointer hq other))
]

scan-Found :
    (fuel : ℕ) (r : ClockReplacer) (q : ℕ)
    → IsValid r
    → q < r.pool_size
    → present (flag r q) ≡ true
    → rounds r q < fuel
    → Found r (scan fuel r)
unfolding scan take_out
scan-Found zero r q h hq there enough = elim enough [ ]
scan-Found (suc fuel) r q h hq there enough = elim (Flag-cases (flag r r.clock_pointer)) [
  | inl e ↦
      rw (e, scan)
        (Evicts-after refl refl (λ j. refl)
          (scan-Found fuel (clock_pointer_to_next r) q (skip-IsValid r h) hq there
            (omega (arith, distance-next r.pool_size r.clock_pointer q h.pointer hq (λ same. cc)))))
  | inr (inl e) ↦
      rw (e, scan)
        (Evicts-after refl refl (mark-present r h e) (
          scan-Found fuel (mark r) q (mark-IsValid r h e) hq (mark-present r h e q ∙ there)
            (mark-rounds r h q hq e enough)))
  | inr (inr e) ↦ rw (e, scan) (r.clock_pointer, take_out r, refl, take_out-Evicts r h e)
]

rounds-lt : (r : ClockReplacer) (q : ℕ) → IsValid r → q < r.pool_size → rounds r q < 2 * r.pool_size
rounds-lt r q h hq =
    let near = distance-lt r.pool_size r.clock_pointer q h.pointer hq in
    let late : delay r.pool_size (flag r q) ≤ r.pool_size = delay-le r.pool_size (flag r q) in
    omega (arith, near, late)

-- On a valid replacer that holds a frame, `victim` ends within two turns of the clock; it returns a
-- frame that was in the replacer, takes out that frame and no other, and keeps the invariant.
pub victim-Evicts : (r : ClockReplacer) → IsValid r → 0 < r.exit_num → Found r (victim r)
unfolding victim
victim-Evicts r h some_in =
    let (q, lt, there) = frames-find r.flags (rw h.counted some_in) in
    rw (lt→ltb 0 r.exit_num some_in) (
      scan-Found (2 * r.pool_size) r q h (rw (← h.width) lt) there
        (rounds-lt r q h (rw (← h.width) lt)))
