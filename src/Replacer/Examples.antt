-- ===== src/Replacer/Examples.antt =====
-- Runs of the clock replacer, and its theorems at a pool of three frames.
use dawn.Base.{ℕ, ◌≡◌, ◌≤◌, ◌↔◌, refl, false, arith, [], ◌∷◌}
use dawn.Replacer.Chance.{victim-nearest}
use dawn.Replacer.Members.{victim-waits_iff}
use dawn.Replacer.Victim.{IsValid, Found, frames, victim-Evicts, distance}
use dawn.Replacer.{
  ClockReplacer, flag, victim, present, waits, evicts, not_exist, exist_true, exist_false,
}

-- frame 0 has lost its second chance, frame 1 was unpinned later
abbrev two_in : ClockReplacer
two_in = record {
  flags = exist_true ∷ exist_false ∷ not_exist ∷ [];
  pool_size = 3;
  clock_pointer = 0;
  exit_num = 2;
}

two_in-IsValid : IsValid two_in
unfolding frames
two_in-IsValid = record { width = refl; pointer = omega arith; counted = refl }

victim_run :
    victim two_in
    ≡ evicts 1 (record {
      flags = exist_false ∷ not_exist ∷ not_exist ∷ [];
      pool_size = 3;
      clock_pointer = 2;
      exit_num = 1;
    })
unfolding victim
victim_run = refl

victim-Evicts_example : Found two_in (victim two_in)
victim-Evicts_example = victim-Evicts two_in two_in-IsValid (omega arith)

victim-nearest_example : (flag two_in 1 ≡ exist_false) × (distance 3 0 1 ≤ distance 3 0 1)
victim-nearest_example = victim-nearest two_in 1 1 two_in-IsValid victim_run (omega arith) refl

victim-waits_iff_example : (victim two_in ≡ waits) ↔ ((j : ℕ) → present (flag two_in j) ≡ false)
victim-waits_iff_example = victim-waits_iff two_in two_in-IsValid
