-- ===== src/Latch/Examples.antt =====
-- Two threads: the first takes the latch for writing.
use dawn.Base.{ℕ, ◌≡◌, ◌≢◌, refl, true, false, some, none, [], ◌∷◌}
use dawn.Latch.Safety.{writing_alone, Reach-Lock, Lock}
use dawn.Latch.{
  w_enter, w_drain, w_unlock, r_lock, outside, writing, reading, System, enters, drains, w_unlocks,
  Reach, begin, later,
}
use dawn.Memory.{minus_one}

abbrev held : System
held = record {
  latch = record { reader_count = 0; writer_entered = true };
  threads = writing ∷ outside ∷ [];
}

held-Reach : Reach 2 held
unfolding w_enter w_drain
held-Reach = later (later begin (enters 0 refl refl)) (drains 0 refl refl)

writing_alone_example :
    (some outside ≡ some writing → ◌≡◌ {A = ℕ} 0 1) × (some outside ≢ some reading)
writing_alone_example = writing_alone held-Reach 0 1 refl

Reach-Lock_example : Lock 0 1 0 0
unfolding w_unlock
Reach-Lock_example = Reach-Lock held-Reach (w_unlocks 0 refl)

-- while a writer has entered, and at the most readers there can be, a reader waits
waits : r_lock held.latch ≡ none
unfolding r_lock
waits = refl

full : r_lock (record { reader_count = minus_one; writer_entered = false }) ≡ none
unfolding r_lock
full = refl
