-- ===== src/WorkPool/Examples.antt =====
-- A pool of one thread that gets the task 7.
use dawn.Base.{ℕ, ◌≡◌, refl, true, [], ◌∷◌, ◌++◌, arith}
use dawn.Memory.{add32, sub32}
use dawn.WorkPool.Finished.{Reach-in_order, all_finished-total, total, running}
use dawn.WorkPool.{
  System, adds, begins, ends, Reach, begin, later, wake, start_up, add_task, finish, all_finished,
  idle, busy,
}

abbrev taken : System ℕ
taken = record {
  pool = record { thread_num = 1; busy_num = 1; tasks = []; is_running = true };
  workers = busy 7 ∷ [];
  added = 7 ∷ [];
  started = 7 ∷ [];
  ran = [];
}

taken-Reach : Reach 1 taken
unfolding start_up add_task wake add32
taken-Reach = later (later begin (adds 7)) (begins 0 refl refl)

abbrev ended : System ℕ
ended = record {
  pool = record { thread_num = 1; busy_num = 0; tasks = []; is_running = true };
  workers = idle ∷ [];
  added = 7 ∷ [];
  started = 7 ∷ [];
  ran = 7 ∷ [];
}

ended-Reach : Reach 1 ended
unfolding finish sub32
ended-Reach = later taken-Reach (ends 0 refl)

Reach-in_order_example :
    (taken.started ++ taken.pool.tasks ≡ taken.added)
    × (running (λ _. 1) taken.workers ≡ taken.pool.busy_num)
Reach-in_order_example = Reach-in_order {n = 1} {s = taken} (omega arith) taken-Reach

all_finished-total_example : total (λ (t : ℕ). t) ended.ran ≡ total (λ (t : ℕ). t) ended.added
unfolding all_finished
all_finished-total_example = all_finished-total {s = ended} (omega arith) ended-Reach refl (λ t. t)
