-- ===== src/WorkPool/Finished.antt =====
-- No task is lost, and `wait_until_all_finished` waits for all of them.
use dawn.Base.{
  ℕ, zero, suc, ◌+◌, ◌≤◌, ◌<◌, ◌≡◌, refl, sym, ap, ◌∙◌, Bool, true, false, not, some, List, [], ◌∷◌,
  ◌++◌, if◌then◌else◌, get_elem?, set, length, length-set, replicate, length-replicate, arith,
}
use mathlib.Core.List.{append_assoc}
use dawn.Memory.{u32_mod, add32, sub32}
use dawn.WorkPool.{
  WorkPool, Wake, System, Step, adds, begins, leaves, ends, stops, Reach, begin, later, start, wake,
  quits, takes, front_task, is_empty, finish, all_finished, Worker, idle, gone, busy, add_task,
  shutdown, start_up,
}

module _ {A : Type 0} where
  -- the sum of the weights
  abbrev pub total : (A → ℕ) → List A → ℕ
  total w [] = 0
  total w (x ∷ xs) = w x + total w xs

  abbrev weight : (A → ℕ) → Worker A → ℕ
  weight w (busy x) = w x
  weight w _ = 0

  -- the sum of the weights of the tasks that run
  abbrev pub running : (A → ℕ) → List (Worker A) → ℕ
  running w [] = 0
  running w (x ∷ xs) = weight w x + running w xs

  total-append : (w : A → ℕ) (xs ys : List A) → total w (xs ++ ys) ≡ total w xs + total w ys
  total-append w [] ys = omega arith
  total-append w (x ∷ xs) ys = omega (arith, total-append w xs ys)

  running-set :
      (w : A → ℕ) (ps : List (Worker A)) (i : ℕ) {p : Worker A} (q : Worker A)
      → get_elem? ps i ≡ some p
      → running w (set ps i q) + weight w p ≡ running w ps + weight w q
  running-set w [] i q e = cc
  running-set w (p' ∷ ps) zero {p} q e = let same : p' ≡ p = cc in omega (arith, ap (weight w) same)
  running-set w (p' ∷ ps) (suc i) q e = omega (arith, running-set w ps i q e)

  running_none : (w : A → ℕ) (n : ℕ) → running w (replicate n idle) ≡ 0
  running_none w zero = refl
  running_none w (suc n) = omega (arith, running_none w n)

  running_few : (ps : List (Worker A)) → running (λ _. 1) ps ≤ length ps
  running_few [] = omega arith
  running_few (idle ∷ ps) = omega (arith, running_few ps)
  running_few (gone ∷ ps) = omega (arith, running_few ps)
  running_few (busy x ∷ ps) = omega (arith, running_few ps)

  -- an idle worker does not run a task, and one that is busy does
  record Inv (n : ℕ) (s : System A) : Type 0 where
    workers_kept : length s.workers ≡ n
    counted : running (λ _. 1) s.workers ≡ s.pool.busy_num
    in_order : s.started ++ s.pool.tasks ≡ s.added
    kept : (w : A → ℕ) → total w s.ran + running w s.workers ≡ total w s.started

  all_none : (w : A → ℕ) (ps : List (Worker A)) → running (λ _. 1) ps ≡ 0 → running w ps ≡ 0
  all_none w [] h = refl
  all_none w (idle ∷ ps) h = omega (arith, all_none w ps (omega arith))
  all_none w (gone ∷ ps) h = omega (arith, all_none w ps (omega arith))
  all_none w (busy x ∷ ps) h = absurd (omega arith)

  one_less :
      (ps : List (Worker A)) (i : ℕ) → get_elem? ps i ≡ some idle → running (λ _. 1) ps < length ps
  one_less [] i e = cc
  one_less (p ∷ ps) zero e = let same : p ≡ idle = cc in rw same (omega (arith, running_few ps))
  one_less (idle ∷ ps) (suc i) e = omega (arith, one_less ps i e)
  one_less (gone ∷ ps) (suc i) e = omega (arith, one_less ps i e)
  one_less (busy x ∷ ps) (suc i) e = omega (arith, one_less ps i e)

  front-takes :
      (p : WorkPool A) (ts : List A) {task : A} {q : WorkPool A}
      → front_task p ts ≡ takes task q
      → (ts ≡ task ∷ q.tasks) × (q.busy_num ≡ add32 p.busy_num 1)
  front-takes p [] e = cc
  front-takes p (t ∷ rest) {task} {q} e =
      let same : t ≡ task = cc in
      let new : record p { tasks = rest; busy_num = add32 p.busy_num 1 } ≡ q = cc in
      (rw (same, ← new) refl, rw (← new) refl)

  if-takes :
      (on : Bool) (x : Wake A) {task : A} {q : WorkPool A}
      → (if not on then quits else x) ≡ takes task q
      → x ≡ takes task q
  if-takes true x e = e
  if-takes false x e = cc

  -- what a worker that takes a task leaves
  wake-takes :
      (p : WorkPool A) {task : A} {q : WorkPool A}
      → wake p ≡ takes task q
      → (p.tasks ≡ task ∷ q.tasks) × (q.busy_num ≡ add32 p.busy_num 1)
  unfolding wake
  wake-takes p e = front-takes p p.tasks (if-takes p.is_running (front_task p p.tasks) e)

  Step-Inv : {n : ℕ} {s t : System A} → n < u32_mod → Step s t → Inv n s → Inv n t
  unfolding add_task finish shutdown add32 sub32
  Step-Inv {s} small (adds task) inv = record {
    workers_kept = inv.workers_kept;
    counted = inv.counted;
    in_order =
        sym (append_assoc s.started s.pool.tasks (task ∷ []))
        ∙ ap (λ (l : List A). l ++ task ∷ []) inv.in_order;
    kept = inv.kept;
  }
  Step-Inv {s} small (begins i {task} {p} at go) inv =
      let (queue, more) = wake-takes s.pool go in
      let c = running-set (λ _. 1) s.workers i (busy task) at in
      record {
        workers_kept = length-set s.workers i (busy task) ∙ inv.workers_kept;
        counted = omega (arith, c, more, inv.counted, one_less s.workers i at, inv.workers_kept);
        in_order = append_assoc s.started (task ∷ []) p.tasks ∙ rw (← queue) inv.in_order;
        kept = λ w. omega (
          arith,
          total-append w s.started (task ∷ []),
          running-set w s.workers i (busy task) at,
          inv.kept w,
        );
      }
  Step-Inv {s} small (leaves i at go) inv = record {
    workers_kept = length-set s.workers i gone ∙ inv.workers_kept;
    counted = omega (arith, running-set (λ _. 1) s.workers i gone at, inv.counted);
    in_order = inv.in_order;
    kept = λ w. omega (arith, running-set w s.workers i gone at, inv.kept w);
  }
  Step-Inv {s} small (ends i {task} at) inv =
      let c = running-set (λ _. 1) s.workers i idle at in
      record {
        workers_kept = length-set s.workers i idle ∙ inv.workers_kept;
        counted = omega (arith, c, inv.counted, running_few s.workers, inv.workers_kept);
        in_order = inv.in_order;
        kept = λ w. omega (
          arith,
          total-append w s.ran (task ∷ []),
          running-set w s.workers i idle at,
          inv.kept w,
        );
      }
  Step-Inv {s} small stops inv = record {
    workers_kept = inv.workers_kept;
    counted = inv.counted;
    in_order = inv.in_order;
    kept = inv.kept;
  }

  start-Inv : (n : ℕ) → Inv n (start n)
  unfolding start_up
  start-Inv n = record {
    workers_kept = length-replicate n idle;
    counted = running_none (λ _. 1) n;
    in_order = refl;
    kept = λ w. omega (arith, running_none w n);
  }

  Reach-Inv : {n : ℕ} {s : System A} → n < u32_mod → Reach n s → Inv n s
  Reach-Inv {n} small begin = start-Inv n
  Reach-Inv small (later r st) = Step-Inv small st (Reach-Inv small r)

  -- Workers take the tasks in the order in which they were added: those that were taken, and then those
  -- in the queue, are all that were added. `busy_num_` is the number of the workers that run a task. A
  -- pool has fewer than 2 ^ 32 threads.
  pub Reach-in_order :
      {n : ℕ} {s : System A}
      → n < u32_mod
      → Reach n s
      → (s.started ++ s.pool.tasks ≡ s.added) × (running (λ _. 1) s.workers ≡ s.pool.busy_num)
  Reach-in_order small r = let inv = Reach-Inv small r in (inv.in_order, inv.counted)

  is_empty-eq : (ts : List A) → is_empty ts ≡ true → ts ≡ []
  is_empty-eq [] e = refl
  is_empty-eq (t ∷ ts) e = cc

  -- When the test of `wait_until_all_finished` holds, each task that was added has been run, and as
  -- often as it was added: whatever a task weighs, the runs weigh as much as the tasks that were added.
  -- A pool has fewer than 2 ^ 32 threads.
  pub all_finished-total :
      {n : ℕ} {s : System A}
      → n < u32_mod
      → Reach n s
      → all_finished s.pool ≡ true
      → (w : A → ℕ) → total w s.ran ≡ total w s.added
  unfolding all_finished
  all_finished-total {n} {s} small r e w =
      let inv = Reach-Inv small r in
      let (calm, none_left) : (s.pool.busy_num ≡ 0) × (is_empty s.pool.tasks ≡ true) =
        (ground arith, ground arith) in
      let nobody = all_none w s.workers (inv.counted ∙ calm) in
      let same = ap (total w) inv.in_order in
      let queue = ap (total w) (is_empty-eq s.pool.tasks none_left) in
      omega (arith, inv.kept w, nobody, same, queue, total-append w s.started s.pool.tasks)
