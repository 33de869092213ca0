-- ===== src/WorkPool.antt =====
-- The work pool: src/include/util/work_pool.h and src/util/work_pool.cpp.
-- Each critical section under the mutex is one step, and `task->run()` lies between two steps of its
-- worker. A wait may end at any time, and its test is made again. A task is a parameter, `A`.
mod Examples
pub mod Finished
use dawn.Base.{
  ℕ, zero, suc, ◌+◌, ◌≡◌, Bool, true, false, not, ◌&&◌, Option, some, List, [], ◌∷◌, ◌++◌, ◌==◌,
  if◌then◌else◌, get_elem?, set, replicate,
}
use dawn.Memory.{add32, sub32}

pub record WorkPool (A : Type 0) : Type 0 where
  pub thread_num : ℕ
  pub busy_num : ℕ
  pub tasks : List A
  pub is_running : Bool

abbrev pub new_pool : {A : Type 0} → ℕ → WorkPool A
new_pool thread_num = record {
  thread_num = thread_num;
  busy_num = 0;
  tasks = [];
  is_running = false;
}

-- `start_up`, up to its threads
unfoldable pub start_up : {A : Type 0} → WorkPool A → WorkPool A
start_up p = record p { is_running = true }

-- `shutdown`, up to the joins
unfoldable pub shutdown : {A : Type 0} → WorkPool A → WorkPool A
shutdown p = record p { is_running = false }

unfoldable pub add_task : {A : Type 0} → WorkPool A → A → WorkPool A
add_task p task = record p { tasks = p.tasks ++ task ∷ [] }

-- what a worker finds under the mutex: it waits on, returns, or takes a task
pub data Wake (A : Type 0) : Type 0 where
  waits quits : Wake A
  takes : A → WorkPool A → Wake A

abbrev front_task : {A : Type 0} → WorkPool A → List A → Wake A
front_task p [] = waits
front_task p (task ∷ rest) = takes task (record p { tasks = rest; busy_num = add32 p.busy_num 1 })

unfoldable pub wake : {A : Type 0} → WorkPool A → Wake A
wake p = if not p.is_running then quits else front_task p p.tasks

-- after `task->run()`
unfoldable pub finish : {A : Type 0} → WorkPool A → WorkPool A
finish p = record p { busy_num = sub32 p.busy_num 1 }

abbrev is_empty : {A : Type 0} → List A → Bool
is_empty [] = true
is_empty (task ∷ rest) = false

-- the test of `wait_until_all_finished`
unfoldable pub all_finished : {A : Type 0} → WorkPool A → Bool
all_finished p = p.busy_num == 0 && is_empty p.tasks

pub data Worker (A : Type 0) : Type 0 where
  idle gone : Worker A
  busy : A → Worker A

-- `added`, `started` and `ran` are the tasks of the calls of `add_task`, of those that workers took and
-- of the runs that ended, in their order.
pub record System (A : Type 0) : Type 0 where
  pub pool : WorkPool A
  pub workers : List (Worker A)
  pub added : List A
  pub started : List A
  pub ran : List A

pub data Step {A : Type 0} (s : System A) : System A → Type 0 where
  adds :
      (task : A) → Step s (record s { pool = add_task s.pool task; added = s.added ++ task ∷ [] })
  begins :
      (i : ℕ) {task : A} {p : WorkPool A}
      → get_elem? s.workers i ≡ some idle
      → wake s.pool ≡ takes task p
      → Step s (record s {
        pool = p;
        workers = set s.workers i (busy task);
        started = s.started ++ task ∷ [];
      })
  leaves :
      (i : ℕ)
      → get_elem? s.workers i ≡ some idle
      → wake s.pool ≡ quits
      → Step s (record s { workers = set s.workers i gone })
  ends :
      (i : ℕ) {task : A}
      → get_elem? s.workers i ≡ some (busy task)
      → Step s (record s {
        pool = finish s.pool;
        workers = set s.workers i idle;
        ran = s.ran ++ task ∷ [];
      })
  stops : Step s (record s { pool = shutdown s.pool })

-- a pool that has started
abbrev pub start : {A : Type 0} → ℕ → System A
start n = record {
  pool = start_up (new_pool n);
  workers = replicate n idle;
  added = [];
  started = [];
  ran = [];
}

pub data Reach {A : Type 0} (n : ℕ) : System A → Type 0 where
  begin : Reach n (start n)
  later : {s t : System A} → Reach n s → Step s t → Reach n t
