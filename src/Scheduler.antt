-- ===== src/Scheduler.antt =====
-- reyao/scheduler.h and scheduler.cc: the choice of the worker for a task. Workers are numbers.
pub mod Turns
mod Examples
use reyao.Common.{
  ℕ, zero, suc, ◌+◌, ◌-◌, ◌%◌, Bool, true, false, Option, none, some, List, [], ◌∷◌, ◌++◌, ◌==◌,
  ltb, if◌then◌else◌, Outcome, ok, err, ◌>>=◌, out_of_range,
}
use reyao.Common.Slots.{slot}

-- `worker_map` has the worker of a thread; -1 for a thread is `none`.
pub record Scheduler : Type 0 where
  pub workers : List ℕ
  pub worker_map : List (ℕ × ℕ)
  pub thread_num : ℕ
  pub index : ℕ

-- `workers_.at(index_)` and the step of the index.
unfoldable pub get_next_worker : Scheduler → Outcome (ℕ × Scheduler)
unfolding slot
get_next_worker s = elim (slot s.index s.workers) [
  | none ↦ err out_of_range
  | some w ↦ ok (w, record s { index = (s.index + 1) % s.thread_num })
]

unfoldable pub find_worker : ℕ → List (ℕ × ℕ) → Option ℕ
find_worker thread [] = none
find_worker thread ((t, w) ∷ rest) = if t == thread then some w else find_worker thread rest

-- The worker that a task is added to; a thread without a worker is only logged.
unfoldable pub add_task : Option ℕ → Scheduler → Outcome (Option ℕ × Scheduler)
unfolding get_next_worker find_worker
add_task (some thread) s = ok (find_worker thread s.worker_map, s)
add_task none s = do (w, s') ← get_next_worker s; ok (some w, s')

-- The workers in the constructor and in `init`: the main worker is one of them only if there is no
-- other thread, and the threads have the workers `made`.
unfoldable pub make_workers : ℕ → ℕ → List ℕ → List ℕ × ℕ
make_workers thread_num main made =
    if thread_num == 1 then (main ∷ made, thread_num) else (made, thread_num - 1)
