-- ===== src/Scheduler/Examples.antt =====
-- The theorems on workers and the scheduler at concrete states.
use reyao.Common.{true, ◌≡◌, arith, false, none, some, List, [], ◌∷◌, ◌++◌, ok}
use reyao.Coroutine.{initial, yields, throws}
use reyao.Worker.{Worker, Task}
use reyao.Worker.Rounds.{IsResting}
use reyao.Worker.Queue.{Event, rounds, adds, happen_all, line, happen_all-line}
use reyao.Scheduler.{Scheduler}
use reyao.Scheduler.Turns.{next_workers, next_workers_lem}

abbrev func_task : Task
func_task = record { func = some 4; co = none }

abbrev co_task : Task
co_task = record { func = none; co = some 2 }

-- A stopped worker with a function and a coroutine to run.
abbrev stopped_worker : Worker
stopped_worker = record {
  is_active = false;
  idle = false;
  tasks = func_task ∷ co_task ∷ [];
  states = λ c. initial;
  co_func = none;
  idle_state = initial;
  last_id = 2;
  taken = [];
}

stopped_worker-IsResting : IsResting stopped_worker
stopped_worker-IsResting = record {
  at_rest = λ c h. cc h;
  reusable = λ c h. absurd (cc h);
  idle_at_rest = λ h. cc h;
}

abbrev history : List Event
history = adds co_task ∷ rounds (yields true) 20 ∷ adds func_task ∷ rounds throws 20 ∷ []

happen_all-line_example :
    (w' : Worker) × (happen_all history stopped_worker ≡ ok w')
    × IsResting w'
    × (line w' ≡ (func_task ∷ co_task ∷ []) ++ co_task ∷ func_task ∷ [])
happen_all-line_example =
    happen_all-line history stopped_worker ((λ h. cc h), ((λ h. cc h), tt)) stopped_worker-IsResting

abbrev three_workers : Scheduler
three_workers = record { workers = 10 ∷ 11 ∷ 12 ∷ []; worker_map = []; thread_num = 3; index = 0 }

next_workers_lem_example : next_workers 3 three_workers ≡ ok (10 ∷ 11 ∷ 12 ∷ [], three_workers)
next_workers_lem_example = next_workers_lem three_workers (omega arith) (omega arith)
