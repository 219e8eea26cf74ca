-- ===== src/Worker.antt =====
-- reyao/worker.h and worker.cc: the queue of tasks of a worker and its loop. Functions and coroutines
-- are numbers, and `none` is a null pointer. What a task does in its turn is an argument.
pub mod Rounds
pub mod Queue
pub mod Stopping
use reyao.Common.{
  ℕ, zero, suc, ◌+◌, ◌-◌, ◌^◌, Bool, true, false, not, ◌&&◌, ◌||◌, Option, none, some, List, [],
  ◌∷◌, ◌++◌, ◌==◌, if◌then◌else◌, Outcome, ok, err, ◌>>=◌,
}
use reyao.Coroutine.{
  State, initial, running, suspended, done, except, Turn, yields, returns, throws, resume, reuse,
  let_go,
}

pub record Task : Type 0 where
  pub func : Option ℕ
  pub co : Option ℕ

-- The members of Worker and the variables of `run`: `co_func` is the coroutine that functions run in,
-- `idle_state` the state of the coroutine of `idle`, `last_id` the number of coroutines made. The
-- states of the coroutines are a function of their numbers. `taken` are the tasks taken so far.
pub record Worker : Type 0 where
  pub is_active : Bool
  pub idle : Bool
  pub tasks : List Task
  pub states : ℕ → State
  pub co_func : Option ℕ
  pub idle_state : State
  pub last_id : ℕ
  pub taken : List Task

abbrev pub is_null : Task → Bool
is_null t = elim t.func [ some f ↦ false | none ↦ elim t.co [ some c ↦ false | none ↦ true ] ]

abbrev pub is_empty : List Task → Bool
is_empty [] = true
is_empty (t ∷ ts) = false

-- `addTaskNoLock`: whether the worker is to be notified, and the queue.
unfoldable pub add_task : Task → Worker → Bool × Worker
add_task t w =
    (is_empty w.tasks || w.idle, if is_null t then w else record w { tasks = w.tasks ++ t ∷ [] })

-- `addTask` of several: whether the worker is to be notified of one of them.
unfoldable pub add_tasks : List Task → Worker → Bool × Worker
unfolding add_task
add_tasks [] w = (false, w)
add_tasks (t ∷ ts) w =
    let (need_notify, w') = add_task t w in
    let (rest, w'') = add_tasks ts w' in (need_notify || rest, w'')

unfoldable pub stop : Worker → Worker
stop w = record w { is_active = false }

-- `expire` is what `getExpire` says, with the bit pattern of -1.
unfoldable pub can_stop : ℕ → Worker → Bool
can_stop expire w = not w.is_active && is_empty w.tasks && expire == 2 ^ 64 - 1

-- The state of one coroutine is written.
abbrev pub set_state : ℕ → State → Worker → Worker
set_state c state w = record w { states = λ n. if n == c then state else w.states n }

-- `coFunc` is kept for the next function unless it has been suspended.
abbrev pub kept : State → ℕ → Option ℕ
kept suspended c = none
kept initial c = some c
kept running c = some c
kept done c = some c
kept except c = some c

-- A turn of a coroutine, behind which the worker lets go of it.
unfoldable pub one_turn : Turn → State → Outcome State
unfolding resume let_go
one_turn turn state = do state' ← resume turn state; let_go turn state'

-- The branch of a coroutine; `task.reset()` lets go of it.
unfoldable pub run_co : Turn → ℕ → Worker → Outcome (Bool × Worker)
unfolding one_turn
run_co turn c w = do state ← one_turn turn (w.states c); ok (true, set_state c state w)

-- The branch of a function, from `coFunc->resume()` on; `coFunc.reset()` lets go of the coroutine. If
-- it has not been suspended, it is kept, and its state would allow that it is let go of.
unfoldable pub run_in : Turn → ℕ → State → Worker → Outcome (Bool × Worker)
unfolding one_turn
run_in turn c state w = do
  state' ← one_turn turn state
  ok (true, record (set_state c state' w) { co_func = kept state' c })

-- The coroutine that there is is reused, or a new one is made.
unfoldable pub run_func_in : Turn → Option ℕ → Worker → Outcome (Bool × Worker)
run_func_in turn (some c) w = do state ← reuse (w.states c); run_in turn c state w
run_func_in turn none w = run_in turn (suc w.last_id) initial (record w { last_id = suc w.last_id })

unfoldable pub run_func : Turn → Worker → Outcome (Bool × Worker)
run_func turn w = run_func_in turn w.co_func w

-- A turn of `idle`: it ends if the worker can stop, or waits and yields, held by `run`.
abbrev pub idle_turn : Bool → Turn
idle_turn true = returns
idle_turn false = yields true

-- The branch without a task to run; false is the end of the loop. `idle_` is false again behind it.
unfoldable pub run_idle : ℕ → State → Worker → Outcome (Bool × Worker)
run_idle expire done w = ok (false, w)
run_idle expire state w = do
  state' ← resume (idle_turn (can_stop expire w)) state
  ok (true, record w { idle_state = state'; idle = false })

abbrev pub is_live : State → Bool
is_live done = false
is_live except = false
is_live initial = true
is_live running = true
is_live suspended = true

-- The coroutine of a task, if it has not ended.
unfoldable pub live_co : Task → Worker → Option ℕ
live_co t w = elim t.co [ none ↦ none | some c ↦ if is_live (w.states c) then some c else none ]

-- The branches of `run`, for the coroutine and the function of a task.
unfoldable pub run_branch : Turn → ℕ → Option ℕ → Option ℕ → Worker → Outcome (Bool × Worker)
run_branch turn expire (some c) func w = run_co turn c w
run_branch turn expire none (some f) w = run_func turn w
run_branch turn expire none none w = run_idle expire w.idle_state w

unfoldable pub run_task : Turn → ℕ → Task → Worker → Outcome (Bool × Worker)
run_task turn expire t w = run_branch turn expire (live_co t w) t.func w

-- One round of the loop of `run`.
abbrev pub run_with : Turn → ℕ → List Task → Worker → Outcome (Bool × Worker)
run_with turn expire [] w = run_idle expire w.idle_state w
run_with turn expire (t ∷ ts) w =
    run_task turn expire t (record w { tasks = ts; taken = w.taken ++ t ∷ [] })

unfoldable pub run_round : Turn → ℕ → Worker → Outcome (Bool × Worker)
run_round turn expire w = run_with turn expire w.tasks w

-- The loop of `run`, with the turns of the rounds and no task that comes in between; false is its end.
unfoldable pub run : List Turn → ℕ → Worker → Outcome (Bool × Worker)
unfolding run_round
run [] expire w = ok (true, w)
run (turn ∷ turns) expire w = do
  (goes_on, w') ← run_round turn expire w
  if goes_on then run turns expire w' else ok (false, w')
