-- ===== src/Worker/Queue.antt =====
-- Worker.antt: tasks are taken in the order in which they are added, and a stopped worker ends.
use reyao.Common.{
  ℕ, ◌-◌, ◌<◌, ◌≡◌, refl, sym, ap, ◌∙◌, arith, Bool, true, List, [], ◌∷◌, ◌++◌, if◌then◌else◌,
  Outcome, ok, ◌>>=◌, Bool-cases, inl, inr, ◌⊎◌, length, append_assoc, append-nil,
}
use reyao.Coroutine.{done, Turn}
use reyao.Worker.{Worker, Task, run_round, run_with, add_task, is_null}
use reyao.Worker.Rounds.{IsResting, IsHeld, run_idle-Rested, run_task-Rested}

-- The tasks taken and the tasks in the queue, in their order.
abbrev pub line : Worker → List Task
line w = w.taken ++ w.tasks

-- What a round leaves.
pub record Went (w : Worker) (o : Outcome (Bool × Worker)) : Type 0 where
  pub goes_on : Bool
  pub next : Worker
  pub ends : o ≡ ok (goes_on, next)
  pub resting : IsResting next
  pub same_line : line next ≡ line w
  pub shorter : length next.tasks ≡ length w.tasks - 1
  pub active : next.is_active ≡ w.is_active
  pub ended : next.idle_state ≡ done → (w.idle_state ≡ done) ⊎ (length w.tasks < 2)
  pub looping : (goes_on ≡ true) ⊎ (w.idle_state ≡ done)

run_with-Went :
    (turn : Turn) (expire : ℕ) (w : Worker) (ts : List Task)
    → IsHeld turn
    → IsResting w
    → w.tasks ≡ ts
    → Went w (run_with turn expire ts w)
run_with-Went turn expire w [] held v p =
    let r = run_idle-Rested expire w v in
    record {
      goes_on = r.goes_on;
      next = r.next;
      ends = r.ends;
      resting = r.resting;
      same_line = ap (◌++ r.next.tasks) r.history ∙ ap (w.taken ++◌) r.queue;
      shorter = omega (arith, ap length r.queue, ap length p);
      active = r.active;
      ended = λ h. inr (omega (arith, ap length p));
      looping = r.looping;
    }
run_with-Went turn expire w (t ∷ ts) held v p =
    let w' = record w { tasks = ts; taken = w.taken ++ t ∷ [] } in
    let v' : IsResting w' = record {
      at_rest = v.at_rest;
      reusable = v.reusable;
      idle_at_rest = v.idle_at_rest;
    } in
    let r = run_task-Rested turn expire t w' held v' in
    record {
      goes_on = r.goes_on;
      next = r.next;
      ends = r.ends;
      resting = r.resting;
      same_line =
          ap (◌++ r.next.tasks) r.history
          ∙ ap (w'.taken ++◌) r.queue
          ∙ append_assoc w.taken (t ∷ []) ts
          ∙ ap (w.taken ++◌) (sym p);
      shorter = omega (arith, ap length r.queue, ap length p);
      active = r.active;
      ended = λ h. elim (r.ended h) [
        | inl q ↦ inl q
        | inr q ↦ inr (omega (arith, ap length q, ap length p))
      ];
      looping = r.looping;
    }

pub run_round-Went :
    (turn : Turn) (expire : ℕ) (w : Worker)
    → IsHeld turn
    → IsResting w
    → Went w (run_round turn expire w)
unfolding run_round
run_round-Went turn expire w held v = run_with-Went turn expire w w.tasks held v refl

-- What happens to a worker: a round, or a task that is added, also by another thread.
pub data Event : Type 0 where
  rounds : Turn → ℕ → Event
  adds : Task → Event

unfoldable pub happen : Event → Worker → Outcome Worker
happen (rounds turn expire) w = do (goes_on, w') ← run_round turn expire w; ok w'
happen (adds t) w = ok (add_task t w).1

unfoldable pub happen_all : List Event → Worker → Outcome Worker
happen_all [] w = ok w
happen_all (e ∷ es) w = do w' ← happen e w; happen_all es w'

-- The tasks that are added, but for null ones.
abbrev pub added : List Event → List Task
added [] = []
added (rounds turn expire ∷ es) = added es
added (adds t ∷ es) = if is_null t then added es else t ∷ added es

-- No task yields in its turn with nobody holding its coroutine.
abbrev pub AllHeld : List Event → Type 0
AllHeld [] = Unit
AllHeld (rounds turn expire ∷ es) = IsHeld turn × AllHeld es
AllHeld (adds t ∷ es) = AllHeld es

add_task-IsResting : (t : Task) (w : Worker) → IsResting w → IsResting (add_task t w).1
unfolding add_task
add_task-IsResting t w v = elim (Bool-cases (is_null t)) [
  | inl e ↦ simp e v
  | inr e ↦
      simp e (record { at_rest = v.at_rest; reusable = v.reusable; idle_at_rest = v.idle_at_rest })
]

add_task-line :
    (t : Task) (w : Worker) (ts : List Task)
    → line (add_task t w).1 ++ ts ≡ line w ++ (if is_null t then ts else t ∷ ts)
unfolding add_task
add_task-line t w ts = elim (Bool-cases (is_null t)) [
  | inl e ↦ simp e refl
  | inr e ↦ simp e (
      ap (◌++ ts) (sym (append_assoc w.taken w.tasks (t ∷ [])))
      ∙ append_assoc (w.taken ++ w.tasks) (t ∷ []) ts)
]

-- From a worker none of whose coroutines runs and whose coroutine for functions, if any, has ended:
-- whatever rounds of its loop and calls of addTask come in whatever order, and whatever the tasks
-- do in their turns except to yield with nobody holding their coroutine, no assertion of the
-- coroutines fails, that of their destructor included, the worker is such a one again, and the
-- tasks taken followed by those in the queue have grown exactly by the tasks added that are not
-- null, in their order.
pub happen_all-line :
    (events : List Event) (w : Worker)
    → AllHeld events
    → IsResting w
    → (w' : Worker) × (happen_all events w ≡ ok w')
      × IsResting w'
      × (line w' ≡ line w ++ added events)
unfolding happen_all happen
happen_all-line [] w held v = (w, refl, v, sym (append-nil (line w)))
happen_all-line (rounds turn expire ∷ es) w (held, later) v =
    let r = run_round-Went turn expire w held v in
    let (w', f, v', l) = happen_all-line es r.next later r.resting in
    let first : (run_round turn expire w >>= λ (goes_on, w'). ok w') ≡ ok r.next =
      ap (λ (o : Outcome (Bool × Worker)). o >>= λ (goes_on, w'). ok w') r.ends in
    (
      w',
      ap (λ (o : Outcome Worker). o >>= happen_all es) first ∙ f,
      v',
      l ∙ ap (◌++ added es) r.same_line,
    )
happen_all-line (adds t ∷ es) w held v =
    let (w', f, v', l) = happen_all-line es (add_task t w).1 held (add_task-IsResting t w v) in
    (w', f, v', l ∙ add_task-line t w (added es))
