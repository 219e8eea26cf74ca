-- ===== src/Worker/Stopping.antt =====
-- Worker.antt: a worker that is stopped takes what is in its queue, and its loop ends.
use reyao.Common.{
  ℕ, ◌-◌, ◌^◌, ◌≡◌, sym, ap, ◌∙◌, Bool, false, List, [], ◌∷◌, ◌++◌, Outcome, ok, append-nil,
}
use reyao.Coroutine.{State, initial, running, suspended, except, done, Turn}
use reyao.Worker.{Worker}
use reyao.Worker.Rounds.{IsHeld}
use reyao.Worker.Queue.{line}

-- Whether the end of `idle` is still to come.
abbrev pending : State → ℕ
pending done = 0
pending initial = 1
pending running = 1
pending suspended = 1
pending except = 1

-- `getExpire` says that there is no timer.
abbrev pub never : ℕ
never = 2 ^ 64 - 1

abbrev pub at_end : Worker → Worker
at_end w = record w { idle_state = done; idle = false }

-- The loop has ended, and every task has been taken in its order.
abbrev pub Ends : Worker → Outcome (Bool × Worker) → Type 0
Ends w o = (w' : Worker) × (o ≡ ok (false, w')) × (w'.tasks ≡ []) × (w'.taken ≡ w.taken ++ w.tasks)

all_taken : (w : Worker) → w.tasks ≡ [] → w.taken ≡ line w
all_taken w t = sym (append-nil w.taken) ∙ ap (w.taken ++◌) (sym t)

-- No task yields in its turn with nobody holding its coroutine.
abbrev pub AllHeld : List Turn → Type 0
AllHeld [] = Unit
AllHeld (turn ∷ turns) = IsHeld turn × AllHeld turns
