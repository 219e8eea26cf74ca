-- ===== src/Hook/Balance.antt =====
-- Hook/Io.antt: no timer of `do_io` outlives the call.
use reyao.Common.{
  ℕ, ◌+◌, ◌-◌, ◌^◌, ◌≡◌, ◌≢◌, refl, arith, Bool, true, false, not, ◌||◌, Option, none, some, List,
  [], ◌∷◌, ◌++◌, ◌==◌, if◌then◌else◌, Bool-cases, inl, inr, Option-cases,
}
use reyao.FdManager.{FdContext, Table, TimeoutType, get_fd_context, get_timeout}
use reyao.Hook.{
  Reply, value, interrupted, would_block, in_progress, failed, Effect, timer_added, timer_cancelled,
  event_added, suspended, End, answers, sets_errno, pending, Attempt, call_again, start_timer,
  stop_timer, wait_for, attempt, retry, do_io, pass_on,
}
use reyao.Hook.Waiting.{started, stopped}

-- Whoever returns has cancelled the timers that it started.
abbrev pub IsBalanced : End × List Effect → Type 0
IsBalanced (end, effects) = end ≢ pending → started effects ≡ stopped effects

started-append : (xs ys : List Effect) → started (xs ++ ys) ≡ started xs + started ys
started-append [] ys = omega arith
started-append (timer_added t ∷ xs) ys = omega (arith, started-append xs ys)
started-append (timer_cancelled ∷ xs) ys = started-append xs ys
started-append (event_added ∷ xs) ys = started-append xs ys
started-append (suspended ∷ xs) ys = started-append xs ys

stopped-append : (xs ys : List Effect) → stopped (xs ++ ys) ≡ stopped xs + stopped ys
stopped-append [] ys = omega arith
stopped-append (timer_added t ∷ xs) ys = stopped-append xs ys
stopped-append (timer_cancelled ∷ xs) ys = omega (arith, stopped-append xs ys)
stopped-append (event_added ∷ xs) ys = stopped-append xs ys
stopped-append (suspended ∷ xs) ys = stopped-append xs ys

waited-balanced :
    (timeout : ℕ)
    → started (start_timer timeout ++ event_added ∷ suspended ∷ stop_timer timeout)
      ≡ stopped (start_timer timeout ++ event_added ∷ suspended ∷ stop_timer timeout)
waited-balanced timeout = elim (Bool-cases (timeout == 2 ^ 64 - 1)) [
  | inl h ↦ simp h refl
  | inr h ↦ simp h refl
]

refused-balanced :
    (timeout : ℕ)
    → started (start_timer timeout ++ stop_timer timeout)
      ≡ stopped (start_timer timeout ++ stop_timer timeout)
refused-balanced timeout = elim (Bool-cases (timeout == 2 ^ 64 - 1)) [
  | inl h ↦ simp h refl
  | inr h ↦ simp h refl
]

wait_for-IsBalanced :
    (timeout : ℕ) (added : Bool) (cancelled : Option Bool) (next : End × List Effect)
    → IsBalanced next
    → IsBalanced (wait_for timeout added cancelled next)
unfolding wait_for
wait_for-IsBalanced timeout false cancelled next b = λ h. refused-balanced timeout
wait_for-IsBalanced timeout true none next b = λ h. absurd (h refl)
wait_for-IsBalanced timeout true (some true) next b = λ h. waited-balanced timeout
wait_for-IsBalanced timeout true (some false) (end, effects) b = λ h.
    let wait = start_timer timeout ++ event_added ∷ suspended ∷ stop_timer timeout in
    omega (
      arith,
      started-append wait effects,
      stopped-append wait effects,
      waited-balanced timeout,
      b h,
    )

attempt-IsBalanced :
    (timeout : ℕ) (a : Attempt) (o : Option Reply) (next : End × List Effect)
    → IsBalanced next
    → IsBalanced (attempt timeout a o next)
unfolding attempt
attempt-IsBalanced timeout a none next b = λ h. refl
attempt-IsBalanced timeout a (some would_block) next b =
    wait_for-IsBalanced timeout a.added a.cancelled next b
attempt-IsBalanced timeout a (some (value n)) next b = λ h. refl
attempt-IsBalanced timeout a (some interrupted) next b = λ h. refl
attempt-IsBalanced timeout a (some in_progress) next b = λ h. refl
attempt-IsBalanced timeout a (some (failed n)) next b = λ h. refl

retry-IsBalanced : (timeout : ℕ) (script : List Attempt) → IsBalanced (retry timeout script)
unfolding retry
retry-IsBalanced timeout [] = λ h. refl
retry-IsBalanced timeout (a ∷ rest) =
    attempt-IsBalanced timeout a (call_again a.replies) (retry timeout rest)
      (retry-IsBalanced timeout rest)

pass_on-IsBalanced : (script : List Attempt) → IsBalanced (pass_on script)
pass_on-IsBalanced [] = λ h. refl
pass_on-IsBalanced (a ∷ rest) =
    elim a.replies
      as (λ rs. IsBalanced (elim rs [ [] ↦ (pending, []) | r ∷ rs' ↦ (answers r, []) ])) [
        | [] ↦ λ h. refl
        | r ∷ rs ↦ λ h. refl
      ]

-- Whatever the kernel answers and however the coroutine is resumed, when `do_io` has returned it
-- has cancelled every timer that it started.
pub do_io-IsBalanced :
    (hook_enable : Bool) (fd : ℕ) (so : TimeoutType) (table : Table) (script : List Attempt)
    → IsBalanced (do_io hook_enable fd so table script)
unfolding do_io
do_io-IsBalanced false fd so table script = pass_on-IsBalanced script
do_io-IsBalanced true fd so table script = elim (Option-cases (get_fd_context fd table)) [
  | inl h ↦ simp h (pass_on-IsBalanced script)
  | inr (c, h) ↦ simp h (in_context c c.is_closed (not c.is_sock || c.is_user_nonblock))
]
  where
    in_context :
        (c : FdContext) (closed direct : Bool)
        → IsBalanced (
            if closed
            then (sets_errno 9, [])
            else if direct
            then pass_on script
            else retry (get_timeout so c) script)
    in_context c true direct = λ h. refl
    in_context c false true = pass_on-IsBalanced script
    in_context c false false = retry-IsBalanced (get_timeout so c) script
