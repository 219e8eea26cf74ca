-- ===== src/Coroutine.antt =====
-- reyao/coroutine.h and coroutine.cc: the states of a coroutine. The switch of contexts is a parameter:
-- how the coroutine comes back from a turn. reyao/stackalloc.cc: the size of its stack.
use reyao.Common.{
  ℕ, ◌+◌, ◌*◌, ◌/◌, ◌%◌, Bool, true, false, not, ◌||◌, ◌==◌, if◌then◌else◌, Outcome, ok, ◌>>◌,
  guard, assertion,
}

pub data State : Type 0 where
  initial running suspended done except : State

-- How a turn ends: by `YieldToSuspend`, or in `Entry` by the end of the function or an exception. Of
-- a coroutine that yields, whether anybody else has a pointer to it, such as the event or the timer
-- that it waits for, when its worker lets go of it.
pub data Turn : Type 0 where
  yields : Bool → Turn
  returns throws : Turn

abbrev pub is_held : Turn → Bool
is_held (yields held) = held
is_held returns = false
is_held throws = false

abbrev pub is_running : State → Bool
is_running running = true
is_running initial = false
is_running suspended = false
is_running done = false
is_running except = false

-- The states in which a coroutine may be reused or destroyed.
abbrev pub is_over : State → Bool
is_over initial = true
is_over done = true
is_over except = true
is_over running = false
is_over suspended = false

-- `YieldToSuspend` and the end of `Entry`, for the coroutine that runs.
unfoldable pub turn_ends : Turn → State → Outcome State
turn_ends (yields held) state = do guard (is_running state) assertion; ok suspended
turn_ends returns state = ok done
turn_ends throws state = ok except

-- `resume`, up to where the coroutine comes back.
unfoldable pub resume : Turn → State → Outcome State
unfolding turn_ends
resume turn state = do guard (not (is_running state)) assertion; turn_ends turn running

-- `reuse` of a coroutine with a stack.
unfoldable pub reuse : State → Outcome State
reuse state = do guard (is_over state) assertion; ok initial

-- Whether the destructor's assertion holds.
unfoldable pub may_destroy : State → Bool
may_destroy state = is_over state

-- A worker lets go of its pointer to a coroutine behind a turn: the destructor runs if nobody else
-- has one.
unfoldable pub let_go : Turn → State → Outcome State
unfolding may_destroy
let_go turn state = do guard (is_held turn || may_destroy state) assertion; ok state

-- The size of a stack: whole pages, if it is protected.
unfoldable pub stack_size : ℕ → Bool → ℕ → ℕ
stack_size size protect page_size =
    if size == 0
    then 0
    else if not protect
    then size
    else if size % page_size == 0
    then size
    else (size / page_size + 1) * page_size
