-- ===== src/Hook/Io.antt =====
-- reyao/hook.cc: the calls that wait for a descriptor by suspending the coroutine (`do_io`,
-- `connect_with_timeout` and the calls made of them). The kernel's answers, and why the coroutine is
-- resumed, are arguments; the timers, events and suspensions are recorded in order.
use reyao.Common.{
  ℕ, ◌-◌, ◌^◌, Bool, true, false, not, ◌||◌, Option, none, some, List, [], ◌∷◌, ◌++◌, ◌==◌,
  if◌then◌else◌, Outcome, ok, ◌>>=◌,
}
use reyao.FdManager.{
  Table, TimeoutType, so_rcvtimeo, so_sndtimeo, get_fd_context, get_timeout, add_fd, del_fd,
}
use reyao.Epoller.{EventType, epollin, epollout, Epoller, handle_all_event}

-- The answer of a system call: a value, or -1 with EINTR, EAGAIN, EINPROGRESS or another errno.
pub data Reply : Type 0 where
  value : ℕ → Reply
  interrupted would_block in_progress : Reply
  failed : ℕ → Reply

-- What is done besides the call: `addConditonTimer`, `Timer::cancel`, `AddEvent` that succeeds,
-- `YieldToSuspend`.
pub data Effect : Type 0 where
  timer_added : ℕ → Effect
  timer_cancelled event_added suspended : Effect

-- How a call ends: with the answer, with -1 and an errno that the hook sets, with -1 after an event
-- could not be added, or not yet.
pub data End : Type 0 where
  answers : Reply → End
  sets_errno : ℕ → End
  not_added pending : End

-- ETIMEDOUT and EBADF.
abbrev pub timed_out : ℕ
timed_out = 110

abbrev pub bad_descriptor : ℕ
bad_descriptor = 9

-- One pass from `retry`: the answers to the calls, whether the event can be added, and whether the
-- timer has cancelled the wait by the time the coroutine is resumed (`none` if it is not resumed).
pub record Attempt : Type 0 where
  pub replies : List Reply
  pub added : Bool
  pub cancelled : Option Bool

-- The call is made again while it is interrupted.
unfoldable pub call_again : List Reply → Option Reply
call_again [] = none
call_again (interrupted ∷ rs) = call_again rs
call_again (r ∷ rs) = some r

-- The timer that there is if the timeout is not -1, and its cancellation.
abbrev pub start_timer : ℕ → List Effect
start_timer timeout = if timeout == 2 ^ 64 - 1 then [] else timer_added timeout ∷ []

abbrev pub stop_timer : ℕ → List Effect
stop_timer timeout = if timeout == 2 ^ 64 - 1 then [] else timer_cancelled ∷ []

abbrev pub after : List Effect → End × List Effect → End × List Effect
after effects (end, rest) = (end, effects ++ rest)

-- What follows on EAGAIN; the last argument is what comes of another attempt.
unfoldable pub wait_for : ℕ → Bool → Option Bool → End × List Effect → End × List Effect
wait_for timeout false cancelled next = (not_added, start_timer timeout ++ stop_timer timeout)
wait_for timeout true none next = (pending, start_timer timeout ++ event_added ∷ suspended ∷ [])
wait_for timeout true (some true) next =
    (sets_errno timed_out, start_timer timeout ++ event_added ∷ suspended ∷ stop_timer timeout)
wait_for timeout true (some false) next =
    after (start_timer timeout ++ event_added ∷ suspended ∷ stop_timer timeout) next

-- What follows on an answer.
unfoldable pub attempt : ℕ → Attempt → Option Reply → End × List Effect → End × List Effect
unfolding wait_for
attempt timeout a none next = (pending, [])
attempt timeout a (some would_block) next = wait_for timeout a.added a.cancelled next
attempt timeout a (some r) next = (answers r, [])

-- The loop of `do_io` from `retry`.
unfoldable pub retry : ℕ → List Attempt → End × List Effect
unfolding call_again attempt
retry timeout [] = (pending, [])
retry timeout (a ∷ rest) = attempt timeout a (call_again a.replies) (retry timeout rest)

-- A call that is passed on as it is: one answer.
abbrev pub pass_on : List Attempt → End × List Effect
pass_on [] = (pending, [])
pass_on (a ∷ rest) = elim a.replies [ [] ↦ (pending, []) | r ∷ rs ↦ (answers r, []) ]

unfoldable pub do_io : Bool → ℕ → TimeoutType → Table → List Attempt → End × List Effect
unfolding get_timeout retry
do_io hook_enable fd timeout_so table script =
    if not hook_enable then pass_on script else elim (get_fd_context fd table) [
      | none ↦ pass_on script
      | some c ↦
          if c.is_closed
          then (sets_errno bad_descriptor, [])
          else if not c.is_sock || c.is_user_nonblock
          then pass_on script
          else retry (get_timeout timeout_so c) script
    ]

-- The calls that are `do_io` of the original ones.
pub data IoCall : Type 0 where
  calls_accept calls_read calls_write calls_readv calls_writev calls_recv calls_recvfrom : IoCall
  calls_recvmsg calls_recvmmsg calls_send calls_sendto calls_sendmsg calls_sendmmsg : IoCall

unfoldable pub event_type : IoCall → EventType
event_type calls_accept = epollin
event_type calls_read = epollin
event_type calls_write = epollout
event_type calls_readv = epollin
event_type calls_writev = epollout
event_type calls_recv = epollin
event_type calls_recvfrom = epollin
event_type calls_recvmsg = epollin
event_type calls_recvmmsg = epollin
event_type calls_send = epollout
event_type calls_sendto = epollout
event_type calls_sendmsg = epollout
event_type calls_sendmmsg = epollout

unfoldable pub timeout_type : IoCall → TimeoutType
timeout_type calls_accept = so_rcvtimeo
timeout_type calls_read = so_rcvtimeo
timeout_type calls_write = so_sndtimeo
timeout_type calls_readv = so_rcvtimeo
timeout_type calls_writev = so_sndtimeo
timeout_type calls_recv = so_rcvtimeo
timeout_type calls_recvfrom = so_rcvtimeo
timeout_type calls_recvmsg = so_rcvtimeo
timeout_type calls_recvmmsg = so_rcvtimeo
timeout_type calls_send = so_sndtimeo
timeout_type calls_sendto = so_sndtimeo
timeout_type calls_sendmsg = so_sndtimeo
timeout_type calls_sendmmsg = so_sndtimeo

unfoldable pub hooked : IoCall → Bool → ℕ → Table → List Attempt → End × List Effect
unfolding do_io timeout_type
hooked call hook_enable fd table script = do_io hook_enable fd (timeout_type call) table script

-- `accept` enters the descriptor that it returns; fstat says whether that is a socket.
unfoldable pub accepted : End → Bool → Table → Outcome Table
accepted (answers (value fd)) sock table = add_fd fd sock table
accepted end sock table = ok table

-- The answer of getsockopt for SO_ERROR.
abbrev pub socket_error : Reply → List Effect → End × List Effect
socket_error (value error) effects =
    if error == 0 then (answers (value 0), effects) else (sets_errno error, effects)
socket_error r effects = (answers r, effects)

-- `connect_with_timeout` behind a call of connect that is in progress.
unfoldable pub connecting : ℕ → Bool → Option Bool → Reply → End × List Effect
connecting timeout false cancelled error =
    socket_error error (start_timer timeout ++ stop_timer timeout)
connecting timeout true none error = (pending, start_timer timeout ++ event_added ∷ suspended ∷ [])
connecting timeout true (some true) error =
    (sets_errno timed_out, start_timer timeout ++ event_added ∷ suspended ∷ stop_timer timeout)
connecting timeout true (some false) error =
    socket_error error (start_timer timeout ++ event_added ∷ suspended ∷ stop_timer timeout)

abbrev pub in_progress_or : Reply → End × List Effect → End × List Effect
in_progress_or in_progress next = next
in_progress_or r next = (answers r, [])

unfoldable pub connect_with_timeout :
    Bool → ℕ → Table → ℕ → Reply → Bool → Option Bool → Reply → End × List Effect
unfolding connecting
connect_with_timeout hook_enable fd table timeout reply added cancelled error =
    if not hook_enable then (answers reply, []) else elim (get_fd_context fd table) [
      | none ↦ (sets_errno bad_descriptor, [])
      | some c ↦
          if c.is_closed
          then (sets_errno bad_descriptor, [])
          else if not c.is_sock || c.is_user_nonblock
          then (answers reply, [])
          else in_progress_or reply (connecting timeout added cancelled error)
    ]

unfoldable pub connect : Bool → ℕ → Table → Reply → Bool → Option Bool → Reply → End × List Effect
unfolding connect_with_timeout
connect hook_enable fd table reply added cancelled error =
    connect_with_timeout hook_enable fd table 5000 reply added cancelled error

-- `socket` enters the descriptor.
unfoldable pub socket : Bool → Reply → Bool → Table → Outcome Table
socket false reply sock table = ok table
socket true (value fd) sock table = add_fd fd sock table
socket true reply sock table = ok table

-- The Epollers of the workers, by their numbers.
abbrev pub Pollers : Type 0
Pollers = ℕ → Epoller

-- `Worker::HandleAllEvent`: on the Epoller of the worker that runs.
unfoldable pub handle_all_here : ℕ → ℕ → Bool → Pollers → Outcome Pollers
unfolding handle_all_event
handle_all_here current fd success pollers = do
  (handled, e) ← handle_all_event fd success (pollers current)
  ok (λ n. if n == current then e else pollers n)

-- `close` by the worker `current`: who waits for the descriptor in its Epoller is handed over, and
-- the descriptor is taken out of the table.
unfoldable pub close : Bool → ℕ → ℕ → Bool → Table → Pollers → Outcome (Table × Pollers)
unfolding handle_all_here
close hook_enable current fd success table pollers =
    if not hook_enable then ok (table, pollers) else elim (get_fd_context fd table) [
      | none ↦ ok (table, pollers)
      | some c ↦ (do
        pollers' ← handle_all_here current fd success pollers
        ok (del_fd fd table, pollers'))
    ]
