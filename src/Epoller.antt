-- ===== src/Epoller.antt =====
-- reyao/epoller.h and reyao/epoller.cc: the operations of an Epoller, the table of the events that a
-- worker waits for. An answer of epoll_ctl, of which true is success, is an argument.
mod Data
pub mod Spec
pub mod Entries
pub mod Refinement
pub mod Operations
pub mod Waking
pub mod Adding
pub mod Runs
pub mod Wakeups
pub mod Conservation
mod Examples
unfoldable pub use Data.*
use reyao.Common.{
  ℕ, zero, suc, ◌+◌, ◌-◌, ◌*◌, ◌/◌, ◌%◌, ◌^◌, Bool, true, false, not, ◌&&◌, ◌||◌, Option, none,
  some, List, [], ◌∷◌, ◌++◌, leb, ltb, ◌==◌, if◌then◌else◌, length, Outcome, ok, err, ◌>>=◌, fault,
  ◌≡◌, refl,
}
use reyao.Common.Ints.{int_leb}
use reyao.Common.Slots.{slot, set_slot}
use reyao.Worker.{Task}

-- The table as `addEvent` grows it for a descriptor that it has no entry for.
unfoldable pub grow : ℕ → Epoller → Epoller
grow fd e = if int_leb (length e.io_events) fd then resize (fd * 3 / 2) e else e

-- `addEvent` at the entry of the descriptor.
unfoldable pub add_at :
    ℕ → EventType → Option ℕ → ℕ → ℕ → Bool → IoEvent → Epoller → Outcome (Bool × Epoller)
unfolding bits_and bits_or any
add_at fd type func worker co success event e =
    let op = if any event.types then ctl_mod else ctl_add in
    let called = call_ctl op fd (bits_or (bits_or epollet event.types) (bit type)) e in
    if any (bits_and event.types (bit type))
    then ok (false, e)
    else if not success
    then ok (false, called)
    else (do armed ← arm type func worker co event; ok (true, put_event fd armed (one_more called)))

-- `worker` and `co` are the current ones.
unfoldable pub add_event :
    ℕ → EventType → Option ℕ → ℕ → ℕ → Bool → Epoller → Outcome (Bool × Epoller)
add_event fd type func worker co success e =
    let grown = grow fd e in
    elim (slot fd grown.io_events) [
      | none ↦ err fault
      | some event ↦ add_at fd type func worker co success event grown
    ]

-- The operations that return false for a descriptor that is not below the size of the table, as an
-- int.
abbrev pub at_entry :
    ℕ → (IoEvent → Epoller → Outcome (Bool × Epoller)) → Epoller → Outcome (Bool × Epoller)
at_entry fd action e =
    if int_leb (length e.io_events) fd
    then ok (false, e)
    else elim (slot fd e.io_events) [ none ↦ err fault | some event ↦ action event e ]

unfoldable pub del_at : ℕ → EventType → Bool → IoEvent → Epoller → Outcome (Bool × Epoller)
unfolding bits_and bits_not bits_or any
del_at fd type success event e =
    let new_types = bits_and event.types (bits_not (bit type)) in
    let op = if any new_types then ctl_mod else ctl_del in
    let called = call_ctl op fd (bits_or epollet new_types) e in
    if not (any (bits_and event.types (bit type)))
    then ok (false, e)
    else if not success
    then ok (false, called)
    else ok (
      true,
      put_event fd (reset_event_ctx type (record event { types = new_types })) (one_less called),
    )

unfoldable pub del_event : ℕ → EventType → Bool → Epoller → Outcome (Bool × Epoller)
del_event fd type success e = at_entry fd (del_at fd type success) e

-- `triggleEvent` on the event of a descriptor, and `--pendingEvents_`.
unfoldable pub fire : ℕ → EventType → IoEvent → Epoller → Outcome (IoEvent × Epoller)
fire fd type event e = do
  (post, left) ← triggle_event type event
  ok (left, put_event fd left (one_less (record e { posts = e.posts ++ post ∷ [] })))

unfoldable pub handle_at : ℕ → EventType → Bool → IoEvent → Epoller → Outcome (Bool × Epoller)
unfolding bits_and bits_not bits_or any
handle_at fd type success event e =
    let new_types = bits_and event.types (bits_not (bit type)) in
    let op = if any new_types then ctl_mod else ctl_del in
    let called = call_ctl op fd (bits_or epollet new_types) e in
    if not (any (bits_and event.types (bit type)))
    then ok (false, e)
    else if not success
    then ok (false, called)
    else (do (left, e') ← fire fd type event called; ok (true, e'))

unfoldable pub handle_event : ℕ → EventType → Bool → Epoller → Outcome (Bool × Epoller)
handle_event fd type success e = at_entry fd (handle_at fd type success) e

-- A type that is tested for and, if it is there, triggered.
unfoldable pub fire_if : Bool → ℕ → EventType → IoEvent → Epoller → Outcome (IoEvent × Epoller)
fire_if true fd type event e = fire fd type event e
fire_if false fd type event e = ok (event, e)

unfoldable pub handle_all_at : ℕ → Bool → IoEvent → Epoller → Outcome (Bool × Epoller)
unfolding bits_and any
handle_all_at fd success event e =
    let called = call_ctl ctl_del fd no_events e in
    if not (any event.types) then ok (false, e) else if not success then ok (false, called) else (do
      (left, e') ← fire_if (any (bits_and event.types (bit epollin))) fd epollin event called
      (left', e'') ← fire_if (any (bits_and left.types (bit epollout))) fd epollout left e'
      ok (true, e''))

unfoldable pub handle_all_event : ℕ → Bool → Epoller → Outcome (Bool × Epoller)
handle_all_event fd success e = at_entry fd (handle_all_at fd success) e

-- The timeout of epoll_wait, the bit pattern of an int: at most five seconds, also for -1.
unfoldable pub wait_timeout : ℕ → ℕ
wait_timeout timeout =
    if timeout == 2 ^ 32 - 1
    then 5000
    else if ltb 5000 timeout && ltb timeout (2 ^ 31)
    then 5000
    else timeout

-- What epoll_wait reports: that the eventfd was written to, or events of a descriptor, together
-- with the answer to the call of epoll_ctl that follows.
pub data Report : Type 0 where
  awake : Report
  ready : ℕ → Events → Bool → Report

-- The events of a report that are acted upon.
unfoldable pub real_events : Events → Events → Events
unfolding bits_and bits_or any
real_events reported types =
    let hung = reported.error || reported.hang_up in
    let events =
      if hung
      then bits_or reported (bits_and (bits_or (bit epollin) (bit epollout)) types)
      else reported in
    record no_events { reading = events.reading; writing = events.writing }

-- One event of a report. The result of epoll_ctl is only logged.
unfoldable pub wake_at : ℕ → Events → IoEvent → Epoller → Outcome Epoller
wake_at fd reported event e =
    let real = real_events reported event.types in
    let left_events = bits_and event.types (bits_not real) in
    let op = if any left_events then ctl_mod else ctl_del in
    let called = call_ctl op event.fd (bits_and epollet left_events) e in
    if not (any (bits_and event.types real)) then ok e else (do
      (left, e') ← fire_if real.reading fd epollin event called
      (left', e'') ← fire_if real.writing fd epollout left e'
      ok e'')

unfoldable pub wake : Report → Epoller → Outcome Epoller
wake awake e = ok e
wake (ready fd reported success) e = elim (slot fd e.io_events) [
  | none ↦ err fault
  | some event ↦ wake_at fd reported event e
]

unfoldable pub wake_all : List Report → Epoller → Outcome Epoller
wake_all [] e = ok e
wake_all (r ∷ rs) e = do e' ← wake r e; wake_all rs e'

-- The functions of the expired timers become tasks of the Epoller's worker, before the events.
abbrev pub timer_posts : ℕ → List ℕ → List (ℕ × Task)
timer_posts worker [] = []
timer_posts worker (f ∷ fs) = (worker, record { func = some f; co = none }) ∷ timer_posts worker fs

unfoldable pub begin_wait : Epoller → Epoller
begin_wait e = record e { polling = true }

-- `wait` behind the call of epoll_wait that is not interrupted.
unfoldable pub wait : ℕ → List ℕ → List Report → Epoller → Outcome Epoller
wait worker expired reports e =
    wake_all reports (record e { polling = false; posts = e.posts ++ timer_posts worker expired })

-- Whether `notify` writes to the eventfd.
unfoldable pub notify : Epoller → Bool
notify e = e.polling

unfoldable pub get_event_count : Epoller → ℕ
get_event_count e = e.pending_events

unfoldable pub has_event : Epoller → Bool
has_event e = not (e.pending_events == 0)
