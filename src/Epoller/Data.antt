-- ===== src/Epoller/Data.antt =====
-- reyao/epoller.h and reyao/epoller.cc: the state of an Epoller and the parts of its operations. The kernel's answers
-- (the result of epoll_ctl, the events of epoll_wait) are arguments, and the calls of epoll_ctl
-- are recorded in order; so are the tasks that are handed to workers. Workers, coroutines and
-- functions are numbers, and `none` is a null pointer.
use reyao.Common.{
  ℕ, zero, suc, ◌+◌, ◌-◌, ◌%◌, ◌^◌, Bool, true, false, not, ◌&&◌, ◌||◌, Option, none, some, List,
  [], ◌∷◌, ◌++◌, length, take, Outcome, ok, err, ◌>>=◌, ◌>>◌, guard, fault, assertion,
}
use reyao.Common.Slots.{set_slot}
use reyao.Worker.{Task}

-- The bits of `types` and of `epoll_event::events`: EPOLLET, EPOLLIN, EPOLLOUT, EPOLLERR and
-- EPOLLHUP.
pub record Events : Type 0 where
  pub edge : Bool
  pub reading : Bool
  pub writing : Bool
  pub error : Bool
  pub hang_up : Bool

abbrev pub no_events : Events
no_events = record {
  edge = false;
  reading = false;
  writing = false;
  error = false;
  hang_up = false;
}

abbrev pub epollet : Events
epollet = record no_events { edge = true }

unfoldable pub bits_or : Events → Events → Events
bits_or a b = record {
  edge = a.edge || b.edge;
  reading = a.reading || b.reading;
  writing = a.writing || b.writing;
  error = a.error || b.error;
  hang_up = a.hang_up || b.hang_up;
}

unfoldable pub bits_and : Events → Events → Events
bits_and a b = record {
  edge = a.edge && b.edge;
  reading = a.reading && b.reading;
  writing = a.writing && b.writing;
  error = a.error && b.error;
  hang_up = a.hang_up && b.hang_up;
}

unfoldable pub bits_not : Events → Events
bits_not a = record {
  edge = not a.edge;
  reading = not a.reading;
  writing = not a.writing;
  error = not a.error;
  hang_up = not a.hang_up;
}

-- What C++ takes for true.
unfoldable pub any : Events → Bool
any a = a.edge || (a.reading || (a.writing || (a.error || a.hang_up)))

-- The two values that `getEventCtx` accepts.
pub data EventType : Type 0 where
  epollin epollout : EventType

abbrev pub bit : EventType → Events
bit epollin = record no_events { reading = true }
bit epollout = record no_events { writing = true }

pub record EventCtx : Type 0 where
  pub worker : Option ℕ
  pub co : Option ℕ
  pub func : Option ℕ

abbrev pub empty_ctx : EventCtx
empty_ctx = record { worker = none; co = none; func = none }

pub record IoEvent : Type 0 where
  pub read_event : EventCtx
  pub write_event : EventCtx
  pub types : Events
  pub fd : ℕ

unfoldable pub new_io_event : ℕ → IoEvent
new_io_event fd = record {
  read_event = empty_ctx;
  write_event = empty_ctx;
  types = no_events;
  fd = fd;
}

unfoldable pub get_event_ctx : EventType → IoEvent → EventCtx
get_event_ctx epollin event = event.read_event
get_event_ctx epollout event = event.write_event

-- An assignment through the reference that `getEventCtx` returns.
unfoldable pub set_event_ctx : EventType → EventCtx → IoEvent → IoEvent
set_event_ctx epollin ctx event = record event { read_event = ctx }
set_event_ctx epollout ctx event = record event { write_event = ctx }

unfoldable pub reset_event_ctx : EventType → IoEvent → IoEvent
unfolding set_event_ctx
reset_event_ctx type event = set_event_ctx type empty_ctx event

-- The worker of the context with the task that is added to it.
unfoldable pub posted_task : EventCtx → Outcome (ℕ × Task)
posted_task ctx = elim ctx.worker [
  | none ↦ err fault
  | some worker ↦ ok (
    worker,
    elim ctx.co [
      | some co ↦ record { func = none; co = some co }
      | none ↦ record { func = ctx.func; co = none }
    ],
  )
]

-- What is left of the context: the task swaps its null pointer with the one that it takes.
unfoldable pub taken : EventCtx → EventCtx
taken ctx = elim ctx.co [
  | some co ↦ record ctx { co = none; worker = none }
  | none ↦ record ctx { func = none; worker = none }
]

unfoldable pub triggle_event : EventType → IoEvent → Outcome ((ℕ × Task) × IoEvent)
unfolding bits_and bits_not any get_event_ctx set_event_ctx posted_task taken
triggle_event type event = do
  guard (any (bits_and event.types (bit type))) assertion
  let rest = record event { types = bits_and event.types (bits_not (bit type)) }
  let ctx = get_event_ctx type rest
  post ← posted_task ctx
  ok (post, set_event_ctx type (taken ctx) rest)

pub data CtlOp : Type 0 where
  ctl_add ctl_mod ctl_del : CtlOp

-- A call of epoll_ctl.
pub record Ctl : Type 0 where
  pub op : CtlOp
  pub fd : ℕ
  pub events : Events

pub record Epoller : Type 0 where
  pub pending_events : ℕ
  pub io_events : List IoEvent
  pub polling : Bool
  pub ctls : List Ctl
  pub posts : List (ℕ × Task)

-- The entries from `from` on, `count` of them.
unfoldable pub fresh : ℕ → ℕ → List IoEvent
unfolding new_io_event
fresh from zero = []
fresh from (suc count) = new_io_event from ∷ fresh (suc from) count

-- `resize`: a smaller table is cut off, a larger one gets new entries.
unfoldable pub resize : ℕ → Epoller → Epoller
unfolding fresh
resize size e =
    let old = length e.io_events in
    record e { io_events = take size e.io_events ++ fresh old (size - old) }

unfoldable pub call_ctl : CtlOp → ℕ → Events → Epoller → Epoller
call_ctl op fd events e = record e {
  ctls = e.ctls ++ (record { op = op; fd = fd; events = events }) ∷ [];
}

-- `++pendingEvents_` and `--pendingEvents_` on a size_t.
abbrev pub one_more : Epoller → Epoller
one_more e = record e { pending_events = (e.pending_events + 1) % 2 ^ 64 }

abbrev pub one_less : Epoller → Epoller
one_less e = record e { pending_events = (e.pending_events + 2 ^ 64 - 1) % 2 ^ 64 }

abbrev pub put_event : ℕ → IoEvent → Epoller → Epoller
put_event fd event e = record e { io_events = set_slot fd event e.io_events }

abbrev is_none : Option ℕ → Bool
is_none none = true
is_none (some n) = false

-- The context of a new event: the function if there is one, or else the coroutine that runs.
abbrev pub new_ctx : Option ℕ → ℕ → ℕ → EventCtx → EventCtx
new_ctx none worker co ctx = record ctx { worker = some worker; co = some co }
new_ctx (some func) worker co ctx = record ctx { worker = some worker; func = some func }

unfoldable pub arm : EventType → Option ℕ → ℕ → ℕ → IoEvent → Outcome IoEvent
unfolding bits_or get_event_ctx set_event_ctx
arm type func worker co event = do
  let watched = record event { types = bits_or event.types (bit type) }
  let ctx = get_event_ctx type watched
  guard (is_none ctx.co && is_none ctx.worker) assertion
  ok (set_event_ctx type (new_ctx func worker co ctx) watched)
