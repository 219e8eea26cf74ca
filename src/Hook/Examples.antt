-- ===== src/Hook/Examples.antt =====
-- The theorems on the hooked calls at a concrete table.
use reyao.Common.Ints.{int_leb}
use reyao.Common.{
  ℕ, ◌≢◌, ◌^◌, ◌≡◌, refl, arith, true, false, none, some, [], ◌∷◌, ◌++◌, map, ok, ◌-◌,
}
use reyao.Common.Slots.{slot}
use reyao.FdManager.{FdContext, Table, so_rcvtimeo, get_fd_context, get_timeout, del_fd}
use reyao.Hook.{
  Flags, fcntl_getfl, fcntl_setfl, do_io, value, answers, sets_errno, timed_out, close, Pollers,
}
use reyao.Hook.Waiting.{IsHooked, blocked, final, waited, times, do_io-waits, do_io-times_out}
use reyao.Hook.Balance.{IsBalanced, do_io-IsBalanced}
use reyao.Hook.Options.{fcntl_getfl-fcntl_setfl}
use reyao.Hook.Closing.{close-forgets}
use reyao.Epoller.{Epoller}
use reyao.Epoller.Spec.{Spec, Watch, no_watch, resumes, handle_all}
use reyao.Epoller.Entries.{events_of}
use reyao.Epoller.Refinement.{Shows}

-- Descriptor 2 is a socket that is read with a timeout of two seconds.
abbrev socket_context : FdContext
socket_context = record {
  is_sock = true;
  is_sys_nonblock = true;
  is_user_nonblock = false;
  is_closed = false;
  fd = 2;
  recv_timeout = 2000;
  send_timeout = 2 ^ 64 - 1;
}

abbrev sockets : Table
sockets = none ∷ none ∷ some socket_context ∷ []

sockets-IsHooked : IsHooked 2 sockets socket_context
sockets-IsHooked = record {
  entered = unfold get_fd_context int_leb in refl;
  opened = refl;
  sock = refl;
  blocking = refl;
}

do_io-waits_example :
    do_io true 2 so_rcvtimeo sockets (map (blocked false) (1 ∷ 0 ∷ []) ++ final (value 5) 3 ∷ [])
    ≡ (answers (value 5), times 2 (waited (get_timeout so_rcvtimeo socket_context)))
do_io-waits_example =
    do_io-waits 2 so_rcvtimeo sockets socket_context (1 ∷ 0 ∷ []) 3 (value 5) sockets-IsHooked
      (λ h. cc h, λ h. cc h)

do_io-times_out_example :
    do_io true 2 so_rcvtimeo sockets (map (blocked false) (0 ∷ []) ++ blocked true 0 ∷ []) ≡ (
      sets_errno timed_out,
      times 1 (waited (get_timeout so_rcvtimeo socket_context))
          ++ waited (get_timeout so_rcvtimeo socket_context),
    )
do_io-times_out_example =
    do_io-times_out 2 so_rcvtimeo sockets socket_context (0 ∷ []) 0 sockets-IsHooked

do_io-IsBalanced_example :
    IsBalanced (do_io true 2 so_rcvtimeo sockets (blocked false 0 ∷ blocked true 1 ∷ []))
do_io-IsBalanced_example =
    do_io-IsBalanced true 2 so_rcvtimeo sockets (blocked false 0 ∷ blocked true 1 ∷ [])

abbrev nonblocking : Flags
nonblocking = record { nonblock = true; others = 2 }

abbrev by_kernel : Flags
by_kernel = record { nonblock = false; others = 3 }

fcntl_getfl-fcntl_setfl_example :
    (fcntl_getfl 2 by_kernel (fcntl_setfl 2 nonblocking sockets).1
      ≡ record by_kernel { nonblock = true })
    × ((fcntl_setfl 2 nonblocking sockets).0 ≡ nonblocking)
fcntl_getfl-fcntl_setfl_example =
    fcntl_getfl-fcntl_setfl 2 nonblocking by_kernel sockets socket_context
      (record { entered = unfold get_fd_context int_leb in refl; opened = refl; sock = refl })

-- Coroutine 7 of worker 1 waits to read.
abbrev one_reader : Watch
one_reader = record { reader = some (resumes 1 7); writer = none }

abbrev reading : Spec
reading = record { watches = no_watch ∷ no_watch ∷ one_reader ∷ []; posts = [] }

abbrev table : Epoller
table = record {
  pending_events = 1;
  io_events = events_of 0 (no_watch ∷ no_watch ∷ one_reader ∷ []);
  polling = false;
  ctls = [];
  posts = [];
}

table-Shows : Shows reading table
table-Shows = record { events = refl; pending = refl; posts = refl; small = omega arith }

-- Every worker has this table.
abbrev tables : Pollers
tables n = table

close-forgets_example :
    (pollers' : Pollers) × (close true 1 2 true sockets tables ≡ ok (del_fd 2 sockets, pollers'))
    × (get_fd_context 2 (del_fd 2 sockets) ≡ none)
    × Shows (handle_all 2 one_reader reading).1 (pollers' 1)
    × (slot 2 (handle_all 2 one_reader reading).1.watches ≡ some no_watch)
    × ((n : ℕ) → n ≢ 1 → pollers' n ≡ table)
close-forgets_example =
    close-forgets 1 2 sockets socket_context reading tables one_reader
      (unfold get_fd_context int_leb in refl) table-Shows (unfold slot in refl)
