-- ===== src/Hook.antt =====
-- reyao/hook.cc: the system calls that the library replaces.
mod Io
pub mod Waiting
pub mod Balance
pub mod Options
pub mod Closing
mod Examples
unfoldable pub use Io.*
use reyao.Common.{
  ℕ, ◌+◌, ◌*◌, ◌/◌, ◌%◌, ◌^◌, Bool, true, false, Option, none, some, ◌||◌, not, if◌then◌else◌,
}
use reyao.FdManager.{
  FdContext, Table, TimeoutType, so_rcvtimeo, so_sndtimeo, other_option, get_fd_context, set_entry,
  set_timeout,
}

-- The timeouts of the timers behind the sleeping calls: an unsigned int, a useconds_t divided, and an
-- int64_t; the arguments are below 2^32 and 2^63.
unfoldable pub sleep_timeout : ℕ → ℕ
sleep_timeout seconds = (seconds * 1000) % 2 ^ 32

unfoldable pub usleep_timeout : ℕ → ℕ
usleep_timeout usec = usec / 1000

unfoldable pub nanosleep_timeout : ℕ → ℕ → ℕ
nanosleep_timeout sec nsec = (sec * 1000 + nsec / 1000000) % 2 ^ 64

-- A sleeping call with the hook: the timer that resumes the coroutine, and the suspension.
unfoldable pub sleeps : Bool → ℕ → Option ℕ
sleeps hook_enable timeout = if hook_enable then some timeout else none

-- The flags of a descriptor: O_NONBLOCK, and the others as they are.
pub record Flags : Type 0 where
  pub nonblock : Bool
  pub others : ℕ

-- The context of a socket that is not closed.
unfoldable pub open_socket : ℕ → Table → Option FdContext
open_socket fd table = elim (get_fd_context fd table) [
  | none ↦ none
  | some c ↦ if c.is_closed || not c.is_sock then none else some c
]

unfoldable pub set_user_nonblock : ℕ → Bool → FdContext → Table → Table
unfolding set_entry
set_user_nonblock fd flag c table = set_entry fd (some (record c { is_user_nonblock = flag })) table

-- F_SETFL: the flags that are passed on, and the table.
unfoldable pub fcntl_setfl : ℕ → Flags → Table → Flags × Table
unfolding set_user_nonblock
fcntl_setfl fd arg table = elim (open_socket fd table) [
  | none ↦ (arg, table)
  | some c ↦
      (record arg { nonblock = c.is_sys_nonblock }, set_user_nonblock fd arg.nonblock c table)
]

-- F_GETFL, where the kernel says `arg`.
unfoldable pub fcntl_getfl : ℕ → Flags → Table → Flags
fcntl_getfl fd arg table = elim (open_socket fd table) [
  | none ↦ arg
  | some c ↦ record arg { nonblock = c.is_user_nonblock }
]

-- ioctl of FIONBIO: what is passed on, and the table.
unfoldable pub ioctl_fionbio : ℕ → Bool → Table → Bool × Table
unfolding set_user_nonblock
ioctl_fionbio fd flag table = elim (open_socket fd table) [
  | none ↦ (flag, table)
  | some c ↦ (flag, set_user_nonblock fd flag c table)
]

unfoldable pub is_timeout : TimeoutType → Bool
is_timeout so_rcvtimeo = true
is_timeout so_sndtimeo = true
is_timeout other_option = false

-- setsockopt of level SOL_SOCKET on the table; `sec` and `usec` are those of the timeval.
unfoldable pub setsockopt : Bool → ℕ → TimeoutType → ℕ → ℕ → Table → Table
unfolding is_timeout set_timeout set_entry
setsockopt hook_enable fd optname sec usec table =
    if not hook_enable
    then table
    else if not (is_timeout optname)
    then table
    else elim (get_fd_context fd table) [
      | none ↦ table
      | some c ↦
          set_entry fd (some (set_timeout optname ((sec * 1000 + usec / 1000) % 2 ^ 64) c)) table
    ]
