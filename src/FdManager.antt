-- ===== src/FdManager.antt =====
-- reyao/fdmanager.h and fdmanager.cc: the table of what is known of the file descriptors. What fstat
-- says of a descriptor is an argument. A descriptor is an int that is not negative. A timeout is the
-- bit pattern of its int64_t, -1 at first.
pub mod Table
mod Examples
use reyao.Common.{
  ℕ, zero, suc, ◌+◌, ◌-◌, ◌*◌, ◌/◌, ◌^◌, Bool, true, false, Option, none, some, List, [], ◌∷◌, ◌++◌,
  ltb, if◌then◌else◌, length, take, replicate, Outcome, ok, err, fault,
}
use reyao.Common.Ints.{int_leb}

pub record FdContext : Type 0 where
  pub is_sock : Bool
  pub is_sys_nonblock : Bool
  pub is_user_nonblock : Bool
  pub is_closed : Bool
  pub fd : ℕ
  pub recv_timeout : ℕ
  pub send_timeout : ℕ

-- The constructor and `init`: a socket is set to be non-blocking.
unfoldable pub new_context : ℕ → Bool → FdContext
new_context fd sock = record {
  is_sock = sock;
  is_sys_nonblock = sock;
  is_user_nonblock = false;
  is_closed = false;
  fd = fd;
  recv_timeout = 2 ^ 64 - 1;
  send_timeout = 2 ^ 64 - 1;
}

-- SO_RCVTIMEO, SO_SNDTIMEO and the other options.
pub data TimeoutType : Type 0 where
  so_rcvtimeo so_sndtimeo other_option : TimeoutType

unfoldable pub set_timeout : TimeoutType → ℕ → FdContext → FdContext
set_timeout so_rcvtimeo timeout c = record c { recv_timeout = timeout }
set_timeout so_sndtimeo timeout c = record c { send_timeout = timeout }
set_timeout other_option timeout c = c

unfoldable pub get_timeout : TimeoutType → FdContext → ℕ
get_timeout so_rcvtimeo c = c.recv_timeout
get_timeout so_sndtimeo c = c.send_timeout
get_timeout other_option c = c.send_timeout

-- `none` is a null pointer.
abbrev pub Table : Type 0
Table = List (Option FdContext)

unfoldable pub entry : ℕ → Table → Option FdContext
entry n [] = none
entry zero (c ∷ cs) = c
entry (suc n) (c ∷ cs) = entry n cs

unfoldable pub set_entry : ℕ → Option FdContext → Table → Table
set_entry n x [] = []
set_entry zero x (c ∷ cs) = x ∷ cs
set_entry (suc n) x (c ∷ cs) = c ∷ set_entry n x cs

unfoldable pub get_fd_context : ℕ → Table → Option FdContext
unfolding entry
get_fd_context fd t = if int_leb (length t) fd then none else entry fd t

-- `fdcontexts_.resize(fd * 1.5)` where the size, as an int, is not above `fd`.
unfoldable pub grow : ℕ → Table → Table
grow fd t =
    if int_leb (length t) fd
    then take (fd * 3 / 2) t ++ replicate (fd * 3 / 2 - length t) none
    else t

unfoldable pub add_fd : ℕ → Bool → Table → Outcome Table
unfolding grow set_entry new_context
add_fd fd sock t =
    let grown = grow fd t in
    if ltb fd (length grown)
    then ok (set_entry fd (some (new_context fd sock)) grown)
    else err fault

unfoldable pub del_fd : ℕ → Table → Table
unfolding set_entry
del_fd fd t = if int_leb (length t) fd then t else set_entry fd none t
