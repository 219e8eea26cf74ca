-- ===== src/Hook/Options.antt =====
-- Hook.antt: what the program sets on a descriptor it reads again, and the hooked calls use it.
use reyao.Common.{
  ℕ, ◌≡◌, refl, ap, ◌∙◌, arith, true, false, not, ◌||◌, Option, none, some, ◌==◌, if◌then◌else◌,
  length, Bool-cases, inl, inr,
}
use reyao.FdManager.{FdContext, Table, get_fd_context, set_entry}
use reyao.Common.Ints.{int_leb}
use reyao.FdManager.Table.{get_fd_context-set_entry}
use reyao.Hook.{Flags, open_socket, set_user_nonblock, fcntl_setfl, fcntl_getfl}

-- A socket that the table has and that is open.
pub record IsOpen (fd : ℕ) (table : Table) (c : FdContext) : Type 0 where
  pub entered : get_fd_context fd table ≡ some c
  pub opened : c.is_closed ≡ false
  pub sock : c.is_sock ≡ true

pub entered_passes :
    (fd : ℕ) (table : Table) (c : FdContext)
    → get_fd_context fd table ≡ some c
    → int_leb (length table) fd ≡ false
unfolding get_fd_context
entered_passes fd table c h = elim (Bool-cases (int_leb (length table) fd)) [
  | inl e ↦ absurd (cc (simp e at h))
  | inr e ↦ e
]

put_found :
    (fd j : ℕ) (table : Table) (c c' : FdContext)
    → get_fd_context fd table ≡ some c
    → get_fd_context j (set_entry fd (some c') table)
      ≡ (if j == fd then some c' else get_fd_context j table)
put_found fd j table c c' h =
    get_fd_context-set_entry fd j (some c') table (entered_passes fd table c h)

put_here :
    (fd : ℕ) (table : Table) (c c' : FdContext)
    → get_fd_context fd table ≡ some c
    → get_fd_context fd (set_entry fd (some c') table) ≡ some c'
put_here fd table c c' h =
    let e : (fd == fd) ≡ true = ground arith in
    put_found fd fd table c c' h ∙ ap (λ b. if b then some c' else get_fd_context fd table) e

open_socket-IsOpen :
    (fd : ℕ) (table : Table) (c : FdContext) → IsOpen fd table c → open_socket fd table ≡ some c
unfolding open_socket
open_socket-IsOpen fd table c h =
    ap
      (λ (o : Option FdContext). elim o [
        | none ↦ none
        | some c ↦ if c.is_closed || not c.is_sock then none else some c
      ])
      h.entered
    ∙ simp (h.opened, h.sock) refl

fcntl_setfl-open :
    (fd : ℕ) (arg : Flags) (table : Table) (c : FdContext)
    → open_socket fd table ≡ some c
    → fcntl_setfl fd arg table
      ≡ (record arg { nonblock = c.is_sys_nonblock }, set_user_nonblock fd arg.nonblock c table)
unfolding fcntl_setfl
fcntl_setfl-open fd arg table c h =
    ap
      (λ (o : Option FdContext). elim o as (λ x. Flags × Table) [
        | none ↦ (arg, table)
        | some c ↦
            (record arg { nonblock = c.is_sys_nonblock }, set_user_nonblock fd arg.nonblock c table)
      ])
      h

fcntl_getfl-open :
    (fd : ℕ) (arg : Flags) (table : Table) (c : FdContext)
    → open_socket fd table ≡ some c
    → fcntl_getfl fd arg table ≡ record arg { nonblock = c.is_user_nonblock }
unfolding fcntl_getfl
fcntl_getfl-open fd arg table c h =
    ap
      (λ (o : Option FdContext). elim o as (λ x. Flags) [
        | none ↦ arg
        | some c ↦ record arg { nonblock = c.is_user_nonblock }
      ])
      h

-- On an open socket, F_GETFL says O_NONBLOCK as the program set it by F_SETFL, whatever the
-- kernel's flag is, and the kernel is given the flag that the library needs.
pub fcntl_getfl-fcntl_setfl :
    (fd : ℕ) (arg kernel : Flags) (table : Table) (c : FdContext)
    → IsOpen fd table c
    → (fcntl_getfl fd kernel (fcntl_setfl fd arg table).1
        ≡ record kernel { nonblock = arg.nonblock })
      × ((fcntl_setfl fd arg table).0 ≡ record arg { nonblock = c.is_sys_nonblock })
fcntl_getfl-fcntl_setfl fd arg kernel table c h =
    let c' = record c { is_user_nonblock = arg.nonblock } in
    let set = fcntl_setfl-open fd arg table c (open_socket-IsOpen fd table c h) in
    let later : IsOpen fd (set_user_nonblock fd arg.nonblock c table) c' = record {
      entered = unfold set_user_nonblock in put_here fd table c c' h.entered;
      opened = h.opened;
      sock = h.sock;
    } in
    (
      ap (λ x. fcntl_getfl fd kernel x.1) set
          ∙ fcntl_getfl-open fd kernel (set_user_nonblock fd arg.nonblock c table) c'
              (open_socket-IsOpen fd (set_user_nonblock fd arg.nonblock c table) c' later),
      ap (λ x. x.0) set,
    )
