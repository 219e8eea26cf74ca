-- ===== src/FdManager/Examples.antt =====
-- The theorems on the table of descriptors at an empty table.
use reyao.Common.{ℕ, length, ◌^◌, ◌<◌, ◌≡◌, arith, true, some, [], ◌==◌, if◌then◌else◌, ok}
use reyao.FdManager.{Table, get_fd_context, add_fd, new_context}
use reyao.FdManager.Table.{get_fd_context-add_fd}

get_fd_context-add_fd_example :
    (t' : Table) × (add_fd 5 true [] ≡ ok t')
    × ((j : ℕ)
        → get_fd_context j t' ≡ (if j == 5 then some (new_context 5 true) else get_fd_context j []))
    × (length t' < 2 ^ 31)
get_fd_context-add_fd_example =
    get_fd_context-add_fd 5 true [] (omega arith) (omega arith) (omega arith)
