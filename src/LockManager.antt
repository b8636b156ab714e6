-- ===== src/LockManager.antt =====
-- server/lock_manager.c: the thread that hands locks to the clients that wait for them. `pass` is
-- one turn of the outer loop.
pub mod Settled
use file_storage_server.Base.{ℕ, Bool, ◌++◌, List, [], ◌∷◌, none, some, if◌then◌else◌}
use file_storage_server.Outcome.{Outcome, ok, blocked, Cmd, pure, ◌>>=◌, ◌>>◌}
use file_storage_server.Utilities.Flags.{o_lock, chk_flag}
use file_storage_server.Protocol.Codes.{success}
use file_storage_server.Storage.{storage_get_file}
use file_storage_server.Storage.State.{Ptr, File, Server, load, lock_access, unlock_access}
use file_storage_server.Worker.Common.{update, respond}
use file_storage_server.Worker.Locks.{locked}

-- The file is not locked and clients wait: the first of them gets the lock, and an answer.
unfoldable pub grant : Ptr → File → Cmd Server (Unit {0})
unfolding respond
grant file f = if chk_flag f.flags o_lock then pure tt else elim f.waiting_on_lock [
  | [] ↦ pure tt
  | client_fd ∷ waiting ↦ do
    update file (locked (record f { waiting_on_lock = waiting }) client_fd)
    respond client_fd success (f.path ++ 0 ∷ []) 0 []
]

-- The inner loop, which a file that the table does not know ends.
unfoldable pub visit : List Ptr → Cmd Server (Unit {0})
unfolding load
visit [] = pure tt
visit (curr ∷ queue) = do
  queued ← load curr
  found ← storage_get_file queued.path
  elim found [ none ↦ pure tt | some file ↦ do f ← load file; grant file f; visit queue ]

unfoldable pub pass : Cmd Server (Unit {0})
unfolding lock_access unlock_access
pass = do lock_access; (λ s. visit s.fifo_queue s); unlock_access

-- `lock_manager_thread`, on what the test of the outer loop reads from `shutdown_now`, one after the other.
unfoldable pub lock_manager_thread : List Bool → Cmd Server (Unit {0})
unfolding pass
lock_manager_thread [] s = blocked
lock_manager_thread (shutdown_now ∷ rest) s =
    let more : Outcome (Unit {0} × Server) = (do pass; lock_manager_thread rest) s in
    if shutdown_now then ok (tt, s) else more
