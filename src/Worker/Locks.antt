-- ===== src/Worker/Locks.antt =====
-- server/worker.c: `lock_file_handler`, `unlock_file_handler` and `close_file_handler`.
pub mod Answers
pub mod Exclusion
pub mod Consistent
use file_storage_server.Base.{ℕ, ◌&&◌, [], ◌∷◌, ◌++◌, if◌then◌else◌}
use file_storage_server.Base.Int.{pos, negsuc, eq_ℕ}
use file_storage_server.Outcome.{Cmd, ◌>>=◌, ◌>>◌}
use file_storage_server.Utilities.Flags.{o_lock, chk_flag, set_flag, clr_flag}
use file_storage_server.Protocol.{Request}
use file_storage_server.Protocol.Codes.{Status, success, awaiting, bad_request, unauthorized}
use file_storage_server.Storage.State.{File, Server}
use file_storage_server.Worker.Common.{with_file, finish, update}

-- `SET_FLAG(file->flags, O_LOCK); file->locked_by = client_fd;`
abbrev pub locked : File → ℕ → File
locked f client_fd = record f { flags = set_flag f.flags o_lock; locked_by = pos client_fd }

-- `CLR_FLAG(file->flags, O_LOCK); file->locked_by = -1;`
abbrev pub unlocked : File → File
unlocked f = record f { flags = clr_flag f.flags o_lock; locked_by = negsuc 0 }

unfoldable pub lock_file_handler : ℕ → Request → Cmd Server Status
unfolding with_file finish
lock_file_handler client_fd r = with_file r λ file f.
    if chk_flag f.flags o_lock
    then if eq_ℕ f.locked_by client_fd then finish success else (do
      update file (record f { waiting_on_lock = f.waiting_on_lock ++ client_fd ∷ [] })
      finish awaiting)
    else (do update file (locked f client_fd); finish success)

unfoldable pub unlock_file_handler : ℕ → Request → Cmd Server Status
unfolding with_file finish
unlock_file_handler client_fd r = with_file r λ file f.
    if chk_flag f.flags o_lock
    then if eq_ℕ f.locked_by client_fd
      then (do update file (unlocked f); finish success)
      else finish unauthorized
    else finish bad_request

unfoldable pub close_file_handler : ℕ → Request → Cmd Server Status
unfolding with_file finish
close_file_handler client_fd r = with_file r λ file f.
    if chk_flag f.flags o_lock && eq_ℕ f.locked_by client_fd
    then (do update file (unlocked f); finish success)
    else finish success
