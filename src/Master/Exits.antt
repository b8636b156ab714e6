-- ===== src/Master/Exits.antt =====
-- The ways out of `main` of server/server.c.
use file_storage_server.Base.{
  ℕ, ◌≡◌, Bool, true, false, ◌⊎◌, Option, some, List, [], ◌∷◌, leb, length, All,
}
use file_storage_server.Base.Int.{ℤ, pos, negsuc}
use file_storage_server.Outcome.{Outcome, ok}
use file_storage_server.Utilities.{CString}
use file_storage_server.Storage.State.{Server}
use file_storage_server.Storage.Table.{started}
use file_storage_server.Storage.Destroy.{storage_destroy}
use file_storage_server.Api.Connection.{sun_path}
use file_storage_server.Master.Config.{Config}
use file_storage_server.Master.Startup.{
  Resource, log_path, socket_path, server_status, signal_pipe, signal_read, signal_write,
  sig_handler_tid, request_queue, storage, lock_read, lock_write, lock_handler_tid, pipe_read,
  pipe_write, worker_tids, socket_fd, storage_path, Held, nothing, Startup, Ending, select_failed,
  shut_down, set_held, is_set,
}

-- What `main` still holds after a success: the pipe of the lock manager, the end of the signal pipe that
-- the signal handler closes, and the name of the storage file if there is one.
abbrev pub is_left : Option CString → Resource → Bool
is_left storage_file lock_read = true
is_left storage_file lock_write = true
is_left storage_file signal_write = true
is_left storage_file storage_path = is_set storage_file
is_left storage_file other = false

abbrev pub all_resources : List Resource
all_resources =
    log_path ∷ socket_path ∷ server_status ∷ signal_pipe ∷ signal_read ∷ signal_write
    ∷ sig_handler_tid ∷ request_queue ∷ storage ∷ lock_read ∷ lock_write ∷ lock_handler_tid
    ∷ pipe_read ∷ pipe_write ∷ worker_tids ∷ socket_fd ∷ storage_path ∷ []

-- It returns -1, or it returns 0 and holds that.
abbrev pub Ended : Option CString → Outcome (ℤ × Held) → Type 0
Ended storage_file o =
    (ret : ℤ) × (held : Held) × (o ≡ ok (ret, held))
    × ((ret ≡ negsuc 0)
        ⊎ ((ret ≡ pos 0) × All (λ r. held r ≡ is_left storage_file r) all_resources))

-- The storage when the loop ends.
abbrev pub last_storage : Ending → Server
last_storage (select_failed s) = s
last_storage (shut_down s signal_joined lock_joined workers_joined) = s

module _ (max_size max_files no_of_workers : ℕ) (path : CString)
    (log_file storage_file : Option CString) (short : leb sun_path (length path) ≡ false)
    (ending : Ending) (r : ℤ × Server) (last : storage_destroy (last_storage ending) ≡ ok r) where
  abbrev config : Config
  config = record {
    no_of_workers = no_of_workers;
    max_size = max_size;
    max_files = max_files;
    socket_path = some path;
    log_file = log_file;
    storage_file = storage_file;
  }

  -- The storage, and what is held, along the way.
  abbrev begun : Server
  begun = started max_size max_files

  abbrev with_queue : Held
  with_queue = set_held request_queue true (
      set_held sig_handler_tid true (
        set_held signal_write true (
          set_held signal_read true (
            set_held signal_pipe true (
              set_held server_status true (
                set_held socket_path true (
                  set_held log_path (is_set log_file)
                    (set_held storage_path (is_set storage_file) nothing))))))))

  abbrev with_lock : Held
  with_lock =
      set_held lock_handler_tid true
        (set_held lock_write true (set_held lock_read true (set_held storage true with_queue)))

  abbrev with_workers : Held
  with_workers =
      set_held worker_tids true (set_held pipe_write true (set_held pipe_read true with_lock))
