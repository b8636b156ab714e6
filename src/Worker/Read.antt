-- ===== src/Worker/Read.antt =====
-- server/worker.c: `read_file_handler`, `read_n_files_handler` and `remove_file_handler`.
pub mod Mutex
pub mod Freed
use file_storage_server.Base.{
  ℕ, zero, suc, Bool, true, false, ◌+◌, ◌*◌, ◌%◌, ◌||◌, Option, none, some, List, [], ◌∷◌, ltb, leb,
  ◌==◌, if◌then◌else◌, map,
}
use file_storage_server.Base.Int.{eq_ℕ}
use file_storage_server.Outcome.{Cmd, pure, ◌>>=◌, ◌>>◌, lift}
use file_storage_server.Utilities.Flags.{o_lock, chk_flag}
use file_storage_server.Protocol.{Request}
use file_storage_server.Protocol.Codes.{Status, success, not_found, internal_error, unauthorized}
use file_storage_server.Storage.{storage_get_file, storage_remove_file}
use file_storage_server.Storage.State.{Ptr, File, Server, load, lock_access, unlock_access}
use file_storage_server.Worker.Common.{c_string, body_int, with_file, finish}
use file_storage_server.Worker.Write.{send_all}

-- The status, and the buffer with its size. The answer NOT_FOUND does not unlock.
unfoldable pub read_file_handler : Request → Cmd Server (Status × (ℕ × List ℕ))
unfolding lock_access load finish
read_file_handler r = do
  lock_access
  name ← lift (c_string r.file_path)
  found ← storage_get_file name
  elim found [
    | none ↦ pure (not_found, (0, []))
    | some file ↦ do f ← load file; finish (success, (f.size, f.contents))
  ]

-- How often the loop may run: the `int` of the body if it is positive and at most `max_size`, and
-- else `max_size` as an `int`.
abbrev pub rounds : ℕ → ℕ → ℕ
rounds how_many max_size =
    let limit = max_size % 4294967296 in
    if how_many == 0 || leb 2147483648 how_many || ltb max_size how_many
    then (if leb 2147483648 limit then 0 else limit)
    else how_many

-- The loop over the queue: whether it came to its end, and the files that are in the list then.
unfoldable pub collect : ℕ → List Ptr → Cmd Server (Bool × List Ptr)
unfolding load
collect zero queue = pure (true, [])
collect (suc n) [] = pure (true, [])
collect (suc n) (path ∷ queue) = do
  queued ← load path
  found ← storage_get_file queued.path
  elim found [
    | none ↦ pure (false, [])
    | some file ↦ do rest ← collect n queue; pure (rest.0, file ∷ rest.1)
  ]

unfoldable pub load_all : List Ptr → Cmd Server (List File)
unfolding load
load_all [] = pure []
load_all (p ∷ files) = do f ← load p; rest ← load_all files; pure (f ∷ rest)

-- The status, and what is left in the list of files.
unfoldable pub read_n_files_handler : ℕ → Request → Cmd Server (Status × List Ptr)
unfolding lock_access finish
read_n_files_handler client_fd r = do
  how_many ← lift (body_int r)
  lock_access
  files_list ← λ s. collect (rounds how_many s.max_size) s.fifo_queue s
  if files_list.0
      then (do
        finish tt
        to_send ← load_all files_list.1
        send_all client_fd success to_send
        pure (success, []))
      else finish (internal_error, files_list.1)

-- What `storage_remove_file` returns is not looked at.
unfoldable pub remove_file_handler : ℕ → Request → Cmd Server Status
unfolding with_file finish
remove_file_handler client_fd r = with_file r λ file f.
    if chk_flag f.flags o_lock
    then if eq_ℕ f.locked_by client_fd
      then (do name ← lift (c_string r.file_path); storage_remove_file name; finish success)
      else finish unauthorized
    else finish unauthorized
