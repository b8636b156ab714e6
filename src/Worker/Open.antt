-- ===== src/Worker/Open.antt =====
-- server/worker.c: `open_file_handler`. Each of its three parts gives the status of an early
-- return, or `none` if the handler goes on.
pub mod Create
use file_storage_server.Base.{
  ℕ, ◌+◌, ◌&&◌, Bool, true, false, Option, none, some, List, [], ◌∷◌, if◌then◌else◌,
}
use file_storage_server.Base.Int.{pos, ◌+ℤ◌, ltb_ℤ, eq_ℕ}
use file_storage_server.Outcome.{ok, Cmd, pure, ◌>>=◌, ◌>>◌, lift}
use file_storage_server.Utilities.Flags.{o_create, o_lock, o_noflag, chk_flag}
use file_storage_server.Protocol.{Request}
use file_storage_server.Protocol.Codes.{
  Status, success, not_found, internal_error, unauthorized, file_exists,
}
use file_storage_server.Storage.{
  storage_get_file, storage_create_file, storage_add_file, storage_remove_file,
}
use file_storage_server.Storage.State.{Server, with_storage, load, lock_access, unlock_access}
use file_storage_server.Worker.Common.{c_string, body_int, finish, update}
use file_storage_server.Worker.Locks.{locked}

-- The eviction when the table is full; `false` if there is nothing to evict. The path of the head
-- is taken off the queue before `storage_remove_file` gets it, whose result is not looked at.
unfoldable pub make_space : Cmd Server Bool
unfolding load
make_space s =
    if ltb_ℤ s.max_files (s.no_of_files +ℤ pos 1)
    then elim s.fifo_queue [
      | [] ↦ ok (false, s)
      | to_remove_path ∷ queue ↦
          (do
            with_storage (λ st. record st { fifo_queue = queue })
            f ← load to_remove_path
            storage_remove_file f.path
            pure true)
            s
    ]
    else ok (true, s)

unfoldable pub create_part : Request → Cmd Server (Option Status)
unfolding lock_access finish
create_part r = do
  lock_access
  name ← lift (c_string r.file_path)
  found ← storage_get_file name
  elim found [
    | some file ↦ finish (some file_exists)
    | none ↦ do
      new_file ← storage_create_file name
      space ← make_space
      if space then (do storage_add_file new_file; finish none) else finish (some internal_error)
  ]

-- A file that another client has locked is locked again, for this client.
unfoldable pub lock_part : ℕ → Request → Cmd Server (Option Status)
unfolding lock_access finish load
lock_part client_fd r = do
  lock_access
  name ← lift (c_string r.file_path)
  found ← storage_get_file name
  elim found [
    | none ↦ finish (some not_found)
    | some file ↦ do
      f ← load file
      if chk_flag f.flags o_lock && eq_ℕ f.locked_by client_fd
          then finish (some unauthorized)
          else (do update file (locked f client_fd); finish none)
  ]

unfoldable pub noflag_part : Request → Cmd Server (Option Status)
unfolding lock_access finish
noflag_part r = do
  lock_access
  name ← lift (c_string r.file_path)
  found ← storage_get_file name
  elim found [ none ↦ finish (some not_found) | some file ↦ finish none ]

-- One `if (CHK_FLAG(flags, ...)) { ... }` and what follows it.
unfoldable pub part : Bool → Cmd Server (Option Status) → Cmd Server Status → Cmd Server Status
part asked body next =
    if asked
    then (do early ← body; elim early [ none ↦ next | some status ↦ pure status ])
    else next

unfoldable pub open_file_handler : ℕ → Request → Cmd Server Status
unfolding part
open_file_handler client_fd r = do
  flags ← lift (body_int r)
  part (chk_flag flags o_create) (create_part r) (
      part (chk_flag flags o_lock) (lock_part client_fd r)
        (part (chk_flag flags o_noflag) (noflag_part r) (pure success)))
