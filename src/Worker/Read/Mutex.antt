-- ===== src/Worker/Read/Mutex.antt =====
-- A read of a file that is not there keeps the mutex.
use file_storage_server.Base.{ℕ, ◌≡◌, refl, false, none, [], arith}
use file_storage_server.Outcome.{ok, blocked}
use file_storage_server.Utilities.{CString}
use file_storage_server.Protocol.{Request}
use file_storage_server.Protocol.Codes.{not_found}
use file_storage_server.Storage.{storage_get_file}
use file_storage_server.Storage.State.{Server}
use file_storage_server.Storage.Table.{lookup}
use file_storage_server.LockManager.{pass}
use file_storage_server.Worker.Common.{c_string}
use file_storage_server.Worker.Lookup.{held}
use file_storage_server.Worker.Locks.{lock_file_handler, unlock_file_handler, close_file_handler}
use file_storage_server.Worker.Read.{read_file_handler, remove_file_handler}

-- A read under a name that the table does not know answers NOT_FOUND with the mutex held. From
-- then on each request to read, lock, unlock, close or remove any file blocks for ever, and so does
-- the thread that hands out the locks.
pub read_miss-blocks :
    (s : Server) (r : Request) (name : CString)
    → c_string r.file_path ≡ ok name
    → s.access ≡ false
    → lookup s name ≡ ok none
    → (s' : Server) × (read_file_handler r s ≡ ok ((not_found, (0, [])), s'))
      × ((client_fd : ℕ) (q : Request)
          → (read_file_handler q s' ≡ blocked)
            × (lock_file_handler client_fd q s' ≡ blocked)
            × (unlock_file_handler client_fd q s' ≡ blocked)
            × (close_file_handler client_fd q s' ≡ blocked)
            × (remove_file_handler client_fd q s' ≡ blocked))
      × (pass s' ≡ blocked)
unfolding read_file_handler lock_file_handler unlock_file_handler close_file_handler
    remove_file_handler storage_get_file pass
read_miss-blocks s r name path unheld miss = (
  held s,
  ground (arith, path, unheld, miss),
  (λ client_fd q. (refl, refl, refl, refl, refl)),
  refl,
)
