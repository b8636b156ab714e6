-- ===== src/Master/Destroyed.antt =====
-- server/server.c: where `main` calls `storage_destroy` on what it cannot free.
use file_storage_server.Base.{◌≡◌, ◌<◌, refl, true, false, some, leb, length, IsIn}
use file_storage_server.Outcome.{ok, fault}
use file_storage_server.Utilities.{CString}
use file_storage_server.Storage.State.{Ptr}
use file_storage_server.Storage.Table.{lookup, started}
use file_storage_server.Storage.Destroy.{storage_destroy, storage_destroy-queued}
use file_storage_server.Worker.Sound.Steps.{Steps, Steps-IsServer}
use file_storage_server.Api.Connection.{sun_path}
use file_storage_server.Master.Config.{Config}
use file_storage_server.Master.Startup.{
  nothing, Startup, Ending, select_failed, shut_down, main, hold_config, start_threads, open_socket,
  after_loop, server_exit1, server_exit2, free_block, let_go, destroy,
}
use file_storage_server.Master.Exits.{last_storage}

-- Every call at the start succeeds.
abbrev pub all_made : Startup
all_made = record {
  signal_block_made = true;
  signal_pipe_made = true;
  handler_installed = true;
  queue_made = true;
  storage_made = true;
  lock_pipe_made = true;
  lock_manager_set_up = true;
  pipe_made = true;
  worker_block_made = true;
  workers_started = true;
  socket_made = true;
  is_bound = true;
  is_listening = true;
}

-- If `storage_create` gives NULL, its failure is answered with `storage_destroy(NULL)`, which is undefined.
pub main-unmade :
    (c : Config) (u : Startup) (ending : Ending)
    → u.signal_block_made ≡ true
    → u.signal_pipe_made ≡ true
    → u.handler_installed ≡ true
    → u.queue_made ≡ true
    → u.storage_made ≡ false
    → main (some c) u ending nothing ≡ fault
unfolding main hold_config server_exit1 free_block let_go destroy
main-unmade c u ending h₁ h₂ h₃ h₄ h₅ = rw (h₁, h₂, h₃, h₄, h₅) refl

-- A server that has started and has served requests in any order, where READ_N_FILES found each queued
-- file that it looked for, and whose loop ends while a file is in its table and in its queue, as a file that
-- was written: `main` then frees the file twice, which is undefined.
pub main-queued :
    (c : Config) (path : CString) (ending : Ending) (name : CString) (p : Ptr)
    → c.socket_path ≡ some path
    → leb sun_path (length path) ≡ false
    → 0 < c.max_files
    → Steps (started c.max_size c.max_files) (last_storage ending)
    → lookup (last_storage ending) name ≡ ok (some p)
    → IsIn p (last_storage ending).fifo_queue
    → main (some c) all_made ending nothing ≡ fault
unfolding main hold_config start_threads open_socket after_loop server_exit2 server_exit1 free_block
    let_go destroy
main-queued c path (select_failed s) name p some_path short files steps found m =
    let e : storage_destroy s ≡ fault =
      storage_destroy-queued s name p (Steps-IsServer c.max_size c.max_files s files steps) found
        m in
    rw (some_path, short, e) refl
main-queued c path (shut_down s a b ws) name p some_path short files steps found m =
    let e : storage_destroy s ≡ fault =
      storage_destroy-queued s name p (Steps-IsServer c.max_size c.max_files s files steps) found
        m in
    rw (some_path, short, e) refl
