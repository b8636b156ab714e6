-- ===== src/Master/Startup.antt =====
-- server/server.c: `main` around its loop: what it takes hold of, and what it lets go on each way out.
-- The log is `Log`; what the threads hold is theirs.
use file_storage_server.Base.{
  ℕ, Bool, true, false, ◌&&◌, Option, none, some, List, [], ◌∷◌, ◌==◌, leb, if◌then◌else◌, length,
}
use file_storage_server.Base.Int.{ℤ, pos, negsuc, eq_ℕ}
use file_storage_server.Outcome.{ok, fault, and_then, Cmd, pure, ◌>>=◌, ◌>>◌}
use file_storage_server.Utilities.{CString}
use file_storage_server.Storage.State.{Server}
use file_storage_server.Storage.Table.{started}
use file_storage_server.Storage.Destroy.{storage_destroy}
use file_storage_server.Api.Connection.{sun_path}
use file_storage_server.Master.Config.{Config}
use file_storage_server.Master.Threads.{send_termination}

-- Blocks of memory, and descriptors: the ends of the pipes to the signal handler, the lock manager and the
-- main thread, and the socket.
pub data Resource : Type 0 where
  log_path socket_path server_status signal_pipe signal_read signal_write sig_handler_tid
        request_queue storage lock_read lock_write lock_handler_tid pipe_read pipe_write worker_tids
        socket_fd storage_path :
      Resource

abbrev pub resource_code : Resource → ℕ
resource_code log_path = 0
resource_code socket_path = 1
resource_code server_status = 2
resource_code signal_pipe = 3
resource_code signal_read = 4
resource_code signal_write = 5
resource_code sig_handler_tid = 6
resource_code request_queue = 7
resource_code storage = 8
resource_code lock_read = 9
resource_code lock_write = 10
resource_code lock_handler_tid = 11
resource_code pipe_read = 12
resource_code pipe_write = 13
resource_code worker_tids = 14
resource_code socket_fd = 15
resource_code storage_path = 16

-- What is held.
abbrev pub Held : Type 0
Held = Resource → Bool

abbrev pub nothing : Held
nothing r = false

abbrev pub set_held : Resource → Bool → Held → Held
set_held r is held q = if resource_code q == resource_code r then is else held q

abbrev pub acquire : Resource → Cmd Held (Unit {0})
acquire r held = ok (tt, set_held r true held)

-- `free` of a block: to free what is not held is undefined.
unfoldable pub free_block : Resource → Cmd Held (Unit {0})
free_block r held = if held r then ok (tt, set_held r false held) else fault

-- `close` of a descriptor that may be bad, or `free` of a pointer that may be NULL.
unfoldable pub let_go : Resource → Cmd Held (Unit {0})
let_go r held = ok (tt, set_held r false held)

-- Whether each call of the operating system or of an initialiser succeeds, in the order of the code.
-- Allocations that the code does not test are taken to succeed.
pub record Startup : Type 0 where
  pub signal_block_made : Bool
  pub signal_pipe_made : Bool
  pub handler_installed : Bool
  pub queue_made : Bool
  pub storage_made : Bool
  pub lock_pipe_made : Bool
  pub lock_manager_set_up : Bool
  pub pipe_made : Bool
  pub worker_block_made : Bool
  pub workers_started : Bool
  pub socket_made : Bool
  pub is_bound : Bool
  pub is_listening : Bool

-- How the loop ends, with the storage at that time: `select` fails, or the threads are joined, with the
-- results of `pthread_join` for the signal handler, the lock manager and the workers.
pub data Ending : Type 0 where
  select_failed : Server → Ending
  shut_down : Server → ℤ → ℤ → List ℤ → Ending

-- The last loop of `shutdown_all_threads`, which keeps the last result.
unfoldable pub join_workers : ℤ → List ℤ → ℤ
join_workers res [] = res
join_workers res (joined ∷ rest) = join_workers joined rest

-- What `shutdown_all_threads` returns, and the queue with a -1 for each worker.
unfoldable pub shutdown_all_threads : ℤ → ℤ → List ℤ → List ℤ → ℤ × List ℤ
shutdown_all_threads signal_joined lock_joined workers_joined queue =
    (join_workers lock_joined workers_joined, send_termination (length workers_joined) queue)

-- `storage_destroy(storage)`, which reads through the pointer, and frees the block.
unfoldable pub destroy : Option Server → Cmd Held (Unit {0})
unfolding storage_destroy free_block
destroy none held = fault
destroy (some s) held = and_then (storage_destroy s) (λ r. free_block storage held)

-- From the label `_server_exit1` on.
unfoldable pub server_exit1 : Option Server → ℤ → Cmd Held ℤ
unfolding free_block let_go destroy
server_exit1 created ret = do
  free_block server_status
  let_go signal_read
  free_block signal_pipe
  destroy created
  let_go log_path
  let_go socket_path
  free_block request_queue
  pure ret

-- From the label `_server_exit2` on.
unfoldable pub server_exit2 : Server → ℤ → Cmd Held ℤ
unfolding free_block let_go server_exit1
server_exit2 s ret = do
  let_go socket_fd
  free_block sig_handler_tid
  free_block lock_handler_tid
  free_block worker_tids
  let_go pipe_read
  let_go pipe_write
  server_exit1 (some s) ret

-- The socket. `strcpy` reads through a path that is NULL, and writes past the end of `sun_path` if it
-- does not fit.
unfoldable pub open_socket : Startup → Config → Cmd Held Bool
open_socket u c =
    if u.socket_made
    then (do
      acquire socket_fd
      elim c.socket_path [
        | none ↦ (λ held. fault)
        | some path ↦ if leb sun_path (length path) then (λ held. fault) else pure tt
      ]
      pure (u.is_bound && u.is_listening))
    else pure false

-- What follows the loop.
unfoldable pub after_loop : Ending → Cmd Held ℤ
unfolding server_exit2 join_workers shutdown_all_threads
after_loop (select_failed s) = server_exit2 s (negsuc 0)
after_loop (shut_down s signal_joined lock_joined workers_joined) =
    let res = (shutdown_all_threads signal_joined lock_joined workers_joined []).0 in
    server_exit2 s (if eq_ℕ res 0 then pos 0 else negsuc 0)

-- The pipes, the lock manager, the workers and the socket; `s` is the storage.
unfoldable pub start_threads : Startup → Config → Server → Ending → Cmd Held ℤ
unfolding server_exit1 server_exit2 open_socket after_loop free_block
start_threads u c s ending =
    if u.lock_pipe_made
    then (do
      acquire lock_read
      acquire lock_write
      acquire lock_handler_tid
      if u.lock_manager_set_up
          then (if u.pipe_made
              then (do
                acquire pipe_read
                acquire pipe_write
                if u.worker_block_made
                    then (do
                      acquire worker_tids
                      if u.workers_started
                          then (do
                            opened ← open_socket u c
                            if opened then after_loop ending else server_exit2 s (negsuc 0))
                          else (do free_block worker_tids; server_exit1 (some s) (negsuc 0)))
                    else server_exit1 (some s) (negsuc 0))
              else server_exit1 (some s) (negsuc 0))
          else (do free_block lock_handler_tid; server_exit1 (some s) (negsuc 0)))
    else server_exit1 (some s) (negsuc 0)

abbrev pub is_set : Option CString → Bool
is_set none = false
is_set (some path) = true

-- The strings that the configuration allocated.
unfoldable pub hold_config : Config → Cmd Held (Unit {0})
hold_config c held = ok (
  tt,
  set_held socket_path (is_set c.socket_path)
      (set_held log_path (is_set c.log_file) (set_held storage_path (is_set c.storage_file) held)),
)

-- `main`, for what `parse_configuration_file` gave; EXIT_FAILURE is 1.
unfoldable pub main : Option Config → Startup → Ending → Cmd Held ℤ
unfolding hold_config free_block server_exit1 start_threads
main none u ending = pure (pos 1)
main (some c) u ending = do
  hold_config c
  acquire server_status
  if u.signal_block_made
      then (do
        acquire signal_pipe
        if u.signal_pipe_made
            then (do
              acquire signal_read
              acquire signal_write
              acquire sig_handler_tid
              if u.handler_installed && u.queue_made
                  then (do
                    acquire request_queue
                    if u.storage_made
                        then (do
                          acquire storage
                          start_threads u c (started c.max_size c.max_files) ending)
                        else server_exit1 none (negsuc 0))
                  else (do free_block signal_pipe; pure (negsuc 0)))
            else (do free_block signal_pipe; pure (negsuc 0)))
      else pure (negsuc 0)
