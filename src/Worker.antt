-- ===== src/Worker.antt =====
-- server/worker.c: one round of `worker_thread`, from a request that was received to what goes into
-- the pipe. To receive the request is `Protocol.recv_request`; the queue of clients is a
-- `LinkedList`.
pub mod Common
pub mod Lookup
pub mod Locks
pub mod Write
pub mod Read
pub mod Open
pub mod Fallthrough
pub mod Sound
use file_storage_server.Base.{
  ℕ, Bool, true, false, Option, none, some, List, [], ◌∷◌, ◌==◌, if◌then◌else◌,
}
use file_storage_server.Base.Int.{ℤ, pos, negsuc, ◌-ℤ◌}
use file_storage_server.Outcome.{fault, Outcome, ok, and_then, Cmd, pure, ◌>>=◌, ◌>>◌}
use file_storage_server.Protocol.{Request, Transport, recv_request}
use file_storage_server.Protocol.Codes.{
  RequestCode, open_connection, close_connection, open_file, close_file, write_file, read_file,
  read_n_files, remove_file, lock_file, unlock_file, append_to_file, Status, success, awaiting,
  internal_error, no_more_con, request_code,
}
use file_storage_server.Storage.{free_all}
use file_storage_server.Storage.State.{Server}
use Common.{respond}
use Locks.{lock_file_handler, unlock_file_handler, close_file_handler}
use Write.{write_file_handler, append_to_file_handler}
use Read.{read_file_handler, read_n_files_handler, remove_file_handler}
use Open.{open_file_handler}

-- The globals that the round reads or writes beside the storage.
pub record Global : Type 0 where
  pub server : Server
  pub current_connections : ℤ
  pub accept_connection : Bool
  pub shutdown_now : Bool

-- `send_response(client_fd, status, ..., request->path_len, request->file_path, 0, NULL)`
unfoldable pub reply : ℕ → Request → Status → Cmd Server (Unit {0})
unfolding respond
reply client_fd r status = respond client_fd status r.file_path 0 []

-- The case READ_FILE.
unfoldable pub serve_read : ℕ → Request → Cmd Server (Unit {0})
unfolding respond
serve_read client_fd r = do
  answer ← read_file_handler r
  respond client_fd answer.0 r.file_path answer.1.0 answer.1.1

-- The cases that work on the storage. What READ_N_FILES leaves in its list is freed with it. APPEND_TO_FILE has no `break`, so READ_FILE follows it.
unfoldable pub serve_file : RequestCode → ℕ → Request → Cmd Server (Unit {0})
unfolding reply serve_read respond free_all
serve_file open_connection client_fd r = pure tt
serve_file close_connection client_fd r = pure tt
serve_file open_file client_fd r = do
  status ← open_file_handler client_fd r
  reply client_fd r status
serve_file close_file client_fd r = do
  status ← close_file_handler client_fd r
  reply client_fd r status
serve_file write_file client_fd r = do
  status ← write_file_handler client_fd r
  reply client_fd r status
serve_file append_to_file client_fd r = do
  status ← append_to_file_handler client_fd r
  reply client_fd r status
  serve_read client_fd r
serve_file read_file client_fd r = serve_read client_fd r
serve_file read_n_files client_fd r = do
  answer ← read_n_files_handler client_fd r
  respond client_fd answer.0 [] 0 []
  free_all answer.1
serve_file remove_file client_fd r = do
  status ← remove_file_handler client_fd r
  reply client_fd r status
serve_file lock_file client_fd r = do
  status ← lock_file_handler client_fd r
  elim status [ awaiting ↦ pure tt | other ↦ reply client_fd r other ]
serve_file unlock_file client_fd r = do
  status ← unlock_file_handler client_fd r
  reply client_fd r status

-- The answer to OPEN_CONNECTION.
abbrev pub connection_status : Global → Status
connection_status g =
    if g.accept_connection
    then (if g.shutdown_now then internal_error else success)
    else no_more_con

-- The body of the `switch`: what is written to the pipe, and the globals after it.
unfoldable pub serve : RequestCode → ℕ → Request → Global → Outcome (ℤ × Global)
unfolding serve_file respond
serve open_connection client_fd r g =
    and_then (respond client_fd (connection_status g) [] 0 [] g.server)
      (λ q. ok (pos client_fd, record g { server = q.1 }))
serve close_connection client_fd r g =
    ok (negsuc 0, record g { current_connections = g.current_connections -ℤ pos 1 })
serve code client_fd r g =
    and_then (serve_file code client_fd r g.server)
      (λ q. ok (pos client_fd, record g { server = q.1 }))

abbrev pub all_codes : List RequestCode
all_codes =
    open_connection ∷ close_connection ∷ open_file ∷ close_file ∷ write_file ∷ read_file
    ∷ read_n_files ∷ remove_file ∷ lock_file ∷ unlock_file ∷ append_to_file ∷ []

-- The case for a number, if there is one.
unfoldable pub case_of : ℕ → List RequestCode → Option RequestCode
unfolding request_code
case_of n [] = none
case_of n (c ∷ codes) = let rest = case_of n codes in if request_code c == n then some c else rest

-- The whole round. A number that is no case changes nothing, and the client goes back to the pipe.
unfoldable pub worker_step : ℕ → Request → Global → Outcome (ℤ × Global)
unfolding case_of serve
worker_step client_fd r g = elim (case_of r.type all_codes) [
  | none ↦ ok (pos client_fd, g)
  | some code ↦ serve code client_fd r g
]

-- The body of the loop of `worker_thread` on the bytes `s` that the client has sent. A request that
-- could not be received is NULL, and is read through behind the branch that closes the client.
unfoldable pub worker_round : Transport → ℕ → List ℕ → Global → Outcome (ℤ × Global)
unfolding worker_step
worker_round t client_fd s g = elim (recv_request t (pos client_fd) s) [
  | none ↦ fault
  | some (r, rest) ↦ worker_step client_fd r g
]
