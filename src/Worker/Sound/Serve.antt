-- ===== src/Worker/Sound/Serve.antt =====
-- server/worker.c: a round of a worker from a sound state.
use file_storage_server.Base.{ℕ, ◌≡◌, Option, none, some, List, []}
use file_storage_server.Base.Int.{ℤ, pos}
use file_storage_server.Outcome.{
  Outcome, ok, Cmd, pure, and_then, ◌>>=◌, Ends, then-Ends, both-Ends,
}
use file_storage_server.Protocol.{Request}
use file_storage_server.Protocol.Codes.{
  RequestCode, open_connection, close_connection, open_file, close_file, write_file, read_file,
  read_n_files, remove_file, lock_file, unlock_file, append_to_file, Status, awaiting,
}
use file_storage_server.Storage.{free_all}
use file_storage_server.Storage.State.{Ptr, Server}
use file_storage_server.Storage.Table.{IsServer}
use file_storage_server.Storage.Sound.{Sound, KeepsServer, bind-KeepsServer}
use file_storage_server.Worker.Common.{respond}
use file_storage_server.Worker.Read.{read_file_handler, read_n_files_handler, remove_file_handler}
use file_storage_server.Worker.Locks.{lock_file_handler, unlock_file_handler, close_file_handler}
use file_storage_server.Worker.Write.{write_file_handler, append_to_file_handler}
use file_storage_server.Worker.Open.{open_file_handler}
use file_storage_server.Worker.{
  Global, reply, serve_read, serve_file, serve, worker_step, case_of, all_codes, connection_status,
}
use file_storage_server.Worker.Sound.{respond-KeepsServer}
use file_storage_server.Worker.Sound.Handlers.{
  lock_file-KeepsServer, unlock_file-KeepsServer, close_file-KeepsServer, write_file-KeepsServer,
  append_to_file-KeepsServer, read_file-KeepsServer, read_n_files-KeepsServer,
  remove_file-KeepsServer,
}
use file_storage_server.Worker.Sound.Open.{open_file-KeepsServer}

reply-KeepsServer : (fd : ℕ) (r : Request) (status : Status) → KeepsServer (reply fd r status)
unfolding reply
reply-KeepsServer fd r status = respond-KeepsServer fd status r.file_path 0 []

-- A handler, and the answer with its status.
answered-KeepsServer :
    (fd : ℕ) (r : Request) (m : Cmd Server Status) → KeepsServer m → KeepsServer (m >>= reply fd r)
answered-KeepsServer fd r m h = bind-KeepsServer m (reply fd r) h (reply-KeepsServer fd r)

serve_read-KeepsServer : (fd : ℕ) (r : Request) → KeepsServer (serve_read fd r)
unfolding serve_read
serve_read-KeepsServer fd r =
    bind-KeepsServer (read_file_handler r) _ (read_file-KeepsServer r)
      λ a. respond-KeepsServer fd a.0 r.file_path a.1.0 a.1.1

lock_reply-KeepsServer :
    (fd : ℕ) (r : Request) (status : Status)
    → KeepsServer (elim status as (λ x. Cmd Server (Unit {0})) [
      | awaiting ↦ pure tt
      | other ↦ reply fd r other
    ])
lock_reply-KeepsServer fd r awaiting = λ s w. w
lock_reply-KeepsServer fd r other = reply-KeepsServer fd r _

-- The list of READ_N_FILES is empty when it is destroyed, as it is unless a file of the queue is missing
-- from the table. Of other requests it says nothing.
abbrev pub Spares : RequestCode → ℕ → Request → Server → Type 0
Spares read_n_files fd r s = Ends (λ q. q.0.1 ≡ []) (read_n_files_handler fd r s)
Spares code fd r s = Unit

free_nothing : (files : List Ptr) → files ≡ [] → KeepsServer (free_all files)
unfolding free_all
free_nothing files e s w = rw e w

read_n_files-Sound :
    (fd : ℕ) (r : Request) (s : Server)
    → IsServer s
    → Spares read_n_files fd r s
    → Sound (serve_file read_n_files fd r s)
unfolding serve_file
read_n_files-Sound fd r s w spares =
    then-Ends (λ q. IsServer q.1 × (q.0.1 ≡ [])) (λ q. IsServer q.1) (read_n_files_handler fd r s) _
      (both-Ends (λ q. IsServer q.1) (λ q. q.0.1 ≡ []) (read_n_files_handler fd r s)
        (read_n_files-KeepsServer fd r s w) spares)
      λ q h.
        bind-KeepsServer (respond fd q.0.0 [] 0 []) _ (respond-KeepsServer fd q.0.0 [] 0 [])
          (λ _. free_nothing q.0.1 h.1) q.1 h.0

serve_file-Sound :
    (code : RequestCode) (fd : ℕ) (r : Request) (s : Server)
    → IsServer s
    → Spares code fd r s
    → Sound (serve_file code fd r s)
unfolding serve_file
serve_file-Sound open_connection fd r s w spares = w
serve_file-Sound close_connection fd r s w spares = w
serve_file-Sound open_file fd r s w spares =
    answered-KeepsServer fd r (open_file_handler fd r) (open_file-KeepsServer fd r) s w
serve_file-Sound close_file fd r s w spares =
    answered-KeepsServer fd r (close_file_handler fd r) (close_file-KeepsServer fd r) s w
serve_file-Sound write_file fd r s w spares =
    answered-KeepsServer fd r (write_file_handler fd r) (write_file-KeepsServer fd r) s w
serve_file-Sound append_to_file fd r s w spares =
    bind-KeepsServer (append_to_file_handler fd r) _ (append_to_file-KeepsServer fd r)
      (λ status.
        bind-KeepsServer (reply fd r status) _ (reply-KeepsServer fd r status)
          λ _. serve_read-KeepsServer fd r)
      s w
serve_file-Sound read_file fd r s w spares = serve_read-KeepsServer fd r s w
serve_file-Sound read_n_files fd r s w spares = read_n_files-Sound fd r s w spares
serve_file-Sound remove_file fd r s w spares =
    answered-KeepsServer fd r (remove_file_handler fd r) (remove_file-KeepsServer fd r) s w
serve_file-Sound lock_file fd r s w spares =
    bind-KeepsServer (lock_file_handler fd r) _ (lock_file-KeepsServer fd r)
      (lock_reply-KeepsServer fd r) s w
serve_file-Sound unlock_file fd r s w spares =
    answered-KeepsServer fd r (unlock_file_handler fd r) (unlock_file-KeepsServer fd r) s w

-- If the round ends, the state is sound.
abbrev pub SoundGlobal : Outcome (ℤ × Global) → Type 0
SoundGlobal = Ends (λ q. IsServer q.1.server)

served-Sound :
    (n : ℤ) (g : Global) (o : Outcome (Unit {0} × Server))
    → Sound o
    → SoundGlobal (and_then o (λ q. ok (n, record g { server = q.1 })))
served-Sound n g o h = then-Ends (λ r. IsServer r.1) (λ q. IsServer q.1.server) o _ h λ r w. w

serve-Sound :
    (code : RequestCode) (fd : ℕ) (r : Request) (g : Global)
    → IsServer g.server
    → Spares code fd r g.server
    → SoundGlobal (serve code fd r g)
unfolding serve
serve-Sound open_connection fd r g w spares =
    served-Sound (pos fd) g (respond fd (connection_status g) [] 0 [] g.server)
      (respond-KeepsServer fd (connection_status g) [] 0 [] g.server w)
serve-Sound close_connection fd r g w spares = w
serve-Sound code fd r g w spares =
    served-Sound (pos fd) g (serve_file code fd r g.server)
      (serve_file-Sound code fd r g.server w spares)

-- For the number of a request, if it is a case.
abbrev pub SparesCase : Option RequestCode → ℕ → Request → Server → Type 0
SparesCase none fd r s = Unit
SparesCase (some code) fd r s = Spares code fd r s

pub worker_step-Sound :
    (fd : ℕ) (r : Request) (g : Global)
    → IsServer g.server
    → SparesCase (case_of r.type all_codes) fd r g.server
    → SoundGlobal (worker_step fd r g)
unfolding worker_step
worker_step-Sound fd r g w = case (case_of r.type all_codes)
  where
    case :
        (o : Option RequestCode)
        → SparesCase o fd r g.server
        → SoundGlobal (elim o [ none ↦ ok (pos fd, g) | some code ↦ serve code fd r g ])
    case none spares = w
    case (some code) spares = serve-Sound code fd r g w spares
