-- ===== src/Worker/Common.antt =====
-- server/worker.c: what the handlers share. A handler gets the file descriptor of the client, which
-- is not negative, and the request; the number of the worker only goes into the log.
use file_storage_server.Base.{
  ℕ, zero, suc, none, some, List, [], ◌∷◌, leb, if◌then◌else◌, length, take,
}
use file_storage_server.Outcome.{Outcome, ok, fault, and_then, Cmd, pure, ◌>>=◌, ◌>>◌, lift}
use file_storage_server.Utilities.{CString}
use file_storage_server.Protocol.{Request, of_bytes}
use file_storage_server.Protocol.Codes.{Status, not_found}
use file_storage_server.Storage.{storage_get_file, storage_update_file}
use file_storage_server.Storage.State.{
  Ptr, File, Server, load, store, lock_access, unlock_access, send,
}

-- The string in a buffer. To read NULL, or past the end of a buffer with no NUL, is undefined.
unfoldable pub c_string : List ℕ → Outcome CString
c_string [] = fault
c_string (zero ∷ bytes) = ok []
c_string (suc c ∷ bytes) = and_then (c_string bytes) (λ rest. ok (suc c ∷ rest))

-- `*(int*)request->body`, as the unsigned number of its four bytes.
unfoldable pub body_int : Request → Outcome ℕ
body_int r = if leb 4 (length r.body) then ok (of_bytes (take 4 r.body)) else fault

-- `unlock_return(&(storage->access), INTERNAL_ERROR); return status;`
unfoldable pub finish : {A : Type 0} → A → Cmd Server A
unfolding unlock_access
finish a = do unlock_access; pure a

-- Writes to the fields of a file, and the `storage_update_file` that follows them.
unfoldable pub update : Ptr → File → Cmd Server (Unit {0})
unfolding store
update p f = do store p f; storage_update_file p; pure tt

-- The start of the handlers that work on one file, up to the answer NOT_FOUND.
unfoldable pub with_file : Request → (Ptr → File → Cmd Server Status) → Cmd Server Status
unfolding finish lock_access load
with_file r body = do
  lock_access
  name ← lift (c_string r.file_path)
  found ← storage_get_file name
  elim found [ none ↦ finish not_found | some file ↦ do f ← load file; body file f ]

-- `send_response(client_fd, status, get_status_message(status), ...)`: the phrase follows from the status,
-- and is not kept.
unfoldable pub respond : ℕ → Status → List ℕ → ℕ → List ℕ → Cmd Server (Unit {0})
unfolding send
respond client_fd status path body_size body = send (record {
  client_fd = client_fd;
  status = status;
  path = path;
  body_size = body_size;
  body = body;
})
