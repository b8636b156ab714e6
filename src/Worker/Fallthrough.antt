-- ===== src/Worker/Fallthrough.antt =====
-- The case APPEND_TO_FILE of `worker_thread` runs on into READ_FILE.
use file_storage_server.Base.{
  ℕ, ◌+◌, ◌%◌, ◌≤◌, ◌≡◌, ap, true, false, some, List, [], ◌∷◌, ◌++◌, arith,
}
use file_storage_server.Base.Int.{eq_ℕ}
use file_storage_server.Outcome.{ok}
use file_storage_server.Utilities.{CString, size_mod}
use file_storage_server.Protocol.{Request}
use file_storage_server.Protocol.Codes.{Status, append_to_file, success}
use file_storage_server.Storage.State.{Ptr, File, Server, Reply}
use file_storage_server.Storage.Table.{lookup, IsServer}
use file_storage_server.Worker.Common.{c_string}
use file_storage_server.Worker.Write.{has_no_body}
use file_storage_server.Worker.Write.Contents.{append-read}
use file_storage_server.Worker.Read.{read_file_handler}
use file_storage_server.Storage.{storage_get_file}
use file_storage_server.HashMap.{hash_map_get}
use file_storage_server.Worker.{serve_file}

abbrev pub answer : ℕ → Request → Reply
answer client_fd r = record {
  client_fd = client_fd;
  status = success;
  path = r.file_path;
  body_size = 0;
  body = [];
}

-- A read does not look at what was sent.
pub read-sent :
    (r : Request) (s : Server) (a : Status × (ℕ × List ℕ)) (sent : List Reply)
    → read_file_handler r s ≡ ok (a, s)
    → read_file_handler r (record s { sent = sent }) ≡ ok (a, record s { sent = sent })
unfolding read_file_handler storage_get_file hash_map_get
read-sent r s a sent h = ground (arith, h)

-- In a sound state with the mutex free, an append by the client that holds the lock, of a body that
-- is not empty and at most the size of the storage, is answered twice: with the status, and then
-- with the whole file, as if the client had asked to read it.
pub append-answers :
    {s : Server} (w : IsServer s) (r : Request) (name : CString)
    → c_string r.file_path ≡ ok name
    → s.access ≡ false
    → (p : Ptr) (f : File) → lookup s name ≡ ok (some p)
    → s.heap p ≡ some f
    → (client_fd : ℕ) → eq_ℕ f.locked_by client_fd ≡ true
    → has_no_body r ≡ false
    → r.body_size ≤ s.max_size
    → (s' : Server) × (serve_file append_to_file client_fd r s ≡ ok (tt, s'))
      × (s'.sent
          ≡ (s.sent ++ answer client_fd r ∷ [])
            ++ record (answer client_fd r) {
              body_size = (f.size + r.body_size) % size_mod;
              body = f.contents ++ r.body;
            }
              ∷ [])
unfolding serve_file
append-answers w r name path unheld p f found at client_fd own some_body small =
    let (t, run, read, q, c, sent, sound) =
      append-read w r name path unheld p f found at client_fd own some_body small in
    (
      record t {
        sent =
            (t.sent ++ answer client_fd r ∷ [])
            ++ record (answer client_fd r) {
              body_size = (f.size + r.body_size) % size_mod;
              body = f.contents ++ r.body;
            }
              ∷ [];
      },
      ground (arith, run, read-sent r t _ (t.sent ++ answer client_fd r ∷ []) read),
      ap
          (λ x.
            (x ++ answer client_fd r ∷ [])
            ++ record (answer client_fd r) {
              body_size = (f.size + r.body_size) % size_mod;
              body = f.contents ++ r.body;
            }
              ∷ [])
          sent,
    )
