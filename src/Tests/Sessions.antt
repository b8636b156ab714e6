-- ===== src/Tests/Sessions.antt =====
-- A client that locks the file of the server, one that reads it, and one that writes it.
use file_storage_server.Base.{
  ℕ, ◌≡◌, refl, true, false, none, some, List, [], ◌∷◌, ◌++◌, arith, replicate, length-replicate,
}
use file_storage_server.Base.Int.{pos, ◌+ℤ◌}
use file_storage_server.Outcome.{ok}
use file_storage_server.Utilities.{string_hash, string_compare}
use file_storage_server.Utilities.Flags.{set_flag, clr_flag}
use file_storage_server.HashMap.{
  hash_map_get, hash_map_insert, hash_map_create, find_entry, write_entry,
}
use file_storage_server.Protocol.{Request, max_path}
use file_storage_server.Protocol.Codes
use file_storage_server.Protocol.Codes.{Status}
use file_storage_server.Storage.{storage_create, storage_add_file, storage_update_file}
use file_storage_server.Storage.State.{File, Server}
use file_storage_server.Storage.Touch.{touched}
use file_storage_server.Worker.{Global, worker_step}
use file_storage_server.Worker.Common.{c_string}
use file_storage_server.Worker.Fallthrough.{answer}
use file_storage_server.Worker.Locks.{locked}
use file_storage_server.Api.State.{Client, Host, contents, request_for, is_opened}
use file_storage_server.Api.Files.{lock_file, read_file}
use file_storage_server.Api.Steps.{response_bytes}
use file_storage_server.Session.{response_of, IsServed, lock_file-serve_file}
use file_storage_server.Session.Read.{read_reply, read_file-serve_file}
use file_storage_server.Session.Write.{write_request, rewritten, write_file-serve_file}
use file_storage_server.Storage.Table.{IsServer}
use file_storage_server.Api.Transfer.{write_file}
use file_storage_server.Tests.{
  path_a, one_file, one_file-IsServer, file_a, find_a, at_a, file_7, owned, owned-IsServer,
  find_owned,
}
use file_storage_server.Tests.Structures.{pipe, pipe-IsReliable}
use file_storage_server.Tests.Calls.{host, client}

abbrev spaces : Status → List ℕ
spaces status = replicate max_path 32

-- A server that accepts clients.
abbrev accepting : Server → Global
accepting s = record {
  server = s;
  current_connections = pos 1;
  accept_connection = true;
  shutdown_now = false;
}

abbrev request_lock : Request
request_lock = request_for Codes.lock_file path_a 0 []

abbrev expecting : Client (Unit {0})
expecting = record client {
  incoming = response_bytes pipe (response_of spaces (answer 7 request_lock)) ++ [];
}

lock_file-serve_file_example :
    (sent : List ℕ) × (s' : Server) × (c' : Client (Unit {0})) × (lock_file pipe host
        (some path_a)
        expecting
      ≡ ok (pos 0, c'))
    × (c'.out ≡ expecting.out ++ sent)
    × IsServed pipe 7 (sent ++ 1 ∷ []) (accepting one_file) s'
    × (s'.sent ≡ one_file.sent ++ answer 7 request_lock ∷ [])
    × (s'.heap 0 ≡ some (locked file_a 7))
unfolding storage_add_file hash_map_insert hash_map_get storage_create hash_map_create set_flag
    clr_flag storage_update_file string_hash string_compare find_entry write_entry ◌+ℤ◌ is_opened
    c_string
lock_file-serve_file_example =
    lock_file-serve_file pipe-IsReliable host spaces
      (λ status. length-replicate {A = ℕ} max_path 32) (accepting one_file) one_file-IsServer path_a
      path_a refl refl 0 file_a find_a at_a refl 7 3 (path_a ∷ []) expecting [] refl refl refl refl
      refl (ground arith) refl (1 ∷ [])

abbrev note : File
note = record file_a { size = 2; contents = 104 ∷ 105 ∷ [] }

abbrev with_note : Server
with_note = touched one_file 0 note

abbrev request_read : Request
request_read = request_for Codes.read_file path_a 0 []

abbrev awaiting_note : Client (Unit {0})
awaiting_note = record client {
  incoming = response_bytes pipe (response_of spaces (read_reply 7 request_read note)) ++ 9 ∷ [];
}

read_file-serve_file_example :
    (sent : List ℕ) × (s' : Server) × (c' : Client (Unit {0})) × (read_file pipe host
        (some path_a)
        awaiting_note
      ≡ ok (pos 0, c'))
    × (c'.out ≡ awaiting_note.out ++ sent)
    × IsServed pipe 7 (sent ++ 1 ∷ []) (accepting with_note) s'
    × (s'.sent ≡ with_note.sent ++ read_reply 7 request_read note ∷ [])
    × (s'.storage ≡ with_note.storage)
    × (s'.heap ≡ with_note.heap)
    × (s'.access ≡ false)
    × (c'.buffer ≡ some (2, 104 ∷ 105 ∷ []))
    × (c'.incoming ≡ 9 ∷ [])
unfolding storage_add_file hash_map_insert hash_map_get storage_create hash_map_create set_flag
    clr_flag storage_update_file string_hash string_compare find_entry write_entry ◌+ℤ◌ is_opened
    c_string
read_file-serve_file_example =
    read_file-serve_file pipe-IsReliable host spaces
      (λ status. length-replicate {A = ℕ} max_path 32) (accepting with_note) path_a path_a refl refl
      0 note refl refl refl (ground arith) 7 3 (path_a ∷ []) awaiting_note (9 ∷ []) refl refl refl
      refl refl (ground arith) refl (1 ∷ [])

-- Each file of the disk has these two bytes.
abbrev with_disk : Host (Unit {0})
with_disk = record host { read_disk = λ path d. contents (104 ∷ 105 ∷ []) }

abbrev request_write : Request
request_write = write_request path_a (104 ∷ 105 ∷ [])

abbrev awaiting_write : Client (Unit {0})
awaiting_write = record client {
  incoming = response_bytes pipe (response_of spaces (answer 7 request_write)) ++ 9 ∷ [];
}

write_file-serve_file_example :
    (sent : List ℕ) × (s' : Server) × (c' : Client (Unit {0})) × (write_file pipe with_disk
        (some path_a)
        none
        awaiting_write
      ≡ ok (pos 0, c'))
    × (c'.out ≡ awaiting_write.out ++ sent)
    × IsServed pipe 7 (sent ++ 1 ∷ []) (accepting owned) s'
    × (s'.sent ≡ owned.sent ++ answer 7 request_write ∷ [])
    × (s'.heap 0 ≡ some (rewritten file_7 (104 ∷ 105 ∷ [])))
    × IsServer s'
    × ((reader : ℕ)
        → worker_step reader request_read (record (accepting owned) { server = s' })
          ≡ ok (
            pos reader,
            record (accepting owned) {
              server = record s' {
                sent =
                    s'.sent
                    ++ read_reply reader request_read (rewritten file_7 (104 ∷ 105 ∷ [])) ∷ [];
              };
            },
          ))
unfolding storage_add_file hash_map_insert hash_map_get storage_create hash_map_create set_flag
    clr_flag storage_update_file string_hash string_compare find_entry write_entry ◌+ℤ◌ is_opened
    c_string
write_file-serve_file_example =
    write_file-serve_file pipe-IsReliable with_disk spaces
      (λ status. length-replicate {A = ℕ} max_path 32) (accepting owned) owned-IsServer path_a
      path_a 104 (105 ∷ []) refl refl 0 file_7 find_owned refl refl (ground arith) refl
      (ground arith) 7 3 refl none (path_a ∷ []) awaiting_write (9 ∷ []) refl refl refl refl refl
      refl (ground arith) refl (1 ∷ [])
