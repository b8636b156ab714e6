-- ===== src/Tests/Handlers.antt =====
-- The handlers at work on the server with one file.
use file_storage_server.Base.{ℕ, ◌+◌, ◌%◌, ◌≡◌, refl, ◌++◌, false, some, [], ◌∷◌, arith}
use file_storage_server.Outcome.{ok, blocked}
use file_storage_server.Utilities.{CString, size_mod, string_hash, string_compare}
use file_storage_server.Utilities.Flags.{set_flag, clr_flag, o_create, o_lock, chk_flag}
use file_storage_server.HashMap.{
  hash_map_get, hash_map_insert, hash_map_create, find_entry, write_entry,
}
use file_storage_server.Protocol.{Request, of_bytes}
use file_storage_server.Storage.{storage_create, storage_add_file, storage_update_file}
use file_storage_server.Storage.State.{Server}
use file_storage_server.Storage.Table.{lookup, IsServer}
use file_storage_server.Storage.Touch.{touched}
use file_storage_server.Worker.Locks.{
  locked, unlocked, lock_file_handler, unlock_file_handler, close_file_handler,
}
use file_storage_server.Protocol.Codes.{success, awaiting, unauthorized, not_found, append_to_file}
use file_storage_server.Worker.Write.{write_file_handler, append_to_file_handler}
use file_storage_server.Worker.Write.Contents.{write-read, append-read}
use file_storage_server.Worker.Read.{read_file_handler, remove_file_handler}
use file_storage_server.Worker.Open.Create.{new_file, open-create, open-takes_over}
use file_storage_server.Worker.Common.{body_int}
use file_storage_server.Base.Int.{◌+ℤ◌}
use file_storage_server.LockManager.{pass}
use file_storage_server.Worker.Lookup.{released}
use file_storage_server.Worker.Locks.Answers.{queued_for}
use file_storage_server.Worker.Locks.Consistent.{Keeps, locks-keep}
use file_storage_server.Worker.Locks.Exclusion.{lock-unlock, locked-excludes}
use file_storage_server.Worker.Read.Mutex.{read_miss-blocks}
use file_storage_server.Worker.Open.{open_file_handler}
use file_storage_server.Worker.Fallthrough.{append-answers, answer}
use file_storage_server.Worker.{serve_file}
use file_storage_server.Tests.{
  path_a, empty, empty-IsServer, file_a, one_file, one_file-IsServer, find_a, at_a, request_a,
  path_of_a, file_7, owned, owned-IsServer, find_owned, unheld_owned, open_request,
  owned-IsConsistent,
}

write-read_example :
    (s' : Server) × (write_file_handler 7 request_a owned ≡ ok (success, s'))
    × (read_file_handler request_a s' ≡ ok ((success, (3, 1 ∷ 2 ∷ 3 ∷ [])), s'))
    × (s'.fifo_queue ≡ owned.fifo_queue ++ 0 ∷ [])
    × (s'.current_size ≡ (owned.current_size + 3) % size_mod)
    × (s'.heap 0
        ≡ some (record file_7 {
          flags = clr_flag file_7.flags o_create;
          size = 3;
          contents = 1 ∷ 2 ∷ 3 ∷ [];
        }))
    × (s'.sent ≡ owned.sent)
    × IsServer s'
unfolding storage_add_file hash_map_insert hash_map_get storage_create hash_map_create set_flag
    clr_flag storage_update_file string_hash string_compare find_entry write_entry ◌+ℤ◌
write-read_example =
    write-read owned-IsServer request_a path_a path_of_a refl 0 file_7 find_owned refl 7 refl refl
      (ground arith) refl refl

append-read_example :
    (s' : Server) × (append_to_file_handler 7 request_a owned ≡ ok (success, s'))
    × (read_file_handler request_a s' ≡ ok ((success, ((0 + 3) % size_mod, 1 ∷ 2 ∷ 3 ∷ [])), s'))
    × (s'.fifo_queue ≡ owned.fifo_queue)
    × (s'.current_size ≡ (owned.current_size + 3) % size_mod)
    × (s'.sent ≡ owned.sent)
    × IsServer s'
unfolding storage_add_file hash_map_insert hash_map_get storage_create hash_map_create set_flag
    clr_flag storage_update_file string_hash string_compare find_entry write_entry ◌+ℤ◌
append-read_example =
    append-read owned-IsServer request_a path_a path_of_a refl 0 file_7 find_owned refl 7 refl refl
      (ground arith)

append-answers_example :
    (s' : Server) × (serve_file append_to_file 7 request_a owned ≡ ok (tt, s'))
    × (s'.sent
        ≡ (owned.sent ++ answer 7 request_a ∷ [])
          ++ record (answer 7 request_a) { body_size = (0 + 3) % size_mod; body = 1 ∷ 2 ∷ 3 ∷ [] }
            ∷ [])
unfolding storage_add_file hash_map_insert hash_map_get storage_create hash_map_create set_flag
    clr_flag storage_update_file string_hash string_compare find_entry write_entry ◌+ℤ◌
append-answers_example =
    append-answers owned-IsServer request_a path_a path_of_a refl 0 file_7 find_owned refl 7 refl
      refl (ground arith)

locked-excludes_example :
    (write_file_handler 8 request_a owned ≡ ok (unauthorized, released owned))
    × (append_to_file_handler 8 request_a owned ≡ ok (unauthorized, released owned))
    × (remove_file_handler 8 request_a owned ≡ ok (unauthorized, released owned))
    × (unlock_file_handler 8 request_a owned ≡ ok (unauthorized, released owned))
    × (lock_file_handler 8 request_a owned
        ≡ ok (awaiting, released (touched owned 0 (queued_for file_7 8))))
unfolding storage_add_file hash_map_insert hash_map_get storage_create hash_map_create set_flag
    clr_flag storage_update_file string_hash string_compare find_entry write_entry ◌+ℤ◌
locked-excludes_example =
    locked-excludes owned-IsServer request_a path_a path_of_a refl 0 file_7 find_owned refl 7 8 refl
      refl (ground arith) refl (ground arith)

lock-unlock_example :
    (s' : Server) × (s'' : Server) × (t : Server) × (lock_file_handler 7 request_a one_file
      ≡ ok (success, s'))
    × (lock_file_handler 8 request_a s' ≡ ok (awaiting, t))
    × (unlock_file_handler 8 request_a s' ≡ ok (unauthorized, s'))
    × (unlock_file_handler 7 request_a s' ≡ ok (success, s''))
    × (s''.heap 0 ≡ some (unlocked (locked file_a 7)))
    × (chk_flag (unlocked (locked file_a 7)).flags o_lock ≡ false)
unfolding storage_add_file hash_map_insert hash_map_get storage_create hash_map_create set_flag
    clr_flag storage_update_file string_hash string_compare find_entry write_entry ◌+ℤ◌
lock-unlock_example =
    lock-unlock one_file-IsServer request_a path_a path_of_a refl 0 file_a find_a at_a 7 8 refl
      (ground arith)

open-create_example :
    (s' : Server) × (open_file_handler 7 (open_request 6) empty ≡ ok (success, s'))
    × (s'.access ≡ false)
    × (lookup s' path_a ≡ ok (some empty.next))
    × (s'.heap empty.next ≡ some (locked (new_file path_a) 7))
    × ((j : CString) → string_compare path_a j ≡ false → lookup s' j ≡ lookup empty j)
    × IsServer s'
unfolding storage_add_file hash_map_insert hash_map_get storage_create hash_map_create set_flag
    clr_flag storage_update_file string_hash string_compare find_entry write_entry ◌+ℤ◌ body_int
    of_bytes
open-create_example =
    open-create empty-IsServer (open_request 6) path_a path_of_a refl 7 6 refl refl refl refl refl
      (ground arith) refl

open-takes_over_example :
    (s' : Server) × (open_file_handler 8 (open_request 4) owned ≡ ok (success, s'))
    × (s'.heap 0 ≡ some (locked file_7 8))
    × (unlock_file_handler 7 request_a s' ≡ ok (unauthorized, s'))
unfolding storage_add_file hash_map_insert hash_map_get storage_create hash_map_create set_flag
    clr_flag storage_update_file string_hash string_compare find_entry write_entry ◌+ℤ◌ body_int
    of_bytes
open-takes_over_example =
    open-takes_over owned-IsServer (open_request 4) request_a path_a path_of_a path_of_a refl 0
      file_7 find_owned refl 8 7 4 refl refl (ground arith) refl refl refl refl

read_miss-blocks_example :
    (s' : Server) × (read_file_handler request_a empty ≡ ok ((not_found, (0, [])), s'))
    × ((client_fd : ℕ) (q : Request)
        → (read_file_handler q s' ≡ blocked)
          × (lock_file_handler client_fd q s' ≡ blocked)
          × (unlock_file_handler client_fd q s' ≡ blocked)
          × (close_file_handler client_fd q s' ≡ blocked)
          × (remove_file_handler client_fd q s' ≡ blocked))
    × (pass s' ≡ blocked)
unfolding storage_add_file hash_map_insert hash_map_get storage_create hash_map_create set_flag
    clr_flag storage_update_file string_hash string_compare find_entry write_entry ◌+ℤ◌
read_miss-blocks_example = read_miss-blocks empty request_a path_a path_of_a refl refl

locks-keep_example :
    Keeps (lock_file_handler 8 request_a owned)
    × Keeps (unlock_file_handler 8 request_a owned)
    × Keeps (close_file_handler 8 request_a owned)
locks-keep_example =
    locks-keep owned-IsServer owned-IsConsistent request_a path_a 8 path_of_a unheld_owned
