-- ===== src/Tests/Reach.antt =====
-- A server that opens a file, and the lock manager after it.
use file_storage_server.Base.{some, none, ◌++◌, ◌≡◌, refl, arith, true, false, some, [], ◌∷◌}
use file_storage_server.Base.Int.{ℤ, pos, ◌+ℤ◌}
use file_storage_server.Outcome.{Outcome, ok, fault, blocked}
use file_storage_server.Storage.State.{File, write, Server}
use file_storage_server.Storage.Table.{IsServer, lookup}
use file_storage_server.Utilities.{string_hash, string_compare}
use file_storage_server.Utilities.Flags.{set_flag, clr_flag}
use file_storage_server.Protocol.{of_bytes}
use file_storage_server.HashMap.{
  hash_map_get, hash_map_insert, hash_map_create, find_entry, write_entry,
}
use file_storage_server.Storage.{
  storage_create, storage_create_file, storage_get_file, storage_add_file, storage_update_file,
}
use file_storage_server.Storage.State.{alloc}
use file_storage_server.Worker.Common.{c_string, body_int, update}
use file_storage_server.Worker.Open.{open_file_handler, create_part, make_space, lock_part}
use file_storage_server.Worker.Write.{write_file_handler, make_room, write_contents}
use file_storage_server.LockManager.{visit, grant}
use file_storage_server.Worker.Read.Freed.{read_n_files-frees}
use file_storage_server.Worker.Open.Create.{new_file}
use file_storage_server.Protocol.Codes.{read_n_files, internal_error}
use file_storage_server.Protocol.{Request}
use file_storage_server.Worker.{serve_file, Global, worker_step, case_of}
use file_storage_server.LockManager.{pass}
use file_storage_server.Worker.Sound.Steps.{Steps, start, next, work, manage, Steps-IsServer}
use file_storage_server.Tests.{empty, path_a, open_request, request_a}

abbrev first : Global
first = record {
  server = empty;
  current_connections = pos 1;
  accept_connection = true;
  shutdown_now = false;
}

abbrev global_of : Outcome (ℤ × Global) → Global
global_of (ok (n, g)) = g
global_of fault = first
global_of blocked = first

-- Client 7 creates "a" with its lock, and writes three bytes.
abbrev opened : Global
opened = global_of (worker_step 7 (record (open_request 6) { type = 102 }) first)

abbrev filled : Global
filled = global_of (worker_step 7 request_a opened)

abbrev state_of : Outcome (Unit {0} × Server) → Server
state_of (ok (u, s)) = s
state_of fault = empty
state_of blocked = empty

abbrev pub passed : Server
passed = state_of (pass filled.server)

open_runs : worker_step 7 (record (open_request 6) { type = 102 }) first ≡ ok (pos 7, opened)
unfolding worker_step open_file_handler body_int of_bytes create_part storage_create c_string
    storage_get_file hash_map_get hash_map_create find_entry string_hash string_compare
    storage_create_file alloc make_space ◌+ℤ◌ storage_add_file storage_update_file hash_map_insert
    write_entry set_flag clr_flag lock_part update
open_runs = refl

write_runs : worker_step 7 request_a opened ≡ ok (pos 7, filled)
unfolding worker_step open_file_handler body_int of_bytes create_part storage_create c_string
    storage_get_file hash_map_get hash_map_create find_entry string_hash string_compare
    storage_create_file alloc make_space ◌+ℤ◌ storage_add_file storage_update_file hash_map_insert
    write_entry set_flag clr_flag lock_part update write_file_handler make_room write_contents
write_runs = refl

pass_runs : pass filled.server ≡ ok (tt, passed)
unfolding worker_step open_file_handler body_int of_bytes create_part storage_create c_string
    storage_get_file hash_map_get hash_map_create find_entry string_hash string_compare
    storage_create_file alloc make_space ◌+ℤ◌ storage_add_file storage_update_file hash_map_insert
    write_entry set_flag clr_flag lock_part update write_file_handler make_room write_contents pass
    visit grant
pass_runs = refl

pub run : Steps empty passed
unfolding case_of
run =
    (next
      (next
        (next start
          (work 7 (record (open_request 6) { type = 102 }) first opened (pos 7) tt open_runs))
        (work 7 request_a opened filled (pos 7) tt write_runs))
      (manage pass_runs))

Steps-IsServer_example : IsServer passed
Steps-IsServer_example = Steps-IsServer 10 2 passed (ground arith) run

pub find_passed : lookup passed path_a ≡ ok (some 0)
unfolding worker_step open_file_handler body_int of_bytes create_part storage_create c_string
    storage_get_file hash_map_get hash_map_create find_entry string_hash string_compare
    storage_create_file alloc make_space ◌+ℤ◌ storage_add_file storage_update_file hash_map_insert
    write_entry set_flag clr_flag lock_part update write_file_handler make_room write_contents pass
    visit grant
find_passed = refl

pub queue_passed : passed.fifo_queue ≡ 0 ∷ []
unfolding worker_step open_file_handler body_int of_bytes create_part storage_create c_string
    storage_get_file hash_map_get hash_map_create find_entry string_hash string_compare
    storage_create_file alloc make_space ◌+ℤ◌ storage_add_file storage_update_file hash_map_insert
    write_entry set_flag clr_flag lock_part update write_file_handler make_room write_contents pass
    visit grant
queue_passed = refl

-- A second file, "b", that is in the queue and not in the table.
abbrev file_b : File
file_b = new_file (98 ∷ [])

abbrev half : Server
half = record passed {
  storage = record passed.storage { fifo_queue = 0 ∷ 1 ∷ [] };
  heap = write passed.heap 1 (some file_b);
}

-- For two files.
abbrev read_two : Request
read_two = record {
  type = 106;
  path_len = 0;
  file_path = [];
  body_size = 4;
  body = 2 ∷ 0 ∷ 0 ∷ 0 ∷ [];
}

-- What "a" holds then.
abbrev file_a : File
file_a = record {
  path = path_a;
  flags = 4;
  size = 3;
  contents = 1 ∷ 2 ∷ 3 ∷ [];
  locked_by = pos 7;
  waiting_on_lock = [];
}

read_n_files-frees_example :
    (s' : Server) × (serve_file read_n_files 9 read_two half ≡ ok (tt, s'))
    × (s'.sent
        ≡ half.sent
          ++ record { client_fd = 9; status = internal_error; path = []; body_size = 0; body = [] }
            ∷ [])
    × (s'.files ≡ half.files)
    × (s'.heap 0 ≡ none)
    × ¬ IsServer s'
unfolding worker_step open_file_handler body_int of_bytes create_part storage_create c_string
    storage_get_file hash_map_get hash_map_create find_entry string_hash string_compare
    storage_create_file alloc make_space ◌+ℤ◌ storage_add_file storage_update_file hash_map_insert
    write_entry set_flag clr_flag lock_part update write_file_handler make_room write_contents pass
    visit grant
read_n_files-frees_example =
    read_n_files-frees half read_two 9 2 0 0 1 [] file_a file_b refl refl refl refl refl refl refl
      refl
