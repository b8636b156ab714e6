-- ===== src/Tests.antt =====
-- A server of two files' room that holds one file, and what it becomes.
mod Structures
mod Handlers
mod Eviction
mod Calls
mod Options
mod Connections
mod Sessions
mod Reach
mod Shutdown
use file_storage_server.Base.{
  ℕ, ◌+◌, ◌≡◌, refl, sym, ap, subst, true, false, some, [], ◌∷◌, arith, List, ◌∙◌, ◌≤◌, Bool-cases,
  inl, inr, ◌==◌,
}
use file_storage_server.Base.Int.{ℤ, eq_ℕ, ◌+ℤ◌}
use file_storage_server.Outcome.{Outcome, ok, fault, blocked}
use file_storage_server.Utilities.{CString, string_hash, string_compare}
use file_storage_server.Utilities.Flags.{set_flag, clr_flag, o_create, chk_flag}
use file_storage_server.HashMap.{
  hash_map_get, hash_map_insert, hash_map_create, find_entry, write_entry,
}
use file_storage_server.Protocol.{Request}
use file_storage_server.Storage.{
  storage_create, storage_add_file, storage_update_file, is_over, storage_get_file,
  storage_fifo_replace,
}
use file_storage_server.Storage.State.{File, Server, store, load, lock_access, unlock_access}
use file_storage_server.Storage.Table.{
  lookup, IsServer, allocated, allocated-IsServer, add_file-lookup, started, started-IsServer,
}
use file_storage_server.Storage.Touch.{touched, touched-IsServer, lookup-touched}
use file_storage_server.Worker.Locks.{locked, unlocked}
use file_storage_server.Worker.Common.{c_string, with_file, finish, update}
use file_storage_server.Protocol.Codes.{success, Status}
use file_storage_server.Worker.Write.{write_file_handler, make_room, write_contents}
use file_storage_server.Worker.Write.Contents.{write-read}
use file_storage_server.Worker.Open.Create.{new_file}
use file_storage_server.Storage.Enough.{fifo_replace-enough}
use file_storage_server.Worker.Locks.Consistent.{IsConsistent, owner_fits}

-- The path "a".
abbrev path_a : CString
path_a = 97 ∷ []

abbrev empty : Server
empty = started 10 2

empty-IsServer : IsServer empty
empty-IsServer = started-IsServer 10 2 (ground arith)

abbrev file_a : File
file_a = new_file path_a

abbrev with_file_a : Server
with_file_a = allocated empty-IsServer file_a

abbrev server_of : Outcome (ℤ × Server) → Server
server_of (ok (c, s)) = s
server_of fault = empty
server_of blocked = empty

-- The server after the open of "a" with O_CREATE.
abbrev one_file : Server
one_file = server_of (storage_add_file 0 with_file_a)

one_file-IsServer : IsServer one_file
one_file-IsServer =
    let (s, m, e, shape, found, w) =
      add_file-lookup (allocated-IsServer empty-IsServer file_a) 0 file_a refl in
    subst IsServer (ap server_of (sym e)) w

find_a : lookup one_file path_a ≡ ok (some 0)
unfolding storage_add_file hash_map_insert hash_map_get storage_create hash_map_create set_flag
    clr_flag storage_update_file string_hash string_compare find_entry write_entry ◌+ℤ◌
find_a = refl

at_a : one_file.heap 0 ≡ some file_a
unfolding storage_add_file hash_map_insert hash_map_get storage_create hash_map_create set_flag
    clr_flag storage_update_file string_hash string_compare find_entry write_entry ◌+ℤ◌
at_a = refl

-- A request about "a", with three bytes.
abbrev request_a : Request
request_a = record {
  type = 104;
  path_len = 2;
  file_path = 97 ∷ 0 ∷ [];
  body_size = 3;
  body = 1 ∷ 2 ∷ 3 ∷ [];
}

path_of_a : c_string request_a.file_path ≡ ok path_a
unfolding c_string
path_of_a = refl

abbrev file_7 : File
file_7 = locked file_a 7

-- Client 7 has locked the file.
abbrev owned : Server
owned = touched one_file 0 file_7

owned-IsServer : IsServer owned
unfolding storage_add_file hash_map_insert hash_map_get storage_create hash_map_create set_flag
    clr_flag storage_update_file string_hash string_compare find_entry write_entry ◌+ℤ◌
owned-IsServer = touched-IsServer one_file-IsServer path_a 0 file_a find_a at_a file_7 refl

find_owned : lookup owned path_a ≡ ok (some 0)
unfolding storage_add_file hash_map_insert hash_map_get storage_create hash_map_create set_flag
    clr_flag storage_update_file string_hash string_compare find_entry write_entry ◌+ℤ◌
find_owned = lookup-touched one_file-IsServer path_a 0 file_a find_a at_a file_7 refl path_a

unheld_owned : owned.access ≡ false
unfolding storage_add_file hash_map_insert hash_map_get storage_create hash_map_create set_flag
    clr_flag storage_update_file string_hash string_compare find_entry write_entry ◌+ℤ◌
unheld_owned = refl

at_owned : owned.heap 0 ≡ some file_7
unfolding storage_add_file hash_map_insert hash_map_get storage_create hash_map_create set_flag
    clr_flag storage_update_file string_hash string_compare find_entry write_entry ◌+ℤ◌
at_owned = refl

small_owned : 3 ≤ owned.max_size
unfolding storage_add_file hash_map_insert hash_map_get storage_create hash_map_create set_flag
    clr_flag storage_update_file string_hash string_compare find_entry write_entry ◌+ℤ◌
small_owned = ground arith

own_owned : eq_ℕ file_7.locked_by 7 ≡ true
unfolding storage_add_file hash_map_insert hash_map_get storage_create hash_map_create set_flag
    clr_flag storage_update_file string_hash string_compare find_entry write_entry ◌+ℤ◌
own_owned = refl

fresh_owned : chk_flag file_7.flags o_create ≡ true
unfolding storage_add_file hash_map_insert hash_map_get storage_create hash_map_create set_flag
    clr_flag storage_update_file string_hash string_compare find_entry write_entry ◌+ℤ◌
fresh_owned = refl

fits_owned : is_over 3 owned ≡ false
unfolding storage_add_file hash_map_insert hash_map_get storage_create hash_map_create set_flag
    clr_flag storage_update_file string_hash string_compare find_entry write_entry ◌+ℤ◌
fits_owned = refl

abbrev after : Outcome (Status × Server) → Server
after (ok (status, s)) = s
after fault = empty
after blocked = empty

-- After the write the file is in the queue.
abbrev written : Server
written = after (write_file_handler 7 request_a owned)

write : write_file_handler 7 request_a owned ≡ ok (success, written)
unfolding storage_add_file hash_map_insert hash_map_get storage_create hash_map_create set_flag
    clr_flag storage_update_file string_hash string_compare find_entry write_entry ◌+ℤ◌
    write_file_handler write_contents make_room with_file finish update store load lock_access
    unlock_access c_string storage_get_file
write = refl

written-IsServer : IsServer written
written-IsServer =
    let (s, run, read, queue, size, at, sent, w) =
      write-read owned-IsServer request_a path_a path_of_a unheld_owned 0 file_7 find_owned at_owned
        7 own_owned refl small_owned fresh_owned fits_owned in
    subst IsServer (ap after (sym run)) w

abbrev file_w : File
file_w = record file_7 {
  flags = clr_flag file_7.flags o_create;
  size = 3;
  contents = 1 ∷ 2 ∷ 3 ∷ [];
}

at_w : written.heap 0 ≡ some file_w
unfolding storage_add_file hash_map_insert hash_map_get storage_create hash_map_create set_flag
    clr_flag storage_update_file string_hash string_compare find_entry write_entry ◌+ℤ◌
    write_file_handler write_contents make_room with_file finish update store load lock_access
    unlock_access c_string storage_get_file
at_w = refl

find_w : lookup written path_a ≡ ok (some 0)
unfolding storage_add_file hash_map_insert hash_map_get storage_create hash_map_create set_flag
    clr_flag storage_update_file string_hash string_compare find_entry write_entry ◌+ℤ◌
    write_file_handler write_contents make_room with_file finish update store load lock_access
    unlock_access c_string storage_get_file
find_w = refl

fifo_replace-enough_run :
    (copies : List File) × ((s' : Server) × (storage_fifo_replace 9 written ≡ ok (copies, s'))
      × IsServer s')
unfolding storage_add_file hash_map_insert hash_map_get storage_create hash_map_create set_flag
    clr_flag storage_update_file string_hash string_compare find_entry write_entry ◌+ℤ◌
    write_file_handler write_contents make_room with_file finish update store load lock_access
    unlock_access c_string storage_get_file
fifo_replace-enough_run =
    fifo_replace-enough 9 0 written written-IsServer ((file_w, at_w, find_w, tt), tt) refl
      (ground arith) (ground arith)

abbrev copies_of : Outcome (List File × Server) → List File
copies_of (ok (copies, s)) = copies
copies_of fault = []
copies_of blocked = []

abbrev rest_of : Outcome (List File × Server) → Server
rest_of (ok (copies, s)) = s
rest_of fault = empty
rest_of blocked = empty

abbrev copies : List File
copies = copies_of (storage_fifo_replace 9 written)

abbrev replaced : Server
replaced = rest_of (storage_fifo_replace 9 written)

replace : storage_fifo_replace 9 written ≡ ok (copies, replaced)
replace =
    let (c, (s, run, w)) = fifo_replace-enough_run in
    let shape : ok (copies_of (ok (c, s)), rest_of (ok (c, s))) ≡ ok (copies, replaced) =
      ap (λ x. ok (copies_of x, rest_of x)) (sym run) in
    run ∙ shape

-- Client 7 has unlocked the file, and client 8 waits.
abbrev file_c : File
file_c = record (unlocked file_w) { waiting_on_lock = 8 ∷ [] }

abbrev contended : Server
contended = touched written 0 file_c

abbrev open_request : ℕ → Request
open_request flags = record {
  type = 102;
  path_len = 2;
  file_path = 97 ∷ 0 ∷ [];
  body_size = 4;
  body = flags ∷ 0 ∷ 0 ∷ 0 ∷ [];
}

owned-IsConsistent : IsConsistent owned
unfolding storage_add_file hash_map_insert hash_map_get storage_create hash_map_create set_flag
    clr_flag storage_update_file string_hash string_compare find_entry write_entry ◌+ℤ◌
owned-IsConsistent p f at = elim (Bool-cases (p == 0)) [
  | inl here ↦
      let same : file_7 ≡ f = ground (arith, here, at) in
      let fits : owner_fits file_7 ≡ true = refl in ap owner_fits (sym same) ∙ fits
  | inr there ↦ absurd (ground (arith, there, at))
]
