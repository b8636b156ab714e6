-- ===== src/Tests/Eviction.antt =====
-- The storage and the lock manager at work on the server with one file.
use file_storage_server.Base.{
  ◌+◌, ◌%◌, ◌≡◌, refl, ◌++◌, true, false, some, arith, All, List, ◌∙◌, if◌then◌else◌, ◌≤◌, length,
}
use file_storage_server.Base.Int.{pos, negsuc, ◌+ℤ◌}
use file_storage_server.Outcome.{ok, fault}
use file_storage_server.Utilities.{CString, size_mod, string_hash, string_compare}
use file_storage_server.Utilities.Flags.{set_flag, clr_flag}
use file_storage_server.HashMap.{
  hash_map_get, hash_map_insert, hash_map_create, find_entry, write_entry, HashMap,
}
use file_storage_server.Storage.{
  storage_create, storage_add_file, storage_update_file, storage_get_file, storage_fifo_replace,
  storage_remove_file,
}
use file_storage_server.Storage.State.{File, Server, Ptr, store, load, lock_access, unlock_access}
use file_storage_server.Storage.Table.{lookup, IsServer, allocated-IsServer, add_file-lookup}
use file_storage_server.Storage.Touch.{touched-IsServer, lookup-touched}
use file_storage_server.Worker.Common.{c_string, with_file, finish, update}
use file_storage_server.Worker.Write.{write_file_handler, make_room, write_contents}
use file_storage_server.Storage.Enough.{fifo_replace-enough}
use file_storage_server.Storage.Replace.{fifo_replace-room}
use file_storage_server.Storage.Remove.{remove_file-unqueued, remove_file-queued, discounted}
use file_storage_server.LockManager.{pass}
use file_storage_server.LockManager.Settled.{pass-settles, is_settled, Later}
use file_storage_server.Worker.Write.Limit.{write-limit}
use file_storage_server.Tests.{
  path_a, empty-IsServer, file_a, with_file_a, one_file, one_file-IsServer, find_a, at_a, request_a,
  owned, written, write, written-IsServer, file_w, at_w, find_w, copies, replaced, replace, file_c,
  contended,
}

write-limit_example :
    (written.current_size ≤ written.max_size) × (written.max_size ≡ owned.max_size)
unfolding storage_add_file hash_map_insert hash_map_get storage_create hash_map_create set_flag
    clr_flag storage_update_file string_hash string_compare find_entry write_entry ◌+ℤ◌
write-limit_example = write-limit 7 request_a owned written write

fifo_replace-enough_example :
    (copies : List File) × ((s' : Server) × (storage_fifo_replace 9 written ≡ ok (copies, s'))
      × IsServer s')
unfolding storage_add_file hash_map_insert hash_map_get storage_create hash_map_create set_flag
    clr_flag storage_update_file string_hash string_compare find_entry write_entry ◌+ℤ◌
    write_file_handler write_contents make_room with_file finish update store load lock_access
    unlock_access c_string storage_get_file
fifo_replace-enough_example =
    fifo_replace-enough 9 0 written written-IsServer ((file_w, at_w, find_w, tt), tt) refl
      (ground arith) (ground arith)

remove_file-queued_example : storage_remove_file path_a written ≡ fault
unfolding storage_add_file hash_map_insert hash_map_get storage_create hash_map_create set_flag
    clr_flag storage_update_file string_hash string_compare find_entry write_entry ◌+ℤ◌
    write_file_handler write_contents make_room with_file finish update store load lock_access
    unlock_access c_string storage_get_file
remove_file-queued_example =
    remove_file-queued written-IsServer path_a 0 file_w find_w at_w ((file_w, at_w, find_w), tt)
      refl

remove_file-unqueued_example :
    storage_remove_file path_a one_file ≡ ok (negsuc 0, discounted one_file 0)
unfolding storage_add_file hash_map_insert hash_map_get storage_create hash_map_create set_flag
    clr_flag storage_update_file string_hash string_compare find_entry write_entry ◌+ℤ◌
remove_file-unqueued_example =
    remove_file-unqueued one_file-IsServer path_a 0 file_a find_a at_a tt refl

fifo_replace-room_example :
    ((replaced.current_size + 9) % size_mod ≤ replaced.max_size)
    × (replaced.max_size ≡ written.max_size)
    × ((gone : List Ptr) × (written.fifo_queue ≡ gone ++ replaced.fifo_queue)
        × (length gone ≡ length copies))
fifo_replace-room_example = fifo_replace-room 9 written copies replaced replace

pass-settles_example :
    (s' : Server) × (pass contended ≡ ok (tt, s'))
    × IsServer s'
    × Later contended s'
    × (s'.access ≡ false)
    × All (λ p. (f : File) × (s'.heap p ≡ some f) × (is_settled f ≡ true)) contended.fifo_queue
unfolding storage_add_file hash_map_insert hash_map_get storage_create hash_map_create set_flag
    clr_flag storage_update_file string_hash string_compare find_entry write_entry ◌+ℤ◌
    write_file_handler write_contents make_room with_file finish update store load lock_access
    unlock_access c_string storage_get_file
pass-settles_example =
    pass-settles (touched-IsServer written-IsServer path_a 0 file_w find_w at_w file_c refl) refl (
      (
        file_c,
        refl,
        lookup-touched written-IsServer path_a 0 file_w find_w at_w file_c refl path_a ∙ find_w,
      ),
      tt,
    )

add_file-lookup_example :
    (s' : Server) × (m : HashMap Ptr Ptr) × (storage_add_file 0 with_file_a ≡ ok (pos 0, s'))
    × (s' ≡ record with_file_a {
      storage = record with_file_a.storage {
        files = m;
        no_of_files = with_file_a.no_of_files +ℤ pos 1;
      };
    })
    × ((j : CString)
        → lookup s' j ≡ (if string_compare path_a j then ok (some 0) else lookup with_file_a j))
    × IsServer s'
add_file-lookup_example = add_file-lookup (allocated-IsServer empty-IsServer file_a) 0 file_a refl
