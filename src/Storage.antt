-- ===== src/Storage.antt =====
-- server/storage.h and server/storage.c: the files in memory. A `file_t` stands at an address of
-- the heap; the table `files` and the queue `fifo_queue` hold that address, since `file->path` is
-- the first field. A freed address is never handed out again, so each use after a free is a
-- `fault`. The queue and the lists of waiting clients are sequences, which `LinkedList` implements.
-- `sent` is what the server has sent, in order. Allocation is taken to succeed.
pub mod State
pub mod Table
pub mod Touch
pub mod Replace
pub mod Evict
pub mod Remove
pub mod Enough
pub mod Sound
pub mod Drop
pub mod Destroy
use file_storage_server.Base.{
  ℕ, ◌+◌, ◌-◌, ◌*◌, ◌%◌, Bool, true, false, Option, none, some, List, [], ◌∷◌, ltb, leb, ◌==◌,
  if◌then◌else◌, length,
}
use file_storage_server.Base.Int.{ℤ, pos, negsuc, ◌+ℤ◌, ◌-ℤ◌}
use file_storage_server.Outcome.{
  Outcome, ok, fault, blocked, and_then, Cmd, pure, ◌>>=◌, ◌>>◌, lift,
}
use file_storage_server.Utilities.{CString, string_compare, size_mod}
use file_storage_server.Utilities.Flags.{o_create, set_flag}
use file_storage_server.HashMap.{hash_map_create, hash_map_get, hash_map_insert, hash_map_remove}
use file_storage_server.Protocol.{max_path}
use State.{Ptr, File, Storage, Server, env, path_at, load, store, free, alloc, with_storage}

-- The bound on the files and the number of buckets are taken to fit an `int`.
unfoldable pub storage_create : ℕ → ℕ → Storage
storage_create max_size max_files = record {
  max_size = max_size;
  current_size = 0;
  max_files = pos max_files;
  no_of_files = pos 0;
  files = hash_map_create (max_files * 2);
  fifo_queue = [];
  access = false;
}

-- `strcpy` into `char path[MAX_PATH]` writes past its end if the name does not fit.
unfoldable pub storage_create_file : CString → Cmd Server Ptr
storage_create_file file_name =
    if leb max_path (length file_name)
    then (λ s. fault)
    else alloc (record {
      path = file_name;
      flags = set_flag 0 o_create;
      size = 0;
      contents = [];
      locked_by = negsuc 0;
      waiting_on_lock = [];
    })

unfoldable pub storage_get_file : CString → Cmd Server (Option Ptr)
storage_get_file name s = lift (hash_map_get (env s.heap) s.files name) s

-- `hash_map_insert(storage->files, file->path, file)`
unfoldable pub storage_update_file : Ptr → Cmd Server ℤ
storage_update_file file s =
    and_then (hash_map_insert (env s.heap) s.files file file)
      (λ m. ok (pos 0, record s { storage = record s.storage { files = m } }))

unfoldable pub storage_add_file : Ptr → Cmd Server ℤ
unfolding storage_update_file
storage_add_file file = do
  storage_update_file file
  with_storage (λ st. record st { no_of_files = st.no_of_files +ℤ pos 1 })
  pure (pos 0)

-- `list_remove_element(fifo_queue, file_name)`: each pointer that is compared is followed.
unfoldable pub remove_path :
    (Ptr → Option CString) → List Ptr → CString → Outcome (Option (Ptr × List Ptr))
remove_path read [] name = ok none
remove_path read (p ∷ queue) name =
    let more : Outcome (Option (Ptr × List Ptr)) =
      and_then (remove_path read queue name)
        (λ r. elim r [ none ↦ ok none | some (q, rest) ↦ ok (some (q, p ∷ rest)) ]) in
    elim (read p) [
      | none ↦ fault
      | some path ↦ if string_compare path name then ok (some (p, queue)) else more
    ]

-- `current_size - size` of two `size_t`.
abbrev pub size_sub : ℕ → ℕ → ℕ
size_sub a b = (a + size_mod - b) % size_mod

-- `hash_map_remove(files, name)`, which frees the file through `free_file`.
unfoldable pub remove_entry : CString → Cmd Server ℤ
unfolding free
remove_entry name s = and_then (hash_map_remove (env s.heap) s.files name) (λ r. elim r.0 [
  | none ↦ ok (negsuc 0, s)
  | some file ↦
      and_then (free file (record s { storage = record s.storage { files = r.1 } }))
        (λ q. ok (pos 0, q.1))
])

-- The second half of `storage_remove_file`. The queue frees the string that it drops with
-- `free_string`, and that string is the file itself.
unfoldable pub drop_file : CString → Cmd Server ℤ
unfolding remove_path remove_entry free
drop_file name s = and_then (remove_path (path_at s.heap) s.fifo_queue name) (λ r. elim r [
  | none ↦ ok (negsuc 0, s)
  | some (p, queue) ↦
      and_then (free p (record s { storage = record s.storage { fifo_queue = queue } }))
        (λ q. remove_entry name q.1)
])

unfoldable pub storage_remove_file : CString → Cmd Server ℤ
unfolding storage_get_file drop_file load
storage_remove_file name = do
  found ← storage_get_file name
  elim found [
    | none ↦ pure (negsuc 0)
    | some to_remove ↦ do
      f ← load to_remove
      with_storage (λ st. record st {
        current_size = size_sub st.current_size f.size;
        no_of_files = st.no_of_files -ℤ pos 1;
      })
      drop_file name
  ]

-- `current_size + required_size > max_size`, in `size_t`.
abbrev pub is_over : ℕ → Server → Bool
is_over required s = ltb s.max_size ((s.current_size + required) % size_mod)

-- What `calloc` and the three copies give: the other fields are zero.
abbrev pub copy_of : File → File
copy_of f = record {
  path = f.path;
  flags = 0;
  size = f.size;
  contents = f.contents;
  locked_by = pos 0;
  waiting_on_lock = [];
}

-- One round of the loop in `storage_FIFO_replace`, for the pointer that was dequeued. A path that
-- the table does not know gives NULL, which the round reads through.
unfoldable pub expel : Ptr → Cmd Server File
unfolding load storage_get_file remove_entry
expel removed_file_path = do
  queued ← load removed_file_path
  found ← storage_get_file queued.path
  elim found [
    | none ↦ (λ s. fault)
    | some to_remove ↦ do
      f ← load to_remove
      with_storage (λ st. record st {
        current_size = size_sub st.current_size f.size;
        no_of_files = st.no_of_files -ℤ pos 1;
      })
      remove_entry f.path
      pure (copy_of f)
  ]

-- The loop, on the queue that is left. An empty queue gives NULL: if bucket 0 holds an entry,
-- `strcmp` reads through it, and if not, the round reads through the NULL that the table returns.
unfoldable pub replace_loop : List Ptr → ℕ → Server → Outcome (List File × Server)
unfolding expel
replace_loop [] required s = if is_over required s then fault else ok ([], s)
replace_loop (p ∷ queue) required s =
    let round : Outcome (List File × Server) =
      and_then (expel p (record s { storage = record s.storage { fifo_queue = queue } }))
        (λ e. and_then (replace_loop queue required e.1) (λ r. ok (e.0 ∷ r.0, r.1))) in
    if is_over required s then round else ok ([], s)

-- `storage_FIFO_replace`: the copies of the files that had to go, oldest first. It returns their
-- number, and does not read `how_many`.
unfoldable pub storage_fifo_replace : ℕ → Server → Outcome (List File × Server)
unfolding replace_loop
storage_fifo_replace required s = replace_loop s.fifo_queue required s

-- `list_destroy` or `hash_map_destroy` with `free_file`.
unfoldable pub free_all : List Ptr → Cmd Server (Unit {0})
unfolding free
free_all [] = pure tt
free_all (p ∷ files) = do free p; free_all files
