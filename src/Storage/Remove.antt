-- ===== src/Storage/Remove.antt =====
-- `storage_remove_file`.
use file_storage_server.Base.{
  ℕ, ◌≡◌, refl, ◌⊎◌, Bool, true, false, ◌||◌, none, some, List, [], ◌∷◌, arith, ◌==◌, All, inl, inr,
  Bool-cases, get_or,
}
use file_storage_server.Base.Int.{pos, negsuc, ◌-ℤ◌}
use file_storage_server.Outcome.{ok, fault, Outcome-cases}
use file_storage_server.Utilities.{CString, string_compare}
use file_storage_server.HashMap.{slot, hash_map_remove, find_entry, Entry}
use file_storage_server.HashMap.Chain.{find_entry-dead}
use file_storage_server.HashMap.Laws.{get-eq-find}
use file_storage_server.Storage.{remove_path, size_sub, remove_entry, storage_remove_file}
use file_storage_server.Storage.State.{Ptr, File, Server, env, path_at, write, free}
use file_storage_server.Storage.Table.{lookup, compare_iff, IsServer}
use file_storage_server.Storage.Touch.{path-lookup}
use file_storage_server.Storage.Evict.{free-fewer}

-- Is the pointer in the queue?
abbrev pub queued : Ptr → List Ptr → Bool
queued p [] = false
queued p (q ∷ queue) = (q == p) || queued p queue

-- Every queued pointer is a live file that the table knows under its path.
abbrev pub IsQueue : Server → List Ptr → Type 0
IsQueue s = All (λ p. (f : File) × (s.heap p ≡ some f) × (lookup s f.path ≡ ok (some p)))

-- The state after `storage_remove_file` has counted a file as gone.
abbrev pub discounted : Server → ℕ → Server
discounted s size = record s {
  storage = record s.storage {
    current_size = size_sub s.current_size size;
    no_of_files = s.no_of_files -ℤ pos 1;
  };
}

module _ {s : Server} (w : IsServer s) (name : CString) (p : Ptr) (f : File)
    (found : lookup s name ≡ ok (some p)) (at : s.heap p ≡ some f) where
  remove_path-queued :
      (queue : List Ptr)
      → IsQueue s queue
      → ((queued p queue ≡ false) × (remove_path (path_at s.heap) queue name ≡ ok none))
        ⊎ ((queued p queue ≡ true)
            × ((rest : List Ptr) × (remove_path (path_at s.heap) queue name ≡ ok (some (p, rest)))))
  unfolding remove_path
  remove_path-queued [] h = inl (refl, refl)
  remove_path-queued (q ∷ queue) h =
      let (g, at', known) = h.0 in
      elim (Bool-cases (string_compare g.path name)) [
        | inl hit ↦
            let same : g.path ≡ name = (compare_iff g.path name).0 hit in
            let one : q ≡ p = ground (arith, known, found, same) in
            inr (ground (arith, one), (queue, ground (arith, at', hit, one)))
        | inr miss ↦
            let named : f.path ≡ name = path-lookup w name p f found at in
            let other : (q == p) ≡ false =
              ground (arith, at', at, named, miss, compare_iff g.path name) in
            elim (remove_path-queued queue h.1) [
              | inl (out, e) ↦ inl (ground (arith, other, out), ground (arith, at', miss, e))
              | inr (is, (rest, e)) ↦
                  inr (ground (arith, is), (q ∷ rest, ground (arith, at', miss, e)))
            ]
      ]

  -- In a sound state in which every queued file is live and is the one that the table has under its
  -- path, for a file that is in the table but not in the queue, as one that was created and never
  -- written: `storage_remove_file` counts it as gone, returns -1, and leaves it in the table.
  pub remove_file-unqueued :
      IsQueue s s.fifo_queue
      → queued p s.fifo_queue ≡ false
      → storage_remove_file name s ≡ ok (negsuc 0, discounted s f.size)
  unfolding storage_remove_file
  remove_file-unqueued q out = elim (remove_path-queued s.fifo_queue q) [
    | inl (_, e) ↦ ground (arith, found, at, e)
    | inr (is, _) ↦ absurd (ground (arith, is, out))
  ]

  -- Once the file is freed, its removal from the table is undefined.
  remove_entry-freed :
      (t : Server) → t.files ≡ s.files → t.heap ≡ write s.heap p none → remove_entry name t ≡ fault
  unfolding remove_entry hash_map_remove free
  remove_entry-freed t files heap = elim (Outcome-cases (find_entry (env s.heap) chain name)) [
    | inr other ↦ absurd (ground (arith, found, get-eq-find (env s.heap) s.files w.sized name))
    | inl (none, e) ↦ absurd (ground (arith, found, get-eq-find (env s.heap) s.files w.sized name))
    | inl (some x, e) ↦
        let value : x.value ≡ p =
          ground (arith, found, get-eq-find (env s.heap) s.files w.sized name) in
        let gone : write s.heap p none p ≡ none = ground arith in
        rw (files, heap, w.sized.some_bucket, remove_entry)
          (elim (find_entry-dead (env s.heap) (env (write s.heap p none)) (λ a b. refl)
            (free-fewer s.heap p) chain name x e) [
              | inl dead ↦ rw dead
              | inr again ↦ rw (again, value, free, heap, gone)
            ])
  ]
    where
      chain : List (Entry Ptr Ptr)
      chain = get_or s.files.buckets (slot (env s.heap) s.files name) []

  -- In a sound state in which every queued file is live and is the one that the table has under its
  -- path, for a file that is in the table and in the queue: the queue frees it, and the removal from
  -- the table reads it or frees it once more, which is undefined.
  pub remove_file-queued :
      IsQueue s s.fifo_queue → queued p s.fifo_queue ≡ true → storage_remove_file name s ≡ fault
  unfolding storage_remove_file
  remove_file-queued q is = elim (remove_path-queued s.fifo_queue q) [
    | inl (out, _) ↦ absurd (ground (arith, is, out))
    | inr (_, (rest, e)) ↦ ground (arith, found, at, e, remove_entry-freed (dropped rest) refl refl)
  ]
    where
      dropped : List Ptr → Server
      dropped rest = record s {
        storage = record s.storage {
          current_size = size_sub s.current_size f.size;
          no_of_files = s.no_of_files -ℤ pos 1;
          fifo_queue = rest;
        };
        heap = write s.heap p none;
      }
