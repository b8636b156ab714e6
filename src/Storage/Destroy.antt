-- ===== src/Storage/Destroy.antt =====
-- `storage_destroy` of server/storage.c. The table frees its files with `free_file`, and the queue frees
-- its strings with `free_string`; a queued string is a file.
use file_storage_server.Base.{
  ℕ, ◌*◌, ◌≡◌, refl, sym, ◌⊎◌, none, some, List, [], ◌∷◌, IsIn, here, there, arith, inl, inr,
  Option-cases, subst,
}
use file_storage_server.Base.Int.{ℤ, pos}
use file_storage_server.Outcome.{ok, fault, Cmd, pure, ◌>>=◌, ◌>>◌, lift}
use file_storage_server.Utilities.{CString}
use file_storage_server.HashMap.{hash_map_destroy}
use file_storage_server.HashMap.Whole.{destroy-get, destroy-create}
use file_storage_server.Storage.{storage_create, free_all}
use file_storage_server.Storage.State.{Ptr, Server, env, write, free}
use file_storage_server.Storage.Table.{lookup, IsServer, started}

-- What is left when the storage itself is freed is not looked at any more.
unfoldable pub storage_destroy : Cmd Server ℤ
unfolding free_all hash_map_destroy
storage_destroy = do
  files ← λ s. lift (hash_map_destroy s.files) s
  free_all files
  (λ s. free_all s.fifo_queue s)
  pure (pos 0)

free-write :
    (p : Ptr) (s : Server)
    → (free p s ≡ fault) ⊎ (free p s ≡ ok (tt, record s { heap = write s.heap p none }))
unfolding free
free-write p s = elim (Option-cases (s.heap p)) [
  | inl gone ↦ inl (rw (gone, free) refl)
  | inr (f, at) ↦ inr (rw (at, free) refl)
]

-- A file that is gone stays gone, and to free it again is undefined.
free_all-gone :
    (files : List Ptr) (p : Ptr) (s : Server)
    → s.heap p ≡ none
    → IsIn p files
    → free_all files s ≡ fault
unfolding free_all free
free_all-gone [] p s gone m = elim m [ ]
free_all-gone (q ∷ files) p s gone here =
    let e : free p s ≡ fault = ground (arith, gone) in rw e refl
free_all-gone (q ∷ files) p s gone (there m) = elim (free-write q s) [
  | inl e ↦ rw e refl
  | inr e ↦
      rw e
        (free_all-gone files p (record s { heap = write s.heap q none }) (ground (arith, gone)) m)
]

-- `free_all` faults, or frees each file and leaves the queue as it is.
free_all-cases :
    (files : List Ptr) (s : Server)
    → (free_all files s ≡ fault)
      ⊎ ((t : Server) × (free_all files s ≡ ok (tt, t))
          × (t.fifo_queue ≡ s.fifo_queue)
          × ((p : Ptr) → (s.heap p ≡ none) ⊎ IsIn p files → t.heap p ≡ none))
unfolding free_all
free_all-cases [] s = inr (s, refl, refl, λ p h. elim h [ inl gone ↦ gone | inr m ↦ elim m [ ] ])
free_all-cases (q ∷ files) s = elim (free-write q s) [
  | inl e ↦ inl (rw e refl)
  | inr e ↦ elim (free_all-cases files (record s { heap = write s.heap q none })) [
    | inl e' ↦ inl (rw e e')
    | inr (t, e', same, all) ↦ inr (t, rw e e', same, λ p h. all p (first p h))
  ]
]
  where
    first :
        (p : Ptr)
        → (s.heap p ≡ none) ⊎ IsIn p (q ∷ files)
        → (write s.heap q none p ≡ none) ⊎ IsIn p files
    first p (inl gone) = inl (ground (arith, gone))
    first p (inr here) = inl (ground arith)
    first p (inr (there m)) = inr m

-- In a sound state with a file that is in the table and in the queue, `storage_destroy` is undefined:
-- it frees the file twice.
pub storage_destroy-queued :
    (s : Server) (name : CString) (p : Ptr)
    → IsServer s
    → lookup s name ≡ ok (some p)
    → IsIn p s.fifo_queue
    → storage_destroy s ≡ fault
unfolding storage_destroy
storage_destroy-queued s name p w found m =
    let (files, run, stored) = destroy-get (env s.heap) s.files name p w.sized found in
    elim (free_all-cases files s) [
      | inl e ↦ rw (run, e) refl
      | inr (t, e, same, all) ↦
          let again : free_all t.fifo_queue t ≡ fault =
            free_all-gone t.fifo_queue p t (all p (inr stored)) (subst (IsIn p) (sym same) m) in
          rw (run, e, again) refl
    ]

-- A storage that no file was added to is freed without a fault.
pub storage_destroy-started :
    (max_size max_files : ℕ)
    → storage_destroy (started max_size max_files) ≡ ok (pos 0, started max_size max_files)
unfolding storage_destroy free_all storage_create
storage_destroy-started max_size max_files = rw (destroy-create Ptr Ptr (max_files * 2)) refl
