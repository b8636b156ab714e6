-- ===== src/Storage/Drop.antt =====
-- Files that leave the storage from a sound state: whatever the calls return, they leave it sound.
use file_storage_server.Base.{
  ℕ, ◌≡◌, refl, sym, ap, ◌∙◌, ◌⊎◌, Option, none, some, List, [], ◌∷◌, arith, ◌==◌, ==_iff, inl, inr,
  Bool-cases, Option-cases, get_or, subst,
}
use file_storage_server.Base.Int.{ℤ, pos}
use file_storage_server.Outcome.{ok, fault, and_then, Outcome-cases}
use file_storage_server.Utilities.{CString, string_compare}
use file_storage_server.HashMap.{slot, hash_map_remove, find_entry}
use file_storage_server.HashMap.Chain.{find_entry-dead}
use file_storage_server.HashMap.Laws.{get-eq-find}
use file_storage_server.Storage.{
  remove_path, remove_entry, drop_file, storage_remove_file, expel, replace_loop,
  storage_fifo_replace, is_over,
}
use file_storage_server.Storage.State.{Ptr, File, Storage, Server, env, path_at, write, free}
use file_storage_server.Storage.Table.{lookup, compare_iff, IsServer}
use file_storage_server.Storage.Evict.{
  LessOf, forgotten, forgotten-IsServer, path-found, free-LessOf,
}
use file_storage_server.Storage.Touch.{path-lookup}
use file_storage_server.Storage.Remove.{discounted}
use file_storage_server.Storage.Sound.{
  Sound, then-Sound, if-Sound, KeepsServer, load-Sound, get_file-Sound,
}

-- The path that leaves the queue is the one that was asked for.
remove_path-named :
    (read : Ptr → Option CString) (queue : List Ptr) (name : CString) (p : Ptr) (rest : List Ptr)
    → remove_path read queue name ≡ ok (some (p, rest))
    → read p ≡ some name
unfolding remove_path
remove_path-named read [] name p rest h = absurd (ground (arith, h))
remove_path-named read (q ∷ queue) name p rest h = elim (Option-cases (read q)) [
  | inl gone ↦ absurd (ground (arith, gone, h))
  | inr (path, e) ↦ elim (Bool-cases (string_compare path name)) [
    | inl hit ↦
        let one : q ≡ p = ground (arith, e, hit, h) in
        let same : path ≡ name = (compare_iff path name).0 hit in
        ap read (sym one) ∙ e ∙ ap some same
    | inr miss ↦ elim (Outcome-cases (remove_path read queue name)) [
      | inl (none, more) ↦ absurd (ground (arith, e, miss, more, h))
      | inl (some (q', rest'), more) ↦
          let one : q' ≡ p = ground (arith, e, miss, more, h) in
          remove_path-named read queue name p rest' (more ∙ ap (λ x. ok (some (x, rest'))) one)
      | inr other ↦ absurd (ground (arith, e, miss, other, h))
    ]
  ]
]

module _ {s : Server} (w : IsServer s) (name : CString) (p : Ptr)
    (found : lookup s name ≡ ok (some p)) (st : Storage) (heap : Ptr → Option File)
    (less : LessOf s name heap) where
  -- The state in which the entry is removed.
  abbrev left : Server
  left = record s { storage = record st { files = s.files }; heap = heap }

  free_more : LessOf s name (write heap p none)
  free_more x = elim (Bool-cases (x == p)) [
    | inl here ↦
        let one : x ≡ p = (==_iff x p).0 here in
        inr (rw here, ap (path_at s.heap) one ∙ path-found w name p found)
    | inr there ↦ elim (less x) [
      | inl kept ↦ inl (rw there kept)
      | inr (gone, named) ↦ inr (rw there gone, named)
    ]
  ]

  freed-Sound : (r : ℤ) → Sound (and_then (free p (forgotten left name heap)) (λ q. ok (r, q.1)))
  unfolding free
  freed-Sound r = elim (Option-cases (heap p)) [
    | inl gone ↦ rw (gone, free) tt
    | inr (f, at) ↦
        let w' = forgotten-IsServer w name (write heap p none) free_more in
        rw (at, free)
          (record { sized = w'.sized; placed = w'.placed; named = w'.named; fresh = w'.fresh })
  ]

  -- Pointers to the name may have died before its entry is removed: the walk along the bucket then
  -- faults, or finds the same entry.
  pub remove_entry-Sound : Sound (remove_entry name left)
  unfolding remove_entry hash_map_remove
  remove_entry-Sound =
      let chain = get_or s.files.buckets (slot (env s.heap) s.files name) [] in
      elim (Outcome-cases (find_entry (env s.heap) chain name)) [
        | inr other ↦ absurd (ground (arith, found, get-eq-find (env s.heap) s.files w.sized name))
        | inl (none, e) ↦
            absurd (ground (arith, found, get-eq-find (env s.heap) s.files w.sized name))
        | inl (some x, e) ↦
            let value : x.value ≡ p =
              ground (arith, found, get-eq-find (env s.heap) s.files w.sized name) in
            elim (find_entry-dead (env s.heap) (env heap) (λ a b. refl) fewer chain name x e) [
              | inl dead ↦ rw (w.sized.some_bucket, dead) tt
              | inr again ↦
                  rw (w.sized.some_bucket, again)
                    (subst
                      (λ q.
                        Sound (and_then (free q (forgotten left name heap)) (λ r. ok (pos 0, r.1))))
                      (sym value) (freed-Sound (pos 0)))
            ]
      ]
    where
      fewer : (q : Ptr) → (path_at heap q ≡ none) ⊎ (path_at heap q ≡ path_at s.heap q)
      fewer q = elim (less q) [
        | inl kept ↦ inr (rw (kept, path_at))
        | inr (gone, _) ↦ inl (rw (gone, path_at))
      ]

-- What the heap holds under a path.
held_path :
    (heap : Ptr → Option File) (p : Ptr) (name : CString)
    → path_at heap p ≡ some name
    → (f : File) × (heap p ≡ some f)
held_path heap p name h = elim (Option-cases (heap p)) [
  | inl gone ↦ absurd (ground (arith, gone, h))
  | inr (f, at) ↦ (f, at)
]

drop_file-Sound :
    {s : Server}
    → IsServer s
    → (name : CString) (p : Ptr) → lookup s name ≡ ok (some p)
    → (size : ℕ) → Sound (drop_file name (discounted s size))
unfolding drop_file
drop_file-Sound {s} w name p found size =
    elim (Outcome-cases (remove_path (path_at s.heap) s.fifo_queue name)) [
      | inr (inl e) ↦ rw e tt
      | inr (inr e) ↦ rw e tt
      | inl (none, e) ↦
          rw e (record { sized = w.sized; placed = w.placed; named = w.named; fresh = w.fresh })
      | inl (some (q, rest), e) ↦
          let named = remove_path-named (path_at s.heap) s.fifo_queue name q rest e in
          let (f, at) = held_path s.heap q name named in
          rw (e, at, free)
            (remove_entry-Sound w name p found
              (record (discounted s size).storage { fifo_queue = rest }) (write s.heap q none)
              (free-LessOf s name q named))
    ]

pub storage_remove_file-KeepsServer : (name : CString) → KeepsServer (storage_remove_file name)
unfolding storage_remove_file
storage_remove_file-KeepsServer name s w =
    get_file-Sound name _ s w w
      λ p found. load-Sound p _ s λ f at. drop_file-Sound w name p found f.size

pub expel-KeepsServer : (p : Ptr) → KeepsServer (expel p)
unfolding expel
expel-KeepsServer p s w = load-Sound p _ s λ queued at.
    get_file-Sound queued.path _ s w tt λ to_remove found. load-Sound to_remove _ s λ f at'.
      let known : lookup s f.path ≡ ok (some to_remove) =
        ap (lookup s) (path-lookup w queued.path to_remove f found at') ∙ found in
      then-Sound _ _
        (remove_entry-Sound w f.path to_remove known (discounted s f.size).storage s.heap
          (λ x. inl refl))
        λ r w'. w'

pub replace_loop-KeepsServer :
    (queue : List Ptr) (required : ℕ) → KeepsServer (replace_loop queue required)
unfolding replace_loop
replace_loop-KeepsServer [] required s w = if-Sound (is_over required s) fault (ok ([], s)) tt w
replace_loop-KeepsServer (p ∷ queue) required s w =
    let w' : IsServer (record s { storage = record s.storage { fifo_queue = queue } }) = record {
      sized = w.sized;
      placed = w.placed;
      named = w.named;
      fresh = w.fresh;
    } in
    if-Sound (is_over required s) _ (ok ([], s))
      (then-Sound _ _ (expel-KeepsServer p _ w')
        λ e h. then-Sound _ _ (replace_loop-KeepsServer queue required e.1 h) λ r h'. h')
      w

pub fifo_replace-KeepsServer : (required : ℕ) → KeepsServer (storage_fifo_replace required)
unfolding storage_fifo_replace
fifo_replace-KeepsServer required s = replace_loop-KeepsServer s.fifo_queue required s
