-- ===== src/Storage/Touch.antt =====
-- A file of the table that is changed in place.
use file_storage_server.Base.{
  ◌≡◌, sym, ap, ◌∙◌, fun_ext, Option, some, arith, ◌==◌, inl, inr, Bool-cases, ==_iff,
}
use file_storage_server.Base.Int.{pos, ◌+ℤ◌}
use file_storage_server.Outcome.{ok}
use file_storage_server.Utilities.{CString}
use file_storage_server.HashMap.{hash_map_get}
use file_storage_server.HashMap.Laws.{insert-get}
use file_storage_server.Storage.{storage_update_file}
use file_storage_server.Storage.State.{Ptr, File, Server, path_at, env, write}
use file_storage_server.Storage.Table.{lookup, IsServer}

-- The state after a file is changed in place and `storage_update_file` is called on it.
abbrev pub touched : Server → Ptr → File → Server
touched s p f = record s {
  storage = record s.storage { files = record s.files { n_entries = s.files.n_entries +ℤ pos 1 } };
  heap = write s.heap p (some f);
}

path_at-write :
    (heap : Ptr → Option File) (p : Ptr) (f f' : File)
    → heap p ≡ some f
    → f'.path ≡ f.path
    → path_at (write heap p (some f')) ≡ path_at heap
path_at-write heap p f f' e same = fun_ext λ q. elim (Bool-cases (q == p)) [
  | inl here ↦
      let at : path_at heap p ≡ some f.path = rw (e, path_at) in
      rw (here, path_at, write)
        (ap some same ∙ sym at ∙ ap (path_at heap) (sym ((==_iff q p).0 here)))
  | inr there ↦ rw (there, path_at, write)
]

-- A change of a live file in place that keeps its path.
pub stored-IsServer :
    {s : Server}
    → IsServer s
    → (p : Ptr) (f : File) → s.heap p ≡ some f
    → (f' : File) → f'.path ≡ f.path
    → IsServer (record s { heap = write s.heap p (some f') })
unfolding hash_map_get
stored-IsServer {s} w p f at f' same = record {
  sized = w.sized;
  placed = record { home = λ i. rw (path_at-write s.heap p f f' at same) (w.placed.home i) };
  named = λ j q e.
      let (g, at', n) = w.named j q (rw (path_at-write s.heap p f f' at same) at e) in
      elim (Bool-cases (q == p)) [
        | inl here ↦
            let one : q ≡ p = (==_iff q p).0 here in
            (f', rw here, same ∙ ground (arith, at, at', n, one))
        | inr there ↦ (g, rw there at', n)
      ];
  fresh = λ q h. elim (Bool-cases (q == p)) [
    | inl here ↦ absurd (ground (arith, at, w.fresh q h, (==_iff q p).0 here))
    | inr there ↦ rw there (w.fresh q h)
  ];
}

module _ {s : Server} (w : IsServer s) (name : CString) (p : Ptr) (f : File)
    (found : lookup s name ≡ ok (some p)) (at : s.heap p ≡ some f) where
  pub path-lookup : f.path ≡ name
  path-lookup = let (g, e, n) = w.named name p found in ground (arith, e, at, n)

  -- A change of a file that keeps its path leaves every lookup alone.
  pub lookup-touched :
      (f' : File) → f'.path ≡ f.path → (j : CString) → lookup (touched s p f') j ≡ lookup s j
  unfolding hash_map_get
  lookup-touched f' same j = rw (path_at-write s.heap p f f' at same)

  pub touched-IsServer : (f' : File) → f'.path ≡ f.path → IsServer (touched s p f')
  unfolding hash_map_get
  touched-IsServer f' same =
      let w' = stored-IsServer w p f at f' same in
      record {
        sized = record { some_bucket = w.sized.some_bucket; sized = w.sized.sized };
        placed = record { home = w'.placed.home };
        named = w'.named;
        fresh = w'.fresh;
      }

  -- Storing the file and putting it into the table again ends in `touched`.
  pub update-touched :
      (f' : File)
      → f'.path ≡ f.path
      → storage_update_file p (record s { heap = write s.heap p (some f') })
        ≡ ok (pos 0, touched s p f')
  unfolding storage_update_file
  update-touched f' same =
      let h : path_at (write s.heap p (some f')) ≡ path_at s.heap =
        path_at-write s.heap p f f' at same in
      let read : path_at s.heap p ≡ some name = rw (at, path_at) (ap some path-lookup) in
      rw (h, insert-get (env s.heap) s.files w.sized name p p read found, storage_update_file)
