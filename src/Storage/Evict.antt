-- ===== src/Storage/Evict.antt =====
-- `hash_map_remove(files, name)` on the table of files, which empties a bucket.
use file_storage_server.Base.{
  ◌%◌, ◌≡◌, refl, sym, ap, ◌∙◌, ◌≢◌, ◌⊎◌, Bool, true, Option, none, some, [], arith, ◌==◌,
  if◌then◌else◌, inl, inr, Bool-cases, set, length-set, ==_iff,
}
use file_storage_server.Base.Int.{pos, ◌-ℤ◌}
use file_storage_server.Outcome.{ok}
use file_storage_server.Utilities.{CString, string_hash}
use file_storage_server.HashMap.{slot}
use file_storage_server.HashMap.Laws.{remove-get}
use file_storage_server.HashMap.Placed.{emptied-IsPlaced, get-emptied}
use file_storage_server.Storage.{remove_entry}
use file_storage_server.Storage.State.{Ptr, File, Server, env, path_at, write, free}
use file_storage_server.Storage.Table.{lookup, IsServer}

-- Do two names fall into one bucket?
abbrev pub collides : Server → CString → CString → Bool
collides s a b = string_hash a % s.files.n_buckets == string_hash b % s.files.n_buckets

-- The state after the bucket of a name is emptied, with another heap.
abbrev pub forgotten : Server → CString → (Ptr → Option File) → Server
forgotten s name heap = record s {
  storage = record s.storage {
    files = record s.files {
      n_entries = s.files.n_entries -ℤ pos 1;
      buckets = set s.files.buckets (slot (env s.heap) s.files name) [];
    };
  };
  heap = heap;
}

-- The state after the file at `p` leaves the table under `name` and is freed.
abbrev pub evicted : Server → CString → Ptr → Server
evicted s name p = forgotten s name (write s.heap p none)

-- Only files of the name are gone from the heap.
abbrev pub LessOf : Server → CString → (Ptr → Option File) → Type 0
LessOf s name heap =
    (x : Ptr) → (heap x ≡ s.heap x) ⊎ ((heap x ≡ none) × (path_at s.heap x ≡ some name))

module _ {s : Server} (w : IsServer s) (name : CString) (heap : Ptr → Option File)
    (less : LessOf s name heap) where
  -- A key whose bucket is another one is still read.
  agree :
      (x : Ptr) (k : CString)
      → path_at s.heap x ≡ some k
      → slot (env s.heap) s.files k ≢ slot (env s.heap) s.files name
      → path_at heap x ≡ some k
  agree x k r apart = elim (less x) [
    | inl kept ↦ rw (kept, path_at) r
    | inr (_, named) ↦
        let same : k ≡ name = ground (arith, r, named) in
        absurd (apart (ap (slot (env s.heap) s.files) same))
  ]

  pub lookup-forgotten :
      (j : CString)
      → lookup (forgotten s name heap) j ≡ (if collides s name j then ok none else lookup s j)
  lookup-forgotten j =
      get-emptied (env s.heap) (env heap) s.files name w.sized w.placed (λ k. refl) (λ a b. refl)
        agree j

  pub forgotten-IsServer : IsServer (forgotten s name heap)
  forgotten-IsServer = record {
    sized = record {
      some_bucket = w.sized.some_bucket;
      sized = length-set s.files.buckets (slot (env s.heap) s.files name) [] ∙ w.sized.sized;
    };
    placed =
        emptied-IsPlaced (env s.heap) (env heap) s.files name w.sized w.placed (λ k. refl)
          (λ a b. refl) agree;
    named = λ j q e. elim (Bool-cases (collides s name j)) [
      | inl same ↦ absurd (ground (arith, rw same at (lookup-forgotten j), e))
      | inr apart ↦
          let (f, at, n) = w.named j q (sym (rw apart at (lookup-forgotten j)) ∙ e) in
          elim (less q) [
            | inl kept ↦ (f, kept ∙ at, n)
            | inr (_, named) ↦
                let equal : name ≡ j = ground (arith, at, n, named) in
                let both : collides s name j ≡ true =
                  (==_iff _ _).1 (ap (λ x. string_hash x % s.files.n_buckets) equal) in
                absurd (ground (arith, both, apart))
          ]
    ];
    fresh = λ q h. elim (less q) [ inl kept ↦ kept ∙ w.fresh q h | inr (gone, _) ↦ gone ];
  }

-- Where a file is freed, its path is gone, and the others are there.
pub free-fewer :
    (heap : Ptr → Option File) (p q : Ptr)
    → (path_at (write heap p none) q ≡ none) ⊎ (path_at (write heap p none) q ≡ path_at heap q)
free-fewer heap p q = elim (Bool-cases (q == p)) [
  | inl here ↦ inl (rw (here, path_at, write))
  | inr there ↦ inr (rw (there, path_at, write))
]

-- Freeing a file of the name.
pub free-LessOf :
    (s : Server) (name : CString) (p : Ptr)
    → path_at s.heap p ≡ some name
    → LessOf s name (write s.heap p none)
free-LessOf s name p named x = elim (Bool-cases (x == p)) [
  | inl here ↦ let e : x ≡ p = (==_iff x p).0 here in inr (rw here, ap (path_at s.heap) e ∙ named)
  | inr there ↦ inl (rw there)
]

module _ {s : Server} (w : IsServer s) (name : CString) (p : Ptr)
    (found : lookup s name ≡ ok (some p)) where
  pub path-found : path_at s.heap p ≡ some name
  path-found = let (f, at, n) = w.named name p found in rw (at, path_at) (ap some n)

  -- Removing a name that the table knows frees its file and empties its bucket.
  pub remove_entry-evicted : remove_entry name s ≡ ok (pos 0, evicted s name p)
  unfolding remove_entry free
  remove_entry-evicted =
      let (f, at, n) = w.named name p found in
      rw (remove-get (env s.heap) s.files w.sized name p found, remove_entry, at, free)

  pub lookup-evicted :
      (j : CString)
      → lookup (evicted s name p) j ≡ (if collides s name j then ok none else lookup s j)
  lookup-evicted = lookup-forgotten w name (write s.heap p none) (free-LessOf s name p path-found)

  pub evicted-IsServer : IsServer (evicted s name p)
  evicted-IsServer =
      forgotten-IsServer w name (write s.heap p none) (free-LessOf s name p path-found)
