-- ===== src/Storage/Table.antt =====
-- The table of files: what a lookup finds after the operations that change a file or add one.
use file_storage_server.Base.{
  ℕ, suc, ◌*◌, ◌<◌, ◌≤◌, ◌≡◌, refl, sym, ap, get_or, [], ◌∙◌, ◌↔◌, true, Option, none, some, arith,
  ◌==◌, if◌then◌else◌, inl, inr, Bool-cases,
}
use file_storage_server.Base.Int.{pos, ◌+ℤ◌}
use file_storage_server.Outcome.{Outcome, ok}
use file_storage_server.Utilities.{CString, string_compare}
use file_storage_server.Utilities.Strings.{string_compare_refl, eq_of_string_compare}
use file_storage_server.HashMap.{HashMap, hash_map_get}
use file_storage_server.HashMap.Laws.{
  IsSized, create-IsSized, get-create, insert-total, get-insert, insert-IsSized, get_mono,
}
use file_storage_server.HashMap.Placed.{
  IsPlaced, create-IsPlaced, get-total, IsHome-agree, insert-IsPlaced,
}
use file_storage_server.Storage.{storage_create, storage_update_file, storage_add_file}
use file_storage_server.Storage.State.{Ptr, File, Server, path_at, env, write}

-- What the table knows under a name.
abbrev pub lookup : Server → CString → Outcome (Option Ptr)
lookup s name = hash_map_get (env s.heap) s.files name

pub compare_iff : (a b : CString) → (string_compare a b ≡ true) ↔ (a ≡ b)
compare_iff a b = (eq_of_string_compare a b, λ e. rw e (string_compare_refl b))

-- The table has buckets, no lookup follows a dangling pointer, and what it finds under a name is a
-- live file of that name. No address from `next` on is in use.
pub record IsServer (s : Server) : Type 0 where
  pub sized : IsSized s.files
  pub placed : IsPlaced (env s.heap) s.files
  pub named :
      (name : CString) (p : Ptr)
      → lookup s name ≡ ok (some p)
      → (f : File) × (s.heap p ≡ some f) × (f.path ≡ name)
  pub fresh : (p : Ptr) → s.next ≤ p → s.heap p ≡ none

pub lookup-total :
    {s : Server} → IsServer s → (name : CString) → (r : Option Ptr) × (lookup s name ≡ ok r)
lookup-total {s} w name = get-total (env s.heap) s.files name w.sized w.placed

module _ {s : Server} (w : IsServer s) (f : File) where
  -- The state after a new file is allocated.
  abbrev pub allocated : Server
  allocated = record s { heap = write s.heap s.next (some f); next = suc s.next }

  read_more :
      (q : Ptr) (k : CString)
      → path_at s.heap q ≡ some k
      → path_at (write s.heap s.next (some f)) q ≡ some k
  read_more q k h = elim (Bool-cases (q == s.next)) [
    | inl here ↦ absurd (ground (arith, w.fresh q))
    | inr there ↦ rw (there, path_at, write) h
  ]

  pub lookup-allocated :
      (j : CString) (r : Option Ptr) → lookup s j ≡ ok r → lookup allocated j ≡ ok r
  lookup-allocated j r h =
      get_mono (env s.heap) (env (write s.heap s.next (some f))) s.files j r w.sized refl
        (λ a b. refl) read_more h

  pub allocated-IsServer : IsServer allocated
  allocated-IsServer = record {
    sized = w.sized;
    placed = record {
      home = λ i.
          IsHome-agree (env s.heap) (env allocated.heap) s.files.n_buckets i (λ k. refl)
            (λ a b. refl) (λ q k h _. read_more q k h) (get_or s.files.buckets i [])
            (w.placed.home i);
    };
    named = λ j q e.
        let (r, h) = lookup-total w j in
        let same : r ≡ some q = ground (arith, lookup-allocated j r h, e) in
        let (g, at, n) = w.named j q (h ∙ ap ok same) in
        elim (Bool-cases (q == s.next)) [
          | inl here ↦ absurd (ground (arith, at, w.fresh q))
          | inr there ↦ (g, rw there at, n)
        ];
    fresh = λ q h. elim (Bool-cases (q == s.next)) [
      | inl here ↦ absurd (ground (arith, here, h))
      | inr there ↦ rw there (w.fresh q (omega arith))
    ];
  }

module _ {s : Server} (w : IsServer s) (p : Ptr) (f : File) (at : s.heap p ≡ some f) where
  -- In a sound state `storage_update_file` puts a live file into the table under its path.
  pub update_file-lookup :
      (m : HashMap Ptr Ptr) × (storage_update_file p s
        ≡ ok (pos 0, record s { storage = record s.storage { files = m } }))
      × ((j : CString)
          → hash_map_get (env s.heap) m j
            ≡ (if string_compare f.path j then ok (some p) else lookup s j))
      × IsServer (record s { storage = record s.storage { files = m } })
  unfolding storage_update_file
  update_file-lookup =
      let (r, e) = lookup-total w f.path in
      let read : path_at s.heap p ≡ some f.path = rw (at, path_at) in
      let (m, i) = insert-total (env s.heap) s.files w.sized f.path p p r read e in
      let found : (j : CString)
          → hash_map_get (env s.heap) m j
            ≡ (if string_compare f.path j then ok (some p) else lookup s j) =
        λ j. get-insert (env s.heap) s.files w.sized f.path j p p m compare_iff read i in
      (
        m,
        rw (i, storage_update_file),
        found,
        record {
          sized = insert-IsSized (env s.heap) s.files w.sized p p m i;
          placed = insert-IsPlaced (env s.heap) s.files p p f.path m w.sized w.placed read i;
          named = λ j q h. elim (Bool-cases (string_compare f.path j)) [
            | inl hit ↦
                let same : ok (some q) ≡ ok (some p) = rw hit at (sym h ∙ found j) in
                (f, ground (arith, same, at), (compare_iff f.path j).0 hit)
            | inr miss ↦ w.named j q (sym (rw miss at (sym h ∙ found j)))
          ];
          fresh = w.fresh;
        },
      )

  -- In a sound state `storage_add_file` puts a live file into the table under its path, counts it,
  -- and leaves every other lookup and the other fields alone.
  pub add_file-lookup :
      (s' : Server) × (m : HashMap Ptr Ptr) × (storage_add_file p s ≡ ok (pos 0, s'))
      × (s' ≡ record s {
        storage = record s.storage { files = m; no_of_files = s.no_of_files +ℤ pos 1 };
      })
      × ((j : CString)
          → lookup s' j ≡ (if string_compare f.path j then ok (some p) else lookup s j))
      × IsServer s'
  unfolding storage_add_file
  add_file-lookup =
      let (m, run, found, w') = update_file-lookup in
      (
        record s { storage = record s.storage { files = m; no_of_files = s.no_of_files +ℤ pos 1 } },
        m,
        rw (run, storage_add_file),
        refl,
        found,
        record { sized = w'.sized; placed = w'.placed; named = w'.named; fresh = w'.fresh },
      )

-- The server before the first request.
abbrev pub started : ℕ → ℕ → Server
started max_size max_files = record {
  storage = storage_create max_size max_files;
  heap = λ p. none;
  next = 0;
  sent = [];
}

pub started-IsServer :
    (max_size max_files : ℕ) → 0 < max_files → IsServer (started max_size max_files)
unfolding storage_create
started-IsServer max_size max_files some_files = record {
  sized = create-IsSized (max_files * 2) (omega (arith, some_files));
  placed = create-IsPlaced (env λ p. none) (max_files * 2);
  named = λ name p e.
      let miss =
        get-create {V = Ptr} (env λ p. none) (max_files * 2) name (omega (arith, some_files)) in
      absurd (ground (arith, miss, e));
  fresh = λ p h. refl;
}
