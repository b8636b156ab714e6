-- ===== src/Storage/Enough.antt =====
-- `storage_FIFO_replace` succeeds when the queued files can make the room.
use file_storage_server.Base.{
  ℕ, ◌+◌, ◌%◌, ◌≤◌, ◌<◌, ◌≡◌, refl, sym, ap, ◌∙◌, true, false, Option, none, some, List, [], ◌∷◌,
  arith, ◌==◌, All, inl, inr, Bool-cases, ==_iff,
}
use file_storage_server.Outcome.{ok}
use file_storage_server.Utilities.{size_mod, string_hash}
use file_storage_server.Storage.{
  size_sub, is_over, copy_of, expel, replace_loop, storage_fifo_replace, storage_get_file,
}
use file_storage_server.Storage.State.{Ptr, File, Server, load}
use file_storage_server.Storage.Table.{lookup, IsServer}
use file_storage_server.Storage.Evict.{
  collides, evicted, remove_entry-evicted, lookup-evicted, evicted-IsServer,
}
use file_storage_server.Storage.Remove.{discounted}

-- The queued files are in the table, and no two of them share a bucket of it.
abbrev pub Evictable : Server → List Ptr → Type 0
Evictable s [] = Unit {0}
Evictable s (p ∷ queue) =
    ((f : File) × (s.heap p ≡ some f)
      × (lookup s f.path ≡ ok (some p))
      × All (λ q. (g : File) × (s.heap q ≡ some g) × (collides s f.path g.path ≡ false)) queue)
    × Evictable s queue

abbrev pub queued_size : (Ptr → Option File) → List Ptr → ℕ
queued_size heap [] = 0
queued_size heap (p ∷ queue) =
    (elim (heap p) [ none ↦ 0 | some f ↦ f.size ]) + queued_size heap queue

-- The state after one round: the queue has moved on, the file is discounted and gone.
abbrev pub after_round : Server → List Ptr → Ptr → File → Server
after_round s queue p f =
    evicted (discounted (record s { storage = record s.storage { fifo_queue = queue } }) f.size)
      f.path p

module _ {s : Server} (w : IsServer s) (queue : List Ptr) (p : Ptr) (f : File)
    (at : s.heap p ≡ some f) (known : lookup s f.path ≡ ok (some p)) where
  -- The table is that of `s` until the file leaves it.
  start : Server
  start = discounted (record s { storage = record s.storage { fifo_queue = queue } }) f.size

  start-IsServer : IsServer start
  unfolding start
  start-IsServer = record { sized = w.sized; placed = w.placed; named = w.named; fresh = w.fresh }

  expel-after_round :
      expel p (record s { storage = record s.storage { fifo_queue = queue } })
      ≡ ok (copy_of f, after_round s queue p f)
  unfolding expel storage_get_file load start
  expel-after_round = ground (arith, at, known, remove_entry-evicted start-IsServer f.path p known)

  after_round-IsServer : IsServer (after_round s queue p f)
  unfolding start
  after_round-IsServer = evicted-IsServer start-IsServer f.path p known

  -- The files that do not share the bucket of the one that leaves are still there.
  Apart : File → Ptr → Type 0
  Apart g q = (h : File) × (s.heap q ≡ some h) × (collides s g.path h.path ≡ false)

  kept-heap : (q : Ptr) → Apart f q → (after_round s queue p f).heap q ≡ s.heap q
  unfolding Apart
  kept-heap q (h, at', apart) = elim (Bool-cases (q == p)) [
    | inl here ↦
        let same : q ≡ p = (==_iff q p).0 here in
        let equal : f ≡ h = ground (arith, same, at, at') in
        let both : collides s f.path h.path ≡ true =
          (==_iff _ _).1 (ap (λ x. string_hash x.path % s.files.n_buckets) equal) in
        absurd (ground (arith, both, apart))
    | inr there ↦ rw there
  ]

  kept-Apart :
      (g : File) (rest : List Ptr)
      → All (Apart f) rest
      → All (Apart g) rest
      → All
          (λ q.
            (h : File) × ((after_round s queue p f).heap q ≡ some h)
            × (collides s g.path h.path ≡ false))
          rest
  unfolding Apart
  kept-Apart g [] a b = tt
  kept-Apart g (q ∷ rest) a b =
      let (h, at', apart) = b.0 in ((h, kept-heap q a.0 ∙ at', apart), kept-Apart g rest a.1 b.1)

  kept :
      (rest : List Ptr)
      → All (Apart f) rest
      → Evictable s rest
      → Evictable (after_round s queue p f) rest
        × (queued_size (after_round s queue p f).heap rest ≡ queued_size s.heap rest)
  unfolding Apart start
  kept [] a e = (tt, refl)
  kept (q ∷ rest) a e =
      let (g, at', known', others) = e.0 in
      let (more, size) = kept rest a.1 e.1 in
      let (h, at'', apart) = a.0 in
      let same : h ≡ g = ground (arith, at', at'') in
      let away : collides s f.path g.path ≡ false =
        ap (λ x. collides s f.path x.path) (sym same) ∙ apart in
      (
        (
          (
            g,
            kept-heap q a.0 ∙ at',
            rw away at (lookup-evicted start-IsServer f.path p known g.path) ∙ known',
            kept-Apart g rest a.1 others,
          ),
          more,
        ),
        rw (kept-heap q a.0, size),
      )

replace_loop-enough :
    (queue : List Ptr) (required other : ℕ) (s : Server)
    → IsServer s
    → Evictable s queue
    → s.current_size ≡ queued_size s.heap queue + other
    → other + required ≤ s.max_size
    → s.current_size + required < size_mod
    → (copies : List File) × ((s' : Server) × (replace_loop queue required s ≡ ok (copies, s'))
        × IsServer s')
unfolding replace_loop Apart
replace_loop-enough [] required other s w e size room bound = ([], (s, ground arith, w))
replace_loop-enough (p ∷ queue) required other s w e size room bound =
    elim (Bool-cases (is_over required s)) [
      | inr fits ↦ ([], (s, rw fits, w))
      | inl over ↦
          let (f, at, known, apart) = e.0 in
          let (more, same) = kept w queue p f at known queue apart e.1 in
          let count : s.current_size ≡ f.size + queued_size s.heap queue + other =
            ground (arith, size, at) in
          let less : size_sub s.current_size f.size ≡ queued_size s.heap queue + other =
            ground arith in
          let (copies, (s', loop, w')) =
            replace_loop-enough queue required other (after_round s queue p f)
              (after_round-IsServer w queue p f at known) more
              (less ∙ ap (λ x. x + other) (sym same)) room (ground arith) in
          (copy_of f ∷ copies, (s', rw (over, expel-after_round w queue p f at known, loop), w'))
    ]

-- In a sound state, if the queued files are all in the table and in buckets of their own, the
-- current size is the sum of their sizes and of `other`, and what is asked for fits beside `other`,
-- then the loop of `storage_FIFO_replace` ends, without a fault, in a sound state.
pub fifo_replace-enough :
    (required other : ℕ) (s : Server)
    → IsServer s
    → Evictable s s.fifo_queue
    → s.current_size ≡ queued_size s.heap s.fifo_queue + other
    → other + required ≤ s.max_size
    → s.current_size + required < size_mod
    → (copies : List File) × ((s' : Server) × (storage_fifo_replace required s ≡ ok (copies, s'))
        × IsServer s')
unfolding storage_fifo_replace
fifo_replace-enough required other s = replace_loop-enough s.fifo_queue required other s
