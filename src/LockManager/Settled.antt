-- ===== src/LockManager/Settled.antt =====
-- After a pass nobody waits for a file that is free.
use file_storage_server.Base.{
  ℕ, ◌≡◌, refl, ◌∙◌, ◌||◌, ◌++◌, Bool, true, false, some, List, [], ◌∷◌, arith, ◌==◌, All, inl, inr,
  Bool-cases, ==_iff,
}
use file_storage_server.Outcome.{ok}
use file_storage_server.Utilities.Flags.{o_lock, chk_flag, chk-set_lock}
use file_storage_server.Protocol.Codes.{success}
use file_storage_server.Storage.{storage_get_file}
use file_storage_server.Storage.State.{Ptr, File, Server}
use file_storage_server.Storage.Table.{lookup, IsServer}
use file_storage_server.Storage.Touch.{touched, lookup-touched, touched-IsServer}
use file_storage_server.Storage.Remove.{IsQueue}
use file_storage_server.Worker.Lookup.{held-IsServer, released-IsServer, update-ok}
use file_storage_server.Worker.Locks.{locked}
use file_storage_server.LockManager.{grant, visit, pass}

-- The file is locked, or no client waits for it.
abbrev pub is_settled : File → Bool
is_settled f = chk_flag f.flags o_lock || (elim f.waiting_on_lock [ [] ↦ true | c ∷ cs ↦ false ])

-- What a pass keeps: the table, the queue, the live files with their paths, and what is settled.
pub record Later (s s' : Server) : Type 0 where
  pub lookups : (j : List ℕ) → lookup s' j ≡ lookup s j
  pub queue : s'.fifo_queue ≡ s.fifo_queue
  pub files :
      (p : Ptr) (f : File)
      → s.heap p ≡ some f
      → (f' : File) × (s'.heap p ≡ some f')
        × (f'.path ≡ f.path)
        × (is_settled f ≡ true → is_settled f' ≡ true)

Later-refl : (s : Server) → Later s s
Later-refl s = record { lookups = λ j. refl; queue = refl; files = λ p f at. (f, at, refl, λ h. h) }

Later-trans : {s t u : Server} → Later s t → Later t u → Later s u
Later-trans a b = record {
  lookups = λ j. b.lookups j ∙ a.lookups j;
  queue = b.queue ∙ a.queue;
  files = λ p f at.
      let (g, at', same, keep) = a.files p f at in
      let (h, at'', same', keep') = b.files p g at' in
      (h, at'', same' ∙ same, λ settled. keep' (keep settled));
}

Later-IsQueue :
    {s s' : Server} → Later s s' → (queue : List Ptr) → IsQueue s queue → IsQueue s' queue
Later-IsQueue l [] q = tt
Later-IsQueue l (p ∷ queue) q =
    let (f, at, known) = q.0 in
    let (f', at', same, keep) = l.files p f at in
    ((f', at', l.lookups f'.path ∙ ground (arith, same, known)), Later-IsQueue l queue q.1)

-- A free file whose first waiting client gets it.
handed_over : Server → Ptr → File → ℕ → List ℕ → Server
handed_over s p f client_fd waiting =
    let t = touched s p (locked (record f { waiting_on_lock = waiting }) client_fd) in
    record t {
      sent =
          t.sent
          ++ record {
            client_fd = client_fd;
            status = success;
            path = f.path ++ 0 ∷ [];
            body_size = 0;
            body = [];
          }
            ∷ [];
    }

-- One file: if it is free and clients wait, the first of them gets it.
grant-settles :
    {s : Server}
    → IsServer s
    → (p : Ptr) (f : File) → lookup s f.path ≡ ok (some p)
    → s.heap p ≡ some f
    → (waiting : List ℕ) → f.waiting_on_lock ≡ waiting
    → (s' : Server) × (grant p f s ≡ ok (tt, s'))
      × IsServer s'
      × Later s s'
      × ((f' : File) × (s'.heap p ≡ some f') × (is_settled f' ≡ true))
unfolding grant handed_over
grant-settles {s} w p f found at [] none_waits =
    (s, ground (arith, none_waits), w, Later-refl s, (f, at, ground (arith, none_waits)))
grant-settles {s} w p f found at (c ∷ cs) waits = elim (Bool-cases (chk_flag f.flags o_lock)) [
  | inl taken ↦ (s, ground (arith, taken), w, Later-refl s, (f, at, ground (arith, taken)))
  | inr free ↦
      let f' : File = locked (record f { waiting_on_lock = cs }) c in
      let w' : IsServer (touched s p f') = touched-IsServer w f.path p f found at f' refl in
      let set : is_settled f' ≡ true = ground (arith, chk-set_lock f.flags) in
      (
        handed_over s p f c cs,
        rw (free, waits, update-ok w f.path p f found at f' refl),
        record { sized = w'.sized; placed = w'.placed; named = w'.named; fresh = w'.fresh },
        record {
          lookups = λ j. lookup-touched w f.path p f found at f' refl j;
          queue = refl;
          files = λ q g at'. elim (Bool-cases (q == p)) [
            | inl here ↦
                let same : q ≡ p = (==_iff q p).0 here in
                (f', rw here, ground (arith, same, at, at'), λ _. set)
            | inr there ↦ (g, rw there at', refl, λ h. h)
          ];
        },
        (f', ground arith, set),
      )
]

visit-settles :
    (queue : List Ptr) {s : Server}
    → IsServer s
    → IsQueue s queue
    → (s' : Server) × (visit queue s ≡ ok (tt, s'))
      × IsServer s'
      × Later s s'
      × All (λ p. (f : File) × (s'.heap p ≡ some f) × (is_settled f ≡ true)) queue
unfolding visit storage_get_file
visit-settles [] {s} w q = (s, refl, w, Later-refl s, tt)
visit-settles (p ∷ queue) {s} w q =
    let (f, at, known) = q.0 in
    let (t, run, w', later, (g, at', settled)) =
      grant-settles w p f known at f.waiting_on_lock refl in
    let (u, rest, w'', later', all) = visit-settles queue w' (Later-IsQueue later queue q.1) in
    let (h, at'', same, keep) = later'.files p g at' in
    (
      u,
      ground (arith, at, known, run, rest),
      w'',
      Later-trans later later',
      ((h, at'', keep settled), all),
    )

-- In a sound state, if the mutex is free and the queue holds live files that the table knows, a
-- pass of the lock manager ends with the mutex free, in a sound state with the same table and
-- queue, in which each file of the queue is locked or has no client that waits for it; the paths of
-- the files are the same, and no file that was locked or had no client waiting has become free with
-- clients waiting.
pub pass-settles :
    {s : Server}
    → IsServer s
    → s.access ≡ false
    → IsQueue s s.fifo_queue
    → (s' : Server) × (pass s ≡ ok (tt, s'))
      × IsServer s'
      × Later s s'
      × (s'.access ≡ false)
      × All (λ p. (f : File) × (s'.heap p ≡ some f) × (is_settled f ≡ true)) s.fifo_queue
unfolding pass
pass-settles {s} w unheld q =
    let (t, run, w', later, all) = visit-settles s.fifo_queue (held-IsServer w) q in
    (
      record t { storage = record t.storage { access = false } },
      rw (unheld) (rw run),
      released-IsServer w',
      record { lookups = later.lookups; queue = later.queue; files = later.files },
      refl,
      all,
    )
