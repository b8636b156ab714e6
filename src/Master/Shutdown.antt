-- ===== src/Master/Shutdown.antt =====
-- server/server.c: how the workers start and how `shutdown_all_threads` ends them.
use file_storage_server.Base.{
  ℕ, zero, suc, ◌+◌, ◌*◌, ◌≤◌, ◌<◌, ◌≡◌, refl, sym, ap, ◌∙◌, Bool, true, false, ◌&&◌, ◌⊎◌, inl, inr,
  Bool-cases, List, [], ◌∷◌, ◌++◌, length, length-append, length-replicate, replicate, append-nil,
  append_assoc, if◌then◌else◌, ◌==◌, All, arith,
}
use file_storage_server.Base.Int.{ℤ, pos, negsuc}
use file_storage_server.Master.{Master}
use file_storage_server.Master.Threads.{
  Place, at_head, waiting, gone, serving, worker_turn, take_request, send_termination,
  start_worker_threads,
}
use file_storage_server.Master.Startup.{shutdown_all_threads}

send_termination-replicate :
    (n : ℕ) (queue : List ℤ) → send_termination n queue ≡ queue ++ replicate n (negsuc 0)
unfolding send_termination
send_termination-replicate zero queue = sym (append-nil queue)
send_termination-replicate (suc n) queue =
    send_termination-replicate n (queue ++ negsuc 0 ∷ [])
    ∙ append_assoc queue (negsuc 0 ∷ []) (replicate n (negsuc 0))

abbrev pub has_left : Place → Bool
has_left gone = true
has_left at_head = false
has_left waiting = false
has_left (serving fd) = false

-- One worker that has not left takes its turn; any of them may.
pub data Goes : List Place → Master → List Place → Master → Type 0 where
  here :
      (written : ℤ) (p : Place) (ps : List Place) (m : Master)
      → has_left p ≡ false
      → Goes (p ∷ ps) m ((worker_turn written p m).0 ∷ ps) (worker_turn written p m).1
  there :
      (p : Place) (ps ps' : List Place) (m m' : Master)
      → Goes ps m ps' m'
      → Goes (p ∷ ps) m (p ∷ ps') m'

-- So many turns, in any order.
pub data Runs : ℕ → List Place → Master → List Place → Master → Type 0 where
  stop : (ps : List Place) (m : Master) → Runs 0 ps m ps m
  turn :
      (k : ℕ) (ps ps' ps'' : List Place) (m m' m'' : Master)
      → Runs k ps m ps' m'
      → Goes ps' m' ps'' m''
      → Runs (suc k) ps m ps'' m''

-- How many workers wait for the queue.
abbrev pub waits_one : Place → ℕ
waits_one waiting = 1
waits_one at_head = 0
waits_one gone = 0
waits_one (serving fd) = 0

abbrev pub waiters : List Place → ℕ
waiters [] = 0
waiters (p ∷ ps) = waits_one p + waiters ps

-- The turns that a worker has left once the server shuts down.
abbrev pub turns_left : Place → ℕ
turns_left gone = 0
turns_left at_head = 1
turns_left (serving fd) = 1
turns_left waiting = 2

abbrev pub all_turns_left : List Place → ℕ
all_turns_left [] = 0
all_turns_left (p ∷ ps) = turns_left p + all_turns_left ps

-- After a turn the server still shuts down, a worker has left the queue for each number taken from it,
-- and there is less to do.
abbrev Shrinks : List Place → Master → List Place → Master → Type 0
Shrinks ps m ps' m' =
    (m'.shutdown_now ≡ true)
    × (waiters ps' + length m.request_queue ≡ waiters ps + length m'.request_queue)
    × (all_turns_left ps' < all_turns_left ps)

waiting-Shrinks :
    (written : ℤ) (ps : List Place) (queue : List ℤ) (m : Master)
    → m.shutdown_now ≡ true
    → suc (waiters ps) ≤ length queue
    → Shrinks
        (waiting ∷ ps)
        (record m { request_queue = queue })
        ((worker_turn written waiting (record m { request_queue = queue })).0 ∷ ps)
        (worker_turn written waiting (record m { request_queue = queue })).1
unfolding worker_turn take_request
waiting-Shrinks written ps [] m h some = absurd (omega arith)
waiting-Shrinks written ps (pos n ∷ queue) m h some = (h, omega arith, omega arith)
waiting-Shrinks written ps (negsuc n ∷ queue) m h some = (h, omega arith, omega arith)

Goes-Shrinks :
    (ps ps' : List Place) (m m' : Master)
    → Goes ps m ps' m'
    → m.shutdown_now ≡ true
    → waiters ps ≤ length m.request_queue
    → Shrinks ps m ps' m'
unfolding worker_turn
Goes-Shrinks _ _ _ _ (here written gone ps m other) h enough = absurd (ground (arith, other))
Goes-Shrinks _ _ _ _ (here written at_head ps m other) h enough =
    rw h (refl, omega arith, omega arith)
Goes-Shrinks _ _ _ _ (here written (serving fd) ps m other) h enough =
    rw h (refl, omega arith, omega arith)
Goes-Shrinks _ _ _ _ (here written waiting ps m other) h enough =
    waiting-Shrinks written ps m.request_queue m h (omega (arith, enough))
Goes-Shrinks _ _ _ _ (there p ps ps' m m' g) h enough =
    let (h', balance, less) = Goes-Shrinks ps ps' m m' g h (omega (arith, enough)) in
    (h', omega (arith, balance), omega (arith, less))

Runs-Shrinks :
    (k : ℕ) (ps ps' : List Place) (m m' : Master)
    → Runs k ps m ps' m'
    → m.shutdown_now ≡ true
    → waiters ps ≤ length m.request_queue
    → (m'.shutdown_now ≡ true)
      × (waiters ps' ≤ length m'.request_queue)
      × (k + all_turns_left ps' ≤ all_turns_left ps)
Runs-Shrinks _ _ _ _ _ (stop ps m) h enough = (h, enough, omega arith)
Runs-Shrinks _ _ _ _ _ (turn k ps ps' ps'' m m' m'' before g) h enough =
    let (h', enough', less) = Runs-Shrinks k ps ps' m m' before h enough in
    let (h'', balance, less') = Goes-Shrinks ps' ps'' m' m'' g h' enough' in
    (h'', omega (arith, balance, enough'), omega (arith, less, less'))

each-bound : (ps : List Place) → (waiters ps ≤ length ps) × (all_turns_left ps ≤ 2 * length ps)
each-bound [] = (omega arith, omega arith)
each-bound (p ∷ ps) = let (few, left) = each-bound ps in one p few left
  where
    one :
        (p : Place)
        → waiters ps ≤ length ps
        → all_turns_left ps ≤ 2 * length ps
        → (waiters (p ∷ ps) ≤ length (p ∷ ps)) × (all_turns_left (p ∷ ps) ≤ 2 * length (p ∷ ps))
    one gone a b = (omega (arith, a), omega (arith, b))
    one at_head a b = (omega (arith, a), omega (arith, b))
    one (serving fd) a b = (omega (arith, a), omega (arith, b))
    one waiting a b = (omega (arith, a), omega (arith, b))

none_left : (ps : List Place) → all_turns_left ps ≡ 0 → All (λ p. has_left p ≡ true) ps
none_left [] h = tt
none_left (gone ∷ ps) h = (refl, none_left ps (omega (arith, h)))
none_left (at_head ∷ ps) h = absurd (omega (arith, h))
none_left (serving fd ∷ ps) h = absurd (omega (arith, h))
none_left (waiting ∷ ps) h = absurd (omega (arith, h))

-- A worker that has not left, in a crew that has some.
some_left :
    (ps : List Place) (m : Master)
    → 0 < all_turns_left ps
    → (ps' : List Place) × (m' : Master) × Goes ps m ps' m'
some_left [] m h = absurd (omega (arith, h))
some_left (gone ∷ ps) m h =
    let (ps', m', g) = some_left ps m (omega (arith, h)) in
    (gone ∷ ps', m', there gone ps ps' m m' g)
some_left (at_head ∷ ps) m h = (_, _, here (pos 0) at_head ps m refl)
some_left (serving fd ∷ ps) m h = (_, _, here (pos 0) (serving fd) ps m refl)
some_left (waiting ∷ ps) m h = (_, _, here (pos 0) waiting ps m refl)

-- When the server shuts down and `shutdown_all_threads` has queued its numbers, wherever the workers that
-- it joins are, as many as the results of the joins, and whatever requests still wait: in any order of
-- their turns, where each client that is taken is served, the queue holds a number for each worker that
-- waits for one; there are at most two turns for each worker; and all of them have left, or one of them
-- can take its turn.
pub shut_down-ends :
    (ps : List Place) (m : Master) (signal_joined lock_joined : ℤ) (workers_joined : List ℤ)
    → m.shutdown_now ≡ true
    → length ps ≡ length workers_joined
    → (k : ℕ) (ps' : List Place) (m' : Master)
    → Runs k ps
        (record m {
          request_queue =
              (shutdown_all_threads signal_joined lock_joined workers_joined m.request_queue).1;
        })
        ps'
        m'
    → (waiters ps' ≤ length m'.request_queue)
      × (k ≤ 2 * length ps)
      × ((All (λ p. has_left p ≡ true) ps')
          ⊎ ((ps'' : List Place) × (m'' : Master) × Goes ps' m' ps'' m''))
unfolding shutdown_all_threads
shut_down-ends ps m a b ws h joined k ps' m' run =
    let (few, left) = each-bound ps in
    let queued : length (send_termination (length ws) m.request_queue)
        ≡ length m.request_queue + length ws =
      ap length (send_termination-replicate (length ws) m.request_queue)
      ∙ length-append m.request_queue (replicate (length ws) (negsuc 0))
      ∙ ap (λ n. length m.request_queue + n) (length-replicate (length ws) (negsuc 0)) in
    let (h', enough, bound) =
      Runs-Shrinks k ps ps' _ m' run h (omega (arith, few, joined, queued)) in
    (
      enough,
      omega (arith, bound, left),
      elim (Bool-cases (all_turns_left ps' == 0)) [
        | inl e ↦ inl (none_left ps' (ground (arith, e)))
        | inr more ↦ inr (some_left ps' m' (ground (arith, more)))
      ],
    )

-- How many workers can be started before the first failure.
abbrev pub able : List (Bool × Bool) → ℕ
able [] = 0
able ((allocated, created) ∷ rest) =
    let more = able rest in if allocated && created then suc more else 0

abbrev pub count_from : ℕ → ℕ → List ℕ
count_from i zero = []
count_from i (suc n) = i ∷ count_from (suc i) n

-- `start_worker_threads` starts the workers before the first that fails, with consecutive numbers, and
-- returns 0 if none fails, and else -1.
pub start_worker_threads-able :
    (i : ℕ) (ws : List (Bool × Bool))
    → start_worker_threads i ws
      ≡ (if able ws == length ws then pos 0 else negsuc 0, count_from i (able ws))
unfolding start_worker_threads
start_worker_threads-able i [] = refl
start_worker_threads-able i ((true, true) ∷ ws) =
    rw (start_worker_threads-able (suc i) ws) (ground arith)
start_worker_threads-able i ((true, false) ∷ ws) = ground arith
start_worker_threads-able i ((false, b) ∷ ws) = ground arith
