-- ===== src/Master/Crew.antt =====
-- server/server.c and server/worker.c: the main thread and the workers hand the descriptors of the clients
-- to each other.
use file_storage_server.Base.{
  ℕ, ◌+◌, ◌≡◌, ◌≤◌, refl, Bool, true, false, ◌==◌, Option, none, some, List, [], ◌∷◌, ◌++◌, arith,
  inl, inr, ◌⊎◌, Bool-cases, subst,
}
use file_storage_server.Base.Int.{ℤ, pos, negsuc, ltb_ℤ}
use file_storage_server.Outcome.{Outcome, ok, fault, blocked, and_then, Ends}
use file_storage_server.Protocol.{Request}
use file_storage_server.Protocol.Codes.{RequestCode, open_connection, close_connection}
use file_storage_server.Storage.State.{Server}
use file_storage_server.Worker.Common.{respond}
use file_storage_server.Worker.{
  connection_status, serve_file, all_codes, Global, serve, worker_step, case_of,
}
use file_storage_server.Master.{
  Master, Descriptors, raise_max, first_globals, main_start, main_round,
}
use file_storage_server.Master.Threads.{
  Taken, waits, ends, client, Signal, sigint, sigquit, sighup, handle_signal, take_request,
  next_request,
}
use file_storage_server.Master.Places.{one, occurs, places, occurs-append}
use file_storage_server.Master.Moves.{who, main_round-places}

-- The main thread, and the clients that the workers serve.
pub record Crew : Type 0 where
  pub master : Master
  pub serving : List ℕ

abbrev pub times : ℕ → List ℕ → ℕ
times x [] = 0
times x (y ∷ rest) = one (y == x) + times x rest

-- In how many places a descriptor is: the set, the queue, the pipe and the workers.
abbrev pub all_places : ℕ → Crew → ℕ
all_places x c = places x c.master + times x c.serving

-- What the threads do: a round of the main thread, for what `select` leaves of the set, and for a descriptor
-- of `accept` that is in no place; a signal; a worker that takes a client from the queue, or its end; a
-- worker that has served a client, and writes to the pipe.
pub data Shift (d : Descriptors) : Crew → Crew → Type 0 where
  round :
      {c : Crew} {m' : Master} (rdset : ℕ → Bool) (accepted : Option ℕ)
      → ((y : ℕ) → rdset y ≡ true → c.master.set y ≡ true)
      → ((x : ℕ) → accepted ≡ some x → all_places x c ≡ 0)
      → main_round d (some rdset) accepted c.master ≡ ok (some m')
      → Shift d c (record c { master = m' })
  signal :
      (c : Crew) (s : Option Signal) → Shift d c (record c { master = handle_signal s c.master })
  take :
      {c : Crew} {m' : Master} (client_fd : ℕ)
      → next_request c.master ≡ (client client_fd, m')
      → Shift d c (record { master = m'; serving = client_fd ∷ c.serving })
  end :
      {c : Crew} {m' : Master}
      → next_request c.master ≡ (ends, m')
      → Shift d c (record c { master = m' })
  served :
      (m : Master) (before after : List ℕ) (client_fd : ℕ) (r : Request) (g g' : Global) (n : ℤ)
      → worker_step client_fd r g ≡ ok (n, g')
      → Shift d
          (record { master = m; serving = before ++ client_fd ∷ after })
          (record {
            master = record m {
              current_connections = g'.current_connections;
              pipe = m.pipe ++ n ∷ [];
            };
            serving = before ++ after;
          })

pub data Shifts (d : Descriptors) (c : Crew) : Crew → Type 0 where
  start : Shifts d c c
  next : {c' c'' : Crew} → Shifts d c c' → Shift d c' c'' → Shifts d c c''

-- A worker writes the descriptor that it served, or -1.
abbrev GivesBack : ℕ → ℤ × Global → Type 0
GivesBack client_fd q = (q.0 ≡ pos client_fd) ⊎ (q.0 ≡ negsuc 0)

given :
    (client_fd : ℕ) (g : Global) (o : Outcome (Unit {0} × Server))
    → Ends (GivesBack client_fd) (and_then o (λ q. ok (pos client_fd, record g { server = q.1 })))
given client_fd g (ok q) = inl refl
given client_fd g fault = tt
given client_fd g blocked = tt

serve-GivesBack :
    (code : RequestCode) (client_fd : ℕ) (r : Request) (g : Global)
    → Ends (GivesBack client_fd) (serve code client_fd r g)
unfolding serve
serve-GivesBack open_connection client_fd r g =
    given client_fd g (respond client_fd (connection_status g) [] 0 [] g.server)
serve-GivesBack close_connection client_fd r g = inr refl
serve-GivesBack code client_fd r g = given client_fd g (serve_file code client_fd r g.server)

worker_step-GivesBack :
    (client_fd : ℕ) (r : Request) (g : Global)
    → Ends (GivesBack client_fd) (worker_step client_fd r g)
unfolding worker_step
worker_step-GivesBack client_fd r g = case (case_of r.type all_codes)
  where
    case :
        (o : Option RequestCode)
        → Ends
            (GivesBack client_fd)
            (elim o [ none ↦ ok (pos client_fd, g) | some code ↦ serve code client_fd r g ])
    case none = inl refl
    case (some code) = serve-GivesBack code client_fd r g

-- What a worker takes leaves the queue.
abbrev Takes : ℕ → Master → Taken × Master → Type 0
Takes x m (client fd, m') = places x m' + one (fd == x) ≤ places x m
Takes x m (ends, m') = places x m' ≤ places x m
Takes x m (waits, m') = places x m' ≤ places x m

next_request-Takes : (x : ℕ) (m : Master) → Takes x m (next_request m)
unfolding next_request take_request places
next_request-Takes x m = cases m.shutdown_now m.request_queue
  where
    cases :
        (b : Bool) (queue : List ℤ)
        → Takes x
            (record m { shutdown_now = b; request_queue = queue })
            (next_request (record m { shutdown_now = b; request_queue = queue }))
    cases true queue = omega arith
    cases false [] = omega arith
    cases false (pos fd ∷ rest) = omega arith
    cases false (negsuc n ∷ rest) = omega arith

-- No descriptor is in two places.
abbrev pub IsOnce : Crew → Type 0
IsOnce c = (x : ℕ) → all_places x c ≤ 1

signal-places : (x : ℕ) (s : Option Signal) (m : Master) → places x (handle_signal s m) ≡ places x m
unfolding handle_signal places
signal-places x none m = refl
signal-places x (some sigint) m = refl
signal-places x (some sigquit) m = refl
signal-places x (some sighup) m = refl

times-append : (x : ℕ) (l k : List ℕ) → times x (l ++ k) ≡ times x l + times x k
times-append x [] k = omega arith
times-append x (y ∷ l) k = omega (arith, times-append x l k)

who-once :
    (accepted : Option ℕ) (x n : ℕ) → (accepted ≡ some x → n ≡ 0) → n ≤ 1 → n + who accepted x ≤ 1
who-once none x n h k = omega (arith, k)
who-once (some fd) x n h k = ground (arith, h, k)

written-places :
    (x client_fd : ℕ) (n current : ℤ) (m : Master)
    → (n ≡ pos client_fd) ⊎ (n ≡ negsuc 0)
    → places x (record m { current_connections = current; pipe = m.pipe ++ n ∷ [] })
      ≤ places x m + one (client_fd == x)
unfolding places
written-places x client_fd n current m (inl e) =
    rw e (omega (arith, occurs-append x m.pipe (pos client_fd ∷ [])))
written-places x client_fd n current m (inr e) =
    rw e (omega (arith, occurs-append x m.pipe (negsuc 0 ∷ [])))

Shift-IsOnce : {d : Descriptors} {c c' : Crew} → Shift d c c' → IsOnce c → IsOnce c'
Shift-IsOnce (round {c} {m'} rdset accepted ready new e) h x =
    let moved = main_round-places _ rdset accepted c.master m' ready e x in
    omega (arith, moved, who-once accepted x (all_places x c) (new x) (h x))
Shift-IsOnce (signal c s) h x = omega (arith, h x, signal-places x s c.master)
Shift-IsOnce (take {c} {m'} client_fd e) h x =
    let taken : places x m' + one (client_fd == x) ≤ places x c.master =
      subst (Takes x c.master) e (next_request-Takes x c.master) in
    omega (arith, h x, taken)
Shift-IsOnce (end {c} {m'} e) h x =
    let taken : places x m' ≤ places x c.master =
      subst (Takes x c.master) e (next_request-Takes x c.master) in
    omega (arith, h x, taken)
Shift-IsOnce (served m before after client_fd r g g' n e) h x =
    let back : GivesBack client_fd (n, g') =
      subst (Ends (GivesBack client_fd)) e (worker_step-GivesBack client_fd r g) in
    omega (
      arith,
      h x,
      written-places x client_fd n g'.current_connections m back,
      times-append x before after,
      times-append x before (client_fd ∷ after),
    )

raised-queues :
    (fd : ℕ) (m : Master)
    → m.request_queue ≡ []
    → m.pipe ≡ []
    → ((raise_max fd m).request_queue ≡ []) × ((raise_max fd m).pipe ≡ [])
raised-queues fd m q p = elim (Bool-cases (ltb_ℤ m.fd_max (pos fd))) [
  | inl up ↦ rw up (q, p)
  | inr stay ↦ rw stay (q, p)
]

in_set :
    (x : ℕ) (b : Bool) (queue pipe : List ℤ)
    → queue ≡ []
    → pipe ≡ []
    → one b + occurs x queue + occurs x pipe + 0 ≤ 1
in_set x true queue pipe q p = rw (q, p) (omega arith)
in_set x false queue pipe q p = rw (q, p) (omega arith)

main_start-IsOnce :
    (d : Descriptors) (lock_pipe_fd : ℕ)
    → IsOnce (record { master = main_start d lock_pipe_fd; serving = [] })
unfolding main_start places
main_start-IsOnce d lock_pipe_fd x =
    let m₁ = raise_max lock_pipe_fd (first_globals d) in
    let m₂ = raise_max d.pipe_fd m₁ in
    let (q₁, p₁) = raised-queues lock_pipe_fd (first_globals d) refl refl in
    let (q₂, p₂) = raised-queues d.pipe_fd m₁ q₁ p₁ in
    let (q₃, p₃) = raised-queues d.socket_fd m₂ q₂ p₂ in
    in_set x _ (raise_max d.socket_fd m₂).request_queue (raise_max d.socket_fd m₂).pipe q₃ p₃

-- From the start of the loop on, whatever the main thread, the signal handler and the workers do, in any
-- order: no descriptor is in two of the places set, queue, pipe and workers, or twice in one of them; so no
-- client is served by two workers at once, and no request of a client that is being served is queued.
pub Shifts-IsOnce :
    (d : Descriptors) (lock_pipe_fd : ℕ) (c : Crew)
    → Shifts d (record { master = main_start d lock_pipe_fd; serving = [] }) c
    → (x : ℕ) → all_places x c ≤ 1
Shifts-IsOnce d lock_pipe_fd c shifts = walk shifts
  where
    walk :
        {c' : Crew}
        → Shifts d (record { master = main_start d lock_pipe_fd; serving = [] }) c'
        → IsOnce c'
    walk start = main_start-IsOnce d lock_pipe_fd
    walk (next before shift) = Shift-IsOnce shift (walk before)
