-- ===== src/Master/Turns.antt =====
-- server/server.c: the counters of the connections, while the main thread, the workers and the signal
-- handler take turns.
use file_storage_server.Base.{
  ℕ, zero, suc, ◌≡◌, ◌⊎◌, refl, sym, ap, ◌∙◌, Bool, false, Option, none, some, [], ◌∷◌, ◌++◌, inl,
  inr, arith, subst,
}
use file_storage_server.Base.Int.{ℤ, pos, negsuc, ◌-ℤ◌, ltb_ℤ}
use file_storage_server.Outcome.{Outcome, ok, fault, blocked, and_then}
use file_storage_server.Protocol.{Request}
use file_storage_server.Protocol.Codes.{
  RequestCode, open_connection, close_connection, open_file, close_file, write_file, read_file,
  read_n_files, remove_file, lock_file, unlock_file, append_to_file,
}
use file_storage_server.Storage.State.{Server}
use file_storage_server.Worker.Common.{respond}
use file_storage_server.Worker.{
  connection_status, serve_file, all_codes, Global, serve, worker_step, case_of,
}
use file_storage_server.Master.{Master, Descriptors, main_round}
use file_storage_server.Master.Counted.{IsCounted, main_round-IsCounted}
use file_storage_server.Master.Threads.{
  Taken, waits, ends, client, Signal, sigint, sigquit, sighup, handle_signal, take_request,
}

-- A turn: a round of the main thread that comes to an end, a signal, a worker that takes from the
-- queue, or a worker that has served a request and writes to the pipe.
pub data Turn (d : Descriptors) : Master → Master → Type 0 where
  round :
      {m m' : Master} (rdset : ℕ → Bool) (accepted : Option ℕ)
      → main_round d (some rdset) accepted m ≡ ok (some m')
      → Turn d m m'
  signal : (m : Master) (s : Option Signal) → Turn d m (handle_signal s m)
  take : (m : Master) → Turn d m (take_request m).1
  served :
      (m : Master) (client_fd : ℕ) (r : Request) (g g' : Global) (n : ℤ)
      → g.current_connections ≡ m.current_connections
      → worker_step client_fd r g ≡ ok (n, g')
      → Turn d m
          (record m { current_connections = g'.current_connections; pipe = m.pipe ++ n ∷ [] })

pub data Turns (d : Descriptors) (m : Master) : Master → Type 0 where
  start : Turns d m m
  next : {m' m'' : Master} → Turns d m m' → Turn d m' m'' → Turns d m m''

-- Where it ends, the number is that of before, or one less.
abbrev Leaves : ℤ → Outcome (ℤ × Global) → Type 0
Leaves before (ok (n, g)) =
    (g.current_connections ≡ before) ⊎ (g.current_connections ≡ before -ℤ pos 1)
Leaves before fault = Unit
Leaves before blocked = Unit

server-Leaves :
    (n : ℤ) (g : Global) (o : Outcome (Unit {0} × Server))
    → Leaves g.current_connections (and_then o (λ q. ok (n, record g { server = q.1 })))
server-Leaves n g (ok q) = inl refl
server-Leaves n g fault = tt
server-Leaves n g blocked = tt

serve-Leaves :
    (code : RequestCode) (client_fd : ℕ) (r : Request) (g : Global)
    → Leaves g.current_connections (serve code client_fd r g)
unfolding serve
serve-Leaves open_connection client_fd r g =
    server-Leaves (pos client_fd) g (respond client_fd (connection_status g) [] 0 [] g.server)
serve-Leaves close_connection client_fd r g = inr refl
serve-Leaves open_file client_fd r g =
    server-Leaves (pos client_fd) g (serve_file open_file client_fd r g.server)
serve-Leaves close_file client_fd r g =
    server-Leaves (pos client_fd) g (serve_file close_file client_fd r g.server)
serve-Leaves write_file client_fd r g =
    server-Leaves (pos client_fd) g (serve_file write_file client_fd r g.server)
serve-Leaves read_file client_fd r g =
    server-Leaves (pos client_fd) g (serve_file read_file client_fd r g.server)
serve-Leaves read_n_files client_fd r g =
    server-Leaves (pos client_fd) g (serve_file read_n_files client_fd r g.server)
serve-Leaves remove_file client_fd r g =
    server-Leaves (pos client_fd) g (serve_file remove_file client_fd r g.server)
serve-Leaves lock_file client_fd r g =
    server-Leaves (pos client_fd) g (serve_file lock_file client_fd r g.server)
serve-Leaves unlock_file client_fd r g =
    server-Leaves (pos client_fd) g (serve_file unlock_file client_fd r g.server)
serve-Leaves append_to_file client_fd r g =
    server-Leaves (pos client_fd) g (serve_file append_to_file client_fd r g.server)

worker_step-Leaves :
    (client_fd : ℕ) (r : Request) (g : Global)
    → Leaves g.current_connections (worker_step client_fd r g)
unfolding worker_step
worker_step-Leaves client_fd r g = case (case_of r.type all_codes)
  where
    case :
        (o : Option RequestCode)
        → Leaves g.current_connections
            (elim o [ none ↦ ok (pos client_fd, g) | some code ↦ serve code client_fd r g ])
    case none = inl refl
    case (some code) = serve-Leaves code client_fd r g

one_less : (most now : ℤ) → ltb_ℤ most now ≡ false → ltb_ℤ most (now -ℤ pos 1) ≡ false
unfolding ◌-ℤ◌
one_less most (pos zero) h = ground (arith, h)
one_less most (pos (suc n)) h =
    let e : pos (suc n) -ℤ pos 1 ≡ pos n = ground arith in rw e (ground (arith, h))
one_less most (negsuc n) h =
    let e : negsuc n -ℤ pos 1 ≡ negsuc (suc n) = ground arith in rw e (ground (arith, h))

take_request-IsCounted : (m : Master) → IsCounted m → IsCounted (take_request m).1
unfolding take_request
take_request-IsCounted m h =
    elim m.request_queue
      as (λ q.
        IsCounted
          (elim q as (λ x. Taken × Master) [
            | [] ↦ (waits, m)
            | fd ∷ rest ↦ elim fd [
              | negsuc n ↦ (ends, record m { request_queue = rest })
              | pos client_fd ↦ (client client_fd, record m { request_queue = rest })
            ]
          ]).1) [
            | [] ↦ h
            | fd ∷ rest ↦
                elim fd
                  as (λ n.
                    IsCounted
                      (elim n as (λ x. Taken × Master) [
                        | negsuc k ↦ (ends, record m { request_queue = rest })
                        | pos client_fd ↦ (client client_fd, record m { request_queue = rest })
                      ]).1) [ negsuc k ↦ h | pos client_fd ↦ h ]
          ]

Turn-IsCounted : {d : Descriptors} {m m' : Master} → Turn d m m' → IsCounted m → IsCounted m'
unfolding handle_signal
Turn-IsCounted (round rdset accepted e) h = main_round-IsCounted _ rdset accepted _ _ h e
Turn-IsCounted (signal m none) h = h
Turn-IsCounted (signal m (some sigint)) h = h
Turn-IsCounted (signal m (some sigquit)) h = h
Turn-IsCounted (signal m (some sighup)) h = h
Turn-IsCounted (take m) h = take_request-IsCounted m h
Turn-IsCounted (served m client_fd r g g' n same e) h =
    elim (subst (Leaves g.current_connections) e (worker_step-Leaves client_fd r g)) [
      | inl kept ↦ subst (λ x. ltb_ℤ m.max_connections x ≡ false) (sym (kept ∙ same)) h
      | inr less ↦
          subst (λ x. ltb_ℤ m.max_connections x ≡ false) (sym (less ∙ ap (λ x. x -ℤ pos 1) same))
            (one_less m.max_connections m.current_connections h)
    ]

-- Whatever turns the threads take, a server whose number of connections is at most the highest one
-- that it has seen stays such a server; at its start both are 0.
pub Turns-IsCounted : {d : Descriptors} {m m' : Master} → Turns d m m' → IsCounted m → IsCounted m'
Turns-IsCounted start h = h
Turns-IsCounted (next turns turn) h = Turn-IsCounted turn (Turns-IsCounted turns h)
