-- ===== src/Master/Threads.antt =====
-- server/signal_handler.c: what a signal changes; server/server.c: how `shutdown_all_threads` ends the
-- workers; server/worker.c: how a worker takes a descriptor from the queue.
use file_storage_server.Base.{
  ℕ, zero, suc, Bool, true, false, ◌&&◌, Option, none, some, List, [], ◌∷◌, ◌++◌, ◌==◌,
  if◌then◌else◌,
}
use file_storage_server.Outcome.{Outcome, ok, blocked}
use file_storage_server.Base.Int.{ℤ, pos, negsuc}
use file_storage_server.Master.{Master}

pub data Signal : Type 0 where
  sigint sigquit sighup : Signal

-- `none` is a `sigwait` that fails, which counts as SIGINT.
unfoldable pub handle_signal : Option Signal → Master → Master
handle_signal none m = record m { shutdown_now = true }
handle_signal (some sigint) m = record m { shutdown_now = true }
handle_signal (some sigquit) m = record m { shutdown_now = true }
handle_signal (some sighup) m = record m { accept_connection = false }

-- The loop that queues -1 for each worker.
unfoldable pub send_termination : ℕ → List ℤ → List ℤ
send_termination zero queue = queue
send_termination (suc n) queue = send_termination n (queue ++ negsuc 0 ∷ [])

-- What a worker gets from the queue.
pub data Taken : Type 0 where
  waits ends : Taken
  client : ℕ → Taken

-- A worker that is past the test of `shutdown_now` and holds the mutex of the queue. Until the queue holds
-- something it waits on the condition; -1 ends it.
unfoldable pub take_request : Master → Taken × Master
take_request m = elim m.request_queue [
  | [] ↦ (waits, m)
  | fd ∷ rest ↦ elim fd [
    | negsuc n ↦ (ends, record m { request_queue = rest })
    | pos client_fd ↦ (client client_fd, record m { request_queue = rest })
  ]
]

-- The case for a number, of those that Linux gives the three signals.
abbrev pub signal_of : ℕ → Option Signal
signal_of n =
    if n == 2
    then some sigint
    else if n == 3
    then some sigquit
    else if n == 1
    then some sighup
    else none

-- `sig_handler_thread`, on what `sigwait` gives, one after the other: whether the thread has closed its
-- end of the pipe when it returns. While nothing comes it waits.
unfoldable pub sig_handler_thread : List (Option ℕ) → Master → Outcome (Bool × Master)
unfolding handle_signal
sig_handler_thread [] m = if m.shutdown_now then ok (false, m) else blocked
sig_handler_thread (sig_num ∷ rest) m =
    let again : Outcome (Bool × Master) = sig_handler_thread rest m in
    if m.shutdown_now then ok (false, m) else elim sig_num [
      | none ↦ ok (true, handle_signal none m)
      | some n ↦ elim (signal_of n) [ none ↦ again | some s ↦ ok (true, handle_signal (some s) m) ]
    ]

-- Whether each call of `install_signal_handler` succeeds.
pub record Installation : Type 0 where
  pub mask_made : Bool
  pub is_masked : Bool
  pub sigpipe_ignored : Bool
  pub args_made : Bool
  pub thread_made : Bool

-- What it returns, and how many of its blocks no one can free: the thread frees the two that it gets.
unfoldable pub install_signal_handler : Installation → ℤ × ℕ
install_signal_handler i =
    if i.mask_made
    then (if i.is_masked && i.sigpipe_ignored
        then (if i.args_made
            then (if i.thread_made then (pos 0, 0) else (negsuc 0, 2))
            else (negsuc 0, 1))
        else (negsuc 0, 1))
    else (negsuc 0, 0)

-- `start_worker_threads`, for whether the arguments of each worker can be allocated and its thread be
-- created: the result, and the numbers of the workers that run. `i` is the next number.
unfoldable pub start_worker_threads : ℕ → List (Bool × Bool) → ℤ × List ℕ
start_worker_threads i [] = (pos 0, [])
start_worker_threads i ((allocated, created) ∷ rest) =
    let more = start_worker_threads (suc i) rest in
    if allocated && created then (more.0, i ∷ more.1) else (negsuc 0, [])

-- What a worker does at the head of its loop: it ends once the server shuts down.
unfoldable pub next_request : Master → Taken × Master
unfolding take_request
next_request m = if m.shutdown_now then (ends, m) else take_request m

-- Where a worker is in its loop. `serving` is from the queue to the end of the `switch`.
pub data Place : Type 0 where
  at_head waiting gone : Place
  serving : ℕ → Place

-- From one place to the next: the test at the head, the queue, and the pipe with the test at the end of the
-- loop. `written` is what a worker that has served its client writes to the pipe. A worker that finds the
-- queue empty stays where it is, and so does one that has left.
unfoldable pub worker_turn : ℤ → Place → Master → Place × Master
unfolding take_request
worker_turn written at_head m = if m.shutdown_now then (gone, m) else (waiting, m)
worker_turn written waiting m =
    let (taken, m') = take_request m in
    elim taken [ waits ↦ (waiting, m') | ends ↦ (gone, m') | client fd ↦ (serving fd, m') ]
worker_turn written (serving client_fd) m =
    (if m.shutdown_now then gone else at_head, record m { pipe = m.pipe ++ written ∷ [] })
worker_turn written gone m = (gone, m)
