-- ===== src/Master.antt =====
-- server/server.c: the loop of `main` that waits for clients, and what it does with a descriptor that
-- is ready. The pipe from the workers is the list of the numbers in it. `select`, `accept` and the
-- descriptors are parameters; a read of the pipe waits for ever while it is empty.
pub mod Config
pub mod Log
pub mod Threads
pub mod Counted
pub mod Turns
pub mod Places
pub mod Moves
pub mod Crew
pub mod Startup
pub mod Exits
pub mod Shutdown
pub mod Destroyed
use file_storage_server.Base.{
  ℕ, zero, suc, ◌+◌, ◌==◌, ◌&&◌, Bool, true, false, not, Option, none, some, List, [], ◌∷◌, ◌++◌,
  leb, if◌then◌else◌,
}
use file_storage_server.Base.Int.{ℤ, pos, negsuc, ◌+ℤ◌, ◌-ℤ◌, ltb_ℤ, eq_ℕ}
use file_storage_server.Outcome.{Outcome, ok, fault, blocked, and_then}

-- The descriptors that `main` opens before the loop; `pipe_fd` is `mw_pipe[0]`.
pub record Descriptors : Type 0 where
  pub signal_fd : ℕ
  pub pipe_fd : ℕ
  pub socket_fd : ℕ

pub record Master : Type 0 where
  pub set : ℕ → Bool
  pub fd_max : ℤ
  pub accept_connection : Bool
  pub shutdown_now : Bool
  pub current_connections : ℤ
  pub max_connections : ℤ
  pub request_queue : List ℤ
  pub pipe : List ℤ

abbrev pub fd_set : ℕ → Master → Master
fd_set fd m = record m { set = λ n. if n == fd then true else m.set n }

abbrev pub fd_clr : ℕ → Master → Master
fd_clr fd m = record m { set = λ n. if n == fd then false else m.set n }

-- `if (fd > fd_max) fd_max = fd;` and `if (fd == fd_max) fd_max--;`
abbrev pub raise_max : ℕ → Master → Master
raise_max fd m = if ltb_ℤ m.fd_max (pos fd) then record m { fd_max = pos fd } else m

abbrev pub lower_max : ℕ → Master → Master
lower_max fd m = if eq_ℕ m.fd_max fd then record m { fd_max = m.fd_max -ℤ pos 1 } else m

-- The globals at the start of `main`, with the pipe of the signal handler as the first descriptor.
abbrev pub first_globals : Descriptors → Master
first_globals d = record {
  set = λ n. false;
  fd_max = pos d.signal_fd;
  accept_connection = true;
  shutdown_now = false;
  current_connections = pos 0;
  max_connections = pos 0;
  request_queue = [];
  pipe = [];
}

-- The globals when the loop starts; `lock_pipe_fd` is the pipe of the lock manager, which is counted in
-- `fd_max` and not waited for.
unfoldable pub main_start : Descriptors → ℕ → Master
main_start d lock_pipe_fd =
    let highest : Master =
      raise_max d.socket_fd (raise_max d.pipe_fd (raise_max lock_pipe_fd (first_globals d))) in
    fd_set d.socket_fd (fd_set d.pipe_fd (fd_set d.signal_fd highest))

-- A new client: the descriptor joins the set, and the counters go up.
unfoldable pub new_client : ℕ → Master → Master
new_client client_fd m =
    let m₁ = raise_max client_fd (fd_set client_fd m) in
    let current = m₁.current_connections +ℤ pos 1 in
    record m₁ {
      current_connections = current;
      max_connections = if ltb_ℤ m₁.max_connections current then current else m₁.max_connections;
    }

-- A request of a client: its descriptor leaves the set for the queue.
unfoldable pub new_request : ℕ → Master → Master
new_request fd m =
    lower_max fd (fd_clr fd (record m { request_queue = m.request_queue ++ pos fd ∷ [] }))

-- A number from the pipe: a descriptor comes back into the set, and -1 changes nothing.
unfoldable pub reinsert : Master → Outcome Master
reinsert m = elim m.pipe [
  | [] ↦ blocked
  | new_fd ∷ rest ↦ elim new_fd [
    | negsuc n ↦ ok (record m { pipe = rest })
    | pos fd ↦ ok (raise_max fd (fd_set fd (record m { pipe = rest })))
  ]
]

abbrev pub fd_setsize : ℕ
fd_setsize = 1024

module _ (d : Descriptors) (rdset : ℕ → Bool) (accepted : Option ℕ) where
  -- The second test: each descriptor that is ready reads the pipe, if that is ready.
  unfoldable pub read_back : ℕ → Master → Outcome Master
  unfolding reinsert
  read_back fd m = if rdset fd && rdset d.pipe_fd then reinsert m else ok m

  -- The body of the `for`. `accepted` is what `accept` gives; after an error of it the second test
  -- is skipped. `FD_SET` of a descriptor that is not below FD_SETSIZE writes outside of the set.
  unfoldable pub visit_fd : ℕ → Master → Outcome Master
  unfolding read_back new_client new_request
  visit_fd fd m =
      if rdset fd && not (fd == d.pipe_fd)
      then (if (fd == d.socket_fd) && (m.set d.socket_fd && m.accept_connection)
          then elim accepted [
            | none ↦ ok m
            | some client_fd ↦
                if leb fd_setsize client_fd then fault else read_back fd (new_client client_fd m)
          ]
          else read_back fd (new_request fd m))
      else read_back fd m

  -- The `for`, from `fd` on; `fd_max` changes on the way. On fuel, and a set has 1024 descriptors.
  unfoldable pub visit_from : ℕ → ℕ → Master → Outcome Master
  unfolding visit_fd
  visit_from zero fd m = ok m
  visit_from (suc fuel) fd m =
      if ltb_ℤ m.fd_max (pos fd) then ok m else and_then (visit_fd fd m) (visit_from fuel (fd + 1))

-- The test behind the `for`.
abbrev pub check_shutdown : Master → Master
check_shutdown m =
    if not m.accept_connection && eq_ℕ m.current_connections 0
    then record m { shutdown_now = true }
    else m

-- The pipe of the signal handler is closed: neither it nor the socket is waited for any more.
unfoldable pub stop_listening : Descriptors → Master → Master
stop_listening d m =
    lower_max d.socket_fd (fd_clr d.socket_fd (lower_max d.signal_fd (fd_clr d.signal_fd m)))

-- One round; `none` is a `select` that fails, which ends the loop.
unfoldable pub main_round :
    Descriptors → Option (ℕ → Bool) → Option ℕ → Master → Outcome (Option Master)
unfolding visit_from stop_listening
main_round d none accepted m = ok none
main_round d (some rdset) accepted m =
    if rdset d.signal_fd
    then ok (some (stop_listening d m))
    else and_then (visit_from d rdset accepted fd_setsize 0 m) (λ m'. ok (some (check_shutdown m')))
