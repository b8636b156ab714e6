-- ===== src/Tests/Shutdown.antt =====
-- The start and the end of the server.
use file_storage_server.Base.{
  ◌*◌, ◌≤◌, ◌≡◌, refl, true, ◌⊎◌, none, some, List, [], ◌∷◌, ◌++◌, length, All, arith, IsIn, subst,
  sym,
}
use file_storage_server.Base
use file_storage_server.Base.Int.{pos, negsuc}
use file_storage_server.Outcome.{fault}
use file_storage_server.Master.{Master}
use file_storage_server.Master.Config.{Config}
use file_storage_server.Master.Threads.{
  Place, waiting, gone, serving, worker_turn, take_request, send_termination,
}
use file_storage_server.Master.Startup.{nothing, main, shut_down, shutdown_all_threads}
use file_storage_server.Master.Destroyed.{all_made, main-queued}
use file_storage_server.Master.Shutdown.{
  Goes, here, there, Runs, stop, turn, waiters, has_left, shut_down-ends,
}
use file_storage_server.Tests.{path_a}
use file_storage_server.Tests.Reach.{passed, run, find_passed, queue_passed}
use file_storage_server.Tests.Connections.{started}

-- The socket is "s".
abbrev config : Config
config = record {
  no_of_workers = 2;
  max_size = 10;
  max_files = 2;
  socket_path = some (115 ∷ []);
  log_file = none;
  storage_file = some (120 ∷ []);
}

main-queued_example :
    main (some config) all_made (shut_down passed (pos 0) (pos 0) (pos 0 ∷ pos 0 ∷ [])) nothing
    ≡ fault
main-queued_example =
    main-queued config (115 ∷ []) (shut_down passed (pos 0) (pos 0) (pos 0 ∷ pos 0 ∷ [])) path_a 0
      refl refl (ground arith) run find_passed (subst (IsIn 0) (sym queue_passed) Base.here)

-- Worker 0 waits while a request is left, and worker 1 serves a client.
abbrev stopping : Master
stopping = record started { shutdown_now = true; request_queue = pos 7 ∷ [] }

abbrev stopped : Master
stopped = record stopping { request_queue = pos 7 ∷ negsuc 0 ∷ negsuc 0 ∷ [] }

abbrev after_one : Master
after_one = record stopped { request_queue = negsuc 0 ∷ negsuc 0 ∷ [] }

-- Worker 0 takes the request, and worker 1 leaves.
two_turns :
    Runs 2
      (waiting ∷ serving 5 ∷ [])
      (record stopping {
        request_queue =
            (shutdown_all_threads (pos 0) (pos 0) (pos 0 ∷ pos 0 ∷ []) stopping.request_queue).1;
      })
      (serving 7 ∷ gone ∷ [])
      (record after_one { pipe = after_one.pipe ++ pos 5 ∷ [] })
unfolding shutdown_all_threads send_termination worker_turn take_request
two_turns =
    turn 1 _ (serving 7 ∷ serving 5 ∷ []) _ _ after_one _
      (turn 0 _ _ _ _ stopped _ (stop _ _) (here (pos 0) waiting (serving 5 ∷ []) stopped refl))
      (there (serving 7) _ _ _ _ (here (pos 5) (serving 5) [] after_one refl))

shut_down-ends_example :
    (waiters (serving 7 ∷ gone ∷ []) ≤ length after_one.request_queue)
    × (2 ≤ 2 * 2)
    × ((All (λ p. has_left p ≡ true) (serving 7 ∷ gone ∷ []))
        ⊎ ((ps : List Place) × (m : Master) × Goes
              (serving 7 ∷ gone ∷ [])
              (record after_one { pipe = after_one.pipe ++ pos 5 ∷ [] })
              ps
              m))
shut_down-ends_example =
    shut_down-ends (waiting ∷ serving 5 ∷ []) stopping (pos 0) (pos 0) (pos 0 ∷ pos 0 ∷ []) refl
      refl 2 (serving 7 ∷ gone ∷ []) (record after_one { pipe = after_one.pipe ++ pos 5 ∷ [] })
      two_turns
