-- ===== src/Worker/Sound/Steps.antt =====
-- server/worker.c and server/lock_manager.c: what the workers and the lock manager do to the storage, in
-- any order, from the start on.
use file_storage_server.Base.{ℕ, ◌≡◌, refl, ◌<◌, some, List, [], ◌∷◌, ◌++◌, subst}
use file_storage_server.Base.Int.{ℤ}
use file_storage_server.Outcome.{ok, Cmd, pure, ◌>>◌}
use file_storage_server.Utilities.Flags.{o_lock, chk_flag}
use file_storage_server.Protocol.{Request}
use file_storage_server.Protocol.Codes.{success}
use file_storage_server.Storage.State.{Ptr, File, Server, lock_access, unlock_access}
use file_storage_server.Storage.Table.{IsServer, started, started-IsServer}
use file_storage_server.Storage.Sound.{
  Sound, then-Sound, KeepsServer, bind-KeepsServer, load-Sound, get_file-Sound,
}
use file_storage_server.Worker.Common.{respond, update}
use file_storage_server.Worker.Locks.{locked}
use file_storage_server.Worker.{Global, worker_step, case_of, all_codes}
use file_storage_server.Worker.Sound.{
  choose-Sound, lock_access-KeepsServer, unlock_access-KeepsServer, update-Sound,
  respond-KeepsServer,
}
use file_storage_server.LockManager.{grant, visit, pass}
use file_storage_server.Worker.Sound.Serve.{SoundGlobal, SparesCase, worker_step-Sound}

grant-Sound :
    (p : Ptr) (f : File) (s : Server) → IsServer s → s.heap p ≡ some f → Sound (grant p f s)
unfolding grant
grant-Sound p f s w at =
    choose-Sound (chk_flag f.flags o_lock) (pure tt) _ s w (first f.waiting_on_lock)
  where
    first :
        (waiting : List ℕ)
        → Sound (
            (elim waiting as (λ x. Cmd Server (Unit {0})) [
              | [] ↦ pure tt
              | client_fd ∷ rest ↦ do
                update p (locked (record f { waiting_on_lock = rest }) client_fd)
                respond client_fd success (f.path ++ 0 ∷ []) 0 []
            ])
              s)
    first [] = w
    first (client_fd ∷ rest) =
        then-Sound (update p _ s) _ (update-Sound p f _ s w at refl)
          λ q w'. respond-KeepsServer client_fd success _ 0 [] q.1 w'

visit-KeepsServer : (queue : List Ptr) → KeepsServer (visit queue)
unfolding visit
visit-KeepsServer [] = λ s w. w
visit-KeepsServer (curr ∷ queue) = λ s w. load-Sound curr _ s λ queued at.
    get_file-Sound queued.path _ s w w λ p found. load-Sound p _ s λ f at'.
      then-Sound (grant p f s) _ (grant-Sound p f s w at') λ q w'. visit-KeepsServer queue q.1 w'

pass-KeepsServer : KeepsServer pass
unfolding pass
pass-KeepsServer = bind-KeepsServer lock_access _ lock_access-KeepsServer λ _.
    bind-KeepsServer (λ s. visit s.fifo_queue s) (λ _. unlock_access)
      (λ s w. visit-KeepsServer s.fifo_queue s w) λ _. unlock_access-KeepsServer

-- A step: a worker serves a request that spares the files, or the lock manager makes a pass.
pub data Step : Server → Server → Type 0 where
  work :
      (client_fd : ℕ) (r : Request) (g g' : Global) (n : ℤ)
      → SparesCase (case_of r.type all_codes) client_fd r g.server
      → worker_step client_fd r g ≡ ok (n, g')
      → Step g.server g'.server
  manage : {s s' : Server} → pass s ≡ ok (tt, s') → Step s s'

pub data Steps (s : Server) : Server → Type 0 where
  start : Steps s s
  next : {s' s'' : Server} → Steps s s' → Step s' s'' → Steps s s''

Step-IsServer : {s s' : Server} → Step s s' → IsServer s → IsServer s'
Step-IsServer (work client_fd r g g' n spares e) w =
    subst SoundGlobal e (worker_step-Sound client_fd r g w spares)
Step-IsServer (manage {s} e) w = subst Sound e (pass-KeepsServer s w)

-- From the start of a server with room for at least one file on, whatever requests the workers serve, where
-- READ_N_FILES finds each queued file that it looks for, and whatever passes the lock manager makes, in any
-- order, the state that is reached is sound.
pub Steps-IsServer :
    (max_size max_files : ℕ) (s : Server)
    → 0 < max_files
    → Steps (started max_size max_files) s
    → IsServer s
Steps-IsServer max_size max_files s some_files steps = walk steps
  where
    walk : {t : Server} → Steps (started max_size max_files) t → IsServer t
    walk start = started-IsServer max_size max_files some_files
    walk (next before step) = Step-IsServer step (walk before)
