-- ===== src/Worker/Sound.antt =====
-- server/worker.c and server/lock_manager.c: the commands from a sound state. Whatever they return, they
-- leave it sound.
pub mod Handlers
pub mod Open
pub mod Serve
pub mod Steps
use file_storage_server.Base.{
  ℕ, Bool, true, false, ◌≡◌, refl, Option, none, some, List, [], ◌∷◌, if◌then◌else◌, arith,
}
use file_storage_server.Outcome.{Outcome, ok, fault, blocked, Cmd, pure, ◌>>=◌, ◌>>◌, lift}
use file_storage_server.Protocol.{Request}
use file_storage_server.Protocol.Codes.{Status, not_found}
use file_storage_server.Storage.{storage_update_file, is_over, storage_fifo_replace}
use file_storage_server.Storage.State.{
  Ptr, File, Server, load, store, write, lock_access, unlock_access, with_storage,
}
use file_storage_server.Storage.Table.{IsServer}
use file_storage_server.Storage.Touch.{stored-IsServer}
use file_storage_server.Storage.Sound.{
  Sound, then-Sound, if-Sound, KeepsServer, bind-KeepsServer, with_storage-KeepsServer, load-Sound,
  get_file-Sound, send-KeepsServer, storage_update_file-KeepsServer,
}
use file_storage_server.Storage.Drop.{fifo_replace-KeepsServer}
use file_storage_server.Worker.Common.{c_string, finish, update, with_file, respond}
use file_storage_server.Worker.Lookup.{held-IsServer, released-IsServer}
use file_storage_server.Worker.Write.{send_files, send_all, make_room, write_contents}

-- One command or the other.
pub choose-Sound :
    {A : Type 0} (b : Bool) (m m' : Cmd Server A) (s : Server)
    → Sound (m s)
    → Sound (m' s)
    → Sound ((if b then m else m') s)
choose-Sound true m m' s h h' = h
choose-Sound false m m' s h h' = h'

pub lift-KeepsServer : {A : Type 0} (o : Outcome A) → KeepsServer (lift o)
lift-KeepsServer (ok a) s w = w
lift-KeepsServer fault s w = tt
lift-KeepsServer blocked s w = tt

pub lock_access-KeepsServer : KeepsServer lock_access
unfolding lock_access
lock_access-KeepsServer s w = if-Sound s.access blocked _ tt (held-IsServer w)

pub finish-KeepsServer : {A : Type 0} (a : A) → KeepsServer (finish a)
unfolding finish unlock_access
finish-KeepsServer a s w = released-IsServer w

pub unlock_access-KeepsServer : KeepsServer unlock_access
unfolding unlock_access
unlock_access-KeepsServer s w = released-IsServer w

pub update-Sound :
    (p : Ptr) (f f' : File) (s : Server)
    → IsServer s
    → s.heap p ≡ some f
    → f'.path ≡ f.path
    → Sound (update p f' s)
unfolding update store
update-Sound p f f' s w at same =
    rw (at, store)
      (then-Sound (storage_update_file p (record s { heap = write s.heap p (some f') })) _
        (storage_update_file-KeepsServer p _ (stored-IsServer w p f at f' same)) λ r w'. w')

-- A body gets the file that its pointer leads to.
pub with_file-KeepsServer :
    (r : Request) (body : Ptr → File → Cmd Server Status)
    → ((p : Ptr) (f : File) (s : Server) → IsServer s → s.heap p ≡ some f → Sound (body p f s))
    → KeepsServer (with_file r body)
unfolding with_file
with_file-KeepsServer r body h = bind-KeepsServer lock_access _ lock_access-KeepsServer λ _.
    bind-KeepsServer (lift (c_string r.file_path)) _ (lift-KeepsServer (c_string r.file_path))
      λ name s w.
        get_file-Sound name _ s w (finish-KeepsServer not_found s w)
          λ p found. load-Sound p _ s λ f at. h p f s w at

pub respond-KeepsServer :
    (client_fd : ℕ) (status : Status) (path : List ℕ) (body_size : ℕ) (body : List ℕ)
    → KeepsServer (respond client_fd status path body_size body)
unfolding respond
respond-KeepsServer client_fd status path body_size body = send-KeepsServer _

send_files-KeepsServer :
    (client_fd : ℕ) (status : Status) (files : List File)
    → KeepsServer (send_files client_fd status files)
unfolding send_files
send_files-KeepsServer client_fd status [] = λ s w. w
send_files-KeepsServer client_fd status (f ∷ files) =
    bind-KeepsServer (respond client_fd status _ _ _) _ (respond-KeepsServer client_fd status _ _ _)
      λ _. send_files-KeepsServer client_fd status files

pub send_all-KeepsServer :
    (client_fd : ℕ) (status : Status) (files : List File)
    → KeepsServer (send_all client_fd status files)
unfolding send_all
send_all-KeepsServer client_fd status files =
    bind-KeepsServer (respond client_fd status _ _ _) _ (respond-KeepsServer client_fd status _ _ _)
      λ _. send_files-KeepsServer client_fd status files

pub make_room-KeepsServer : (client_fd : ℕ) (r : Request) → KeepsServer (make_room client_fd r)
unfolding make_room
make_room-KeepsServer client_fd r s w =
    if-Sound (is_over r.body_size s) _ (ok (tt, s))
      (then-Sound (storage_fifo_replace r.body_size s) _ (fifo_replace-KeepsServer r.body_size s w)
        λ q w'. send_all-KeepsServer client_fd _ q.0 q.1 w')
      w

pub write_contents-KeepsServer : (p : Ptr) (r : Request) → KeepsServer (write_contents p r)
unfolding write_contents finish unlock_access
write_contents-KeepsServer p r s w = load-Sound p _ s λ f at.
    then-Sound (update p _ s) _ (update-Sound p f _ s w at refl)
      λ q w'. record { sized = w'.sized; placed = w'.placed; named = w'.named; fresh = w'.fresh }
