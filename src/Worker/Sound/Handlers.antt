-- ===== src/Worker/Sound/Handlers.antt =====
-- server/worker.c and server/lock_manager.c: each handler, and a pass of the lock manager, from a sound
-- state.
use file_storage_server.Base.{
  ℕ, zero, suc, Bool, true, false, ◌&&◌, ◌≡◌, refl, some, List, [], ◌∷◌, ltb, if◌then◌else◌,
}
use file_storage_server.Base.Int.{eq_ℕ}
use file_storage_server.Outcome.{ok, pure, ◌>>=◌, ◌>>◌, lift}
use file_storage_server.Utilities.Flags.{o_create, o_lock, chk_flag}
use file_storage_server.Protocol.{Request}
use file_storage_server.Protocol.Codes.{
  Status, success, bad_request, unauthorized, file_too_big, file_exists, internal_error, awaiting,
}
use file_storage_server.Storage.{storage_remove_file}
use file_storage_server.Storage.State.{Ptr, File, Server, lock_access, unlock_access}
use file_storage_server.Storage.Table.{IsServer}
use file_storage_server.Storage.Sound.{
  Sound, then-Sound, if-Sound, KeepsServer, bind-KeepsServer, load-Sound, get_file-Sound,
}
use file_storage_server.Storage.Drop.{storage_remove_file-KeepsServer}
use file_storage_server.Worker.Common.{c_string, body_int, finish, update}
use file_storage_server.Worker.Locks.{lock_file_handler, unlock_file_handler, close_file_handler}
use file_storage_server.Worker.Write.{
  has_no_body, refuse_big, send_all, write_file_handler, append_to_file_handler, make_room,
}
use file_storage_server.Worker.Read.{
  read_file_handler, collect, load_all, read_n_files_handler, remove_file_handler, rounds,
}
use file_storage_server.Worker.Sound.{
  choose-Sound, lift-KeepsServer, lock_access-KeepsServer, finish-KeepsServer,
  unlock_access-KeepsServer, update-Sound, with_file-KeepsServer, send_all-KeepsServer,
  make_room-KeepsServer, write_contents-KeepsServer,
}

-- A change of the file that keeps its path, and the answer.
changed-Sound :
    (p : Ptr) (f f' : File) (status : Status) (s : Server)
    → IsServer s
    → s.heap p ≡ some f
    → f'.path ≡ f.path
    → Sound ((update p f' >> finish status) s)
changed-Sound p f f' status s w at same =
    then-Sound (update p f' s) _ (update-Sound p f f' s w at same)
      λ q w'. finish-KeepsServer status q.1 w'

pub lock_file-KeepsServer : (fd : ℕ) (r : Request) → KeepsServer (lock_file_handler fd r)
unfolding lock_file_handler
lock_file-KeepsServer fd r = with_file-KeepsServer r _ λ p f s w at.
    choose-Sound (chk_flag f.flags o_lock) _ _ s
      (choose-Sound (eq_ℕ f.locked_by fd) _ _ s (finish-KeepsServer success s w)
        (changed-Sound p f _ awaiting s w at refl))
      (changed-Sound p f _ success s w at refl)

pub unlock_file-KeepsServer : (fd : ℕ) (r : Request) → KeepsServer (unlock_file_handler fd r)
unfolding unlock_file_handler
unlock_file-KeepsServer fd r = with_file-KeepsServer r _ λ p f s w at.
    choose-Sound (chk_flag f.flags o_lock) _ _ s
      (choose-Sound (eq_ℕ f.locked_by fd) _ _ s (changed-Sound p f _ success s w at refl)
        (finish-KeepsServer unauthorized s w))
      (finish-KeepsServer bad_request s w)

pub close_file-KeepsServer : (fd : ℕ) (r : Request) → KeepsServer (close_file_handler fd r)
unfolding close_file_handler
close_file-KeepsServer fd r = with_file-KeepsServer r _ λ p f s w at.
    choose-Sound (chk_flag f.flags o_lock && eq_ℕ f.locked_by fd) _ _ s
      (changed-Sound p f _ success s w at refl) (finish-KeepsServer success s w)

refuse_big-KeepsServer : (r : Request) → KeepsServer (refuse_big r)
unfolding refuse_big
refuse_big-KeepsServer r = bind-KeepsServer unlock_access _ unlock_access-KeepsServer λ _.
    bind-KeepsServer (lift (c_string r.file_path)) _ (lift-KeepsServer (c_string r.file_path))
      λ name.
        bind-KeepsServer (storage_remove_file name) (λ _. pure file_too_big)
          (storage_remove_file-KeepsServer name) λ _ s w. w

pub write_file-KeepsServer : (fd : ℕ) (r : Request) → KeepsServer (write_file_handler fd r)
unfolding write_file_handler
write_file-KeepsServer fd r s w = choose-Sound (has_no_body r) (pure bad_request) _ s w (
    with_file-KeepsServer r _
      (λ p f s w at.
        choose-Sound (eq_ℕ f.locked_by fd) _ _ s
          (if-Sound (ltb s.max_size r.body_size) _ _ (refuse_big-KeepsServer r s w) (
            if-Sound (chk_flag f.flags o_create) _ _
              (bind-KeepsServer (make_room fd r) _ (make_room-KeepsServer fd r)
                (λ _. write_contents-KeepsServer p r) s w)
              (finish-KeepsServer file_exists s w)))
          (finish-KeepsServer unauthorized s w))
      s w)

pub append_to_file-KeepsServer : (fd : ℕ) (r : Request) → KeepsServer (append_to_file_handler fd r)
unfolding append_to_file_handler finish unlock_access
append_to_file-KeepsServer fd r s w = if-Sound (has_no_body r) (ok (bad_request, s)) _ w (
    if-Sound (ltb s.max_size r.body_size) (ok (file_too_big, s)) _ w (
      with_file-KeepsServer r _
        (λ p f s w at.
          choose-Sound (eq_ℕ f.locked_by fd) _ _ s
            (then-Sound (update p _ s) _ (update-Sound p f _ s w at refl) λ q w'. record {
              sized = w'.sized;
              placed = w'.placed;
              named = w'.named;
              fresh = w'.fresh;
            })
            (finish-KeepsServer unauthorized s w))
        s w))

pub read_file-KeepsServer : (r : Request) → KeepsServer (read_file_handler r)
unfolding read_file_handler
read_file-KeepsServer r = bind-KeepsServer lock_access _ lock_access-KeepsServer λ _.
    bind-KeepsServer (lift (c_string r.file_path)) _ (lift-KeepsServer (c_string r.file_path))
      λ name s w. get_file-Sound name _ s w w λ p found.
        load-Sound p _ s
          λ f at. finish-KeepsServer {A = Status × (ℕ × List ℕ)} (success, (f.size, f.contents)) s w

collect-KeepsServer : (n : ℕ) (queue : List Ptr) → KeepsServer (collect n queue)
unfolding collect
collect-KeepsServer zero queue = λ s w. w
collect-KeepsServer (suc n) [] = λ s w. w
collect-KeepsServer (suc n) (p ∷ queue) = λ s w. load-Sound p _ s λ queued at.
    get_file-Sound queued.path _ s w w λ file found.
      bind-KeepsServer (collect n queue) (λ rest. pure (rest.0, file ∷ rest.1))
        (collect-KeepsServer n queue) (λ rest s w. w) s w

load_all-KeepsServer : (files : List Ptr) → KeepsServer (load_all files)
unfolding load_all
load_all-KeepsServer [] = λ s w. w
load_all-KeepsServer (p ∷ files) = λ s w.
    load-Sound p _ s
      λ f at. bind-KeepsServer (load_all files) _ (load_all-KeepsServer files) (λ rest s w. w) s w

pub remove_file-KeepsServer : (fd : ℕ) (r : Request) → KeepsServer (remove_file_handler fd r)
unfolding remove_file_handler
remove_file-KeepsServer fd r = with_file-KeepsServer r _ λ p f s w at.
    choose-Sound (chk_flag f.flags o_lock) _ _ s
      (choose-Sound (eq_ℕ f.locked_by fd) _ _ s
        (bind-KeepsServer (lift (c_string r.file_path)) _ (lift-KeepsServer (c_string r.file_path))
          (λ name.
            bind-KeepsServer (storage_remove_file name) _ (storage_remove_file-KeepsServer name)
              λ _. finish-KeepsServer success)
          s w)
        (finish-KeepsServer unauthorized s w))
      (finish-KeepsServer unauthorized s w)

-- What follows the loop over the queue.
send_collected-KeepsServer :
    (fd : ℕ) (found : Bool) (files : List Ptr)
    → KeepsServer (
        if found
        then (do
          finish tt
          to_send ← load_all files
          send_all fd success to_send
          pure {A = Status × List Ptr} (success, []))
        else finish (internal_error, files))
send_collected-KeepsServer fd false files =
    finish-KeepsServer {A = Status × List Ptr} (internal_error, files)
send_collected-KeepsServer fd true files =
    bind-KeepsServer (finish tt) _ (finish-KeepsServer tt) λ _.
      bind-KeepsServer (load_all files) _ (load_all-KeepsServer files) λ to_send.
        bind-KeepsServer (send_all fd success to_send)
          (λ _. pure {A = Status × List Ptr} (success, []))
          (send_all-KeepsServer fd success to_send) λ _ s w. w

pub read_n_files-KeepsServer : (fd : ℕ) (r : Request) → KeepsServer (read_n_files_handler fd r)
unfolding read_n_files_handler
read_n_files-KeepsServer fd r =
    bind-KeepsServer (lift (body_int r)) _ (lift-KeepsServer (body_int r)) λ how_many.
      bind-KeepsServer lock_access _ lock_access-KeepsServer λ _.
        bind-KeepsServer (λ s. collect (rounds how_many s.max_size) s.fifo_queue s) _
          (λ s w. collect-KeepsServer (rounds how_many s.max_size) s.fifo_queue s w)
          (λ list. send_collected-KeepsServer fd list.0 list.1)
