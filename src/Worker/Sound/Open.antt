-- ===== src/Worker/Sound/Open.antt =====
-- server/worker.c: `open_file_handler` from a sound state.
use file_storage_server.Base.{
  ℕ, ◌&&◌, Bool, true, false, ◌≡◌, refl, Option, none, some, List, [], ◌∷◌, if◌then◌else◌,
}
use file_storage_server.Base.Int.{eq_ℕ, ltb_ℤ, ◌+ℤ◌, pos}
use file_storage_server.Outcome.{Outcome, ok, Cmd, pure, ◌>>=◌, ◌>>◌, lift}
use file_storage_server.Utilities.{CString}
use file_storage_server.Utilities.Flags.{o_create, o_lock, o_noflag, chk_flag}
use file_storage_server.Protocol.{Request}
use file_storage_server.Protocol.Codes.{
  Status, success, unauthorized, file_exists, internal_error, not_found,
}
use file_storage_server.Storage.{
  storage_get_file, storage_create_file, storage_remove_file, storage_add_file,
}
use file_storage_server.Storage.State.{Ptr, Server, load, lock_access, with_storage}
use file_storage_server.Storage.Table.{IsServer, lookup}
use file_storage_server.Storage.Sound.{
  Sound, then-Sound, if-Sound, KeepsServer, bind-KeepsServer, load-Sound, get_file-Sound,
  storage_create_file-KeepsServer, storage_add_file-KeepsServer,
}
use file_storage_server.Storage.Drop.{storage_remove_file-KeepsServer}
use file_storage_server.Worker.Common.{c_string, body_int, finish, update}
use file_storage_server.Worker.Locks.{locked}
use file_storage_server.Worker.Open.{
  make_space, create_part, lock_part, noflag_part, part, open_file_handler,
}
use file_storage_server.Worker.Sound.{
  choose-Sound, lift-KeepsServer, lock_access-KeepsServer, finish-KeepsServer, update-Sound,
}

-- The start of each part: the mutex, the path, and the lookup.
looked_up-KeepsServer :
    (r : Request) (k : CString → Option Ptr → Cmd Server (Option Status))
    → ((name : CString) → KeepsServer (k name none))
    → ((name : CString) (p : Ptr) (s : Server)
        → IsServer s
        → lookup s name ≡ ok (some p)
        → Sound (k name (some p) s))
    → KeepsServer (do
      lock_access
      name ← lift (c_string r.file_path)
      found ← storage_get_file name
      k name found)
looked_up-KeepsServer r k missing there =
    bind-KeepsServer lock_access _ lock_access-KeepsServer λ _.
      bind-KeepsServer (lift (c_string r.file_path)) _ (lift-KeepsServer (c_string r.file_path))
        λ name s w.
          get_file-Sound name (k name) s w (missing name s w) λ p found. there name p s w found

noflag_part-KeepsServer : (r : Request) → KeepsServer (noflag_part r)
unfolding noflag_part
noflag_part-KeepsServer r =
    looked_up-KeepsServer r
      (λ _ found. elim found [ none ↦ finish (some not_found) | some file ↦ finish none ])
      (λ name. finish-KeepsServer (some not_found))
      (λ name p s w found. finish-KeepsServer {A = Option Status} none s w)

lock_part-KeepsServer : (fd : ℕ) (r : Request) → KeepsServer (lock_part fd r)
unfolding lock_part
lock_part-KeepsServer fd r =
    looked_up-KeepsServer r _ (λ name. finish-KeepsServer (some not_found))
      (λ name p s w found. load-Sound p _ s λ f at.
        choose-Sound (chk_flag f.flags o_lock && eq_ℕ f.locked_by fd) _ _ s
          (finish-KeepsServer (some unauthorized) s w)
          (then-Sound (update p (locked f fd) s) _ (update-Sound p f (locked f fd) s w at refl)
            λ q w'. finish-KeepsServer {A = Option Status} none q.1 w'))

make_space-KeepsServer : KeepsServer make_space
unfolding make_space
make_space-KeepsServer s w =
    if-Sound (ltb_ℤ s.max_files (s.no_of_files +ℤ pos 1)) _ (ok (true, s)) (first s.fifo_queue) w
  where
    first :
        (queue : List Ptr)
        → Sound (elim queue as (λ x. Outcome (Bool × Server)) [
          | [] ↦ ok (false, s)
          | to_remove_path ∷ rest ↦
              (do
                with_storage (λ st. record st { fifo_queue = rest })
                f ← load to_remove_path
                storage_remove_file f.path
                pure true)
                s
        ])
    first [] = w
    first (p ∷ rest) =
        let w' : IsServer (record s { storage = record s.storage { fifo_queue = rest } }) = record {
          sized = w.sized;
          placed = w.placed;
          named = w.named;
          fresh = w.fresh;
        } in
        load-Sound p _ (record s { storage = record s.storage { fifo_queue = rest } })
          λ f at.
            then-Sound
              (storage_remove_file f.path
                (record s { storage = record s.storage { fifo_queue = rest } }))
              _ (storage_remove_file-KeepsServer f.path _ w') λ q w''. w''

-- What follows the search for space.
added-KeepsServer :
    (p : Ptr) (space : Bool)
    → KeepsServer (
        if space
        then (do storage_add_file p; finish {A = Option Status} none)
        else finish (some internal_error))
added-KeepsServer p true =
    bind-KeepsServer (storage_add_file p) _ (storage_add_file-KeepsServer p)
      λ _. finish-KeepsServer none
added-KeepsServer p false = finish-KeepsServer (some internal_error)

create_part-KeepsServer : (r : Request) → KeepsServer (create_part r)
unfolding create_part
create_part-KeepsServer r =
    looked_up-KeepsServer r _
      (λ name.
        bind-KeepsServer (storage_create_file name) _ (storage_create_file-KeepsServer name) λ p.
          bind-KeepsServer make_space _ make_space-KeepsServer λ space. added-KeepsServer p space)
      (λ name p s w found. finish-KeepsServer (some file_exists) s w)

part-KeepsServer :
    (asked : Bool) (body : Cmd Server (Option Status)) (rest : Cmd Server Status)
    → KeepsServer body
    → KeepsServer rest
    → KeepsServer (part asked body rest)
unfolding part
part-KeepsServer true body rest h k = bind-KeepsServer body _ h after
  where
    after :
        (early : Option Status)
        → KeepsServer
            (elim early as (λ x. Cmd Server Status) [ none ↦ rest | some status ↦ pure status ])
    after none = k
    after (some status) = λ s w. w
part-KeepsServer false body rest h k = k

pub open_file-KeepsServer : (fd : ℕ) (r : Request) → KeepsServer (open_file_handler fd r)
unfolding open_file_handler
open_file-KeepsServer fd r =
    bind-KeepsServer (lift (body_int r)) _ (lift-KeepsServer (body_int r)) λ flags.
      part-KeepsServer (chk_flag flags o_create) (create_part r) _ (create_part-KeepsServer r) (
        part-KeepsServer (chk_flag flags o_lock) (lock_part fd r) _ (lock_part-KeepsServer fd r) (
          part-KeepsServer (chk_flag flags o_noflag) (noflag_part r) (pure success)
            (noflag_part-KeepsServer r) λ s w. w))
