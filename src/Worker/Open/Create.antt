-- ===== src/Worker/Open/Create.antt =====
-- `open_file_handler` with O_CREATE, and with O_LOCK beside it.
use file_storage_server.Base.{
  ℕ, ◌<◌, ◌≡◌, ◌≢◌, refl, sym, ap, ◌∙◌, ◌&&◌, true, false, none, some, [], arith, if◌then◌else◌,
  length, leb,
}
use file_storage_server.Base.Int.{pos, negsuc, ◌+ℤ◌, ltb_ℤ, eq_ℕ}
use file_storage_server.Outcome.{ok}
use file_storage_server.Utilities.{CString, string_compare}
use file_storage_server.Utilities.Strings.{string_compare_refl}
use file_storage_server.Utilities.Flags.{
  o_create, o_lock, o_noflag, chk_flag, set_flag, chk-set_lock,
}
use file_storage_server.Protocol.{Request, max_path}
use file_storage_server.Protocol.Codes.{success, unauthorized}
use file_storage_server.Storage.{storage_get_file, storage_create_file}
use file_storage_server.Storage.State.{Ptr, File, Server, write, alloc}
use file_storage_server.Storage.Table.{
  lookup, IsServer, allocated, allocated-IsServer, lookup-allocated, lookup-total, add_file-lookup,
}
use file_storage_server.Storage.Touch.{touched, lookup-touched, touched-IsServer}
use file_storage_server.Worker.Common.{c_string, body_int}
use file_storage_server.Worker.Lookup.{held-IsServer, released, released-IsServer, update-ok}
use file_storage_server.Worker.Locks.{locked, unlock_file_handler}
use file_storage_server.Worker.Locks.Answers.{unlock-answer}
use file_storage_server.Worker.Open.{make_space, create_part, lock_part, open_file_handler}

-- What `storage_create_file` makes.
abbrev pub new_file : CString → File
new_file name = record {
  path = name;
  flags = set_flag 0 o_create;
  size = 0;
  contents = [];
  locked_by = negsuc 0;
  waiting_on_lock = [];
}

-- The part for O_LOCK takes the lock unless this client holds it.
pub lock_part-takes :
    {s : Server} (w : IsServer s) (r : Request) (name : CString)
    → c_string r.file_path ≡ ok name
    → s.access ≡ false
    → (p : Ptr) (f : File) → lookup s name ≡ ok (some p)
    → s.heap p ≡ some f
    → (client_fd : ℕ) → (chk_flag f.flags o_lock && eq_ℕ f.locked_by client_fd) ≡ false
    → lock_part client_fd r s ≡ ok (none, released (touched s p (locked f client_fd)))
unfolding lock_part storage_get_file
lock_part-takes w r name path unheld p f found at client_fd not_own = ground (
  arith,
  path,
  unheld,
  found,
  at,
  not_own,
  update-ok (held-IsServer w) name p f found at (locked f client_fd) refl,
)

module _ {s : Server} (w : IsServer s) (r : Request) (name : CString)
    (path : c_string r.file_path ≡ ok name) (unheld : s.access ≡ false) where
  create_part-answer :
      lookup s name ≡ ok none
      → length name < max_path
      → ltb_ℤ s.max_files (s.no_of_files +ℤ pos 1) ≡ false
      → (s' : Server) × (create_part r s ≡ ok (none, s'))
        × (s'.access ≡ false)
        × (s'.heap s.next ≡ some (new_file name))
        × ((j : CString)
            → lookup s' j ≡ (if string_compare name j then ok (some s.next) else lookup s j))
        × IsServer s'
  unfolding create_part storage_get_file storage_create_file alloc make_space
  create_part-answer miss short room =
      let w' : IsServer (allocated (held-IsServer w) (new_file name)) =
        allocated-IsServer (held-IsServer w) (new_file name) in
      let at : write s.heap s.next (some (new_file name)) s.next ≡ some (new_file name) =
        ground arith in
      let (t, m, add, shape, found, sound) = add_file-lookup w' s.next (new_file name) at in
      let fits : leb max_path (length name) ≡ false = ground (arith, short) in
      (
        released t,
        rw (unheld, path, miss, fits, room, add),
        refl,
        ap (λ x. x.heap s.next) shape ∙ at,
        λ j.
            let (o, e) = lookup-total w j in
            let kept : lookup (allocated (held-IsServer w) (new_file name)) j ≡ ok o =
              lookup-allocated (held-IsServer w) (new_file name) j o e in
            found j
            ∙ ap (λ x. if string_compare name j then ok (some s.next) else x) (kept ∙ sym e),
        released-IsServer sound,
      )

  -- In a sound state with the mutex free, a client that opens a file under a short enough name that
  -- the table does not know, with O_CREATE and O_LOCK and without O_NOFLAG, while the table may
  -- take one more file, succeeds: the name then leads to a new file, empty, fresh and locked by the
  -- client; every other lookup gives what it gave; the mutex is free and the state is sound.
  pub open-create :
      (client_fd flags : ℕ)
      → body_int r ≡ ok flags
      → chk_flag flags o_create ≡ true
      → chk_flag flags o_lock ≡ true
      → chk_flag flags o_noflag ≡ false
      → lookup s name ≡ ok none
      → length name < max_path
      → ltb_ℤ s.max_files (s.no_of_files +ℤ pos 1) ≡ false
      → (s' : Server) × (open_file_handler client_fd r s ≡ ok (success, s'))
        × (s'.access ≡ false)
        × (lookup s' name ≡ ok (some s.next))
        × (s'.heap s.next ≡ some (locked (new_file name) client_fd))
        × ((j : CString) → string_compare name j ≡ false → lookup s' j ≡ lookup s j)
        × IsServer s'
  unfolding open_file_handler set_flag
  open-create client_fd flags body create lock no_noflag miss short room =
      let (t, run, free, at, found, w') = create_part-answer miss short room in
      let here : lookup t name ≡ ok (some s.next) = found name ∙ rw (string_compare_refl name) in
      let owned : File = locked (new_file name) client_fd in
      let next_part : lock_part client_fd r t ≡ ok (none, released (touched t s.next owned)) =
        lock_part-takes w' r name path free s.next (new_file name) here at client_fd
          (ground arith) in
      let same : (j : CString) → lookup (released (touched t s.next owned)) j ≡ lookup t j =
        λ j. lookup-touched w' name s.next (new_file name) here at owned refl j in
      (
        released (touched t s.next owned),
        ground (arith, body, create, lock, no_noflag, run, next_part),
        refl,
        same name ∙ here,
        ground arith,
        λ j apart. same j ∙ found j ∙ rw apart,
        released-IsServer (touched-IsServer w' name s.next (new_file name) here at owned refl),
      )

-- In a sound state with the mutex free, a client that opens a file with O_LOCK alone gets the lock
-- from the client that holds it: the open succeeds, the file is locked by the client that asked,
-- and the one that held the lock is refused when it unlocks.
pub open-takes_over :
    {s : Server} (w : IsServer s) (r q : Request) (name : CString)
    → c_string r.file_path ≡ ok name
    → c_string q.file_path ≡ ok name
    → s.access ≡ false
    → (p : Ptr) (f : File) → lookup s name ≡ ok (some p)
    → s.heap p ≡ some f
    → (client_fd holder flags : ℕ) → chk_flag f.flags o_lock ≡ true
    → f.locked_by ≡ pos holder
    → holder ≢ client_fd
    → body_int r ≡ ok flags
    → chk_flag flags o_create ≡ false
    → chk_flag flags o_lock ≡ true
    → chk_flag flags o_noflag ≡ false
    → (s' : Server) × (open_file_handler client_fd r s ≡ ok (success, s'))
      × (s'.heap p ≡ some (locked f client_fd))
      × (unlock_file_handler holder q s' ≡ ok (unauthorized, s'))
unfolding open_file_handler
open-takes_over {s} w r q name path path' unheld p f found at client_fd holder flags taken held_by
      apart body create lock no_noflag =
    let not_own : (chk_flag f.flags o_lock && eq_ℕ f.locked_by client_fd) ≡ false =
      ground (arith, held_by, apart) in
    let take = lock_part-takes w r name path unheld p f found at client_fd not_own in
    let owned : File = locked f client_fd in
    let w' : IsServer (released (touched s p owned)) =
      released-IsServer (touched-IsServer w name p f found at owned refl) in
    let not_holder : eq_ℕ owned.locked_by holder ≡ false = ground (arith, apart) in
    (
      released (touched s p owned),
      ground (arith, body, create, lock, no_noflag, take),
      ground arith,
      rw (
        unlock-answer w' q name path' refl p owned
            (lookup-touched w name p f found at owned refl name ∙ found) (ground arith) holder,
        chk-set_lock f.flags,
        not_holder,
      ),
    )
