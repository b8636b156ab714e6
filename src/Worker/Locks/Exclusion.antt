-- ===== src/Worker/Locks/Exclusion.antt =====
-- A lock keeps the other clients out, until the client that holds it gives it back.
use file_storage_server.Base.{ℕ, ◌≤◌, ◌≡◌, ◌≢◌, refl, ◌∙◌, true, false, some, arith, ltb}
use file_storage_server.Base.Int.{pos, eq_ℕ}
use file_storage_server.Outcome.{ok}
use file_storage_server.Utilities.{CString}
use file_storage_server.Utilities.Flags.{o_lock, chk_flag, chk-set_lock, chk-clr_lock}
use file_storage_server.Protocol.{Request}
use file_storage_server.Protocol.Codes.{success, awaiting, unauthorized}
use file_storage_server.Storage.State.{Ptr, File, Server}
use file_storage_server.Storage.Table.{lookup, IsServer}
use file_storage_server.Storage.Touch.{touched, lookup-touched, touched-IsServer}
use file_storage_server.Worker.Common.{c_string}
use file_storage_server.Worker.Lookup.{released, released-IsServer, with_file-found}
use file_storage_server.Worker.Locks.{locked, unlocked, lock_file_handler, unlock_file_handler}
use file_storage_server.Worker.Locks.Answers.{lock-answer, unlock-answer, queued_for}
use file_storage_server.Worker.Write.{has_no_body, write_file_handler, append_to_file_handler}
use file_storage_server.Worker.Read.{remove_file_handler}

module _ {s : Server} (w : IsServer s) (r : Request) (name : CString)
    (path : c_string r.file_path ≡ ok name) (unheld : s.access ≡ false) (p : Ptr) (f : File)
    (found : lookup s name ≡ ok (some p)) (at : s.heap p ≡ some f) (client_fd : ℕ) where
  -- In a sound state with the mutex free, and while a file is locked by one client, a well-formed
  -- request of another one to write to the file, to append to it, to remove it or to unlock it is
  -- refused and changes nothing, and a request to lock it puts the client at the end of those that
  -- wait.
  pub locked-excludes :
      (other : ℕ)
      → chk_flag f.flags o_lock ≡ true
      → f.locked_by ≡ pos client_fd
      → client_fd ≢ other
      → has_no_body r ≡ false
      → r.body_size ≤ s.max_size
      → (write_file_handler other r s ≡ ok (unauthorized, released s))
        × (append_to_file_handler other r s ≡ ok (unauthorized, released s))
        × (remove_file_handler other r s ≡ ok (unauthorized, released s))
        × (unlock_file_handler other r s ≡ ok (unauthorized, released s))
        × (lock_file_handler other r s ≡ ok (awaiting, released (touched s p (queued_for f other))))
  unfolding write_file_handler append_to_file_handler remove_file_handler
  locked-excludes other taken owner apart some_body fits =
      let not_own : eq_ℕ f.locked_by other ≡ false = ground (arith, owner, apart) in
      let small : ltb s.max_size r.body_size ≡ false = ground (arith, fits) in
      (
        rw (some_body, with_file-found s r name path unheld _ p f found at, not_own),
        rw (some_body, small, with_file-found s r name path unheld _ p f found at, not_own),
        rw (with_file-found s r name path unheld _ p f found at, taken, not_own),
        rw (unlock-answer w r name path unheld p f found at other, taken, not_own),
        rw (lock-answer w r name path unheld p f found at other, taken, not_own),
      )

  taken_file : Server
  taken_file = released (touched s p (locked f client_fd))

  -- In a sound state with the mutex free, a client that locks a file that nobody has locked
  -- succeeds. The same request of another client then waits, and its unlock is refused. The unlock
  -- of the first client succeeds, and leaves the file as it was, but for the cleared flag and
  -- owner.
  pub lock-unlock :
      (other : ℕ)
      → chk_flag f.flags o_lock ≡ false
      → client_fd ≢ other
      → (s' : Server) × (s'' : Server) × (t : Server) × (lock_file_handler client_fd r s
          ≡ ok (success, s'))
        × (lock_file_handler other r s' ≡ ok (awaiting, t))
        × (unlock_file_handler other r s' ≡ ok (unauthorized, s'))
        × (unlock_file_handler client_fd r s' ≡ ok (success, s''))
        × (s''.heap p ≡ some (unlocked (locked f client_fd)))
        × (chk_flag (unlocked (locked f client_fd)).flags o_lock ≡ false)
  unfolding taken_file
  lock-unlock other untaken apart =
      let w' : IsServer taken_file =
        released-IsServer (touched-IsServer w name p f found at (locked f client_fd) refl) in
      let found' : lookup taken_file name ≡ ok (some p) =
        lookup-touched w name p f found at (locked f client_fd) refl name ∙ found in
      let at' : taken_file.heap p ≡ some (locked f client_fd) = ground arith in
      let set : chk_flag (locked f client_fd).flags o_lock ≡ true = chk-set_lock f.flags in
      let own : eq_ℕ (locked f client_fd).locked_by client_fd ≡ true = ground arith in
      let not_own : eq_ℕ (locked f client_fd).locked_by other ≡ false = ground (arith, apart) in
      (
        taken_file,
        released (touched taken_file p (unlocked (locked f client_fd))),
        released (touched taken_file p (queued_for (locked f client_fd) other)),
        rw (lock-answer w r name path unheld p f found at client_fd, untaken),
        rw (lock-answer w' r name path refl p (locked f client_fd) found' at' other, set, not_own),
        rw (
          unlock-answer w' r name path refl p (locked f client_fd) found' at' other,
          set,
          not_own,
        ),
        rw (
          unlock-answer w' r name path refl p (locked f client_fd) found' at' client_fd,
          set,
          own,
        ),
        ground arith,
        chk-clr_lock (locked f client_fd).flags,
      )
