-- ===== src/Worker/Locks/Answers.antt =====
-- What the handlers of locks answer and leave behind.
use file_storage_server.Base.{
  ℕ, ◌≡◌, refl, ◌&&◌, false, some, [], ◌∷◌, ◌++◌, if◌then◌else◌, inl, inr, Bool-cases,
}
use file_storage_server.Base.Int.{eq_ℕ}
use file_storage_server.Outcome.{ok}
use file_storage_server.Utilities.{CString}
use file_storage_server.Utilities.Flags.{o_lock, chk_flag}
use file_storage_server.Protocol.{Request}
use file_storage_server.Protocol.Codes.{success, awaiting, bad_request, unauthorized}
use file_storage_server.Storage.State.{Ptr, File, Server}
use file_storage_server.Storage.Table.{lookup, IsServer}
use file_storage_server.Storage.Touch.{touched}
use file_storage_server.Worker.Common.{c_string}
use file_storage_server.Worker.Lookup.{released, held-IsServer, with_file-found, update-ok}
use file_storage_server.Worker.Locks.{
  locked, unlocked, lock_file_handler, unlock_file_handler, close_file_handler,
}

-- The file with one more client that waits.
abbrev pub queued_for : File → ℕ → File
queued_for f client_fd = record f { waiting_on_lock = f.waiting_on_lock ++ client_fd ∷ [] }

module _ {s : Server} (w : IsServer s) (r : Request) (name : CString)
    (path : c_string r.file_path ≡ ok name) (unheld : s.access ≡ false) (p : Ptr) (f : File)
    (found : lookup s name ≡ ok (some p)) (at : s.heap p ≡ some f) (client_fd : ℕ) where
  pub lock-answer : lock_file_handler client_fd r s ≡ (
      if chk_flag f.flags o_lock
      then (if eq_ℕ f.locked_by client_fd
          then ok (success, released s)
          else ok (awaiting, released (touched s p (queued_for f client_fd))))
      else ok (success, released (touched s p (locked f client_fd))))
  unfolding lock_file_handler
  lock-answer = elim (Bool-cases (chk_flag f.flags o_lock)) [
    | inl taken ↦ elim (Bool-cases (eq_ℕ f.locked_by client_fd)) [
      | inl own ↦ rw (with_file-found s r name path unheld _ p f found at, taken, own)
      | inr other ↦ rw (
        with_file-found s r name path unheld _ p f found at,
        taken,
        other,
        update-ok (held-IsServer w) name p f found at (queued_for f client_fd) refl,
      )
    ]
    | inr untaken ↦ rw (
      with_file-found s r name path unheld _ p f found at,
      untaken,
      update-ok (held-IsServer w) name p f found at (locked f client_fd) refl,
    )
  ]

  pub unlock-answer : unlock_file_handler client_fd r s ≡ (
      if chk_flag f.flags o_lock
      then (if eq_ℕ f.locked_by client_fd
          then ok (success, released (touched s p (unlocked f)))
          else ok (unauthorized, released s))
      else ok (bad_request, released s))
  unfolding unlock_file_handler
  unlock-answer = elim (Bool-cases (chk_flag f.flags o_lock)) [
    | inl taken ↦ elim (Bool-cases (eq_ℕ f.locked_by client_fd)) [
      | inl own ↦ rw (
        with_file-found s r name path unheld _ p f found at,
        taken,
        own,
        update-ok (held-IsServer w) name p f found at (unlocked f) refl,
      )
      | inr other ↦ rw (with_file-found s r name path unheld _ p f found at, taken, other)
    ]
    | inr untaken ↦ rw (with_file-found s r name path unheld _ p f found at, untaken)
  ]

  pub close-answer : close_file_handler client_fd r s ≡ (
      if chk_flag f.flags o_lock && eq_ℕ f.locked_by client_fd
      then ok (success, released (touched s p (unlocked f)))
      else ok (success, released s))
  unfolding close_file_handler
  close-answer = elim (Bool-cases (chk_flag f.flags o_lock && eq_ℕ f.locked_by client_fd)) [
    | inl own ↦ rw (
      with_file-found s r name path unheld _ p f found at,
      own,
      update-ok (held-IsServer w) name p f found at (unlocked f) refl,
    )
    | inr other ↦ rw (with_file-found s r name path unheld _ p f found at, other)
  ]
