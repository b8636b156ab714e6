-- ===== src/Worker/Locks/Consistent.antt =====
-- The flag O_LOCK of a file and its field `locked_by` agree.
use file_storage_server.Base.{
  ℕ, ◌≡◌, refl, sym, ap, ◌∙◌, ◌&&◌, Bool, true, false, not, some, arith, ◌==◌, inl, inr, Bool-cases,
  Option-cases,
}
use file_storage_server.Base.Int.{pos, negsuc, eq_ℕ}
use file_storage_server.Outcome.{Outcome, ok}
use file_storage_server.Utilities.{CString}
use file_storage_server.Utilities.Flags.{o_lock, chk_flag, chk-set_lock, chk-clr_lock}
use file_storage_server.Protocol.{Request}
use file_storage_server.Protocol.Codes.{Status}
use file_storage_server.Storage.State.{Ptr, File, Server}
use file_storage_server.Storage.Table.{lookup, IsServer, lookup-total}
use file_storage_server.Storage.Touch.{touched, touched-IsServer}
use file_storage_server.Worker.Common.{c_string}
use file_storage_server.Worker.Lookup.{released, released-IsServer, with_file-missing}
use file_storage_server.Worker.Locks.{
  locked, unlocked, lock_file_handler, unlock_file_handler, close_file_handler,
}
use file_storage_server.Worker.Locks.Answers.{lock-answer, unlock-answer, close-answer, queued_for}

-- A file is locked if and only if it names a client.
abbrev pub owner_fits : File → Bool
owner_fits f = elim f.locked_by [
  | pos client_fd ↦ chk_flag f.flags o_lock
  | negsuc n ↦ not (chk_flag f.flags o_lock)
]

abbrev pub IsConsistent : Server → Type 0
IsConsistent s = (p : Ptr) (f : File) → s.heap p ≡ some f → owner_fits f ≡ true

-- The handler returns, in a sound and consistent state with the mutex free.
abbrev pub Keeps : Outcome (Status × Server) → Type 0
Keeps run =
    (status : Status) × (s' : Server) × (run ≡ ok (status, s'))
    × IsServer s'
    × IsConsistent s'
    × (s'.access ≡ false)

touched-IsConsistent :
    (s : Server) (p : Ptr) (f : File)
    → IsConsistent s
    → owner_fits f ≡ true
    → IsConsistent (released (touched s p f))
touched-IsConsistent s p f c fits q g at = elim (Bool-cases (q == p)) [
  | inl here ↦ let same : f ≡ g = ground (arith, here, at) in ap owner_fits (sym same) ∙ fits
  | inr there ↦ c q g (ground (arith, there, at))
]

module _ {s : Server} (w : IsServer s) (c : IsConsistent s) where
  same_state :
      (run : Outcome (Status × Server)) (status : Status)
      → run ≡ ok (status, released s)
      → Keeps run
  same_state run status e = (status, released s, e, released-IsServer w, c, refl)

  changed_state :
      (name : CString) (p : Ptr) (f : File)
      → lookup s name ≡ ok (some p)
      → s.heap p ≡ some f
      → (f' : File) → f'.path ≡ f.path
      → owner_fits f' ≡ true
      → (run : Outcome (Status × Server)) (status : Status)
      → run ≡ ok (status, released (touched s p f'))
      → Keeps run
  changed_state name p f found at f' same fits run status e = (
    status,
    released (touched s p f'),
    e,
    released-IsServer (touched-IsServer w name p f found at f' same),
    touched-IsConsistent s p f' c fits,
    refl,
  )

  module _ (r : Request) (name : CString) (client_fd : ℕ) (path : c_string r.file_path ≡ ok name)
      (unheld : s.access ≡ false) where
    lock-Keeps :
        (p : Ptr) (f : File)
        → lookup s name ≡ ok (some p)
        → s.heap p ≡ some f
        → Keeps (lock_file_handler client_fd r s)
    lock-Keeps p f found at =
        let answer = lock-answer w r name path unheld p f found at client_fd in
        elim (Bool-cases (chk_flag f.flags o_lock)) [
          | inl taken ↦ elim (Bool-cases (eq_ℕ f.locked_by client_fd)) [
            | inl own ↦ same_state _ _ (rw (taken, own) at answer)
            | inr other ↦
                changed_state name p f found at (queued_for f client_fd) refl (c p f at) _ _
                  (rw (taken, other) at answer)
          ]
          | inr free ↦
              changed_state name p f found at (locked f client_fd) refl (chk-set_lock f.flags) _ _
                (rw free at answer)
        ]

    unlock-Keeps :
        (p : Ptr) (f : File)
        → lookup s name ≡ ok (some p)
        → s.heap p ≡ some f
        → Keeps (unlock_file_handler client_fd r s)
    unlock-Keeps p f found at =
        let answer = unlock-answer w r name path unheld p f found at client_fd in
        elim (Bool-cases (chk_flag f.flags o_lock)) [
          | inl taken ↦ elim (Bool-cases (eq_ℕ f.locked_by client_fd)) [
            | inl own ↦
                changed_state name p f found at (unlocked f) refl (ap not (chk-clr_lock f.flags)) _
                  _ (rw (taken, own) at answer)
            | inr other ↦ same_state _ _ (rw (taken, other) at answer)
          ]
          | inr free ↦ same_state _ _ (rw free at answer)
        ]

    close-Keeps :
        (p : Ptr) (f : File)
        → lookup s name ≡ ok (some p)
        → s.heap p ≡ some f
        → Keeps (close_file_handler client_fd r s)
    close-Keeps p f found at =
        let answer = close-answer w r name path unheld p f found at client_fd in
        elim (Bool-cases (chk_flag f.flags o_lock && eq_ℕ f.locked_by client_fd)) [
          | inl own ↦
              changed_state name p f found at (unlocked f) refl (ap not (chk-clr_lock f.flags)) _ _
                (rw own at answer)
          | inr other ↦ same_state _ _ (rw other at answer)
        ]

    -- In a sound state in which the flag O_LOCK of each file agrees with its owner, and with the mutex
    -- free, the handlers that lock, unlock and close a file under a well-formed path return, and leave
    -- such a state again.
    pub locks-keep :
        Keeps (lock_file_handler client_fd r s)
        × Keeps (unlock_file_handler client_fd r s)
        × Keeps (close_file_handler client_fd r s)
    unfolding lock_file_handler unlock_file_handler close_file_handler
    locks-keep =
        let (o, found) = lookup-total w name in
        elim (Option-cases o) [
          | inl e ↦
              let miss = found ∙ ap ok e in
              (
                same_state _ _ (with_file-missing s r name path unheld _ miss),
                same_state _ _ (with_file-missing s r name path unheld _ miss),
                same_state _ _ (with_file-missing s r name path unheld _ miss),
              )
          | inr (p, e) ↦
              let (f, at, n) = w.named name p (found ∙ ap ok e) in
              (
                lock-Keeps p f (found ∙ ap ok e) at,
                unlock-Keeps p f (found ∙ ap ok e) at,
                close-Keeps p f (found ∙ ap ok e) at,
              )
        ]
