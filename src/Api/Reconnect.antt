-- ===== src/Api/Reconnect.antt =====
-- api/fileserver_api.c: what `openConnection` does when it cannot connect, and behind a close.
use file_storage_server.Base.{
  ℕ, ◌+◌, ◌≤◌, ◌<◌, ◌≡◌, subst, refl, ◌∙◌, true, false, some, List, [], ◌∷◌, ltb, leb, length, inl,
  inr, Bool-cases, arith, Option-cases,
}
use file_storage_server.Base.Int.{ℤ, pos, negsuc}
use file_storage_server.Outcome.{ok, Ends}
use file_storage_server.Utilities.{CString}
use file_storage_server.Protocol.{Transport}
use file_storage_server.Api.State.{Client, Host, eisconn, send, exchange}
use file_storage_server.Api.Kept.{Has, close_connection-Keeps}
use file_storage_server.Api.Connection.{
  Attempt, Connected, connected, expired, interrupted, connect_loop, sun_path, handshake,
  open_connection, close_connection,
}

-- Each time that the clock gives is later than the one before; the first is read at `now`.
abbrev pub IsLater : ℕ → List Attempt → Type 0
IsLater now [] = Unit
IsLater now (a ∷ rest) = (later : ℕ) → a.clock ≡ some later → (now < later) × IsLater later rest

-- One round, if the rounds behind it end.
connect_loop-round :
    (deadline now : ℕ) (a : Attempt) (rest : List Attempt)
    → IsLater now (a ∷ rest)
    → ((time : ℕ)
        → IsLater time rest
        → now < time
        → ltb now deadline ≡ true
        → (end : Connected) × (connect_loop deadline time rest ≡ ok end))
    → (end : Connected) × (connect_loop deadline now (a ∷ rest) ≡ ok end)
unfolding connect_loop
connect_loop-round deadline now a rest later onward = elim (Bool-cases a.connects) [
  | inl hit ↦ (connected, rw hit refl)
  | inr miss ↦ elim (Bool-cases (ltb now deadline)) [
    | inr over ↦ (expired, rw (miss, over) refl)
    | inl early ↦ elim (Bool-cases a.sleeps) [
      | inr broken ↦ (interrupted, rw (miss, early, broken) refl)
      | inl sleeps ↦ elim (Option-cases a.clock) [
        | inl broken ↦ (interrupted, rw (miss, early, sleeps, broken) refl)
        | inr (time, clock) ↦
            let (less, after) = later time clock in
            let (end, e) = onward time after less early in (end, rw (miss, early, sleeps, clock) e)
      ]
    ]
  ]
]

-- While the clock goes on by a second at least between two readings, the loop of `openConnection`
-- comes to an end within one attempt more than there are seconds to the deadline.
pub connect_loop-ends :
    (deadline now : ℕ) (a : Attempt) (rest : List Attempt)
    → IsLater now (a ∷ rest)
    → deadline ≤ now + length rest
    → (end : Connected) × (connect_loop deadline now (a ∷ rest) ≡ ok end)
connect_loop-ends deadline now a [] later h =
    connect_loop-round deadline now a [] later
      λ time after less early. absurd (ground (arith, less, h, early))
connect_loop-ends deadline now a (b ∷ more) later h =
    connect_loop-round deadline now a (b ∷ more) later
      λ time after less early. connect_loop-ends deadline time b more after (omega arith)

module _ {D : Type 0} where
  -- The whole time until the deadline has passed and no attempt has connected: `openConnection`
  -- returns -1, saves no line, and keeps the socket, so that the next call finds it
  -- connected and returns -1 with EISCONN.
  pub open_connection-expired :
      (t : Transport) (c : Client D) (fd now : ℕ) (attempts : List Attempt) (sockname : CString)
      (msec deadline : ℕ)
      → c.socket_fd ≡ negsuc 0
      → length sockname < sun_path
      → connect_loop deadline now attempts ≡ ok expired
      → (c' : Client D) × (open_connection t
            (pos fd)
            now
            attempts
            (some sockname)
            (pos msec)
            deadline
            c
          ≡ ok (negsuc 0, c'))
        × (c'.result_buffer ≡ c.result_buffer)
        × ((new_fd : ℤ) (later : ℕ) (more : List Attempt) (name : CString) (time deadline' : ℕ)
            → open_connection t new_fd later more (some name) (pos time) deadline' c'
              ≡ ok (negsuc 0, record c' { errno = some eisconn }))
  unfolding open_connection handshake exchange send
  open_connection-expired t c fd now attempts sockname msec deadline closed short end =
      let long : leb sun_path (length sockname) ≡ false = ground (arith, short) in
      (
        record c { socket_fd = pos fd; connected = false },
        rw (closed, long, end) refl,
        refl,
        λ new_fd later more name time deadline'. refl,
      )

  module _ (t : Transport) (h : Host D) where
    -- Behind a close of a connection, whatever it returned, the descriptor is still in `socket_fd`, so
    -- no connection can be opened again: each call returns -1 with EISCONN and changes nothing else.
    pub close-open :
        (sockname : CString) (c c' : Client D) (fd : ℕ) (code : ℤ)
        → c.socket_fd ≡ pos fd
        → close_connection t h sockname c ≡ ok (code, c')
        → (new_fd : ℤ) (now : ℕ) (attempts : List Attempt) (name : CString) (msec deadline : ℕ)
        → open_connection t new_fd now attempts (some name) (pos msec) deadline c'
          ≡ ok (negsuc 0, record c' { errno = some eisconn })
    unfolding open_connection
    close-open sockname c c' fd code opened e new_fd now attempts name msec deadline =
        let kept : c'.socket_fd ≡ pos fd =
          subst (Ends (Has {A = ℤ} c.socket_fd)) e (close_connection-Keeps t h sockname c)
          ∙ opened in
        rw kept refl
