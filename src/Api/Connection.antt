-- ===== src/Api/Connection.antt =====
-- api/fileserver_api.c: `openConnection` and `closeConnection`.
use file_storage_server.Base.{
  ℕ, ◌*◌, ◌/◌, ◌%◌, Bool, true, false, Option, none, some, List, [], ◌∷◌, ltb, leb, if◌then◌else◌,
  length,
}
use file_storage_server.Base.Int.{ℤ, pos, negsuc}
use file_storage_server.Outcome.{Outcome, ok, fault, blocked, and_then, Cmd, pure, ◌>>=◌, ◌>>◌}
use file_storage_server.Utilities.{CString, string_compare}
use file_storage_server.Protocol.{Transport, Request}
use file_storage_server.Protocol.Codes
use file_storage_server.Protocol.Codes.{
  success, internal_error, response_code, RequestCode, request_code,
}
use file_storage_server.Api.State.{
  open_connection_op, close_connection_op, einval, eisconn, enotconn, econnaborted, Client, Host,
  fail, files_of, set_files, send, exchange,
}
use file_storage_server.Api.Files.{refused, succeeded, close_file}

-- A request with no path and no body.
abbrev pub bare_request : RequestCode → Request
bare_request code = record {
  type = request_code code;
  path_len = 0;
  file_path = [];
  body_size = 0;
  body = [];
}

-- The seconds and nanoseconds that `openConnection` waits between two attempts.
abbrev pub wait_time : ℕ → ℕ × ℕ
wait_time msec = (msec / 1000, msec % 1000 * 1000)

-- One round of the loop: whether `connect` succeeds, and, where the loop goes on, whether
-- `nanosleep` does and what time `clock_gettime` gives, in seconds.
pub record Attempt : Type 0 where
  pub connects : Bool
  pub sleeps : Bool
  pub clock : Option ℕ

pub data Connected : Type 0 where
  connected expired interrupted : Connected

-- The loop, from the time `now` on, over what the attempts meet; it goes on where the list ends.
unfoldable pub connect_loop : ℕ → ℕ → List Attempt → Outcome Connected
connect_loop deadline now [] = blocked
connect_loop deadline now (a ∷ rest) =
    if a.connects
    then ok connected
    else if ltb now deadline
    then (if a.sleeps
        then elim a.clock [ none ↦ ok interrupted | some later ↦ connect_loop deadline later rest ]
        else ok interrupted)
    else ok expired

-- `sun_path` has 108 bytes.
abbrev pub sun_path : ℕ
sun_path = 108

-- `close(socket_fd); list_destroy(opened_files);`
abbrev pub hang_up : {D : Type 0} → Cmd (Client D) (Unit {0})
hang_up c = ok (tt, record c { opened_files = none; connected = false })

module _ {D : Type 0} (t : Transport) where
  -- The handshake. `result` is 0 or 1 behind the loop, so the test `result < 0` never holds.
  unfoldable pub handshake : CString → Cmd (Client D) ℤ
  unfolding exchange
  handshake sockname = exchange t (bare_request Codes.open_connection) λ response.
      if succeeded response
      then (λ c. ok (pos 0, record c { opened_files = some []; socket_path = some sockname }))
      else refused ((internal_error, econnaborted) ∷ []) open_connection_op sockname 0 response

  -- `fd` is what `socket` returns; `now` the time at the start. A socket that has failed to connect
  -- is kept, unless a wait was interrupted.
  unfoldable pub open_connection : ℤ → ℕ → List Attempt → Option CString → ℤ → ℕ → Cmd (Client D) ℤ
  unfolding connect_loop handshake
  open_connection fd now attempts none msec deadline c =
      ok (negsuc 0, record c { errno = some einval })
  open_connection fd now attempts (some sockname) (negsuc n) deadline c =
      ok (negsuc 0, record c { errno = some einval })
  open_connection fd now attempts (some sockname) (pos msec) deadline c = elim c.socket_fd [
    | pos n ↦ ok (negsuc 0, record c { errno = some eisconn })
    | negsuc n ↦ elim fd [
      | negsuc m ↦ ok (negsuc 0, c)
      | pos m ↦
          if leb sun_path (length sockname)
          then fault
          else and_then (connect_loop deadline now attempts) (λ end. elim end [
            | connected ↦ handshake sockname (record c { socket_fd = pos m; connected = true })
            | expired ↦ handshake sockname (record c { socket_fd = pos m; connected = false })
            | interrupted ↦ ok (negsuc 0, record c { socket_fd = negsuc 0 })
          ])
    ]
  ]

  module _ (h : Host D) where
    -- The loop over the opened files; what `closeFile` returns is not looked at.
    unfoldable pub close_files : List CString → Cmd (Client D) (Unit {0})
    close_files [] = pure tt
    close_files (pathname ∷ files) = do
      set_files files
      close_file t h (some pathname)
      close_files files

    -- The global keeps the descriptor of the socket that is closed.
    unfoldable pub disconnect : Cmd (Client D) ℤ
    unfolding close_files files_of send
    disconnect = do
      files ← files_of
      close_files files
      code ← send t (bare_request Codes.close_connection)
      hang_up
      elim code [ negsuc n ↦ pure (negsuc 0) | pos n ↦ pure (pos 0) ]

    unfoldable pub close_connection : CString → Cmd (Client D) ℤ
    unfolding disconnect
    close_connection sockname c = elim c.socket_path [
      | none ↦ fault
      | some path ↦
          if string_compare sockname path
          then elim c.socket_fd [
            | negsuc n ↦ fail enotconn close_connection_op (some sockname) 0 c
            | pos fd ↦ disconnect c
          ]
          else fail einval close_connection_op (some sockname) 0 c
    ]
