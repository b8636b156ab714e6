-- ===== src/Session.antt =====
-- api/fileserver_api.c, utils/protocol.c and server/worker.c at work together: a lock, from the call of
-- the client to its result.
pub mod Read
pub mod Write
use file_storage_server.Base.{
  ℕ, ◌+◌, ◌^◌, ◌<◌, ◌≡◌, refl, ap, ◌∙◌, Option, none, true, false, some, List, [], ◌∷◌, ◌++◌, arith,
  length, length-append,
}
use file_storage_server.Base.Int.{pos}
use file_storage_server.Outcome.{ok, fault}
use file_storage_server.Utilities.{CString}
use file_storage_server.Utilities.Flags.{o_lock, chk_flag}
use file_storage_server.Protocol.{Transport, IsReliable, Request, Response, max_path, recv_request}
use file_storage_server.Protocol.RoundTrip.{IsAnswer, IsSendable, recv-send_request}
use file_storage_server.Protocol.Codes
use file_storage_server.Protocol.Codes.{
  Status, success, accepted, internal_error, bad_request, not_found, unauthorized, missing_body,
  file_too_big, files_expelled, file_exists, awaiting, no_more_con, response_code, request_code,
}
use file_storage_server.Storage.State.{Ptr, File, Server, Reply}
use file_storage_server.Storage.Table.{lookup, IsServer}
use file_storage_server.Storage.Touch.{touched}
use file_storage_server.Worker.{
  Global, worker_round, worker_step, case_of, serve, serve_file, reply,
}
use file_storage_server.Worker.Common.{c_string, respond}
use file_storage_server.Worker.Fallthrough.{answer}
use file_storage_server.Worker.Lookup.{released}
use file_storage_server.Worker.Locks.{locked}
use file_storage_server.Worker.Locks.Answers.{lock-answer}
use file_storage_server.Api.State.{Client, Host, lock_file_op, request_for, is_opened}
use file_storage_server.Api.Files.{basic, lock_file}
use file_storage_server.Api.Steps.{IsAnswered, request_bytes, response_bytes}
use file_storage_server.Api.Answers.{request_for-IsSendable, answered, calls-answered}

-- The bytes of a reply, with the phrase of its status.
abbrev pub response_of : (Status → List ℕ) → Reply → Response
response_of phrases r = record {
  status = response_code r.status;
  status_phrase = phrases r.status;
  path_len = length r.path;
  file_path = r.path;
  body_size = r.body_size;
  body = r.body;
}

status_fits : (status : Status) → response_code status < 2 ^ 32
unfolding response_code
status_fits success = omega arith
status_fits accepted = omega arith
status_fits internal_error = omega arith
status_fits bad_request = omega arith
status_fits not_found = omega arith
status_fits unauthorized = omega arith
status_fits missing_body = omega arith
status_fits file_too_big = omega arith
status_fits files_expelled = omega arith
status_fits file_exists = omega arith
status_fits awaiting = omega arith
status_fits no_more_con = omega arith

-- A reply about a path that fits, whose body has its size, is one that a client can receive.
pub response_of-IsAnswer :
    (phrases : Status → List ℕ)
    → ((status : Status) → length (phrases status) ≡ max_path)
    → (reply : Reply) → length reply.path < 2 ^ 64
    → length reply.body ≡ reply.body_size
    → reply.body_size < 2 ^ 64
    → IsAnswer (response_of phrases reply)
response_of-IsAnswer phrases sized reply fits whole small = record {
  status_fits = status_fits reply.status;
  phrase_sized = sized reply.status;
  path_sized = refl;
  path_fits = fits;
  body_sized = whole;
  body_fits = small;
}

-- The worker of a client goes through the round of its loop on these bytes, which leaves the storage so,
-- and gives the client back.
abbrev pub IsServed : Transport → ℕ → List ℕ → Global → Server → Type 0
IsServed t client_fd bytes g s' =
    worker_round t client_fd bytes g ≡ ok (pos client_fd, record g { server = s' })

pub worker_round-received :
    (t : Transport) (client_fd : ℕ) (bytes : List ℕ) (g : Global) (r : Request) (more : List ℕ)
    → recv_request t (pos client_fd) bytes ≡ some (r, more)
    → worker_round t client_fd bytes g ≡ worker_step client_fd r g
unfolding worker_round
worker_round-received t client_fd bytes g r more e =
    ap
      (λ (o : Option (Request × List ℕ)). elim o [
        | none ↦ fault
        | some (q, rest) ↦ worker_step client_fd q g
      ])
      e

module _ {D : Type 0} {t : Transport} (reliable : IsReliable t) (h : Host D)
    (phrases : Status → List ℕ)
    (sized : (status : Status) → length (phrases status) ≡ max_path) where
  -- Over a reliable transport, with a server in a sound state whose mutex is free, which has the file
  -- and has nobody's lock on it, and a connected client that has opened the file: with the bytes of the
  -- server's reply as what comes next, the client's call returns 0; and a worker that receives exactly
  -- the bytes that the call has sent locks the file for the client, sends that reply, and gives the
  -- client back.
  pub lock_file-serve_file :
      (g : Global) (w : IsServer g.server) (path absolute : CString)
      → c_string (absolute ++ 0 ∷ []) ≡ ok absolute
      → g.server.access ≡ false
      → (p : Ptr) (f : File) → lookup g.server absolute ≡ ok (some p)
      → g.server.heap p ≡ some f
      → chk_flag f.flags o_lock ≡ false
      → (client_fd fd : ℕ) (files : List CString) (c : Client D) (rest : List ℕ)
      → c.socket_fd ≡ pos fd
      → c.connected ≡ true
      → c.opened_files ≡ some files
      → is_opened files (some absolute) ≡ ok true
      → h.realpath path ≡ some absolute
      → length absolute + 1 < 2 ^ 64
      → c.incoming
        ≡ response_bytes t
            (response_of phrases (answer client_fd (request_for Codes.lock_file absolute 0 [])))
          ++ rest
      → (more : List ℕ)
      → (sent : List ℕ) × (s' : Server) × (c' : Client D) × (lock_file t h (some path) c
          ≡ ok (pos 0, c'))
        × (c'.out ≡ c.out ++ sent)
        × IsServed t client_fd (sent ++ more) g s'
        × (s'.sent
            ≡ g.server.sent ++ answer client_fd (request_for Codes.lock_file absolute 0 []) ∷ [])
        × (s'.heap p ≡ some (locked f client_fd))
  unfolding worker_step case_of serve serve_file reply respond response_code request_code
  lock_file-serve_file g w path absolute text unheld p f found at untaken client_fd fd files c rest
        open_socket is_connected opened listed real fits comes more =
      let s : Server = g.server in
      let r : Request = request_for Codes.lock_file absolute 0 [] in
      let s' : Server = released (touched s p (locked f client_fd)) in
      let response : Response = response_of phrases (answer client_fd r) in
      let valid : IsAnswer response =
        response_of-IsAnswer phrases sized (answer client_fd r)
          (omega (arith, fits, length-append absolute (0 ∷ []))) refl (ground arith) in
      let answering : IsAnswered t response rest c = record {
        fd = fd;
        open_socket = open_socket;
        is_connected = is_connected;
        incoming_bytes = comes;
        answer = valid;
      } in
      let (arrives, lock, unlock, close) =
        calls-answered reliable h path absolute files c response rest answering opened listed real
          fits in
      let sendable : IsSendable r =
        request_for-IsSendable Codes.lock_file absolute [] fits (ground arith) in
      let locks : worker_step client_fd r g
          ≡ ok (
            pos client_fd,
            record g { server = record s' { sent = s.sent ++ answer client_fd r ∷ [] } },
          ) =
        rw (lock-answer w r absolute text unheld p f found at client_fd, untaken) refl in
      (
        request_bytes t r,
        record s' { sent = s.sent ++ answer client_fd r ∷ [] },
        (answered t lock_file_op lock_file_op basic absolute r response rest c).1,
        lock,
        refl,
        worker_round-received t client_fd (request_bytes t r ++ more) g r more
              (recv-send_request t reliable 0 client_fd r more sendable).1
            ∙ locks,
        refl,
        ground arith,
      )
