-- ===== src/Session/Read.antt =====
-- api/fileserver_api.c, utils/protocol.c and server/worker.c at work together: a read.
use file_storage_server.Base.{
  ℕ, ◌+◌, ◌^◌, ◌<◌, ◌≡◌, refl, sym, ap, ◌∙◌, Bool, true, false, Option, some, if◌then◌else◌, List,
  [], ◌∷◌, ◌++◌, arith, length, length-append,
}
use file_storage_server.Base.Int.{ℤ, pos}
use file_storage_server.Outcome.{ok, Cmd, pure, ◌>>◌}
use file_storage_server.Utilities.{CString}
use file_storage_server.Utilities.Flags.{o_noflag}
use file_storage_server.Protocol.{Transport, IsReliable, Request, Response, max_path}
use file_storage_server.Protocol.RoundTrip.{IsAnswer, recv-send_request}
use file_storage_server.Protocol.Codes
use file_storage_server.Protocol.Codes.{Status, success, response_code, request_code}
use file_storage_server.Storage.State.{Ptr, File, Server, Reply}
use file_storage_server.Storage.Table.{lookup}
use file_storage_server.Worker.{Global, worker_step, case_of, serve, serve_file, serve_read}
use file_storage_server.Worker.Common.{c_string, respond}
use file_storage_server.Worker.Lookup.{released}
use file_storage_server.Worker.Write.Contents.{read-answer}
use file_storage_server.Api.State.{
  Client, Host, read_file_op, request_for, is_opened, phrase, save_request_result, exchange,
}
use file_storage_server.Api.Files.{
  read_file, ensure_opened, with_path, succeeded, refused, basic, set_buffer,
}
use file_storage_server.Api.Steps.{
  IsAnswered, request_bytes, response_bytes, exchange-answer, checked-open, ensure_opened-found,
}
use file_storage_server.Api.Answers.{request_for-IsSendable}
use file_storage_server.Session.{response_of, response_of-IsAnswer, IsServed, worker_round-received}

-- What a read of the file answers.
abbrev pub read_reply : ℕ → Request → File → Reply
read_reply client_fd r f = record {
  client_fd = client_fd;
  status = success;
  path = r.file_path;
  body_size = f.size;
  body = f.contents;
}

-- What a read makes of its response.
abbrev take_contents : {D : Type 0} → CString → Response → Cmd (Client D) ℤ
take_contents path r =
    if succeeded r
    then (do
      set_buffer r.body_size r.body
      save_request_result read_file_op (some path) r.body_size r.status_phrase
      pure (pos 0))
    else refused basic read_file_op path 0 r

-- A read of a file that is there, with the mutex free.
serve_read-found :
    (s : Server) (r : Request) (name : CString)
    → c_string r.file_path ≡ ok name
    → s.access ≡ false
    → (p : Ptr) (f : File) → lookup s name ≡ ok (some p)
    → s.heap p ≡ some f
    → (client_fd : ℕ)
    → serve_file Codes.read_file client_fd r s
      ≡ ok (tt, record (released s) { sent = s.sent ++ read_reply client_fd r f ∷ [] })
unfolding serve_file serve_read respond
serve_read-found s r name text unheld p f found at client_fd =
    rw (read-answer s r name text unheld p f found at) refl

module _ {D : Type 0} {t : Transport} (reliable : IsReliable t) (h : Host D)
    (phrases : Status → List ℕ)
    (sized : (status : Status) → length (phrases status) ≡ max_path) where
  -- Over a reliable transport, with a server whose mutex is free and which has the file, with as many
  -- bytes as its size says, and a connected client that has opened the file: with the bytes of the
  -- server's answer as what comes next, the client's call returns 0 with the size and the contents of
  -- the file in its buffer; and a worker that receives exactly the bytes that the call has sent sends
  -- that answer, gives the client back, and leaves the table, the files and the queue as they are and
  -- the mutex free.
  pub read_file-serve_file :
      (g : Global) (path absolute : CString)
      → c_string (absolute ++ 0 ∷ []) ≡ ok absolute
      → g.server.access ≡ false
      → (p : Ptr) (f : File) → lookup g.server absolute ≡ ok (some p)
      → g.server.heap p ≡ some f
      → length f.contents ≡ f.size
      → f.size < 2 ^ 64
      → (client_fd fd : ℕ) (files : List CString) (c : Client D) (rest : List ℕ)
      → c.socket_fd ≡ pos fd
      → c.connected ≡ true
      → c.opened_files ≡ some files
      → is_opened files (some absolute) ≡ ok true
      → h.realpath path ≡ some absolute
      → length absolute + 1 < 2 ^ 64
      → c.incoming
        ≡ response_bytes t (
            response_of phrases
              (read_reply client_fd (request_for Codes.read_file absolute 0 []) f))
          ++ rest
      → (more : List ℕ)
      → (sent : List ℕ) × (s' : Server) × (c' : Client D) × (read_file t h (some path) c
          ≡ ok (pos 0, c'))
        × (c'.out ≡ c.out ++ sent)
        × IsServed t client_fd (sent ++ more) g s'
        × (s'.sent
            ≡ g.server.sent
              ++ read_reply client_fd (request_for Codes.read_file absolute 0 []) f ∷ [])
        × (s'.storage ≡ g.server.storage)
        × (s'.heap ≡ g.server.heap)
        × (s'.access ≡ false)
        × (c'.buffer ≡ some (f.size, f.contents))
        × (c'.incoming ≡ rest)
  unfolding response_code request_code read_file worker_step case_of serve
  read_file-serve_file g path absolute text unheld p f found at whole small client_fd fd files c
        rest open_socket is_connected opened listed real fits comes more =
      let s : Server = g.server in
      let r : Request = request_for Codes.read_file absolute 0 [] in
      let ask : Option CString → Cmd (Client D) ℤ = λ q.
        with_path q
          λ name. exchange t (request_for Codes.read_file name 0 []) (take_contents name) in
      let opened_read : Option CString → Cmd (Client D) ℤ =
        λ q. ensure_opened t q o_noflag (ask q) in
      let response : Response = response_of phrases (read_reply client_fd r f) in
      let valid : IsAnswer response =
        response_of-IsAnswer phrases sized (read_reply client_fd r f)
          (omega (arith, fits, length-append absolute (0 ∷ []))) whole small in
      let answering : IsAnswered t response rest c = record {
        fd = fd;
        open_socket = open_socket;
        is_connected = is_connected;
        incoming_bytes = comes;
        answer = valid;
      } in
      let gives : worker_step client_fd r g
          ≡ ok (
            pos client_fd,
            record g {
              server = record (released s) { sent = s.sent ++ read_reply client_fd r f ∷ [] };
            },
          ) =
        rw (serve_read-found s r absolute text unheld p f found at client_fd) refl in
      (
        request_bytes t r,
        record (released s) { sent = s.sent ++ read_reply client_fd r f ∷ [] },
        record c {
          out = c.out ++ request_bytes t r;
          incoming = rest;
          buffer = some (f.size, f.contents);
          result_buffer = some (record {
            operation = read_file_op;
            path = some absolute;
            n_bytes = f.size;
            message = phrase (phrases success);
          });
        },
        checked-open read_file_op path (λ q. opened_read (h.realpath q)) c fd open_socket
            ∙ ap (λ q. opened_read q c) real
            ∙ ensure_opened-found t (some absolute) o_noflag (ask (some absolute)) c files opened
                listed
            ∙ exchange-answer reliable r (take_contents absolute) c response rest answering,
        refl,
        worker_round-received t client_fd (request_bytes t r ++ more) g r more
              (recv-send_request t reliable 0 client_fd r more
                (request_for-IsSendable Codes.read_file absolute [] fits (ground arith))).1
            ∙ gives,
        refl,
        ap (λ (b : Bool). record s.storage { access = b }) (sym unheld),
        refl,
        refl,
        refl,
        refl,
      )
