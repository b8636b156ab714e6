-- ===== src/Session/Write.antt =====
-- api/fileserver_api.c, utils/protocol.c and server/worker.c at work together: a write, and a read of
-- what was written.
use file_storage_server.Base.{
  ℕ, ◌+◌, ◌^◌, ◌<◌, ◌≤◌, ◌≡◌, ◌==◌, refl, ap, ◌∙◌, true, false, Option, some, List, [], ◌∷◌, ◌++◌,
  arith, if◌then◌else◌, length, length-append,
}
use file_storage_server.Base.Int.{ℤ, pos, eq_ℕ}
use file_storage_server.Outcome.{ok, Cmd, pure, ◌>>◌}
use file_storage_server.Utilities.{CString}
use file_storage_server.Utilities.Flags.{o_create, o_lock, chk_flag, clr_flag}
use file_storage_server.Protocol.{Transport, IsReliable, Request, Response, max_path}
use file_storage_server.Protocol.RoundTrip.{recv-send_request}
use file_storage_server.Protocol.Codes
use file_storage_server.Protocol.Codes.{
  Status, success, internal_error, unauthorized, files_expelled, missing_body, not_found,
  file_exists, response_code, request_code,
}
use file_storage_server.Storage.{is_over}
use file_storage_server.Storage.State.{Ptr, File, Server}
use file_storage_server.Storage.Table.{lookup, IsServer}
use file_storage_server.Worker.{Global, worker_step, case_of, serve, serve_file, serve_read, reply}
use file_storage_server.Worker.Common.{c_string, respond}
use file_storage_server.Worker.Fallthrough.{answer, read-sent}
use file_storage_server.Worker.Read.{read_file_handler}
use file_storage_server.Worker.Write.Contents.{write-read}
use file_storage_server.Api.State.{
  econnaborted, eperm, einval, enoent, eexist, eio, ReadDisk, contents, not_opened, not_read, fail,
  Client, Host, write_file_op, request_for, is_opened, save_request_result, exchange, phrase,
}
use file_storage_server.Api.Files.{ensure_opened, with_path, succeeded, refused}
use file_storage_server.Api.Transfer.{write_file, expelled_case}
use file_storage_server.Api.Steps.{
  IsAnswered, request_bytes, response_bytes, exchange-answer, checked-open, ensure_opened-found,
}
use file_storage_server.Api.Answers.{request_for-IsSendable}
use file_storage_server.Session.{response_of, response_of-IsAnswer, IsServed, worker_round-received}
use file_storage_server.Session.Read.{read_reply}

-- The request that writes these bytes.
abbrev pub write_request : CString → List ℕ → Request
write_request path file_data = request_for Codes.write_file path (length file_data) file_data

-- The file with these bytes, no longer fresh.
abbrev pub rewritten : File → List ℕ → File
rewritten f file_data = record f {
  flags = clr_flag f.flags o_create;
  size = length file_data;
  contents = file_data;
}

-- What a write makes of its response.
abbrev take_verdict :
    {D : Type 0}
    → Transport
    → Host D
    → Option CString
    → CString
    → List ℕ
    → Response
    → Cmd (Client D) ℤ
take_verdict t h dirname path file_data response =
    if succeeded response
    then (do
      save_request_result write_file_op (some path) (length file_data) response.status_phrase
      pure (pos 0))
    else if response_code files_expelled == response.status
    then expelled_case t h write_file_op write_file_op
        ((internal_error, econnaborted) ∷ (unauthorized, eperm) ∷ []) path (length file_data)
        dirname response
    else refused
        ((internal_error, econnaborted)
          ∷ (missing_body, einval)
          ∷ (not_found, enoent)
          ∷ (file_exists, eexist)
          ∷ (unauthorized, eperm)
          ∷ [])
        write_file_op path (length file_data) response

-- The client that a write with the response SUCCESS leaves.
abbrev finished :
    {D : Type 0} → Transport → CString → List ℕ → Response → List ℕ → Client D → Client D
finished t path file_data r rest c = record c {
  out = c.out ++ request_bytes t (write_request path file_data);
  incoming = rest;
  result_buffer = some (record {
    operation = write_file_op;
    path = some path;
    n_bytes = length file_data;
    message = phrase r.status_phrase;
  });
}

module _ {D : Type 0} {t : Transport} (reliable : IsReliable t) (h : Host D) where
  -- A call that finds its file opened and gets the response SUCCESS.
  write_file-answered :
      (path absolute : CString) (file_data : List ℕ) (dirname : Option CString)
      (files : List CString) (c : Client D) (r : Response) (rest : List ℕ)
      → IsAnswered t r rest c
      → r.status ≡ response_code success
      → c.opened_files ≡ some files
      → is_opened files (some absolute) ≡ ok true
      → h.realpath path ≡ some absolute
      → h.read_disk absolute c.disk ≡ contents file_data
      → write_file t h (some path) dirname c ≡ ok (pos 0, finished t absolute file_data r rest c)
  unfolding write_file response_code
  write_file-answered path absolute file_data dirname files c r rest a fine opened listed real
        read =
      let r_bytes : Request = write_request absolute file_data in
      let send_contents : CString → List ℕ → Cmd (Client D) ℤ = λ name bytes.
        ensure_opened t (some name) (o_create + o_lock)
          (exchange t (write_request name bytes) (take_verdict t h dirname name bytes)) in
      let on_disk : CString → ReadDisk → Cmd (Client D) ℤ = λ name d k. elim d [
        | not_opened ↦ fail eio write_file_op (some name) 0 k
        | not_read ↦ fail eio write_file_op (some name) 0 k
        | contents bytes ↦ send_contents name bytes k
      ] in
      let body : Option CString → Cmd (Client D) ℤ =
        λ q. with_path q λ name. λ k. on_disk name (h.read_disk name k.disk) k in
      checked-open write_file_op path (λ q. body (h.realpath q)) c a.fd a.open_socket
      ∙ ap (λ q. body q c) real
      ∙ ap (λ d. on_disk absolute d c) read
      ∙ ensure_opened-found t (some absolute) (o_create + o_lock)
          (exchange t r_bytes (take_verdict t h dirname absolute file_data)) c files opened listed
      ∙ exchange-answer reliable r_bytes (take_verdict t h dirname absolute file_data) c r rest a
      ∙ rw fine refl

module _ {D : Type 0} {t : Transport} (reliable : IsReliable t) (h : Host D)
    (phrases : Status → List ℕ)
    (sized : (status : Status) → length (phrases status) ≡ max_path) where
  -- Over a reliable transport, with a server in a sound state whose mutex is free, which has the file
  -- fresh and locked by the client and has room for the bytes without an eviction, and a connected
  -- client that has opened the file and reads these bytes, one at least, from its disk: with the bytes
  -- of the server's reply as what comes next, the client's call returns 0; a worker that receives
  -- exactly the bytes that the call has sent stores the bytes of the disk as the contents of the file,
  -- stays sound, sends that reply and gives the client back; and a worker answers the next request to
  -- read the file, of whichever client, with exactly the bytes that were on the disk.
  pub write_file-serve_file :
      (g : Global) (w : IsServer g.server) (path absolute : CString) (b : ℕ) (bs : List ℕ)
      → c_string (absolute ++ 0 ∷ []) ≡ ok absolute
      → g.server.access ≡ false
      → (p : Ptr) (f : File) → lookup g.server absolute ≡ ok (some p)
      → g.server.heap p ≡ some f
      → chk_flag f.flags o_create ≡ true
      → length (b ∷ bs) ≤ g.server.max_size
      → is_over (length (b ∷ bs)) g.server ≡ false
      → length (b ∷ bs) < 2 ^ 64
      → (client_fd fd : ℕ) → eq_ℕ f.locked_by client_fd ≡ true
      → (dirname : Option CString) (files : List CString) (c : Client D) (rest : List ℕ)
      → c.socket_fd ≡ pos fd
      → c.connected ≡ true
      → c.opened_files ≡ some files
      → is_opened files (some absolute) ≡ ok true
      → h.realpath path ≡ some absolute
      → h.read_disk absolute c.disk ≡ contents (b ∷ bs)
      → length absolute + 1 < 2 ^ 64
      → c.incoming
        ≡ response_bytes t
            (response_of phrases (answer client_fd (write_request absolute (b ∷ bs))))
          ++ rest
      → (more : List ℕ)
      → (sent : List ℕ) × (s' : Server) × (c' : Client D) × (write_file t h (some path) dirname c
          ≡ ok (pos 0, c'))
        × (c'.out ≡ c.out ++ sent)
        × IsServed t client_fd (sent ++ more) g s'
        × (s'.sent ≡ g.server.sent ++ answer client_fd (write_request absolute (b ∷ bs)) ∷ [])
        × (s'.heap p ≡ some (rewritten f (b ∷ bs)))
        × IsServer s'
        × ((reader : ℕ)
            → worker_step reader
                (request_for Codes.read_file absolute 0 [])
                (record g { server = s' })
              ≡ ok (
                pos reader,
                record g {
                  server = record s' {
                    sent =
                        s'.sent
                        ++ read_reply reader
                            (request_for Codes.read_file absolute 0 [])
                            (rewritten f (b ∷ bs))
                          ∷ [];
                  };
                },
              ))
  unfolding worker_step case_of request_code serve serve_file serve_read reply respond
      read_file_handler
  write_file-serve_file g w path absolute b bs text unheld p f found at fresh small room short
        client_fd fd own dirname files c rest open_socket is_connected opened listed real read fits
        comes more =
      let s : Server = g.server in
      let r : Request = write_request absolute (b ∷ bs) in
      let response : Response = response_of phrases (answer client_fd r) in
      let answering : IsAnswered t response rest c = record {
        fd = fd;
        open_socket = open_socket;
        is_connected = is_connected;
        incoming_bytes = comes;
        answer =
            response_of-IsAnswer phrases sized (answer client_fd r)
              (omega (arith, fits, length-append absolute (0 ∷ []))) refl (ground arith);
      } in
      let (u, run, reads, q, size, kept, sent, sound) =
        write-read w r absolute text unheld p f found at client_fd own (ground arith) small fresh
          room in
      let s' : Server = record u { sent = u.sent ++ answer client_fd r ∷ [] } in
      let stores : worker_step client_fd r g ≡ ok (pos client_fd, record g { server = s' }) =
        rw run refl in
      (
        request_bytes t r,
        s',
        finished t absolute (b ∷ bs) response rest c,
        write_file-answered reliable h path absolute (b ∷ bs) dirname files c response rest
            answering refl opened listed real read,
        refl,
        worker_round-received t client_fd (request_bytes t r ++ more) g r more
              (recv-send_request t reliable 0 client_fd r more
                (request_for-IsSendable Codes.write_file absolute (b ∷ bs) fits short)).1
            ∙ stores,
        ap (λ l. l ++ answer client_fd r ∷ []) sent,
        kept,
        record {
          sized = sound.sized;
          placed = sound.placed;
          named = sound.named;
          fresh = sound.fresh;
        },
        λ reader. rw (read-sent r u (success, (length (b ∷ bs), b ∷ bs)) s'.sent reads) refl,
      )
