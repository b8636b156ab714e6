-- ===== src/Api/Steps.antt =====
-- api/fileserver_api.c: the steps of a call that finds its file opened and gets a response.
use file_storage_server.Base.{ℕ, ◌≡◌, refl, ap, true, Option, none, some, List, [], ◌++◌}
use file_storage_server.Base.Int.{ℤ, pos, negsuc}
use file_storage_server.Outcome.{ok, fault, Cmd}
use file_storage_server.Utilities.{CString}
use file_storage_server.Protocol.{
  Transport, IsReliable, Request, Response, send_request, send_response, recv_response,
}
use file_storage_server.Protocol.RoundTrip.{send_request-append, IsAnswer, recv-send_response}
use file_storage_server.Api.Files.{ensure_opened}
use file_storage_server.Api.State.{
  Client, fail, enotconn, checked, Operation, is_opened, files_of, send, receive, exchange,
}

-- The bytes of a message.
abbrev pub request_bytes : Transport → Request → List ℕ
request_bytes t r = (send_request t (pos 0) r []).1

abbrev pub response_bytes : Transport → Response → List ℕ
response_bytes t r = (send_response t (pos 0) r []).1

-- The client is connected, and the bytes of these responses are the next to come.
pub record IsAnswered {D : Type 0} (t : Transport) (r : Response) (rest : List ℕ) (c : Client D)
    : Type 0 where
  pub fd : ℕ
  pub open_socket : c.socket_fd ≡ pos fd
  pub is_connected : c.connected ≡ true
  pub incoming_bytes : c.incoming ≡ response_bytes t r ++ rest
  pub answer : IsAnswer r

same_bytes :
    (t : Transport) (fd : ℕ) (request : Request)
    → send_request t (pos fd) request [] ≡ send_request t (pos 0) request []
unfolding send_request
same_bytes t fd request = refl

module _ {D : Type 0} {t : Transport} (reliable : IsReliable t) where
  -- The next bytes are a response.
  pub receive-response :
      (c : Client D) (fd : ℕ) (r : Response) (rest : List ℕ)
      → c.socket_fd ≡ pos fd
      → c.incoming ≡ response_bytes t r ++ rest
      → IsAnswer r
      → receive t c ≡ ok (some r, record c { incoming = rest })
  unfolding receive
  receive-response c fd r rest opened bytes v =
      let got : recv_response t c.socket_fd c.incoming ≡ some (r, rest) =
        rw (opened, bytes) (recv-send_response t reliable 0 fd r rest v).1 in
      ap
        (λ (o : Option (Response × List ℕ)). elim o [
          | none ↦ ok (none, c)
          | some (x, more) ↦ ok (some x, record c { incoming = more })
        ])
        got

  -- A call goes on with the response, after its request has been sent.
  pub exchange-answer :
      (request : Request) (body : Response → Cmd (Client D) ℤ) (c : Client D) (r : Response)
      (rest : List ℕ)
      → (a : IsAnswered t r rest c)
      → exchange t request body c
        ≡ body r (record c { out = c.out ++ request_bytes t request; incoming = rest })
  unfolding exchange
  exchange-answer request body c r rest a =
      let sent : send t request c
          ≡ ok (pos 0, record c { out = c.out ++ request_bytes t request }) =
        rw
          (
            send,
            a.open_socket,
            a.is_connected,
            send_request-append t reliable a.fd request c.out,
            same_bytes t a.fd request,
          )
          refl in
      let got : receive t (record c { out = c.out ++ request_bytes t request })
          ≡ ok (some r, record c { out = c.out ++ request_bytes t request; incoming = rest }) =
        receive-response (record c { out = c.out ++ request_bytes t request }) a.fd r rest
          a.open_socket a.incoming_bytes a.answer in
      rw (exchange, sent, got)

module _ {D : Type 0} where
  pub checked-open :
      (operation : Operation) (path : CString) (body : CString → Cmd (Client D) ℤ) (c : Client D)
      (fd : ℕ)
      → c.socket_fd ≡ pos fd
      → checked operation (some path) body c ≡ body path c
  checked-open operation path body c fd e =
      ap
        (λ (s : ℤ). elim s [
          | negsuc n ↦ fail enotconn operation (some path) 0 c
          | pos m ↦ body path c
        ])
        e

  pub files_of-some :
      (c : Client D) (files : List CString)
      → c.opened_files ≡ some files
      → files_of c ≡ ok (files, c)
  unfolding files_of
  files_of-some c files e =
      ap (λ (o : Option (List CString)). elim o [ none ↦ fault | some names ↦ ok (names, c) ]) e

  pub ensure_opened-found :
      (t : Transport) (path : Option CString) (flags : ℕ) (next : Cmd (Client D) ℤ) (c : Client D)
      (files : List CString)
      → c.opened_files ≡ some files
      → is_opened files path ≡ ok true
      → ensure_opened t path flags next c ≡ next c
  unfolding ensure_opened
  ensure_opened-found t path flags next c files e found = rw (files_of-some c files e, found) refl
