-- ===== src/Api/Answers.antt =====
-- api/fileserver_api.c: what a call makes of the response that the server sends.
use file_storage_server.Base.{
  ℕ, ◌+◌, ◌^◌, ◌<◌, ◌≡◌, refl, ap, ◌∙◌, true, Option, some, List, [], ◌∷◌, ◌++◌, ◌==◌,
  if◌then◌else◌, length, inl, inr, Bool-cases, arith, length-append,
}
use file_storage_server.Base.Int.{ℤ, pos, negsuc}
use file_storage_server.Outcome.{lift, ok, Cmd, pure, ◌>>=◌, ◌>>◌}
use file_storage_server.Utilities.{CString}
use file_storage_server.Utilities.Flags.{o_noflag}
use file_storage_server.Protocol.{Transport, IsReliable, Request, Response, recv_request}
use file_storage_server.Protocol.RoundTrip.{IsSendable, recv-send_request}
use file_storage_server.Protocol.Codes
use file_storage_server.Protocol.Codes.{Status, success, bad_request, response_code, request_code}
use file_storage_server.Api.Files.{
  with_path, succeeded, refused, basic, ensure_opened, lock_file, unlock_file, close_file,
}
use file_storage_server.Api.Steps.{
  request_bytes, IsAnswered, exchange-answer, checked-open, files_of-some, ensure_opened-found,
}
use file_storage_server.Api.State.{
  save_request_result, Client, fail, eperm, Host, checked, Operation, lock_file_op, unlock_file_op,
  remove_file_op, close_file_op, strerror, phrase, errno_for, ebadmsg, is_opened, files_of, Errno,
  exchange, request_for,
}

-- What a call comes to that sends the request and gets the response `r`: 0 and the phrase for the
-- status SUCCESS, and otherwise -1 and the error that the table has for the status. The two
-- operations are those that the line names.
abbrev pub answered :
    {D : Type 0}
    → Transport
    → Operation
    → Operation
    → List (Status × Errno)
    → CString
    → Request
    → Response
    → List ℕ
    → Client D
    → ℤ × Client D
answered t operation failing table path request r rest c =
    let c' = record c { out = c.out ++ request_bytes t request; incoming = rest } in
    let e = errno_for table r.status in
    if response_code success == r.status
    then (
      pos 0,
      record c' {
        result_buffer = some (record {
          operation = operation;
          path = some path;
          n_bytes = 0;
          message = phrase r.status_phrase;
        });
      },
    )
    else (
      negsuc 0,
      record c' {
        errno = some e;
        result_buffer =
            some
              (record { operation = failing; path = some path; n_bytes = 0; message = strerror e });
      },
    )

-- The `switch` of a call whose response is answered in this way.
abbrev verdict :
    {D : Type 0}
    → Operation
    → Operation
    → List (Status × Errno)
    → CString
    → Response
    → Cmd (Client D) ℤ
verdict operation failing table path r =
    if succeeded r
    then (do save_request_result operation (some path) 0 r.status_phrase; pure (pos 0))
    else refused table failing path 0 r

-- The request, unless the path is NULL, and the `switch` behind it.
abbrev ask :
    {D : Type 0}
    → Transport
    → Operation
    → Operation
    → List (Status × Errno)
    → Codes.RequestCode
    → Option CString
    → Cmd (Client D) ℤ
ask t operation failing table code path = with_path path λ absolute.
    exchange t (request_for code absolute 0 []) (verdict operation failing table absolute)

verdict-answered :
    {D : Type 0} (t : Transport) (operation failing : Operation) (table : List (Status × Errno))
    (path : CString) (request : Request) (r : Response) (rest : List ℕ) (c : Client D)
    → verdict operation failing table path r
        (record c { out = c.out ++ request_bytes t request; incoming = rest })
      ≡ ok (answered t operation failing table path request r rest c)
verdict-answered t operation failing table path request r rest c =
    elim (Bool-cases (response_code success == r.status)) [
      | inl hit ↦ rw hit refl
      | inr miss ↦ rw miss refl
    ]

code_fits : (code : Codes.RequestCode) → request_code code < 2 ^ 32
unfolding request_code
code_fits Codes.open_connection = omega arith
code_fits Codes.close_connection = omega arith
code_fits Codes.open_file = omega arith
code_fits Codes.close_file = omega arith
code_fits Codes.write_file = omega arith
code_fits Codes.read_file = omega arith
code_fits Codes.read_n_files = omega arith
code_fits Codes.remove_file = omega arith
code_fits Codes.lock_file = omega arith
code_fits Codes.unlock_file = omega arith
code_fits Codes.append_to_file = omega arith

pub request_for-IsSendable :
    (code : Codes.RequestCode) (path : CString) (body : List ℕ)
    → length path + 1 < 2 ^ 64
    → length body < 2 ^ 64
    → IsSendable (request_for code path (length body) body)
request_for-IsSendable code path body fits body_fits = record {
  type_fits = code_fits code;
  path_sized = length-append path (0 ∷ []);
  path_fits = fits;
  body_sized = refl;
  body_fits = body_fits;
}

module _ {D : Type 0} {t : Transport} (reliable : IsReliable t) (h : Host D) where
  pub calls-answered :
      (path absolute : CString) (files : List CString) (c : Client D) (r : Response) (rest : List ℕ)
      → IsAnswered t r rest c
      → c.opened_files ≡ some files
      → is_opened files (some absolute) ≡ ok true
      → h.realpath path ≡ some absolute
      → length absolute + 1 < 2 ^ 64
      → ((code : Codes.RequestCode) (fd : ℕ) (more : List ℕ)
          → recv_request t (pos fd) (request_bytes t (request_for code absolute 0 []) ++ more)
            ≡ some (request_for code absolute 0 [], more))
        × (lock_file t h (some path) c
            ≡ ok (
                answered t lock_file_op lock_file_op basic absolute
                  (request_for Codes.lock_file absolute 0 [])
                  r
                  rest
                  c))
        × (unlock_file t h (some path) c
            ≡ ok (
                answered t unlock_file_op unlock_file_op
                  (basic ++ (bad_request, ebadmsg) ∷ [])
                  absolute
                  (request_for Codes.unlock_file absolute 0 [])
                  r
                  rest
                  c))
        × (close_file t h (some path) c
            ≡ ok (
                answered t remove_file_op close_file_op basic absolute
                  (request_for Codes.close_file absolute 0 [])
                  r
                  rest
                  c))
  unfolding lock_file unlock_file close_file ensure_opened files_of
  calls-answered path absolute files c r rest a opened found real fits =
      let arrives : (code : Codes.RequestCode) (fd : ℕ) (more : List ℕ)
          → recv_request t (pos fd) (request_bytes t (request_for code absolute 0 []) ++ more)
            ≡ some (request_for code absolute 0 [], more) =
        λ code fd more.
          (recv-send_request t reliable 0 fd (request_for code absolute 0 []) more
            (request_for-IsSendable code absolute [] fits (omega arith))).1 in
      let answer : (operation failing : Operation) (table : List (Status × Errno))
            (code : Codes.RequestCode)
          → exchange t (request_for code absolute 0 []) (verdict operation failing table absolute) c
            ≡ ok (
                answered t operation failing table absolute (request_for code absolute 0 []) r rest
                  c) =
        λ operation failing table code.
          exchange-answer reliable (request_for code absolute 0 [])
            (verdict operation failing table absolute) c r rest a
          ∙ verdict-answered t operation failing table absolute (request_for code absolute 0 []) r
              rest c in
      let step : (operation : Operation) (body : Option CString → Cmd (Client D) ℤ)
          → checked operation (some path) (λ p. body (h.realpath p)) c ≡ body (some absolute) c =
        λ operation body.
          checked-open operation path (λ p. body (h.realpath p)) c a.fd a.open_socket
          ∙ ap (λ p. body p c) real in
      (
        arrives,
        step lock_file_op (λ p.
              ensure_opened t p o_noflag (ask t lock_file_op lock_file_op basic Codes.lock_file p))
            ∙ ensure_opened-found t (some absolute) o_noflag
                (ask t lock_file_op lock_file_op basic Codes.lock_file (some absolute)) c files
                opened found
            ∙ answer lock_file_op lock_file_op basic Codes.lock_file,
        step unlock_file_op (λ p. do
          names ← files_of
          found ← lift (is_opened names p)
          if found
              then ask t unlock_file_op unlock_file_op (basic ++ (bad_request, ebadmsg) ∷ [])
                  Codes.unlock_file p
              else fail eperm unlock_file_op p 0)
            ∙ rw (files_of-some c files opened, found)
                (answer unlock_file_op unlock_file_op (basic ++ (bad_request, ebadmsg) ∷ [])
                  Codes.unlock_file),
        step close_file_op (ask t remove_file_op close_file_op basic Codes.close_file)
            ∙ answer remove_file_op close_file_op basic Codes.close_file,
      )
