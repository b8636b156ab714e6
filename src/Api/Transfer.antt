-- ===== src/Api/Transfer.antt =====
-- api/fileserver_api.c: `writeFile`, `appendToFile`, `readNFiles` and `write_file_in_directory`.
use file_storage_server.Base.{
  ℕ, zero, suc, ◌+◌, ◌%◌, ◌^◌, ◌==◌, ◌||◌, Bool, true, false, Option, none, some, List, [], ◌∷◌,
  ◌++◌, ltb, if◌then◌else◌, length,
}
use file_storage_server.Base.Int.{ℤ, pos, negsuc}
use file_storage_server.Outcome.{ok, fault, blocked, Cmd, pure, ◌>>=◌, ◌>>◌, lift}
use file_storage_server.Utilities.{CString}
use file_storage_server.Utilities.Flags.{o_create, o_lock}
use file_storage_server.Utilities.Host.{mkdir_p, slash}
use file_storage_server.Protocol.{Transport, Response, to_bytes}
use file_storage_server.Protocol.Codes
use file_storage_server.Protocol.Codes.{
  Status, success, internal_error, missing_body, not_found, unauthorized, file_exists,
  files_expelled, response_code,
}
use file_storage_server.Worker.Common.{c_string}
use file_storage_server.Api.State.{
  Operation, read_n_files_op, read_n_file_op, write_file_op, append_to_file_op, Errno, einval,
  enotconn, econnaborted, enoent, eperm, eexist, eio, contents, not_opened, not_read, Client, Host,
  save_request_result, display_request_result, fail, checked, files_of, set_files, drop_name,
  how_many, receive, exchange, request_for,
}
use file_storage_server.Api.Files.{refused, succeeded, ensure_opened, with_path}

-- Does the `switch` have a case for the status?
abbrev pub known : List (Status × Errno) → ℕ → Bool
known [] status = false
known ((s, e) ∷ rest) status = response_code s == status || known rest status

module _ {D : Type 0} (h : Host D) where
  -- The block for the path has `strlen(dirname) + strlen(base_name) + 1` bytes, and `sprintf` writes
  -- the two strings, a slash and the NUL.
  unfoldable pub write_file_in_directory : CString → List ℕ → ℕ → List ℕ → Cmd (Client D) ℤ
  unfolding c_string
  write_file_in_directory dirname filename size bytes = do
    name ← lift (c_string filename)
    let base_name = h.basename name
    let full_path = dirname ++ slash ∷ base_name
    if ltb (length dirname + length base_name + 1) (length full_path + 1)
        then (λ c. fault)
        else (λ c. elim (h.put full_path bytes c.disk) [
          | none ↦ ok (negsuc 0, c)
          | some disk' ↦ ok (pos 0, record c { disk = disk' })
        ])

  -- `if (dirname != NULL) { if (mkdir_p(dirname) == -1) ... }`: may the call go on?
  unfoldable pub make_directory : Option CString → Cmd (Client D) Bool
  make_directory none c = ok (true, c)
  make_directory (some dirname) c = elim (mkdir_p h.mkdir dirname c.disk) [
    | ok (pos n, d) ↦ ok (true, record c { disk = d })
    | ok (negsuc n, d) ↦ ok (false, record c { disk = d })
    | fault ↦ fault
    | blocked ↦ blocked
  ]

  -- `if (dirname != NULL) write_file_in_directory(...)`, whose result is not looked at.
  unfoldable pub keep_file : Option CString → Response → Cmd (Client D) (Unit {0})
  unfolding write_file_in_directory
  keep_file none r c = ok (tt, c)
  keep_file (some dirname) r c =
      (do write_file_in_directory dirname r.file_path r.body_size r.body; pure tt) c

module _ {D : Type 0} (t : Transport) (h : Host D) where
  -- The loop of `readNFiles`, and the sum of the sizes, as the unsigned number of an `int`.
  unfoldable pub receive_files : ℕ → Option CString → ℕ → Cmd (Client D) ℕ
  unfolding receive keep_file
  receive_files zero dirname total = pure total
  receive_files (suc n) dirname total = do
    received_file ← receive t
    elim received_file [
      | none ↦ pure total
      | some r ↦ do keep_file h dirname r; receive_files n dirname ((total + r.body_size) % 2 ^ 32)
    ]

  unfoldable pub read_n_files : ℤ → Option CString → Cmd (Client D) ℤ
  unfolding exchange receive_files make_directory how_many
  read_n_files (negsuc n) dirname c = fail einval read_n_files_op (some []) 0 c
  read_n_files (pos n) dirname c = elim c.socket_fd [
    | negsuc m ↦ fail enotconn read_n_file_op (some []) 0 c
    | pos fd ↦
        exchange t
          (record {
            type = Codes.request_code Codes.read_n_files;
            path_len = 0;
            file_path = 0 ∷ [];
            body_size = 4;
            body = to_bytes 4 n;
          })
          (λ response.
            if succeeded response
            then (do
              going ← make_directory h dirname
              if going
                  then (do
                    count ← lift (how_many response)
                    total ← receive_files count dirname 0
                    save_request_result read_n_files_op (some []) total response.status_phrase
                    pure (pos 0))
                  else pure (negsuc 0))
            else refused ((internal_error, econnaborted) ∷ []) read_n_file_op [] 0 response)
          c
  ]

  -- The loop over the expelled files: each is kept or thrown away, and is no longer opened.
  unfoldable pub receive_expelled : Operation → ℕ → Option CString → Cmd (Client D) (Unit {0})
  unfolding receive keep_file files_of c_string
  receive_expelled operation zero dirname = pure tt
  receive_expelled operation (suc n) dirname = do
    received_file ← receive t
    elim received_file [
      | none ↦ pure tt
      | some r ↦ do
        keep_file h dirname r
        name ← lift (c_string r.file_path)
        files ← files_of
        set_files (drop_name files name).1
        save_request_result operation (some name) r.body_size r.status_phrase
        display_request_result
        receive_expelled operation n dirname
    ]

  -- The case FILES_EXPELLED of `writeFile` and `appendToFile`, with the table of its inner `switch`,
  -- and the name that the default case saves. A final response that is NULL is read through.
  unfoldable pub expelled_case :
      Operation
      → Operation
      → List (Status × Errno)
      → CString
      → ℕ
      → Option CString
      → Response
      → Cmd (Client D) ℤ
  unfolding receive_expelled make_directory how_many receive
  expelled_case operation other table path size dirname response = do
    going ← make_directory h dirname
    if going
        then (do
          count ← lift (how_many response)
          receive_expelled operation count dirname
          final_response ← receive t
          elim final_response [
            | none ↦ (λ c. fault)
            | some r ↦
                if succeeded r
                then (do
                  save_request_result operation (some path) size r.status_phrase
                  pure (pos 0))
                else (if known table r.status
                    then refused table operation path size r
                    else refused [] other path size r)
          ])
        else pure (negsuc 0)

  unfoldable pub write_file : Option CString → Option CString → Cmd (Client D) ℤ
  unfolding ensure_opened exchange expelled_case
  write_file pathname dirname = checked write_file_op pathname λ path.
      with_path (h.realpath path) λ absolute_path c. elim (h.read_disk absolute_path c.disk) [
        | not_opened ↦ fail eio write_file_op (some absolute_path) 0 c
        | not_read ↦ fail eio write_file_op (some absolute_path) 0 c
        | contents file_data ↦
            ensure_opened t (some absolute_path) (o_create + o_lock)
              (exchange t (request_for Codes.write_file absolute_path (length file_data) file_data)
                λ response.
                  if succeeded response
                  then (do
                    save_request_result write_file_op (some absolute_path) (length file_data)
                        response.status_phrase
                    pure (pos 0))
                  else if response_code files_expelled == response.status
                  then expelled_case write_file_op write_file_op
                      ((internal_error, econnaborted) ∷ (unauthorized, eperm) ∷ []) absolute_path
                      (length file_data) dirname response
                  else refused
                      ((internal_error, econnaborted)
                        ∷ (missing_body, einval)
                        ∷ (not_found, enoent)
                        ∷ (file_exists, eexist)
                        ∷ (unauthorized, eperm)
                        ∷ [])
                      write_file_op absolute_path (length file_data) response)
              c
      ]

  -- The default case behind expelled files saves its line under the name `writeFile`.
  unfoldable pub append_to_file :
      Option CString → Option (List ℕ) → ℕ → Option CString → Cmd (Client D) ℤ
  unfolding ensure_opened exchange expelled_case
  append_to_file pathname none size dirname = fail einval append_to_file_op pathname 0
  append_to_file pathname (some buf) size dirname = checked append_to_file_op pathname λ path.
      ensure_opened t (h.realpath path) o_lock (
        with_path (h.realpath path) λ absolute_path.
          exchange t (request_for Codes.append_to_file absolute_path size buf) λ response.
            if succeeded response
            then (do
              save_request_result append_to_file_op (some absolute_path) size response.status_phrase
              pure (pos 0))
            else if response_code files_expelled == response.status
            then expelled_case append_to_file_op write_file_op ((internal_error, econnaborted) ∷ [])
                absolute_path size dirname response
            else if response_code missing_body == response.status
            then refused ((missing_body, einval) ∷ []) append_to_file_op absolute_path 0 response
            else refused
                ((internal_error, econnaborted) ∷ (not_found, enoent) ∷ (unauthorized, eperm) ∷ [])
                append_to_file_op absolute_path size response)
