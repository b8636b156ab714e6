-- ===== src/Api/Files.antt =====
-- api/fileserver_api.c: `openFile`, `lockFile`, `unlockFile`, `removeFile`, `closeFile` and
-- `readFile`.
use file_storage_server.Base.{ℕ, ◌==◌, Bool, Option, none, some, List, [], ◌∷◌, ◌++◌, if◌then◌else◌}
use file_storage_server.Base.Int.{ℤ, pos, negsuc}
use file_storage_server.Outcome.{ok, fault, Cmd, pure, ◌>>=◌, ◌>>◌, lift}
use file_storage_server.Utilities.{CString}
use file_storage_server.Utilities.Flags.{o_noflag, o_lock}
use file_storage_server.Protocol.{Transport, Response, to_bytes}
use file_storage_server.Protocol.Codes
use file_storage_server.Protocol.Codes.{
  Status, success, internal_error, bad_request, not_found, unauthorized, file_exists, response_code,
}
use file_storage_server.Api.State.{
  Operation, open_file_op, read_file_op, lock_file_op, unlock_file_op, remove_file_op,
  close_file_op, Errno, econnaborted, enoent, eperm, eexist, ebadmsg, Client, Host,
  save_request_result, fail, checked, files_of, set_files, is_opened, drop_name, exchange,
  request_for, errno_for,
}

-- The cases of a `switch` that end in an error, and its default.
abbrev pub refused :
    {D : Type 0} → List (Status × Errno) → Operation → CString → ℕ → Response → Cmd (Client D) ℤ
refused table operation path n r = fail (errno_for table r.status) operation (some path) n

abbrev pub succeeded : Response → Bool
succeeded r = response_code success == r.status

abbrev pub basic : List (Status × Errno)
basic = (internal_error, econnaborted) ∷ (not_found, enoent) ∷ (unauthorized, eperm) ∷ []

abbrev pub set_buffer : {D : Type 0} → ℕ → List ℕ → Cmd (Client D) (Unit {0})
set_buffer size buf c = ok (tt, record c { buffer = some (size, buf) })

-- `strlen(absolute_path)` in the request reads through a path that is NULL.
abbrev pub with_path :
    {D : Type 0} → Option CString → (CString → Cmd (Client D) ℤ) → Cmd (Client D) ℤ
with_path none body c = fault
with_path (some path) body c = body path c

module _ {D : Type 0} (t : Transport) where
  unfoldable pub open_file : Option CString → ℕ → Cmd (Client D) ℤ
  unfolding exchange files_of
  open_file pathname flags = checked open_file_op pathname λ path.
      exchange t (request_for Codes.open_file path 4 (to_bytes 4 flags)) λ response.
        if succeeded response
        then (do
          files ← files_of
          set_files (files ++ path ∷ [])
          save_request_result open_file_op (some path) 0 response.status_phrase
          pure (pos 0))
        else refused (basic ++ (file_exists, eexist) ∷ []) open_file_op path 0 response

  -- `openFile` with these flags, unless the file is in the list of opened files.
  unfoldable pub ensure_opened : Option CString → ℕ → Cmd (Client D) ℤ → Cmd (Client D) ℤ
  unfolding files_of
  ensure_opened path flags next = do
    files ← files_of
    found ← lift (is_opened files path)
    if found then next else (do
      code ← open_file path flags
      elim code [ negsuc n ↦ pure (negsuc 0) | pos n ↦ next ])

  module _ (h : Host D) where
    unfoldable pub lock_file : Option CString → Cmd (Client D) ℤ
    unfolding ensure_opened exchange
    lock_file pathname = checked lock_file_op pathname λ path.
        ensure_opened (h.realpath path) o_noflag (
          with_path (h.realpath path) λ absolute_path.
            exchange t (request_for Codes.lock_file absolute_path 0 []) λ response.
              if succeeded response
              then (do
                save_request_result lock_file_op (some absolute_path) 0 response.status_phrase
                pure (pos 0))
              else refused basic lock_file_op absolute_path 0 response)

    unfoldable pub unlock_file : Option CString → Cmd (Client D) ℤ
    unfolding exchange files_of
    unlock_file pathname = checked unlock_file_op pathname λ path. do
      files ← files_of
      found ← lift (is_opened files (h.realpath path))
      if found
          then (with_path (h.realpath path) λ absolute_path.
              exchange t (request_for Codes.unlock_file absolute_path 0 []) λ response.
                if succeeded response
                then (do
                  save_request_result unlock_file_op (some absolute_path) 0 response.status_phrase
                  pure (pos 0))
                else refused (basic ++ (bad_request, ebadmsg) ∷ []) unlock_file_op absolute_path 0
                    response)
          else fail eperm unlock_file_op (h.realpath path) 0

    -- The tests at the start name `unlockFile` in their line.
    unfoldable pub remove_file : Option CString → Cmd (Client D) ℤ
    unfolding ensure_opened exchange files_of
    remove_file pathname = checked unlock_file_op pathname λ path.
        ensure_opened (h.realpath path) o_lock (
          with_path (h.realpath path) λ absolute_path.
            exchange t (request_for Codes.remove_file absolute_path 0 []) λ response.
              if succeeded response
              then (do
                files ← files_of
                set_files (drop_name files absolute_path).1
                save_request_result remove_file_op (some absolute_path) 0 response.status_phrase
                pure (pos 0))
              else refused (basic ++ (bad_request, ebadmsg) ∷ []) remove_file_op absolute_path 0
                  response)

    -- Success is saved under the name `removeFile`, and the list of opened files is left alone.
    unfoldable pub close_file : Option CString → Cmd (Client D) ℤ
    unfolding exchange
    close_file pathname = checked close_file_op pathname λ path.
        with_path (h.realpath path) λ absolute_path.
          exchange t (request_for Codes.close_file absolute_path 0 []) λ response.
            if succeeded response
            then (do
              save_request_result remove_file_op (some absolute_path) 0 response.status_phrase
              pure (pos 0))
            else refused basic close_file_op absolute_path 0 response

    unfoldable pub read_file : Option CString → Cmd (Client D) ℤ
    unfolding ensure_opened exchange
    read_file pathname = checked read_file_op pathname λ path.
        ensure_opened (h.realpath path) o_noflag (
          with_path (h.realpath path) λ absolute_path.
            exchange t (request_for Codes.read_file absolute_path 0 []) λ response.
              if succeeded response
              then (do
                set_buffer response.body_size response.body
                save_request_result read_file_op (some absolute_path) response.body_size
                    response.status_phrase
                pure (pos 0))
              else refused basic read_file_op absolute_path 0 response)
