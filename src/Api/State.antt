-- ===== src/Api/State.antt =====
-- api/fileserver_api.c: the globals of the client's side of a connection, and what each call does
-- with them. `out` holds the bytes that were sent; `incoming` those that the server sends, in their
-- order, which a read takes from the front. The line in `result_buffer` is kept by its parts, and
-- is taken to fit; a path that is NULL is printed as `(null)`, as the C library does.
use file_storage_server.Base.{
  ℕ, ◌+◌, ◌^◌, ◌==◌, Bool, true, false, Option, none, some, List, [], ◌∷◌, ◌++◌, ltb, leb,
  if◌then◌else◌, length, take,
}
use file_storage_server.Base.Int.{ℤ, pos, negsuc}
use file_storage_server.Outcome.{Outcome, ok, fault, Cmd, pure, ◌>>=◌, ◌>>◌}
use file_storage_server.Utilities.{CString, string_compare}
use file_storage_server.Utilities.Host.{MkDir}
use file_storage_server.Protocol.{
  Transport, Request, Response, of_bytes, send_request, recv_response,
}
use file_storage_server.Protocol.Codes.{RequestCode, request_code, Status, response_code}

-- The names in the first column of `result_buffer`.
pub data Operation : Type 0 where
  open_connection_op close_connection_op open_file_op read_file_op read_n_files_op read_n_file_op
        write_file_op append_to_file_op lock_file_op unlock_file_op remove_file_op close_file_op :
      Operation

pub data Errno : Type 0 where
  einval eisconn enotconn econnrefused econnaborted eprotonosupport enoent eperm eexist ebadmsg
        enomem eio :
      Errno

-- The last column: the text of an error, or the phrase of a response.
pub data Message : Type 0 where
  strerror : Errno → Message
  phrase : List ℕ → Message

pub record Saved : Type 0 where
  pub operation : Operation
  pub path : Option CString
  pub n_bytes : ℕ
  pub message : Message

-- What `fopen`, and then `stat` and `fread`, give.
pub data ReadDisk : Type 0 where
  contents : List ℕ → ReadDisk
  not_opened not_read : ReadDisk

-- The calls of the operating system on files; `put` is `fopen` and `fwrite`.
pub record Host (D : Type 0) : Type 0 where
  pub realpath : CString → Option CString
  pub read_disk : CString → D → ReadDisk
  pub mkdir : CString → D → MkDir × D
  pub put : CString → List ℕ → D → Option D
  pub basename : CString → CString

-- `socket_path` and `opened_files` are `none` while the pointers are NULL or dangling. `connected`
-- says whether a `connect` has succeeded on the socket. `buffer` is the caller's `*size` and `*buf`
-- of `readFile`; `waits` is what `msleep` was asked for. `errno` holds what these files
-- set; what a system call leaves there when it fails is not followed.
pub record Client (D : Type 0) : Type 0 where
  pub socket_fd : ℤ
  pub connected : Bool
  pub socket_path : Option CString
  pub opened_files : Option (List CString)
  pub errno : Option Errno
  pub result_buffer : Option Saved
  pub displayed : List (Option Saved)
  pub out : List ℕ
  pub incoming : List ℕ
  pub buffer : Option (ℕ × List ℕ)
  pub disk : D
  pub waits : List ℤ

module _ {D : Type 0} where
  abbrev pub set_errno_save_result :
      Errno → Operation → Option CString → ℕ → Cmd (Client D) (Unit {0})
  set_errno_save_result err operation path n c = ok (
    tt,
    record c {
      result_buffer =
          some (record { operation = operation; path = path; n_bytes = n; message = strerror err });
      errno = some err;
    },
  )

  abbrev pub save_request_result :
      Operation → Option CString → ℕ → List ℕ → Cmd (Client D) (Unit {0})
  save_request_result operation path n msg c = ok (
    tt,
    record c {
      result_buffer =
          some (record { operation = operation; path = path; n_bytes = n; message = phrase msg });
    },
  )

  abbrev pub display_request_result : Cmd (Client D) (Unit {0})
  display_request_result c = ok (tt, record c { displayed = c.displayed ++ c.result_buffer ∷ [] })

  -- `set_errno_save_result(...); return -1;`
  abbrev pub fail : Errno → Operation → Option CString → ℕ → Cmd (Client D) ℤ
  fail err operation path n = do set_errno_save_result err operation path n; pure (negsuc 0)

  -- The two tests at the start of a call: a path that is NULL, and a socket that is not open.
  abbrev pub checked : Operation → Option CString → (CString → Cmd (Client D) ℤ) → Cmd (Client D) ℤ
  checked operation none body c = fail einval operation none 0 c
  checked operation (some path) body c = elim c.socket_fd [
    | negsuc n ↦ fail enotconn operation (some path) 0 c
    | pos fd ↦ body path c
  ]

  -- `opened_files`, which a call reads through.
  unfoldable pub files_of : Cmd (Client D) (List CString)
  files_of c = elim c.opened_files [ none ↦ fault | some files ↦ ok (files, c) ]

  abbrev pub set_files : List CString → Cmd (Client D) (Unit {0})
  set_files files c = ok (tt, record c { opened_files = some files })

-- `list_find(opened_files, path) != -1`; `strcmp` reads through a path that is NULL.
unfoldable pub is_opened : List CString → Option CString → Outcome Bool
is_opened [] path = ok false
is_opened (name ∷ names) none = fault
is_opened (name ∷ names) (some path) =
    let more = is_opened names (some path) in if string_compare name path then ok true else more

-- `list_remove_element(opened_files, path)`: the code, and the names that stay.
unfoldable pub drop_name : List CString → CString → ℤ × List CString
drop_name [] path = (negsuc 0, [])
drop_name (name ∷ names) path =
    let (code, rest) = drop_name names path in
    if string_compare name path then (pos 0, names) else (code, name ∷ rest)

-- `*(int*)response->body`, as the number of rounds that a loop down to 0 makes.
unfoldable pub how_many : Response → Outcome ℕ
unfolding of_bytes
how_many r =
    let n = of_bytes (take 4 r.body) in
    if leb 4 (length r.body) then ok (if ltb n (2 ^ 31) then n else 0) else fault

module _ {D : Type 0} (t : Transport) where
  -- A write to a socket that is not connected fails.
  unfoldable pub send : Request → Cmd (Client D) ℤ
  send r c =
      let (code, out') = send_request t c.socket_fd r c.out in
      if c.connected then ok (code, record c { out = out' }) else ok (negsuc 0, c)

  -- A response that could not be read is taken to leave the stream where it was.
  unfoldable pub receive : Cmd (Client D) (Option Response)
  receive c = elim (recv_response t c.socket_fd c.incoming) [
    | none ↦ ok (none, c)
    | some (r, rest) ↦ ok (some r, record c { incoming = rest })
  ]

  -- `send_request`, `recv_response`, and `return -1` if one of them fails.
  unfoldable pub exchange : Request → (Response → Cmd (Client D) ℤ) → Cmd (Client D) ℤ
  unfolding send receive
  exchange r body = do
    code ← send r
    elim code [
      | negsuc n ↦ pure (negsuc 0)
      | pos n ↦ do response ← receive; elim response [ none ↦ pure (negsuc 0) | some x ↦ body x ]
    ]

-- A request about a path, whose length counts the NUL.
abbrev pub request_for : RequestCode → CString → ℕ → List ℕ → Request
request_for code path body_size body = record {
  type = request_code code;
  path_len = length path + 1;
  file_path = path ++ 0 ∷ [];
  body_size = body_size;
  body = body;
}

-- The error for a status, where a `switch` has a case for it; the default is EPROTONOSUPPORT.
unfoldable pub errno_for : List (Status × Errno) → ℕ → Errno
unfolding response_code
errno_for [] status = eprotonosupport
errno_for ((s, e) ∷ rest) status =
    let more = errno_for rest status in if response_code s == status then e else more
