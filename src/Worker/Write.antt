-- ===== src/Worker/Write.antt =====
-- server/worker.c: `write_file_handler` and `append_to_file_handler`. The body of a request that
-- was received holds `body_size` bytes.
pub mod Limit
pub mod Contents
use file_storage_server.Base.{
  ℕ, ◌+◌, ◌%◌, ◌||◌, Bool, true, false, List, [], ◌∷◌, ◌++◌, ltb, ◌==◌, if◌then◌else◌, length,
}
use file_storage_server.Base.Int.{eq_ℕ}
use file_storage_server.Outcome.{Cmd, pure, ◌>>=◌, ◌>>◌, lift}
use file_storage_server.Utilities.{size_mod}
use file_storage_server.Utilities.Flags.{o_create, chk_flag, clr_flag}
use file_storage_server.Protocol.{Request, to_bytes}
use file_storage_server.Protocol.Codes.{
  Status, success, bad_request, unauthorized, file_too_big, file_exists, files_expelled,
}
use file_storage_server.Storage.{is_over, storage_fifo_replace, storage_remove_file}
use file_storage_server.Storage.State.{Ptr, File, Server, with_storage, load, unlock_access}
use file_storage_server.Worker.Common.{c_string, with_file, finish, update, respond}

-- `request->body_size == 0 || request->body == NULL`
abbrev pub has_no_body : Request → Bool
has_no_body r = r.body_size == 0 || (elim r.body [ [] ↦ true | b ∷ bs ↦ false ])

-- The loop that sends files, oldest first; the size of a path counts its NUL.
unfoldable pub send_files : ℕ → Status → List File → Cmd Server (Unit {0})
unfolding respond
send_files client_fd status [] = pure tt
send_files client_fd status (f ∷ files) = do
  respond client_fd status (f.path ++ 0 ∷ []) f.size f.contents
  send_files client_fd status files

-- The number of files, as an `int`, and the files.
unfoldable pub send_all : ℕ → Status → List File → Cmd Server (Unit {0})
unfolding respond
send_all client_fd status files = do
  respond client_fd status [] 4 (to_bytes 4 (length files))
  send_files client_fd status files

-- The block that makes room: `storage_FIFO_replace`, and the answers with what it expelled.
unfoldable pub make_room : ℕ → Request → Cmd Server (Unit {0})
make_room client_fd r s =
    if is_over r.body_size s
    then (do
      expelled ← storage_fifo_replace r.body_size
      send_all client_fd files_expelled expelled)
        s
    else pure tt s

-- `storage->current_size += size`
abbrev pub grow : ℕ → Cmd Server (Unit {0})
grow size = with_storage (λ st. record st { current_size = (st.current_size + size) % size_mod })

-- The last block: the contents replace what the file had.
unfoldable pub write_contents : Ptr → Request → Cmd Server Status
unfolding finish load
write_contents file r = do
  f ← load file
  update file
      (record f { flags = clr_flag f.flags o_create; size = r.body_size; contents = r.body })
  with_storage (λ st. record st { fifo_queue = st.fifo_queue ++ file ∷ [] })
  grow r.body_size
  finish success

-- `storage_remove_file` runs after the unlock here.
unfoldable pub refuse_big : Request → Cmd Server Status
unfolding unlock_access
refuse_big r = do
  unlock_access
  name ← lift (c_string r.file_path)
  storage_remove_file name
  pure file_too_big

unfoldable pub write_file_handler : ℕ → Request → Cmd Server Status
unfolding with_file finish
write_file_handler client_fd r =
    if has_no_body r
    then pure bad_request
    else with_file r λ file f.
      if eq_ℕ f.locked_by client_fd
      then (λ s.
          if ltb s.max_size r.body_size
          then refuse_big r s
          else if chk_flag f.flags o_create
          then (do make_room client_fd r; write_contents file r) s
          else finish file_exists s)
      else finish unauthorized

-- There is no test of the space that is left.
unfoldable pub append_to_file_handler : ℕ → Request → Cmd Server Status
unfolding with_file finish
append_to_file_handler client_fd r s =
    if has_no_body r
    then pure bad_request s
    else if ltb s.max_size r.body_size
    then pure file_too_big s
    else with_file r
        (λ file f.
          if eq_ℕ f.locked_by client_fd
          then (do
            update file (record f {
              size = (f.size + r.body_size) % size_mod;
              contents = f.contents ++ r.body;
            })
            grow r.body_size
            finish success)
          else finish unauthorized)
        s
