-- ===== src/Client/Execute.antt =====
-- client/client.c: `execute_action` and `main`.
use file_storage_server.Base.{
  arith, ◌≡◌, ℕ, zero, suc, Bool, Option, none, some, List, [], ◌∷◌, ◌++◌, if◌then◌else◌, length,
}
use file_storage_server.Base.Int.{ℤ, pos, negsuc}
use file_storage_server.Outcome.{ok, fault, Cmd, pure, ◌>>=◌, ◌>>◌}
use file_storage_server.Utilities.{CString}
use file_storage_server.Utilities.Numbers.{atoi, to_int, is_number}
use file_storage_server.Utilities.Tokens.{strtok, tokens, tokens-split, split, filled}
use file_storage_server.Protocol.{Transport}
use file_storage_server.Api.State
use file_storage_server.Api.State.{Host, contents, not_opened, not_read, display_request_result}
use file_storage_server.Api.Files.{lock_file, unlock_file, remove_file, read_file}
use file_storage_server.Api.Transfer.{
  write_file, append_to_file, read_n_files, write_file_in_directory,
}
use file_storage_server.Api.Connection.{Attempt, open_connection, close_connection}
use file_storage_server.Client.Directory.{Listing, get_files_from_directory}
use file_storage_server.Client.Options.{
  Action, append, write, read, write_dir, read_n, lock, unlock, remove, Opt, parse_options_in_list,
  unparsed,
}

abbrev pub comma : ℕ
comma = 44

abbrev pub space : ℕ
space = 32

module _ {D : Type 0} (t : Transport) (h : Host D) (listing : CString → Listing)
    (taints : CString → Bool) (verbose : Bool) where
  abbrev C : Type 0
  C = State.Client D

  -- `if (VERBOSE) display_request_result();`
  abbrev show : Cmd C (Unit {0})
  show c = if verbose then display_request_result c else ok (tt, c)

  -- `if (action->wait_time != 0) msleep(action->wait_time);`
  abbrev pause : ℤ → Cmd C (Unit {0})
  pause (pos zero) c = ok (tt, c)
  pause (pos (suc n)) c = ok (tt, record c { waits = c.waits ++ pos (suc n) ∷ [] })
  pause (negsuc n) c = ok (tt, record c { waits = c.waits ++ negsuc n ∷ [] })

  -- The loops over paths: a call, whose result is not looked at, its line, and a wait.
  unfoldable pub for_each : (CString → Cmd C ℤ) → ℤ → List CString → Cmd C (Unit {0})
  for_each call wait_time [] = pure tt
  for_each call wait_time (file_path ∷ paths) = do
    call file_path
    show
    pause wait_time
    for_each call wait_time paths

  -- The paths that `strtok(action->arguments, ",")` and its repetitions give.
  unfoldable pub paths_of : Action → List CString
  unfolding tokens
  paths_of action = tokens (length action.arguments) comma action.arguments

  -- They are the parts between commas that are not empty, in their order.
  paths_of-split : (action : Action) → paths_of action ≡ filled (split 44 action.arguments)
  unfolding paths_of
  paths_of-split action = tokens-split 44 (length action.arguments) action.arguments (ground arith)

  -- The body of the loop of READ: what is read goes into the directory, if there is one. After a
  -- read that failed this reads a size that was never set, and through NULL.
  unfoldable pub read_one : Option CString → CString → Cmd C ℤ
  read_one directory file_path = do
    (λ c. ok (tt, record c { buffer = none }))
    read_file t h (some file_path)
    show
    (λ c. elim directory [
      | none ↦ ok (pos 0, c)
      | some dirname ↦ elim c.buffer [
        | none ↦ fault
        | some (size, buf) ↦ write_file_in_directory h dirname (file_path ++ 0 ∷ []) size buf c
      ]
    ])

  unfoldable pub read_each : Action → List CString → Cmd C (Unit {0})
  unfolding read_one
  read_each action [] = pure tt
  read_each action (file_path ∷ paths) = do
    read_one action.directory file_path
    pause action.wait_time
    read_each action paths

  -- APPEND: the path in the server and the file with the contents. A file that does not open ends
  -- the action with 0.
  unfoldable pub append_action : Action → Cmd C ℤ
  append_action action =
      let (file_path, rest) = strtok comma action.arguments in
      let (source_path, rest') = strtok comma rest in
      elim source_path [
        | none ↦ (λ c. fault)
        | some source ↦ elim (h.realpath source) [
          | none ↦ (λ c. fault)
          | some absolute_path ↦ (λ c. elim (h.read_disk absolute_path c.disk) [
            | not_opened ↦ ok (pos 0, c)
            | not_read ↦ ok (negsuc 0, c)
            | contents file_data ↦
                (do
                  append_to_file t h file_path (some file_data) (length file_data) action.directory
                  show
                  pause action.wait_time
                  pure (pos 0))
                  c
          ])
        ]
      ]

  -- WRITE_DIR: a directory and a number of files, which is not optional.
  unfoldable pub write_dir_action : Action → Cmd C ℤ
  unfolding for_each
  write_dir_action action =
      let (source, rest) = strtok comma action.arguments in
      let (tmp, rest') = strtok space rest in
      elim (is_number tmp).1 [
        | none ↦ pure (negsuc 0)
        | some n ↦ elim source [
          | none ↦ (λ c. fault)
          | some source_dirname ↦ elim (h.realpath source_dirname) [
            | none ↦ (λ c. fault)
            | some dirname ↦
                let (code, (how_many, files)) =
                  get_files_from_directory h.realpath taints dirname (listing dirname) (to_int n)
                    [] in
                elim code [
                  | negsuc m ↦ pure (negsuc 0)
                  | pos m ↦ do
                    for_each (λ path. write_file t h (some path) action.directory) action.wait_time
                        files
                    pure (pos 0)
                ]
          ]
        ]
      ]

  -- READ_N, LOCK, UNLOCK and REMOVE.
  unfoldable pub other_action : Action → Cmd C ℤ
  unfolding for_each paths_of
  other_action action = elim action.code [
    | read_n ↦ do read_n_files t h (atoi action.arguments) action.directory; show; pure (pos 0)
    | lock ↦ do
      for_each (λ path. lock_file t h (some path)) action.wait_time (paths_of action)
      pure (pos 0)
    | unlock ↦ do
      for_each (λ path. unlock_file t h (some path)) action.wait_time (paths_of action)
      pure (pos 0)
    | remove ↦ do
      for_each (λ path. remove_file t h (some path)) action.wait_time (paths_of action)
      pure (pos 0)
    | other ↦ pure (pos 0)
  ]

  unfoldable pub execute_action : Action → Cmd C ℤ
  unfolding for_each paths_of read_each append_action write_dir_action other_action
  execute_action action = elim action.code [
    | write ↦ do
      for_each (λ path. write_file t h (some path) action.directory) action.wait_time
          (paths_of action)
      pure (pos 0)
    | append ↦ append_action action
    | write_dir ↦ write_dir_action action
    | read ↦ do read_each action (paths_of action); pure (pos 0)
    | other ↦ other_action action
  ]

  -- The loop of `main` over the list of actions.
  unfoldable pub execute_all : List Action → Cmd C (Unit {0})
  execute_all [] = pure tt
  execute_all (current_action ∷ actions) = do execute_action current_action; execute_all actions

-- "/tmp/LSO_socket.sk"
abbrev pub default_socket_path : CString
default_socket_path =
    47 ∷ 116 ∷ 109 ∷ 112 ∷ 47 ∷ 76 ∷ 83 ∷ 79 ∷ 95 ∷ 115 ∷ 111 ∷ 99 ∷ 107 ∷ 101 ∷ 116 ∷ 46 ∷ 115
    ∷ 107 ∷ []

-- `main`: 1 is EXIT_FAILURE. With no option the program stops at once. `fd`, `now` and `attempts`
-- are what `openConnection` meets.
unfoldable pub main :
    {D : Type 0} (t : Transport) (h : Host D) (listing : CString → Listing)
    (taints : CString → Bool)
    → ℤ
    → ℕ
    → List Attempt
    → List Opt
    → Cmd (State.Client D) ℤ
unfolding execute_all
main t h listing taints fd now attempts options =
    let (res, p) = parse_options_in_list options unparsed in
    let sockname : CString = elim p.socket_path [ none ↦ default_socket_path | some path ↦ path ] in
    elim options [
      | [] ↦ pure (pos 1)
      | o ∷ os ↦ elim res [
        | pos (suc n) ↦ pure (pos 0)
        | negsuc n ↦ pure (pos 1)
        | pos zero ↦ do
          code ← open_connection t fd now attempts (some sockname) (pos 0) 0
          elim code [
            | negsuc n ↦ pure (pos 1)
            | pos n ↦ do
              execute_all t h listing taints p.verbose p.action_list
              close_connection t h sockname
              pure (pos 0)
          ]
      ]
    ]
