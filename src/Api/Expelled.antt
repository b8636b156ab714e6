-- ===== src/Api/Expelled.antt =====
-- api/fileserver_api.c: the files that the server sends behind a response.
use file_storage_server.Base.{
  ℕ, zero, suc, ◌+◌, ◌≡◌, refl, ap, ◌∙◌, true, none, some, List, [], ◌∷◌, ◌++◌, ltb, length,
  length-append, inl, inr, ◌⊎◌, arith,
}
use file_storage_server.Base.Int.{pos}
use file_storage_server.Outcome.{ok, fault}
use file_storage_server.Utilities.{CString}
use file_storage_server.Utilities.Host.{slash}
use file_storage_server.Protocol.{Transport, IsReliable, Response}
use file_storage_server.Protocol.RoundTrip.{IsAnswer}
use file_storage_server.Worker.Common.{c_string}
use file_storage_server.Api.State.{Client, Host, Operation, Saved, phrase, receive, drop_name}
use file_storage_server.Api.Steps.{response_bytes, receive-response, files_of-some}
use file_storage_server.Api.Transfer.{
  write_file_in_directory, keep_file, receive_files, receive_expelled,
}

c_string-ends : (xs : List ℕ) → ((name : CString) × (c_string xs ≡ ok name)) ⊎ (c_string xs ≡ fault)
unfolding c_string
c_string-ends [] = inr refl
c_string-ends (zero ∷ xs) = inl ([], refl)
c_string-ends (suc c ∷ xs) = elim (c_string-ends xs) [
  | inl (name, e) ↦ inl (suc c ∷ name, rw e refl)
  | inr e ↦ inr (rw e refl)
]

module _ {D : Type 0} (h : Host D) where
  -- Whatever the arguments are, `write_file_in_directory` ends in undefined behaviour: a name with no
  -- NUL is read past its end, and with one the path is a byte longer than its block.
  write_file_in_directory-fault :
      (dirname : CString) (filename : List ℕ) (size : ℕ) (bytes : List ℕ) (c : Client D)
      → write_file_in_directory h dirname filename size bytes c ≡ fault
  unfolding write_file_in_directory
  write_file_in_directory-fault dirname filename size bytes c = elim (c_string-ends filename) [
    | inl (name, e) ↦
        let longer : ltb (length dirname + length (h.basename name) + 1)
              (length (dirname ++ slash ∷ h.basename name) + 1)
            ≡ true =
          ground (arith, length-append dirname (slash ∷ h.basename name)) in
        rw (e, longer) refl
    | inr e ↦ rw e refl
  ]

-- The bytes are these responses, one behind the other, about these names, and `rest`.
abbrev pub IsArriving : Transport → List (CString × Response) → List ℕ → List ℕ → Type 0
IsArriving t [] rest bytes = bytes ≡ rest
IsArriving t ((name, r) ∷ files) rest bytes =
    (more : List ℕ) × (bytes ≡ response_bytes t r ++ more)
    × IsAnswer r
    × (c_string r.file_path ≡ ok name)
    × IsArriving t files rest more

-- The names that stay in the list of opened files.
abbrev pub without : List CString → List (CString × Response) → List CString
without names [] = names
without names ((name, r) ∷ files) = without (drop_name names name).1 files

module _ {D : Type 0} {t : Transport} (reliable : IsReliable t) (h : Host D) where
  -- Over a reliable transport, with no directory: the loop over the expelled files takes exactly the
  -- bytes of their responses, drops each name from the list of opened files, displays a line for
  -- each, and leaves the disk alone.
  pub receive_expelled-without :
      (operation : Operation) (files : List (CString × Response)) (rest : List ℕ) (c : Client D)
      (fd : ℕ) (names : List CString)
      → c.socket_fd ≡ pos fd
      → c.opened_files ≡ some names
      → IsArriving t files rest c.incoming
      → (c' : Client D) × (receive_expelled t h operation (length files) none c ≡ ok (tt, c'))
        × (c'.opened_files ≡ some (without names files))
        × (c'.incoming ≡ rest)
        × (length c'.displayed ≡ length c.displayed + length files)
        × (c'.disk ≡ c.disk)
  unfolding receive_expelled keep_file
  receive_expelled-without operation [] rest c fd names open_socket opened e =
      (c, refl, opened, e, omega arith, refl)
  receive_expelled-without operation ((name, r) ∷ files) rest c fd names open_socket opened
        (more, e, v, called, after) =
      let line : Saved = record {
        operation = operation;
        path = some name;
        n_bytes = r.body_size;
        message = phrase r.status_phrase;
      } in
      let c₁ : Client D = record c {
        incoming = more;
        opened_files = some (drop_name names name).1;
        result_buffer = some line;
        displayed = c.displayed ++ some line ∷ [];
      } in
      let got : receive t c ≡ ok (some r, record c { incoming = more }) =
        receive-response reliable c fd r more open_socket e v in
      let round : receive_expelled t h operation (suc (length files)) none c
          ≡ receive_expelled t h operation (length files) none c₁ =
        rw (got, called, files_of-some (record c { incoming = more }) names opened) refl in
      let (c', ends, opened', incoming', displayed', disk') =
        receive_expelled-without operation files rest c₁ fd (drop_name names name).1 open_socket
          refl after in
      (
        c',
        round ∙ ends,
        opened',
        incoming',
        displayed'
            ∙ ap (λ n. n + length files) (length-append c.displayed (some line ∷ []))
            ∙ omega arith,
        disk',
      )

  -- With a directory, the first file that arrives, by whichever call, ends in undefined behaviour.
  pub receive-fault :
      (operation : Operation) (dirname : CString) (n total : ℕ) (c : Client D) (fd : ℕ)
      (r : Response) (rest : List ℕ)
      → c.socket_fd ≡ pos fd
      → c.incoming ≡ response_bytes t r ++ rest
      → IsAnswer r
      → (receive_files t h (suc n) (some dirname) total c ≡ fault)
        × (receive_expelled t h operation (suc n) (some dirname) c ≡ fault)
  unfolding receive_files receive_expelled keep_file
  receive-fault operation dirname n total c fd r rest open_socket bytes v =
      let got : receive t c ≡ ok (some r, record c { incoming = rest }) =
        receive-response reliable c fd r rest open_socket bytes v in
      (
        rw
            (
              got,
              write_file_in_directory-fault h dirname r.file_path r.body_size r.body
                  (record c { incoming = rest }),
            )
            refl,
        rw
            (
              got,
              write_file_in_directory-fault h dirname r.file_path r.body_size r.body
                  (record c { incoming = rest }),
            )
            refl,
      )
