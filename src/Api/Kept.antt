-- ===== src/Api/Kept.antt =====
-- api/fileserver_api.c: the calls that leave `socket_fd` as it is.
use file_storage_server.Base.{
  ◌≡◌, subst, refl, Bool, true, false, Option, none, some, List, [], ◌∷◌, if◌then◌else◌,
}
use file_storage_server.Base.Int.{ℤ, pos, negsuc}
use file_storage_server.Outcome.{ok, fault, Cmd, Ends, then-Ends, if-Ends, pure, ◌>>=◌}
use file_storage_server.Utilities.{CString, string_compare}
use file_storage_server.Protocol.{Transport, Request, Response, send_request, recv_response}
use file_storage_server.Protocol.Codes
use file_storage_server.Api.State.{
  Client, Host, Operation, close_connection_op, close_file_op, enotconn, einval, send, receive,
  exchange, files_of, set_files, checked, fail,
}
use file_storage_server.Api.Files.{succeeded, close_file, with_path}
use file_storage_server.Api.Connection.{
  hang_up, bare_request, disconnect, close_files, close_connection,
}

module _ {D : Type 0} where
  -- The descriptor in `socket_fd` is `fd`.
  abbrev pub Has : {A : Type 0} → ℤ → A × Client D → Type 0
  Has fd r = r.1.socket_fd ≡ fd

  -- The command leaves the descriptor in `socket_fd` as it is.
  abbrev pub Keeps : {A : Type 0} → Cmd (Client D) A → Type 0
  Keeps m = (c : Client D) → Ends (Has c.socket_fd) (m c)

  bind-Keeps :
      {A B : Type 0} (m : Cmd (Client D) A) (k : A → Cmd (Client D) B)
      → Keeps m
      → ((a : A) → Keeps (k a))
      → Keeps (m >>= k)
  bind-Keeps m k p q c =
      then-Ends (Has c.socket_fd) (Has c.socket_fd) (m c) (λ r. k r.0 r.1) (p c)
        (λ r e. subst (λ x. Ends (Has x) (k r.0 r.1)) e (q r.0 r.1))

  send-Keeps : (t : Transport) (r : Request) → Keeps (send t r)
  unfolding send
  send-Keeps t r c =
      elim c.connected
        as (λ b. Ends (Has c.socket_fd) (
          if b
          then ok (
            (send_request t c.socket_fd r c.out).0,
            record c { out = (send_request t c.socket_fd r c.out).1 },
          )
          else ok (negsuc 0, c))) [ true ↦ refl | false ↦ refl ]

  receive-Keeps : (t : Transport) → Keeps (receive t)
  unfolding receive
  receive-Keeps t c =
      elim (recv_response t c.socket_fd c.incoming)
        as (λ o. Ends (Has {A = Option Response} c.socket_fd) (elim o [
          | none ↦ ok (none, c)
          | some (r, rest) ↦ ok (some r, record c { incoming = rest })
        ])) [ none ↦ refl | some (r, rest) ↦ refl ]

  exchange-Keeps :
      (t : Transport) (r : Request) (body : Response → Cmd (Client D) ℤ)
      → ((x : Response) → Keeps (body x))
      → Keeps (exchange t r body)
  unfolding exchange
  exchange-Keeps t r body p = bind-Keeps (send t r) _ (send-Keeps t r) λ code. go code
    where
      answer :
          (x : Option Response)
          → Keeps {A = ℤ} (elim x [ none ↦ pure (negsuc 0) | some y ↦ body y ])
      answer none = λ c. refl
      answer (some x) = p x

      go :
          (code : ℤ)
          → Keeps {A = ℤ} (elim code [
            | negsuc n ↦ pure (negsuc 0)
            | pos n ↦ receive t >>= λ x. elim x [ none ↦ pure (negsuc 0) | some y ↦ body y ]
          ])
      go (pos n) = bind-Keeps (receive t) _ (receive-Keeps t) answer
      go (negsuc n) = λ c. refl

  checked-Keeps :
      (operation : Operation) (path : Option CString) (body : CString → Cmd (Client D) ℤ)
      → ((p : CString) → Keeps (body p))
      → Keeps (checked operation path body)
  checked-Keeps operation none body k c = refl
  checked-Keeps operation (some path) body k c =
      elim c.socket_fd
        as (λ s.
          Ends (Has {A = ℤ} c.socket_fd) (elim s [
            | negsuc n ↦ fail enotconn operation (some path) 0 c
            | pos fd ↦ body path c
          ])) [ negsuc n ↦ refl | pos n ↦ k path c ]

  with_path-Keeps :
      (path : Option CString) (body : CString → Cmd (Client D) ℤ)
      → ((p : CString) → Keeps (body p))
      → Keeps (with_path path body)
  with_path-Keeps none body k c = tt
  with_path-Keeps (some path) body k c = k path c

  if-Keeps : (b : Bool) (m k : Cmd (Client D) ℤ) → Keeps m → Keeps k → Keeps (if b then m else k)
  if-Keeps true m k p q = p
  if-Keeps false m k p q = q

  module _ (t : Transport) (h : Host D) where
    close_file-Keeps : (path : Option CString) → Keeps (close_file t h path)
    unfolding close_file
    close_file-Keeps path = checked-Keeps close_file_op path _ λ p.
        with_path-Keeps (h.realpath p) _
          λ absolute. exchange-Keeps t _ _ λ r. if-Keeps (succeeded r) _ _ (λ c. refl) (λ c. refl)

    close_files-Keeps : (files : List CString) → Keeps (close_files t h files)
    unfolding close_files
    close_files-Keeps [] = λ c. refl
    close_files-Keeps (f ∷ files) =
        bind-Keeps _ _ (bind-Keeps (set_files files) _ (λ c. refl) λ u. close_file-Keeps (some f))
          λ code. close_files-Keeps files

    files_of-Keeps : Keeps files_of
    unfolding files_of
    files_of-Keeps c =
        elim c.opened_files
          as (λ o.
            Ends (Has {A = List CString} c.socket_fd)
              (elim o [ none ↦ fault | some files ↦ ok (files, c) ])) [
                | none ↦ tt
                | some files ↦ refl
              ]

    disconnect-Keeps : Keeps (disconnect t h)
    unfolding disconnect
    disconnect-Keeps = bind-Keeps _ _ files_of-Keeps λ files.
        bind-Keeps _ _ (close_files-Keeps files) λ u.
          bind-Keeps _ _ (send-Keeps t (bare_request Codes.close_connection))
            λ code. bind-Keeps hang_up _ (λ c. refl) λ u. end code
      where
        end :
            (code : ℤ)
            → Keeps {A = ℤ} (elim code [ negsuc n ↦ pure (negsuc 0) | pos n ↦ pure (pos 0) ])
        end (pos n) = λ c. refl
        end (negsuc n) = λ c. refl

    pub close_connection-Keeps : (sockname : CString) → Keeps (close_connection t h sockname)
    unfolding close_connection
    close_connection-Keeps sockname c =
        elim c.socket_path
          as (λ o. Ends (Has {A = ℤ} c.socket_fd) (elim o [
            | none ↦ fault
            | some path ↦
                if string_compare sockname path
                then elim c.socket_fd [
                  | negsuc n ↦ fail enotconn close_connection_op (some sockname) 0 c
                  | pos fd ↦ disconnect t h c
                ]
                else fail einval close_connection_op (some sockname) 0 c
          ])) [
            | none ↦ tt
            | some path ↦
                if-Ends (Has c.socket_fd) (string_compare sockname path) _ _
                  (elim c.socket_fd
                    as (λ s. Ends (Has {A = ℤ} c.socket_fd) (elim s [
                      | negsuc n ↦ fail enotconn close_connection_op (some sockname) 0 c
                      | pos fd ↦ disconnect t h c
                    ])) [ negsuc n ↦ refl | pos fd ↦ disconnect-Keeps c ])
                  refl
          ]
