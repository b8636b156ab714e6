-- ===== src/Protocol/RoundTrip.antt =====
-- What is sent is received, over a transport that keeps every byte.
use file_storage_server.Base.{
  ℕ, ◌^◌, ◌<◌, ◌≡◌, refl, sym, ap, ◌∙◌, some, List, [], ◌∷◌, ◌++◌, arith, ◌==◌, if◌then◌else◌,
  length, take, take-length, append-nil, append_assoc, inl, inr, Bool-cases,
}
use file_storage_server.Base.Int.{pos}
use file_storage_server.Protocol.{
  Transport, IsReliable, Request, Response, max_path, to_bytes, fill, write_all, sized,
  send_request, send_response, read_int, read_buffer, recv_request, recv_response,
}
use file_storage_server.Protocol.Bytes.{length-to_bytes, of-to_bytes, fill-length}

-- The lengths of a request fit its buffers and their machine types.
pub record IsSendable (r : Request) : Type 0 where
  pub type_fits : r.type < 2 ^ 32
  pub path_sized : length r.file_path ≡ r.path_len
  pub path_fits : r.path_len < 2 ^ 64
  pub body_sized : length r.body ≡ r.body_size
  pub body_fits : r.body_size < 2 ^ 64

pub record IsAnswer (r : Response) : Type 0 where
  pub status_fits : r.status < 2 ^ 32
  pub phrase_sized : length r.status_phrase ≡ max_path
  pub path_sized : length r.file_path ≡ r.path_len
  pub path_fits : r.path_len < 2 ^ 64
  pub body_sized : length r.body ≡ r.body_size
  pub body_fits : r.body_size < 2 ^ 64

abbrev concat : List (List ℕ) → List ℕ
concat [] = []
concat (xs ∷ xss) = xs ++ concat xss

concat-append : (xs ys : List (List ℕ)) → concat (xs ++ ys) ≡ concat xs ++ concat ys
concat-append [] ys = refl
concat-append (x ∷ xs) ys =
    ap (λ t. x ++ t) (concat-append xs ys) ∙ sym (append_assoc x (concat xs) (concat ys))

-- The bytes of a buffer whose length has been sent.
abbrev payload : ℕ → List ℕ → List ℕ
payload n xs = if n == 0 then [] else take n xs

concat-sized :
    (n : ℕ) (xs rest : List ℕ)
    → concat (sized n xs) ++ rest ≡ to_bytes 8 n ++ (payload n xs ++ rest)
unfolding sized
concat-sized n xs rest = elim (Bool-cases (n == 0)) [
  | inl e ↦ rw e (ap (λ u. u ++ rest) (append-nil (to_bytes 8 n)))
  | inr e ↦ rw (e, append-nil (take n xs)) (append_assoc (to_bytes 8 n) (take n xs) rest)
]

-- What follows the type of a request, or the phrase of a response.
abbrev fields : ℕ → List ℕ → ℕ → List ℕ → List ℕ → List ℕ
fields p path b body rest =
    to_bytes 8 p ++ (payload p path ++ (to_bytes 8 b ++ (payload b body ++ rest)))

concat-fields :
    (p : ℕ) (path : List ℕ) (b : ℕ) (body rest : List ℕ)
    → concat (sized p path ++ sized b body) ++ rest ≡ fields p path b body rest
concat-fields p path b body rest =
    ap (λ u. u ++ rest) (concat-append (sized p path) (sized b body))
    ∙ append_assoc (concat (sized p path)) (concat (sized b body)) rest
    ∙ ap (λ u. concat (sized p path) ++ u) (concat-sized b body rest)
    ∙ concat-sized p path (to_bytes 8 b ++ (payload b body ++ rest))

module _ (t : Transport) (k : IsReliable t) where
  write_all-concat :
      (xss : List (List ℕ)) (s : List ℕ) → write_all t xss s ≡ (pos 0, s ++ concat xss)
  unfolding write_all
  write_all-concat [] s = ap (λ u. (pos 0, u)) (sym (append-nil s))
  write_all-concat (xs ∷ xss) s =
      rw (k.write_appends s xs, write_all)
        (write_all-concat xss (s ++ xs) ∙ ap (λ u. (pos 0, u)) (append_assoc s xs (concat xss)))

  read_exactly :
      (n : ℕ) (xs rest : List ℕ) → length xs ≡ n → t.read n (xs ++ rest) ≡ some (xs, rest)
  read_exactly n xs rest e = rw (← e) (k.read_exact xs rest)

  read-to_bytes :
      (w n : ℕ) (rest : List ℕ) → n < 256 ^ w → read_int t w (to_bytes w n ++ rest) ≡ some (n, rest)
  unfolding read_int
  read-to_bytes w n rest h =
      rw (read_exactly w (to_bytes w n) rest (length-to_bytes w n), of-to_bytes w n h)

  read_buffer-take :
      (n : ℕ) (xs rest : List ℕ)
      → length xs ≡ n
      → read_buffer t n (payload n xs ++ rest) ≡ some (xs, rest)
  unfolding read_buffer
  read_buffer-take n xs rest len = elim (Bool-cases (n == 0)) [
    | inl e ↦ rw e (ap (λ u. some (u, rest)) (nil_of_length xs (ground (arith, len, e))))
    | inr e ↦
        let whole : take n xs ≡ xs = rw (← len) (take-length xs) in
        let full : fill n xs ≡ xs = rw (← len) (fill-length xs) in
        rw (e, whole, read_exactly n xs rest len, full)
  ]
    where
      nil_of_length : (ys : List ℕ) → length ys ≡ 0 → [] ≡ ys
      nil_of_length [] h = refl
      nil_of_length (y ∷ ys) h = absurd (omega arith)

  pub send_request-append :
      (fd : ℕ) (r : Request) (s : List ℕ)
      → send_request t (pos fd) r s ≡ (pos 0, s ++ (send_request t (pos fd) r []).1)
  unfolding send_request
  send_request-append fd r s =
      let wire : List (List ℕ) =
        to_bytes 4 r.type ∷ (sized r.path_len r.file_path ++ sized r.body_size r.body) in
      write_all-concat wire s
      ∙ ap (λ u. (pos 0, s ++ u)) (sym (ap (λ p. p.1) (write_all-concat wire [])))

  -- Over a reliable transport a request that fits its buffers is received as it was sent, and the
  -- bytes behind it stay for the next call.
  pub recv-send_request :
      (fd fd' : ℕ) (r : Request) (rest : List ℕ)
      → IsSendable r
      → ((send_request t (pos fd) r []).0 ≡ pos 0)
        × (recv_request t (pos fd') ((send_request t (pos fd) r []).1 ++ rest) ≡ some (r, rest))
  unfolding send_request recv_request
  recv-send_request fd fd' r rest v = rw (write_all-concat wire []) (refl, rw frame received)
    where
      open v use {type_fits, path_sized, path_fits, body_sized, body_fits}

      wire : List (List ℕ)
      wire = to_bytes 4 r.type ∷ (sized r.path_len r.file_path ++ sized r.body_size r.body)

      sent : List ℕ
      sent = fields r.path_len r.file_path r.body_size r.body rest

      frame : concat wire ++ rest ≡ to_bytes 4 r.type ++ sent
      frame =
          append_assoc (to_bytes 4 r.type)
            (concat (sized r.path_len r.file_path ++ sized r.body_size r.body)) rest
          ∙ ap (λ u. to_bytes 4 r.type ++ u)
              (concat-fields r.path_len r.file_path r.body_size r.body rest)

      received : recv_request t (pos fd') (to_bytes 4 r.type ++ sent) ≡ some (r, rest)
      received = rw (
        read-to_bytes 4 r.type sent type_fits,
        read-to_bytes 8 r.path_len _ path_fits,
        read_buffer-take r.path_len r.file_path _ path_sized,
        read-to_bytes 8 r.body_size _ body_fits,
        read_buffer-take r.body_size r.body rest body_sized,
        recv_request,
      )

  -- Over a reliable transport a response that fits its buffers is received as it was sent, and the
  -- bytes behind it stay for the next call.
  pub recv-send_response :
      (fd fd' : ℕ) (r : Response) (rest : List ℕ)
      → IsAnswer r
      → ((send_response t (pos fd) r []).0 ≡ pos 0)
        × (recv_response t (pos fd') ((send_response t (pos fd) r []).1 ++ rest) ≡ some (r, rest))
  unfolding send_response recv_response
  recv-send_response fd fd' r rest v = rw (write_all-concat wire []) (refl, rw frame received)
    where
      open v use {status_fits, phrase_sized, path_sized, path_fits, body_sized, body_fits}

      wire : List (List ℕ)
      wire =
          to_bytes 4 r.status
          ∷ take max_path r.status_phrase
          ∷ (sized r.path_len r.file_path ++ sized r.body_size r.body)

      sent : List ℕ
      sent = fields r.path_len r.file_path r.body_size r.body rest

      frame :
          concat wire ++ rest ≡ to_bytes 4 r.status ++ (payload max_path r.status_phrase ++ sent)
      frame =
          append_assoc (to_bytes 4 r.status)
            (payload max_path r.status_phrase
              ++ concat (sized r.path_len r.file_path ++ sized r.body_size r.body))
            rest
          ∙ ap (λ u. to_bytes 4 r.status ++ u)
              (append_assoc (payload max_path r.status_phrase)
                  (concat (sized r.path_len r.file_path ++ sized r.body_size r.body)) rest
                ∙ ap (λ u. payload max_path r.status_phrase ++ u)
                    (concat-fields r.path_len r.file_path r.body_size r.body rest))

      received :
          recv_response t
            (pos fd')
            (to_bytes 4 r.status ++ (payload max_path r.status_phrase ++ sent))
          ≡ some (r, rest)
      received = rw (
        read-to_bytes 4 r.status _ status_fits,
        read_buffer-take max_path r.status_phrase sent phrase_sized,
        read-to_bytes 8 r.path_len _ path_fits,
        read_buffer-take r.path_len r.file_path _ path_sized,
        read-to_bytes 8 r.body_size _ body_fits,
        read_buffer-take r.body_size r.body rest body_sized,
        recv_response,
      )
