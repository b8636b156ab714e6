-- ===== src/Protocol.antt =====
-- utils/protocol.h and utils/protocol.c: requests and responses on a stream socket. A stream is the
-- list of bytes in flight; `read` and `write` are the system calls, a parameter: `none` is -1, a
-- `read` gives the bytes that it got. An integer travels as its little-endian bytes, 4 for an
-- `enum` and 8 for a `size_t`. A buffer that the code allocates is zeroed, so a short read leaves
-- zeros; allocation is taken to succeed. NULL stands for an empty path or body.
pub mod Codes
pub mod Bytes
pub mod RoundTrip
use file_storage_server.Base.{
  ℕ, zero, suc, ◌+◌, ◌*◌, ◌/◌, ◌%◌, ◌≡◌, Option, none, some, List, [], ◌∷◌, ◌++◌, ◌==◌,
  if◌then◌else◌, length, take,
}
use file_storage_server.Base.Int.{ℤ, pos, negsuc}

pub record Transport : Type 0 where
  pub write : List ℕ → List ℕ → Option (List ℕ)
  pub read : ℕ → List ℕ → Option (List ℕ × List ℕ)

-- Every byte arrives, in order, and a read gets all that it asks for if that much is in flight.
pub record IsReliable (t : Transport) : Type 0 where
  pub write_appends : (s xs : List ℕ) → t.write s xs ≡ some (s ++ xs)
  pub read_exact : (xs rest : List ℕ) → t.read (length xs) (xs ++ rest) ≡ some (xs, rest)

pub record Request : Type 0 where
  pub type : ℕ
  pub path_len : ℕ
  pub file_path : List ℕ
  pub body_size : ℕ
  pub body : List ℕ

pub record Response : Type 0 where
  pub status : ℕ
  pub status_phrase : List ℕ
  pub path_len : ℕ
  pub file_path : List ℕ
  pub body_size : ℕ
  pub body : List ℕ

abbrev pub max_path : ℕ
max_path = 1024

-- The bytes of an integer in memory, least significant first, and back.
unfoldable pub to_bytes : ℕ → ℕ → List ℕ
to_bytes zero n = []
to_bytes (suc k) n = n % 256 ∷ to_bytes k (n / 256)

unfoldable pub of_bytes : List ℕ → ℕ
of_bytes [] = 0
of_bytes (b ∷ bs) = b + 256 * of_bytes bs

-- A zeroed buffer of `n` bytes after a read of some bytes into it.
unfoldable pub fill : ℕ → List ℕ → List ℕ
fill zero xs = []
fill (suc n) [] = 0 ∷ fill n []
fill (suc n) (x ∷ xs) = x ∷ fill n xs

-- Writes in turn, up to the first that fails.
unfoldable pub write_all : Transport → List (List ℕ) → List ℕ → ℤ × List ℕ
write_all t [] s = (pos 0, s)
write_all t (xs ∷ rest) s = elim (t.write s xs) [
  | none ↦ (negsuc 0, s)
  | some s' ↦ write_all t rest s'
]

-- A length and then, if it is not 0, as many bytes of the buffer.
unfoldable pub sized : ℕ → List ℕ → List (List ℕ)
sized n buffer = to_bytes 8 n ∷ (if n == 0 then [] else take n buffer ∷ [])

unfoldable pub send_request : Transport → ℤ → Request → List ℕ → ℤ × List ℕ
unfolding write_all
send_request t (negsuc fd) r s = (negsuc 0, s)
send_request t (pos fd) r s =
    write_all t (to_bytes 4 r.type ∷ (sized r.path_len r.file_path ++ sized r.body_size r.body)) s

-- The phrase is taken to have the `max_path` bytes that are copied.
unfoldable pub send_response : Transport → ℤ → Response → List ℕ → ℤ × List ℕ
unfolding write_all
send_response t (negsuc fd) r s = (negsuc 0, s)
send_response t (pos fd) r s =
    write_all t
      (to_bytes 4 r.status
        ∷ take max_path r.status_phrase
        ∷ (sized r.path_len r.file_path ++ sized r.body_size r.body))
      s

infixl 5 ◌>>=◌
abbrev pub ◌>>=◌ : {A B : Type 0} → Option A → (A → Option B) → Option B
none >>= f = none
some a >>= f = f a

unfoldable pub read_int : Transport → ℕ → List ℕ → Option (ℕ × List ℕ)
unfolding of_bytes
read_int t k s = do (xs, s') ← t.read k s; some (of_bytes xs, s')

unfoldable pub read_buffer : Transport → ℕ → List ℕ → Option (List ℕ × List ℕ)
unfolding fill
read_buffer t n s =
    if n == 0 then some ([], s) else (do (xs, s') ← t.read n s; some (fill n xs, s'))

unfoldable pub recv_request : Transport → ℤ → List ℕ → Option (Request × List ℕ)
recv_request t (negsuc fd) s = none
recv_request t (pos fd) s = do
  (type, s₁) ← read_int t 4 s
  (path_len, s₂) ← read_int t 8 s₁
  (file_path, s₃) ← read_buffer t path_len s₂
  (body_size, s₄) ← read_int t 8 s₃
  (body, s₅) ← read_buffer t body_size s₄
  some (
    record {
      type = type;
      path_len = path_len;
      file_path = file_path;
      body_size = body_size;
      body = body;
    },
    s₅,
  )

unfoldable pub recv_response : Transport → ℤ → List ℕ → Option (Response × List ℕ)
recv_response t (negsuc fd) s = none
recv_response t (pos fd) s = do
  (status, s₁) ← read_int t 4 s
  (phrase, s₂) ← read_buffer t max_path s₁
  (path_len, s₃) ← read_int t 8 s₂
  (file_path, s₄) ← read_buffer t path_len s₃
  (body_size, s₅) ← read_int t 8 s₄
  (body, s₆) ← read_buffer t body_size s₅
  some (
    record {
      status = status;
      status_phrase = phrase;
      path_len = path_len;
      file_path = file_path;
      body_size = body_size;
      body = body;
    },
    s₆,
  )
