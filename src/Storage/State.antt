-- ===== src/Storage/State.antt =====
-- server/storage.h: the state, and the memory that it lives in.
use file_storage_server.Base.{
  ℕ, suc, Bool, true, false, Option, none, some, List, [], ◌∷◌, ◌++◌, ◌==◌, if◌then◌else◌,
}
use file_storage_server.Base.Int.{ℤ}
use file_storage_server.Outcome.{ok, fault, blocked, Cmd}
use file_storage_server.Utilities.{CString, string_compare, string_hash}
use file_storage_server.HashMap.{HashMap, KeyOps}
use file_storage_server.Protocol.Codes.{Status}

abbrev pub Ptr : Type 0
Ptr = ℕ

pub record File : Type 0 where
  pub path : CString
  pub flags : ℕ
  pub size : ℕ
  pub contents : List ℕ
  pub locked_by : ℤ
  pub waiting_on_lock : List ℕ

-- `access` says whether the mutex is held.
pub record Storage : Type 0 where
  pub max_size : ℕ
  pub current_size : ℕ
  pub max_files : ℤ
  pub no_of_files : ℤ
  pub files : HashMap Ptr Ptr
  pub fifo_queue : List Ptr
  pub access : Bool

-- A response as it is given to `send_response`: the bytes of the path, the length of the body, and
-- the body. Sending is taken to succeed.
pub record Reply : Type 0 where
  pub client_fd : ℕ
  pub status : Status
  pub path : List ℕ
  pub body_size : ℕ
  pub body : List ℕ

-- `next` is the address that the next allocation gives.
pub record Server : Type 0 where
  pub storage : Storage
  pub open storage use *
  pub heap : Ptr → Option File
  pub next : Ptr
  pub sent : List Reply

abbrev pub path_at : (Ptr → Option File) → Ptr → Option CString
path_at heap p = elim (heap p) [ none ↦ none | some f ↦ some f.path ]

abbrev pub env : (Ptr → Option File) → KeyOps Ptr CString
env heap = record { read = path_at heap; hash_function = string_hash; key_cmp = string_compare }

abbrev pub write : (Ptr → Option File) → Ptr → Option File → Ptr → Option File
write heap p c q = if q == p then c else heap q

abbrev pub with_storage : (Storage → Storage) → Cmd Server (Unit {0})
with_storage f s = ok (tt, record s { storage = f s.storage })

unfoldable pub load : Ptr → Cmd Server File
load p s = elim (s.heap p) [ none ↦ fault | some f ↦ ok (f, s) ]

unfoldable pub store : Ptr → File → Cmd Server (Unit {0})
store p f s = elim (s.heap p) [
  | none ↦ fault
  | some old ↦ ok (tt, record s { heap = write s.heap p (some f) })
]

unfoldable pub free : Ptr → Cmd Server (Unit {0})
free p s = elim (s.heap p) [
  | none ↦ fault
  | some old ↦ ok (tt, record s { heap = write s.heap p none })
]

unfoldable pub alloc : File → Cmd Server Ptr
alloc f s = ok (s.next, record s { heap = write s.heap s.next (some f); next = suc s.next })

-- `pthread_mutex_lock(&storage->access)`, by a thread that waits for itself if it holds the mutex,
-- and the unlock.
unfoldable pub lock_access : Cmd Server (Unit {0})
lock_access s =
    if s.access then blocked else ok (tt, record s { storage = record s.storage { access = true } })

unfoldable pub unlock_access : Cmd Server (Unit {0})
unlock_access s = ok (tt, record s { storage = record s.storage { access = false } })

unfoldable pub send : Reply → Cmd Server (Unit {0})
send r s = ok (tt, record s { sent = s.sent ++ r ∷ [] })
