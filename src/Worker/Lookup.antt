-- ===== src/Worker/Lookup.antt =====
-- The two ways through `with_file`, and what `update` does.
use file_storage_server.Base.{
  ◌≡◌, true, false, Option, none, some, arith, ◌⊎◌, inl, inr, Bool-cases, Option-cases,
}
use file_storage_server.Outcome.{ok, Outcome-cases, Cmd}
use file_storage_server.Utilities.{CString}
use file_storage_server.Protocol.{Request}
use file_storage_server.Protocol.Codes.{Status, not_found}
use file_storage_server.Storage.{storage_get_file}
use file_storage_server.Storage.State.{Ptr, File, Server}
use file_storage_server.Storage.Table.{lookup, IsServer}
use file_storage_server.Storage.Touch.{touched, update-touched}
use file_storage_server.Worker.Common.{c_string, with_file, update}

-- The state with the mutex held, and with the mutex free.
abbrev pub held : Server → Server
held s = record s { storage = record s.storage { access = true } }

abbrev pub released : Server → Server
released s = record s { storage = record s.storage { access = false } }

pub held-IsServer : {s : Server} → IsServer s → IsServer (held s)
held-IsServer w = record { sized = w.sized; placed = w.placed; named = w.named; fresh = w.fresh }

pub released-IsServer : {s : Server} → IsServer s → IsServer (released s)
released-IsServer w = record {
  sized = w.sized;
  placed = w.placed;
  named = w.named;
  fresh = w.fresh;
}

module _ (s : Server) (r : Request) (name : CString) (path : c_string r.file_path ≡ ok name)
    (unheld : s.access ≡ false) (body : Ptr → File → Cmd Server Status) where
  pub with_file-missing : lookup s name ≡ ok none → with_file r body s ≡ ok (not_found, released s)
  unfolding with_file storage_get_file
  with_file-missing miss = rw (unheld, path, miss, with_file)

  pub with_file-found :
      (p : Ptr) (f : File)
      → lookup s name ≡ ok (some p)
      → s.heap p ≡ some f
      → with_file r body s ≡ body p f (held s)
  unfolding with_file storage_get_file
  with_file-found p f found at = ground (arith, unheld, path, found, at)

module _ {s : Server} (w : IsServer s) (name : CString) (p : Ptr) (f : File)
    (found : lookup s name ≡ ok (some p)) (at : s.heap p ≡ some f) (f' : File)
    (same : f'.path ≡ f.path) where
  pub update-ok : update p f' s ≡ ok (tt, touched s p f')
  unfolding update
  update-ok = ground (arith, at, update-touched w name p f found at f' same)

get_file-same :
    (name : CString) (s : Server) (o : Option Ptr) (t : Server)
    → storage_get_file name s ≡ ok (o, t)
    → t ≡ s
unfolding storage_get_file
get_file-same name s o t h = ground (arith, h)

-- The other way round: if the handler returns, the file was missing or `body` has run.
pub with_file-cases :
    (r : Request) (body : Ptr → File → Cmd Server Status) (s : Server) (status : Status)
    (s' : Server)
    → with_file r body s ≡ ok (status, s')
    → (status ≡ not_found) ⊎ ((p : Ptr) × ((f : File) × (body p f (held s) ≡ ok (status, s'))))
unfolding with_file
with_file-cases r body s status s' h = elim (Bool-cases s.access) [
  | inl busy ↦ absurd (ground (arith, busy, h))
  | inr free ↦ elim (Outcome-cases (c_string r.file_path)) [
    | inr other ↦ absurd (ground (arith, free, h, other))
    | inl (name, path) ↦ elim (Outcome-cases (storage_get_file name (held s))) [
      | inr other ↦ absurd (ground (arith, free, h, path, other))
      | inl ((none, t), e) ↦ inl (ground (arith, free, h, path, e))
      | inl ((some p, t), e) ↦ elim (Option-cases (s.heap p)) [
        | inl gone ↦
            absurd
              (ground (arith, free, h, path, e, get_file-same name (held s) (some p) t e, gone))
        | inr (f, at) ↦
            let same : t ≡ held s = get_file-same name (held s) (some p) t e in
            inr (p, (f, ground (arith, free, h, path, e, same, at)))
      ]
    ]
  ]
]
