-- ===== src/Worker/Write/Limit.antt =====
-- A write keeps to the size of the storage.
use file_storage_server.Base.{
  ℕ, ◌+◌, ◌%◌, ◌≤◌, ◌≡◌, ◌≢◌, refl, List, [], ◌∷◌, arith, inl, inr, Bool-cases,
}
use file_storage_server.Outcome.{ok, Outcome-cases}
use file_storage_server.Utilities.{size_mod}
use file_storage_server.Protocol.{Request}
use file_storage_server.Protocol.Codes.{Status, success, files_expelled}
use file_storage_server.Storage.{is_over, storage_fifo_replace, storage_update_file}
use file_storage_server.Storage.Replace.{fifo_replace-room}
use file_storage_server.Storage.State.{Ptr, File, Server}
use file_storage_server.Worker.Common.{update}
use file_storage_server.Worker.Lookup.{held, with_file-cases}
use file_storage_server.Worker.Write.{
  has_no_body, send_files, send_all, make_room, write_contents, write_file_handler, refuse_big,
}

-- Sending changes what was sent and nothing else.
pub record KeepsStorage (s s' : Server) : Type 0 where
  pub storage : s'.storage ≡ s.storage
  pub heap : s'.heap ≡ s.heap
  pub next : s'.next ≡ s.next

pub send_files-KeepsStorage :
    (client_fd : ℕ) (status : Status) (files : List File) (s : Server)
    → (s' : Server) × (send_files client_fd status files s ≡ ok (tt, s')) × KeepsStorage s s'
unfolding send_files
send_files-KeepsStorage client_fd status [] s =
    (s, refl, record { storage = refl; heap = refl; next = refl })
send_files-KeepsStorage client_fd status (f ∷ files) s =
    let (s', e, k) = send_files-KeepsStorage client_fd status files _ in
    (s', e, record { storage = k.storage; heap = k.heap; next = k.next })

pub send_all-KeepsStorage :
    (client_fd : ℕ) (status : Status) (files : List File) (s : Server)
    → (s' : Server) × (send_all client_fd status files s ≡ ok (tt, s')) × KeepsStorage s s'
unfolding send_all
send_all-KeepsStorage client_fd status files s =
    let (s', e, k) = send_files-KeepsStorage client_fd status files _ in
    (s', e, record { storage = k.storage; heap = k.heap; next = k.next })

make_room-room :
    (client_fd : ℕ) (r : Request) (s s' : Server) (u : Unit {0})
    → make_room client_fd r s ≡ ok (u, s')
    → ((s'.current_size + r.body_size) % size_mod ≤ s'.max_size) × (s'.max_size ≡ s.max_size)
unfolding make_room
make_room-room client_fd r s s' u h = elim (Bool-cases (is_over r.body_size s)) [
  | inr room ↦ ground (arith, room, h)
  | inl over ↦ elim (Outcome-cases (storage_fifo_replace r.body_size s)) [
    | inr other ↦ absurd (ground (arith, over, h, other))
    | inl ((copies, t), e) ↦
        let (fits, limit, rest) = fifo_replace-room r.body_size s copies t e in
        let (t', sent, keeps) = send_all-KeepsStorage client_fd files_expelled copies t in
        let same : t' ≡ s' = ground (arith, over, h, e, sent) in
        let size : t'.storage ≡ t.storage = keeps.storage in ground (arith, same, size, fits, limit)
  ]
]

write_contents-size :
    (p : Ptr) (r : Request) (s s' : Server) (status : Status)
    → write_contents p r s ≡ ok (status, s')
    → (s'.current_size ≡ (s.current_size + r.body_size) % size_mod) × (s'.max_size ≡ s.max_size)
unfolding write_contents update storage_update_file
write_contents-size p r s s' status h = ground arith

refuse_big-status : (r : Request) (s s' : Server) → refuse_big r s ≢ ok (success, s')
unfolding refuse_big
refuse_big-status r s s' h = ground arith

-- Whenever a write succeeds, the current size is at most the size of the storage, which is the same
-- as before.
pub write-limit :
    (client_fd : ℕ) (r : Request) (s s' : Server)
    → write_file_handler client_fd r s ≡ ok (success, s')
    → (s'.current_size ≤ s'.max_size) × (s'.max_size ≡ s.max_size)
unfolding write_file_handler
write-limit client_fd r s s' h = elim (Bool-cases (has_no_body r)) [
  | inl empty ↦ absurd (ground (arith, empty, h))
  | inr some_body ↦ elim (with_file-cases r _ s success s' (rw some_body at h)) [
    | inl miss ↦ absurd (ground (arith, miss))
    | inr (p, (f, e)) ↦ elim (Outcome-cases (make_room client_fd r (held s))) [
      | inr other ↦ absurd (ground (arith, e, other, refuse_big-status r (held s) s'))
      | inl ((u, t), room) ↦
          let done : write_contents p r t ≡ ok (success, s') =
            ground (arith, e, room, refuse_big-status r (held s) s') in
          let (size, limit) = write_contents-size p r t s' success done in
          let (fits, limit') = make_room-room client_fd r (held s) t u room in
          ground (arith, size, limit, fits, limit')
    ]
  ]
]
