-- ===== src/Storage/Replace.antt =====
-- `storage_FIFO_replace`: the room that it makes, and which files go.
use file_storage_server.Base.{
  ℕ, ◌+◌, ◌%◌, ◌≤◌, ◌≡◌, refl, ap, ◌∙◌, suc, false, List, [], ◌∷◌, ◌++◌, arith, length, inl, inr,
  Bool-cases,
}
use file_storage_server.Base.Int.{ℤ}
use file_storage_server.Outcome.{ok, Outcome-cases}
use file_storage_server.Utilities.{CString, size_mod}
use file_storage_server.Storage.{
  remove_entry, is_over, expel, replace_loop, storage_fifo_replace, storage_get_file,
}
use file_storage_server.Storage.State.{Ptr, File, Server, load}

-- A removal from the table changes the table and the heap alone.
pub record KeepsLimits (s s' : Server) : Type 0 where
  pub max_size : s'.max_size ≡ s.max_size
  pub max_files : s'.max_files ≡ s.max_files
  pub fifo_queue : s'.fifo_queue ≡ s.fifo_queue
  pub access : s'.access ≡ s.access
  pub sent : s'.sent ≡ s.sent
  pub next : s'.next ≡ s.next

remove_entry-KeepsLimits :
    (name : CString) (s : Server) (c : ℤ) (s' : Server)
    → remove_entry name s ≡ ok (c, s')
    → KeepsLimits s s'
unfolding remove_entry
remove_entry-KeepsLimits name s c s' h = ground arith

expel-KeepsLimits :
    (p : Ptr) (s : Server) (f : File) (s' : Server) → expel p s ≡ ok (f, s') → KeepsLimits s s'
unfolding expel storage_get_file load
expel-KeepsLimits p s f s' h = ground arith

replace_loop-room :
    (queue : List Ptr) (required : ℕ) (s : Server) (copies : List File) (s' : Server)
    → s.fifo_queue ≡ queue
    → replace_loop queue required s ≡ ok (copies, s')
    → (is_over required s' ≡ false)
      × (s'.max_size ≡ s.max_size)
      × ((gone : List Ptr) × (queue ≡ gone ++ s'.fifo_queue) × (length gone ≡ length copies))
unfolding replace_loop
replace_loop-room [] required s copies s' q h = elim (Bool-cases (is_over required s)) [
  | inl over ↦ absurd (ground arith)
  | inr room ↦ (ground arith, ground arith, ([], ground arith, ground arith))
]
replace_loop-room (p ∷ queue) required s copies s' q h = elim (Bool-cases (is_over required s)) [
  | inr room ↦ (ground arith, ground arith, ([], ground arith, ground arith))
  | inl over ↦ elim (Outcome-cases (expel p start)) [
    | inr other ↦ absurd (ground arith)
    | inl ((copy, t), e) ↦ elim (Outcome-cases (replace_loop queue required t)) [
      | inr other ↦ absurd (ground arith)
      | inl ((rest, u), r) ↦
          let same : u ≡ s' = ground arith in
          let all : copy ∷ rest ≡ copies = ground arith in
          let keeps = expel-KeepsLimits p start copy t e in
          let (room, limit, dequeued) =
            replace_loop-room queue required t rest u (keeps.fifo_queue) r in
          let (gone, parts, count) = dequeued in
          rw (← same, ← all)
            (room, limit ∙ keeps.max_size, (p ∷ gone, ap (λ x. p ∷ x) parts, ap suc count))
    ]
  ]
]
  where
    start : Server
    start = record s { storage = record s.storage { fifo_queue = queue } }

-- Whenever `storage_FIFO_replace` returns, the required size fits: the sum of the current size and
-- the required one, as the code computes it, is at most `max_size`, which has not changed; and the
-- files that left the queue are its first ones, as many as the copies.
pub fifo_replace-room :
    (required : ℕ) (s : Server) (copies : List File) (s' : Server)
    → storage_fifo_replace required s ≡ ok (copies, s')
    → ((s'.current_size + required) % size_mod ≤ s'.max_size)
      × (s'.max_size ≡ s.max_size)
      × ((gone : List Ptr) × (s.fifo_queue ≡ gone ++ s'.fifo_queue) × (length gone ≡ length copies))
unfolding storage_fifo_replace
fifo_replace-room required s copies s' h =
    let (room, limit, rest) = replace_loop-room s.fifo_queue required s copies s' refl h in
    (ground (arith, room), limit, rest)
