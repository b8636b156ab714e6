-- ===== src/Worker/Read/Freed.antt =====
-- server/worker.c: READ_N_FILES when a file of the queue is missing from the table.
use file_storage_server.Base.{
  ℕ, suc, ◌≡◌, refl, sym, ap, ap₂, subst, ◌∙◌, inl, inr, false, none, some, List, [], ◌∷◌, ◌++◌,
  arith, get_or,
}
use file_storage_server.Outcome.{ok, Outcome-cases}
use file_storage_server.Utilities.{CString}
use file_storage_server.HashMap.{hash_map_get, slot, find_entry}
use file_storage_server.HashMap.Chain.{find_entry-dead}
use file_storage_server.HashMap.Laws.{IsSized, get-eq-find}
use file_storage_server.Protocol.{Request}
use file_storage_server.Protocol.Codes.{internal_error, read_n_files}
use file_storage_server.Storage.{storage_get_file, free_all}
use file_storage_server.Storage.State.{Ptr, File, Server, env, write, load, free}
use file_storage_server.Storage.Evict.{free-fewer}
use file_storage_server.Storage.Table.{lookup, IsServer, lookup-total}
use file_storage_server.Worker.{serve_file}
use file_storage_server.Worker.Common.{body_int}
use file_storage_server.Worker.Read.{rounds, collect, read_n_files_handler}

-- A file is freed while the table has it: the state is not sound any more.
freed-unsound :
    (s t : Server) (name : CString) (p : Ptr)
    → lookup s name ≡ ok (some p)
    → t.files ≡ s.files
    → t.heap ≡ write s.heap p none
    → ¬ IsServer t
freed-unsound s t name p found files heap w =
    let z : IsSized s.files = subst IsSized files w.sized in
    let chain = get_or s.files.buckets (slot (env s.heap) s.files name) [] in
    let (r, e) = lookup-total w name in
    let now : hash_map_get (env (write s.heap p none)) s.files name ≡ ok r =
      ap₂ (λ h m. hash_map_get (env h) m name) (sym heap) (sym files) ∙ e in
    elim (Outcome-cases (find_entry (env s.heap) chain name)) [
      | inr other ↦ absurd (ground (arith, found, get-eq-find (env s.heap) s.files z name))
      | inl (none, o) ↦ absurd (ground (arith, found, get-eq-find (env s.heap) s.files z name))
      | inl (some x, o) ↦
          let value : x.value ≡ p =
            ground (arith, found, get-eq-find (env s.heap) s.files z name) in
          elim (find_entry-dead (env s.heap) (env (write s.heap p none)) (λ a b. refl)
            (free-fewer s.heap p) chain name x o) [
              | inl dead ↦ absurd (
                  ground (arith, now, dead, get-eq-find (env (write s.heap p none)) s.files z name))
              | inr again ↦
                  let known : r ≡ some p = ground (
                    arith,
                    now,
                    again,
                    value,
                    get-eq-find (env (write s.heap p none)) s.files z name,
                  ) in
                  let (f, at, n) = w.named name p (e ∙ ap ok known) in
                  absurd (ground (arith, ap (λ h. h p) heap, at))
            ]
    ]

-- READ_N_FILES for two files at least, where the first file of the queue is in the table and the second is
-- not: the answer is INTERNAL_ERROR, and the first file, which is in the list then, is freed with the list
-- while the table still has it. The state is not sound any more.
pub read_n_files-frees :
    (s : Server) (r : Request) (client_fd n k : ℕ) (p q : Ptr) (queue : List Ptr) (f g : File)
    → s.access ≡ false
    → body_int r ≡ ok n
    → rounds n s.max_size ≡ suc (suc k)
    → s.fifo_queue ≡ p ∷ q ∷ queue
    → s.heap p ≡ some f
    → lookup s f.path ≡ ok (some p)
    → s.heap q ≡ some g
    → lookup s g.path ≡ ok none
    → (s' : Server) × (serve_file read_n_files client_fd r s ≡ ok (tt, s'))
      × (s'.sent
          ≡ s.sent
            ++ record {
              client_fd = client_fd;
              status = internal_error;
              path = [];
              body_size = 0;
              body = [];
            }
              ∷ [])
      × (s'.files ≡ s.files)
      × (s'.heap p ≡ none)
      × ¬ IsServer s'
unfolding serve_file read_n_files_handler collect storage_get_file load free_all free
read_n_files-frees s r client_fd n k p q queue f g unheld body many two at found at' missing =
    let s' : Server = record s {
      storage = record s.storage { access = false };
      heap = write s.heap p none;
      sent =
          s.sent
          ++ record {
            client_fd = client_fd;
            status = internal_error;
            path = [];
            body_size = 0;
            body = [];
          }
            ∷ [];
    } in
    (
      s',
      rw (body, unheld, two, many, at, found, at', missing) (rw (at, free) refl),
      refl,
      refl,
      ground arith,
      freed-unsound s s' f.path p found refl refl,
    )
