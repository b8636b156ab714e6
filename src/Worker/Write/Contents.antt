-- ===== src/Worker/Write/Contents.antt =====
-- What a write or an append stores is what a read gives back.
use file_storage_server.Base.{
  ℕ, ◌+◌, ◌%◌, ◌≤◌, ◌≡◌, refl, ◌∙◌, true, false, some, [], ◌∷◌, ◌++◌, arith, ltb,
}
use file_storage_server.Base.Int.{eq_ℕ}
use file_storage_server.Outcome.{ok}
use file_storage_server.Utilities.{CString, size_mod}
use file_storage_server.Utilities.Flags.{o_create, chk_flag, clr_flag}
use file_storage_server.Protocol.{Request}
use file_storage_server.Protocol.Codes.{success}
use file_storage_server.Storage.{is_over, storage_get_file}
use file_storage_server.Storage.State.{Ptr, File, Server}
use file_storage_server.Storage.Table.{lookup, IsServer}
use file_storage_server.Storage.Touch.{touched, lookup-touched, touched-IsServer}
use file_storage_server.Worker.Common.{c_string}
use file_storage_server.Worker.Lookup.{held, held-IsServer, released, with_file-found, update-ok}
use file_storage_server.Worker.Write.{
  has_no_body, make_room, write_contents, write_file_handler, append_to_file_handler,
}
use file_storage_server.Worker.Read.{read_file_handler}

module _ (s : Server) (r : Request) (name : CString) (path : c_string r.file_path ≡ ok name)
    (unheld : s.access ≡ false) (p : Ptr) (f : File) (found : lookup s name ≡ ok (some p))
    (at : s.heap p ≡ some f) where
  pub read-answer : read_file_handler r s ≡ ok ((success, (f.size, f.contents)), released s)
  unfolding read_file_handler storage_get_file
  read-answer = ground (arith, path, unheld, found, at)

module _ {s : Server} (w : IsServer s) (r : Request) (name : CString)
    (path : c_string r.file_path ≡ ok name) (unheld : s.access ≡ false) (p : Ptr) (f : File)
    (found : lookup s name ≡ ok (some p)) (at : s.heap p ≡ some f) (client_fd : ℕ)
    (own : eq_ℕ f.locked_by client_fd ≡ true) (some_body : has_no_body r ≡ false)
    (small : r.body_size ≤ s.max_size) where
  -- The file with the body of the request as its contents.
  filled : File
  filled = record f { flags = clr_flag f.flags o_create; size = r.body_size; contents = r.body }

  after_write : Server
  unfolding filled
  after_write =
      let t = released (touched s p filled) in
      record t {
        storage = record t.storage {
          fifo_queue = s.fifo_queue ++ p ∷ [];
          current_size = (s.current_size + r.body_size) % size_mod;
        };
      }

  write_contents-answer : write_contents p r (held s) ≡ ok (success, after_write)
  unfolding write_contents after_write filled
  write_contents-answer =
      ground (arith, at, update-ok (held-IsServer w) name p f found at filled refl)

  after_write-IsServer : IsServer after_write
  unfolding after_write filled
  after_write-IsServer =
      let w' : IsServer (touched s p filled) = touched-IsServer w name p f found at filled refl in
      record { sized = w'.sized; placed = w'.placed; named = w'.named; fresh = w'.fresh }

  -- In a sound state with the mutex free, a client that holds the lock of a fresh file, and whose
  -- body fits without an eviction, writes with success: a read then gives the body back, the file
  -- is last in the queue and no longer fresh, the current size has grown by that of the body, nothing
  -- is sent, and the state is sound.
  pub write-read :
      chk_flag f.flags o_create ≡ true
      → is_over r.body_size s ≡ false
      → (s' : Server) × (write_file_handler client_fd r s ≡ ok (success, s'))
        × (read_file_handler r s' ≡ ok ((success, (r.body_size, r.body)), s'))
        × (s'.fifo_queue ≡ s.fifo_queue ++ p ∷ [])
        × (s'.current_size ≡ (s.current_size + r.body_size) % size_mod)
        × (s'.heap p
            ≡ some (record f {
              flags = clr_flag f.flags o_create;
              size = r.body_size;
              contents = r.body;
            }))
        × (s'.sent ≡ s.sent)
        × IsServer s'
  unfolding write_file_handler make_room after_write filled
  write-read fresh room =
      let fits : ltb s.max_size r.body_size ≡ false = ground (arith, small) in
      (
        after_write,
        rw (some_body, with_file-found s r name path unheld _ p f found at, own, fits, fresh, room)
            write_contents-answer,
        read-answer after_write r name path refl p filled
            (lookup-touched w name p f found at filled refl name ∙ found) (ground arith),
        refl,
        refl,
        ground arith,
        refl,
        after_write-IsServer,
      )

  -- The file with the body of the request behind its contents.
  extended : File
  extended = record f { size = (f.size + r.body_size) % size_mod; contents = f.contents ++ r.body }

  after_append : Server
  unfolding extended
  after_append =
      let t = released (touched s p extended) in
      record t {
        storage = record t.storage { current_size = (s.current_size + r.body_size) % size_mod };
      }

  -- In a sound state with the mutex free, a client that holds the lock appends a body that is not
  -- empty and at most the size of the storage with success: a read then gives the old contents and
  -- the body behind them, with the sum of the sizes. Neither the size that is left nor the queue is
  -- looked at: the current size grows by that of the body even past the size of the storage.
  pub append-read :
      (s' : Server) × (append_to_file_handler client_fd r s ≡ ok (success, s'))
      × (read_file_handler r s'
          ≡ ok ((success, ((f.size + r.body_size) % size_mod, f.contents ++ r.body)), s'))
      × (s'.fifo_queue ≡ s.fifo_queue)
      × (s'.current_size ≡ (s.current_size + r.body_size) % size_mod)
      × (s'.sent ≡ s.sent)
      × IsServer s'
  unfolding append_to_file_handler after_append extended
  append-read =
      let fits : ltb s.max_size r.body_size ≡ false = ground (arith, small) in
      let w' : IsServer (touched s p extended) =
        touched-IsServer w name p f found at extended refl in
      (
        after_append,
        rw (
          some_body,
          fits,
          with_file-found s r name path unheld _ p f found at,
          own,
          update-ok (held-IsServer w) name p f found at extended refl,
        ),
        read-answer after_append r name path refl p extended
            (lookup-touched w name p f found at extended refl name ∙ found) (ground arith),
        refl,
        refl,
        refl,
        record { sized = w'.sized; placed = w'.placed; named = w'.named; fresh = w'.fresh },
      )
