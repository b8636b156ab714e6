-- ===== src/Tests/Calls.antt =====
-- The calls of the client's API, over a stream that keeps every byte.
use file_storage_server.Base.{
  ℕ, ◌≡◌, refl, true, false, none, some, List, [], ◌∷◌, ◌++◌, arith, length,
}
use file_storage_server.Base.Int.{ℤ, pos, negsuc}
use file_storage_server.Outcome.{ok, fault}
use file_storage_server.Utilities.{CString, string_compare}
use file_storage_server.Utilities.Host.{made}
use file_storage_server.Protocol.{send_request, sized}
use file_storage_server.Protocol.Codes
use file_storage_server.Worker.Common.{c_string}
use file_storage_server.Api.State.{
  Client, Host, not_opened, eisconn, write_file_op, drop_name, send, files_of,
}
use file_storage_server.Api.Transfer.{receive_files, receive_expelled}
use file_storage_server.Api.Connection.{
  bare_request, Attempt, connect_loop, open_connection, close_connection, close_files, disconnect,
}
use file_storage_server.Api.Steps.{request_bytes, response_bytes}
use file_storage_server.Api.Expelled.{receive_expelled-without, receive-fault}
use file_storage_server.Api.Reconnect.{open_connection-expired, close-open}
use file_storage_server.Tests.{path_a}
use file_storage_server.Tests.Structures.{pipe, pipe-IsReliable, given, given-IsAnswer}

abbrev pub host : Host (Unit {0})
host = record {
  realpath = λ path. some path;
  read_disk = λ path d. not_opened;
  mkdir = λ path d. (made, d);
  put = λ path bytes d. some d;
  basename = λ path. path;
}

abbrev pub client : Client (Unit {0})
client = record {
  socket_fd = pos 3;
  connected = true;
  socket_path = some path_a;
  opened_files = some (path_a ∷ []);
  errno = none;
  result_buffer = none;
  displayed = [];
  out = [];
  incoming = response_bytes pipe given ++ 7 ∷ [];
  buffer = none;
  disk = tt;
  waits = [];
}

receive_expelled-without_example :
    (c' : Client (Unit {0})) × (receive_expelled pipe host write_file_op 1 none client
      ≡ ok (tt, c'))
    × (c'.opened_files ≡ some [])
    × (c'.incoming ≡ 7 ∷ [])
    × (length c'.displayed ≡ 1)
    × (c'.disk ≡ tt)
unfolding drop_name string_compare c_string
receive_expelled-without_example =
    receive_expelled-without pipe-IsReliable host write_file_op ((path_a, given) ∷ []) (7 ∷ [])
      client 3 (path_a ∷ []) refl refl (7 ∷ [], refl, given-IsAnswer, refl, refl)

receive-fault_example :
    (receive_files pipe host 2 (some path_a) 0 client ≡ fault)
    × (receive_expelled pipe host write_file_op 2 (some path_a) client ≡ fault)
receive-fault_example =
    receive-fault pipe-IsReliable host write_file_op path_a 1 0 client 3 given (7 ∷ []) refl refl
      given-IsAnswer

abbrev missed : ℕ → Attempt
missed time = record { connects = false; sleeps = true; clock = some time }

abbrev closed : Client (Unit {0})
closed = record client {
  socket_fd = negsuc 0;
  connected = false;
  socket_path = none;
  opened_files = none;
}

open_connection-expired_example :
    (c' : Client (Unit {0})) × (open_connection pipe
        (pos 3)
        10
        (missed 11 ∷ [])
        (some path_a)
        (pos 5)
        0
        closed
      ≡ ok (negsuc 0, c'))
    × (c'.result_buffer ≡ none)
    × ((new_fd : ℤ) (later : ℕ) (more : List Attempt) (name : CString) (time deadline' : ℕ)
        → open_connection pipe new_fd later more (some name) (pos time) deadline' c'
          ≡ ok (negsuc 0, record c' { errno = some eisconn }))
unfolding connect_loop
open_connection-expired_example =
    open_connection-expired pipe closed 3 10 (missed 11 ∷ []) path_a 5 0 refl (ground arith) refl

abbrev idle : Client (Unit {0})
idle = record client { opened_files = some [] }

abbrev hung_up : Client (Unit {0})
hung_up = record idle {
  opened_files = none;
  connected = false;
  out = request_bytes pipe (bare_request Codes.close_connection);
}

close-open_example :
    open_connection pipe (pos 4) 0 [] (some path_a) (pos 0) 0 hung_up
    ≡ ok (negsuc 0, record hung_up { errno = some eisconn })
unfolding close_connection disconnect close_files files_of send string_compare send_request sized
close-open_example =
    close-open pipe host path_a idle hung_up 3 (pos 0) refl refl (pos 4) 0 [] path_a 0 0
