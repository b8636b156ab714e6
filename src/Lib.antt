-- ===== src/Lib.antt =====
-- A file storage server in C: clients open, write, append to, read, lock and remove files that the
-- server keeps in memory. The main thread hands the descriptor of a client that has sent something
-- to a worker; the worker receives one request, runs a handler on the shared storage under the mutex
-- `storage->access`, and answers. A lock manager thread hands free files to the clients that wait.
--
-- Parts, and the files here that model them:
--   utils/linked_list.c: LinkedList. A list is its chain of nodes with their addresses, the cached
--     length and the tail pointer. `Chain` says when a list is well formed.
--   utils/hash_map.c: HashMap. Keys are pointers, which `KeyOps.read` follows. `Laws` has the lookups
--     after each operation, `Placed` the maps whose lookups never follow a dangling pointer.
--   utils/utilities.c and utils/utilities.h: Utilities. The hash of a string with its wrap at 2 ^ 64,
--     the comparison of strings, and the flag macros; `Host` has `mkdir_p`, `msleep` and `writen`, with
--     the system calls as parameters; `Numbers` has `is_number` and what it and the client use of
--     `strtol` and `atoi`; `Tokens` what the client uses of `strtok`.
--   utils/protocol.c: Protocol. Requests and responses as bytes over a `Transport`, a parameter that
--     stands for read and write; `IsReliable` is what a stream without loss gives.
--   server/storage.c: Storage. `State` has the storage, the heap of files, and what was sent;
--     `Table.IsServer` says which states are sound. `Touch` and `Evict` are about a file that changes in
--     place and one that leaves, `Sound` and `Drop` about what the operations do to a sound state, and
--     `Destroy` has `storage_destroy`.
--   server/worker.c: Worker, with the handlers in Worker/Open, Worker/Write, Worker/Read and
--     Worker/Locks, and the switch of `worker_thread` in `serve`. Worker/Sound takes the handlers from
--     sound states to sound states, and its `Steps` lets workers and the lock manager take steps.
--   server/lock_manager.c: LockManager. `pass` is one turn of the outer loop of `lock_manager_thread`.
--   server/server.c and server/signal_handler.c: Master. `main_round` is a round of the loop of `main`, and
--     `Startup` has `main` around the loop: what it takes hold of and what it lets go on each way out.
--     `Config` parses the configuration, `Threads` has the signals, the start of the workers and their
--     way from one request to the next, and `Shutdown` their end. `Turns` lets the threads take turns; `Crew`
--     does so with the descriptors of the clients, which `Places` counts and `Moves` follows.
--   server/logger.c: Master/Log.
--   api/fileserver_api.c: Api. `State` has the globals of the client's side, the bytes that were sent
--     and those to come, and the steps that the calls share; `Files`, `Transfer` and `Connection` the
--     calls, and `Answers`, `Expelled` and `Reconnect` what they come to.
--   client/client.c: Client. `Options` parses the options, `Directory` searches for files, `Execute`
--     runs the actions and is `main`.
--   Session has the client's API, the protocol and the server's worker together, for a lock, for a
--     read (`Read`) and for a write (`Write`); Tests has concrete states of each part.
--
-- A call is a function from the state to an `Outcome`: a result with the new state, `fault` for
-- undefined behaviour, or `blocked` for a thread that waits for what does not come. The names are
-- those of the source. The loops of the server's operations are structural on the chain, the bucket
-- or the queue that they walk along; the loop of `storage_FIFO_replace` walks along the queue.
-- `size_t` wraps at 2 ^ 64; the counters of the type `int` are integers without a bound.
--
-- The loop on `strtok` runs on fuel, and the length of the text is enough, since each token takes a
-- byte at least. The loop of `openConnection` and that of `msleep` run over the results of the calls
-- that they make, and are `blocked` where these end before the loop does.
--
-- The loop over the descriptors runs on fuel, and 1024 is enough, since a set holds no more. A read of
-- the pipe while it is empty is `blocked`, and so the other threads do not go on meanwhile.
--
-- The calls of the API run between a request and its response without the server: what the server
-- sends stands in the state as bytes to come. What `getopt`, `realpath`, `readdir`, `fopen` and the other
-- calls of the operating system give is a parameter. The line of `display_request_result` is kept by its
-- parts and taken to fit; the global `socket_path` that the client declares is the one of the API.
--
-- The steps of Worker/Sound exclude one request: a READ_N_FILES that misses a file frees files that the
-- table still has. `main` is given whether each call of the operating system succeeds; of the pointers and
-- descriptors it counts those that `main` itself holds, and the final state of the storage is what the
-- steps of the threads have reached.
--
-- Not modelled: allocation that fails where the code does not test it, a mutex call that fails, a response
-- that cannot be sent, what is printed on the terminal, and the calls of the logger in the operations. A
-- path that is NULL is undefined at once in the server, since each handler prints it. Each handler runs as
-- one step, since it holds the mutex; the second and third part of an open are taken to follow the first
-- at once, and so are the sending of READ_N_FILES and the removal of a file that is too big, which run
-- after the unlock. `storage_dump` and the other calls that print are left out, and so are the destructors
-- of requests, responses and actions, which free what nothing else holds. MAX_FILES is taken to be
-- positive and below 2 ^ 30, where the number of files and that of the buckets fit their `int`. A phrase
-- is taken to have the bytes that `send_response` copies: it copies MAX_PATH bytes from a row of 128, and
-- for the later codes goes on behind the table. A key of the configuration is taken to be given once: the
-- string of an earlier line is lost.
--
-- Of `errno` the model follows the test at the end of `get_files_from_directory`: a parameter says for
-- which paths `realpath` leaves it set although it succeeds. The turns of Master/Shutdown take each client
-- that a worker has taken to be served, and leave out what it is answered.
pub mod Base
pub mod Outcome
pub mod Utilities
pub mod HashMap
pub mod LinkedList
pub mod Protocol
pub mod Storage
pub mod Worker
pub mod LockManager
pub mod Api
pub mod Client
pub mod Master
pub mod Session
mod Tests
