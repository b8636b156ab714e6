-- ===== src/Api.antt =====
-- api/fileserver_api.c: the calls of the client's library.
pub mod State
pub mod Files
pub mod Transfer
pub mod Connection
pub mod Steps
pub mod Answers
pub mod Expelled
pub mod Kept
pub mod Reconnect
