-- ===== src/Client.antt =====
-- client/client.c: the client program.
pub mod Options
pub mod Actions
pub mod Directory
pub mod Found
pub mod Execute
