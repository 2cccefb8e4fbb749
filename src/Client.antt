-- ===== src/Client.antt =====
-- client/cmd: the commands of the client.
pub mod Upload
pub mod Bench
pub mod List
mod Tests
