-- ===== src/Server.antt =====
-- pkg/server: the handlers of the gRPC service, over a store, and what the server does at its start.
pub mod Io
pub mod Os
pub mod Upload
pub mod Rpcs
pub mod Start
pub mod Sample
mod Tests
