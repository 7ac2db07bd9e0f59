-- ===== src/Server.antt =====
-- src/server: the directory server.
pub mod Checks
pub mod Paths
pub mod Reply
pub mod Accounts
pub mod Groups
pub mod Messages
pub mod Dispatch
pub mod Start
pub mod Args
pub mod Examples
pub mod Requests
pub mod Posts
pub mod Loop
pub mod Main
pub mod Processes
