-- ===== src/User.antt =====
-- src/user: the program of the user.
pub mod Checks
pub mod Session
pub mod Sockets
pub mod Connections
pub mod Accounts
pub mod Groups
pub mod Messages
pub mod Prompt
pub mod Args
pub mod Typed
pub mod Examples
pub mod Lines
pub mod Invariant
