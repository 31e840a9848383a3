-- ===== src/Agent.antt =====
-- components/agent: the daemon that runs the shells.
pub mod Scrollback
pub mod Session
pub mod Streams
pub mod Serve
pub mod Pairing
pub mod Commands
pub mod Config
pub mod State
pub mod Handshake
mod Examples
