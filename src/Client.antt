-- ===== src/Client.antt =====
-- crates/wispshell-core/src: what the phone's library does before it has a terminal.
pub mod Link
pub mod Terminal
mod Examples
