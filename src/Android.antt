-- ===== src/Android.antt =====
-- The phone's bridge to a terminal, crates/wispshell-core/src/android_jni.rs. The Java machine,
-- its callbacks' objects, iroh and the sleep of the tasks are parameters or left out.
pub mod Frames
pub mod Terminal
pub mod EndToEnd
pub mod Bridge
pub mod Native
pub mod Heartbeat
pub mod Playback
mod Examples
