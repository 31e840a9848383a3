-- ===== src/Cloud.antt =====
-- components/cloud: the register of devices, pairings, bindings and presence.
pub mod Db
pub mod Store
pub mod App
pub mod Http
pub mod Events
pub mod Devices
pub mod Pairing
pub mod CodePairing
pub mod Bindings
pub mod Rendezvous
pub mod AuthDevice
mod Examples
pub mod Server
