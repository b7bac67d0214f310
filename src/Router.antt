-- ===== src/Router.antt =====
-- The software router of lab1/router.
pub mod Headers
pub mod State
pub mod Interfaces
pub mod Table
pub mod ArpCache
pub mod Send
pub mod Arp
pub mod Handle
pub mod System
pub mod Server
pub mod Samples
mod Tests
