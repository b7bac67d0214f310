-- ===== src/Router/Tests.antt =====
-- The router's theorems on the packets and routers of `Samples`.
mod Forward
mod Local
mod Arp
mod Table
mod System
mod Socket
