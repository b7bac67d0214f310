-- ===== src/Ctcp.antt =====
-- cTCP of lab3: segments, the connection's state and its handlers.
pub mod Segment
pub mod State
pub mod Window
pub mod Receive
pub mod Timer
pub mod Numbers
pub mod Events
pub mod Output
pub mod LinkedList
pub mod Datagram
pub mod Connect
pub mod Unreliable
pub mod Resets
pub mod MainLoop
pub mod Input
pub mod Samples
mod Tests
mod OutputTests
mod NetTests
mod SendTests
