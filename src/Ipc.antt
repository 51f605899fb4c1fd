-- ===== src/Ipc.antt =====
-- crates/scg-ipc: what the gateway and its local clients share.
pub mod Frame
pub mod Token
pub mod Handshake
pub mod ShmError
pub mod Ring
pub mod SlotRing
mod Tests
mod RingTests
mod SlotTests
