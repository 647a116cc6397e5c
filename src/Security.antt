-- ===== src/Security.antt =====
-- protocol.c and director.c: what the checks of a packet keep out.
pub mod Replay
pub mod Authentic
pub mod Signed
pub mod Silent
pub mod Mutex
pub mod Tunnel
pub mod Hops
pub mod Inbound
