-- ===== src/Protocol.antt =====
-- protocol.c and protocol.h: the messages between gateways.
pub mod Message
pub mod Cipher
pub mod Stream
pub mod RoundTrip
pub mod Create
pub mod Receive
pub mod Ping
pub mod Connect
pub mod Trust
pub mod Wrapped
pub mod Flow
pub mod Front
pub mod Fields
pub mod Headers
pub mod Sealed
pub mod Seals
pub mod Wraps
pub mod Unwraps
pub mod Arrives
pub mod Forwards
pub mod Taken
pub mod Departs
pub mod Delivery
