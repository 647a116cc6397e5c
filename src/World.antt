-- ===== src/World.antt =====
-- What the functions of hopper.c, nat.c, protocol.c and packet.c act on: the structures of the
-- gateways, the machine around the program, and the effects of a call as state passing.
mod Gates
mod Machine
mod Effects
pub mod Keeps
pub use Gates.*
pub use Machine.*
unfoldable pub use Effects.*
