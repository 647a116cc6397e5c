-- ===== src/Packet.antt =====
-- packet.c and packet.h: `struct packet_data` over the bytes of a frame, and `parse_packet`.
-- The pointers of the structure point into `data`: here they are offsets, `none` for NULL.
mod Header
mod Parse
mod Ports
pub mod Checksum
pub mod Buffers
pub mod Reparse
pub mod Frames
pub mod Found
pub mod Allocate
pub mod Arp
pub use Header.*
unfoldable pub use Parse.*
unfoldable pub use Ports.*
