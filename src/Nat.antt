-- ===== src/Nat.antt =====
-- nat.c and nat.h: the NAT table and the rewriting of packets to and from hosts that are not in a
-- known network.
mod Dict
mod Table
mod Entries
mod Rewrite
mod Clean
pub mod Reply
pub mod Expiry
pub mod Kept
pub mod Distinct
pub use Dict.*
pub use Table.*
unfoldable pub use Entries.*
unfoldable pub use Rewrite.*
unfoldable pub use Clean.*
pub mod Fields
