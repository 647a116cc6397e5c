-- ===== src/Hopper.antt =====
-- hopper.c and hopper.h: hopping addresses and the list of known gateways.
pub mod Address
pub mod Networks
pub mod Containment
pub mod Window
pub mod Direction
pub mod Create
pub mod Config
pub mod Admin
pub mod Links
