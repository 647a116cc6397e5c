-- ===== src/Utility.antt =====
-- utility.c and utility.h: time arithmetic and masked addresses.
pub mod Time
pub mod Mask
