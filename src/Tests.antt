-- ===== src/Tests.antt =====
-- Runs on small inputs, and a use of each theorem at one.
pub mod Setting
mod Basics
mod Runs
mod Reach
mod Table
mod Sending
mod Fields
mod Config
mod Starting
mod Delivery
mod Arp
mod Loop
mod Program
mod Links
