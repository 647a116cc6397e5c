-- ===== src/Program.antt =====
-- init.c and the parts of hopper.c, nat.c and director.c that start and end the program.
mod State
mod Hopper
mod Director
mod Main
pub mod Ends
pub use State.*
pub use Hopper.*
pub use Director.*
pub use Main.*
