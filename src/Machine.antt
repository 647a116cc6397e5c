-- ===== src/Machine.antt =====
-- The gateway program as a state machine: the steps that its calls are made of, the proof that they
-- are made of no others, and what follows for every state that is reached.
pub mod Steps
pub mod Quiet
pub mod Calls
pub mod Create
pub mod Receive
pub mod Messages
pub mod Exchange
pub mod Trust
pub mod Rounds
pub mod Dispatch
pub mod Program
pub mod Table
pub mod Director
pub mod Invariant
pub mod Start
pub mod Lists
pub mod Configured
