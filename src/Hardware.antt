-- ===== src/Hardware.antt =====
-- libbt/src/hardware.c: what the library says to the controller.
pub mod Hci
pub mod Patch
pub mod Naming
pub mod Setup
pub mod Handler
pub mod Search
pub mod Termination
pub mod Totality
pub mod Kept
pub mod Cases
pub mod Outcome
pub mod Machine
pub mod Transitions
pub mod Progress
pub mod Lpm
pub mod Sco
pub mod Audio
pub mod Sleep
pub mod Rates
pub mod Formats
