-- ===== src/Link.antt =====
-- The library at work: the stack that carries its commands, the controller that answers them, and
-- the patch file that it reads.
pub mod Peers
pub mod Steps
pub mod Sending
pub mod Records
pub mod Transfer
pub mod Download
pub mod Naming
pub mod Reports
pub mod Exchange
pub mod Address
pub mod Configuration
pub mod Missing
pub mod Audio
pub mod Codec
pub mod Idle
