-- ===== src/Upio.antt =====
-- libbt/src/upio.c: power, low power mode and the BT_WAKE signal.
pub mod Power
pub mod Signal
pub mod Files
pub mod Timers
pub mod Rfkill
