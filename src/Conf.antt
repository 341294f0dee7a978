-- ===== src/Conf.antt =====
-- libbt/src/conf.c: the run-time configuration file, and the functions of hardware.c and
-- userial_vendor.c that its entries call. `none` is a write past a buffer.
pub mod Lines
pub mod Loading
pub mod Tokens
pub mod Bounds
pub mod Entries
pub mod Overflow
