-- ===== src/Userial.antt =====
-- libbt/src/userial_vendor.c: the serial port to the controller; the constants are those of
-- libbt/include/userial_vendor.h. A definition per function, over the whole state.
pub mod Baud
pub mod Port
pub mod Opening
