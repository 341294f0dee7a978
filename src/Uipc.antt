-- ===== src/Uipc.antt =====
-- libbt/include/uipc_msg.h: the messages between the full stack and the light stack.
pub mod Layout
pub mod Types
pub mod Management
pub mod Slip
pub mod L2cap
pub mod Avdtp
pub mod Streams
pub mod Codecs
pub mod Routes
pub mod Outputs
pub mod Mixer
pub mod Messages
