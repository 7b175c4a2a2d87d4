-- ===== src/Receive.antt =====
-- The receive engine, cec_receive.c: its variables and the calls of the hardware driver, in the
-- build with a transmit side (CEC_MONITOR is 0).
pub mod State
pub mod Engine
pub mod Decode
pub mod Byte
pub mod Frame
pub mod Echo
pub mod Pending
pub mod Ack
pub mod AtRest
pub mod Bounds
pub mod Message
pub mod Overrun
