-- ===== src/Frame.antt =====
-- The wire format between node and app: frame.h and frame.c.
pub mod Crc
pub mod Record
pub mod Command
