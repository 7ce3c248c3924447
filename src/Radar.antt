-- ===== src/Radar.antt =====
-- radar.c: the host link of the radar.
pub mod Stream
pub mod Window
pub mod Cli
pub mod Bringup
pub mod Thread
pub mod Types
pub mod Console
pub mod Uart
pub mod Start
