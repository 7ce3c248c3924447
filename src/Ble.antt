-- ===== src/Ble.antt =====
-- ble.c: the GATT service that hands the records out.
pub mod Dump
pub mod Serve
pub mod Notify
pub mod DeviceId
pub mod Link
pub mod Start
