-- ===== src/Ota.antt =====
-- components/ota: images written to the flash over TCP or BLE.
pub mod Writer
pub mod Crc
pub mod Session
pub mod Socket
pub mod Handler
pub mod Ble
pub mod Fixtures
mod Examples
