-- ===== src/Gatt.antt =====
-- components/ble/gatt: the GATT server and what stands behind its characteristics; the uploads are in Ota.Ble.
pub mod Attributes
pub mod Notify
pub mod Credentials
pub mod Words
pub mod Forwarding
pub mod Commands
pub mod Server
pub mod Provisioning
mod Examples
