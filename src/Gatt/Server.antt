-- ===== src/Gatt/Server.antt =====
-- gatt_server.c and `gatt_on_attr_table_created` of gatt_attrs.c: the events of Bluedroid's GATT server,
-- with the components that they reach. The texts that the error source and the alerts give to their
-- subscribers are kept in their logs, and the replies of commands in that of the board.
mod Values
pub mod State
pub mod Writes
pub mod Events
pub mod Routing
pub mod Lines
pub mod Spared
pub mod Spares
pub mod Guest
pub mod Sessions
mod Examples
pub use Values.*
