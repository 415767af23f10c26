-- ===== src/Ble.antt =====
-- src/ble/: the log download, advertising and connections, notifications, commands and the
-- configuration.
pub mod Log
pub mod Manager
pub mod Gatt
pub mod Config
