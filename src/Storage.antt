-- ===== src/Storage.antt =====
-- src/storage/: settings blobs and the persistence of configuration and statistics.
pub mod Layout
pub mod Migrate
pub mod ConfigStorage
pub mod FlashLog
pub mod EventLog
pub mod SensorLog
