-- ===== src/Lib.antt =====
-- The firmware of a battery tag on the nRF54L15: it samples environment and motion sensors, detects
-- impacts, falls, tampering and threshold alarms, keeps logs and statistics, and reports over Zigbee
-- and BLE. This library models its policy code and the state around it.
--
-- The parts, and how they interact. A sample is read by src/sensors/sensor_manager.c from the devices
-- of one of two boards, and reaches app_process_sensor_data (src/app/app_state.c).
-- It goes first through the motion manager (src/motion/motion_manager.c), which asks the shock
-- detector (src/motion/shock_detector.c) and the classifier (src/motion/motion_classifier.c); then,
-- under a lock, its motion events and the alarm policy (src/app/app_alarms.c) change the live status
-- and the statistics and fill a queue of pending events; behind the lock come the history, the
-- raising of each pending event (event log, alarm LED, subscribers), the sample's subscribers and a
-- periodic flush of the statistics. A subscriber, the Zigbee side, decides with
-- src/zigbee/zigbee_reporting.c what to send. A phone opens a window of the power manager
-- (src/power/power_manager.c), in which src/ble/ble_manager.c advertises. Through it, the phone
-- downloads the logs (src/storage/event_log.c and src/storage/sensor_log.c over
-- src/storage/flash_manager.c) by src/ble/ble_log.c, gets samples and events by src/ble/ble_gatt.c,
-- and sends commands and configurations by src/ble/ble_config.c. A configuration goes through
-- src/app/app_config.c, which validates it and hands it to the motion manager, the LED
-- (src/ui/led_manager.c), the sampling thread and the storage (src/storage/config_storage.c over
-- src/storage/config_migrate.c).
--
-- The files, and what they model:
--   Common          numbers, words, bit masks, errno; no code of its own
--   SmartTag        src/app/smart_tag.h: enumerations, structs, defaults, inline helpers
--   Alarms          src/app/app_alarms.c: app_alarms_eval, one function per block of it
--   Motion          src/motion: Classifier, Shock (shock_detector_process), Manager
--                   (motion_manager_process, one function per section of it)
--   Storage.Layout  the packed little-endian bytes of tag_config_t and tag_statistics_t
--   Storage.Migrate src/storage/config_migrate.c
--   Storage.ConfigStorage  src/storage/config_storage.c
--   Storage.FlashLog  src/storage/flash_manager.c: scan, append, read, erase and the log's
--                   information; Window and Ring are the ring as the list of its records
--   Storage.EventLog, Storage.SensorLog  src/storage/event_log.c and src/storage/sensor_log.c, whose
--                   records' bytes are in Storage.Layout.Records
--   Sensors         src/sensors: Root (the integer square root), Board (both backends), Manager
--   Led             src/ui/led_manager.c
--   AppConfig       src/app/app_config.c
--   Zigbee.Reporting  src/zigbee/zigbee_reporting.c
--   Zigbee.Clusters, Zigbee.Manager  src/zigbee/zigbee_clusters.c and src/zigbee/zigbee_manager.c
--   AppState        src/app/app_state.c: Locked is what runs under the lock, Service the functions
--                   that the module offers, Logging the flash logs as the logs of it
--   Ble.Manager     src/ble/ble_manager.c
--   Ble.Log         src/ble/ble_log.c: Transfer and Download are a whole download
--   Ble.Gatt        src/ble/ble_gatt.c: Queue is what a client gets of the events, Table the service
--   Ble.Config      src/ble/ble_config.c: the commands, and the configuration read and written
--   Power           src/power/power_manager.c: the service window, a step for each call or callback
--   Scenarios       concrete runs
-- A model function has the name of its C function. Where one C function is cut into several, their
-- names say which section each is. A file's static variables are one record, which its functions take
-- and return; a pointer that the code tests for NULL is an Option; an error code is an Option of an
-- Errno, none for 0.
--
-- Numbers. An unsigned field is a natural number below its modulus, and each addition, subtraction
-- and product of the code that can leave it is reduced (add32, sub32, mul32, u16, u32). A signed
-- field is an integer; a cast to int16_t is to_int16. A bit mask is its number, tested and changed by
-- bit index.
--
-- Parameters. Zephyr's settings subsystem is not in the repository: it is the record Settings, whose
-- laws are that a blob saved without an error is what the next load delivers, and that a deleted key
-- is gone. The flash driver, as reads, writes and erasures of slots, and the CRC are the record
-- Flash, whose laws are that a write that succeeds on an erased slot is read back, that an erasure
-- that succeeds leaves its slots erased, and that neither touches another slot. The
-- event log and the sensor history that the application state writes to are the record Logs, with no
-- law; AppState.Logging fills it in. The sensors, the ADC, the Bluetooth controller and the answers of
-- bt_gatt_notify are arguments, of which nothing is required but what a theorem says. The kernel's
-- uptime is a field.
--
-- Loops. The loops over lists and slots are structural recursion, those over bits are written out.
-- Fuel is used twice: the erase loop gets a turn for each slot and one for its end, which is enough
-- since each turn but the last erases a slot or more; the runs of the download's work are followed
-- for a run for each record that is asked for and one more, since each sends a record or ends.
--
-- Not modelled: locks and threads (each call runs to its end), the conversion of a sensor's reading in
-- floating point, the Zigbee stack and its firmware update, the order of start-up, the drivers, the
-- watchdog and the hardware validation, which are input and output.
pub mod Ble
pub mod Common
pub mod SmartTag
pub mod Alarms
pub mod Motion
pub mod Storage
pub mod Led
pub mod AppConfig
pub mod Zigbee
pub mod AppState
pub mod Power
pub mod Sensors
mod Scenarios
