-- ===== src/Sensors.antt =====
-- src/sensors/: what the boards and the sensor manager make of what the devices give.
pub mod Root
pub mod Board
pub mod Manager
pub mod Validity
pub mod Faults
pub mod Climate
