-- ===== src/SmartTag/Types.antt =====
-- src/app/smart_tag.h: the enumerations and the wire structs. An unsigned field is a number below
-- its modulus, a signed one an integer, and a bit mask is its number.
use nrf54l15_tag.Common.{ℕ, ℤ, Bool}

-- motion_state_t
pub data MotionState : Type 0 where
  stationary moving : MotionState

pub data Orientation : Type 0 where
  unknown x_up x_down y_up y_down z_up z_down : Orientation

pub Orientation-discrete : Discrete Orientation
Orientation-discrete = hlevel

-- The numbers of the two enumerations.
abbrev pub motion_code : MotionState → ℕ
motion_code stationary = 0
motion_code moving = 1

abbrev pub orientation_code : Orientation → ℕ
orientation_code unknown = 0
orientation_code x_up = 1
orientation_code x_down = 2
orientation_code y_up = 3
orientation_code y_down = 4
orientation_code z_up = 5
orientation_code z_down = 6

-- event_type_t
pub data EventType : Type 0 where
  boot motion_start motion_stop shock free_fall orientation_change tamper : EventType
  temp_high temp_low humidity_high battery_low config_changed sensor_fault : EventType
  zigbee_joined zigbee_left ble_connected ota_started ota_finished : EventType
  factory_reset gas_low time_set : EventType

-- event_severity_t
pub data Severity : Type 0 where
  info warning alarm : Severity

-- sensor_data_t
pub record SensorData : Type 0 where
  pub timestamp : ℕ
  pub temperature_c_x100 : ℤ
  pub humidity_x100 : ℕ
  pub pressure_pa : ℤ
  pub battery_mv : ℕ
  pub battery_percent : ℕ
  pub accel_x_mg : ℤ
  pub accel_y_mg : ℤ
  pub accel_z_mg : ℤ
  pub magnitude_mg : ℕ
  pub motion : Bool
  pub free_fall : Bool
  pub shock : Bool
  pub orientation : Orientation
  pub valid : ℕ
  pub gas_resistance_ohm : ℕ
  pub gyro_x_dps_x10 : ℤ
  pub gyro_y_dps_x10 : ℤ
  pub gyro_z_dps_x10 : ℤ

-- tag_status_t
pub record TagStatus : Type 0 where
  pub motion_state : MotionState
  pub orientation : Orientation
  pub operating_mode : ℕ
  pub tamper : ℕ
  pub alarm_flags : ℕ
  pub max_shock_mg : ℕ
  pub shock_count : ℕ
  pub free_fall_count : ℕ
  pub event_count : ℕ
  pub movement_duration_s : ℕ
  pub last_movement_time : ℕ

-- tag_config_t. The mode and the switches are bytes that a client writes, so any byte can stand
-- in them until `app_config_validate` has looked.
pub record TagConfig : Type 0 where
  pub sampling_interval_s : ℕ
  pub motion_timeout_s : ℕ
  pub motion_threshold_mg : ℕ
  pub shock_threshold_mg : ℕ
  pub free_fall_threshold_mg : ℕ
  pub temp_high_c_x100 : ℤ
  pub temp_low_c_x100 : ℤ
  pub humidity_high_x100 : ℕ
  pub battery_low_mv : ℕ
  pub report_temp_delta_c_x100 : ℕ
  pub report_humidity_delta_x100 : ℕ
  pub report_pressure_delta_pa : ℕ
  pub report_max_interval_s : ℕ
  pub ble_service_window_s : ℕ
  pub gas_low_threshold_ohm : ℕ
  pub report_gas_delta_ohm : ℕ
  pub operating_mode : ℕ
  pub led_enabled : ℕ
  pub sensor_history_enabled : ℕ
  pub reserved : ℕ

-- tag_statistics_t
pub record TagStatistics : Type 0 where
  pub boot_count : ℕ
  pub total_uptime_s : ℕ
  pub motion_count : ℕ
  pub shock_count : ℕ
  pub free_fall_count : ℕ
  pub event_count : ℕ
  pub movement_duration_s : ℕ
  pub max_shock_mg : ℕ
  pub min_battery_mv : ℕ
  pub zigbee_reports : ℕ
  pub ble_connections : ℕ
  pub sensor_faults : ℕ
  pub boot_epoch_utc : ℕ

-- sensor_log_record_t
pub record SensorLogRecord : Type 0 where
  pub timestamp : ℕ
  pub temperature : ℤ
  pub humidity : ℕ
  pub pressure : ℤ
  pub gas_resistance_ohm : ℕ
  pub flags : ℕ

-- event_record_t
pub record EventRecord : Type 0 where
  pub timestamp : ℕ
  pub type : EventType
  pub severity : Severity
  pub value : ℤ
