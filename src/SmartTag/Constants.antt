-- ===== src/SmartTag/Constants.antt =====
-- src/app/smart_tag.h: the constants. A constant that the header writes as BIT(k) is its k.
use nrf54l15_tag.Common.{ℕ, pos, negsuc}
use nrf54l15_tag.SmartTag.Types.{TagConfig, TagStatistics}

abbrev pub one_g_mg : ℕ
one_g_mg = 1000

abbrev pub battery_full_mv : ℕ
battery_full_mv = 3000

abbrev pub battery_empty_mv : ℕ
battery_empty_mv = 2000

abbrev pub battery_hysteresis_mv : ℕ
battery_hysteresis_mv = 100

abbrev pub mode_environment : ℕ
mode_environment = 0

abbrev pub mode_asset : ℕ
mode_asset = 1

abbrev pub mode_shipping : ℕ
mode_shipping = 2

abbrev pub alarm_temp_high : ℕ
alarm_temp_high = 0

abbrev pub alarm_temp_low : ℕ
alarm_temp_low = 1

abbrev pub alarm_humidity_high : ℕ
alarm_humidity_high = 2

abbrev pub alarm_shock : ℕ
alarm_shock = 3

abbrev pub alarm_free_fall : ℕ
alarm_free_fall = 4

abbrev pub alarm_tamper : ℕ
alarm_tamper = 5

abbrev pub alarm_sensor_fault : ℕ
alarm_sensor_fault = 6

abbrev pub alarm_battery_low : ℕ
alarm_battery_low = 7

abbrev pub alarm_gas_low : ℕ
alarm_gas_low = 8

abbrev pub valid_temp_rh : ℕ
valid_temp_rh = 0

abbrev pub valid_pressure : ℕ
valid_pressure = 1

abbrev pub valid_accel : ℕ
valid_accel = 2

abbrev pub valid_battery : ℕ
valid_battery = 3

abbrev pub valid_gas : ℕ
valid_gas = 4

abbrev pub valid_gyro : ℕ
valid_gyro = 5

abbrev pub flag_moving : ℕ
flag_moving = 6

abbrev pub flag_alarm : ℕ
flag_alarm = 7

abbrev pub gas_alarm_percent : ℕ
gas_alarm_percent = 70

-- TAG_CONFIG_DEFAULTS
abbrev pub config_defaults : TagConfig
config_defaults = record {
  sampling_interval_s = 60;
  motion_timeout_s = 30;
  motion_threshold_mg = 150;
  shock_threshold_mg = 4000;
  free_fall_threshold_mg = 300;
  temp_high_c_x100 = pos 4000;
  temp_low_c_x100 = negsuc 999;
  humidity_high_x100 = 8000;
  battery_low_mv = 2400;
  report_temp_delta_c_x100 = 50;
  report_humidity_delta_x100 = 300;
  report_pressure_delta_pa = 100;
  report_max_interval_s = 1800;
  ble_service_window_s = 120;
  gas_low_threshold_ohm = 0;
  report_gas_delta_ohm = 5000;
  operating_mode = mode_environment;
  led_enabled = 1;
  sensor_history_enabled = 1;
  reserved = 0;
}

-- A zeroed tag_statistics_t, as static storage and memset leave it.
abbrev pub zero_statistics : TagStatistics
zero_statistics = record {
  boot_count = 0;
  total_uptime_s = 0;
  motion_count = 0;
  shock_count = 0;
  free_fall_count = 0;
  event_count = 0;
  movement_duration_s = 0;
  max_shock_mg = 0;
  min_battery_mv = 0;
  zigbee_reports = 0;
  ble_connections = 0;
  sensor_faults = 0;
  boot_epoch_utc = 0;
}
