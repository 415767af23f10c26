-- ===== src/Storage/Layout/RoundTrip.antt =====
-- Reading back the bytes of a packed struct of src/app/smart_tag.h gives the struct.
use nrf54l15_tag.Common.{ℕ, ◌+◌, ◌*◌, ◌/◌, ◌%◌, ◌≡◌, ℤ, refl, to_int16, arith, length}
use nrf54l15_tag.SmartTag.{TagConfig, TagStatistics}
use nrf54l15_tag.Storage.Layout.{
  pattern16, config_bytes, config_of_bytes, statistics_bytes, statistics_of_bytes, IsWord16,
  IsWord32, IsInt16, IsConfig, IsStatistics,
}

word16 : (n : ℕ) → IsWord16 n → n % 256 + 256 * (n / 256 % 256) ≡ n
word16 n h = omega arith

word32 :
    (n : ℕ)
    → IsWord32 n
    → n % 256 + 256 * (n / 256 % 256) + 65536 * (n / 65536 % 256) + 16777216 * (n / 16777216 % 256)
      ≡ n
word32 n h = omega arith

int16 : (z : ℤ) → IsInt16 z → to_int16 (pattern16 z % 256 + 256 * (pattern16 z / 256 % 256)) ≡ z
unfolding to_int16 pattern16
int16 z h = ground arith

pub config_of_bytes-config_bytes :
    (c : TagConfig) → IsConfig c → config_of_bytes (config_bytes c) ≡ c
unfolding config_of_bytes config_bytes
config_of_bytes-config_bytes c v = λ i. record {
  sampling_interval_s = word16 c.sampling_interval_s v.sampling_interval_s i;
  motion_timeout_s = word16 c.motion_timeout_s v.motion_timeout_s i;
  motion_threshold_mg = word16 c.motion_threshold_mg v.motion_threshold_mg i;
  shock_threshold_mg = word16 c.shock_threshold_mg v.shock_threshold_mg i;
  free_fall_threshold_mg = word16 c.free_fall_threshold_mg v.free_fall_threshold_mg i;
  temp_high_c_x100 = int16 c.temp_high_c_x100 v.temp_high_c_x100 i;
  temp_low_c_x100 = int16 c.temp_low_c_x100 v.temp_low_c_x100 i;
  humidity_high_x100 = word16 c.humidity_high_x100 v.humidity_high_x100 i;
  battery_low_mv = word16 c.battery_low_mv v.battery_low_mv i;
  report_temp_delta_c_x100 = word16 c.report_temp_delta_c_x100 v.report_temp_delta_c_x100 i;
  report_humidity_delta_x100 = word16 c.report_humidity_delta_x100 v.report_humidity_delta_x100 i;
  report_pressure_delta_pa = word16 c.report_pressure_delta_pa v.report_pressure_delta_pa i;
  report_max_interval_s = word16 c.report_max_interval_s v.report_max_interval_s i;
  ble_service_window_s = word16 c.ble_service_window_s v.ble_service_window_s i;
  gas_low_threshold_ohm = word32 c.gas_low_threshold_ohm v.gas_low_threshold_ohm i;
  report_gas_delta_ohm = word32 c.report_gas_delta_ohm v.report_gas_delta_ohm i;
  operating_mode = c.operating_mode;
  led_enabled = c.led_enabled;
  sensor_history_enabled = c.sensor_history_enabled;
  reserved = c.reserved;
}

pub statistics_of_bytes-statistics_bytes :
    (s : TagStatistics) → IsStatistics s → statistics_of_bytes (statistics_bytes s) ≡ s
unfolding statistics_of_bytes statistics_bytes
statistics_of_bytes-statistics_bytes s v = λ i. record {
  boot_count = word32 s.boot_count v.boot_count i;
  total_uptime_s = word32 s.total_uptime_s v.total_uptime_s i;
  motion_count = word32 s.motion_count v.motion_count i;
  shock_count = word32 s.shock_count v.shock_count i;
  free_fall_count = word32 s.free_fall_count v.free_fall_count i;
  event_count = word32 s.event_count v.event_count i;
  movement_duration_s = word32 s.movement_duration_s v.movement_duration_s i;
  max_shock_mg = word16 s.max_shock_mg v.max_shock_mg i;
  min_battery_mv = word16 s.min_battery_mv v.min_battery_mv i;
  zigbee_reports = word16 s.zigbee_reports v.zigbee_reports i;
  ble_connections = word16 s.ble_connections v.ble_connections i;
  sensor_faults = word16 s.sensor_faults v.sensor_faults i;
  boot_epoch_utc = word32 s.boot_epoch_utc v.boot_epoch_utc i;
}

pub length-config_bytes : (c : TagConfig) → length (config_bytes c) ≡ 40
unfolding config_bytes
length-config_bytes c = refl

pub length-statistics_bytes : (s : TagStatistics) → length (statistics_bytes s) ≡ 42
unfolding statistics_bytes
length-statistics_bytes s = refl
