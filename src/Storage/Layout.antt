-- ===== src/Storage/Layout.antt =====
-- The bytes of the packed structs of src/app/smart_tag.h, as memcpy sees them: little-endian
-- fields at the offsets of the declarations, a signed field in two's complement.
use nrf54l15_tag.Common.{
  ℕ, zero, suc, ◌+◌, ◌-◌, ◌*◌, ◌/◌, ◌%◌, ◌≤◌, ◌<◌, ◌≡◌, ℤ, pos, negsuc, pos_part, neg_part, List,
  [], ◌∷◌, ◌++◌, to_int16, arith,
}
use nrf54l15_tag.SmartTag.{TagConfig, TagStatistics}
pub mod RoundTrip
pub mod Records

abbrev pub le16 : ℕ → List ℕ
le16 n = (n % 256) ∷ (n / 256 % 256) ∷ []

abbrev pub le32 : ℕ → List ℕ
le32 n = (n % 256) ∷ (n / 256 % 256) ∷ (n / 65536 % 256) ∷ (n / 16777216 % 256) ∷ []

-- The pattern of an int16_t.
unfoldable pub pattern16 : ℤ → ℕ
pattern16 (pos n) = n
pattern16 (negsuc n) = 65536 - (n + 1)

abbrev pub byte_at : ℕ → List ℕ → ℕ
byte_at i [] = 0
byte_at zero (b ∷ bs) = b
byte_at (suc i) (b ∷ bs) = byte_at i bs

abbrev pub read16 : ℕ → List ℕ → ℕ
read16 i bs = byte_at i bs + 256 * byte_at (suc i) bs

abbrev pub read32 : ℕ → List ℕ → ℕ
read32 i bs =
    byte_at i bs
    + 256 * byte_at (suc i) bs
    + 65536 * byte_at (suc (suc i)) bs
    + 16777216 * byte_at (suc (suc (suc i))) bs

-- tag_config_t, 40 bytes.
unfoldable pub config_bytes : TagConfig → List ℕ
config_bytes c =
    le16 c.sampling_interval_s
    ++ (le16 c.motion_timeout_s
        ++ (le16 c.motion_threshold_mg
            ++ (le16 c.shock_threshold_mg
                ++ (le16 c.free_fall_threshold_mg
                    ++ (le16 (pattern16 c.temp_high_c_x100)
                        ++ (le16 (pattern16 c.temp_low_c_x100)
                            ++ (le16 c.humidity_high_x100
                                ++ (le16 c.battery_low_mv
                                    ++ (le16 c.report_temp_delta_c_x100
                                        ++ (le16 c.report_humidity_delta_x100
                                            ++ (le16 c.report_pressure_delta_pa
                                                ++ (le16 c.report_max_interval_s
                                                    ++ (le16 c.ble_service_window_s
                                                        ++ (le32 c.gas_low_threshold_ohm
                                                            ++ (le32 c.report_gas_delta_ohm
                                                            ++ c.operating_mode ∷ c.led_enabled
                                                            ∷ c.sensor_history_enabled ∷ c.reserved
                                                            ∷ [])))))))))))))))

unfoldable pub config_of_bytes : List ℕ → TagConfig
config_of_bytes bs = record {
  sampling_interval_s = read16 0 bs;
  motion_timeout_s = read16 2 bs;
  motion_threshold_mg = read16 4 bs;
  shock_threshold_mg = read16 6 bs;
  free_fall_threshold_mg = read16 8 bs;
  temp_high_c_x100 = to_int16 (read16 10 bs);
  temp_low_c_x100 = to_int16 (read16 12 bs);
  humidity_high_x100 = read16 14 bs;
  battery_low_mv = read16 16 bs;
  report_temp_delta_c_x100 = read16 18 bs;
  report_humidity_delta_x100 = read16 20 bs;
  report_pressure_delta_pa = read16 22 bs;
  report_max_interval_s = read16 24 bs;
  ble_service_window_s = read16 26 bs;
  gas_low_threshold_ohm = read32 28 bs;
  report_gas_delta_ohm = read32 32 bs;
  operating_mode = byte_at 36 bs;
  led_enabled = byte_at 37 bs;
  sensor_history_enabled = byte_at 38 bs;
  reserved = byte_at 39 bs;
}

-- tag_statistics_t, 42 bytes.
unfoldable pub statistics_bytes : TagStatistics → List ℕ
statistics_bytes s =
    le32 s.boot_count
    ++ (le32 s.total_uptime_s
        ++ (le32 s.motion_count
            ++ (le32 s.shock_count
                ++ (le32 s.free_fall_count
                    ++ (le32 s.event_count
                        ++ (le32 s.movement_duration_s
                            ++ (le16 s.max_shock_mg
                                ++ (le16 s.min_battery_mv
                                    ++ (le16 s.zigbee_reports
                                        ++ (le16 s.ble_connections
                                            ++ (le16 s.sensor_faults
                                                ++ le32 s.boot_epoch_utc)))))))))))

-- The fields that tag_stats_v0 and tag_statistics_t share stand at the same offsets in both.
unfoldable pub statistics_of_bytes : List ℕ → TagStatistics
statistics_of_bytes bs = record {
  boot_count = read32 0 bs;
  total_uptime_s = read32 4 bs;
  motion_count = read32 8 bs;
  shock_count = read32 12 bs;
  free_fall_count = read32 16 bs;
  event_count = read32 20 bs;
  movement_duration_s = read32 24 bs;
  max_shock_mg = read16 28 bs;
  min_battery_mv = read16 30 bs;
  zigbee_reports = read16 32 bs;
  ble_connections = read16 34 bs;
  sensor_faults = read16 36 bs;
  boot_epoch_utc = read32 38 bs;
}

abbrev pub IsByte : ℕ → Type 0
IsByte n = n < 256

abbrev pub IsWord16 : ℕ → Type 0
IsWord16 n = n < 65536

abbrev pub IsWord32 : ℕ → Type 0
IsWord32 n = n < 4294967296

abbrev pub IsInt16 : ℤ → Type 0
IsInt16 z = (pos_part z < 32768) × (neg_part z ≤ 32768)

-- Every field holds a value of its C type.
pub record IsConfig (c : TagConfig) : Type 0 where
  pub sampling_interval_s : IsWord16 c.sampling_interval_s
  pub motion_timeout_s : IsWord16 c.motion_timeout_s
  pub motion_threshold_mg : IsWord16 c.motion_threshold_mg
  pub shock_threshold_mg : IsWord16 c.shock_threshold_mg
  pub free_fall_threshold_mg : IsWord16 c.free_fall_threshold_mg
  pub temp_high_c_x100 : IsInt16 c.temp_high_c_x100
  pub temp_low_c_x100 : IsInt16 c.temp_low_c_x100
  pub humidity_high_x100 : IsWord16 c.humidity_high_x100
  pub battery_low_mv : IsWord16 c.battery_low_mv
  pub report_temp_delta_c_x100 : IsWord16 c.report_temp_delta_c_x100
  pub report_humidity_delta_x100 : IsWord16 c.report_humidity_delta_x100
  pub report_pressure_delta_pa : IsWord16 c.report_pressure_delta_pa
  pub report_max_interval_s : IsWord16 c.report_max_interval_s
  pub ble_service_window_s : IsWord16 c.ble_service_window_s
  pub gas_low_threshold_ohm : IsWord32 c.gas_low_threshold_ohm
  pub report_gas_delta_ohm : IsWord32 c.report_gas_delta_ohm
  pub operating_mode : IsByte c.operating_mode
  pub led_enabled : IsByte c.led_enabled
  pub sensor_history_enabled : IsByte c.sensor_history_enabled
  pub reserved : IsByte c.reserved

pub record IsStatistics (s : TagStatistics) : Type 0 where
  pub boot_count : IsWord32 s.boot_count
  pub total_uptime_s : IsWord32 s.total_uptime_s
  pub motion_count : IsWord32 s.motion_count
  pub shock_count : IsWord32 s.shock_count
  pub free_fall_count : IsWord32 s.free_fall_count
  pub event_count : IsWord32 s.event_count
  pub movement_duration_s : IsWord32 s.movement_duration_s
  pub max_shock_mg : IsWord16 s.max_shock_mg
  pub min_battery_mv : IsWord16 s.min_battery_mv
  pub zigbee_reports : IsWord16 s.zigbee_reports
  pub ble_connections : IsWord16 s.ble_connections
  pub sensor_faults : IsWord16 s.sensor_faults
  pub boot_epoch_utc : IsWord32 s.boot_epoch_utc
