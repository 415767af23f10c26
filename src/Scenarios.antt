-- ===== src/Scenarios.antt =====
-- Concrete samples, configurations and states for the runs of the child modules.
use nrf54l15_tag.Common.{ℕ, ◌≡◌, pos, negsuc, true, false, [], refl}
use nrf54l15_tag.SmartTag.{
  SensorData, TagStatus, TagConfig, TagStatistics, config_defaults, zero_statistics, stationary,
  unknown, z_up,
}
use nrf54l15_tag.Motion.Manager.{MotionManager, motion_manager_init}
use nrf54l15_tag.Led.{LedManager, led_boot}
mod Policies
mod Movement
mod Storing
mod Service
mod Flash
mod Ring
mod Download
mod Windows
mod Logging
mod Devices
mod Phone
mod Network

-- A warm room, the tag flat on its back, every reading valid.
abbrev pub calm : SensorData
calm = record {
  timestamp = 100;
  temperature_c_x100 = pos 2150;
  humidity_x100 = 4500;
  pressure_pa = pos 101325;
  battery_mv = 2900;
  battery_percent = 90;
  accel_x_mg = pos 10;
  accel_y_mg = negsuc 19;
  accel_z_mg = pos 1000;
  magnitude_mg = 1000;
  motion = false;
  free_fall = false;
  shock = false;
  orientation = z_up;
  valid = 31;
  gas_resistance_ohm = 50000;
  gyro_x_dps_x10 = pos 0;
  gyro_y_dps_x10 = pos 0;
  gyro_z_dps_x10 = pos 0;
}

-- A minute later: too hot, a low battery, and a hard knock.
abbrev pub knock : SensorData
knock = record calm {
  timestamp = 160;
  temperature_c_x100 = pos 4100;
  battery_mv = 2300;
  accel_z_mg = pos 6500;
  magnitude_mg = 6500;
}

-- Falling.
abbrev pub drop_sample : SensorData
drop_sample = record calm { timestamp = 161; accel_z_mg = pos 100; magnitude_mg = 100 }

abbrev pub still_status : TagStatus
still_status = record {
  motion_state = stationary;
  orientation = unknown;
  operating_mode = 0;
  tamper = 0;
  alarm_flags = 0;
  max_shock_mg = 0;
  shock_count = 0;
  free_fall_count = 0;
  event_count = 0;
  movement_duration_s = 0;
  last_movement_time = 0;
}

abbrev pub used_statistics : TagStatistics
used_statistics = record zero_statistics { boot_count = 7; shock_count = 3; max_shock_mg = 5200 }

abbrev pub shipping_config : TagConfig
shipping_config = record config_defaults { sampling_interval_s = 300; operating_mode = 2 }

abbrev pub lit_led : LedManager
lit_led = record led_boot { ready = true; active_mask = 32 }
