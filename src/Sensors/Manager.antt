-- ===== src/Sensors/Manager.antt =====
-- src/sensors/sensor_manager.c: start-up, and one sample from all the devices.
use nrf54l15_tag.Common.{
  ℕ, ℤ, pos, pos_part, Bool, true, false, not, ◌&&◌, u16, u32, if◌then◌else◌, Option, none, some,
  Status, enodev,
}
use nrf54l15_tag.Common.Mask
use nrf54l15_tag.SmartTag.{SensorData, unknown, valid_battery, battery_percent}
use nrf54l15_tag.Sensors.Board.{
  Board, BoardInit, ok_or_enodev, sensor_board_init, sensor_board_read_environment,
  sensor_board_read_motion,
}

-- The battery's channel of the ADC driver: what its calls return, and the millivolts that the last of
-- them gives.
pub record Adc : Type 0 where
  pub ready : Bool
  pub setup : Status
  pub sequence : Status
  pub read : Status
  pub converted : Status
  pub millivolts : ℤ

-- memset
abbrev pub zero_sample : SensorData
zero_sample = record {
  timestamp = 0;
  temperature_c_x100 = pos 0;
  humidity_x100 = 0;
  pressure_pa = pos 0;
  battery_mv = 0;
  battery_percent = 0;
  accel_x_mg = pos 0;
  accel_y_mg = pos 0;
  accel_z_mg = pos 0;
  magnitude_mg = 0;
  motion = false;
  free_fall = false;
  shock = false;
  orientation = unknown;
  valid = 0;
  gas_resistance_ohm = 0;
  gyro_x_dps_x10 = pos 0;
  gyro_y_dps_x10 = pos 0;
  gyro_z_dps_x10 = pos 0;
}

unfoldable pub adc_failed : BoardInit → BoardInit × Bool
adc_failed i = (record i { init_faults = Mask.insert valid_battery i.init_faults }, false)

unfoldable pub adc_set_up : Status → BoardInit → BoardInit × Bool
unfolding adc_failed
adc_set_up (some err) i = adc_failed i
adc_set_up none i = (record i { expected_valid = Mask.insert valid_battery i.expected_valid }, true)

unfoldable pub adc_init : Adc → BoardInit → BoardInit × Bool
unfolding adc_set_up
adc_init adc i = if not adc.ready then adc_failed i else adc_set_up adc.setup i

abbrev is_ok : Status → Bool
is_ok none = true
is_ok (some err) = false

-- sensor_manager_init: with expected_valid and init_faults.
unfoldable pub sensor_manager_init : Board → Adc → BoardInit × Status
unfolding adc_init sensor_board_init
sensor_manager_init board adc =
    let (b, status) = sensor_board_init board (record { expected_valid = 0; init_faults = 0 }) in
    let (i, ok_adc) = adc_init adc b in (i, ok_or_enodev (is_ok status && ok_adc))

abbrev first_error : Status → Status → Status
first_error none s = s
first_error (some err) s = some err

-- What the ADC calls of sensor_manager_read_battery return, the first error.
unfoldable pub adc_status : Adc → Status
adc_status adc =
    if not adc.ready
    then some enodev
    else first_error adc.sequence (first_error adc.read adc.converted)

unfoldable pub battery_of : ℤ → Status → Option (ℕ × ℕ)
battery_of mv (some err) = none
battery_of mv none = some (u16 (pos_part mv), battery_percent (pos (pos_part mv)))

-- sensor_manager_read_battery: the millivolts and the percentage, if it returns 0. The percentage is
-- that of the int32_t, the millivolts are its low 16 bits.
unfoldable pub read_battery : Adc → Option (ℕ × ℕ)
unfolding battery_of
read_battery adc = battery_of adc.millivolts (adc_status adc)

unfoldable pub put_battery : Option (ℕ × ℕ) → SensorData → SensorData
put_battery none d = d
put_battery (some (mv, percent)) d = record d {
  battery_mv = mv;
  battery_percent = percent;
  valid = Mask.insert valid_battery d.valid;
}

-- sensor_manager_read_environment
unfoldable pub read_environment : Board → Adc → SensorData → SensorData
unfolding put_battery
read_environment board adc d =
    put_battery (read_battery adc) (sensor_board_read_environment board d)

-- sensor_manager_read, at an uptime.
unfoldable pub sensor_manager_read : ℕ → Board → Adc → SensorData
unfolding read_environment
sensor_manager_read uptime_s board adc =
    (sensor_board_read_motion board
      (read_environment board adc (record zero_sample { timestamp = u32 uptime_s }))).0
