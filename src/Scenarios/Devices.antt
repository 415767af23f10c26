-- ===== src/Scenarios/Devices.antt =====
-- Runs of the sensors' start-up and samples.
use nrf54l15_tag.Common.{◌+◌, ◌*◌, ◌≤◌, ◌<◌, ◌≡◌, refl, pos, negsuc, true, false, none, some, arith}
use nrf54l15_tag.Alarms.{misses}
use nrf54l15_tag.Sensors.Board.{
  Axes, EnvDevice, AxesDevice, Board, holyiot, nrf54l15tag, apply_accel,
}
use nrf54l15_tag.Sensors.Manager.{Adc, sensor_manager_init, sensor_manager_read, adc_status}
use nrf54l15_tag.Sensors.Validity.{square_sum, apply_accel_lem}
use nrf54l15_tag.Sensors.Faults.{misses-sensor_manager_read}
use nrf54l15_tag.Sensors.Climate.{sensor_manager_read_stale}
use nrf54l15_tag.Common.Mask
use nrf54l15_tag.Scenarios.{calm}

abbrev tilted : Axes
tilted = record { x = pos 700; y = negsuc 299; z = pos 650 }

abbrev bme688 : EnvDevice
bme688 = record {
  ready = true;
  fetched = true;
  temperature = some (pos 2150);
  humidity = some 4500;
  pressure = some (pos 101325);
  gas = some 50000;
}

abbrev adxl367 : AxesDevice
adxl367 = record { ready = true; fetched = true; axes = some tilted }

-- The gyroscope is absent.
abbrev no_imu : AxesDevice
no_imu = record { ready = false; fetched = false; axes = none }

abbrev battery : Adc
battery = record {
  ready = true;
  setup = none;
  sequence = none;
  read = none;
  converted = none;
  millivolts = pos 2900;
}

abbrev tag_board : Board
tag_board = nrf54l15tag bme688 adxl367 no_imu

apply_accel_lem_example :
    let m = (apply_accel tilted calm).magnitude_mg in
    (m * m ≤ square_sum tilted) × (square_sum tilted < (m + 1) * (m + 1))
apply_accel_lem_example = apply_accel_lem tilted calm (omega arith)

misses-sensor_manager_read_example :
    misses
      (sensor_manager_read 160 tag_board battery).valid
      (sensor_manager_init tag_board battery).0.expected_valid
    ≡ false
unfolding adc_status
misses-sensor_manager_read_example =
    misses-sensor_manager_read 160 tag_board battery
      ((λ e. (refl, refl, refl)), (λ e. (refl, refl))) (λ e f. refl)

-- The SHT40 with a reading that fails.
abbrev mute : EnvDevice
mute = record bme688 { temperature = none; humidity = none; pressure = none; gas = none }

sensor_manager_read_stale_example :
    let d = sensor_manager_read 160 (holyiot mute bme688 adxl367 none) battery in
    (Mask.test 0 d.valid ≡ true) × (d.temperature_c_x100 ≡ pos 0)
sensor_manager_read_stale_example =
    sensor_manager_read_stale 160 mute bme688 adxl367 none battery refl refl refl
