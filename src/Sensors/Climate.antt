-- ===== src/Sensors/Climate.antt =====
-- The climate bit of a sample, of src/sensors/sensor_holyiot.c, when the sensor answers the fetch but
-- not the reading.
use nrf54l15_tag.Common.{
  ℕ, ◌≡◌, ℤ, pos, Bool, true, false, not, ◌&&◌, ◌||◌, Bool-cases, inl, inr, refl, ◌∙◌,
  if◌then◌else◌, Option, none, some, u32,
}
use nrf54l15_tag.Common.Mask
use nrf54l15_tag.SmartTag.{SensorData, valid_temp_rh}
use nrf54l15_tag.Sensors.Board.{
  Axes, EnvDevice, AxesDevice, holyiot, apply_accel, put_climate, put_temperature, put_humidity,
  put_pressure, sensor_board_read_environment, use_axes, read_accel, sensor_board_read_motion,
}
use nrf54l15_tag.Sensors.Manager.{
  Adc, zero_sample, read_battery, put_battery, read_environment, sensor_manager_read,
}
use nrf54l15_tag.Sensors.Validity.{put_climate_bit}

-- What the client sees of the climate: the bit and the temperature.
abbrev Shows : ℤ → SensorData → Type 0
Shows t d = (Mask.test valid_temp_rh d.valid ≡ true) × (d.temperature_c_x100 ≡ t)

put_humidity_temperature :
    (h : Option ℕ) (d : SensorData) → (put_humidity h d).temperature_c_x100 ≡ d.temperature_c_x100
unfolding put_humidity
put_humidity_temperature none d = refl
put_humidity_temperature (some h) d = refl

put_climate-Shows :
    (env : EnvDevice) (d : SensorData)
    → env.temperature ≡ none
    → Shows d.temperature_c_x100 (put_climate env d)
unfolding put_climate put_temperature
put_climate-Shows env d h =
    (put_climate_bit 0 env d, rw h (put_humidity_temperature env.humidity d))

put_pressure-Shows :
    (p : Option ℤ) (t : ℤ) (d : SensorData) → Shows t d → Shows t (put_pressure p d)
unfolding put_pressure
put_pressure-Shows none t d h = h
put_pressure-Shows (some p) t d (bit, temperature) =
    (Mask.test-insert 0 1 d.valid ∙ bit, temperature)

put_battery-Shows :
    (b : Option (ℕ × ℕ)) (t : ℤ) (d : SensorData) → Shows t d → Shows t (put_battery b d)
unfolding put_battery
put_battery-Shows none t d h = h
put_battery-Shows (some (mv, percent)) t d (bit, temperature) =
    (Mask.test-insert 0 3 d.valid ∙ bit, temperature)

use_axes-Shows :
    (a : Option Axes) (t : ℤ) (d : SensorData) → Shows t d → Shows t (use_axes a (λ x. x) d).0
unfolding use_axes apply_accel
use_axes-Shows none t d h = h
use_axes-Shows (some a) t d (bit, temperature) = (Mask.test-insert 0 2 d.valid ∙ bit, temperature)

choose-Shows :
    (c : Bool) (t : ℤ) (d e : SensorData) → Shows t d → Shows t e → Shows t (if c then d else e)
choose-Shows true t d e h k = h
choose-Shows false t d e h k = k

read_accel-Shows :
    (dev : AxesDevice) (t : ℤ) (d : SensorData) → Shows t d → Shows t (read_accel dev (λ x. x) d).0
unfolding read_accel
read_accel-Shows dev t d h = elim (Bool-cases (not dev.ready || not dev.fetched)) [
  | inl failed ↦ rw failed h
  | inr works ↦ rw works (use_axes-Shows dev.axes t d h)
]

-- On the Holyiot board, when the climate sensor is ready and its fetch succeeds, but the reading of
-- its temperature fails: the sample's climate bit is set all the same, and its temperature is 0.
pub sensor_manager_read_stale :
    (uptime_s : ℕ) (env baro : EnvDevice) (accel : AxesDevice) (ext_flash : Option Bool) (adc : Adc)
    → env.ready ≡ true
    → env.fetched ≡ true
    → env.temperature ≡ none
    → let d = sensor_manager_read uptime_s (holyiot env baro accel ext_flash) adc in
      (Mask.test valid_temp_rh d.valid ≡ true) × (d.temperature_c_x100 ≡ pos 0)
unfolding sensor_manager_read read_environment sensor_board_read_environment
    sensor_board_read_motion
sensor_manager_read_stale uptime_s env baro accel ext_flash adc ready fetched gone =
    let start = record zero_sample { timestamp = u32 uptime_s } in
    let climate = put_climate env start in
    let climate_ok = put_climate-Shows env start gone in
    rw (ready, fetched)
      (read_accel-Shows accel (pos 0) _ (
        put_battery-Shows (read_battery adc) (pos 0) _ (
          choose-Shows (baro.ready && baro.fetched) (pos 0) (put_pressure baro.pressure climate)
            climate (put_pressure-Shows baro.pressure (pos 0) climate climate_ok) climate_ok)))
