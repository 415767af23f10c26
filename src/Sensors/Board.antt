-- ===== src/Sensors/Board.antt =====
-- src/sensors/sensor_board.h and the two boards' backends, src/sensors/sensor_holyiot.c and
-- src/sensors/sensor_nrf54l15tag.c, of which a build has one.
--
-- The devices belong to Zephyr's drivers: a device is whether device_is_ready and sensor_sample_fetch
-- succeed, and what each sensor_channel_get gives, none if it fails. A value stands here as the code's
-- conversion in floating point leaves it, an integer in the unit of the field.
use nrf54l15_tag.Common.{
  ℕ, ◌+◌, ◌*◌, ℤ, pos, ◌-ℤ◌, Bool, true, false, not, ◌&&◌, ◌||◌, ltb, min, u32, nat_abs,
  if◌then◌else◌, Option, none, some, Status, enodev, eio,
}
use nrf54l15_tag.Common.Mask
use nrf54l15_tag.SmartTag.{
  SensorData, one_g_mg, valid_temp_rh, valid_pressure, valid_accel, valid_gas, valid_gyro,
}
use nrf54l15_tag.Sensors.Root.{isqrt32}

-- Three axes.
pub record Axes : Type 0 where
  pub x : ℤ
  pub y : ℤ
  pub z : ℤ

pub record EnvDevice : Type 0 where
  pub ready : Bool
  pub fetched : Bool
  pub temperature : Option ℤ
  pub humidity : Option ℕ
  pub pressure : Option ℤ
  pub gas : Option ℕ

pub record AxesDevice : Type 0 where
  pub ready : Bool
  pub fetched : Bool
  pub axes : Option Axes

-- The devices of sensor_holyiot.c, the external flash if it is built in; those of
-- sensor_nrf54l15tag.c.
pub data Board : Type 0 where
  holyiot : EnvDevice → EnvDevice → AxesDevice → Option Bool → Board
  nrf54l15tag : EnvDevice → AxesDevice → AxesDevice → Board

-- struct sensor_board_init, what its pointers point to.
pub record BoardInit : Type 0 where
  pub expected_valid : ℕ
  pub init_faults : ℕ

-- `mask |= bit`, where none is the bit 0.
abbrev pub insert_bit : Option ℕ → ℕ → ℕ
insert_bit none m = m
insert_bit (some k) m = Mask.insert k m

-- sensor_board_device_ready
unfoldable pub device_ready : Bool → Option ℕ → BoardInit → BoardInit × Bool
device_ready ready valid_bit i =
    if not ready
    then (record i { init_faults = insert_bit valid_bit i.init_faults }, false)
    else (record i { expected_valid = insert_bit valid_bit i.expected_valid }, true)

-- sensor_board_apply_accel
unfoldable pub apply_accel : Axes → SensorData → SensorData
apply_accel a d =
    let sum =
      u32 (nat_abs a.x * nat_abs a.x + nat_abs a.y * nat_abs a.y + nat_abs a.z * nat_abs a.z) in
    record d {
      accel_x_mg = a.x;
      accel_y_mg = a.y;
      accel_z_mg = a.z;
      magnitude_mg = min (isqrt32 sum) 65535;
      valid = Mask.insert valid_accel d.valid;
    }

unfoldable pub flash_ready : Option Bool → BoardInit → BoardInit × Bool
unfolding device_ready
flash_ready none i = (i, true)
flash_ready (some ready) i = device_ready ready none i

abbrev pub ok_or_enodev : Bool → Status
ok_or_enodev true = none
ok_or_enodev false = some enodev

-- A BME688 that is ready gives pressure and gas too.
unfoldable pub widen : Bool → BoardInit → BoardInit
widen ok_env e =
    if ok_env
    then record e {
      expected_valid = Mask.insert valid_gas (Mask.insert valid_pressure e.expected_valid);
    }
    else e

-- sensor_board_init
unfoldable pub sensor_board_init : Board → BoardInit → BoardInit × Status
unfolding device_ready flash_ready widen
sensor_board_init (holyiot env baro accel ext_flash) i =
    let (e, ok_env) = device_ready env.ready (some valid_temp_rh) i in
    let (b, ok_baro) = device_ready baro.ready (some valid_pressure) e in
    let (a, ok_accel) = device_ready accel.ready (some valid_accel) b in
    let (f, ok_flash) = flash_ready ext_flash a in
    (f, ok_or_enodev (ok_env && ok_baro && ok_accel && ok_flash))
sensor_board_init (nrf54l15tag env accel imu) i =
    let (e, ok_env) = device_ready env.ready (some valid_temp_rh) i in
    let (a, ok_accel) = device_ready accel.ready (some valid_accel) (widen ok_env e) in
    let (g, ok_imu) = device_ready imu.ready none a in
    (g, ok_or_enodev (ok_env && ok_accel && ok_imu))

unfoldable pub put_temperature : Option ℤ → SensorData → SensorData
put_temperature none d = d
put_temperature (some t) d = record d { temperature_c_x100 = t }

unfoldable pub put_humidity : Option ℕ → SensorData → SensorData
put_humidity none d = d
put_humidity (some h) d = record d { humidity_x100 = h }

unfoldable pub put_pressure : Option ℤ → SensorData → SensorData
put_pressure none d = d
put_pressure (some p) d = record d { pressure_pa = p; valid = Mask.insert valid_pressure d.valid }

unfoldable pub put_gas : Option ℕ → SensorData → SensorData
put_gas none d = d
put_gas (some r) d = record d { gas_resistance_ohm = r; valid = Mask.insert valid_gas d.valid }

-- The fetch of temperature and humidity.
unfoldable pub put_climate : EnvDevice → SensorData → SensorData
unfolding put_temperature put_humidity
put_climate env d =
    let t = put_humidity env.humidity (put_temperature env.temperature d) in
    record t { valid = Mask.insert valid_temp_rh t.valid }

-- sensor_board_read_environment
unfoldable pub sensor_board_read_environment : Board → SensorData → SensorData
unfolding put_climate put_pressure put_gas
sensor_board_read_environment (holyiot env baro accel ext_flash) d =
    let c = if env.ready && env.fetched then put_climate env d else d in
    if baro.ready && baro.fetched then put_pressure baro.pressure c else c
sensor_board_read_environment (nrf54l15tag env accel imu) d =
    if not env.ready || not env.fetched
    then d
    else put_gas env.gas (put_pressure env.pressure (put_climate env d))

unfoldable pub put_gyro : Option Axes → SensorData → SensorData
put_gyro none d = d
put_gyro (some g) d = record d {
  gyro_x_dps_x10 = g.x;
  gyro_y_dps_x10 = g.y;
  gyro_z_dps_x10 = g.z;
  valid = Mask.insert valid_gyro d.valid;
}

-- IMU_ACTIVE_DEVIATION_MG
abbrev pub imu_active_deviation_mg : ℕ
imu_active_deviation_mg = 150

-- The part of sensor_nrf54l15tag.c's sensor_board_read_motion behind the accelerometer.
unfoldable pub read_imu : AxesDevice → SensorData → SensorData
unfolding put_gyro
read_imu imu d =
    if ltb (nat_abs (pos d.magnitude_mg -ℤ pos one_g_mg)) imu_active_deviation_mg
    then d
    else if imu.ready && imu.fetched
    then put_gyro imu.axes d
    else d

unfoldable pub use_axes : Option Axes → (SensorData → SensorData) → SensorData → SensorData × Status
use_axes none after d = (d, some eio)
use_axes (some a) after d = (after (apply_accel a d), none)

unfoldable pub read_accel :
    AxesDevice → (SensorData → SensorData) → SensorData → SensorData × Status
unfolding use_axes
read_accel accel after d =
    if not accel.ready || not accel.fetched then (d, some eio) else use_axes accel.axes after d

-- sensor_board_read_motion
unfoldable pub sensor_board_read_motion : Board → SensorData → SensorData × Status
unfolding read_accel read_imu
sensor_board_read_motion (holyiot env baro accel ext_flash) d = read_accel accel (λ x. x) d
sensor_board_read_motion (nrf54l15tag env accel imu) d = read_accel accel (read_imu imu) d

-- sensor_board_wake_source: whether it returns a device.
unfoldable pub sensor_board_wake_source : Board → Bool
sensor_board_wake_source (holyiot env baro accel ext_flash) = false
sensor_board_wake_source (nrf54l15tag env accel imu) = true
