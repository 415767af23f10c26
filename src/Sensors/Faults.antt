-- ===== src/Sensors/Faults.antt =====
-- A tag whose devices work reports no sensor fault: start-up and samples of src/sensors/ together with
-- the fault alarm of src/app/app_alarms.c.
use nrf54l15_tag.Common.{
  ℕ, ◌<◌, ◌≡◌, ℤ, Bool, true, false, not, ◌&&◌, ◌||◌, Bool-cases, inl, inr, ◌==◌, refl, sym, ◌∙◌,
  ap, arith, if◌then◌else◌, Option, none, some, Status, u32,
}
use nrf54l15_tag.Common.Mask
use nrf54l15_tag.SmartTag.{SensorData}
use nrf54l15_tag.Alarms.{misses}
use nrf54l15_tag.Sensors.Board.{
  Axes, EnvDevice, AxesDevice, Board, holyiot, nrf54l15tag, BoardInit, device_ready, apply_accel,
  flash_ready, widen, sensor_board_init, put_climate, put_pressure, sensor_board_read_environment,
  put_gyro, read_imu, use_axes, read_accel, sensor_board_read_motion,
}
use nrf54l15_tag.Sensors.Manager.{
  Adc, zero_sample, adc_init, adc_set_up, battery_of, adc_failed, sensor_manager_init, adc_status,
  read_battery, put_battery, read_environment, sensor_manager_read,
}
use nrf54l15_tag.Sensors.Validity.{
  is_some, device_ready_bit, put_pressure_bit, put_gas_bit, put_climate_bit, put_battery_bit,
}

-- A device that is ready delivers every channel.
abbrev pub EnvDelivers : EnvDevice → Type 0
EnvDelivers env =
    env.ready ≡ true
    → (env.fetched ≡ true) × (is_some env.pressure ≡ true) × (is_some env.gas ≡ true)

abbrev pub AxesDelivers : AxesDevice → Type 0
AxesDelivers dev = dev.ready ≡ true → (dev.fetched ≡ true) × (is_some dev.axes ≡ true)

abbrev pub Delivers : Board → Type 0
Delivers (holyiot env baro accel ext_flash) =
    (env.ready ≡ true → env.fetched ≡ true)
    × (baro.ready ≡ true → (baro.fetched ≡ true) × (is_some baro.pressure ≡ true))
    × AxesDelivers accel
Delivers (nrf54l15tag env accel imu) = EnvDelivers env × AxesDelivers accel

-- The ADC's calls fail only if its set-up did.
abbrev pub AdcDelivers : Adc → Type 0
AdcDelivers adc = adc.ready ≡ true → adc.setup ≡ none → adc_status adc ≡ none

abbrev adc_ok : Adc → Bool
adc_ok adc = adc.ready && not (is_some adc.setup)

adc_set_up_bit :
    (k : ℕ) (s : Status) (i : BoardInit)
    → Mask.test k (adc_set_up s i).0.expected_valid
      ≡ ((not (is_some s) && (k == 3)) || Mask.test k i.expected_valid)
unfolding adc_set_up
adc_set_up_bit k none i = Mask.test-insert k 3 i.expected_valid
adc_set_up_bit k (some err) i = refl

adc_init_bit :
    (k : ℕ) (adc : Adc) (i : BoardInit)
    → Mask.test k (adc_init adc i).0.expected_valid
      ≡ ((adc_ok adc && (k == 3)) || Mask.test k i.expected_valid)
unfolding adc_init adc_failed
adc_init_bit k adc i = elim (Bool-cases adc.ready) [
  | inl on ↦ rw on (adc_set_up_bit k adc.setup i)
  | inr off ↦ rw off refl
]

battery_of_some : (mv : ℤ) (s : Status) → s ≡ none → is_some (battery_of mv s) ≡ true
unfolding battery_of
battery_of_some mv none h = refl
battery_of_some mv (some err) h = cc

no_error : (s : Status) → not (is_some s) ≡ true → s ≡ none
no_error none h = refl
no_error (some err) h = cc

read_battery_some :
    (adc : Adc) → AdcDelivers adc → adc_ok adc ≡ true → is_some (read_battery adc) ≡ true
unfolding read_battery
read_battery_some adc h ok =
    let set_up : not (is_some adc.setup) ≡ true = ground arith in
    let ready : adc.ready ≡ true = ground arith in
    battery_of_some adc.millivolts (adc_status adc) (h ready (no_error adc.setup set_up))

climate_bit :
    (k : ℕ) (c : Bool) (env : EnvDevice) (d : SensorData)
    → Mask.test k (if c then put_climate env d else d).valid
      ≡ ((c && (k == 0)) || Mask.test k d.valid)
climate_bit k true env d = put_climate_bit k env d
climate_bit k false env d = refl

pressure_bit :
    (k : ℕ) (c : Bool) (p : Option ℤ) (d : SensorData)
    → Mask.test k (if c then put_pressure p d else d).valid
      ≡ ((c && (is_some p && (k == 1))) || Mask.test k d.valid)
pressure_bit k true p d = put_pressure_bit k p d
pressure_bit k false p d = refl

apply_accel_bit :
    (k : ℕ) (a : Axes) (d : SensorData)
    → Mask.test k (apply_accel a d).valid ≡ ((k == 2) || Mask.test k d.valid)
unfolding apply_accel
apply_accel_bit k a d = Mask.test-insert k 2 d.valid

-- A bit that is set stays set.
put_gyro_keeps :
    (k : ℕ) (g : Option Axes) (d : SensorData)
    → Mask.test k d.valid ≡ true
    → Mask.test k (put_gyro g d).valid ≡ true
unfolding put_gyro
put_gyro_keeps k none d h = h
put_gyro_keeps k (some g) d h = Mask.test-insert k 5 d.valid ∙ ground arith

read_imu_keeps :
    (k : ℕ) (imu : AxesDevice) (d : SensorData)
    → Mask.test k d.valid ≡ true
    → Mask.test k (read_imu imu d).valid ≡ true
unfolding read_imu
read_imu_keeps k imu d h = ground (arith, put_gyro_keeps k imu.axes d h)

-- The bit of the accelerometer is set if it delivers, and the others stay set.
use_axes_bit :
    (k : ℕ) (axes : Option Axes) (after : SensorData → SensorData) (d : SensorData)
    → ((e : SensorData) → Mask.test k e.valid ≡ true → Mask.test k (after e).valid ≡ true)
    → ((is_some axes && (k == 2)) || Mask.test k d.valid) ≡ true
    → Mask.test k (use_axes axes after d).0.valid ≡ true
unfolding use_axes
use_axes_bit k none after d keep h = h
use_axes_bit k (some a) after d keep h = keep (apply_accel a d) (apply_accel_bit k a d ∙ h)

read_accel_bit :
    (k : ℕ) (dev : AxesDevice) (after : SensorData → SensorData) (d : SensorData)
    → ((e : SensorData) → Mask.test k e.valid ≡ true → Mask.test k (after e).valid ≡ true)
    → AxesDelivers dev
    → ((dev.ready && (k == 2)) || Mask.test k d.valid) ≡ true
    → Mask.test k (read_accel dev after d).0.valid ≡ true
unfolding read_accel
read_accel_bit k dev after d keep h set = elim (Bool-cases dev.ready) [
  | inr off ↦ let kept : Mask.test k d.valid ≡ true = ground arith in rw off kept
  | inl on ↦
      let (fetched, some_axes) = h on in
      rw (on, fetched) (use_axes_bit k dev.axes after d keep (ground arith))
]

-- The bits of the environment's devices.
read_environment_holyiot_bit :
    (k : ℕ) (env baro : EnvDevice) (accel : AxesDevice) (f : Option Bool) (d : SensorData)
    → Mask.test k (sensor_board_read_environment (holyiot env baro accel f) d).valid ≡ (
        ((baro.ready && baro.fetched) && (is_some baro.pressure && (k == 1)))
        || (((env.ready && env.fetched) && (k == 0)) || Mask.test k d.valid))
unfolding sensor_board_read_environment
read_environment_holyiot_bit k env baro accel f d =
    pressure_bit k (baro.ready && baro.fetched) baro.pressure
      (if env.ready && env.fetched then put_climate env d else d)
    ∙ ap (λ (b : Bool). ((baro.ready && baro.fetched) && (is_some baro.pressure && (k == 1))) || b)
        (climate_bit k (env.ready && env.fetched) env d)

-- What a device expected at start-up gives in a sample, on the board of sensor_nrf54l15tag.c.
read_environment_nrf_bit :
    (k : ℕ) (env : EnvDevice) (accel imu : AxesDevice) (d : SensorData)
    → EnvDelivers env
    → ((env.ready && ((k == 0) || ((k == 1) || (k == 4)))) || Mask.test k d.valid) ≡ true
    → Mask.test k (sensor_board_read_environment (nrf54l15tag env accel imu) d).valid ≡ true
unfolding sensor_board_read_environment
read_environment_nrf_bit k env accel imu d h set = elim (Bool-cases env.ready) [
  | inr off ↦ let kept : Mask.test k d.valid ≡ true = ground arith in rw off kept
  | inl on ↦
      let (fetched, some_pressure, some_gas) = h on in
      rw (on, fetched)
        (put_gas_bit k env.gas (put_pressure env.pressure (put_climate env d))
          ∙ rw
              (
                put_pressure_bit k env.pressure (put_climate env d),
                put_climate_bit k env d,
                some_pressure,
                some_gas,
              )
              (ground arith))
]

flash_ready_expected :
    (f : Option Bool) (i : BoardInit) → (flash_ready f i).0.expected_valid ≡ i.expected_valid
unfolding flash_ready device_ready
flash_ready_expected none i = refl
flash_ready_expected (some true) i = refl
flash_ready_expected (some false) i = refl

abbrev clean : BoardInit
clean = record { expected_valid = 0; init_faults = 0 }

board_init_holyiot_bit :
    (k : ℕ) (env baro : EnvDevice) (accel : AxesDevice) (f : Option Bool) (i : BoardInit)
    → Mask.test k (sensor_board_init (holyiot env baro accel f) i).0.expected_valid ≡ (
        (accel.ready && (k == 2))
        || ((baro.ready && (k == 1)) || ((env.ready && (k == 0)) || Mask.test k i.expected_valid)))
unfolding sensor_board_init
board_init_holyiot_bit k env baro accel f i =
    let e = (device_ready env.ready (some 0) i).0 in
    let b = (device_ready baro.ready (some 1) e).0 in
    let a = (device_ready accel.ready (some 2) b).0 in
    rw
      (
        flash_ready_expected f a,
        device_ready_bit k 2 accel.ready b,
        device_ready_bit k 1 baro.ready e,
        device_ready_bit k 0 env.ready i,
      )
      refl

wide_bit :
    (k : ℕ) (c : Bool) (e : BoardInit)
    → Mask.test k (widen c e).expected_valid
      ≡ ((c && ((k == 4) || (k == 1))) || Mask.test k e.expected_valid)
unfolding widen
wide_bit k true e =
    Mask.test-insert k 4 (Mask.insert 1 e.expected_valid)
    ∙ rw (Mask.test-insert k 1 e.expected_valid) (ground arith)
wide_bit k false e = refl

device_ready_ok : (r : Bool) (j : ℕ) (i : BoardInit) → (device_ready r (some j) i).1 ≡ r
unfolding device_ready
device_ready_ok true j i = refl
device_ready_ok false j i = refl

device_ready_none :
    (r : Bool) (i : BoardInit) → (device_ready r none i).0.expected_valid ≡ i.expected_valid
unfolding device_ready
device_ready_none true i = refl
device_ready_none false i = refl

board_init_nrf_bit :
    (k : ℕ) (env : EnvDevice) (accel imu : AxesDevice) (i : BoardInit)
    → Mask.test k (sensor_board_init (nrf54l15tag env accel imu) i).0.expected_valid ≡ (
        (accel.ready && (k == 2))
        || ((env.ready && ((k == 4) || (k == 1)))
            || ((env.ready && (k == 0)) || Mask.test k i.expected_valid)))
unfolding sensor_board_init
board_init_nrf_bit k env accel imu i =
    let e = (device_ready env.ready (some 0) i).0 in
    let ok = (device_ready env.ready (some 0) i).1 in
    let a = (device_ready accel.ready (some 2) (widen ok e)).0 in
    rw
      (
        device_ready_none imu.ready a,
        device_ready_bit k 2 accel.ready (widen ok e),
        wide_bit k ok e,
        device_ready_ok env.ready 0 i,
        device_ready_bit k 0 env.ready i,
      )
      refl

device_ready-lt :
    (j : ℕ) (r : Bool) (i : BoardInit)
    → j < 8
    → i.expected_valid < 256
    → (device_ready r (some j) i).0.expected_valid < 256
unfolding device_ready
device_ready-lt j true i h lt = Mask.insert-lt j 8 i.expected_valid h lt
device_ready-lt j false i h lt = lt

widen-lt : (c : Bool) (i : BoardInit) → i.expected_valid < 256 → (widen c i).expected_valid < 256
unfolding widen
widen-lt true i lt =
    Mask.insert-lt 4 8 (Mask.insert 1 i.expected_valid) (omega arith)
      (Mask.insert-lt 1 8 i.expected_valid (omega arith) lt)
widen-lt false i lt = lt

board_init-lt :
    (board : Board) (i : BoardInit)
    → i.expected_valid < 256
    → (sensor_board_init board i).0.expected_valid < 256
unfolding sensor_board_init
board_init-lt (holyiot env baro accel f) i lt =
    let e = (device_ready env.ready (some 0) i).0 in
    let b = (device_ready baro.ready (some 1) e).0 in
    let a = (device_ready accel.ready (some 2) b).0 in
    rw (flash_ready_expected f a) (
      device_ready-lt 2 accel.ready b (omega arith) (
        device_ready-lt 1 baro.ready e (omega arith)
          (device_ready-lt 0 env.ready i (omega arith) lt)))
board_init-lt (nrf54l15tag env accel imu) i lt =
    let e = (device_ready env.ready (some 0) i).0 in
    let ok = (device_ready env.ready (some 0) i).1 in
    let a = (device_ready accel.ready (some 2) (widen ok e)).0 in
    rw (device_ready_none imu.ready a) (
      device_ready-lt 2 accel.ready (widen ok e) (omega arith)
        (widen-lt ok e (device_ready-lt 0 env.ready i (omega arith) lt)))

adc_set_up-lt :
    (s : Status) (i : BoardInit) → i.expected_valid < 256 → (adc_set_up s i).0.expected_valid < 256
unfolding adc_set_up adc_failed
adc_set_up-lt none i lt = Mask.insert-lt 3 8 i.expected_valid (omega arith) lt
adc_set_up-lt (some err) i lt = lt

adc_init-lt :
    (adc : Adc) (i : BoardInit) → i.expected_valid < 256 → (adc_init adc i).0.expected_valid < 256
unfolding adc_init adc_failed
adc_init-lt adc i lt = elim (Bool-cases adc.ready) [
  | inl on ↦ rw on (adc_set_up-lt adc.setup i lt)
  | inr off ↦ rw off lt
]

keep_self : (k : ℕ) (e : SensorData) → Mask.test k e.valid ≡ true → Mask.test k e.valid ≡ true
keep_self k e h = h

sample_holyiot_bit :
    (k : ℕ) (env baro : EnvDevice) (accel : AxesDevice) (f : Option Bool) (adc : Adc)
    (d : SensorData)
    → Delivers (holyiot env baro accel f)
    → AdcDelivers adc
    → Mask.test k (sensor_manager_init (holyiot env baro accel f) adc).0.expected_valid ≡ true
    → Mask.test k
        (sensor_board_read_motion
          (holyiot env baro accel f)
          (read_environment (holyiot env baro accel f) adc d)).0.valid
      ≡ true
unfolding sensor_manager_init sensor_board_read_motion read_environment
sample_holyiot_bit k env baro accel f adc d (env_ok, baro_ok, accel_ok) adc_delivers set =
    let board = holyiot env baro accel f in
    let b = (sensor_board_init board clean).0 in
    let read = sensor_board_read_environment board d in
    let from_board =
      rw (board_init_holyiot_bit k env baro accel f clean, Mask.test-zero k) at
        (adc_init_bit k adc b) in
    let expected = sym from_board ∙ set in
    let battery = put_battery_bit k (read_battery adc) read in
    let environment = read_environment_holyiot_bit k env baro accel f d in
    let some_battery = read_battery_some adc adc_delivers in
    read_accel_bit k accel (λ x. x) (put_battery (read_battery adc) read) (keep_self k) accel_ok
      (rw (battery, environment) (ground (arith, expected)))

sample_nrf_bit :
    (k : ℕ) (env : EnvDevice) (accel imu : AxesDevice) (adc : Adc) (d : SensorData)
    → Delivers (nrf54l15tag env accel imu)
    → AdcDelivers adc
    → Mask.test k (sensor_manager_init (nrf54l15tag env accel imu) adc).0.expected_valid ≡ true
    → Mask.test k
        (sensor_board_read_motion
          (nrf54l15tag env accel imu)
          (read_environment (nrf54l15tag env accel imu) adc d)).0.valid
      ≡ true
unfolding sensor_manager_init sensor_board_read_motion read_environment
sample_nrf_bit k env accel imu adc d (env_ok, accel_ok) adc_delivers set =
    let board = nrf54l15tag env accel imu in
    let b = (sensor_board_init board clean).0 in
    let read = sensor_board_read_environment board d in
    let from_board =
      rw (board_init_nrf_bit k env accel imu clean, Mask.test-zero k) at (adc_init_bit k adc b) in
    let expected = sym from_board ∙ set in
    let environment = read_environment_nrf_bit k env accel imu d env_ok in
    let some_battery = read_battery_some adc adc_delivers in
    read_accel_bit k accel (read_imu imu) (put_battery (read_battery adc) read)
      (read_imu_keeps k imu) accel_ok
      (rw (put_battery_bit k (read_battery adc) read)
        (ground (arith, expected, environment, some_battery)))

sample_bit :
    (k uptime_s : ℕ) (board : Board) (adc : Adc)
    → Delivers board
    → AdcDelivers adc
    → Mask.test k (sensor_manager_init board adc).0.expected_valid ≡ true
    → Mask.test k (sensor_manager_read uptime_s board adc).valid ≡ true
unfolding sensor_manager_read
sample_bit k uptime_s (holyiot env baro accel f) adc =
    sample_holyiot_bit k env baro accel f adc (record zero_sample { timestamp = u32 uptime_s })
sample_bit k uptime_s (nrf54l15tag env accel imu) adc =
    sample_nrf_bit k env accel imu adc (record zero_sample { timestamp = u32 uptime_s })

-- While every device that was ready at start-up delivers its channels, a sample has every bit that
-- start-up expects, so that the alarm policy finds nothing missing in it.
pub misses-sensor_manager_read :
    (uptime_s : ℕ) (board : Board) (adc : Adc)
    → Delivers board
    → AdcDelivers adc
    → misses
        (sensor_manager_read uptime_s board adc).valid
        (sensor_manager_init board adc).0.expected_valid
      ≡ false
unfolding misses sensor_manager_init
misses-sensor_manager_read uptime_s board adc board_ok adc_ok =
    let expected = (sensor_manager_init board adc).0.expected_valid in
    let small : expected < 256 =
      adc_init-lt adc (sensor_board_init board clean).0 (board_init-lt board clean (omega arith)) in
    rw
      (Mask.and_word_of_subset 8 (sensor_manager_read uptime_s board adc).valid expected small
        (λ k set. sample_bit k uptime_s board adc board_ok adc_ok set))
      (ground arith)
