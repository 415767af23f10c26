-- ===== src/Zigbee/Reporting.antt =====
-- src/zigbee/zigbee_reporting.c: which attribute groups a sample pushes to the ZCL layer.
use nrf54l15_tag.Common.{
  ℕ, ◌-◌, ℤ, pos, ◌-ℤ◌, Bool, true, false, not, ◌&&◌, ◌||◌, ltb, leb, ◌==◌, nat_abs, if◌then◌else◌,
  sub32,
}
use nrf54l15_tag.Common.Mask
use nrf54l15_tag.SmartTag.{
  SensorData, TagStatus, TagConfig, MotionState, stationary, moving, Orientation, unknown,
  valid_temp_rh, valid_pressure, valid_battery, valid_gas,
}
use nrf54l15_tag.Motion.Manager.{is_stationary, same_orientation}
pub mod Policy
pub mod Groups
pub mod Quiet
pub mod Heartbeat

abbrev pub battery_delta_percent : ℕ
battery_delta_percent = 1

-- REPORT_*, by their bit.
abbrev pub report_temperature : ℕ
report_temperature = 0

abbrev pub report_humidity : ℕ
report_humidity = 1

abbrev pub report_pressure : ℕ
report_pressure = 2

abbrev pub report_battery : ℕ
report_battery = 3

abbrev pub report_tag_monitor : ℕ
report_tag_monitor = 4

-- struct baseline
pub record Baseline : Type 0 where
  pub valid : Bool
  pub last_report_time : ℕ
  pub temperature : ℤ
  pub humidity : ℕ
  pub pressure : ℤ
  pub battery_percent : ℕ
  pub motion_state : MotionState
  pub orientation : Orientation
  pub tamper : ℕ
  pub alarm_flags : ℕ
  pub shock_count : ℕ
  pub free_fall_count : ℕ
  pub gas_resistance : ℕ

-- zigbee_reporting_init: the zeroed baseline.
abbrev pub zero_baseline : Baseline
zero_baseline = record {
  valid = false;
  last_report_time = 0;
  temperature = pos 0;
  humidity = 0;
  pressure = pos 0;
  battery_percent = 0;
  motion_state = stationary;
  orientation = unknown;
  tamper = 0;
  alarm_flags = 0;
  shock_count = 0;
  free_fall_count = 0;
  gas_resistance = 0;
}

-- zigbee_reporting_force
unfoldable pub zigbee_reporting_force : Baseline → Baseline
zigbee_reporting_force b = record b { valid = false }

-- `if (test) { report |= BIT(k); }`
unfoldable pub add_if : ℕ → Bool → ℕ → ℕ
add_if k test report = if test then Mask.insert k report else report

unfoldable pub same_motion_state : MotionState → MotionState → Bool
same_motion_state stationary stationary = true
same_motion_state moving moving = true
same_motion_state stationary moving = false
same_motion_state moving stationary = false

abbrev pub temperature_moved : SensorData → TagConfig → Baseline → Bool
temperature_moved d c b =
    leb c.report_temp_delta_c_x100 (nat_abs (d.temperature_c_x100 -ℤ b.temperature))

abbrev pub humidity_moved : SensorData → TagConfig → Baseline → Bool
humidity_moved d c b =
    leb c.report_humidity_delta_x100 (nat_abs (pos d.humidity_x100 -ℤ pos b.humidity))

abbrev pub pressure_moved : SensorData → TagConfig → Baseline → Bool
pressure_moved d c b = leb c.report_pressure_delta_pa (nat_abs (d.pressure_pa -ℤ b.pressure))

abbrev pub battery_moved : SensorData → Baseline → Bool
battery_moved d b =
    leb battery_delta_percent (nat_abs (pos d.battery_percent -ℤ pos b.battery_percent))

abbrev pub gas_moved : SensorData → TagConfig → Baseline → Bool
gas_moved d c b = leb c.report_gas_delta_ohm (
    if ltb b.gas_resistance d.gas_resistance_ohm
    then d.gas_resistance_ohm - b.gas_resistance
    else b.gas_resistance - d.gas_resistance_ohm)

unfoldable pub monitor_changed : TagStatus → Baseline → Bool
unfolding same_motion_state
monitor_changed s b =
    not (same_motion_state s.motion_state b.motion_state)
    || not (same_orientation s.orientation b.orientation)
    || not (s.tamper == b.tamper)
    || not (s.alarm_flags == b.alarm_flags)
    || not (s.shock_count == b.shock_count)
    || not (s.free_fall_count == b.free_fall_count)

abbrev pub interval_elapsed : SensorData → TagConfig → Baseline → Bool
interval_elapsed d c b = leb c.report_max_interval_s (sub32 d.timestamp b.last_report_time)

-- `report | REPORT_TEMPERATURE | … | REPORT_TAG_MONITOR`
unfoldable pub add_all : ℕ → ℕ
add_all r = Mask.insert report_tag_monitor (
    Mask.insert report_battery (
      Mask.insert report_pressure (Mask.insert report_humidity (Mask.insert report_temperature r))))

-- The climate, pressure, battery, gas and monitor blocks, before the heartbeat.
unfoldable pub changes : SensorData → TagStatus → TagConfig → Baseline → ℕ
unfolding add_if
changes d s c b =
    let climate = Mask.test valid_temp_rh d.valid in
    add_if report_tag_monitor (monitor_changed s b) (
      add_if report_tag_monitor
        (Mask.test valid_gas d.valid && not (c.report_gas_delta_ohm == 0) && gas_moved d c b)
        (add_if report_battery (Mask.test valid_battery d.valid && battery_moved d b) (
          add_if report_pressure (Mask.test valid_pressure d.valid && pressure_moved d c b) (
            add_if report_humidity (climate && humidity_moved d c b)
              (add_if report_temperature (climate && temperature_moved d c b) 0)))))

-- zigbee_reporting_evaluate
unfoldable pub zigbee_reporting_evaluate : SensorData → TagStatus → TagConfig → Baseline → ℕ
unfolding add_all
zigbee_reporting_evaluate d s c b =
    if not b.valid
    then add_all 0
    else if interval_elapsed d c b
    then add_all (changes d s c b)
    else changes d s c b

unfoldable pub commit_monitor : SensorData → TagStatus → Baseline → Baseline
commit_monitor d s b = record b {
  motion_state = s.motion_state;
  orientation = s.orientation;
  tamper = s.tamper;
  alarm_flags = s.alarm_flags;
  shock_count = s.shock_count;
  free_fall_count = s.free_fall_count;
  gas_resistance = if Mask.test valid_gas d.valid then d.gas_resistance_ohm else b.gas_resistance;
}

unfoldable pub commit_groups : SensorData → TagStatus → ℕ → Baseline → Baseline
unfolding commit_monitor
commit_groups d s r b =
    let t =
      if Mask.test report_temperature r
      then record b { temperature = d.temperature_c_x100 }
      else b in
    let h = if Mask.test report_humidity r then record t { humidity = d.humidity_x100 } else t in
    let p = if Mask.test report_pressure r then record h { pressure = d.pressure_pa } else h in
    let y =
      if Mask.test report_battery r then record p { battery_percent = d.battery_percent } else p in
    if Mask.test report_tag_monitor r then commit_monitor d s y else y

-- zigbee_reporting_commit
unfoldable pub zigbee_reporting_commit : SensorData → TagStatus → ℕ → Baseline → Baseline
unfolding commit_groups
zigbee_reporting_commit d s r b =
    if r == 0
    then b
    else record (commit_groups d s r b) { last_report_time = d.timestamp; valid = true }
