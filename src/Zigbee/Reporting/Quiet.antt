-- ===== src/Zigbee/Reporting/Quiet.antt =====
-- What was reported is not reported again: src/zigbee/zigbee_reporting.c after a commit.
use nrf54l15_tag.Common.{
  ℕ, ◌<◌, ◌≡◌, true, false, not, ◌&&◌, ◌==◌, Bool-cases, inl, inr, refl, ◌∙◌, arith, if◌then◌else◌,
  sub_self, sub32_self, pos, ==_iff,
}
use nrf54l15_tag.Common.Mask
use nrf54l15_tag.SmartTag.{
  SensorData, TagStatus, TagConfig, MotionState, valid_temp_rh, valid_pressure, valid_battery,
  valid_gas,
}
use nrf54l15_tag.Motion.Manager.Transitions.{same_orientation_self}
use nrf54l15_tag.Zigbee.Reporting.{
  Baseline, same_motion_state, temperature_moved, humidity_moved, pressure_moved, battery_moved,
  gas_moved, monitor_changed, changes, zigbee_reporting_evaluate, commit_monitor, commit_groups,
  zigbee_reporting_commit,
}
use nrf54l15_tag.Zigbee.Reporting.Policy.{evaluate-groups}

-- No test passes, no bit is set.
changes-zero :
    (d : SensorData) (s : TagStatus) (c : TagConfig) (b : Baseline)
    → (Mask.test valid_temp_rh d.valid && temperature_moved d c b) ≡ false
    → (Mask.test valid_temp_rh d.valid && humidity_moved d c b) ≡ false
    → (Mask.test valid_pressure d.valid && pressure_moved d c b) ≡ false
    → (Mask.test valid_battery d.valid && battery_moved d b) ≡ false
    → (Mask.test valid_gas d.valid && not (c.report_gas_delta_ohm == 0) && gas_moved d c b) ≡ false
    → monitor_changed s b ≡ false
    → changes d s c b ≡ 0
unfolding changes
changes-zero d s c b t h p y g m = rw (t, h, p, y, g, m)

same_state : (m : MotionState) → same_motion_state m m ≡ true
unfolding same_motion_state
same_state m = ground arith

==_refl : (n : ℕ) → (n == n) ≡ true
==_refl n = ground arith

monitor_same :
    (d : SensorData) (s : TagStatus) (b : Baseline)
    → monitor_changed s (commit_monitor d s b) ≡ false
unfolding monitor_changed commit_monitor
monitor_same d s b = ground (
  arith,
  same_orientation_self s.orientation,
  same_state s.motion_state,
  ==_refl s.tamper,
  ==_refl s.alarm_flags,
  ==_refl s.shock_count,
  ==_refl s.free_fall_count,
)

-- The fields of a baseline after a commit.
module _ (d : SensorData) (s : TagStatus) (r : ℕ) (b : Baseline) where
  commit_temperature :
      (commit_groups d s r b).temperature
      ≡ (if Mask.test 0 r then d.temperature_c_x100 else b.temperature)
  unfolding commit_groups
  commit_temperature = ground arith

  commit_humidity :
      (commit_groups d s r b).humidity ≡ (if Mask.test 1 r then d.humidity_x100 else b.humidity)
  unfolding commit_groups
  commit_humidity = ground arith

  commit_pressure :
      (commit_groups d s r b).pressure ≡ (if Mask.test 2 r then d.pressure_pa else b.pressure)
  unfolding commit_groups
  commit_pressure = ground arith

  commit_battery :
      (commit_groups d s r b).battery_percent
      ≡ (if Mask.test 3 r then d.battery_percent else b.battery_percent)
  unfolding commit_groups
  commit_battery = ground arith

  commit_gas : (commit_groups d s r b).gas_resistance ≡ (
      if Mask.test 4 r && Mask.test valid_gas d.valid
      then d.gas_resistance_ohm
      else b.gas_resistance)
  unfolding commit_groups
  commit_gas = ground arith

  commit_changed :
      monitor_changed s (commit_groups d s r b)
      ≡ (if Mask.test 4 r then false else monitor_changed s b)
  unfolding commit_groups monitor_changed commit_monitor
  commit_changed = ground (
    arith,
    same_orientation_self s.orientation,
    same_state s.motion_state,
    ==_refl s.tamper,
    ==_refl s.alarm_flags,
    ==_refl s.shock_count,
    ==_refl s.free_fall_count,
  )

module _ (d : SensorData) (s : TagStatus) (c : TagConfig) (b : Baseline) where
  still-temperature :
      0 < c.report_temp_delta_c_x100
      → let r = zigbee_reporting_evaluate d s c b in
        (Mask.test valid_temp_rh d.valid && temperature_moved d c (commit_groups d s r b)) ≡ false
  still-temperature h =
      let r = zigbee_reporting_evaluate d s c b in
      ground (
        arith,
        commit_temperature d s r b,
        (evaluate-groups d s c b).0,
        sub_self d.temperature_c_x100,
      )

  still-humidity :
      0 < c.report_humidity_delta_x100
      → let r = zigbee_reporting_evaluate d s c b in
        (Mask.test valid_temp_rh d.valid && humidity_moved d c (commit_groups d s r b)) ≡ false
  still-humidity h =
      let r = zigbee_reporting_evaluate d s c b in
      ground (
        arith,
        commit_humidity d s r b,
        (evaluate-groups d s c b).1,
        sub_self (pos d.humidity_x100),
      )

  still-pressure :
      0 < c.report_pressure_delta_pa
      → let r = zigbee_reporting_evaluate d s c b in
        (Mask.test valid_pressure d.valid && pressure_moved d c (commit_groups d s r b)) ≡ false
  still-pressure h =
      let r = zigbee_reporting_evaluate d s c b in
      ground (arith, commit_pressure d s r b, (evaluate-groups d s c b).2, sub_self d.pressure_pa)

  still-battery :
      let r = zigbee_reporting_evaluate d s c b in
      (Mask.test valid_battery d.valid && battery_moved d (commit_groups d s r b)) ≡ false
  still-battery =
      let r = zigbee_reporting_evaluate d s c b in
      ground (
        arith,
        commit_battery d s r b,
        (evaluate-groups d s c b).3,
        sub_self (pos d.battery_percent),
      )

  still-gas :
      let r = zigbee_reporting_evaluate d s c b in
      (Mask.test valid_gas d.valid
        && not (c.report_gas_delta_ohm == 0)
        && gas_moved d c (commit_groups d s r b))
      ≡ false
  still-gas =
      let r = zigbee_reporting_evaluate d s c b in
      ground (arith, commit_gas d s r b, (evaluate-groups d s c b).4)

  still-monitor :
      let r = zigbee_reporting_evaluate d s c b in monitor_changed s (commit_groups d s r b) ≡ false
  still-monitor =
      let r = zigbee_reporting_evaluate d s c b in
      ground (arith, commit_changed d s r b, (evaluate-groups d s c b).4)

  fresh :
      0 < c.report_max_interval_s
      → d.timestamp < 4294967296
      → (v : Baseline) → (v.valid ≡ true) × (v.last_report_time ≡ d.timestamp)
      → zigbee_reporting_evaluate d s c v ≡ changes d s c v
  unfolding zigbee_reporting_evaluate
  fresh h k v e = ground (arith, sub32_self d.timestamp k)

  -- When the sample that was evaluated has been committed with what the evaluation reported, the
  -- same sample and status have nothing left to report, whatever the baseline was; the deltas of
  -- temperature, humidity and pressure and the longest interval must not be zero, and the sample's
  -- uptime must be below 2 ^ 32.
  pub evaluate-commit :
      0 < c.report_temp_delta_c_x100
      → 0 < c.report_humidity_delta_x100
      → 0 < c.report_pressure_delta_pa
      → 0 < c.report_max_interval_s
      → d.timestamp < 4294967296
      → let r = zigbee_reporting_evaluate d s c b in
        zigbee_reporting_evaluate d s c (zigbee_reporting_commit d s r b) ≡ 0
  unfolding zigbee_reporting_commit monitor_changed
  evaluate-commit th hh ph ih w =
      let r = zigbee_reporting_evaluate d s c b in
      elim (Bool-cases (r == 0)) [
        | inl quiet ↦ rw quiet ((==_iff r 0).0 quiet)
        | inr loud ↦
            let v = record (commit_groups d s r b) {
              last_report_time = d.timestamp;
              valid = true;
            } in
            rw loud (
              fresh ih w v (refl, refl)
              ∙ changes-zero d s c v (still-temperature th) (still-humidity hh) (still-pressure ph)
                  still-battery still-gas still-monitor)
      ]
