-- ===== src/Scenarios/Policies.antt =====
-- Runs of the alarm, configuration and reporting policies.
use nrf54l15_tag.Common.{
  ℕ, ◌+◌, ◌*◌, ◌/◌, ◌≤◌, ◌<◌, ◌≡◌, refl, pos, ◌-ℤ◌, true, false, not, ◌&&◌, ltb, leb, ◌==◌, u16,
  sub32, length, [], ◌++◌, some, arith,
}
use nrf54l15_tag.Common.Mask
use nrf54l15_tag.SmartTag.{
  SensorData, config_defaults, gas_alarm_floor, alarm_temp_high, alarm_temp_low,
  alarm_humidity_high, alarm_gas_low, alarm_battery_low, alarm_sensor_fault, battery_hysteresis_mv,
  valid_temp_rh, valid_gas, valid_battery, gas_alarm_floor_wraps,
}
use nrf54l15_tag.Alarms.{
  EventBuffer, Eval, eval, app_alarms_eval, misses, eval_fault, raise, lower, eval_battery,
  eval_gas, eval_temp_rh, eval_humidity, eval_temperature,
}
use nrf54l15_tag.Alarms.Stages.{latch, too_hot, too_cold}
use nrf54l15_tag.Alarms.Policy.{eval-flags}
use nrf54l15_tag.Alarms.Edges.{edge, gas_event, battery_event, fault_event}
use nrf54l15_tag.Alarms.Events.{climate_edges, eval-events}
use nrf54l15_tag.Alarms.Repeat.{app_alarms_eval-repeat}
use nrf54l15_tag.AppConfig.{app_config_effective_interval_s}
use nrf54l15_tag.AppConfig.Validate.{IsInRange}
use nrf54l15_tag.Zigbee.Reporting.{
  zero_baseline, report_temperature, zigbee_reporting_evaluate, zigbee_reporting_commit,
}
use nrf54l15_tag.Zigbee.Reporting.Groups.{LeavesOut, evaluate_quiet_iff}
use nrf54l15_tag.Zigbee.Reporting.Quiet.{evaluate-commit}
use nrf54l15_tag.Zigbee.Reporting.Heartbeat.{temperature_heartbeat_put_off}
use nrf54l15_tag.Scenarios.{calm, knock, still_status, shipping_config}

abbrev empty_buffer : EventBuffer
empty_buffer = record { writable = true; items = [] }

abbrev quiet_eval : Eval
quiet_eval = record { flags = 0; out = empty_buffer }

abbrev cool : SensorData
cool = record calm { timestamp = 200; temperature_c_x100 = pos 20 }

abbrev late : SensorData
late = record calm { timestamp = 1800 }

-- The knock raises high temperature, low battery and, since a reading is expected that it lacks, the
-- sensor fault.
knock_flags : (eval knock config_defaults 63 quiet_eval).flags ≡ 193
unfolding eval eval_fault misses Mask.and_word raise Mask.test eval_battery eval_gas eval_temp_rh
    eval_humidity lower Mask.remove eval_temperature Mask.insert
knock_flags = refl

first_report : zigbee_reporting_evaluate calm still_status config_defaults zero_baseline ≡ 31
unfolding zigbee_reporting_evaluate Mask.insert
first_report = refl

shipping_period : app_config_effective_interval_s shipping_config ≡ 75
unfolding app_config_effective_interval_s
shipping_period = refl

shipping-IsInRange : IsInRange shipping_config
shipping-IsInRange = omega arith

gas_alarm_floor_wraps_example : let b : ℕ = 61356676 in gas_alarm_floor b < b * 70 / 100
gas_alarm_floor_wraps_example = gas_alarm_floor_wraps 61356676 (omega arith) (omega arith)

eval-flags_example :
    let d = knock in
    let c = config_defaults in
    let x : ℕ = 63 in
    let e = quiet_eval in
    let after = (eval d c x e).flags in
    (Mask.test alarm_temp_high after
      ≡ latch
          (Mask.test valid_temp_rh d.valid)
          (too_hot d c)
          (not (too_cold d c))
          (Mask.test alarm_temp_high e.flags))
    × (Mask.test alarm_temp_low after
        ≡ latch
            (Mask.test valid_temp_rh d.valid && not (too_hot d c))
            (too_cold d c)
            true
            (Mask.test alarm_temp_low e.flags))
    × (Mask.test alarm_humidity_high after
        ≡ latch
            (Mask.test valid_temp_rh d.valid)
            (ltb c.humidity_high_x100 d.humidity_x100)
            true
            (Mask.test alarm_humidity_high e.flags))
    × (Mask.test alarm_gas_low after
        ≡ latch
            (Mask.test valid_gas d.valid && not (c.gas_low_threshold_ohm == 0))
            (ltb d.gas_resistance_ohm c.gas_low_threshold_ohm)
            true
            (Mask.test alarm_gas_low e.flags))
    × (Mask.test alarm_battery_low after
        ≡ latch
            (Mask.test valid_battery d.valid)
            (ltb d.battery_mv c.battery_low_mv)
            (leb (u16 (c.battery_low_mv + battery_hysteresis_mv)) d.battery_mv)
            (Mask.test alarm_battery_low e.flags))
    × (Mask.test alarm_sensor_fault after ≡ misses d.valid x)
eval-flags_example = eval-flags knock config_defaults 63 quiet_eval

eval-events_example :
    let d = knock in
    let c = config_defaults in
    let x : ℕ = 63 in
    let e = quiet_eval in
    let after = eval d c x e in
    (after.out.items
      ≡ climate_edges d e.flags after.flags
        ++ (edge 8 e.flags after.flags (gas_event d)
            ++ (edge 7 e.flags after.flags (battery_event d)
                ++ edge 6 e.flags after.flags (fault_event d))))
    × (length after.out.items ≤ 5)
eval-events_example = eval-events knock config_defaults 63 quiet_eval refl refl

app_alarms_eval-repeat_example :
    let d = knock in
    let c = config_defaults in
    let x : ℕ = 63 in
    let flags : ℕ = 0 in
    let j : ℕ = 0 in
    let b = empty_buffer in
    (f : ℕ) × (g : ℕ) × ((app_alarms_eval (some d) (some c) x (some flags) b).0 ≡ some f)
    × ((app_alarms_eval (some d) (some c) x (some f) b).0 ≡ some g)
    × ((app_alarms_eval (some d) (some c) x (some f) b).1.items ≡ [])
    × (Mask.test j g ≡ Mask.test j f)
app_alarms_eval-repeat_example =
    app_alarms_eval-repeat knock config_defaults 63 0 0 empty_buffer refl

evaluate_quiet_iff_example :
    let d = knock in
    let s = still_status in
    let c = config_defaults in
    let b = zero_baseline in LeavesOut d s c b (zigbee_reporting_evaluate d s c b)
evaluate_quiet_iff_example = evaluate_quiet_iff knock still_status config_defaults zero_baseline

evaluate-commit_example :
    let d = knock in
    let s = still_status in
    let c = config_defaults in
    let b = zero_baseline in
    let r = zigbee_reporting_evaluate d s c b in
    zigbee_reporting_evaluate d s c (zigbee_reporting_commit d s r b) ≡ 0
evaluate-commit_example =
    evaluate-commit knock still_status config_defaults zero_baseline (omega arith) (omega arith)
      (omega arith) (omega arith) (omega arith)

temperature_heartbeat_put_off_example :
    let d = calm in
    let s = still_status in
    let r : ℕ = 16 in
    let b = zero_baseline in
    let later = cool in
    let s' = still_status in
    let c = config_defaults in
    Mask.test report_temperature
      (zigbee_reporting_evaluate later s' c (zigbee_reporting_commit d s r b))
    ≡ false
unfolding Mask.test ◌-ℤ◌ sub32
temperature_heartbeat_put_off_example =
    temperature_heartbeat_put_off calm still_status 16 zero_baseline cool still_status
      config_defaults (omega arith) refl (omega arith) (omega arith)
