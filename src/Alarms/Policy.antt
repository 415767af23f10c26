-- ===== src/Alarms/Policy.antt =====
-- The alarm policy of src/app/app_alarms.c: which bit is set after a sample.
use nrf54l15_tag.Common.{ℕ, ◌≡◌, ◌≢◌, true, not, ◌&&◌, arith, ltb, leb, ◌==◌, u16, ◌+◌}
use nrf54l15_tag.Common.Mask
use nrf54l15_tag.SmartTag.{
  SensorData, TagConfig, valid_temp_rh, valid_battery, valid_gas, battery_hysteresis_mv,
  alarm_temp_high, alarm_temp_low, alarm_humidity_high, alarm_sensor_fault, alarm_battery_low,
  alarm_gas_low,
}
use nrf54l15_tag.Alarms.{Eval, misses, eval}
use nrf54l15_tag.Alarms.Stages.{
  latch, too_hot, too_cold, temp_high_bit, temp_low_bit, humidity_bit, gas_bit, battery_bit,
  fault_bit, temp_rh_frame, gas_frame, battery_frame, fault_frame,
}

ruleset bits = (
  arith, temp_high_bit, temp_low_bit, humidity_bit, gas_bit, battery_bit, fault_bit, temp_rh_frame,
  gas_frame, battery_frame, fault_frame,
)

-- After a sample each alarm bit is the latch of its own reading, thresholds and former state:
-- temperature and humidity need a climate reading, gas a gas reading and a threshold that is not
-- zero, battery a battery reading with 100 mV of hysteresis above its threshold, and the fault bit
-- says whether an expected reading is missing.
pub eval-flags :
    (d : SensorData) (c : TagConfig) (x : ℕ) (e : Eval)
    → let after = (eval d c x e).flags in
      (Mask.test alarm_temp_high after
        ≡ latch
            (Mask.test valid_temp_rh d.valid)
            (too_hot d c)
            (not (too_cold d c))
            (Mask.test alarm_temp_high e.flags))
      × (Mask.test alarm_temp_low after
          ≡ latch
              (Mask.test valid_temp_rh d.valid && not (too_hot d c))
              (too_cold d c)
              true
              (Mask.test alarm_temp_low e.flags))
      × (Mask.test alarm_humidity_high after
          ≡ latch
              (Mask.test valid_temp_rh d.valid)
              (ltb c.humidity_high_x100 d.humidity_x100)
              true
              (Mask.test alarm_humidity_high e.flags))
      × (Mask.test alarm_gas_low after
          ≡ latch
              (Mask.test valid_gas d.valid && not (c.gas_low_threshold_ohm == 0))
              (ltb d.gas_resistance_ohm c.gas_low_threshold_ohm)
              true
              (Mask.test alarm_gas_low e.flags))
      × (Mask.test alarm_battery_low after
          ≡ latch
              (Mask.test valid_battery d.valid)
              (ltb d.battery_mv c.battery_low_mv)
              (leb (u16 (c.battery_low_mv + battery_hysteresis_mv)) d.battery_mv)
              (Mask.test alarm_battery_low e.flags))
      × (Mask.test alarm_sensor_fault after ≡ misses d.valid x)
unfolding eval
eval-flags d c x e = (grind bits, grind bits, grind bits, grind bits, grind bits, grind bits)

-- The bits of the motion alarms, and all bits without an alarm, are left as they were: every bit but
-- 0, 1, 2, 6, 7 and 8.
pub eval-frame :
    (d : SensorData) (c : TagConfig) (x : ℕ) (e : Eval) (j : ℕ)
    → (j ≢ 0) × (j ≢ 1) × (j ≢ 2) × (j ≢ 6) × (j ≢ 7) × (j ≢ 8)
    → Mask.test j (eval d c x e).flags ≡ Mask.test j e.flags
unfolding eval
eval-frame d c x e j h = grind bits
