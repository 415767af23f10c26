-- ===== src/Alarms/Stages.antt =====
-- What each block of src/app/app_alarms.c does to the alarm bits.
use nrf54l15_tag.Common.{
  ℕ, ◌≡◌, ◌≢◌, Bool, true, false, not, ◌&&◌, arith, ltb, leb, ltb_ℤ, ◌==◌, if◌then◌else◌, u16, ◌+◌,
}
use nrf54l15_tag.Common.Mask
use nrf54l15_tag.SmartTag.{
  SensorData, TagConfig, valid_temp_rh, valid_battery, valid_gas, battery_hysteresis_mv,
}
use nrf54l15_tag.Alarms.{
  Eval, raise, lower, eval_temperature, eval_humidity, eval_temp_rh, eval_gas, eval_battery, misses,
  eval_fault,
}

-- A latching alarm: with a reading it trips, clears, or keeps its state between the two; without
-- one it keeps its state.
unfoldable pub latch : Bool → Bool → Bool → Bool → Bool
latch valid trip clear before =
    if valid then (if trip then true else if clear then false else before) else before

ruleset mask_laws =
    (arith, Mask.test-insert_self, Mask.test-insert_ne, Mask.test-remove_self, Mask.test-remove_ne)

abbrev pub too_hot : SensorData → TagConfig → Bool
too_hot d c = ltb_ℤ c.temp_high_c_x100 d.temperature_c_x100

abbrev pub too_cold : SensorData → TagConfig → Bool
too_cold d c = ltb_ℤ d.temperature_c_x100 c.temp_low_c_x100

module _ (d : SensorData) (c : TagConfig) (e : Eval) where
  pub temp_high_bit :
      Mask.test 0 (eval_temp_rh d c e).flags
      ≡ latch
          (Mask.test valid_temp_rh d.valid)
          (too_hot d c)
          (not (too_cold d c))
          (Mask.test 0 e.flags)
  unfolding latch eval_temp_rh eval_temperature eval_humidity raise lower
  temp_high_bit = grind mask_laws

  pub temp_low_bit :
      Mask.test 1 (eval_temp_rh d c e).flags
      ≡ latch
          (Mask.test valid_temp_rh d.valid && not (too_hot d c))
          (too_cold d c)
          true
          (Mask.test 1 e.flags)
  unfolding latch eval_temp_rh eval_temperature eval_humidity raise lower
  temp_low_bit = grind mask_laws

  pub humidity_bit :
      Mask.test 2 (eval_temp_rh d c e).flags
      ≡ latch
          (Mask.test valid_temp_rh d.valid)
          (ltb c.humidity_high_x100 d.humidity_x100)
          true
          (Mask.test 2 e.flags)
  unfolding latch eval_temp_rh eval_temperature eval_humidity raise lower
  humidity_bit = grind mask_laws

  pub gas_bit :
      Mask.test 8 (eval_gas d c e).flags
      ≡ latch
          (Mask.test valid_gas d.valid && not (c.gas_low_threshold_ohm == 0))
          (ltb d.gas_resistance_ohm c.gas_low_threshold_ohm)
          true
          (Mask.test 8 e.flags)
  unfolding latch eval_gas raise lower
  gas_bit = grind mask_laws

  pub battery_bit :
      Mask.test 7 (eval_battery d c e).flags
      ≡ latch
          (Mask.test valid_battery d.valid)
          (ltb d.battery_mv c.battery_low_mv)
          (leb (u16 (c.battery_low_mv + battery_hysteresis_mv)) d.battery_mv)
          (Mask.test 7 e.flags)
  unfolding latch eval_battery raise lower
  battery_bit = grind mask_laws

  -- Every block leaves the bits of the others alone.
  pub temp_rh_frame :
      (j : ℕ) → j ≢ 0 → j ≢ 1 → j ≢ 2 → Mask.test j (eval_temp_rh d c e).flags ≡ Mask.test j e.flags
  unfolding eval_temp_rh eval_temperature eval_humidity raise lower
  temp_rh_frame j p q r = grind mask_laws

  pub gas_frame : (j : ℕ) → j ≢ 8 → Mask.test j (eval_gas d c e).flags ≡ Mask.test j e.flags
  unfolding eval_gas raise lower
  gas_frame j p = grind mask_laws

  pub battery_frame : (j : ℕ) → j ≢ 7 → Mask.test j (eval_battery d c e).flags ≡ Mask.test j e.flags
  unfolding eval_battery raise lower
  battery_frame j p = grind mask_laws

module _ (d : SensorData) (x : ℕ) (e : Eval) where
  pub fault_bit : Mask.test 6 (eval_fault d x e).flags ≡ misses d.valid x
  unfolding eval_fault raise lower
  fault_bit = grind mask_laws

  pub fault_frame : (j : ℕ) → j ≢ 6 → Mask.test j (eval_fault d x e).flags ≡ Mask.test j e.flags
  unfolding eval_fault raise lower
  fault_frame j p = grind mask_laws
