-- ===== src/Zigbee/Reporting/Policy.antt =====
-- The reporting policy of src/zigbee/zigbee_reporting.c, attribute group by attribute group.
use nrf54l15_tag.Common.{
  ℕ, ◌≡◌, ◌≢◌, ◌≤◌, ◌<◌, ◌↔◌, ◌⊎◌, inl, inr, ◌∙◌, sym, ap, ℤ, pos, ◌-ℤ◌, nat_abs, sub32, sub_ℕ,
  Bool, true, false, zero, suc, refl, not, ◌&&◌, ◌||◌, ◌==◌, arith, if◌then◌else◌,
}
use nrf54l15_tag.Common.Mask
use nrf54l15_tag.SmartTag.{
  SensorData, TagStatus, TagConfig, valid_temp_rh, valid_pressure, valid_battery, valid_gas,
}
use nrf54l15_tag.Zigbee.Reporting.{
  Baseline, report_temperature, report_humidity, report_pressure, report_battery,
  report_tag_monitor, add_if, temperature_moved, humidity_moved, pressure_moved, battery_moved,
  gas_moved, monitor_changed, interval_elapsed, add_all, changes, zigbee_reporting_evaluate,
}

pub ruleset report_laws = (arith, Mask.test-zero, Mask.test-insert_self, Mask.test-insert_ne)

test-add_if_self : (k : ℕ) (t : Bool) (r : ℕ) → Mask.test k (add_if k t r) ≡ (t || Mask.test k r)
unfolding add_if
test-add_if_self k t r = grind report_laws

test-add_if_ne : (j k : ℕ) (t : Bool) (r : ℕ) → j ≢ k → Mask.test j (add_if k t r) ≡ Mask.test j r
unfolding add_if
test-add_if_ne j k t r h = grind report_laws

pub test-add_all :
    (r : ℕ)
    → (Mask.test 0 (add_all r) ≡ true)
      × (Mask.test 1 (add_all r) ≡ true)
      × (Mask.test 2 (add_all r) ≡ true)
      × (Mask.test 3 (add_all r) ≡ true)
      × (Mask.test 4 (add_all r) ≡ true)
unfolding add_all
test-add_all r =
    (grind report_laws, grind report_laws, grind report_laws, grind report_laws, grind report_laws)

ruleset group_laws = (arith, Mask.test-zero, test-add_if_self, test-add_if_ne)

-- Everything goes out: there is no baseline, or the longest interval has passed.
abbrev pub everything : SensorData → TagConfig → Baseline → Bool
everything d c b = not b.valid || interval_elapsed d c b

-- The mask of the six blocks, at any outcome of their tests.
any_groups :
    (t h p y g m : Bool)
    → let r = add_if 4 m (add_if 4 g (add_if 3 y (add_if 2 p (add_if 1 h (add_if 0 t 0))))) in
      (Mask.test 0 r ≡ t)
      × (Mask.test 1 r ≡ h)
      × (Mask.test 2 r ≡ p)
      × (Mask.test 3 r ≡ y)
      × (Mask.test 4 r ≡ (m || g))
any_groups t h p y g m =
    (grind group_laws, grind group_laws, grind group_laws, grind group_laws, grind group_laws)

-- Which of the three results of the policy is taken.
select :
    (valid elapsed : Bool) (k r : ℕ) {own : Bool}
    → Mask.test k (add_all r) ≡ true
    → Mask.test k (add_all 0) ≡ true
    → Mask.test k r ≡ own
    → Mask.test k (if not valid then add_all 0 else if elapsed then add_all r else r)
      ≡ (not valid || elapsed || own)
select true true k r a z o = a
select true false k r a z o = o
select false true k r a z o = z
select false false k r a z o = z

module _ (d : SensorData) (s : TagStatus) (c : TagConfig) (b : Baseline) where
  changes-groups :
      let r = changes d s c b in
      (Mask.test 0 r ≡ (Mask.test valid_temp_rh d.valid && temperature_moved d c b))
      × (Mask.test 1 r ≡ (Mask.test valid_temp_rh d.valid && humidity_moved d c b))
      × (Mask.test 2 r ≡ (Mask.test valid_pressure d.valid && pressure_moved d c b))
      × (Mask.test 3 r ≡ (Mask.test valid_battery d.valid && battery_moved d b))
      × (Mask.test 4 r ≡ (
          monitor_changed s b
          || Mask.test valid_gas d.valid && not (c.report_gas_delta_ohm == 0) && gas_moved d c b))
  unfolding changes
  changes-groups =
      any_groups (Mask.test valid_temp_rh d.valid && temperature_moved d c b)
        (Mask.test valid_temp_rh d.valid && humidity_moved d c b)
        (Mask.test valid_pressure d.valid && pressure_moved d c b)
        (Mask.test valid_battery d.valid && battery_moved d b)
        (Mask.test valid_gas d.valid && not (c.report_gas_delta_ohm == 0) && gas_moved d c b)
        (monitor_changed s b)

  -- The bits of the result, by the tests of the code.
  pub evaluate-groups :
      let r = zigbee_reporting_evaluate d s c b in
      (Mask.test report_temperature r
        ≡ (everything d c b || Mask.test valid_temp_rh d.valid && temperature_moved d c b))
      × (Mask.test report_humidity r
          ≡ (everything d c b || Mask.test valid_temp_rh d.valid && humidity_moved d c b))
      × (Mask.test report_pressure r
          ≡ (everything d c b || Mask.test valid_pressure d.valid && pressure_moved d c b))
      × (Mask.test report_battery r
          ≡ (everything d c b || Mask.test valid_battery d.valid && battery_moved d b))
      × (Mask.test report_tag_monitor r ≡ (
          everything d c b
          || (monitor_changed s b
              || Mask.test valid_gas d.valid
                && not (c.report_gas_delta_ohm == 0)
                && gas_moved d c b)))
  unfolding zigbee_reporting_evaluate
  evaluate-groups =
      let all = test-add_all (changes d s c b) in
      let none_yet = test-add_all 0 in
      (
        select b.valid (interval_elapsed d c b) 0 (changes d s c b) all.0 none_yet.0
            changes-groups.0,
        select b.valid (interval_elapsed d c b) 1 (changes d s c b) all.1 none_yet.1
            changes-groups.1,
        select b.valid (interval_elapsed d c b) 2 (changes d s c b) all.2 none_yet.2
            changes-groups.2,
        select b.valid (interval_elapsed d c b) 3 (changes d s c b) all.3 none_yet.3
            changes-groups.3,
        select b.valid (interval_elapsed d c b) 4 (changes d s c b) all.4 none_yet.4
            changes-groups.4,
      )
