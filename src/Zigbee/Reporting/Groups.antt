-- ===== src/Zigbee/Reporting/Groups.antt =====
-- What src/zigbee/zigbee_reporting.c leaves unreported, in terms of the readings.
use nrf54l15_tag.Common.{
  ℕ, ◌≡◌, ◌<◌, ◌↔◌, ==_iff, leb, ◌⊎◌, inl, inr, ◌∙◌, sym, ap, pos, ◌-ℤ◌, nat_abs, sub32, Bool, true,
  false, refl, not, ◌&&◌, ◌||◌, ◌==◌, arith, if◌then◌else◌,
}
use nrf54l15_tag.Common.Mask
use nrf54l15_tag.SmartTag.{
  SensorData, TagStatus, TagConfig, MotionState, stationary, moving, Orientation, unknown, x_up,
  x_down, y_up, y_down, z_up, z_down, valid_temp_rh, valid_pressure, valid_battery, valid_gas,
}
use nrf54l15_tag.Motion.Manager.{orientation_code, same_orientation}
use nrf54l15_tag.Zigbee.Reporting.{
  Baseline, same_motion_state, report_temperature, report_humidity, report_pressure, report_battery,
  report_tag_monitor, temperature_moved, humidity_moved, pressure_moved, battery_moved, gas_moved,
  monitor_changed, zigbee_reporting_evaluate,
}
use nrf54l15_tag.Zigbee.Reporting.Policy.{everything, evaluate-groups}

orientation_of : ℕ → Orientation
orientation_of n =
    if n == 1
    then x_up
    else if n == 2
    then x_down
    else if n == 3
    then y_up
    else if n == 4
    then y_down
    else if n == 5
    then z_up
    else if n == 6
    then z_down
    else unknown

orientation_of-code : (o : Orientation) → orientation_of (orientation_code o) ≡ o
unfolding orientation_of
orientation_of-code unknown = refl
orientation_of-code x_up = refl
orientation_of-code x_down = refl
orientation_of-code y_up = refl
orientation_of-code y_down = refl
orientation_of-code z_up = refl
orientation_of-code z_down = refl

same_orientation_iff : (o p : Orientation) → (same_orientation o p ≡ true) ↔ (o ≡ p)
unfolding same_orientation
same_orientation_iff o p = (
  λ h.
      let codes : orientation_code o ≡ orientation_code p = ground arith in
      sym (orientation_of-code o) ∙ ap orientation_of codes ∙ orientation_of-code p,
  λ e. ground (arith, ap orientation_code e),
)

same_motion_state_iff : (m n : MotionState) → (same_motion_state m n ≡ true) ↔ (m ≡ n)
unfolding same_motion_state
same_motion_state_iff stationary stationary = (λ h. refl, λ h. refl)
same_motion_state_iff moving moving = (λ h. refl, λ h. refl)
same_motion_state_iff stationary moving = (λ h. cc, λ h. cc)
same_motion_state_iff moving stationary = (λ h. cc, λ h. cc)

-- Nothing of what the monitor group watches differs from what was last reported.
pub record IsUnmoved (s : TagStatus) (b : Baseline) : Type 0 where
  pub motion_state : s.motion_state ≡ b.motion_state
  pub orientation : s.orientation ≡ b.orientation
  pub tamper : s.tamper ≡ b.tamper
  pub alarm_flags : s.alarm_flags ≡ b.alarm_flags
  pub shock_count : s.shock_count ≡ b.shock_count
  pub free_fall_count : s.free_fall_count ≡ b.free_fall_count

monitor_changed_iff : (s : TagStatus) (b : Baseline) → (monitor_changed s b ≡ false) ↔ IsUnmoved s b
unfolding monitor_changed
monitor_changed_iff s b =
    let states = same_motion_state_iff s.motion_state b.motion_state in
    let orientations = same_orientation_iff s.orientation b.orientation in
    (
      λ h. record {
        motion_state = states.0 (ground arith);
        orientation = orientations.0 (ground arith);
        tamper = ground arith;
        alarm_flags = ground arith;
        shock_count = ground arith;
        free_fall_count = ground arith;
      },
      λ v. ground (arith, states.1 v.motion_state, orientations.1 v.orientation),
    )

gas_moved_lem :
    (d : SensorData) (c : TagConfig) (b : Baseline)
    → (gas_moved d c b ≡ false)
      ↔ (nat_abs (pos d.gas_resistance_ohm -ℤ pos b.gas_resistance) < c.report_gas_delta_ohm)
unfolding ◌-ℤ◌
gas_moved_lem d c b = (λ h. ground arith, λ h. ground arith)

-- There is a baseline, and the longest interval has not passed since it was reported.
abbrev pub IsCurrent : SensorData → TagConfig → Baseline → Type 0
IsCurrent d c b =
    (b.valid ≡ true) × (sub32 d.timestamp b.last_report_time < c.report_max_interval_s)

everything_iff :
    (d : SensorData) (c : TagConfig) (b : Baseline) → (everything d c b ≡ false) ↔ IsCurrent d c b
everything_iff d c b = (λ h. (ground arith, ground arith), λ v. ground (arith, v))

or_false : (x y : Bool) → ((x || y) ≡ false) ↔ ((x ≡ false) × (y ≡ false))
or_false x y = (λ h. (ground arith, ground arith), λ v. ground (arith, v))

and_false : (x y : Bool) → ((x && y) ≡ false) ↔ ((x ≡ false) ⊎ (y ≡ false))
and_false true y = (λ h. inr h, λ v. ground arith)
and_false false y = (λ h. inl refl, λ v. refl)

below_iff : (m n : ℕ) → (leb m n ≡ false) ↔ (n < m)
below_iff m n = (λ h. ground arith, λ h. ground arith)

reading_iff : (x m : Bool) {P : Type 0} → (m ≡ false) ↔ P → ((x && m) ≡ false) ↔ ((x ≡ false) ⊎ P)
reading_iff true m q = (λ h. inr (q.0 h), λ v. elim v [ inl e ↦ cc | inr p ↦ q.1 p ])
reading_iff false m q = (λ h. inl refl, λ v. refl)

group_iff :
    (d : SensorData) (c : TagConfig) (b : Baseline) (r own : Bool) {Q : Type 0}
    → r ≡ (everything d c b || own)
    → (own ≡ false) ↔ Q
    → (r ≡ false) ↔ (IsCurrent d c b × Q)
group_iff d c b r own e q =
    let split = or_false (everything d c b) own in
    let current = everything_iff d c b in
    (
      λ h. let (full, quiet) = split.0 (sym e ∙ h) in (current.0 full, q.0 quiet),
      λ v. e ∙ split.1 (current.1 v.0, q.1 v.1),
    )

gas_iff :
    (x z m : Bool) {P Z : Type 0}
    → (z ≡ true) ↔ Z
    → (m ≡ false) ↔ P
    → ((x && not z && m) ≡ false) ↔ ((x ≡ false) ⊎ (Z ⊎ P))
gas_iff false z m zero_delta q = (λ h. inl refl, λ v. refl)
gas_iff true true m zero_delta q = (λ h. inr (inl (zero_delta.0 refl)), λ v. refl)
gas_iff true false m zero_delta q = (
  λ h. inr (inr (q.0 h)),
  λ v. elim v [ inl e ↦ cc | inr w ↦ elim w [ inl z ↦ cc (zero_delta.1 z) | inr p ↦ q.1 p ] ],
)

both_iff :
    (x y : Bool) {P Q : Type 0} → (x ≡ false) ↔ P → (y ≡ false) ↔ Q → ((x || y) ≡ false) ↔ (P × Q)
both_iff x y p q =
    let split = or_false x y in
    (λ h. (p.0 (split.0 h).0, q.0 (split.0 h).1), λ v. split.1 (p.1 v.0, q.1 v.1))

-- Which of the five groups a report leaves out, and when.
abbrev pub LeavesOut : SensorData → TagStatus → TagConfig → Baseline → ℕ → Type 0
LeavesOut d s c b r =
    ((Mask.test report_temperature r ≡ false) ↔ (
      IsCurrent d c b
      × ((Mask.test valid_temp_rh d.valid ≡ false)
          ⊎ (nat_abs (d.temperature_c_x100 -ℤ b.temperature) < c.report_temp_delta_c_x100))))
    × ((Mask.test report_humidity r ≡ false) ↔ (
        IsCurrent d c b
        × ((Mask.test valid_temp_rh d.valid ≡ false)
            ⊎ (nat_abs (pos d.humidity_x100 -ℤ pos b.humidity) < c.report_humidity_delta_x100))))
    × ((Mask.test report_pressure r ≡ false) ↔ (
        IsCurrent d c b
        × ((Mask.test valid_pressure d.valid ≡ false)
            ⊎ (nat_abs (d.pressure_pa -ℤ b.pressure) < c.report_pressure_delta_pa))))
    × ((Mask.test report_battery r ≡ false) ↔ (
        IsCurrent d c b
        × ((Mask.test valid_battery d.valid ≡ false)
            ⊎ (nat_abs (pos d.battery_percent -ℤ pos b.battery_percent) < 1))))
    × ((Mask.test report_tag_monitor r ≡ false) ↔ (
        IsCurrent d c b
        × (IsUnmoved s b
            × ((Mask.test valid_gas d.valid ≡ false)
                ⊎ ((c.report_gas_delta_ohm ≡ 0)
                    ⊎ (nat_abs (pos d.gas_resistance_ohm -ℤ pos b.gas_resistance)
                        < c.report_gas_delta_ohm))))))

-- An attribute group is left out of the report exactly if there is a baseline and less than the
-- longest interval has passed since the last report, and: for temperature, humidity, pressure and
-- battery, the reading is not valid, or it differs from the last reported one by less than the
-- configured delta, for the battery by less than one percent; for the monitor group, motion state,
-- orientation, tamper flag, alarm flags, shock count and free-fall count are those last reported,
-- and the gas reading is not valid, or its delta is configured as 0, or it differs by less than that
-- delta.
pub evaluate_quiet_iff :
    (d : SensorData) (s : TagStatus) (c : TagConfig) (b : Baseline)
    → LeavesOut d s c b (zigbee_reporting_evaluate d s c b)
evaluate_quiet_iff d s c b =
    let groups = evaluate-groups d s c b in
    let climate = Mask.test valid_temp_rh d.valid in
    let gas =
      gas_iff (Mask.test valid_gas d.valid) (c.report_gas_delta_ohm == 0) (gas_moved d c b)
        (==_iff c.report_gas_delta_ohm 0) (gas_moved_lem d c b) in
    (
      group_iff d c b _ _ groups.0 (reading_iff climate (temperature_moved d c b) (below_iff _ _)),
      group_iff d c b _ _ groups.1 (reading_iff climate (humidity_moved d c b) (below_iff _ _)),
      group_iff d c b _ _ groups.2
          (reading_iff (Mask.test valid_pressure d.valid) (pressure_moved d c b) (below_iff _ _)),
      group_iff d c b _ _ groups.3
          (reading_iff (Mask.test valid_battery d.valid) (battery_moved d b) (below_iff _ _)),
      group_iff d c b _ _ groups.4 (both_iff (monitor_changed s b) _ (monitor_changed_iff s b) gas),
    )
