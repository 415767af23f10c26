-- ===== src/Scenarios/Movement.antt =====
-- Runs of the motion modules and of the LED.
use nrf54l15_tag.Common.{ℕ, ◌+◌, ◌≤◌, ◌≡◌, refl, ◌-ℤ◌, false, not, ◌&&◌, List, [], ◌∷◌, arith}
use nrf54l15_tag.Common.Mask
use nrf54l15_tag.SmartTag.{SensorData, config_defaults}
use nrf54l15_tag.Motion.Classifier.{deviation}
use nrf54l15_tag.Motion.Shock.{shock_detector_init, excursion, run}
use nrf54l15_tag.Motion.Shock.Latch.{one_if, shocks, shocks-run}
use nrf54l15_tag.Motion.Manager.{
  motion_manager_init, motion_manager_process, event_start, event_stop, event_orientation,
  event_tamper, is_stationary, is_unknown, same_orientation,
}
use nrf54l15_tag.Motion.Manager.Transitions.{motion_manager_process-events}
use nrf54l15_tag.Motion.Manager.Timing
use nrf54l15_tag.Motion.Manager.Timing.{IsOrdered, last_time, total_movement-le-uptime}
use nrf54l15_tag.Led
use nrf54l15_tag.Led.{
  top_state, led_index, led_manager_set_enabled, idle, patterns, blink_work_fn, colour_off,
}
use nrf54l15_tag.Led.Blink.{LedCall, blink, flash, calls, IsDark, disabled_stays-IsDark}
use nrf54l15_tag.Scenarios.{calm, knock, drop_sample, lit_led}

abbrev two_knocks : List SensorData
two_knocks = knock ∷ knock ∷ []

abbrev falling : List SensorData
falling = drop_sample ∷ drop_sample ∷ []

abbrev day : List SensorData
day = calm ∷ knock ∷ drop_sample ∷ record calm { timestamp = 400 } ∷ []

shocks-run_example :
    let st : ℕ = 4000 in
    let ft : ℕ = 300 in
    let s = shock_detector_init in
    let ds = two_knocks in
    shocks (run st ft s ds).1 + one_if s.shock_latched ≡ one_if (run st ft s ds).0.shock_latched
unfolding excursion deviation ◌-ℤ◌
shocks-run_example =
    shocks-run 4000 300 shock_detector_init two_knocks (omega arith, (omega arith, tt))

motion_manager_process-events_example :
    let d = knock in
    let m = motion_manager_init config_defaults in
    let p = motion_manager_process d m in
    (Mask.test event_start p.result.events
      ≡ (is_stationary m.state && not (is_stationary p.manager.state)))
    × (Mask.test event_stop p.result.events
        ≡ (not (is_stationary m.state) && is_stationary p.manager.state))
    × (Mask.test event_orientation p.result.events ≡ (
        not (is_unknown m.orientation)
        && not (same_orientation p.manager.orientation m.orientation)))
    × (Mask.test event_tamper p.result.events ≡ (not m.tamper && p.manager.tamper))
    × (p.result.motion_state ≡ p.manager.state)
    × (p.result.orientation ≡ p.manager.orientation)
motion_manager_process-events_example =
    motion_manager_process-events knock (motion_manager_init config_defaults)

total_movement-le-uptime_example :
    let cfg = config_defaults in
    let ds = day in (Timing.run (motion_manager_init cfg) ds).total_movement_s ≤ last_time 0 ds
total_movement-le-uptime_example = total_movement-le-uptime config_defaults day (
  omega arith,
  omega arith,
  (omega arith, omega arith, (omega arith, omega arith, (omega arith, omega arith, tt))),
)

disabled_stays-IsDark_example :
    let l = lit_led in
    let cs : List LedCall = blink ∷ flash Led.LedState.alarm 2 ∷ blink ∷ [] in
    IsDark (calls cs (led_manager_set_enabled false l))
disabled_stays-IsDark_example =
    disabled_stays-IsDark lit_led (blink ∷ flash Led.LedState.alarm 2 ∷ blink ∷ []) refl
