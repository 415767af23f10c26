-- ===== src/Motion/Manager.antt =====
-- src/motion/motion_manager.c: the STATIONARY <-> MOVING state machine, orientation and tamper.
use nrf54l15_tag.Common.{
  ℕ, ◌≡◌, Bool, true, false, not, ◌&&◌, ltb, leb, ◌==◌, if◌then◌else◌, add32, sub32,
}
use nrf54l15_tag.Common.Mask
use nrf54l15_tag.SmartTag.{
  SensorData, TagConfig, MotionState, stationary, moving, Orientation, unknown, x_up, x_down, y_up,
  y_down, z_up, z_down, valid_accel,
}
use nrf54l15_tag.Motion.Classifier.{is_active, classify_orientation}
use nrf54l15_tag.Motion.Shock.{
  ShockDetector, ShockResult, shock_detector_init, shock_detector_process,
}
pub mod Transitions
pub mod Timing
pub mod Tamper

abbrev pub tamper_settled_s : ℕ
tamper_settled_s = 300

-- MOTION_EVENT_*, by their bit.
abbrev pub event_start : ℕ
event_start = 0

abbrev pub event_stop : ℕ
event_stop = 1

abbrev pub event_shock : ℕ
event_shock = 2

abbrev pub event_free_fall : ℕ
event_free_fall = 3

abbrev pub event_orientation : ℕ
event_orientation = 4

abbrev pub event_tamper : ℕ
event_tamper = 5

-- struct motion_result
pub record MotionResult : Type 0 where
  pub events : ℕ
  pub shock_mg : ℕ
  pub orientation : Orientation
  pub motion_state : MotionState
  pub movement_duration_s : ℕ

-- The static state of the file, with that of the shock detector.
pub record MotionManager : Type 0 where
  pub config : TagConfig
  pub state : MotionState
  pub orientation : Orientation
  pub tamper : Bool
  pub last_active_time : ℕ
  pub motion_started_time : ℕ
  pub stationary_since : ℕ
  pub total_movement_s : ℕ
  pub detector : ShockDetector

-- motion_manager_init
unfoldable pub motion_manager_init : TagConfig → MotionManager
motion_manager_init cfg = record {
  config = cfg;
  state = stationary;
  orientation = unknown;
  tamper = false;
  last_active_time = 0;
  motion_started_time = 0;
  stationary_since = 0;
  total_movement_s = 0;
  detector = shock_detector_init;
}

-- motion_manager_update_config
unfoldable pub motion_manager_update_config : TagConfig → MotionManager → MotionManager
motion_manager_update_config cfg m = record m { config = cfg }

-- What one call of motion_manager_process works on.
pub record Pass : Type 0 where
  pub manager : MotionManager
  pub sample : SensorData
  pub result : MotionResult

abbrev pub is_stationary : MotionState → Bool
is_stationary stationary = true
is_stationary moving = false

abbrev pub is_unknown : Orientation → Bool
is_unknown unknown = true
is_unknown _ = false

-- The enumerators' values.
abbrev pub orientation_code : Orientation → ℕ
orientation_code unknown = 0
orientation_code x_up = 1
orientation_code x_down = 2
orientation_code y_up = 3
orientation_code y_down = 4
orientation_code z_up = 5
orientation_code z_down = 6

unfoldable pub same_orientation : Orientation → Orientation → Bool
same_orientation a b = orientation_code a == orientation_code b

-- `result->events |= BIT(k)`
abbrev note : ℕ → MotionResult → MotionResult
note k r = record r { events = Mask.insert k r.events }

unfoldable pub was_settled : MotionManager → ℕ → Bool
was_settled m now = is_stationary m.state && leb tamper_settled_s (sub32 now m.stationary_since)

unfoldable pub report_shock : ShockResult → Pass → Pass
report_shock s p =
    if s.shock
    then record p {
      sample = record p.sample { shock = true };
      result = record (note event_shock p.result) { shock_mg = s.peak_mg };
    }
    else p

unfoldable pub report_free_fall : ShockResult → Pass → Pass
report_free_fall s p =
    if s.free_fall
    then record p {
      sample = record p.sample { free_fall = true };
      result = note event_free_fall p.result;
    }
    else p

unfoldable pub update_motion : ℕ → Pass → Pass
update_motion now p =
    let m = p.manager in
    if is_active p.sample m.config.motion_threshold_mg
    then (if is_stationary m.state
        then record p {
          manager = record m { last_active_time = now; state = moving; motion_started_time = now };
          result = note event_start p.result;
        }
        else record p { manager = record m { last_active_time = now } })
    else if not (is_stationary m.state)
        && leb m.config.motion_timeout_s (sub32 now m.last_active_time)
    then (let duration = sub32 m.last_active_time m.motion_started_time in
        record p {
          manager = record m {
            state = stationary;
            stationary_since = now;
            total_movement_s = add32 m.total_movement_s duration;
          };
          result = record (note event_stop p.result) { movement_duration_s = duration };
        })
    else p

-- `settled` and `shock` are `was_settled` and `shock.shock`.
unfoldable pub update_orientation : Bool → Bool → Pass → Pass
update_orientation settled shock p =
    let m = p.manager in
    let now_orientation = classify_orientation p.sample in
    if not (is_unknown now_orientation) && not (same_orientation now_orientation m.orientation)
    then (let m' = record m { orientation = now_orientation } in
        if not (is_unknown m.orientation)
        then (if settled && shock && not m.tamper
            then record p {
              manager = record m' { tamper = true };
              result = note event_tamper (note event_orientation p.result);
            }
            else record p { manager = m'; result = note event_orientation p.result })
        else record p { manager = m' })
    else p

unfoldable pub finish : Pass → Pass
finish p = record p {
  sample = record p.sample { orientation = p.manager.orientation };
  result = record p.result { orientation = p.manager.orientation; motion_state = p.manager.state };
}

-- `data->motion = (state == MOTION_STATE_MOVING)`
unfoldable pub mark_motion : Pass → Pass
mark_motion p = record p {
  sample = record p.sample { motion = not (is_stationary p.manager.state) };
}

-- The result after `memset(result, 0, sizeof(*result))`.
abbrev no_motion : MotionResult
no_motion = record {
  events = 0;
  shock_mg = 0;
  orientation = unknown;
  motion_state = stationary;
  movement_duration_s = 0;
}

-- The call of shock_detector_process.
unfoldable pub detect : SensorData → MotionManager → ShockDetector × ShockResult
detect d m =
    shock_detector_process d m.config.shock_threshold_mg m.config.free_fall_threshold_mg m.detector

-- The detector has run and its two events are reported.
unfoldable pub impact_pass : SensorData → MotionManager → Pass
unfolding detect
impact_pass d m =
    let (detector, shock) = detect d m in
    report_free_fall shock (
      report_shock shock
        (record { manager = record m { detector = detector }; sample = d; result = no_motion }))

-- A sample with an acceleration reading.
unfoldable pub active_pass : SensorData → MotionManager → Pass
unfolding finish mark_motion
active_pass d m = finish (
    update_orientation (was_settled m d.timestamp) (detect d m).1.shock
      (mark_motion (update_motion d.timestamp (impact_pass d m))))

-- motion_manager_process: the manager, the sample with its fields filled in, and the result.
unfoldable pub motion_manager_process : SensorData → MotionManager → Pass
motion_manager_process d m =
    if not (Mask.test valid_accel d.valid)
    then record {
      manager = m;
      sample = d;
      result = record no_motion { motion_state = m.state; orientation = m.orientation };
    }
    else active_pass d m

-- motion_manager_clear_tamper
unfoldable pub motion_manager_clear_tamper : MotionManager → MotionManager
motion_manager_clear_tamper m = record m { tamper = false }
