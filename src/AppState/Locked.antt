-- ===== src/AppState/Locked.antt =====
-- src/app/app_state.c: the live status, the statistics and the pending events, and what one sample
-- does to them while the lock is held.
use nrf54l15_tag.Common.{
  ℕ, ◌+◌, ℤ, pos, true, not, ◌&&◌, ◌||◌, ltb, leb, ◌==◌, min, u16, add32, to_int16, if◌then◌else◌,
  length, List, [], ◌∷◌, ◌++◌, Option, none, some,
}
use nrf54l15_tag.Common.Mask
use nrf54l15_tag.SmartTag.{
  SensorData, TagStatus, TagConfig, TagStatistics, EventType, Severity, motion_start, motion_stop,
  shock, free_fall, orientation_change, tamper, info, alarm, alarm_shock, alarm_free_fall,
  alarm_tamper, alarm_sensor_fault, valid_battery,
}
use nrf54l15_tag.Alarms.{AlarmEvent, app_alarms_eval}
use nrf54l15_tag.Motion.Manager.{
  MotionResult, event_start, event_stop, event_shock, event_free_fall, event_orientation,
  event_tamper, orientation_code,
}

abbrev pub max_pending_events : ℕ
max_pending_events = 8

-- What the lock protects. A pending event has the fields of an alarm event; the list is
-- `pending[0 .. pending_count)`.
pub record Core : Type 0 where
  pub status : TagStatus
  pub statistics : TagStatistics
  pub last_sample : SensorData
  pub pending : List AlarmEvent

abbrev pub event : EventType → Severity → ℤ → AlarmEvent
event t s v = record { type = t; severity = s; value = v }

-- queue_event
unfoldable pub queue_event : AlarmEvent → Core → Core
queue_event e k =
    if leb max_pending_events (length k.pending)
    then k
    else record k { pending = k.pending ++ e ∷ [] }

unfoldable pub on_start : MotionResult → Core → Core
unfolding queue_event
on_start r k =
    if Mask.test event_start r.events
    then queue_event (event motion_start info (pos 0)) (record k {
      statistics = record k.statistics { motion_count = add32 k.statistics.motion_count 1 };
      status = record k.status { last_movement_time = k.last_sample.timestamp };
    })
    else k

unfoldable pub on_stop : MotionResult → Core → Core
unfolding queue_event
on_stop r k =
    if Mask.test event_stop r.events
    then (let total = add32 k.status.movement_duration_s r.movement_duration_s in
        queue_event (event motion_stop info (pos (min r.movement_duration_s 32767))) (record k {
          status = record k.status { movement_duration_s = total };
          statistics = record k.statistics { movement_duration_s = total };
        }))
    else k

unfoldable pub raise_max_shock : ℕ → Core → Core
raise_max_shock shock_mg k =
    if ltb k.status.max_shock_mg shock_mg
    then record k {
      status = record k.status { max_shock_mg = shock_mg };
      statistics = record k.statistics { max_shock_mg = shock_mg };
    }
    else k

unfoldable pub on_shock : MotionResult → Core → Core
unfolding queue_event raise_max_shock
on_shock r k =
    if Mask.test event_shock r.events
    then (let count = add32 k.status.shock_count 1 in
        queue_event (event shock alarm (to_int16 r.shock_mg)) (
          raise_max_shock r.shock_mg (record k {
            status = record k.status {
              shock_count = count;
              alarm_flags = Mask.insert alarm_shock k.status.alarm_flags;
            };
            statistics = record k.statistics { shock_count = count };
          })))
    else k

unfoldable pub on_free_fall : MotionResult → Core → Core
unfolding queue_event
on_free_fall r k =
    if Mask.test event_free_fall r.events
    then (let count = add32 k.status.free_fall_count 1 in
        queue_event (event free_fall alarm (pos 0)) (record k {
          status = record k.status {
            free_fall_count = count;
            alarm_flags = Mask.insert alarm_free_fall k.status.alarm_flags;
          };
          statistics = record k.statistics { free_fall_count = count };
        }))
    else k

unfoldable pub on_orientation : MotionResult → Core → Core
unfolding queue_event
on_orientation r k =
    if Mask.test event_orientation r.events
    then queue_event (event orientation_change info (pos (orientation_code r.orientation))) k
    else k

unfoldable pub on_tamper : MotionResult → Core → Core
unfolding queue_event
on_tamper r k =
    if Mask.test event_tamper r.events
    then queue_event (event tamper alarm (pos 0)) (record k {
      status = record k.status {
        tamper = 1;
        alarm_flags = Mask.insert alarm_tamper k.status.alarm_flags;
      };
    })
    else k

-- apply_motion_result
unfoldable pub apply_motion_result : MotionResult → Core → Core
apply_motion_result r k =
    let done =
      on_tamper r (on_orientation r (on_free_fall r (on_shock r (on_stop r (on_start r k))))) in
    record done {
      status = record done.status { motion_state = r.motion_state; orientation = r.orientation };
    }

unfoldable pub queue_all : List AlarmEvent → Core → Core
queue_all [] k = k
queue_all (e ∷ es) k = queue_all es (queue_event e k)

abbrev pub flags_or : ℕ → Option ℕ → ℕ
flags_or before none = before
flags_or before (some f) = f

unfoldable pub count_fault : ℕ → ℕ → TagStatistics → TagStatistics
count_fault before after s =
    if Mask.test alarm_sensor_fault after && not (Mask.test alarm_sensor_fault before)
    then record s { sensor_faults = u16 (s.sensor_faults + 1) }
    else s

unfoldable pub lowest_battery : SensorData → TagStatistics → TagStatistics
lowest_battery d s =
    if Mask.test valid_battery d.valid
      && ((s.min_battery_mv == 0) || ltb d.battery_mv s.min_battery_mv)
    then record s { min_battery_mv = d.battery_mv }
    else s

-- The call of app_alarms_eval, with its local event array.
unfoldable pub evaluate_alarms : SensorData → TagConfig → ℕ → Core → ℕ × List AlarmEvent
evaluate_alarms d c expected k =
    let (flags, out) =
      app_alarms_eval (some d) (some c) expected (some k.status.alarm_flags)
        (record { writable = true; items = [] }) in
    (flags_or k.status.alarm_flags flags, out.items)

-- check_thresholds
unfoldable pub check_thresholds : SensorData → TagConfig → ℕ → Core → Core
check_thresholds d c expected k =
    let (flags, events) = evaluate_alarms d c expected k in
    queue_all events (record k {
      status = record k.status { alarm_flags = flags };
      statistics = lowest_battery d (count_fault k.status.alarm_flags flags k.statistics);
    })

-- The block of app_process_sensor_data that holds the lock: `d` is the sample as the motion manager
-- left it.
unfoldable pub update_core : SensorData → MotionResult → TagConfig → ℕ → Core → Core
update_core d r c expected k =
    let checked =
      check_thresholds d c expected (apply_motion_result r (record k { last_sample = d })) in
    record checked {
      status = record checked.status { operating_mode = c.operating_mode };
      statistics = record checked.statistics { total_uptime_s = d.timestamp };
    }
