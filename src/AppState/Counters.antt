-- ===== src/AppState/Counters.antt =====
-- The counters that src/app/app_state.c keeps twice, in the live status and in the statistics.
use nrf54l15_tag.Common.{
  ℕ, ◌≡◌, ℤ, Bool, true, false, Bool-cases, inl, inr, refl, arith, List, [], ◌∷◌, Option, none,
  some, not, ◌||◌, ◌==◌, leb, sub32, u32, to_int16, Status,
}
use nrf54l15_tag.Common.Mask
use nrf54l15_tag.SmartTag.{
  SensorData, TagConfig, TagStatistics, EventType, Severity, info, warning, alarm, config_changed,
  valid_gas, boot_epoch_utc,
}
use nrf54l15_tag.Alarms.{AlarmEvent}
use nrf54l15_tag.Motion.Manager.{MotionResult, motion_manager_process}
use nrf54l15_tag.Storage.ConfigStorage.{Settings}
use nrf54l15_tag.AppState.Locked.{
  Core, queue_event, on_start, on_stop, on_shock, on_free_fall, on_orientation, on_tamper,
  apply_motion_result, queue_all, count_fault, lowest_battery, evaluate_alarms, check_thresholds,
  update_core,
}
use nrf54l15_tag.AppState.Service.{
  Logs, App, AppPhase, Subscriber, app_state_init, count_event, clear_counters, app_state_subscribe,
  app_state_set, app_raise_event, raise_all, drain_pending_events, app_state_flush_statistics,
  set_alarm_led, add_history, clear_alarm_led, notify_sensor_data, phase_code,
  stats_flush_interval_s, absorb, publish, flush_if_due, app_process_sensor_data,
  app_state_set_time_utc, snapshot_applied, set_config, app_state_snapshot_gas_baseline,
  app_state_reset_counters,
}

-- Both copies of the five counters agree.
pub record IsMirrored (k : Core) : Type 0 where
  pub shocks : k.status.shock_count ≡ k.statistics.shock_count
  pub free_falls : k.status.free_fall_count ≡ k.statistics.free_fall_count
  pub events : k.status.event_count ≡ k.statistics.event_count
  pub max_shock : k.status.max_shock_mg ≡ k.statistics.max_shock_mg
  pub movement : k.status.movement_duration_s ≡ k.statistics.movement_duration_s

module _ (r : MotionResult) (k : Core) (m : IsMirrored k) where
  start-IsMirrored : IsMirrored (on_start r k)
  unfolding on_start
  start-IsMirrored = ground arith

  stop-IsMirrored : IsMirrored (on_stop r k)
  unfolding on_stop
  stop-IsMirrored = ground arith

  shock-IsMirrored : IsMirrored (on_shock r k)
  unfolding on_shock
  shock-IsMirrored = ground arith

  free_fall-IsMirrored : IsMirrored (on_free_fall r k)
  unfolding on_free_fall
  free_fall-IsMirrored = ground arith

  orientation-IsMirrored : IsMirrored (on_orientation r k)
  unfolding on_orientation
  orientation-IsMirrored = ground arith

  tamper-IsMirrored : IsMirrored (on_tamper r k)
  unfolding on_tamper
  tamper-IsMirrored = ground arith

motion-IsMirrored :
    (r : MotionResult) (k : Core) → IsMirrored k → IsMirrored (apply_motion_result r k)
unfolding apply_motion_result
motion-IsMirrored r k m =
    let a = on_start r k in
    let b = on_stop r a in
    let c = on_shock r b in
    let d = on_free_fall r c in
    let e = on_orientation r d in
    let ma = start-IsMirrored r k m in
    let mb = stop-IsMirrored r a ma in
    let mc = shock-IsMirrored r b mb in
    let md = free_fall-IsMirrored r c mc in
    let me = orientation-IsMirrored r d md in
    let mf = tamper-IsMirrored r e me in ground (arith, mf)

queue_event-IsMirrored : (e : AlarmEvent) (k : Core) → IsMirrored k → IsMirrored (queue_event e k)
unfolding queue_event
queue_event-IsMirrored e k m = ground arith

queue_all-IsMirrored :
    (es : List AlarmEvent) (k : Core) → IsMirrored k → IsMirrored (queue_all es k)
unfolding queue_all
queue_all-IsMirrored [] k m = m
queue_all-IsMirrored (e ∷ es) k m =
    queue_all-IsMirrored es (queue_event e k) (queue_event-IsMirrored e k m)

thresholds-IsMirrored :
    (d : SensorData) (c : TagConfig) (x : ℕ) (k : Core)
    → IsMirrored k
    → IsMirrored (check_thresholds d c x k)
unfolding check_thresholds count_fault lowest_battery
thresholds-IsMirrored d c x k m =
    let (flags, events) = evaluate_alarms d c x k in
    queue_all-IsMirrored events
      (record k {
        status = record k.status { alarm_flags = flags };
        statistics = lowest_battery d (count_fault k.status.alarm_flags flags k.statistics);
      })
      (ground (arith, m))

update_core-IsMirrored :
    (d : SensorData) (r : MotionResult) (c : TagConfig) (x : ℕ) (k : Core)
    → IsMirrored k
    → IsMirrored (update_core d r c x k)
unfolding update_core
update_core-IsMirrored d r c x k m =
    let s = record k { last_sample = d } in
    let moved = motion-IsMirrored r s (ground (arith, m)) in
    let checked = thresholds-IsMirrored d c x (apply_motion_result r s) moved in
    ground (arith, checked)

count_event-IsMirrored : (k : Core) → IsMirrored k → IsMirrored (count_event k)
unfolding count_event
count_event-IsMirrored k m = ground arith

clear_counters-IsMirrored : (k : Core) → IsMirrored (clear_counters k)
unfolding clear_counters
clear_counters-IsMirrored k = ground arith

-- Start-up makes the two copies agree, whatever statistics were stored.
init-IsMirrored : (stored : TagStatistics) (k : Core) → IsMirrored (app_state_init stored k)
unfolding app_state_init
init-IsMirrored stored k = ground arith

-- A call that reaches the module, with its arguments.
pub data AppCall : Type 0 where
  process : SensorData → AppCall
  raise_event : EventType → Severity → ℤ → AppCall
  subscribe : Option Subscriber → AppCall
  set_phase : AppPhase → AppCall
  set_time : ℕ → AppCall
  snapshot : AppCall
  flush : AppCall
  reset_counters : AppCall

module _ (settings : Settings) (logging : Logs) where
  unfoldable pub call :
      AppCall → App settings.Store logging.LogStore → App settings.Store logging.LogStore
  call (process d) a = app_process_sensor_data settings logging d a
  call (raise_event t s v) a = (app_raise_event settings logging t s v a).0
  call (subscribe s) a = app_state_subscribe settings logging s a
  call (set_phase p) a = app_state_set settings logging p a
  call (set_time n) a = (app_state_set_time_utc settings logging n a).0
  call snapshot a = (app_state_snapshot_gas_baseline settings logging a).0
  call flush a = app_state_flush_statistics settings logging a
  call reset_counters a = app_state_reset_counters settings logging a

  unfoldable pub calls :
      List AppCall → App settings.Store logging.LogStore → App settings.Store logging.LogStore
  calls [] a = a
  calls (c ∷ cs) a = calls cs (call c a)

module _ (settings : Settings) (logging : Logs) where
  open settings use {Store}
  open logging use {LogStore}

  abbrev Tag : Type 0
  Tag = App Store LogStore

  raise-IsMirrored :
      (t : EventType) (s : Severity) (v : ℤ) (a : Tag)
      → IsMirrored a.core
      → IsMirrored (app_raise_event settings logging t s v a).0.core
  unfolding app_raise_event
  raise-IsMirrored t info v a m = count_event-IsMirrored a.core m
  raise-IsMirrored t warning v a m = count_event-IsMirrored a.core m
  raise-IsMirrored t alarm v a m = count_event-IsMirrored a.core m

  raise_all-IsMirrored :
      (es : List AlarmEvent) (a : Tag)
      → IsMirrored a.core
      → IsMirrored (raise_all settings logging es a).core
  unfolding raise_all
  raise_all-IsMirrored [] a m = m
  raise_all-IsMirrored (e ∷ es) a m =
      raise_all-IsMirrored es (app_raise_event settings logging e.type e.severity e.value a).0
        (raise-IsMirrored e.type e.severity e.value a m)

  drain-IsMirrored :
      (a : Tag) → IsMirrored a.core → IsMirrored (drain_pending_events settings logging a).core
  unfolding drain_pending_events
  drain-IsMirrored a m =
      raise_all-IsMirrored a.core.pending (record a { core = record a.core { pending = [] } })
        (ground (arith, m))

  flush-IsMirrored :
      (a : Tag)
      → IsMirrored a.core
      → IsMirrored (app_state_flush_statistics settings logging a).core
  unfolding app_state_flush_statistics
  flush-IsMirrored a m = m

  history-core :
      (d : SensorData) (b : Bool) (a : Tag) → (add_history settings logging d b a).core ≡ a.core
  unfolding add_history
  history-core d b a = elim (Bool-cases (a.config_state.config.sensor_history_enabled == 0)) [
    | inl off ↦ rw off
    | inr on ↦ rw on
  ]

  led-core : (b : Bool) (a : Tag) → (clear_alarm_led settings logging b a).core ≡ a.core
  unfolding clear_alarm_led
  led-core true a = refl
  led-core false a = refl

  due-core : (now : ℕ) (a : Tag) → (flush_if_due settings logging now a).core ≡ a.core
  unfolding flush_if_due app_state_flush_statistics
  due-core now a = elim (Bool-cases (leb stats_flush_interval_s (sub32 now a.last_stats_flush))) [
    | inl yes_due ↦ rw yes_due
    | inr not_due ↦ rw not_due
  ]

  publish-IsMirrored :
      (d : SensorData) (alarmed : Bool) (a : Tag)
      → IsMirrored a.core
      → IsMirrored (publish settings logging d alarmed a).core
  unfolding publish notify_sensor_data
  publish-IsMirrored d alarmed a m =
      let stored = add_history settings logging d alarmed a in
      let drained = drain_pending_events settings logging stored in
      let lit = clear_alarm_led settings logging alarmed drained in
      let noted = notify_sensor_data settings logging d lit in
      rw (due-core d.timestamp noted, led-core alarmed drained)
        (drain-IsMirrored stored (rw (history-core d alarmed a) m))

  process-IsMirrored :
      (d : SensorData) (a : Tag)
      → IsMirrored a.core
      → IsMirrored (app_process_sensor_data settings logging d a).core
  unfolding app_process_sensor_data absorb
  process-IsMirrored d a m =
      let p = motion_manager_process d a.config_state.motion in
      let b = absorb settings logging p a in
      publish-IsMirrored (record p.sample { orientation = b.core.status.orientation })
        (not (b.core.status.alarm_flags == 0)) b
        (update_core-IsMirrored p.sample p.result a.config_state.config a.expected_valid a.core m)

  time-IsMirrored :
      (n : ℕ) (a : Tag)
      → IsMirrored a.core
      → IsMirrored (app_state_set_time_utc settings logging n a).0.core
  unfolding app_state_set_time_utc app_state_flush_statistics app_raise_event count_event
  time-IsMirrored n a m = elim (Bool-cases (boot_epoch_utc n (u32 a.uptime_s) == 0)) [
    | inl bad ↦ rw bad m
    | inr good ↦ rw good (
        count_event-IsMirrored
          (record a.core {
            statistics = record a.core.statistics {
              boot_epoch_utc = boot_epoch_utc n (u32 a.uptime_s);
            };
          })
          (ground (arith, m)))
  ]

  applied-IsMirrored :
      (r : Tag × Status) (floor mode : ℕ)
      → IsMirrored r.0.core
      → IsMirrored (snapshot_applied settings logging r floor mode).0.core
  unfolding snapshot_applied
  applied-IsMirrored (a, none) floor mode m =
      raise-IsMirrored config_changed info (to_int16 mode) a m
  applied-IsMirrored (a, some err) floor mode m = m

  snapshot-IsMirrored :
      (a : Tag)
      → IsMirrored a.core
      → IsMirrored (app_state_snapshot_gas_baseline settings logging a).0.core
  unfolding app_state_snapshot_gas_baseline set_config
  snapshot-IsMirrored a m =
      elim (Bool-cases (
        not (Mask.test valid_gas a.core.last_sample.valid)
        || (a.core.last_sample.gas_resistance_ohm == 0))) [
          | inl missing ↦ rw missing m
          | inr present ↦ rw present (applied-IsMirrored _ _ _ m)
        ]

  pub call-IsMirrored :
      (c : AppCall) (a : Tag) → IsMirrored a.core → IsMirrored (call settings logging c a).core
  unfolding call app_state_reset_counters app_state_flush_statistics app_state_subscribe
      app_state_set set_alarm_led
  call-IsMirrored (process d) a m = process-IsMirrored d a m
  call-IsMirrored (raise_event t s v) a m = raise-IsMirrored t s v a m
  call-IsMirrored (subscribe none) a m = m
  call-IsMirrored (subscribe (some s)) a m = elim (Bool-cases (leb 3 (phase_code a.phase))) [
    | inl late ↦ rw late m
    | inr early ↦ rw early m
  ]
  call-IsMirrored (set_phase p) a m = m
  call-IsMirrored (set_time n) a m = time-IsMirrored n a m
  call-IsMirrored snapshot a m = snapshot-IsMirrored a m
  call-IsMirrored flush a m = m
  call-IsMirrored reset_counters a m = clear_counters-IsMirrored a.core

  from :
      (cs : List AppCall) (a : Tag)
      → IsMirrored a.core
      → IsMirrored (calls settings logging cs a).core
  unfolding calls
  from [] a m = m
  from (c ∷ cs) a m = from cs (call settings logging c a) (call-IsMirrored c a m)

  -- From start-up on, whatever statistics were stored and whatever calls are made with whatever
  -- arguments, the live shock, free-fall and event counts, the hardest shock and the time of
  -- movement are those of the statistics.
  pub calls-IsMirrored :
      (stored : TagStatistics) (a : Tag) (cs : List AppCall)
      → IsMirrored
          (calls settings logging cs (record a { core = app_state_init stored a.core })).core
  calls-IsMirrored stored a cs =
      from cs (record a { core = app_state_init stored a.core }) (init-IsMirrored stored a.core)
