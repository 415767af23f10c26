-- ===== src/AppState/Service.antt =====
-- src/app/app_state.c: the functions that the module offers.
--
-- The two flash logs are the parameter `Logs`, the settings subsystem is `Settings`. A subscriber is
-- whether each of its callbacks is set; what the callbacks are given is collected in `notices`, in
-- the order of the calls. The kernel's uptime is a field, which stands still during a call. One call
-- runs at a time: the mutex is not modelled.
use nrf54l15_tag.Common.{
  ℕ, ◌+◌, ℤ, pos, Bool, true, false, not, ◌||◌, leb, ◌==◌, max, u32, add32, sub32, to_int16,
  if◌then◌else◌, List, [], ◌∷◌, ◌++◌, Option, none, some, Status, einval, enotsup,
}
use nrf54l15_tag.Common.Mask
use nrf54l15_tag.SmartTag.{
  SensorData, SensorLogRecord, EventRecord, TagStatistics, EventType, Severity, alarm, info,
  warning, config_changed, time_set, factory_reset, stationary, unknown, alarm_shock,
  alarm_free_fall, alarm_tamper, valid_gas, fill_log_record, boot_epoch_utc, gas_alarm_floor,
}
use nrf54l15_tag.Alarms.{AlarmEvent}
use nrf54l15_tag.Motion.Manager.{Pass, motion_manager_process, motion_manager_clear_tamper}
use nrf54l15_tag.Led
use nrf54l15_tag.Led.{LedManager, led_manager_set}
use nrf54l15_tag.Storage.ConfigStorage.{
  Settings, config_storage_save_statistics, config_storage_factory_reset,
}
use nrf54l15_tag.AppConfig.{ConfigState, app_config_set, app_config_reset}
use nrf54l15_tag.AppState.Locked.{Core, update_core}

abbrev pub stats_flush_interval_s : ℕ
stats_flush_interval_s = 3600

-- app_state_t
pub data AppPhase : Type 0 where
  boot init zigbee_start running service sleep : AppPhase

abbrev pub phase_code : AppPhase → ℕ
phase_code boot = 0
phase_code init = 1
phase_code zigbee_start = 2
phase_code running = 3
phase_code service = 4
phase_code sleep = 5

-- struct app_subscriber
pub record Subscriber : Type 0 where
  pub on_sensor_data : Bool
  pub on_event : Bool

-- One callback made: to which subscriber, by its place in the list, and with what.
pub data Notice : Type 0 where
  sensor_notice : ℕ → SensorData → Notice
  event_notice : ℕ → EventRecord → Notice

-- The event log and the sensor history.
pub record Logs : Type 1 where
  pub LogStore : Type 0
  pub event_log_add : EventRecord → LogStore → LogStore × Status
  pub sensor_log_add : SensorLogRecord → LogStore → LogStore × Status
  pub event_log_clear : LogStore → LogStore × Status
  pub sensor_log_clear : LogStore → LogStore × Status

-- The static state of the file, with the modules that it calls.
pub record App (S L : Type 0) : Type 0 where
  pub phase : AppPhase
  pub core : Core
  pub subscribers : List Subscriber
  pub last_stats_flush : ℕ
  pub config_state : ConfigState S
  pub logs : L
  pub expected_valid : ℕ
  pub uptime_s : ℕ
  pub notices : List Notice
  pub rebooted : Bool

unfoldable pub sensor_notices : ℕ → SensorData → List Subscriber → List Notice
sensor_notices i d [] = []
sensor_notices i d (s ∷ ss) =
    let rest = sensor_notices (i + 1) d ss in
    if s.on_sensor_data then sensor_notice i d ∷ rest else rest

unfoldable pub event_notices : ℕ → EventRecord → List Subscriber → List Notice
event_notices i e [] = []
event_notices i e (s ∷ ss) =
    let rest = event_notices (i + 1) e ss in if s.on_event then event_notice i e ∷ rest else rest

-- app_state_init, over the statistics that config_storage_load_statistics gives.
unfoldable pub app_state_init : TagStatistics → Core → Core
app_state_init stored k =
    let statistics = record stored { boot_count = add32 stored.boot_count 1 } in
    record k {
      statistics = statistics;
      status = record k.status {
        motion_state = stationary;
        orientation = unknown;
        shock_count = statistics.shock_count;
        free_fall_count = statistics.free_fall_count;
        event_count = statistics.event_count;
        max_shock_mg = statistics.max_shock_mg;
        movement_duration_s = statistics.movement_duration_s;
      };
    }

-- The counters that app_raise_event keeps.
unfoldable pub count_event : Core → Core
count_event k =
    let count = add32 k.status.event_count 1 in
    record k {
      status = record k.status { event_count = count };
      statistics = record k.statistics { event_count = count };
    }

-- The block of app_state_reset_counters that holds the lock.
unfoldable pub clear_counters : Core → Core
clear_counters k = record k {
  status = record k.status {
    shock_count = 0;
    free_fall_count = 0;
    event_count = 0;
    max_shock_mg = 0;
    movement_duration_s = 0;
    tamper = 0;
    alarm_flags =
        Mask.remove alarm_tamper
          (Mask.remove alarm_free_fall (Mask.remove alarm_shock k.status.alarm_flags));
  };
  statistics = record k.statistics {
    shock_count = 0;
    free_fall_count = 0;
    event_count = 0;
    max_shock_mg = 0;
    movement_duration_s = 0;
  };
}

module _ (settings : Settings) (logging : Logs) where
  open settings use {Store}
  open logging use {LogStore, event_log_add, sensor_log_add, event_log_clear, sensor_log_clear}

  -- app_state_subscribe. A NULL subscriber is `none`.
  unfoldable pub app_state_subscribe : Option Subscriber → App Store LogStore → App Store LogStore
  app_state_subscribe none a = a
  app_state_subscribe (some s) a =
      if leb (phase_code running) (phase_code a.phase)
      then a
      else record a { subscribers = a.subscribers ++ s ∷ [] }

  -- app_state_set
  unfoldable pub app_state_set : AppPhase → App Store LogStore → App Store LogStore
  app_state_set p a = record a { phase = p }

  unfoldable pub set_alarm_led : Bool → App Store LogStore → App Store LogStore
  set_alarm_led on a = record a {
    config_state = record a.config_state {
      led = led_manager_set Led.LedState.alarm on a.config_state.led;
    };
  }

  abbrev is_alarm : Severity → Bool
  is_alarm alarm = true
  is_alarm _ = false

  -- app_raise_event
  unfoldable pub app_raise_event :
      EventType → Severity → ℤ → App Store LogStore → App Store LogStore × Status
  unfolding set_alarm_led count_event
  app_raise_event t s v a =
      let r : EventRecord = record {
        timestamp = u32 a.uptime_s;
        type = t;
        severity = s;
        value = v;
      } in
      let (logs, err) = event_log_add r a.logs in
      let counted = record a { logs = logs; core = count_event a.core } in
      let lit = if is_alarm s then set_alarm_led true counted else counted in
      (record lit { notices = lit.notices ++ event_notices 0 r lit.subscribers }, err)

  -- The loop of drain_pending_events over its batch.
  unfoldable pub raise_all : List AlarmEvent → App Store LogStore → App Store LogStore
  raise_all [] a = a
  raise_all (e ∷ es) a = raise_all es (app_raise_event e.type e.severity e.value a).0

  -- drain_pending_events
  unfoldable pub drain_pending_events : App Store LogStore → App Store LogStore
  drain_pending_events a =
      raise_all a.core.pending (record a { core = record a.core { pending = [] } })

  -- app_state_flush_statistics
  unfoldable pub app_state_flush_statistics : App Store LogStore → App Store LogStore
  app_state_flush_statistics a = record a {
    config_state = record a.config_state {
      storage =
          (config_storage_save_statistics settings a.core.statistics a.config_state.storage).0;
    };
  }

  -- The end of app_process_sensor_data: the periodic flush.
  unfoldable pub flush_if_due : ℕ → App Store LogStore → App Store LogStore
  flush_if_due now a =
      if leb stats_flush_interval_s (sub32 now a.last_stats_flush)
      then app_state_flush_statistics (record a { last_stats_flush = now })
      else a

  -- The locked part of app_process_sensor_data, after the motion manager.
  unfoldable pub absorb : Pass → App Store LogStore → App Store LogStore
  absorb p a = record a {
    core = update_core p.sample p.result a.config_state.config a.expected_valid a.core;
    config_state = record a.config_state { motion = p.manager };
  }

  unfoldable pub add_history : SensorData → Bool → App Store LogStore → App Store LogStore
  add_history d alarmed a =
      if a.config_state.config.sensor_history_enabled == 0
      then a
      else record a { logs = (sensor_log_add (fill_log_record d alarmed) a.logs).0 }

  unfoldable pub clear_alarm_led : Bool → App Store LogStore → App Store LogStore
  unfolding set_alarm_led
  clear_alarm_led alarmed a = if not alarmed then set_alarm_led false a else a

  unfoldable pub notify_sensor_data : SensorData → App Store LogStore → App Store LogStore
  notify_sensor_data d a = record a { notices = a.notices ++ sensor_notices 0 d a.subscribers }

  -- What follows the lock: history, pending events, alarm LED, subscribers, flush. `d` is the sample
  -- as it is handed on.
  unfoldable pub publish : SensorData → Bool → App Store LogStore → App Store LogStore
  publish d alarmed a = flush_if_due d.timestamp (
      notify_sensor_data d
        (clear_alarm_led alarmed (drain_pending_events (add_history d alarmed a))))

  -- app_process_sensor_data
  unfoldable pub app_process_sensor_data : SensorData → App Store LogStore → App Store LogStore
  app_process_sensor_data d a =
      let p = motion_manager_process d a.config_state.motion in
      let b = absorb p a in
      publish (record p.sample { orientation = b.core.status.orientation })
        (not (b.core.status.alarm_flags == 0)) b

  -- app_state_set_time_utc
  unfoldable pub app_state_set_time_utc : ℕ → App Store LogStore → App Store LogStore × Status
  app_state_set_time_utc utc_now a =
      let epoch = boot_epoch_utc utc_now (u32 a.uptime_s) in
      if epoch == 0
      then (a, some einval)
      else let core = record a.core {
        statistics = record a.core.statistics { boot_epoch_utc = epoch };
      } in
        let flushed = app_state_flush_statistics (record a { core = core }) in
        ((app_raise_event time_set info (pos 0) flushed).0, none)

  unfoldable pub snapshot_applied :
      App Store LogStore × Status → ℕ → ℕ → App Store LogStore × Status × Option ℕ
  snapshot_applied (a, some err) floor mode = (a, some err, none)
  snapshot_applied (a, none) floor mode =
      ((app_raise_event config_changed info (to_int16 mode) a).0, none, some floor)

  unfoldable pub set_config :
      App Store LogStore → ConfigState Store × Status → App Store LogStore × Status
  set_config a (c, status) = (record a { config_state = c }, status)

  -- app_state_snapshot_gas_baseline: with the threshold that it writes through its pointer.
  unfoldable pub app_state_snapshot_gas_baseline :
      App Store LogStore → App Store LogStore × Status × Option ℕ
  app_state_snapshot_gas_baseline a =
      let sample = a.core.last_sample in
      if not (Mask.test valid_gas sample.valid) || (sample.gas_resistance_ohm == 0)
      then (a, some enotsup, none)
      else let floor = max (gas_alarm_floor sample.gas_resistance_ohm) 1 in
        let config = record a.config_state.config { gas_low_threshold_ohm = floor } in
        snapshot_applied (set_config a (app_config_set settings config a.config_state)) floor
          config.operating_mode

  -- app_state_reset_counters
  unfoldable pub app_state_reset_counters : App Store LogStore → App Store LogStore
  app_state_reset_counters a =
      let cleared = record a {
        core = clear_counters a.core;
        config_state = record a.config_state {
          motion = motion_manager_clear_tamper a.config_state.motion;
        };
      } in
      app_state_flush_statistics (set_alarm_led false cleared)

  -- app_state_factory_reset
  unfoldable pub app_state_factory_reset : App Store LogStore → App Store LogStore
  app_state_factory_reset a =
      let raised = (app_raise_event factory_reset warning (pos 0) (set_alarm_led true a)).0 in
      let erased = record raised { logs = (sensor_log_clear (event_log_clear raised.logs).0).0 } in
      let storage = (config_storage_factory_reset settings erased.config_state.storage).0 in
      let emptied = record erased.config_state { storage = storage } in
      record erased { config_state = (app_config_reset settings emptied).0; rebooted = true }
