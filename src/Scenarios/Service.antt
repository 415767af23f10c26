-- ===== src/Scenarios/Service.antt =====
-- Runs of the application state, over logs that count their records.
use nrf54l15_tag.Common.{
  ℕ, ◌+◌, ◌≡◌, refl, pos, true, false, List, [], ◌∷◌, ◌++◌, none, arith, take,
}
use nrf54l15_tag.SmartTag.{config_defaults, zero_statistics, moving, z_up}
use nrf54l15_tag.SmartTag.{config_changed, info}
use nrf54l15_tag.Motion.Manager.{MotionResult, motion_manager_init, motion_manager_process}
use nrf54l15_tag.AppConfig.Sync as ConfigSync
use nrf54l15_tag.AppConfig.Sync.{IsSynced, ConfigCall, set, set_mode, reset, calls-IsSynced}
use nrf54l15_tag.AppState.Locked.{Core, update_core, evaluate_alarms, apply_motion_result}
use nrf54l15_tag.AppState.Service.{Logs, App, AppPhase, app_state_init, app_process_sensor_data}
use nrf54l15_tag.AppState.Queue.{motion_events, called_events, update_core-pending}
use nrf54l15_tag.AppState.Counters.{
  AppCall, process, raise_event, set_time, snapshot, reset_counters, IsMirrored, calls,
  calls-IsMirrored,
}
use nrf54l15_tag.AppState.Fanout.{Reported, process-Reported}
use nrf54l15_tag.Scenarios.{
  calm, knock, drop_sample, still_status, used_statistics, shipping_config,
}
use nrf54l15_tag.Scenarios.Storing.{Blobs, flash_settings, fresh}

-- How many events and how many samples are kept.
pub record Counts : Type 0 where
  pub events : ℕ
  pub samples : ℕ

abbrev pub counting_logs : Logs
counting_logs = record {
  LogStore = Counts;
  event_log_add = λ e s. (record s { events = s.events + 1 }, none);
  sensor_log_add = λ r s. (record s { samples = s.samples + 1 }, none);
  event_log_clear = λ s. (record s { events = 0 }, none);
  sensor_log_clear = λ s. (record s { samples = 0 }, none);
}

abbrev fresh_core : Core
fresh_core = record {
  status = still_status;
  statistics = zero_statistics;
  last_sample = calm;
  pending = [];
}

abbrev pub fresh_app : App Blobs Counts
fresh_app = record {
  phase = AppPhase.boot;
  core = fresh_core;
  subscribers =
      record { on_sensor_data = true; on_event = true }
      ∷ record { on_sensor_data = false; on_event = true }
      ∷ [];
  last_stats_flush = 0;
  config_state = fresh;
  logs = record { events = 0; samples = 0 };
  expected_valid = 63;
  uptime_s = 160;
  notices = [];
  rebooted = false;
}

abbrev start_result : MotionResult
start_result = record {
  events = 5;
  shock_mg = 5500;
  orientation = z_up;
  motion_state = moving;
  movement_duration_s = 0;
}

abbrev morning : List AppCall
morning =
    process calm
    ∷ process knock
    ∷ set_time 1760000000
    ∷ process drop_sample
    ∷ snapshot
    ∷ raise_event config_changed info (pos 2)
    ∷ reset_counters
    ∷ process knock
    ∷ []

abbrev changes : List (ConfigCall flash_settings)
changes = set shipping_config ∷ set_mode 9 ∷ reset ∷ []

fresh-IsSynced : IsSynced fresh
unfolding motion_manager_init
fresh-IsSynced = record {
  in_range = omega arith;
  motion_follows = refl;
  led_follows = refl;
  storage_follows = refl;
}

calls-IsSynced_example :
    let settings = flash_settings in
    let st = fresh in
    let cs : List (ConfigCall flash_settings) = changes in
    IsSynced (ConfigSync.calls settings cs st)
calls-IsSynced_example = calls-IsSynced flash_settings changes fresh fresh-IsSynced

calls-IsMirrored_example :
    let settings = flash_settings in
    let logging = counting_logs in
    let stored = used_statistics in
    let a = fresh_app in
    let cs : List AppCall = morning in
    IsMirrored (calls settings logging cs (record a { core = app_state_init stored a.core })).core
calls-IsMirrored_example =
    calls-IsMirrored flash_settings counting_logs used_statistics fresh_app morning

process-Reported_example :
    let settings = flash_settings in
    let logging = counting_logs in
    let d = knock in
    let a = fresh_app in
    let p = motion_manager_process d a.config_state.motion in
    Reported settings logging
      (take 8 (called_events p.sample p.result a.config_state.config a.expected_valid a.core))
      (record p.sample { orientation = p.result.orientation })
      a
      (app_process_sensor_data settings logging d a)
process-Reported_example = process-Reported flash_settings counting_logs knock fresh_app refl

update_core-pending_example :
    let d = knock in
    let r = start_result in
    let c = config_defaults in
    let x : ℕ = 63 in
    let k = fresh_core in
    (update_core d r c x k).pending
    ≡ take 8 (
        motion_events r
        ++ (evaluate_alarms d c x (apply_motion_result r (record k { last_sample = d }))).1)
update_core-pending_example =
    update_core-pending knock start_result config_defaults 63 fresh_core refl
