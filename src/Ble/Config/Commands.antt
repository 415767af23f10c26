-- ===== src/Ble/Config/Commands.antt =====
-- What every command of src/ble/ble_config.c does.
use nrf54l15_tag.Common.{
  ℕ, ◌≤◌, ◌≡◌, pos, true, refl, length, take, length-take-le, List, [], ◌∷◌, ◌++◌, Option, none,
  some, Status, enotsup,
}
use nrf54l15_tag.SmartTag.{EventType, warning}
use nrf54l15_tag.Storage.Layout.{le32, statistics_bytes}
use nrf54l15_tag.Storage.ConfigStorage.{Settings}
use nrf54l15_tag.AppConfig.{app_config_set_mode}
use nrf54l15_tag.AppState.Service.{
  Logs, App, app_state_reset_counters, app_state_set_time_utc, app_state_snapshot_gas_baseline,
  app_state_factory_reset, set_alarm_led,
}
use nrf54l15_tag.AppState.Counters.{AppCall, call, IsMirrored, call-IsMirrored}
use nrf54l15_tag.Ble.Config.{
  BleCmd, identify, clear_event_log, clear_sensor_log, reset_counters, factory_reset, sample_now,
  set_mode, clear_alarms, reboot, start_calibration, set_time, snapshot_gas_baseline, cmd_of,
  CmdRequest, CmdResponse, Desk, payload_max, send_response, clear_log, respond_mode, respond_time,
  respond_floor, run_command, run_or_refuse, command_work_fn,
}

-- From d to e one response was given, to the opcode, and its payload fits.
abbrev pub AnswersOnce : {S L : Type 0} → ℕ → Desk S L → Desk S L → Type 0
AnswersOnce opcode d e =
    (x : CmdResponse) × (e.responses ≡ d.responses ++ x ∷ [])
    × (x.opcode ≡ opcode)
    × (length x.payload ≤ 32)

module _ (settings : Settings) (logging : Logs) where
  open settings use {Store}
  open logging use {LogStore}

  sent :
      (opcode : ℕ) (status : Status) (payload : List ℕ) (d : Desk Store LogStore)
      → AnswersOnce opcode d (send_response settings logging opcode status payload d)
  unfolding send_response
  sent opcode status payload d =
      let x : CmdResponse = record {
        opcode = opcode;
        status = status;
        payload = take payload_max payload;
      } in
      (x, refl, refl, length-take-le payload_max payload)

  time_once :
      (opcode : ℕ) (x : App Store LogStore × Status) (d : Desk Store LogStore)
      → AnswersOnce opcode d (respond_time settings logging opcode x d)
  unfolding respond_time send_response
  time_once opcode (a, none) d = sent opcode none (le32 a.core.statistics.boot_epoch_utc) d
  time_once opcode (a, some err) d = sent opcode (some err) [] d

  floor_once :
      (opcode : ℕ) (x : App Store LogStore × Status × Option ℕ) (d : Desk Store LogStore)
      → AnswersOnce opcode d (respond_floor settings logging opcode x d)
  unfolding respond_floor send_response
  floor_once opcode (a, err, none) d = sent opcode err [] d
  floor_once opcode (a, err, some floor) d = sent opcode err (le32 floor) d

  run_command_once :
      (c : BleCmd) (r : CmdRequest) (d : Desk Store LogStore)
      → AnswersOnce r.opcode d (run_command settings logging c r d)
  unfolding run_command send_response clear_log respond_mode
  run_command_once identify r d = sent r.opcode none [] d
  run_command_once clear_event_log r d = sent r.opcode (logging.event_log_clear d.app.logs).1 [] d
  run_command_once clear_sensor_log r d = sent r.opcode (logging.sensor_log_clear d.app.logs).1 [] d
  run_command_once reset_counters r d =
      let a = app_state_reset_counters settings logging d.app in
      sent r.opcode none (statistics_bytes a.core.statistics) d
  run_command_once clear_alarms r d = sent r.opcode none [] d
  run_command_once sample_now r d = sent r.opcode none [] d
  run_command_once set_mode r d =
      sent r.opcode (app_config_set_mode settings r.argument d.app.config_state).1 [] d
  run_command_once start_calibration r d = sent r.opcode (some enotsup) [] d
  run_command_once set_time r d =
      time_once r.opcode (app_state_set_time_utc settings logging r.argument d.app) d
  run_command_once snapshot_gas_baseline r d =
      floor_once r.opcode (app_state_snapshot_gas_baseline settings logging d.app) d
  run_command_once factory_reset r d = sent r.opcode none [] d
  run_command_once reboot r d = sent r.opcode none [] d

  or_refuse_once :
      (c : Option BleCmd) (r : CmdRequest) (d : Desk Store LogStore)
      → AnswersOnce r.opcode d (run_or_refuse settings logging c r d)
  unfolding run_or_refuse
  or_refuse_once none r d = sent r.opcode (some enotsup) [] d
  or_refuse_once (some c) r d = run_command_once c r d

  time-IsMirrored :
      (opcode : ℕ) (x : App Store LogStore × Status) (d : Desk Store LogStore)
      → IsMirrored x.0.core
      → IsMirrored (respond_time settings logging opcode x d).app.core
  unfolding respond_time send_response
  time-IsMirrored opcode (a, none) d m = m
  time-IsMirrored opcode (a, some err) d m = m

  floor-IsMirrored :
      (opcode : ℕ) (x : App Store LogStore × Status × Option ℕ) (d : Desk Store LogStore)
      → IsMirrored x.0.core
      → IsMirrored (respond_floor settings logging opcode x d).app.core
  unfolding respond_floor send_response
  floor-IsMirrored opcode (a, err, none) d m = m
  floor-IsMirrored opcode (a, err, some floor) d m = m

  run_command-IsMirrored :
      (c : BleCmd) (r : CmdRequest) (d : Desk Store LogStore)
      → IsMirrored d.app.core
      → IsMirrored (run_command settings logging c r d).app.core
  unfolding run_command send_response clear_log respond_mode call app_state_factory_reset
      set_alarm_led
  run_command-IsMirrored identify r d m = m
  run_command-IsMirrored clear_event_log r d m = m
  run_command-IsMirrored clear_sensor_log r d m = m
  run_command-IsMirrored reset_counters r d m =
      call-IsMirrored settings logging AppCall.reset_counters d.app m
  run_command-IsMirrored clear_alarms r d m =
      call-IsMirrored settings logging AppCall.reset_counters d.app m
  run_command-IsMirrored sample_now r d m = m
  run_command-IsMirrored set_mode r d m = m
  run_command-IsMirrored start_calibration r d m = m
  run_command-IsMirrored set_time r d m =
      time-IsMirrored r.opcode (app_state_set_time_utc settings logging r.argument d.app) d
        (call-IsMirrored settings logging (AppCall.set_time r.argument) d.app m)
  run_command-IsMirrored snapshot_gas_baseline r d m =
      floor-IsMirrored r.opcode (app_state_snapshot_gas_baseline settings logging d.app) d
        (call-IsMirrored settings logging AppCall.snapshot d.app m)
  run_command-IsMirrored factory_reset r d m =
      call-IsMirrored settings logging (AppCall.raise_event EventType.factory_reset warning (pos 0))
        (set_alarm_led settings logging true d.app) m
  run_command-IsMirrored reboot r d m = call-IsMirrored settings logging AppCall.flush d.app m

  or_refuse-IsMirrored :
      (c : Option BleCmd) (r : CmdRequest) (d : Desk Store LogStore)
      → IsMirrored d.app.core
      → IsMirrored (run_or_refuse settings logging c r d).app.core
  unfolding run_or_refuse send_response
  or_refuse-IsMirrored none r d m = m
  or_refuse-IsMirrored (some c) r d m = run_command-IsMirrored c r d m

  -- Whatever bytes a phone wrote, a run of the command work gives exactly one response, with the
  -- opcode of the request and a payload that fits, and leaves the live counters and those of the
  -- statistics equal, if they were.
  pub command_work_fn-IsMirrored :
      (r : CmdRequest) (d : Desk Store LogStore)
      → IsMirrored d.app.core
      → let e = command_work_fn settings logging r d in
        AnswersOnce r.opcode d e × IsMirrored e.app.core
  unfolding command_work_fn
  command_work_fn-IsMirrored r d m =
      (or_refuse_once (cmd_of r.opcode) r d, or_refuse-IsMirrored (cmd_of r.opcode) r d m)
