-- ===== src/Ble/Config/Responses.antt =====
-- What the responses of src/ble/ble_config.c cannot tell, since a payload is cut off at 32 bytes.
use nrf54l15_tag.Common.{
  ℕ, ◌≡◌, ◌==◌, ◌||◌, not, refl, Bool-cases, inl, inr, u32, max, Option, none, some, Status,
}
use nrf54l15_tag.Common.Mask
use nrf54l15_tag.SmartTag.{TagStatistics, valid_gas, boot_epoch_utc, gas_alarm_floor}
use nrf54l15_tag.Storage.Layout.{statistics_bytes}
use nrf54l15_tag.Storage.ConfigStorage.{Settings}
use nrf54l15_tag.AppConfig.{ConfigState, app_config_set}
use nrf54l15_tag.AppState.Service.{
  Logs, app_state_reset_counters, app_state_set_time_utc, app_state_snapshot_gas_baseline,
  snapshot_applied, set_config, set_alarm_led, clear_counters, app_raise_event, count_event,
  app_state_flush_statistics,
}
use nrf54l15_tag.Ble.Config.{
  BleCmd, identify, clear_event_log, clear_sensor_log, reset_counters, factory_reset, sample_now,
  set_mode, clear_alarms, reboot, start_calibration, set_time, snapshot_gas_baseline, cmd_of,
  CmdRequest, Desk, send_response, clear_log, respond_mode, respond_time, respond_floor,
  run_command, run_or_refuse, command_work_fn,
}

-- Other values in the last four fields of the statistics.
abbrev pub with_tail : ℕ → ℕ → ℕ → ℕ → TagStatistics → TagStatistics
with_tail reports connections faults epoch s = record s {
  zigbee_reports = reports;
  ble_connections = connections;
  sensor_faults = faults;
  boot_epoch_utc = epoch;
}

abbrev pub desk_with_tail : {S L : Type 0} → ℕ → ℕ → ℕ → ℕ → Desk S L → Desk S L
desk_with_tail reports connections faults epoch d = record d {
  app = record d.app {
    core = record d.app.core {
      statistics = with_tail reports connections faults epoch d.app.core.statistics;
    };
  };
}

module _ (settings : Settings) (logging : Logs) (z b f e : ℕ) where
  open settings use {Store}
  open logging use {LogStore}

  time_hides :
      (opcode n : ℕ) (d : Desk Store LogStore)
      → let d' = desk_with_tail z b f e d in
        (respond_time settings logging opcode
          (app_state_set_time_utc settings logging n d'.app)
          d').responses
        ≡ (respond_time settings logging opcode
            (app_state_set_time_utc settings logging n d.app)
            d).responses
  unfolding respond_time send_response app_state_set_time_utc app_raise_event count_event
      app_state_flush_statistics
  time_hides opcode n d = elim (Bool-cases (boot_epoch_utc n (u32 d.app.uptime_s) == 0)) [
    | inl refused ↦ rw refused refl
    | inr accepted ↦ rw accepted refl
  ]

  applied_hides :
      (opcode floor mode : ℕ) (c : ConfigState Store) (s : Status) (d : Desk Store LogStore)
      → let d' = desk_with_tail z b f e d in
        (respond_floor settings logging opcode
          (snapshot_applied settings logging (set_config settings logging d'.app (c, s)) floor mode)
          d').responses
        ≡ (respond_floor settings logging opcode
            (snapshot_applied settings logging
              (set_config settings logging d.app (c, s))
              floor
              mode)
            d).responses
  unfolding respond_floor send_response snapshot_applied set_config
  applied_hides opcode floor mode c none d = refl
  applied_hides opcode floor mode c (some err) d = refl

  floor_hides :
      (opcode : ℕ) (d : Desk Store LogStore)
      → let d' = desk_with_tail z b f e d in
        (respond_floor settings logging opcode
          (app_state_snapshot_gas_baseline settings logging d'.app)
          d').responses
        ≡ (respond_floor settings logging opcode
            (app_state_snapshot_gas_baseline settings logging d.app)
            d).responses
  unfolding respond_floor send_response app_state_snapshot_gas_baseline
  floor_hides opcode d =
      let sample = d.app.core.last_sample in
      elim (Bool-cases
        (not (Mask.test valid_gas sample.valid) || (sample.gas_resistance_ohm == 0))) [
          | inl refused ↦ rw refused refl
          | inr accepted ↦
              let floor = max (gas_alarm_floor sample.gas_resistance_ohm) 1 in
              let config = record d.app.config_state.config { gas_low_threshold_ohm = floor } in
              let (c, s) = app_config_set settings config d.app.config_state in
              rw accepted (applied_hides opcode floor config.operating_mode c s d)
        ]

  run_command_hides :
      (c : BleCmd) (r : CmdRequest) (d : Desk Store LogStore)
      → (run_command settings logging c r (desk_with_tail z b f e d)).responses
        ≡ (run_command settings logging c r d).responses
  unfolding run_command send_response clear_log respond_mode app_state_reset_counters clear_counters
      set_alarm_led app_state_flush_statistics statistics_bytes
  run_command_hides identify r d = refl
  run_command_hides clear_event_log r d = refl
  run_command_hides clear_sensor_log r d = refl
  run_command_hides reset_counters r d = refl
  run_command_hides clear_alarms r d = refl
  run_command_hides sample_now r d = refl
  run_command_hides set_mode r d = refl
  run_command_hides start_calibration r d = refl
  run_command_hides set_time r d = time_hides r.opcode r.argument d
  run_command_hides snapshot_gas_baseline r d = floor_hides r.opcode d
  run_command_hides factory_reset r d = refl
  run_command_hides reboot r d = refl

  or_refuse_hides :
      (c : Option BleCmd) (r : CmdRequest) (d : Desk Store LogStore)
      → (run_or_refuse settings logging c r (desk_with_tail z b f e d)).responses
        ≡ (run_or_refuse settings logging c r d).responses
  unfolding run_or_refuse send_response
  or_refuse_hides none r d = refl
  or_refuse_hides (some c) r d = run_command_hides c r d

  -- Whatever command a phone sends, its response is the same whatever the statistics held for
  -- zigbee_reports, ble_connections, sensor_faults and boot_epoch_utc before: no response tells a
  -- phone any of the four, that to resetting the counters, which is given all the statistics,
  -- included.
  pub command_work_fn_hides :
      (r : CmdRequest) (d : Desk Store LogStore)
      → (command_work_fn settings logging r (desk_with_tail z b f e d)).responses
        ≡ (command_work_fn settings logging r d).responses
  unfolding command_work_fn
  command_work_fn_hides r d = or_refuse_hides (cmd_of r.opcode) r d
