-- ===== src/Ble/Config.antt =====
-- src/ble/ble_config.c: the configuration that a phone reads and writes, and its commands.
--
-- A command's response is collected in `responses` when it is given to ble_gatt_notify, so that its
-- place among the command's effects shows. The watchdog's feeding and the pauses of 200 ms are not
-- modelled: they change nothing here. bt_gatt_attr_read is the Bluetooth stack's.
use nrf54l15_tag.Common.{
  ℕ, ◌==◌, ◌≡◌, Bool, true, false, not, ◌||◌, ltb, if◌then◌else◌, length, take, List, [], ◌∷◌, ◌++◌,
  Option, none, some, Status, einval, enotsup, to_int16,
}
use nrf54l15_tag.SmartTag.{TagConfig, config_changed, info}
use nrf54l15_tag.Storage.Layout.{
  le32, byte_at, read32, config_bytes, config_of_bytes, statistics_bytes,
}
use nrf54l15_tag.Storage.ConfigStorage.{Settings}
use nrf54l15_tag.Led.{led_manager_identify}
use nrf54l15_tag.AppConfig.{
  ConfigState, app_config_set, app_config_set_mode, power_manager_sample_now,
}
use nrf54l15_tag.AppState.Service.{
  Logs, App, set_config, app_raise_event, app_state_flush_statistics, app_state_set_time_utc,
  app_state_snapshot_gas_baseline, app_state_reset_counters, app_state_factory_reset,
}
use nrf54l15_tag.Ble.Log.{Stream, log_abort}
pub mod Commands
pub mod Responses
pub mod Writes

-- IDENTIFY_DURATION_S
abbrev pub identify_duration_s : ℕ
identify_duration_s = 10

-- ble_cmd_t
pub data BleCmd : Type 0 where
  identify clear_event_log clear_sensor_log reset_counters factory_reset sample_now : BleCmd
  set_mode clear_alarms reboot start_calibration set_time snapshot_gas_baseline : BleCmd

-- The values of ble_cmd_t; none is the default case.
unfoldable pub cmd_of : ℕ → Option BleCmd
cmd_of n =
    if n == 1
    then some identify
    else if n == 2
    then some clear_event_log
    else if n == 3
    then some clear_sensor_log
    else if n == 4
    then some reset_counters
    else if n == 5
    then some factory_reset
    else if n == 6
    then some sample_now
    else if n == 7
    then some set_mode
    else if n == 8
    then some clear_alarms
    else if n == 9
    then some reboot
    else if n == 10
    then some start_calibration
    else if n == 11
    then some set_time
    else if n == 12
    then some snapshot_gas_baseline
    else none

-- struct ble_cmd_request
pub record CmdRequest : Type 0 where
  pub opcode : ℕ
  pub reserved : ℕ
  pub argument : ℕ

-- struct ble_cmd_response; payload_len is the payload's length.
pub record CmdResponse : Type 0 where
  pub opcode : ℕ
  pub status : Status
  pub payload : List ℕ

-- sizeof(response.payload)
abbrev pub payload_max : ℕ
payload_max = 32

-- What a command works on.
pub record Desk (S L : Type 0) : Type 0 where
  pub app : App S L
  pub stream : Stream
  pub responses : List CmdResponse

-- What a GATT write returns: the length, or an ATT error.
pub data AttResult : Type 0 where
  written : ℕ → AttResult
  invalid_offset invalid_attribute_len value_not_allowed unlikely : AttResult

-- What ble_config_write_command does behind its guards: the bytes that are not written are 0.
unfoldable pub request_of_bytes : List ℕ → CmdRequest
request_of_bytes bs = record {
  opcode = byte_at 0 bs;
  reserved = byte_at 1 bs;
  argument = read32 2 bs;
}

-- ble_config_write_command: with pending_command.
unfoldable pub ble_config_write_command : ℕ → List ℕ → CmdRequest → CmdRequest × AttResult
unfolding request_of_bytes
ble_config_write_command offset bs pending =
    if not (offset == 0)
    then (pending, invalid_offset)
    else if ltb (length bs) 1 || ltb 6 (length bs)
    then (pending, invalid_attribute_len)
    else (request_of_bytes bs, written (length bs))

module _ (settings : Settings) (logging : Logs) where
  open settings use {Store}
  open logging use {LogStore, event_log_clear, sensor_log_clear}

  -- send_response
  unfoldable pub send_response : ℕ → Status → List ℕ → Desk Store LogStore → Desk Store LogStore
  send_response opcode status payload d = record d {
    responses =
        d.responses
        ++ record { opcode = opcode; status = status; payload = take payload_max payload } ∷ [];
  }

  -- The two cases that clear a log, from ble_log_abort on.
  unfoldable pub clear_log :
      (LogStore → LogStore × Status) → ℕ → Desk Store LogStore → Desk Store LogStore
  unfolding send_response log_abort
  clear_log clear opcode d =
      let (logs, err) = clear d.app.logs in
      send_response opcode err []
        (record d { app = record d.app { logs = logs }; stream = (log_abort d.stream).0 })

  unfoldable pub respond_mode :
      ℕ → ConfigState Store × Status → Desk Store LogStore → Desk Store LogStore
  unfolding send_response
  respond_mode opcode (c, err) d =
      send_response opcode err [] (record d { app = record d.app { config_state = c } })

  unfoldable pub respond_time :
      ℕ → App Store LogStore × Status → Desk Store LogStore → Desk Store LogStore
  unfolding send_response
  respond_time opcode (a, none) d =
      send_response opcode none (le32 a.core.statistics.boot_epoch_utc) (record d { app = a })
  respond_time opcode (a, some err) d = send_response opcode (some err) [] (record d { app = a })

  unfoldable pub respond_floor :
      ℕ → App Store LogStore × Status × Option ℕ → Desk Store LogStore → Desk Store LogStore
  unfolding send_response
  respond_floor opcode (a, err, none) d = send_response opcode err [] (record d { app = a })
  respond_floor opcode (a, err, some floor) d =
      send_response opcode err (le32 floor) (record d { app = a })

  -- A case of command_work_fn's switch with what follows the switch.
  unfoldable pub run_command : BleCmd → CmdRequest → Desk Store LogStore → Desk Store LogStore
  unfolding send_response clear_log respond_mode respond_time respond_floor
  run_command identify r d =
      let led = led_manager_identify identify_duration_s d.app.config_state.led in
      let c = record d.app.config_state { led = led } in
      send_response r.opcode none [] (record d { app = record d.app { config_state = c } })
  run_command clear_event_log r d = clear_log event_log_clear r.opcode d
  run_command clear_sensor_log r d = clear_log sensor_log_clear r.opcode d
  run_command reset_counters r d =
      let a = app_state_reset_counters settings logging d.app in
      send_response r.opcode none (statistics_bytes a.core.statistics) (record d { app = a })
  run_command clear_alarms r d =
      let a = app_state_reset_counters settings logging d.app in
      send_response r.opcode none [] (record d { app = a })
  run_command sample_now r d =
      let c = power_manager_sample_now d.app.config_state in
      send_response r.opcode none [] (record d { app = record d.app { config_state = c } })
  run_command set_mode r d =
      respond_mode r.opcode (app_config_set_mode settings r.argument d.app.config_state) d
  run_command start_calibration r d = send_response r.opcode (some enotsup) [] d
  run_command set_time r d =
      respond_time r.opcode (app_state_set_time_utc settings logging r.argument d.app) d
  run_command snapshot_gas_baseline r d =
      respond_floor r.opcode (app_state_snapshot_gas_baseline settings logging d.app) d
  run_command factory_reset r d =
      let told = send_response r.opcode none [] d in
      record told { app = app_state_factory_reset settings logging told.app }
  run_command reboot r d =
      let told = send_response r.opcode none [] d in
      let flushed = app_state_flush_statistics settings logging told.app in
      record told { app = record flushed { rebooted = true } }

  unfoldable pub run_or_refuse :
      Option BleCmd → CmdRequest → Desk Store LogStore → Desk Store LogStore
  unfolding run_command send_response
  run_or_refuse none r d = send_response r.opcode (some enotsup) [] d
  run_or_refuse (some c) r d = run_command c r d

  -- command_work_fn
  unfoldable pub command_work_fn : CmdRequest → Desk Store LogStore → Desk Store LogStore
  unfolding run_or_refuse cmd_of
  command_work_fn r d = run_or_refuse (cmd_of r.opcode) r d

  -- ble_config_read: what it gives bt_gatt_attr_read.
  unfoldable pub ble_config_read : App Store LogStore → List ℕ
  ble_config_read a = config_bytes a.config_state.config

  -- What follows app_config_set in ble_config_write.
  unfoldable pub config_written :
      TagConfig → App Store LogStore × Status → App Store LogStore × AttResult
  config_written c (a, some einval) = (a, value_not_allowed)
  config_written c (a, some err) = (a, unlikely)
  config_written c (a, none) = (
    (app_raise_event settings logging config_changed info (to_int16 c.operating_mode) a).0,
    written 40,
  )

  -- ble_config_write
  unfoldable pub ble_config_write : ℕ → List ℕ → App Store LogStore → App Store LogStore × AttResult
  unfolding config_written
  ble_config_write offset bs a =
      if not (offset == 0)
      then (a, invalid_offset)
      else if not (length bs == 40)
      then (a, invalid_attribute_len)
      else let c = config_of_bytes bs in
        config_written c (set_config settings logging a (app_config_set settings c a.config_state))
