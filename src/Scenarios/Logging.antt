-- ===== src/Scenarios/Logging.antt =====
-- Runs of the application state over the two flash logs.
use nrf54l15_tag.Common.{ℕ, ◌≡◌, refl, pos, arith, [], ◌∷◌, true, false, Option, some}
use nrf54l15_tag.SmartTag.{EventRecord, alarm, shock, fill_log_record, zero_statistics}
use nrf54l15_tag.Storage.Layout.Records.{event_bytes, history_bytes}
use nrf54l15_tag.Storage.FlashLog.{
  Slot, checked, valid_at, make_room, sector_erased, count_valid, slot_written, write_head,
  flash_log_append,
}
use nrf54l15_tag.Storage.EventLog.{event_log_append, event_log_read}
use nrf54l15_tag.Storage.SensorLog.{sensor_log_append, sensor_log_add, sensor_log_read}
use nrf54l15_tag.Ble.Log.{Logs as FlashLogs}
use nrf54l15_tag.AppState.Service.{App, AppPhase, app_raise_event, add_history}
use nrf54l15_tag.AppState.Logging.{flash_logs, app_raise_event-read, add_history-read}
use nrf54l15_tag.Scenarios.{calm, knock, still_status}
use nrf54l15_tag.Scenarios.Storing.{Blobs, flash_settings, fresh}
use nrf54l15_tag.Scenarios.Flash.{ram_flash}
use nrf54l15_tag.Scenarios.Ring.{ring_of-IsRing, full_ring, event_ring, twelve}

abbrev two_rings : FlashLogs (ℕ → Option Slot)
two_rings = record { sensors = full_ring; events = event_ring }

abbrev logging_app : App Blobs (FlashLogs (ℕ → Option Slot))
logging_app = record {
  phase = AppPhase.boot;
  core = record {
    status = still_status;
    statistics = zero_statistics;
    last_sample = calm;
    pending = [];
  };
  subscribers = record { on_sensor_data = true; on_event = true } ∷ [];
  last_stats_flush = 0;
  config_state = fresh;
  logs = two_rings;
  expected_valid = 63;
  uptime_s = 160;
  notices = [];
  rebooted = false;
}

app_raise_event-read_example :
    let a = logging_app in
    let b = (app_raise_event flash_settings (flash_logs ram_flash) shock alarm (pos 6500) a).0 in
    let e : EventRecord = record {
      timestamp = 160;
      type = shock;
      severity = alarm;
      value = pos 6500;
    } in
    (event_log_read ram_flash 33 5 b.logs.events ≡ some (event_bytes e ∷ []))
    × (b.logs.sensors ≡ a.logs.sensors)
unfolding app_raise_event event_log_append make_room sector_erased flash_log_append write_head
    slot_written count_valid valid_at checked
app_raise_event-read_example =
    app_raise_event-read flash_settings ram_flash shock alarm (pos 6500) logging_app 20 0 4 twelve
      (ring_of-IsRing 8) (omega arith) refl refl

add_history-read_example :
    let a = logging_app in
    let b = add_history flash_settings (flash_logs ram_flash) knock true a in
    (sensor_log_read ram_flash 33 5 b.logs.sensors
      ≡ some (history_bytes (fill_log_record knock true) ∷ []))
    × (b.logs.events ≡ a.logs.events)
unfolding sensor_log_add sensor_log_append make_room sector_erased flash_log_append write_head
    slot_written count_valid valid_at checked
add_history-read_example =
    add_history-read flash_settings ram_flash knock true logging_app 20 0 4 twelve
      (ring_of-IsRing 17) (omega arith) refl refl refl
