-- ===== src/AppState/Logging.antt =====
-- The application state of src/app/app_state.c over the flash logs of src/storage/event_log.c and
-- src/storage/sensor_log.c.
use nrf54l15_tag.Common.{
  Bool, ℕ, suc, ◌+◌, ◌<◌, ◌≡◌, ℤ, refl, sym, ◌∙◌, ap, u32, ◌==◌, false, length, List, [], ◌∷◌,
  Option, none, some, Status, eio,
}
use nrf54l15_tag.SmartTag.{
  SensorData, EventRecord, EventType, Severity, alarm, info, warning, fill_log_record,
}
use nrf54l15_tag.Storage.Layout.Records.{
  event_bytes, history_bytes, length-event_bytes, length-history_bytes,
}
use nrf54l15_tag.Storage.FlashLog.{Flash, FlashLog, flash_log_read}
use nrf54l15_tag.Storage.FlashLog.Ring.{IsRing}
use nrf54l15_tag.Storage.FlashLog.Ring.Recall.{flash_log_append-read}
use nrf54l15_tag.Storage.EventLog as EventLog
use nrf54l15_tag.Storage.EventLog.{event_log_append, event_log_read}
use nrf54l15_tag.Storage.SensorLog as SensorLog
use nrf54l15_tag.Storage.SensorLog.{sensor_log_add, sensor_log_append, sensor_log_read}
use nrf54l15_tag.Storage.ConfigStorage.{Settings}
use nrf54l15_tag.Ble.Log.{Logs as FlashLogs}
use nrf54l15_tag.AppState.Service.{Logs, App, app_raise_event, add_history}

-- flash_log_erase has its fuel (Erase.flash_log_erase_total); what stands here for the lack of it is
-- not reached.
abbrev pub erased : {A : Type 0} → FlashLog A → Option (FlashLog A × Status) → FlashLog A × Status
erased l none = (l, some eio)
erased l (some r) = r

-- The interface of the application state, over the two logs on the flash.
abbrev pub flash_logs : Flash → Logs
flash_logs flash = record {
  LogStore = FlashLogs flash.Area;
  event_log_add =
      λ e s. let r = event_log_append flash e s.events in (record s { events = r.0 }, r.1);
  sensor_log_add =
      λ d s. let r = sensor_log_append flash d s.sensors in (record s { sensors = r.0 }, r.1);
  event_log_clear = λ s.
      let r = erased s.events (EventLog.event_log_clear flash s.events) in
      (record s { events = r.0 }, r.1);
  sensor_log_clear = λ s.
      let r = erased s.sensors (SensorLog.sensor_log_clear flash s.sensors) in
      (record s { sensors = r.0 }, r.1);
}

module _ (settings : Settings) (flash : Flash) where
  open settings use {Store}
  open flash use {Area}

  raise_logs :
      (t : EventType) (s : Severity) (v : ℤ) (a : App Store (FlashLogs Area))
      → let e : EventRecord = record {
        timestamp = u32 a.uptime_s;
        type = t;
        severity = s;
        value = v;
      } in
        let r = event_log_append flash e a.logs.events in
        let b = app_raise_event settings (flash_logs flash) t s v a in
        (b.1 ≡ r.1) × (b.0.logs ≡ record a.logs { events = r.0 })
  unfolding app_raise_event
  raise_logs t info v a = (refl, refl)
  raise_logs t warning v a = (refl, refl)
  raise_logs t alarm v a = (refl, refl)

  -- Raising an event with the result 0, over an event log that is a ring: a read of the log from the
  -- sequence number that was the next gives one record, the event's bytes, with the time, the type,
  -- the severity and the value that it was raised with; the sensor history is left alone. The
  -- sequence numbers must not be exhausted.
  pub app_raise_event-read :
      (t : EventType) (s : Severity) (z : ℤ) (a : App Store (FlashLogs Area)) (f room max : ℕ)
      (rs : List (List ℕ))
      → IsRing flash a.logs.events f room rs
      → f + length rs < 4294967294
      → a.logs.events.payload_size ≡ 8
      → (app_raise_event settings (flash_logs flash) t s z a).1 ≡ none
      → let b = (app_raise_event settings (flash_logs flash) t s z a).0 in
        (event_log_read flash a.logs.events.next_seq (suc max) b.logs.events
          ≡ some (
              event_bytes (record { timestamp = u32 a.uptime_s; type = t; severity = s; value = z })
              ∷ []))
        × (b.logs.sensors ≡ a.logs.sensors)
  unfolding event_log_read event_log_append
  app_raise_event-read t s z a f room max rs v numbers size ok =
      let e : EventRecord = record {
        timestamp = u32 a.uptime_s;
        type = t;
        severity = s;
        value = z;
      } in
      let (status, logs) = raise_logs t s z a in
      (
        ap (λ (x : FlashLogs Area). flash_log_read flash a.logs.events.next_seq (suc max) x.events)
              logs
            ∙ flash_log_append-read flash (event_bytes e) a.logs.events f room max rs v numbers
                (length-event_bytes e ∙ sym size) (sym status ∙ ok),
        ap (λ (x : FlashLogs Area). x.sensors) logs,
      )

  add_history_logs :
      (d : SensorData) (alarmed : Bool) (a : App Store (FlashLogs Area))
      → (a.config_state.config.sensor_history_enabled == 0) ≡ false
      → (add_history settings (flash_logs flash) d alarmed a).logs
        ≡ record a.logs { sensors = (sensor_log_add flash d alarmed a.logs.sensors).0 }
  unfolding add_history sensor_log_add
  add_history_logs d alarmed a on = rw on refl

  -- A sample that goes into the sensor history, a ring, with the history switched on and its append
  -- returning 0: a read of the history from the sequence number that was the next gives one record,
  -- the sample's bytes with its flags for movement and alarm; the event log is left alone. The
  -- sequence numbers must not be exhausted.
  pub add_history-read :
      (d : SensorData) (alarmed : Bool) (a : App Store (FlashLogs Area)) (f room max : ℕ)
      (rs : List (List ℕ))
      → IsRing flash a.logs.sensors f room rs
      → f + length rs < 4294967294
      → a.logs.sensors.payload_size ≡ 17
      → (a.config_state.config.sensor_history_enabled == 0) ≡ false
      → (sensor_log_add flash d alarmed a.logs.sensors).1 ≡ none
      → let b = add_history settings (flash_logs flash) d alarmed a in
        (sensor_log_read flash a.logs.sensors.next_seq (suc max) b.logs.sensors
          ≡ some (history_bytes (fill_log_record d alarmed) ∷ []))
        × (b.logs.events ≡ a.logs.events)
  unfolding sensor_log_read sensor_log_add
  add_history-read d alarmed a f room max rs v numbers size on ok =
      let logs = add_history_logs d alarmed a on in
      (
        ap
              (λ (x : FlashLogs Area).
                flash_log_read flash a.logs.sensors.next_seq (suc max) x.sensors)
              logs
            ∙ flash_log_append-read flash (history_bytes (fill_log_record d alarmed)) a.logs.sensors
                f room max rs v numbers
                (length-history_bytes (fill_log_record d alarmed) ∙ sym size) ok,
        ap (λ (x : FlashLogs Area). x.events) logs,
      )
