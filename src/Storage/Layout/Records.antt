-- ===== src/Storage/Layout/Records.antt =====
-- The bytes of the two log records of src/app/smart_tag.h.
use nrf54l15_tag.Common.{ℕ, ◌+◌, ◌-◌, ◌≡◌, refl, ℤ, pos, negsuc, length, List, [], ◌∷◌, ◌++◌}
use nrf54l15_tag.SmartTag.{
  EventType, Severity, EventRecord, SensorLogRecord, boot, motion_start, motion_stop, shock,
  free_fall, orientation_change, tamper, temp_high, temp_low, humidity_high, battery_low,
  config_changed, sensor_fault, zigbee_joined, zigbee_left, ble_connected, ota_started,
  ota_finished, factory_reset, gas_low, time_set, info, warning, alarm,
}
use nrf54l15_tag.Storage.Layout.{le16, le32, pattern16}

-- The numbers of the two enumerations.
unfoldable pub event_code : EventType → ℕ
event_code boot = 0
event_code motion_start = 1
event_code motion_stop = 2
event_code shock = 3
event_code free_fall = 4
event_code orientation_change = 5
event_code tamper = 6
event_code temp_high = 7
event_code temp_low = 8
event_code humidity_high = 9
event_code battery_low = 10
event_code config_changed = 11
event_code sensor_fault = 12
event_code zigbee_joined = 13
event_code zigbee_left = 14
event_code ble_connected = 15
event_code ota_started = 16
event_code ota_finished = 17
event_code factory_reset = 18
event_code gas_low = 19
event_code time_set = 20

unfoldable pub severity_code : Severity → ℕ
severity_code info = 0
severity_code warning = 1
severity_code alarm = 2

-- The pattern of an int32_t.
unfoldable pub pattern32 : ℤ → ℕ
pattern32 (pos n) = n
pattern32 (negsuc n) = 4294967296 - (n + 1)

-- event_record_t, 8 bytes.
unfoldable pub event_bytes : EventRecord → List ℕ
event_bytes e =
    le32 e.timestamp ++ (event_code e.type ∷ severity_code e.severity ∷ le16 (pattern16 e.value))

-- sensor_log_record_t, 17 bytes.
unfoldable pub history_bytes : SensorLogRecord → List ℕ
history_bytes r =
    le32 r.timestamp
    ++ (le16 (pattern16 r.temperature)
        ++ (le16 r.humidity
            ++ (le32 (pattern32 r.pressure) ++ (le32 r.gas_resistance_ohm ++ r.flags ∷ []))))

pub length-event_bytes : (e : EventRecord) → length (event_bytes e) ≡ 8
unfolding event_bytes
length-event_bytes e = refl

pub length-history_bytes : (r : SensorLogRecord) → length (history_bytes r) ≡ 17
unfolding history_bytes
length-history_bytes r = refl
