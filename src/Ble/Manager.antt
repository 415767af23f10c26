-- ===== src/Ble/Manager.antt =====
-- src/ble/ble_manager.c: advertising, the connection, and what a client sees of the tag before it
-- connects.
--
-- The Bluetooth controller is Zephyr's: what bt_le_adv_start, bt_le_adv_update_data and bt_enable
-- return is an argument of the functions that call them, and the two connection callbacks are
-- functions. A call of bt_conn_disconnect is recorded in `disconnect_asked`. The device's name is not
-- modelled.
use nrf54l15_tag.Common.{
  ℕ, ◌+◌, ◌*◌, ◌%◌, Bool, true, false, not, ◌==◌, if◌then◌else◌, List, [], ◌∷◌, ◌++◌, Option, none,
  some, Status, other_errno,
}
use nrf54l15_tag.SmartTag.{
  SensorData, TagStatus, EventType, ble_connected, motion_code, orientation_code,
}
use nrf54l15_tag.Storage.Layout.{le16, pattern16}
use nrf54l15_tag.Led
use nrf54l15_tag.Led.{LedManager, led_manager_set}
use nrf54l15_tag.Ble.Log.{Stream, log_abort}

-- The static state of the file, with that of the modules which it changes: the LED, the
-- subscriptions of ble_gatt.c and the stream of ble_log.c. `on_air` is the manufacturer data that the
-- controller advertises.
pub record Radio : Type 0 where
  pub connected : Bool
  pub advertising : Bool
  pub stack_ready : Bool
  pub manuf_data : List ℕ
  pub on_air : List ℕ
  pub disconnect_asked : Bool
  pub led : LedManager
  pub subscribed : List Bool
  pub stream : Stream
  pub stream_work : Option ℕ

-- -EAGAIN
abbrev pub eagain : Status
eagain = some (other_errno 11)

-- memset of the five subscriptions
abbrev pub nothing_subscribed : List Bool
nothing_subscribed = false ∷ false ∷ false ∷ false ∷ false ∷ []

-- What ble_manager_update_adv_data writes.
unfoldable pub manuf_bytes : SensorData → TagStatus → List ℕ
manuf_bytes sample status =
    255
    ∷ 255
    ∷ 4
    ∷ status.operating_mode
    ∷ ((motion_code status.motion_state * 16 + orientation_code status.orientation % 16) % 256)
    ∷ (le16 status.alarm_flags
        ++ (le16 (pattern16 sample.temperature_c_x100)
            ++ (le16 sample.humidity_x100 ++ sample.battery_percent ∷ [])))

unfoldable pub update_on_air : Status → Radio → Radio
update_on_air none r = if r.advertising then record r { on_air = r.manuf_data } else r
update_on_air (some err) r = r

-- ble_manager_update_adv_data
unfoldable pub ble_manager_update_adv_data : Status → SensorData → TagStatus → Radio → Radio
unfolding update_on_air
ble_manager_update_adv_data updated sample status r =
    update_on_air updated (record r { manuf_data = manuf_bytes sample status })

unfoldable pub set_adv_led : Bool → Radio → Radio
set_adv_led on r = record r { led = led_manager_set Led.LedState.ble_advertising on r.led }

unfoldable pub adv_started : Status → Radio → Radio × Status
unfolding set_adv_led
adv_started (some err) r = (r, some err)
adv_started none r =
    (set_adv_led true (record r { advertising = true; on_air = r.manuf_data }), none)

-- ble_manager_start_advertising, over what bt_le_adv_start returns.
unfoldable pub ble_manager_start_advertising :
    Status → SensorData → TagStatus → Radio → Radio × Status
unfolding adv_started ble_manager_update_adv_data
ble_manager_start_advertising started sample status r =
    if not r.stack_ready
    then (r, eagain)
    else if r.advertising
    then (r, none)
    else adv_started started (ble_manager_update_adv_data none sample status r)

-- ble_manager_stop_advertising
unfoldable pub ble_manager_stop_advertising : Radio → Radio
unfolding set_adv_led
ble_manager_stop_advertising r =
    if not r.advertising
    then r
    else set_adv_led false (record r { advertising = false; disconnect_asked = r.connected })

-- connected: with the event that it raises.
unfoldable pub on_connected : ℕ → Radio → Radio × Option EventType
unfolding set_adv_led
on_connected err r =
    if not (err == 0)
    then (r, none)
    else (set_adv_led false (record r { connected = true }), some ble_connected)

-- disconnected, over what bt_le_adv_start returns if it is called.
unfoldable pub on_disconnected : Status → SensorData → TagStatus → Radio → Radio
unfolding ble_manager_start_advertising
on_disconnected started sample status r =
    let aborted = log_abort r.stream in
    let alone = record r {
      connected = false;
      subscribed = nothing_subscribed;
      stream = aborted.0;
      stream_work = aborted.1;
    } in
    if r.advertising
    then (ble_manager_start_advertising started sample status
        (record alone { advertising = false })).0
    else alone

unfoldable pub bt_enabled : Status → Radio → Radio × Status
bt_enabled (some err) r = (r, some err)
bt_enabled none r = (record r { stack_ready = true }, none)

-- ble_manager_init, over what ble_gatt_init and bt_enable return; ble_config_init returns 0, and
-- ble_log_init clears the stream.
unfoldable pub ble_manager_init : Status → Status → Radio → Radio × Status
unfolding bt_enabled
ble_manager_init (some err) enabled r = (r, some err)
ble_manager_init none enabled r = bt_enabled enabled (record r {
  stream = record { active = false; log_id = 0; chunk_index = 0; next_seq = 0; remaining = 0 };
})
