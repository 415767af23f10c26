-- ===== src/Scenarios/Windows.antt =====
-- Runs of the service window, from a tag that has just started its Bluetooth stack.
use nrf54l15_tag.Common.{◌≡◌, ◌⊎◌, refl, true, false, [], none, some}
use nrf54l15_tag.Common.Mask
use nrf54l15_tag.AppState.Service.{running}
use nrf54l15_tag.Ble.Manager.{
  Radio, nothing_subscribed, ble_manager_start_advertising, adv_started, on_connected,
  on_disconnected,
}
use nrf54l15_tag.Power.{
  Power, Steps, request, expired, joined, left, none_taken, one_more, request_service_mode,
  end_service_mode, service_timeout_fn, opened,
}
use nrf54l15_tag.Power.Window.{IsSound, led_shows, Steps-IsSound, service_timeout_fn_lem}
use nrf54l15_tag.Scenarios.{calm, still_status, lit_led}

abbrev pub quiet_radio : Radio
quiet_radio = record {
  connected = false;
  advertising = false;
  stack_ready = true;
  manuf_data = [];
  on_air = [];
  disconnect_asked = false;
  led = lit_led;
  subscribed = nothing_subscribed;
  stream = record { active = false; log_id = 0; chunk_index = 0; next_seq = 0; remaining = 0 };
  stream_work = none;
}

abbrev pub started_power : Power
started_power = record {
  service_mode = false;
  timeout = none;
  phase = running;
  radio = quiet_radio;
}

pub started_power-IsSound : IsSound started_power
unfolding Mask.test
started_power-IsSound = record {
  timeout = refl;
  phase = refl;
  quiet = record { advertising = refl; connected = refl; led_ready = refl; led = refl };
}

-- A press of the button.
abbrev pressed : Power
pressed = request_service_mode 120 none calm still_status started_power

-- A phone connects.
abbrev phone : Power
phone = record pressed { radio = (on_connected 0 pressed.radio).0 }

abbrev held : Power
held = service_timeout_fn phone

-- It disconnects, and the window runs out.
abbrev gone : Power
gone = record held { radio = on_disconnected none calm still_status held.radio }

session : Steps started_power (service_timeout_fn gone)
unfolding request_service_mode opened ble_manager_start_advertising adv_started on_connected
    on_disconnected service_timeout_fn end_service_mode
session =
    one_more started_power gone (service_timeout_fn gone)
      (one_more started_power held gone
        (one_more started_power phone held
          (one_more started_power pressed phone
            (one_more started_power started_power pressed (none_taken started_power)
              (request 120 none calm still_status started_power))
            (joined 0 pressed refl refl))
          (expired 120 phone refl))
        (left none calm still_status held refl))
      (expired 30 gone refl)

Steps-IsSound_example : IsSound (service_timeout_fn gone)
Steps-IsSound_example =
    Steps-IsSound started_power (service_timeout_fn gone) session started_power-IsSound

pressed-IsSound : IsSound pressed
pressed-IsSound =
    Steps-IsSound started_power pressed
      (one_more started_power started_power pressed (none_taken started_power)
        (request 120 none calm still_status started_power))
      started_power-IsSound

service_timeout_fn_lem_example :
    let p = pressed in
    ((p.radio.connected ≡ true) × (service_timeout_fn p ≡ record p { timeout = some 30 }))
    ⊎ ((p.radio.connected ≡ false)
        × ((service_timeout_fn p).service_mode ≡ false)
        × ((service_timeout_fn p).timeout ≡ none)
        × ((service_timeout_fn p).phase ≡ running)
        × ((service_timeout_fn p).radio.advertising ≡ false)
        × (led_shows (service_timeout_fn p).radio.led ≡ false))
unfolding request_service_mode opened ble_manager_start_advertising adv_started
service_timeout_fn_lem_example = service_timeout_fn_lem 120 pressed pressed-IsSound refl
