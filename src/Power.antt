-- ===== src/Power.antt =====
-- src/power/power_manager.c: the window in which the tag can be reached over Bluetooth, and how long
-- the sampling thread sleeps.
--
-- The delayed work service_timeout_work is `timeout`, the seconds after which it runs, if it is
-- scheduled. What ble_manager_start_advertising finds is passed on to it. A step is one of the calls
-- and callbacks that change the state.
use nrf54l15_tag.Common.{
  ℕ, ◌≡◌, Bool, true, false, not, max, if◌then◌else◌, Option, none, some, Status,
}
use nrf54l15_tag.SmartTag.{SensorData, TagStatus, MotionState, stationary, moving}
use nrf54l15_tag.AppState.Service.{AppPhase, running, service}
use nrf54l15_tag.Ble.Manager.{
  Radio, ble_manager_start_advertising, ble_manager_stop_advertising, on_connected, on_disconnected,
}
pub mod Window

-- The static state of the window, with the phase that app_state_set keeps.
pub record Power : Type 0 where
  pub service_mode : Bool
  pub timeout : Option ℕ
  pub phase : AppPhase
  pub radio : Radio

unfoldable pub opened : ℕ → Power → Radio × Status → Power
opened window_s p (r, some err) = record p { service_mode = false; radio = r }
opened window_s p (r, none) = record p {
  service_mode = true;
  timeout = some window_s;
  phase = service;
  radio = r;
}

-- power_manager_request_service_mode, with a window of window_s seconds configured.
unfoldable pub request_service_mode : ℕ → Status → SensorData → TagStatus → Power → Power
unfolding opened
request_service_mode window_s started sample status p =
    if p.service_mode
    then record p { timeout = some window_s }
    else opened window_s p (ble_manager_start_advertising started sample status p.radio)

-- power_manager_end_service_mode
unfoldable pub end_service_mode : Power → Power
end_service_mode p =
    if not p.service_mode
    then p
    else if p.radio.connected
    then record p { timeout = some 30 }
    else record p {
      service_mode = false;
      timeout = none;
      phase = running;
      radio = ble_manager_stop_advertising p.radio;
    }

-- service_timeout_fn, when its delay is over.
unfoldable pub service_timeout_fn : Power → Power
unfolding end_service_mode
service_timeout_fn p = end_service_mode (record p { timeout = none })

-- sleep_interval_s, over whether the board has a wake source and the interval of the operating mode.
unfoldable pub sleep_interval_s : Bool → MotionState → ℕ → ℕ → ℕ
sleep_interval_s wake_source motion sampling_interval_s effective_interval_s =
    if not wake_source
    then effective_interval_s
    else elim motion [ moving ↦ effective_interval_s | stationary ↦ max sampling_interval_s 1 ]

-- The calls and callbacks. The controller accepts a connection only while it advertises, and reports
-- the end of one that was there.
pub data Step : Power → Power → Type 0 where
  request :
      (window_s : ℕ) (started : Status) (sample : SensorData) (status : TagStatus) (p : Power)
      → Step p (request_service_mode window_s started sample status p)
  ended : (p : Power) → Step p (end_service_mode p)
  expired : (t : ℕ) (p : Power) → p.timeout ≡ some t → Step p (service_timeout_fn p)
  joined :
      (err : ℕ) (p : Power)
      → p.radio.advertising ≡ true
      → p.radio.connected ≡ false
      → Step p (record p { radio = (on_connected err p.radio).0 })
  left :
      (started : Status) (sample : SensorData) (status : TagStatus) (p : Power)
      → p.radio.connected ≡ true
      → Step p (record p { radio = on_disconnected started sample status p.radio })

pub data Steps : Power → Power → Type 0 where
  none_taken : (p : Power) → Steps p p
  one_more : (p q r : Power) → Steps p q → Step q r → Steps p r
