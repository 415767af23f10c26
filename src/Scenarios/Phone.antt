-- ===== src/Scenarios/Phone.antt =====
-- Runs of what a phone does: events, commands and configurations.
use nrf54l15_tag.Common.{
  ℕ, ◌≡◌, ◌⊎◌, refl, pos, true, false, arith, map, [], ◌∷◌, ◌++◌, none, some, Status, enomem,
}
use nrf54l15_tag.SmartTag.{EventRecord, alarm, shock, tamper}
use nrf54l15_tag.Storage.Layout.{config_bytes}
use nrf54l15_tag.AppConfig.{app_config_validate}
use nrf54l15_tag.AppState.Service.{App, app_state_init}
use nrf54l15_tag.AppState.Counters.{IsMirrored}
use nrf54l15_tag.Ble.Gatt.{Gatt, event_sent, notify_work_fn}
use nrf54l15_tag.Ble.Gatt.Queue.{arrive, newest, notify_work_fn-arrive, notify_work_fn_retry}
use nrf54l15_tag.Ble.Config.{
  Desk, CmdRequest, value_not_allowed, command_work_fn, ble_config_read, ble_config_write,
}
use nrf54l15_tag.Ble.Config.Commands.{AnswersOnce, command_work_fn-IsMirrored}
use nrf54l15_tag.Ble.Config.Responses.{desk_with_tail, command_work_fn_hides}
use nrf54l15_tag.Ble.Config.Writes.{ble_config_write-cases}
use nrf54l15_tag.Scenarios.{still_status, used_statistics, shipping_config}
use nrf54l15_tag.Scenarios.Storing.{flash_settings, Blobs, shipping-IsConfig}
use nrf54l15_tag.Scenarios.Service.{Counts, counting_logs, fresh_app}

abbrev knocked : EventRecord
knocked = record { timestamp = 160; type = shock; severity = alarm; value = pos 6500 }

abbrev opened : EventRecord
opened = record { timestamp = 170; type = tamper; severity = alarm; value = pos 0 }

abbrev listening : Gatt
listening = record {
  subscribed = record {
    sensor_data = false;
    status = false;
    event = true;
    log_data = false;
    command = true;
  };
  latest_event = knocked;
  pending_sensor = none;
  event_queue = knocked ∷ opened ∷ [];
}

abbrev accepted : ℕ → Status
accepted n = none

abbrev no_buffers : ℕ → Status
no_buffers n = some enomem

notify_work_fn-arrive_example :
    let r = notify_work_fn accepted still_status (arrive (opened ∷ knocked ∷ []) listening) in
    (r.1 ≡ map event_sent (newest 8 (listening.event_queue ++ opened ∷ knocked ∷ [])))
    × (r.0.event_queue ≡ [])
    × (r.2 ≡ false)
notify_work_fn-arrive_example =
    notify_work_fn-arrive accepted still_status (opened ∷ knocked ∷ []) listening (omega arith) refl
      (λ n. refl) refl

notify_work_fn_retry_example :
    let first = notify_work_fn no_buffers still_status listening in
    (first.1 ≡ [])
    × (first.2 ≡ true)
    × ((notify_work_fn accepted still_status first.0).1 ≡ map event_sent (opened ∷ knocked ∷ []))
notify_work_fn_retry_example =
    notify_work_fn_retry no_buffers accepted still_status knocked (opened ∷ []) listening refl
      (omega arith) refl refl refl (λ n. refl)

abbrev used_app : App Blobs Counts
used_app = record fresh_app { core = app_state_init used_statistics fresh_app.core }

abbrev desk : Desk Blobs Counts
desk = record {
  app = used_app;
  stream = record { active = true; log_id = 0; chunk_index = 2; next_seq = 9; remaining = 4 };
  responses = [];
}

abbrev reset_request : CmdRequest
reset_request = record { opcode = 4; reserved = 0; argument = 0 }

used-IsMirrored : IsMirrored used_app.core
unfolding app_state_init
used-IsMirrored = record {
  shocks = refl;
  free_falls = refl;
  events = refl;
  max_shock = refl;
  movement = refl;
}

command_work_fn-IsMirrored_example :
    let e = command_work_fn flash_settings counting_logs reset_request desk in
    AnswersOnce 4 desk e × IsMirrored e.app.core
command_work_fn-IsMirrored_example =
    command_work_fn-IsMirrored flash_settings counting_logs reset_request desk used-IsMirrored

command_work_fn_hides_example :
    (command_work_fn flash_settings counting_logs reset_request
      (desk_with_tail 7 8 9 1760000000 desk)).responses
    ≡ (command_work_fn flash_settings counting_logs reset_request desk).responses
command_work_fn_hides_example =
    command_work_fn_hides flash_settings counting_logs 7 8 9 1760000000 reset_request desk

ble_config_write-cases_example :
    let w =
      ble_config_write flash_settings counting_logs 0 (config_bytes shipping_config) fresh_app in
    ((app_config_validate shipping_config ≡ false) × (w ≡ (fresh_app, value_not_allowed)))
    ⊎ ((app_config_validate shipping_config ≡ true)
        × (ble_config_read flash_settings counting_logs w.0 ≡ config_bytes shipping_config))
ble_config_write-cases_example =
    ble_config_write-cases flash_settings counting_logs shipping_config fresh_app shipping-IsConfig
