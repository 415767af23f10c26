-- ===== src/Ble/Gatt.antt =====
-- src/ble/ble_gatt.c: the subscriptions of a client, and the queue from which its notifications are
-- sent.
--
-- What bt_gatt_notify answers is an argument: a function of the number of the call in a run. A
-- client sees the notifications; k_msgq_put and k_msgq_get are a list of eight events at most. The
-- value handlers only copy what the application state gives them.
use nrf54l15_tag.Common.{
  ℕ, ◌+◌, ◌==◌, Bool, true, false, if◌then◌else◌, length, List, [], ◌∷◌, ◌++◌, Option, none, some,
  Status, enomem, eacces,
}
use nrf54l15_tag.SmartTag.{SensorData, TagStatus, EventRecord}
pub mod Queue
pub mod Table

-- ble_char_t
pub data BleChar : Type 0 where
  sensor_data status event log_data command : BleChar

-- subscribed
pub record Subscribed : Type 0 where
  pub sensor_data : Bool
  pub status : Bool
  pub event : Bool
  pub log_data : Bool
  pub command : Bool

-- The static state of the file. A pending sample that is not valid is none.
pub record Gatt : Type 0 where
  pub subscribed : Subscribed
  pub latest_event : EventRecord
  pub pending_sensor : Option SensorData
  pub event_queue : List EventRecord

pub data Notification : Type 0 where
  sensor_sent : SensorData → Notification
  status_sent : TagStatus → Notification
  event_sent : EventRecord → Notification

-- BT_GATT_CCC_NOTIFY
abbrev pub ccc_notify : ℕ
ccc_notify = 1

-- sensor_ccc, status_ccc, event_ccc, log_data_ccc and command_ccc
unfoldable pub ccc_written : BleChar → ℕ → Gatt → Gatt
ccc_written sensor_data value g = record g {
  subscribed = record g.subscribed { sensor_data = value == ccc_notify };
}
ccc_written status value g = record g {
  subscribed = record g.subscribed { status = value == ccc_notify };
}
ccc_written event value g = record g {
  subscribed = record g.subscribed { event = value == ccc_notify };
}
ccc_written log_data value g = record g {
  subscribed = record g.subscribed { log_data = value == ccc_notify };
}
ccc_written command value g = record g {
  subscribed = record g.subscribed { command = value == ccc_notify };
}

-- ble_gatt_is_subscribed
unfoldable pub is_subscribed : BleChar → Gatt → Bool
is_subscribed sensor_data g = g.subscribed.sensor_data
is_subscribed status g = g.subscribed.status
is_subscribed event g = g.subscribed.event
is_subscribed log_data g = g.subscribed.log_data
is_subscribed command g = g.subscribed.command

-- ble_gatt_notify, by what bt_gatt_notify would answer.
unfoldable pub gatt_notify : BleChar → Status → Gatt → Status
unfolding is_subscribed
gatt_notify which answer g = if is_subscribed which g then answer else some eacces

-- ble_gatt_reset_subscriptions
unfoldable pub reset_subscriptions : Gatt → Gatt
reset_subscriptions g = record g {
  subscribed = record {
    sensor_data = false;
    status = false;
    event = false;
    log_data = false;
    command = false;
  };
}

-- event_queue's length in K_MSGQ_DEFINE
abbrev pub event_queue_max : ℕ
event_queue_max = 8

-- k_msgq_put with K_NO_WAIT: the queue, and whether there was room.
unfoldable pub msgq_put : EventRecord → List EventRecord → List EventRecord × Bool
msgq_put e q = if length q == event_queue_max then (q, false) else (q ++ e ∷ [], true)

-- k_msgq_get, without the message
unfoldable pub msgq_drop : List EventRecord → List EventRecord
msgq_drop [] = []
msgq_drop (e ∷ q) = q

unfoldable pub queue_newest : EventRecord → List EventRecord → List EventRecord
unfolding msgq_put msgq_drop
queue_newest e q =
    let (put, room) = msgq_put e q in if room then put else (msgq_put e (msgq_drop put)).0

-- on_event; the work is submitted in any case.
unfoldable pub on_event : EventRecord → Gatt → Gatt
unfolding queue_newest
on_event e g = record g { latest_event = e; event_queue = queue_newest e g.event_queue }

-- on_sensor_data
unfoldable pub on_sensor_data : SensorData → Gatt → Gatt
on_sensor_data d g = record g { pending_sensor = some d }

-- What a client gets when ble_gatt_notify returns 0.
unfoldable pub sent_if : Status → Notification → List Notification
sent_if none n = n ∷ []
sent_if (some err) n = []

-- The body of the loop of notify_work_fn behind ble_gatt_notify, where the event is the first of the
-- queue: `rest` is what the further turns give.
unfoldable pub event_notified :
    Status
    → EventRecord
    → List EventRecord
    → List EventRecord × List Notification × Bool
    → List EventRecord × List Notification × Bool
unfolding msgq_put
event_notified (some enomem) e q rest = ((msgq_put e q).0, [], true)
event_notified (some err) e q rest = rest
event_notified none e q (left, sent, again) = (left, event_sent e ∷ sent, again)

-- The loop of notify_work_fn, from its n-th call of bt_gatt_notify on: the queue, what is sent, and
-- whether the work is submitted again.
unfoldable pub drain_events :
    (ℕ → Status) → ℕ → Gatt → List EventRecord → List EventRecord × List Notification × Bool
unfolding event_notified gatt_notify
drain_events answers n g [] = ([], [], false)
drain_events answers n g (e ∷ q) =
    let rest = drain_events answers (n + 1) g q in
    event_notified (gatt_notify event (answers n) g) e q rest

unfoldable pub send_sensor : (ℕ → Status) → TagStatus → Gatt → Option SensorData → List Notification
unfolding gatt_notify
send_sensor answers now g none = []
send_sensor answers now g (some d) =
    sent_if (gatt_notify sensor_data (answers 0) g) (sensor_sent d)
    ++ sent_if (gatt_notify status (answers 1) g) (status_sent now)

-- notify_work_fn, with the status that app_state_get_status gives: the state, what is sent, and
-- whether the work is submitted again. The calls for events are numbered from 2.
unfoldable pub notify_work_fn : (ℕ → Status) → TagStatus → Gatt → Gatt × List Notification × Bool
unfolding drain_events send_sensor
notify_work_fn answers now g =
    let (left, sent, again) = drain_events answers 2 g g.event_queue in
    (
      record g { pending_sensor = none; event_queue = left },
      send_sensor answers now g g.pending_sensor ++ sent,
      again,
    )
