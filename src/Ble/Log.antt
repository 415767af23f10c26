-- ===== src/Ble/Log.antt =====
-- src/ble/ble_log.c: the download of a log as numbered chunks.
--
-- The notifications go to the GATT layer: whether the client is subscribed and what ble_gatt_notify
-- answers are arguments of a step. A step's results are the new stream, the chunk offered to
-- ble_gatt_notify, and the delay in milliseconds after which the work runs again, if it is scheduled.
use nrf54l15_tag.Common.{
  ℕ, zero, suc, ◌+◌, ◌-◌, ◌*◌, ◌/◌, ◌%◌, ◌≡◌, Bool, true, false, not, ◌||◌, ltb, ◌==◌, min, add32,
  u16, if◌then◌else◌, length, List, [], ◌∷◌, ◌++◌, Option, none, some, Status, enomem, enotsup,
  einval, eacces,
}
use nrf54l15_tag.Storage.FlashLog.{
  Flash, FlashLog, FlashLogInfo, flash_log_read, flash_log_get_info,
}
pub mod Transfer
pub mod Download
pub mod Faults

-- CHUNK_PAYLOAD_MAX, CHUNK_GAP_MS
abbrev pub chunk_payload_max : ℕ
chunk_payload_max = 180

abbrev pub chunk_gap_ms : ℕ
chunk_gap_ms = 10

-- BLE_LOG_ID_SENSOR
abbrev pub log_id_sensor : ℕ
log_id_sensor = 1

-- struct stream_state
pub record Stream : Type 0 where
  pub active : Bool
  pub log_id : ℕ
  pub chunk_index : ℕ
  pub next_seq : ℕ
  pub remaining : ℕ

-- struct ble_log_chunk_header
pub record ChunkHeader : Type 0 where
  pub chunk_index : ℕ
  pub log_id : ℕ
  pub record_count : ℕ
  pub flags : ℕ
  pub record_size : ℕ
  pub first_seq : ℕ

-- A notification on Log Data: the header and the records that follow it.
pub record Chunk : Type 0 where
  pub header : ChunkHeader
  pub records : List (List ℕ)

-- log_instance of event_log.c and of sensor_log.c
pub record Logs (A : Type 0) : Type 0 where
  pub events : FlashLog A
  pub sensors : FlashLog A

-- struct ble_log_request
pub record LogRequest : Type 0 where
  pub opcode : ℕ
  pub log_id : ℕ
  pub start_seq : ℕ
  pub max_records : ℕ

-- struct ble_log_info
pub record LogInfo : Type 0 where
  pub event_count : ℕ
  pub event_oldest_seq : ℕ
  pub event_newest_seq : ℕ
  pub sensor_count : ℕ
  pub sensor_oldest_seq : ℕ
  pub sensor_newest_seq : ℕ
  pub event_record_size : ℕ
  pub sensor_record_size : ℕ
  pub streaming : ℕ

abbrev pub Step : Type 0
Step = Stream × Option Chunk × Option ℕ

-- record_size
unfoldable pub record_size : ℕ → ℕ
record_size id = if id == log_id_sensor then 17 else 8

-- The header that stream_work_fn fills in for the records it read.
unfoldable pub header_of : Stream → ℕ → ℕ → ChunkHeader
header_of s count flags = record {
  chunk_index = s.chunk_index;
  log_id = s.log_id;
  record_count = count % 256;
  flags = flags;
  record_size = record_size s.log_id;
  first_seq = s.next_seq;
}

-- `got <= 0 || want == 0U`: the empty terminating chunk.
unfoldable pub end_stream : Stream → Step
unfolding header_of
end_stream s =
    (record s { active = false }, some (record { header = header_of s 0 1; records = [] }), none)

-- The end of stream_work_fn, by what ble_gatt_notify returned; `got` records are in the chunk.
unfoldable pub chunk_notified : Status → ℕ → Stream → Stream × Option ℕ
chunk_notified (some enomem) got s = (s, some (chunk_gap_ms * 2))
chunk_notified (some err) got s = (record s { active = false }, none)
chunk_notified none got s =
    let sent = record s {
      chunk_index = u16 (s.chunk_index + 1);
      next_seq = add32 s.next_seq got;
    } in
    if s.remaining == 0 then (record sent { active = false }, none) else (sent, some chunk_gap_ms)

unfoldable pub offer_chunk : Status → List (List ℕ) → Stream → Step
unfolding header_of chunk_notified
offer_chunk sent records s =
    let got = length records in
    let left = s.remaining - min s.remaining got in
    let after = chunk_notified sent got (record s { remaining = left }) in
    (
      after.0,
      some (record { header = header_of s got (if left == 0 then 1 else 0); records = records }),
      after.1,
    )

unfoldable pub send_chunk : Status → ℕ → Option (List (List ℕ)) → Stream → Step
unfolding end_stream offer_chunk
send_chunk sent want none s = end_stream s
send_chunk sent want (some []) s = end_stream s
send_chunk sent want (some (r ∷ rs)) s =
    if want == 0 then end_stream s else offer_chunk sent (r ∷ rs) s

-- ble_log_abort: with k_work_cancel_delayable no run is scheduled afterwards.
unfoldable pub log_abort : Stream → Stream × Option ℕ
log_abort s = (record s { active = false }, none)

-- The chunks of a run that is followed by `rest` if it schedules one.
abbrev pub go_on : Step → (Stream → Stream × List Chunk) → Stream × List Chunk
go_on (s, none, none) rest = (s, [])
go_on (s, some c, none) rest = (s, c ∷ [])
go_on (s, none, some delay) rest = rest s
go_on (s, some c, some delay) rest = let r = rest s in (r.0, c ∷ r.1)

module _ (flash : Flash) where
  open flash use {Area}

  -- read_records, with event_log_read and sensor_log_read.
  unfoldable pub read_records : ℕ → ℕ → ℕ → Logs Area → Option (List (List ℕ))
  read_records id start_seq max logs =
      if id == log_id_sensor
      then flash_log_read flash start_seq max logs.sensors
      else flash_log_read flash start_seq max logs.events

  -- stream_work_fn
  unfoldable pub stream_work_fn : Bool → Status → Logs Area → Stream → Step
  unfolding send_chunk
  stream_work_fn subscribed sent logs s =
      if not s.active
      then (s, none, none)
      else if not subscribed
      then (record s { active = false }, none, none)
      else let want = min s.remaining (chunk_payload_max / record_size s.log_id) in
        send_chunk sent want (read_records s.log_id s.next_seq want logs) s

  -- The record_count of event_log_get_info or sensor_log_get_info.
  unfoldable pub record_count_of : ℕ → Logs Area → ℕ
  record_count_of id logs =
      if id == log_id_sensor
      then (flash_log_get_info flash logs.sensors).record_count
      else (flash_log_get_info flash logs.events).record_count

  -- ble_log_handle_request: with the delay of the run that it schedules, or none if it leaves the
  -- schedule, `pending`, as it is.
  unfoldable pub handle_request :
      Bool → LogRequest → Logs Area → Stream → Option ℕ → Stream × Option ℕ × Status
  unfolding log_abort
  handle_request subscribed q logs s pending =
      if q.opcode == 2
      then ((log_abort s).0, (log_abort s).1, none)
      else if not (q.opcode == 1)
      then (s, pending, some enotsup)
      else if ltb 1 q.log_id
      then (s, pending, some einval)
      else if not subscribed
      then (s, pending, some eacces)
      else (
        record {
          active = true;
          log_id = q.log_id;
          chunk_index = 0;
          next_seq = q.start_seq;
          remaining = if q.max_records == 0 then record_count_of q.log_id logs else q.max_records;
        },
        some 0,
        none,
      )

  -- ble_log_get_info
  unfoldable pub log_get_info : Logs Area → Stream → LogInfo
  log_get_info logs s =
      let events = flash_log_get_info flash logs.events in
      let sensors = flash_log_get_info flash logs.sensors in
      record {
        event_count = events.record_count;
        event_oldest_seq = events.oldest_seq;
        event_newest_seq = events.newest_seq;
        sensor_count = sensors.record_count;
        sensor_oldest_seq = sensors.oldest_seq;
        sensor_newest_seq = sensors.newest_seq;
        event_record_size = events.record_size;
        sensor_record_size = sensors.record_size;
        streaming = if s.active then 1 else 0;
      }

  -- The runs of the work while it is scheduled, up to n of them, every notification sent: the chunks
  -- that the client receives.
  unfoldable pub stream_run : ℕ → Logs Area → Stream → Stream × List Chunk
  stream_run zero logs s = (s, [])
  stream_run (suc n) logs s = go_on (stream_work_fn true none logs s) (λ t. stream_run n logs t)
