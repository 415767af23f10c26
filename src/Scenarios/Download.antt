-- ===== src/Scenarios/Download.antt =====
-- Downloads of the full ring over Bluetooth.
use nrf54l15_tag.Common.{
  ℕ, ◌+◌, ◌*◌, ◌≡◌, ◌<◌, refl, true, false, Option, none, some, enomem, arith, map, take, drop,
}
use nrf54l15_tag.Storage.FlashLog.{Slot}
use nrf54l15_tag.Ble.Log.{
  Logs, LogRequest, Stream, Chunk, Step, stream_work_fn, handle_request, stream_run, end_stream,
  chunk_gap_ms, record_size,
}
use nrf54l15_tag.Ble.Log.Transfer.{Delivers, stream_at}
use nrf54l15_tag.Ble.Log.Download.{handle_request-stream_run}
use nrf54l15_tag.Ble.Log.Faults.{stream_work_fn_retry, stream_work_fn_repeats}
use nrf54l15_tag.Scenarios.Flash.{ram_flash}
use nrf54l15_tag.Scenarios.Ring.{full_ring, twelve, full_ring-IsRing}

abbrev both_logs : Logs (ℕ → Option Slot)
both_logs = record { events = full_ring; sensors = full_ring }

abbrev whole_history : LogRequest
whole_history = record { opcode = 1; log_id = 1; start_seq = 24; max_records = 0 }

abbrev idle_stream : Stream
idle_stream = record { active = false; log_id = 0; chunk_index = 0; next_seq = 0; remaining = 0 }

handle_request-stream_run_example :
    let flash = ram_flash in
    let logs = both_logs in
    Delivers 0 24 12
      (map (take 17) (drop 3 twelve))
      (stream_run flash 13 logs (handle_request flash true whole_history logs idle_stream none).0)
handle_request-stream_run_example =
    handle_request-stream_run ram_flash both_logs whole_history idle_stream none 20 0 12 twelve refl
      (omega arith) full_ring-IsRing (omega arith) (omega arith) (omega arith)

stream_work_fn_retry_example :
    let flash = ram_flash in
    let logs = both_logs in
    (first : Step) × (stream_work_fn flash true (some enomem) logs (stream_at 1 1 25 5) ≡ first)
    × (first.2 ≡ some (2 * chunk_gap_ms))
    × (stream_work_fn flash true none logs first.0 ≡ end_stream (stream_at 1 1 25 0))
unfolding record_size
stream_work_fn_retry_example =
    stream_work_fn_retry ram_flash both_logs 1 1 25 5 20 0 twelve full_ring-IsRing (omega arith)
      (omega arith) (omega arith) (omega arith)

stream_work_fn_repeats_example :
    let flash = ram_flash in
    let logs = both_logs in
    (next last : Stream) × (c d : Chunk) × ◌≡◌ {A = Step}
      (stream_work_fn flash true none logs (stream_at 1 0 5 30))
      (next, some c, some chunk_gap_ms)
    × ◌≡◌ {A = Step} (stream_work_fn flash true none logs next) (last, some d, some chunk_gap_ms)
    × (c.records ≡ take 10 (map (take 17) twelve))
    × (d.records ≡ c.records)
    × (c.header.first_seq ≡ 5)
    × (d.header.first_seq ≡ 5 + 10)
    × (d.header.first_seq < 20 + 1)
unfolding record_size
stream_work_fn_repeats_example =
    stream_work_fn_repeats ram_flash both_logs 1 0 5 30 20 0 twelve full_ring-IsRing (omega arith)
      (omega arith) (omega arith) (omega arith)
