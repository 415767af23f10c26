-- ===== src/Ble/Log/Download.antt =====
-- A download of src/ble/ble_log.c from a ring of src/storage/flash_manager.c.
use nrf54l15_tag.Common.{
  ℕ, suc, ◌+◌, ◌-◌, ◌≤◌, ◌<◌, ◌≡◌, true, false, Bool-cases, inl, inr, ltb, ◌==◌, refl, sym, ◌∙◌, ap,
  arith, if◌then◌else◌, length, take, drop, take-map, drop-map, length-map, length-drop, if_ready,
  drop-drop, map, List, Option, some, subst,
}
use nrf54l15_tag.Storage.FlashLog.{
  Flash, FlashLog, FlashLogInfo, flash_log_read, flash_log_get_info,
}
use nrf54l15_tag.Storage.FlashLog.Ring.{IsRing}
use nrf54l15_tag.Storage.FlashLog.Ring.Read.{flash_log_read-IsRing}
use nrf54l15_tag.Ble.Log.{
  Logs, LogRequest, Stream, log_id_sensor, read_records, record_count_of, handle_request,
  stream_run,
}
use nrf54l15_tag.Ble.Log.Transfer.{Reads, Delivers, stream_at, stream_run-Delivers}

-- The log that an identifier stands for.
abbrev pub log_of : {A : Type 0} → ℕ → Logs A → FlashLog A
log_of id logs = if id == log_id_sensor then logs.sensors else logs.events

-- The number of records that a request asks for.
abbrev pub asked : LogRequest → ℕ → ℕ
asked q count = if q.max_records == 0 then count else q.max_records

module _ (flash : Flash) (logs : Logs flash.Area) (id : ℕ) where
  read_records_of :
      (start_seq max : ℕ)
      → read_records flash id start_seq max logs
        ≡ flash_log_read flash start_seq max (log_of id logs)
  unfolding read_records
  read_records_of start_seq max = elim (Bool-cases (id == log_id_sensor)) [
    | inl h ↦ rw h refl
    | inr h ↦ rw h refl
  ]

  counted_log :
      record_count_of flash id logs ≡ (flash_log_get_info flash (log_of id logs)).record_count
  unfolding record_count_of
  counted_log = elim (Bool-cases (id == log_id_sensor)) [ inl h ↦ rw h refl | inr h ↦ rw h refl ]

  ready_count :
      (l : FlashLog flash.Area)
      → l.ready ≡ true
      → (flash_log_get_info flash l).record_count ≡ l.used_slots
  unfolding flash_log_get_info
  ready_count l h = ap (λ (x : FlashLogInfo). x.record_count) (if_ready l.ready _ _ h)

  module _ (f room : ℕ) (rs : List (List ℕ)) (v : IsRing flash (log_of id logs) f room rs) where
    -- The records from position d on, as flash_log_read copies them out.
    abbrev pub payloads_from : ℕ → List (List ℕ)
    payloads_from d = map (take (log_of id logs).payload_size) (drop d rs)

    -- A ring reads as the list of its records, from the oldest one's number on.
    pub ring-Reads : (q : ℕ) → f + 1 ≤ q → Reads flash logs id q (payloads_from (q - (f + 1)))
    ring-Reads q h i max =
        let d = q - (f + 1) in
        let copy : List ℕ → List ℕ = take (log_of id logs).payload_size in
        let index : q + i - (f + 1) ≡ d + i = omega arith in
        read_records_of (q + i) max
        ∙ flash_log_read-IsRing flash (log_of id logs) f room rs (q + i) max v
        ∙ ap (λ j. some (map copy (take max (drop j rs)))) index
        ∙ ap (λ l. some (map copy (take max l))) (sym (drop-drop d i rs))
        ∙ ap some (sym (take-map copy max (drop i (drop d rs))))
        ∙ ap (λ l. some (take max l)) (sym (drop-map copy i (drop d rs)))

    -- Whatever is asked of it from below, a ring answers with its oldest records.
    pub ring_below :
        (q max : ℕ)
        → q ≤ f + 1
        → read_records flash id q max logs ≡ some (take max (payloads_from 0))
    ring_below q max h =
        let copy : List ℕ → List ℕ = take (log_of id logs).payload_size in
        let index : q - (f + 1) ≡ 0 = omega arith in
        read_records_of q max
        ∙ flash_log_read-IsRing flash (log_of id logs) f room rs q max v
        ∙ ap (λ j. some (map copy (take max (drop j rs)))) index
        ∙ ap some (sym (take-map copy max rs))

    length-payloads_from : (d : ℕ) → length (payloads_from d) ≤ length rs
    length-payloads_from d =
        let copy : List ℕ → List ℕ = take (log_of id logs).payload_size in
        omega (arith, length-map copy (drop d rs), length-drop d rs)

    record_count_lem : record_count_of flash id logs ≡ length rs
    record_count_lem = counted_log ∙ ready_count (log_of id logs) v.ready ∙ v.used

module _ (flash : Flash) (logs : Logs flash.Area) where
  started :
      (r : LogRequest) (s : Stream) (pending : Option ℕ)
      → r.opcode ≡ 1
      → r.log_id ≤ 1
      → (handle_request flash true r logs s pending).0
        ≡ stream_at r.log_id 0 r.start_seq (asked r (record_count_of flash r.log_id logs))
  unfolding handle_request
  started r s pending start known =
      let known2 : ltb 1 r.log_id ≡ false = ground arith in rw (start, known2) refl

  -- A download that starts at a record that is still in the log, or behind the newest, and of which
  -- every notification is sent: the client puts together as many of the records from there on as it
  -- asked for, or as the log holds if it asked for 0; the chunks are numbered from 0, each says the
  -- sequence number of its first record, only the last is flagged, and the stream ends.
  pub handle_request-stream_run :
      (r : LogRequest) (s : Stream) (pending : Option ℕ) (f room n : ℕ) (rs : List (List ℕ))
      → r.opcode ≡ 1
      → r.log_id ≤ 1
      → (v : IsRing flash (log_of r.log_id logs) f room rs) → f + 1 ≤ r.start_seq
      → r.start_seq + length rs < 4294967296
      → asked r (length rs) ≤ n
      → Delivers 0 r.start_seq
          (asked r (length rs))
          (map (take (log_of r.log_id logs).payload_size) (drop (r.start_seq - (f + 1)) rs))
          (stream_run flash (suc n) logs (handle_request flash true r logs s pending).0)
  handle_request-stream_run r s pending f room n rs start known v low word fuel =
      let copied = payloads_from flash logs r.log_id f room rs v (r.start_seq - (f + 1)) in
      let count = record_count_lem flash logs r.log_id f room rs v in
      let few = length-payloads_from flash logs r.log_id f room rs v (r.start_seq - (f + 1)) in
      let begun =
        started r s pending start known
        ∙ ap (λ c. stream_at r.log_id 0 r.start_seq (asked r c)) count in
      subst
        (λ x. Delivers 0 r.start_seq (asked r (length rs)) copied (stream_run flash (suc n) logs x))
        (sym begun)
        (stream_run-Delivers flash logs r.log_id n 0 r.start_seq (asked r (length rs)) copied fuel
          (omega arith) (ring-Reads flash logs r.log_id f room rs v r.start_seq low))
