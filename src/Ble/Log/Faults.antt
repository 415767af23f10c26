-- ===== src/Ble/Log/Faults.antt =====
-- Where src/ble/ble_log.c loses or repeats records.
use nrf54l15_tag.Common.{
  ℕ, ◌+◌, ◌-◌, ◌*◌, ◌≤◌, ◌<◌, ◌≡◌, true, refl, ◌∙◌, ap, arith, length, take, drop, map, length-map,
  length-drop, length-take, List, [], ◌∷◌, none, some, enomem, min, u16,
}
use nrf54l15_tag.Storage.FlashLog.{Flash}
use nrf54l15_tag.Storage.FlashLog.Ring.{IsRing}
use nrf54l15_tag.Ble.Log.{
  Logs, Stream, Chunk, Step, header_of, end_stream, offer_chunk, chunk_notified, read_records,
  stream_work_fn, chunk_gap_ms,
}
use nrf54l15_tag.Ble.Log.Transfer.{
  stream_at, chunk_room, step_end, step_offer, offer_more, room_some, chunk_at, Reads-next,
}
use nrf54l15_tag.Ble.Log.Download.{log_of, payloads_from, ring_below, ring-Reads}

module _ (flash : Flash) (logs : Logs flash.Area) (id : ℕ) where
  -- A last chunk that is refused for want of buffers leaves a stream with nothing to send.
  retried :
      (k q m : ℕ) (rs : List (List ℕ))
      → m ≤ length rs
      → ((offer_chunk (some enomem) rs (stream_at id k q m)).0 ≡ stream_at id k q 0)
        × ((offer_chunk (some enomem) rs (stream_at id k q m)).2 ≡ some (2 * chunk_gap_ms))
  unfolding offer_chunk chunk_notified
  retried k q m rs h =
      let z : m - min m (length rs) ≡ 0 = omega arith in
      (
        λ i. record {
          active = true;
          log_id = id;
          chunk_index = u16 k;
          next_seq = q;
          remaining = z i;
        },
        refl,
      )

  lost :
      (k q m : ℕ) (rs : List (List ℕ))
      → 0 < m
      → m ≤ length rs
      → read_records flash id q (min m (chunk_room id)) logs ≡ some rs
      → read_records flash id q 0 logs ≡ some []
      → (first : Step) × (stream_work_fn flash true (some enomem) logs (stream_at id k q m) ≡ first)
        × (first.2 ≡ some (2 * chunk_gap_ms))
        × (stream_work_fn flash true none logs first.0 ≡ end_stream (stream_at id k q 0))
  lost k q m [] h less e z = absurd (omega arith)
  lost k q m (r ∷ rs) h less e z =
      let (state, delay) = retried k q m (r ∷ rs) less in
      (
        offer_chunk (some enomem) (r ∷ rs) (stream_at id k q m),
        step_offer flash logs id (some enomem) k q m r rs h e,
        delay,
        ap (stream_work_fn flash true none logs) state
            ∙ step_end flash logs id k q 0
                (ap (λ (j : ℕ). read_records flash id q j logs) (omega arith) ∙ z),
      )

  -- The m records that are left fit a chunk and are in the log. When ble_gatt_notify returns -ENOMEM
  -- for that chunk, the run is repeated after 20 ms; but it then sends the empty terminating chunk, and
  -- the stream ends without the m records.
  pub stream_work_fn_retry :
      (k q m f room : ℕ) (rs : List (List ℕ))
      → IsRing flash (log_of id logs) f room rs
      → 0 < m
      → m ≤ chunk_room id
      → f + 1 ≤ q
      → q + m ≤ f + 1 + length rs
      → (first : Step) × (stream_work_fn flash true (some enomem) logs (stream_at id k q m) ≡ first)
        × (first.2 ≡ some (2 * chunk_gap_ms))
        × (stream_work_fn flash true none logs first.0 ≡ end_stream (stream_at id k q 0))
  stream_work_fn_retry k q m f room rs v some_left fits low high =
      let xs = payloads_from flash logs id f room rs v (q - (f + 1)) in
      let count : length xs ≡ length rs - (q - (f + 1)) =
        length-map (take (log_of id logs).payload_size) (drop (q - (f + 1)) rs)
        ∙ length-drop (q - (f + 1)) rs in
      let w = min m (chunk_room id) in
      let all : length (take w xs) ≡ w = length-take w xs (omega arith) in
      let reads = ring-Reads flash logs id f room rs v q low in
      lost k q m (take w xs) some_left (omega (arith, all)) (Reads-next flash logs id q w xs reads)
        (Reads-next flash logs id q 0 xs reads)

  offered_more :
      (k q m : ℕ) (rs : List (List ℕ))
      → 0 < length rs
      → length rs < m
      → q + length rs < 4294967296
      → read_records flash id q (min m (chunk_room id)) logs ≡ some rs
      → ◌≡◌ {A = Step} (stream_work_fn flash true none logs (stream_at id k q m)) (
        stream_at id (k + 1) (q + length rs) (m - length rs),
        some (chunk_at flash logs id k q m rs 0),
        some chunk_gap_ms,
      )
  offered_more k q m [] h more word e = absurd (omega arith)
  offered_more k q m (r ∷ rs) h more word e =
      step_offer flash logs id none k q m r rs (omega arith) e
      ∙ offer_more flash logs id k q m (r ∷ rs) (omega arith) word

  -- The next sequence number of a download is more than a chunk of records below the oldest record's,
  -- which is f + 1; a chunk of records or more is in the log, and more than two chunks of them are
  -- still to be sent, and the sequence numbers are not exhausted. Then the next two runs, if their
  -- notifications are accepted, send the same chunk of records, the oldest ones: the first under the
  -- sequence number that was next, the second under that number plus a chunk, and both numbers are
  -- below the oldest record's.
  pub stream_work_fn_repeats :
      (k q m f room : ℕ) (rs : List (List ℕ))
      → (v : IsRing flash (log_of id logs) f room rs) → chunk_room id * 2 < m
      → chunk_room id ≤ length rs
      → q + chunk_room id < f + 1
      → f + 1 + length rs < 4294967296
      → (next last : Stream) × (c d : Chunk) × ◌≡◌ {A = Step}
          (stream_work_fn flash true none logs (stream_at id k q m))
          (next, some c, some chunk_gap_ms)
        × ◌≡◌ {A = Step}
            (stream_work_fn flash true none logs next)
            (last, some d, some chunk_gap_ms)
        × (c.records ≡ take (chunk_room id) (map (take (log_of id logs).payload_size) rs))
        × (d.records ≡ c.records)
        × (c.header.first_seq ≡ q)
        × (d.header.first_seq ≡ q + chunk_room id)
        × (d.header.first_seq < f + 1)
  unfolding header_of
  stream_work_fn_repeats k q m f room rs v long many below word =
      let size = chunk_room id in
      let xs = payloads_from flash logs id f room rs v 0 in
      let count : length xs ≡ length rs = length-map (take (log_of id logs).payload_size) rs in
      let ys = take size xs in
      let full : length ys ≡ size = length-take size xs (omega (arith, count, many)) in
      let w : min m size ≡ size = omega arith in
      let w2 : min (m - length ys) size ≡ size = omega arith in
      let first : read_records flash id q (min m size) logs ≡ some ys =
        ap (λ (j : ℕ). read_records flash id q j logs) w
        ∙ ring_below flash logs id f room rs v q size (omega arith) in
      let again : read_records flash id (q + length ys) (min (m - length ys) size) logs ≡ some ys =
        ap (λ (j : ℕ). read_records flash id (q + length ys) j logs) w2
        ∙ ring_below flash logs id f room rs v (q + length ys) size (omega arith) in
      let some_fit = room_some id in
      (
        stream_at id (k + 1) (q + length ys) (m - length ys),
        stream_at id (k + 1 + 1) (q + length ys + length ys) (m - length ys - length ys),
        chunk_at flash logs id k q m ys 0,
        chunk_at flash logs id (k + 1) (q + length ys) (m - length ys) ys 0,
        offered_more k q m ys (omega arith) (omega arith) (omega arith) first,
        offered_more (k + 1) (q + length ys) (m - length ys) ys (omega arith) (omega arith)
            (omega (arith, full)) again,
        refl,
        refl,
        refl,
        ap (λ (j : ℕ). q + j) full,
        omega (arith, full),
      )
