-- ===== src/Ble/Log/Transfer.antt =====
-- The runs of src/ble/ble_log.c's stream_work_fn over a log that reads as a list.
use native.Mathlib.Nat.{mod-eq_of_lt, mod-add-mod}
use nrf54l15_tag.Common.{
  ℕ, zero, suc, ◌+◌, ◌-◌, ◌/◌, ◌%◌, ◌≤◌, ◌<◌, ◌≡◌, ◌≢◌, inl, inr, true, false, Bool-cases, ltb,
  ltb→lt, ◌==◌, min, add32, u16, refl, sym, ◌∙◌, ap, arith, length, take, drop, drop-drop,
  take-append, length-take-le, length-take-le_length, length-drop, subst, List, [], ◌∷◌, ◌++◌, none,
  some, Status,
}
use nrf54l15_tag.Storage.FlashLog.{Flash}
use nrf54l15_tag.Ble.Log.{
  Stream, Chunk, Logs, Step, record_size, header_of, end_stream, offer_chunk, read_records, go_on,
  stream_work_fn, stream_run, chunk_payload_max, chunk_gap_ms,
}

-- The header of the k-th chunk of a transfer, whose records are numbered from q on.
pub record IsChunk (k q : ℕ) (c : Chunk) : Type 0 where
  pub index : c.header.chunk_index ≡ u16 k
  pub first : c.header.first_seq ≡ q
  pub count : c.header.record_count ≡ length c.records

-- Chunks numbered from k on, of consecutive records from q on, the last and only the last flagged.
abbrev pub IsTransfer : ℕ → ℕ → List Chunk → Type 0
IsTransfer k q [] = ⊥
IsTransfer k q (c ∷ []) = IsChunk k q c × (c.header.flags ≡ 1)
IsTransfer k q (c ∷ d ∷ cs) =
    IsChunk k q c × (c.header.flags ≡ 0) × IsTransfer (k + 1) (q + length c.records) (d ∷ cs)

-- What the client has when it puts the chunks together.
abbrev pub reassemble : List Chunk → List (List ℕ)
reassemble [] = []
reassemble (c ∷ cs) = c.records ++ reassemble cs

abbrev pub stream_at : ℕ → ℕ → ℕ → ℕ → Stream
stream_at id k q m = record {
  active = true;
  log_id = id;
  chunk_index = u16 k;
  next_seq = q;
  remaining = m;
}

-- The most records in a chunk.
abbrev pub chunk_room : ℕ → ℕ
chunk_room id = chunk_payload_max / record_size id

pub room_some : (id : ℕ) → 0 < chunk_room id
unfolding record_size
room_some id = elim (Bool-cases (id == 1)) [
  | inl h ↦ rw h (omega arith)
  | inr h ↦ rw h (omega arith)
]

room_byte : (id : ℕ) → chunk_room id < 256
unfolding record_size
room_byte id = elim (Bool-cases (id == 1)) [
  | inl h ↦ rw h (omega arith)
  | inr h ↦ rw h (omega arith)
]

append_nil : (xs : List (List ℕ)) → xs ++ [] ≡ xs
append_nil [] = refl
append_nil (x ∷ xs) = ap (λ l. x ∷ l) (append_nil xs)

take_nothing : (w m : ℕ) (xs : List (List ℕ)) → take w xs ≡ [] → (0 < m → 0 < w) → take m xs ≡ []
take_nothing w zero xs e h = refl
take_nothing w (suc m) [] e h = refl
take_nothing zero (suc m) (x ∷ xs) e h = absurd (omega (arith, h (omega arith)))
take_nothing (suc w) (suc m) (x ∷ xs) e h = cc

length_zero : (xs : List (List ℕ)) → length xs ≡ 0 → xs ≡ []
length_zero [] e = refl
length_zero (x ∷ xs) e = absurd (omega arith)

cons-IsTransfer :
    (k q : ℕ) (c : Chunk) (cs : List Chunk)
    → IsChunk k q c
    → c.header.flags ≡ 0
    → IsTransfer (k + 1) (q + length c.records) cs
    → IsTransfer k q (c ∷ cs)
cons-IsTransfer k q c [] v e t = elim t [ ]
cons-IsTransfer k q c (d ∷ cs) v e t = (v, e, t)

-- The download of m of the records xs from the sequence number q on, with chunks numbered from k on.
abbrev pub Delivers : ℕ → ℕ → ℕ → List (List ℕ) → Stream × List Chunk → Type 0
Delivers k q m xs r = (r.0.active ≡ false) × (reassemble r.1 ≡ take m xs) × IsTransfer k q r.1

module _ (flash : Flash) (logs : Logs flash.Area) (id : ℕ) where
  -- The log with identifier id holds the records xs from the sequence number q on.
  abbrev pub Reads : ℕ → List (List ℕ) → Type 0
  Reads q xs = (i max : ℕ) → read_records flash id (q + i) max logs ≡ some (take max (drop i xs))

  pub step_end :
      (k q m : ℕ)
      → read_records flash id q (min m (chunk_room id)) logs ≡ some []
      → stream_work_fn flash true none logs (stream_at id k q m) ≡ end_stream (stream_at id k q m)
  unfolding stream_work_fn
  step_end k q m e = rw e refl

  pub step_offer :
      (sent : Status) (k q m : ℕ) (r : List ℕ) (rs : List (List ℕ))
      → 0 < m
      → read_records flash id q (min m (chunk_room id)) logs ≡ some (r ∷ rs)
      → stream_work_fn flash true sent logs (stream_at id k q m)
        ≡ offer_chunk sent (r ∷ rs) (stream_at id k q m)
  unfolding stream_work_fn
  step_offer sent k q m r rs h e =
      let some_wanted : (min m (chunk_room id) == 0) ≡ false = ground (arith, room_some id) in
      rw e (rw some_wanted refl)

  run_stop :
      (n : ℕ) (s s2 : Stream) (c : Chunk)
      → ◌≡◌ {A = Step} (stream_work_fn flash true none logs s) (s2, some c, none)
      → ◌≡◌ {A = Stream × List Chunk} (stream_run flash (suc n) logs s) (s2, c ∷ [])
  unfolding stream_run
  run_stop n s s2 c e = ap (λ r. go_on r (λ t. stream_run flash n logs t)) e

  run_on :
      (n : ℕ) (s s2 : Stream) (c : Chunk) (d : ℕ)
      → ◌≡◌ {A = Step} (stream_work_fn flash true none logs s) (s2, some c, some d)
      → ◌≡◌ {A = Stream × List Chunk}
          (stream_run flash (suc n) logs s)
          ((stream_run flash n logs s2).0, c ∷ (stream_run flash n logs s2).1)
  unfolding stream_run
  run_on n s s2 c d e = ap (λ r. go_on r (λ t. stream_run flash n logs t)) e

  -- The chunk that the k-th run offers.
  abbrev pub chunk_at : ℕ → ℕ → ℕ → List (List ℕ) → ℕ → Chunk
  chunk_at k q m rs flags = record {
    header = header_of (stream_at id k q m) (length rs) flags;
    records = rs;
  }

  offer_last :
      (k q m : ℕ) (rs : List (List ℕ))
      → m - min m (length rs) ≡ 0
      → (s : Stream) × (s.active ≡ false)
        × ◌≡◌ {A = Step}
            (offer_chunk none rs (stream_at id k q m))
            (s, some (chunk_at k q m rs 1), none)
  unfolding offer_chunk header_of
  offer_last k q m rs e = (
    record {
      active = false;
      log_id = id;
      chunk_index = u16 (u16 k + 1);
      next_seq = add32 q (length rs);
      remaining = m - min m (length rs);
    },
    refl,
    rw e refl,
  )

  pub offer_more :
      (k q m : ℕ) (rs : List (List ℕ))
      → m - min m (length rs) ≢ 0
      → q + length rs < 4294967296
      → ◌≡◌ {A = Step} (offer_chunk none rs (stream_at id k q m)) (
        stream_at id (k + 1) (q + length rs) (m - length rs),
        some (chunk_at k q m rs 0),
        some chunk_gap_ms,
      )
  unfolding offer_chunk header_of add32
  offer_more k q m rs e h =
      let more : (m - min m (length rs) == 0) ≡ false = ground arith in
      let left : m - min m (length rs) ≡ m - length rs = omega arith in
      let seq : (q + length rs) % 4294967296 ≡ q + length rs = mod-eq_of_lt h in
      let next : (k % 65536 + 1) % 65536 ≡ (k + 1) % 65536 = mod-add-mod k 65536 1 in
      rw more (λ i. (
        record {
          active = true;
          log_id = id;
          chunk_index = next i;
          next_seq = seq i;
          remaining = left i;
        },
        some (chunk_at k q m rs 0),
        some chunk_gap_ms,
      ))

  chunk_at-IsChunk :
      (k q m flags : ℕ) (rs : List (List ℕ))
      → length rs < 256
      → IsChunk k q (chunk_at k q m rs flags)
  unfolding header_of
  chunk_at-IsChunk k q m flags rs h = record { index = refl; first = refl; count = mod-eq_of_lt h }

  -- What the next run reads.
  pub Reads-next :
      (q max : ℕ) (xs : List (List ℕ))
      → Reads q xs
      → read_records flash id q max logs ≡ some (take max xs)
  Reads-next q max xs h =
      let p : q ≡ q + 0 = omega arith in
      ap (λ (j : ℕ). read_records flash id j max logs) p ∙ h 0 max

  Reads-on : (q g : ℕ) (xs : List (List ℕ)) → Reads q xs → Reads (q + g) (drop g xs)
  Reads-on q g xs h i max =
      ap (λ (j : ℕ). read_records flash id j max logs) (omega arith)
      ∙ h (g + i) max
      ∙ ap (λ l. some (take max l)) (sym (drop-drop g i xs))

  module _ (k q m : ℕ) (xs : List (List ℕ)) where
    abbrev want : ℕ
    want = min m (chunk_room id)

    abbrev start : Stream
    start = stream_at id k q m

    here :
        (ys : List (List ℕ))
        → Reads q xs
        → take want xs ≡ ys
        → read_records flash id q want logs ≡ some ys
    here ys h e = Reads-next q want xs h ∙ ap some e

    Delivers-nothing :
        (n : ℕ)
        → Reads q xs
        → take want xs ≡ []
        → Delivers k q m xs (stream_run flash (suc n) logs start)
    unfolding end_stream header_of
    Delivers-nothing n h e =
        let all : take m xs ≡ [] = take_nothing want m xs e (λ p. omega (arith, room_some id)) in
        let ran = run_stop n start _ _ (step_end k q m (here [] h e)) in
        subst (Delivers k q m xs) (sym ran)
          (refl, sym all, (record { index = refl; first = refl; count = refl }, refl))

    module _ (ys : List (List ℕ)) (h : Reads q xs) (e : take want xs ≡ ys)
        (some_read : 0 < length ys) where
      few : length ys ≤ want
      few =
          let short : length (take want xs) ≤ want = length-take-le want xs in
          let same : length (take want xs) ≡ length ys = ap length e in omega arith

      offered : stream_work_fn flash true none logs start ≡ offer_chunk none ys start
      offered = go ys refl
        where
          go :
              (l : List (List ℕ))
              → ys ≡ l
              → stream_work_fn flash true none logs start ≡ offer_chunk none ys start
          go [] z = absurd (omega (arith, some_read, ap length z))
          go (r ∷ rs) z =
              step_offer none k q m r rs (omega (arith, few, some_read)) (here (r ∷ rs) h (e ∙ z))
              ∙ ap (λ l. offer_chunk none l start) (sym z)

      is_chunk : (flags : ℕ) → IsChunk k q (chunk_at k q m ys flags)
      is_chunk flags = chunk_at-IsChunk k q m flags ys (omega (arith, few, room_byte id))

      parts : take m xs ≡ ys ++ take (m - length ys) (drop (length ys) xs)
      parts =
          take-append want m xs (omega arith)
          ∙ ap (λ (l : List (List ℕ)). l ++ take (m - length l) (drop (length l) xs)) e

      Delivers-last :
          (n : ℕ)
          → m - min m (length ys) ≡ 0
          → Delivers k q m xs (stream_run flash (suc n) logs start)
      unfolding header_of
      Delivers-last n last =
          let (s, over, step) = offer_last k q m ys last in
          let ran = run_stop n start _ _ (offered ∙ step) in
          let none_left : m - length ys ≡ 0 = omega arith in
          subst (Delivers k q m xs) (sym ran) (
            over,
            ap (λ j. ys ++ take j (drop (length ys) xs)) (sym none_left) ∙ sym parts,
            (is_chunk 1, refl),
          )

      Delivers-more :
          (n : ℕ)
          → m - min m (length ys) ≢ 0
          → q + length ys < 4294967296
          → Delivers
              (k + 1)
              (q + length ys)
              (m - length ys)
              (drop (length ys) xs)
              (stream_run flash n logs (stream_at id (k + 1) (q + length ys) (m - length ys)))
          → Delivers k q m xs (stream_run flash (suc n) logs start)
      unfolding header_of
      Delivers-more n more word (over, data_rest, numbered) =
          let ran = run_on n start _ _ _ (offered ∙ offer_more k q m ys more word) in
          subst (Delivers k q m xs) (sym ran) (
            over,
            ap (λ l. ys ++ l) data_rest ∙ sym parts,
            cons-IsTransfer k q (chunk_at k q m ys 0) _ (is_chunk 0) refl numbered,
          )

  -- Fuel for a run for each record wanted, and one more, is enough.
  pub stream_run-Delivers :
      (n k q m : ℕ) (xs : List (List ℕ))
      → m ≤ n
      → q + length xs < 4294967296
      → Reads q xs
      → Delivers k q m xs (stream_run flash (suc n) logs (stream_at id k q m))
  stream_run-Delivers zero k q m xs fuel word h =
      let no_room : want k q m xs ≡ 0 = omega arith in
      Delivers-nothing k q m xs 0 h (ap (λ j. take j xs) no_room)
  stream_run-Delivers (suc n) k q m xs fuel word h =
      let ys = take (want k q m xs) xs in
      let g = length ys in
      let short : g ≤ length xs = length-take-le_length (want k q m xs) xs in
      elim (Bool-cases (ltb 0 g)) [
        | inr empty ↦ Delivers-nothing k q m xs (suc n) h (length_zero ys (ground arith))
        | inl full ↦
            let some_read : 0 < g = ltb→lt _ _ full in
            elim (Bool-cases (m - min m g == 0)) [
              | inl last ↦ Delivers-last k q m xs ys h refl some_read (suc n) (ground arith)
              | inr more ↦
                  Delivers-more k q m xs ys h refl some_read (suc n) (ground arith) (omega arith) (
                    stream_run-Delivers n (k + 1) (q + g) (m - g) (drop g xs) (omega arith)
                      (omega (arith, length-drop g xs)) (Reads-on q g xs h))
            ]
      ]
