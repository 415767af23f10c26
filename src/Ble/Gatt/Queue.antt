-- ===== src/Ble/Gatt/Queue.antt =====
-- What a client gets of the events that are queued in src/ble/ble_gatt.c.
use mathlib.Core.List.{append_assoc, append-nil}
use nrf54l15_tag.Common.{
  ℕ, suc, ◌+◌, ◌-◌, ◌≡◌, ◌≤◌, ◌<◌, true, false, Bool-cases, inl, inr, refl, ◌∙◌, ap, arith, ◌==◌,
  length, zero, length-append, length-drop, drop-drop, List, [], ◌∷◌, ◌++◌, map, drop, none, some,
  Status, enomem,
}
use nrf54l15_tag.SmartTag.{TagStatus, EventRecord}
use nrf54l15_tag.Ble.Gatt.{
  Gatt, event_sent, gatt_notify, is_subscribed, msgq_put, msgq_drop, queue_newest, on_event,
  send_sensor, event_notified, drain_events, notify_work_fn,
}

-- The events come in one after the other.
unfoldable pub arrive : List EventRecord → Gatt → Gatt
arrive [] g = g
arrive (e ∷ es) g = arrive es (on_event e g)

-- The last n of a list.
abbrev pub newest : {A : Type 0} → ℕ → List A → List A
newest n xs = drop (length xs - n) xs

drop-append :
    {A : Type 0} (k : ℕ) (xs ys : List A) → k ≤ length xs → drop k xs ++ ys ≡ drop k (xs ++ ys)
drop-append zero xs ys h = refl
drop-append (suc k) [] ys h = absurd (omega arith)
drop-append (suc k) (x ∷ xs) ys h = drop-append k xs ys (omega arith)

newest-append :
    {A : Type 0} (n : ℕ) (xs ys : List A) → newest n (newest n xs ++ ys) ≡ newest n (xs ++ ys)
newest-append n xs ys =
    let k = length xs - n in
    let all = length-append xs ys in
    let left = length-drop k (xs ++ ys) in
    ap (newest n) (drop-append k xs ys (omega arith))
    ∙ drop-drop k (length (drop k (xs ++ ys)) - n) (xs ++ ys)
    ∙ ap (λ j. drop j (xs ++ ys)) {x = k + (length (drop k (xs ++ ys)) - n)}
        {y = length (xs ++ ys) - n} (omega (arith, all, left))

newest-le : {A : Type 0} (n : ℕ) (xs : List A) → length (newest n xs) ≤ n
newest-le n xs = omega (arith, length-drop (length xs - n) xs)

queue_newest_lem :
    (e : EventRecord) (q : List EventRecord)
    → length q ≤ 8
    → queue_newest e q ≡ newest 8 (q ++ e ∷ [])
unfolding queue_newest msgq_put msgq_drop
queue_newest_lem e [] h = refl
queue_newest_lem e (x ∷ q) h =
    let more : length (q ++ e ∷ []) ≡ length q + 1 = length-append q (e ∷ []) in
    elim (Bool-cases (length (x ∷ q) == 8)) [
      | inl full ↦
          let seven : length q ≡ 7 = ground arith in
          let room : (length q == 8) ≡ false = ground arith in
          let k : length (x ∷ q ++ e ∷ []) - 8 ≡ 1 = omega arith in rw (full, room, k) refl
      | inr free ↦
          let k : length (x ∷ q ++ e ∷ []) - 8 ≡ 0 =
            let few : length q < 7 = ground arith in omega arith in
          rw (free, k) refl
    ]

arrive-queue :
    (es : List EventRecord) (g : Gatt)
    → length g.event_queue ≤ 8
    → (arrive es g).event_queue ≡ newest 8 (g.event_queue ++ es)
unfolding arrive on_event
arrive-queue [] g h =
    let k : length g.event_queue - 8 ≡ 0 = omega arith in rw (append-nil g.event_queue, k) refl
arrive-queue (e ∷ es) g h =
    let one = queue_newest_lem e g.event_queue h in
    arrive-queue es (on_event e g) (rw one (newest-le 8 (g.event_queue ++ e ∷ [])))
    ∙ ap (λ q. newest 8 (q ++ es)) one
    ∙ newest-append 8 (g.event_queue ++ e ∷ []) es
    ∙ ap (newest 8) (append_assoc g.event_queue (e ∷ []) es)

arrive-subscribed :
    (es : List EventRecord) (g : Gatt)
    → ((arrive es g).subscribed ≡ g.subscribed) × ((arrive es g).pending_sensor ≡ g.pending_sensor)
unfolding arrive on_event
arrive-subscribed [] g = (refl, refl)
arrive-subscribed (e ∷ es) g = arrive-subscribed es (on_event e g)

-- Every call of bt_gatt_notify returns 0.
abbrev pub AllSent : (ℕ → Status) → Type 0
AllSent answers = (n : ℕ) → answers n ≡ none

drain_events_all :
    (answers : ℕ → Status) (n : ℕ) (g : Gatt) (q : List EventRecord)
    → AllSent answers
    → g.subscribed.event ≡ true
    → drain_events answers n g q ≡ ([], map event_sent q, false)
unfolding drain_events event_notified gatt_notify is_subscribed
drain_events_all answers n g [] h on = refl
drain_events_all answers n g (e ∷ q) h on =
    rw (drain_events_all answers (n + 1) g q h on, on, h n) refl

notify_work_fn_all :
    (answers : ℕ → Status) (now : TagStatus) (g : Gatt)
    → g.pending_sensor ≡ none
    → AllSent answers
    → g.subscribed.event ≡ true
    → notify_work_fn answers now g
      ≡ (record g { pending_sensor = none; event_queue = [] }, map event_sent g.event_queue, false)
unfolding notify_work_fn send_sensor
notify_work_fn_all answers now g idle h on =
    rw (drain_events_all answers 2 g g.event_queue h on, idle) refl

-- Events come in while no sample is pending, into a queue of eight at most, and then the work runs,
-- with a client subscribed to events and every notification accepted: the client is sent the newest
-- eight of the queued and the new events, in the order in which they came, each once; the queue is
-- empty afterwards and the work is not submitted again.
pub notify_work_fn-arrive :
    (answers : ℕ → Status) (now : TagStatus) (es : List EventRecord) (g : Gatt)
    → length g.event_queue ≤ 8
    → g.pending_sensor ≡ none
    → AllSent answers
    → g.subscribed.event ≡ true
    → let r = notify_work_fn answers now (arrive es g) in
      (r.1 ≡ map event_sent (newest 8 (g.event_queue ++ es)))
      × (r.0.event_queue ≡ [])
      × (r.2 ≡ false)
notify_work_fn-arrive answers now es g few idle h on =
    let (subscribed, pending) = arrive-subscribed es g in
    let run =
      notify_work_fn_all answers now (arrive es g) (pending ∙ idle) h
        (ap (λ s. s.event) subscribed ∙ on) in
    rw run (ap (map event_sent) (arrive-queue es g few), refl, refl)

notify_work_fn_first :
    (busy : ℕ → Status) (now : TagStatus) (e : EventRecord) (q : List EventRecord) (g : Gatt)
    → g.event_queue ≡ e ∷ q
    → length q < 8
    → g.pending_sensor ≡ none
    → g.subscribed.event ≡ true
    → busy 2 ≡ some enomem
    → notify_work_fn busy now g
      ≡ (record g { pending_sensor = none; event_queue = q ++ e ∷ [] }, [], true)
unfolding notify_work_fn send_sensor drain_events event_notified gatt_notify is_subscribed msgq_put
notify_work_fn_first busy now e q g queue few idle on full =
    let room : (length q == 8) ≡ false = ground arith in rw (queue, idle, on, full, room) refl

-- The first event of the queue is refused for want of buffers: the run sends nothing and is
-- submitted again; when that run's notifications are accepted, the event comes behind the events
-- that were queued after it.
pub notify_work_fn_retry :
    (busy answers : ℕ → Status) (now : TagStatus) (e : EventRecord) (q : List EventRecord)
    (g : Gatt)
    → g.event_queue ≡ e ∷ q
    → length q < 8
    → g.pending_sensor ≡ none
    → g.subscribed.event ≡ true
    → busy 2 ≡ some enomem
    → AllSent answers
    → let first = notify_work_fn busy now g in
      (first.1 ≡ [])
      × (first.2 ≡ true)
      × ((notify_work_fn answers now first.0).1 ≡ map event_sent (q ++ e ∷ []))
notify_work_fn_retry busy answers now e q g queue few idle on full h =
    let first = notify_work_fn_first busy now e q g queue few idle on full in
    rw first (
      refl,
      refl,
      ap (λ r. r.1)
          (notify_work_fn_all answers now
            (record g { pending_sensor = none; event_queue = q ++ e ∷ [] }) refl h on),
    )
