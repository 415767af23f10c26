-- ===== src/AppState/Fanout.antt =====
-- What src/app/app_state.c hands to its subscribers.
use nrf54l15_tag.Common.{
  ℕ, suc, ◌+◌, ◌≡◌, ℤ, Bool, true, false, not, ◌==◌, Bool-cases, inl, inr, refl, ap, sym, ◌∙◌,
  arith, leb, u32, add32, sub32, length, take, List, [], ◌∷◌, ◌++◌,
}
use mathlib.Core.List.{append-nil, append_assoc}
use nrf54l15_tag.SmartTag.{
  SensorData, Orientation, EventRecord, EventType, Severity, info, warning, alarm,
}
use nrf54l15_tag.Alarms.{AlarmEvent}
use nrf54l15_tag.Motion.Manager.{motion_manager_process}
use nrf54l15_tag.Storage.ConfigStorage.{Settings}
use nrf54l15_tag.AppState.Queue.{called_events, update_core-pending, update_core-count}
use nrf54l15_tag.AppState.Service.{
  Logs, App, Notice, Subscriber, stats_flush_interval_s, sensor_notices, event_notices, count_event,
  set_alarm_led, app_raise_event, raise_all, drain_pending_events, app_state_flush_statistics,
  add_history, clear_alarm_led, notify_sensor_data, flush_if_due, absorb, publish,
  app_process_sensor_data,
}

-- The record of an event that is raised at an uptime.
abbrev pub record_of : ℕ → AlarmEvent → EventRecord
record_of uptime_s e = record {
  timestamp = u32 uptime_s;
  type = e.type;
  severity = e.severity;
  value = e.value;
}

-- Every event of a batch to every subscriber with an event callback, event by event.
unfoldable pub batch_notices : ℕ → List AlarmEvent → List Subscriber → List Notice
batch_notices uptime_s [] ss = []
batch_notices uptime_s (e ∷ es) ss =
    event_notices 0 (record_of uptime_s e) ss ++ batch_notices uptime_s es ss

step_count :
    (before after rest : ℕ) {final : ℕ}
    → after ≡ add32 before 1
    → final ≡ u32 (after + rest)
    → final ≡ u32 (before + suc rest)
unfolding add32
step_count before after rest h k = omega arith

module _ (settings : Settings) (logging : Logs) where
  open settings use {Store}
  open logging use {LogStore}

  abbrev Tag : Type 0
  Tag = App Store LogStore

  -- What one raised event does to the parts that a subscriber sees.
  raise-parts :
      (t : EventType) (s : Severity) (v : ℤ) (a : Tag)
      → let b = (app_raise_event settings logging t s v a).0 in
        (b.core ≡ count_event a.core)
        × (b.subscribers ≡ a.subscribers)
        × (b.uptime_s ≡ a.uptime_s)
        × (b.notices
            ≡ a.notices
              ++ event_notices 0
                  (record { timestamp = u32 a.uptime_s; type = t; severity = s; value = v })
                  a.subscribers)
  unfolding app_raise_event
  raise-parts t info v a = (refl, refl, refl, refl)
  raise-parts t warning v a = (refl, refl, refl, refl)
  raise-parts t alarm v a = (refl, refl, refl, refl)

  count-parts :
      (a : Tag)
      → ((count_event a.core).pending ≡ a.core.pending)
        × ((count_event a.core).status.event_count ≡ add32 a.core.status.event_count 1)
  unfolding count_event
  count-parts a = (refl, refl)

  raise_all-parts :
      (es : List AlarmEvent) (a : Tag)
      → let b = raise_all settings logging es a in
        (b.core.pending ≡ a.core.pending)
        × (b.subscribers ≡ a.subscribers)
        × (b.notices ≡ a.notices ++ batch_notices a.uptime_s es a.subscribers)
        × (u32 b.core.status.event_count ≡ u32 (a.core.status.event_count + length es))
  unfolding raise_all batch_notices
  raise_all-parts [] a = (refl, refl, sym (append-nil a.notices), omega arith)
  raise_all-parts (e ∷ es) a =
      let b = (app_raise_event settings logging e.type e.severity e.value a).0 in
      let (core, subs, time, notes) = raise-parts e.type e.severity e.value a in
      let (p, q, r, n) = raise_all-parts es b in
      (
        p ∙ ap (λ k. k.pending) core ∙ (count-parts a).0,
        q ∙ subs,
        cc (
            append_assoc a.notices (event_notices 0 (record_of a.uptime_s e) a.subscribers)
              (batch_notices a.uptime_s es a.subscribers)),
        step_count a.core.status.event_count b.core.status.event_count (length es)
            (ap (λ k. k.status.event_count) core ∙ (count-parts a).1) n,
      )

  drain-parts :
      (a : Tag)
      → let b = drain_pending_events settings logging a in
        (b.core.pending ≡ [])
        × (b.subscribers ≡ a.subscribers)
        × (b.notices ≡ a.notices ++ batch_notices a.uptime_s a.core.pending a.subscribers)
        × (u32 b.core.status.event_count ≡ u32 (a.core.status.event_count + length a.core.pending))
  unfolding drain_pending_events
  drain-parts a =
      raise_all-parts a.core.pending (record a { core = record a.core { pending = [] } })

  -- The parts that only events and notifications change.
  abbrev Seen : Tag → Tag → Type 0
  Seen a b =
      (b.core ≡ a.core)
      × (b.subscribers ≡ a.subscribers)
      × (b.notices ≡ a.notices)
      × (b.uptime_s ≡ a.uptime_s)

  history-Seen :
      (d : SensorData) (on : Bool) (a : Tag) → Seen a (add_history settings logging d on a)
  unfolding add_history
  history-Seen d on a = elim (Bool-cases (a.config_state.config.sensor_history_enabled == 0)) [
    | inl off ↦ rw off (refl, refl, refl, refl)
    | inr kept ↦ rw kept (refl, refl, refl, refl)
  ]

  led-Seen : (on : Bool) (a : Tag) → Seen a (clear_alarm_led settings logging on a)
  unfolding clear_alarm_led set_alarm_led
  led-Seen true a = (refl, refl, refl, refl)
  led-Seen false a = (refl, refl, refl, refl)

  due-Seen : (now : ℕ) (a : Tag) → Seen a (flush_if_due settings logging now a)
  unfolding flush_if_due app_state_flush_statistics
  due-Seen now a = elim (Bool-cases (leb stats_flush_interval_s (sub32 now a.last_stats_flush))) [
    | inl yes_due ↦ rw yes_due (refl, refl, refl, refl)
    | inr not_due ↦ rw not_due (refl, refl, refl, refl)
  ]

  -- What a call leaves behind, given the events that it found pending.
  abbrev pub Reported : List AlarmEvent → SensorData → Tag → Tag → Type 0
  Reported es d a b =
      (b.core.pending ≡ [])
      × (u32 b.core.status.event_count ≡ u32 (a.core.status.event_count + length es))
      × (b.notices
          ≡ a.notices
            ++ batch_notices a.uptime_s es a.subscribers
            ++ sensor_notices 0 d a.subscribers)

  publish-Reported :
      (d : SensorData) (alarmed : Bool) (a : Tag)
      → Reported a.core.pending d a (publish settings logging d alarmed a)
  unfolding publish notify_sensor_data
  publish-Reported d alarmed a =
      let stored = add_history settings logging d alarmed a in
      let drained = drain_pending_events settings logging stored in
      let lit = clear_alarm_led settings logging alarmed drained in
      let noted = notify_sensor_data settings logging d lit in
      let (core1, subs1, notes1, time1) = history-Seen d alarmed a in
      let (pending2, subs2, notes2, count2) = drain-parts stored in
      let (core3, subs3, notes3, time3) = led-Seen alarmed drained in
      let (core4, subs4, notes4, time4) = due-Seen d.timestamp noted in
      (
        rw (core4, core3) pending2,
        rw (core4, core3, count2, core1),
        cc (notes4, subs3, subs2, notes3, notes2, notes1, subs1, time1, core1),
      )

  -- One sample, with no event pending before it. The events that it calls for are those of the motion
  -- manager, in the order start, stop, shock, free fall, orientation, tamper, and then those of the
  -- alarms; the first eight of them are kept and the others are lost. Afterwards no event is pending;
  -- each kept event has been counted once (modulo 2 ^ 32); and the subscribers have been given first
  -- the kept events, in order, and then, once, the sample with the orientation of the motion manager,
  -- and nothing else.
  pub process-Reported :
      (d : SensorData) (a : Tag)
      → a.core.pending ≡ []
      → let p = motion_manager_process d a.config_state.motion in
        Reported
          (take 8 (called_events p.sample p.result a.config_state.config a.expected_valid a.core))
          (record p.sample { orientation = p.result.orientation })
          a
          (app_process_sensor_data settings logging d a)
  unfolding app_process_sensor_data absorb
  process-Reported d a idle =
      let p = motion_manager_process d a.config_state.motion in
      let b = absorb settings logging p a in
      let c = a.config_state.config in
      let pending = update_core-pending p.sample p.result c a.expected_valid a.core idle in
      let (count, orientation) = update_core-count p.sample p.result c a.expected_valid a.core in
      let (empty, counted, noted) =
        publish-Reported (record p.sample { orientation = b.core.status.orientation })
          (not (b.core.status.alarm_flags == 0)) b in
      let first = b.core.pending in
      let kept = take 8 (called_events p.sample p.result c a.expected_valid a.core) in
      (
        empty,
        counted
            ∙ ap (λ (n : ℕ). u32 (n + length first)) count
            ∙ ap (λ (es : List AlarmEvent). u32 (a.core.status.event_count + length es)) pending,
        noted
            ∙ ap
                (λ (es : List AlarmEvent).
                  a.notices
                  ++ batch_notices a.uptime_s es a.subscribers
                  ++ sensor_notices 0 (record p.sample { orientation = b.core.status.orientation })
                      a.subscribers)
                pending
            ∙ ap
                (λ (o : Orientation).
                  a.notices
                  ++ batch_notices a.uptime_s kept a.subscribers
                  ++ sensor_notices 0 (record p.sample { orientation = o }) a.subscribers)
                orientation,
      )
