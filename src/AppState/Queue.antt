-- ===== src/AppState/Queue.antt =====
-- The eight pending events of src/app/app_state.c: which events of a sample are raised, and which
-- are lost.
use nrf54l15_tag.Common.{
  ℕ, zero, suc, ◌≡◌, pos, refl, ap, ◌∙◌, arith, min, leb, if◌then◌else◌, to_int16, length, take,
  List, [], ◌∷◌, ◌++◌,
}
use mathlib.Core.List.{append-nil, append_assoc}
use nrf54l15_tag.Common.Mask
use nrf54l15_tag.SmartTag.{
  SensorData, TagConfig, motion_start, motion_stop, shock, free_fall, orientation_change, tamper,
  info, alarm,
}
use nrf54l15_tag.Alarms.{AlarmEvent}
use nrf54l15_tag.Motion.Manager.{
  MotionResult, event_start, event_stop, event_shock, event_free_fall, event_orientation,
  event_tamper, orientation_code,
}
use nrf54l15_tag.AppState.Locked.{
  Core, event, queue_event, on_start, on_stop, on_shock, on_free_fall, on_orientation, on_tamper,
  apply_motion_result, queue_all, evaluate_alarms, check_thresholds, update_core, count_fault,
  lowest_battery, raise_max_shock,
}

-- An event for a bit that is set.
unfoldable pub event_if : ℕ → MotionResult → AlarmEvent → List AlarmEvent
event_if bit r e = if Mask.test bit r.events then e ∷ [] else []

-- The events that a motion result asks for, in order.
unfoldable pub motion_events : MotionResult → List AlarmEvent
motion_events r =
    event_if event_start r (event motion_start info (pos 0))
    ++ (event_if event_stop r (event motion_stop info (pos (min r.movement_duration_s 32767)))
        ++ (event_if event_shock r (event shock alarm (to_int16 r.shock_mg))
            ++ (event_if event_free_fall r (event free_fall alarm (pos 0))
                ++ (event_if event_orientation r
                      (event orientation_change info (pos (orientation_code r.orientation)))
                    ++ event_if event_tamper r (event tamper alarm (pos 0))))))

take_nil : (n : ℕ) → take n (let l : List AlarmEvent = [] in l) ≡ []
take_nil zero = refl
take_nil (suc n) = refl

take_snoc :
    (n : ℕ) (xs : List AlarmEvent) (e : AlarmEvent)
    → (if leb n (length (take n xs)) then take n xs else take n xs ++ e ∷ [])
      ≡ take n (xs ++ e ∷ [])
take_snoc zero xs e = refl
take_snoc (suc n) [] e = ground (arith, take_nil n)
take_snoc (suc n) (x ∷ xs) e = ground (arith, take_snoc n xs e)

-- The queue holds the first eight of the events that were queued.
queue_event-take :
    (e : AlarmEvent) (k : Core) (xs : List AlarmEvent)
    → k.pending ≡ take 8 xs
    → (queue_event e k).pending ≡ take 8 (xs ++ e ∷ [])
unfolding queue_event
queue_event-take e k xs h = ground (arith, take_snoc 8 xs e)

queue_all-take :
    (es : List AlarmEvent) (k : Core) (xs : List AlarmEvent)
    → k.pending ≡ take 8 xs
    → (queue_all es k).pending ≡ take 8 (xs ++ es)
unfolding queue_all
queue_all-take [] k xs h = rw append-nil h
queue_all-take (e ∷ es) k xs h =
    queue_all-take es (queue_event e k) (xs ++ e ∷ []) (queue_event-take e k xs h)
    ∙ ap (take 8) (append_assoc xs (e ∷ []) es)

module _ (r : MotionResult) (k : Core) (xs : List AlarmEvent) (h : k.pending ≡ take 8 xs) where
  start-take :
      (on_start r k).pending
      ≡ take 8 (xs ++ event_if event_start r (event motion_start info (pos 0)))
  unfolding on_start event_if
  start-take = ground (arith, take_snoc 8 xs (event motion_start info (pos 0)), append-nil xs)

  stop-take :
      (on_stop r k).pending
      ≡ take 8 (
          xs
          ++ event_if event_stop r (event motion_stop info (pos (min r.movement_duration_s 32767))))
  unfolding on_stop event_if
  stop-take = ground (
    arith,
    take_snoc 8 xs (event motion_stop info (pos (min r.movement_duration_s 32767))),
    append-nil xs,
  )

  shock-take :
      (on_shock r k).pending
      ≡ take 8 (xs ++ event_if event_shock r (event shock alarm (to_int16 r.shock_mg)))
  unfolding on_shock event_if
  shock-take =
      ground (arith, take_snoc 8 xs (event shock alarm (to_int16 r.shock_mg)), append-nil xs)

  free_fall-take :
      (on_free_fall r k).pending
      ≡ take 8 (xs ++ event_if event_free_fall r (event free_fall alarm (pos 0)))
  unfolding on_free_fall event_if
  free_fall-take = ground (arith, take_snoc 8 xs (event free_fall alarm (pos 0)), append-nil xs)

  orientation-take :
      (on_orientation r k).pending
      ≡ take 8 (
          xs
          ++ event_if event_orientation r
              (event orientation_change info (pos (orientation_code r.orientation))))
  unfolding on_orientation event_if
  orientation-take = ground (
    arith,
    take_snoc 8 xs (event orientation_change info (pos (orientation_code r.orientation))),
    append-nil xs,
  )

  tamper-take :
      (on_tamper r k).pending ≡ take 8 (xs ++ event_if event_tamper r (event tamper alarm (pos 0)))
  unfolding on_tamper event_if
  tamper-take = ground (arith, take_snoc 8 xs (event tamper alarm (pos 0)), append-nil xs)

motion-take :
    (r : MotionResult) (k : Core)
    → k.pending ≡ []
    → (apply_motion_result r k).pending ≡ take 8 (motion_events r)
unfolding apply_motion_result motion_events
motion-take r k h =
    let a = on_start r k in
    let b = on_stop r a in
    let c = on_shock r b in
    let d = on_free_fall r c in
    let e = on_orientation r d in
    let ea = event_if event_start r (event motion_start info (pos 0)) in
    let eb =
      event_if event_stop r (event motion_stop info (pos (min r.movement_duration_s 32767))) in
    let ec = event_if event_shock r (event shock alarm (to_int16 r.shock_mg)) in
    let ed = event_if event_free_fall r (event free_fall alarm (pos 0)) in
    let ee =
      event_if event_orientation r
        (event orientation_change info (pos (orientation_code r.orientation))) in
    let ef = event_if event_tamper r (event tamper alarm (pos 0)) in
    let ha = start-take r k [] h in
    let hb = stop-take r a ea ha in
    let hc = shock-take r b (ea ++ eb) hb in
    let hd = free_fall-take r c (ea ++ eb ++ ec) hc in
    let he = orientation-take r d (ea ++ eb ++ ec ++ ed) hd in
    tamper-take r e (ea ++ eb ++ ec ++ ed ++ ee) he ∙ ap (take 8) (simp append_assoc)

-- The events that one sample leaves pending are the first eight of those that it calls for: those of
-- the motion result, in the order start, stop, shock, free fall, orientation, tamper, and then those
-- of the alarms. So none is lost while there are at most eight of them.
pub update_core-pending :
    (d : SensorData) (r : MotionResult) (c : TagConfig) (x : ℕ) (k : Core)
    → k.pending ≡ []
    → (update_core d r c x k).pending
      ≡ take 8 (
          motion_events r
          ++ (evaluate_alarms d c x (apply_motion_result r (record k { last_sample = d }))).1)
unfolding update_core check_thresholds
update_core-pending d r c x k h =
    let m = apply_motion_result r (record k { last_sample = d }) in
    queue_all-take (evaluate_alarms d c x m).1
      (record m {
        status = record m.status { alarm_flags = (evaluate_alarms d c x m).0 };
        statistics =
            lowest_battery d
              (count_fault m.status.alarm_flags (evaluate_alarms d c x m).0 m.statistics);
      })
      (motion_events r) (motion-take r (record k { last_sample = d }) h)

-- The queue is all that queueing changes.
queue_event-status : (e : AlarmEvent) (k : Core) → (queue_event e k).status ≡ k.status
unfolding queue_event
queue_event-status e k = ground arith

queue_all-status : (es : List AlarmEvent) (k : Core) → (queue_all es k).status ≡ k.status
unfolding queue_all
queue_all-status [] k = refl
queue_all-status (e ∷ es) k = queue_all-status es (queue_event e k) ∙ queue_event-status e k

module _ (r : MotionResult) (k : Core) where
  start-count : (on_start r k).status.event_count ≡ k.status.event_count
  unfolding on_start queue_event
  start-count = ground arith

  stop-count : (on_stop r k).status.event_count ≡ k.status.event_count
  unfolding on_stop queue_event
  stop-count = ground arith

  shock-count : (on_shock r k).status.event_count ≡ k.status.event_count
  unfolding on_shock queue_event raise_max_shock
  shock-count = ground arith

  free_fall-count : (on_free_fall r k).status.event_count ≡ k.status.event_count
  unfolding on_free_fall queue_event
  free_fall-count = ground arith

  orientation-count : (on_orientation r k).status.event_count ≡ k.status.event_count
  unfolding on_orientation queue_event
  orientation-count = ground arith

  tamper-count : (on_tamper r k).status.event_count ≡ k.status.event_count
  unfolding on_tamper queue_event
  tamper-count = ground arith

motion-count :
    (r : MotionResult) (k : Core)
    → ((apply_motion_result r k).status.event_count ≡ k.status.event_count)
      × ((apply_motion_result r k).status.orientation ≡ r.orientation)
unfolding apply_motion_result
motion-count r k =
    let a = on_start r k in
    let b = on_stop r a in
    let c = on_shock r b in
    let d = on_free_fall r c in
    (
      tamper-count r (on_orientation r d)
          ∙ orientation-count r d
          ∙ free_fall-count r c
          ∙ shock-count r b
          ∙ stop-count r a
          ∙ start-count r k,
      refl,
    )

-- What the locked part leaves of the status: no event is counted in it, and the orientation is that of
-- the motion result.
pub update_core-count :
    (d : SensorData) (r : MotionResult) (c : TagConfig) (x : ℕ) (k : Core)
    → ((update_core d r c x k).status.event_count ≡ k.status.event_count)
      × ((update_core d r c x k).status.orientation ≡ r.orientation)
unfolding update_core check_thresholds
update_core-count d r c x k =
    let m = apply_motion_result r (record k { last_sample = d }) in
    let (flags, events) = evaluate_alarms d c x m in
    let before = record m {
      status = record m.status { alarm_flags = flags };
      statistics = lowest_battery d (count_fault m.status.alarm_flags flags m.statistics);
    } in
    let same = queue_all-status events before in
    let (count, orientation) = motion-count r (record k { last_sample = d }) in
    (ap (λ s. s.event_count) same ∙ count, ap (λ s. s.orientation) same ∙ orientation)

-- The events that a sample calls for, by what the motion manager makes of it: those of the motion
-- result, and then those of the alarms.
abbrev pub called_events : SensorData → MotionResult → TagConfig → ℕ → Core → List AlarmEvent
called_events d r c x k =
    motion_events r
    ++ (evaluate_alarms d c x (apply_motion_result r (record k { last_sample = d }))).1
