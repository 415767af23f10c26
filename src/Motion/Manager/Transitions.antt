-- ===== src/Motion/Manager/Transitions.antt =====
-- The events of src/motion/motion_manager.c are the changes of its state.
use nrf54l15_tag.Common.{
  ℕ, ◌≡◌, ◌≢◌, Bool, true, false, not, ◌&&◌, ◌∙◌, Bool-cases, inl, inr, refl, arith, if◌then◌else◌,
}
use nrf54l15_tag.Common.Mask
use nrf54l15_tag.SmartTag.{SensorData, Orientation, valid_accel}
use nrf54l15_tag.Motion.Shock.{ShockResult}
use nrf54l15_tag.Motion.Manager.{
  event_start, event_stop, event_orientation, event_tamper, MotionManager, Pass, is_stationary,
  is_unknown, same_orientation, report_shock, report_free_fall, update_motion, update_orientation,
  mark_motion, motion_manager_process, impact_pass, active_pass, detect, no_motion, was_settled,
}

pub same_orientation_self : (o : Orientation) → same_orientation o o ≡ true
unfolding same_orientation
same_orientation_self o = ground arith

pub ruleset event_laws =
    (arith, Mask.test-zero, Mask.test-insert_self, Mask.test-insert_ne, same_orientation_self)

module _ (settled shock : Bool) (p : Pass) where
  orientation_step :
      Mask.test 4 p.result.events ≡ false
      → Mask.test 5 p.result.events ≡ false
      → let q = update_orientation settled shock p in
        (Mask.test 4 q.result.events ≡ (
          not (is_unknown p.manager.orientation)
          && not (same_orientation q.manager.orientation p.manager.orientation)))
        × (Mask.test 5 q.result.events ≡ (not p.manager.tamper && q.manager.tamper))
        × (q.manager.state ≡ p.manager.state)
        × (Mask.test 0 q.result.events ≡ Mask.test 0 p.result.events)
        × (Mask.test 1 q.result.events ≡ Mask.test 1 p.result.events)
  unfolding update_orientation
  orientation_step h k =
      (grind event_laws, grind event_laws, grind event_laws, grind event_laws, grind event_laws)

  motion_step :
      (now : ℕ)
      → Mask.test 0 p.result.events ≡ false
      → Mask.test 1 p.result.events ≡ false
      → let q = update_motion now p in
        (Mask.test 0 q.result.events
          ≡ (is_stationary p.manager.state && not (is_stationary q.manager.state)))
        × (Mask.test 1 q.result.events
            ≡ (not (is_stationary p.manager.state) && is_stationary q.manager.state))
        × (q.manager.orientation ≡ p.manager.orientation)
        × (q.manager.tamper ≡ p.manager.tamper)
        × (Mask.test 4 q.result.events ≡ Mask.test 4 p.result.events)
        × (Mask.test 5 q.result.events ≡ Mask.test 5 p.result.events)
  unfolding update_motion
  motion_step now h k = (
    grind event_laws,
    grind event_laws,
    grind event_laws,
    grind event_laws,
    grind event_laws,
    grind event_laws,
  )

impact_step :
    (s : ShockResult) (p : Pass) (j : ℕ)
    → j ≢ 2
    → j ≢ 3
    → let q = report_free_fall s (report_shock s p) in
      (q.manager ≡ p.manager) × (Mask.test j q.result.events ≡ Mask.test j p.result.events)
unfolding report_free_fall report_shock
impact_step s p j h k = (grind event_laws, grind event_laws)

impact_pass_lem :
    (d : SensorData) (m : MotionManager) (j : ℕ)
    → j ≢ 2
    → j ≢ 3
    → let q = impact_pass d m in
      (q.manager ≡ record m { detector = (detect d m).0 }) × (Mask.test j q.result.events ≡ false)
unfolding impact_pass
impact_pass_lem d m j h k =
    let (detector, shock) = detect d m in
    let start : Pass = record {
      manager = record m { detector = detector };
      sample = d;
      result = no_motion;
    } in
    let step = impact_step shock start j h k in (step.0, step.1 ∙ Mask.test-zero j)

module _ (d : SensorData) (m : MotionManager) where
  unmoved : (j : ℕ) → (j ≢ 2) × (j ≢ 3) → Mask.test j (impact_pass d m).result.events ≡ false
  unmoved j h = (impact_pass_lem d m j h.0 h.1).1

  kept : (impact_pass d m).manager ≡ record m { detector = (detect d m).0 }
  kept = (impact_pass_lem d m 0 (omega arith) (omega arith)).0

  active-events :
      let p = active_pass d m in
      (Mask.test event_start p.result.events
        ≡ (is_stationary m.state && not (is_stationary p.manager.state)))
      × (Mask.test event_stop p.result.events
          ≡ (not (is_stationary m.state) && is_stationary p.manager.state))
      × (Mask.test event_orientation p.result.events ≡ (
          not (is_unknown m.orientation)
          && not (same_orientation p.manager.orientation m.orientation)))
      × (Mask.test event_tamper p.result.events ≡ (not m.tamper && p.manager.tamper))
  unfolding active_pass
  active-events =
      let i = impact_pass d m in
      let a = mark_motion (update_motion d.timestamp i) in
      let u =
        motion_step (was_settled m d.timestamp) false i d.timestamp (unmoved 0 (omega arith))
          (unmoved 1 (omega arith)) in
      let o =
        orientation_step (was_settled m d.timestamp) (detect d m).1.shock a
          (u.4 ∙ unmoved 4 (omega arith)) (u.5 ∙ unmoved 5 (omega arith)) in
      (
        ground (arith, kept, o, u),
        ground (arith, kept, o, u),
        ground (arith, kept, o, u),
        ground (arith, kept, o, u),
      )

active_finish :
    (d : SensorData) (m : MotionManager)
    → let p = active_pass d m in
      (p.result.motion_state ≡ p.manager.state) × (p.result.orientation ≡ p.manager.orientation)
unfolding active_pass
active_finish d m = (refl, refl)

-- What a call reports is what it changes. It reports a start exactly if it takes the tag from
-- stationary to moving, a stop exactly if from moving to stationary, a new orientation exactly if
-- it replaces a known orientation by another, and tampering exactly if it sets the tamper flag; the
-- state and the orientation in the result are those it leaves. Samples without an acceleration
-- reading are included.
pub motion_manager_process-events :
    (d : SensorData) (m : MotionManager)
    → let p = motion_manager_process d m in
      (Mask.test event_start p.result.events
        ≡ (is_stationary m.state && not (is_stationary p.manager.state)))
      × (Mask.test event_stop p.result.events
          ≡ (not (is_stationary m.state) && is_stationary p.manager.state))
      × (Mask.test event_orientation p.result.events ≡ (
          not (is_unknown m.orientation)
          && not (same_orientation p.manager.orientation m.orientation)))
      × (Mask.test event_tamper p.result.events ≡ (not m.tamper && p.manager.tamper))
      × (p.result.motion_state ≡ p.manager.state)
      × (p.result.orientation ≡ p.manager.orientation)
unfolding motion_manager_process
motion_manager_process-events d m = elim (Bool-cases (Mask.test valid_accel d.valid)) [
  | inl on ↦
      let (a, b, c, e) = active-events d m in
      let (f, g) = active_finish d m in rw on (a, b, c, e, f, g)
  | inr off ↦
      rw off (grind event_laws, grind event_laws, grind event_laws, grind event_laws, refl, refl)
]
