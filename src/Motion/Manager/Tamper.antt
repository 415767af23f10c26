-- ===== src/Motion/Manager/Tamper.antt =====
-- The tamper heuristic of src/motion/motion_manager.c.
use nrf54l15_tag.Common.{
  ℕ, ◌+◌, ◌≤◌, ◌≡◌, Bool, true, false, Bool-cases, inl, inr, arith, sub32, List, [], ◌∷◌, ◌∙◌, sym,
}
use mathlib.Core.Bool.{false≢true}
use nrf54l15_tag.Common.Mask
use nrf54l15_tag.SmartTag.{SensorData, stationary, valid_accel}
use nrf54l15_tag.Motion.Shock.{ShockResult}
use nrf54l15_tag.Motion.Manager.{
  event_shock, event_orientation, event_tamper, tamper_settled_s, MotionManager, Pass, report_shock,
  report_free_fall, update_motion, update_orientation, mark_motion, motion_manager_process,
  impact_pass, active_pass, detect, no_motion, was_settled,
}
use nrf54l15_tag.Motion.Manager.Transitions.{event_laws, motion_manager_process-events}
use nrf54l15_tag.Motion.Manager.Timing.{run}

-- `tampered` says that the call found tampering, over the flag before and the one after.
tamper_step :
    (settled shock : Bool) (p : Pass)
    → Mask.test 5 p.result.events ≡ false
    → let q = update_orientation settled shock p in
      (Mask.test 5 q.result.events ≡ true
        → (settled ≡ true) × (shock ≡ true) × (Mask.test 4 q.result.events ≡ true))
      × (p.manager.tamper ≡ true → q.manager.tamper ≡ true)
      × (Mask.test 2 q.result.events ≡ Mask.test 2 p.result.events)
unfolding update_orientation
tamper_step settled shock p h = (λ k. grind event_laws, λ k. grind event_laws, grind event_laws)

motion_keeps :
    (now : ℕ) (p : Pass)
    → let q = update_motion now p in
      (q.manager.tamper ≡ p.manager.tamper)
      × (Mask.test 5 q.result.events ≡ Mask.test 5 p.result.events)
      × (Mask.test 2 q.result.events ≡ Mask.test 2 p.result.events)
unfolding update_motion
motion_keeps now p = (grind event_laws, grind event_laws, grind event_laws)

shock_reported :
    (s : ShockResult) (p : Pass)
    → Mask.test 2 p.result.events ≡ false
    → Mask.test 5 p.result.events ≡ false
    → let q = report_free_fall s (report_shock s p) in
      (Mask.test 2 q.result.events ≡ s.shock)
      × (Mask.test 5 q.result.events ≡ false)
      × (q.manager ≡ p.manager)
unfolding report_free_fall report_shock
shock_reported s p h k = (grind event_laws, grind event_laws, grind event_laws)

module _ (d : SensorData) (m : MotionManager) where
  impact_shock :
      let q = impact_pass d m in
      (Mask.test 2 q.result.events ≡ (detect d m).1.shock)
      × (Mask.test 5 q.result.events ≡ false)
      × (q.manager ≡ record m { detector = (detect d m).0 })
  unfolding impact_pass
  impact_shock =
      let (detector, shock) = detect d m in
      shock_reported shock
        (record { manager = record m { detector = detector }; sample = d; result = no_motion })
        (Mask.test-zero 2) (Mask.test-zero 5)

  active_tamper :
      let p = active_pass d m in
      (Mask.test event_tamper p.result.events ≡ true
        → (was_settled m d.timestamp ≡ true)
          × (Mask.test event_shock p.result.events ≡ true)
          × (Mask.test event_orientation p.result.events ≡ true))
      × (m.tamper ≡ true → p.manager.tamper ≡ true)
  unfolding active_pass
  active_tamper =
      let i = impact_pass d m in
      let a = mark_motion (update_motion d.timestamp i) in
      let (shocked, clean, kept) = impact_shock in
      let (flag, same5, same2) = motion_keeps d.timestamp i in
      let (cause, sticky, same) =
        tamper_step (was_settled m d.timestamp) (detect d m).1.shock a (same5 ∙ clean) in
      (
        λ h. let (x, y, z) = cause h in (x, same ∙ same2 ∙ shocked ∙ y, z),
        λ h. sticky (ground (arith, flag, kept)),
      )

process_tamper :
    (d : SensorData) (m : MotionManager)
    → let p = motion_manager_process d m in
      (Mask.test event_tamper p.result.events ≡ true
        → (was_settled m d.timestamp ≡ true)
          × (Mask.test event_shock p.result.events ≡ true)
          × (Mask.test event_orientation p.result.events ≡ true))
      × (m.tamper ≡ true → p.manager.tamper ≡ true)
unfolding motion_manager_process
process_tamper d m = elim (Bool-cases (Mask.test valid_accel d.valid)) [
  | inl on ↦ rw on (active_tamper d m)
  | inr off ↦ rw off (λ h. absurd (false≢true (sym (Mask.test-zero 5) ∙ h)), λ h. h)
]

-- Tampering is reported only by a tag that was stationary, had been so for at least 300 s, took a
-- shock and faces a new way in the same sample, and had not reported tampering before.
pub tamper_needs :
    (d : SensorData) (m : MotionManager)
    → let p = motion_manager_process d m in
      Mask.test event_tamper p.result.events ≡ true
      → (m.state ≡ stationary)
        × (tamper_settled_s ≤ sub32 d.timestamp m.stationary_since)
        × (Mask.test event_shock p.result.events ≡ true)
        × (Mask.test event_orientation p.result.events ≡ true)
        × (m.tamper ≡ false)
unfolding was_settled
tamper_needs d m h =
    let (settled, shock, turned) = (process_tamper d m).0 h in
    let change = (motion_manager_process-events d m).3 in
    (ground arith, ground arith, shock, turned, ground (arith, change))

abbrev one_if : Bool → ℕ
one_if true = 1
one_if false = 0

-- The tamper reports of a stream.
pub tampers : MotionManager → List SensorData → ℕ
tampers m [] = 0
tampers m (d ∷ ds) =
    let p = motion_manager_process d m in
    one_if (Mask.test event_tamper p.result.events) + tampers p.manager ds

tamper_count :
    (d : SensorData) (m : MotionManager)
    → let p = motion_manager_process d m in
      one_if (Mask.test event_tamper p.result.events) + one_if m.tamper ≡ one_if p.manager.tamper
tamper_count d m = ground (arith, (motion_manager_process-events d m).3, (process_tamper d m).1)

-- Until it is cleared, tampering is reported once: over any stream of samples a manager whose flag
-- is set reports none, any other at most one, and the flag is set at the end exactly if it was set
-- at the start or one report was made.
pub tampers-run :
    (m : MotionManager) (ds : List SensorData)
    → tampers m ds + one_if m.tamper ≡ one_if (run m ds).tamper
unfolding tampers run
tampers-run m [] = omega arith
tampers-run m (d ∷ ds) =
    omega (arith, tamper_count d m, tampers-run (motion_manager_process d m).manager ds)
