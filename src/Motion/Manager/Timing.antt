-- ===== src/Motion/Manager/Timing.antt =====
-- The clocks of src/motion/motion_manager.c: their order, and movement time without wrap-around.
use nrf54l15_tag.Common.{
  ℕ, ◌+◌, ◌≤◌, ◌<◌, ◌≡◌, Bool, Bool-cases, inl, inr, arith, add32, sub32, List, [], ◌∷◌,
}
use nrf54l15_tag.Common.Mask
use nrf54l15_tag.SmartTag.{SensorData, TagConfig, stationary, moving, valid_accel}
use nrf54l15_tag.Motion.Shock.{ShockResult}
use nrf54l15_tag.Motion.Manager.{
  MotionManager, Pass, report_shock, report_free_fall, update_motion, update_orientation,
  mark_motion, motion_manager_init, motion_manager_process, impact_pass, active_pass, detect,
  no_motion, was_settled,
}

-- At uptime `now`: a moving tag began to move after all movement counted so far, and was last
-- active since; a stationary one came to rest after all movement counted so far.
pub record IsTimely (now : ℕ) (m : MotionManager) : Type 0 where
  pub while_moving :
      m.state ≡ moving
      → (m.total_movement_s ≤ m.motion_started_time)
        × (m.motion_started_time ≤ m.last_active_time)
        × (m.last_active_time ≤ now)
  pub at_rest :
      m.state ≡ stationary → (m.total_movement_s ≤ m.stationary_since) × (m.stationary_since ≤ now)

-- What the orientation step leaves alone.
orientation_keeps :
    (settled shock : Bool) (p : Pass)
    → let q = update_orientation settled shock p in
      (q.manager.state ≡ p.manager.state)
      × (q.manager.total_movement_s ≡ p.manager.total_movement_s)
      × (q.manager.motion_started_time ≡ p.manager.motion_started_time)
      × (q.manager.last_active_time ≡ p.manager.last_active_time)
      × (q.manager.stationary_since ≡ p.manager.stationary_since)
      × (q.result.movement_duration_s ≡ p.result.movement_duration_s)
unfolding update_orientation
orientation_keeps settled shock p =
    (ground arith, ground arith, ground arith, ground arith, ground arith, ground arith)

impact_keeps :
    (s : ShockResult) (p : Pass)
    → let q = report_free_fall s (report_shock s p) in
      (q.manager ≡ p.manager)
      × (q.result.movement_duration_s ≡ p.result.movement_duration_s)
      × (q.sample.magnitude_mg ≡ p.sample.magnitude_mg)
unfolding report_free_fall report_shock
impact_keeps s p = (ground arith, ground arith, ground arith)

module _ (now later : ℕ) (p : Pass) (order : now ≤ later) (word : later < 4294967296)
    (timely : IsTimely now p.manager) where
  motion-IsTimely : IsTimely later (update_motion later p).manager
  unfolding update_motion add32 sub32
  motion-IsTimely = ground arith

  motion_counts :
      p.result.movement_duration_s ≡ 0
      → let q = update_motion later p in
        q.manager.total_movement_s ≡ p.manager.total_movement_s + q.result.movement_duration_s
  unfolding update_motion add32 sub32
  motion_counts h = ground arith

impact_pass_keeps :
    (d : SensorData) (m : MotionManager)
    → let q = impact_pass d m in
      (q.manager ≡ record m { detector = (detect d m).0 })
      × (q.result.movement_duration_s ≡ 0)
      × (q.sample.magnitude_mg ≡ d.magnitude_mg)
unfolding impact_pass
impact_pass_keeps d m =
    let (detector, shock) = detect d m in
    impact_keeps shock
      (record { manager = record m { detector = detector }; sample = d; result = no_motion })

module _ (now : ℕ) (d : SensorData) (m : MotionManager) (timely : IsTimely now m) where
  impact-IsTimely : IsTimely now (impact_pass d m).manager
  impact-IsTimely =
      rw (impact_pass_keeps d m).0
        (record { while_moving = timely.while_moving; at_rest = timely.at_rest })

  active-IsTimely :
      now ≤ d.timestamp
      → d.timestamp < 4294967296
      → let p = active_pass d m in
        IsTimely d.timestamp p.manager
        × (p.manager.total_movement_s ≡ m.total_movement_s + p.result.movement_duration_s)
  unfolding active_pass
  active-IsTimely h k =
      let i = impact_pass d m in
      let a = mark_motion (update_motion d.timestamp i) in
      let kept = impact_pass_keeps d m in
      let o = orientation_keeps (was_settled m d.timestamp) (detect d m).1.shock a in
      let t = motion-IsTimely now d.timestamp i h k impact-IsTimely in
      let c = motion_counts now d.timestamp i h k impact-IsTimely kept.1 in
      (record { while_moving = λ e. ground arith; at_rest = λ e. ground arith }, ground arith)

-- The clocks stay in order, and the counter of movement is exact: a call at a later uptime keeps
-- the order of the clocks, and what it adds to the total is just the duration that it reports, with
-- no wrap-around.
pub motion_manager_process-IsTimely :
    (now : ℕ) (d : SensorData) (m : MotionManager)
    → IsTimely now m
    → now ≤ d.timestamp
    → d.timestamp < 4294967296
    → let p = motion_manager_process d m in
      IsTimely d.timestamp p.manager
      × (p.manager.total_movement_s ≡ m.total_movement_s + p.result.movement_duration_s)
unfolding motion_manager_process
motion_manager_process-IsTimely now d m timely h k =
    elim (Bool-cases (Mask.test valid_accel d.valid)) [
      | inl on ↦ rw on (active-IsTimely now d m timely h k)
      | inr off ↦ rw off (
        record {
          while_moving = λ e. let (a, b, c) = timely.while_moving e in (a, b, omega arith);
          at_rest = λ e. let (a, b) = timely.at_rest e in (a, omega arith);
        },
        omega arith,
      )
    ]

-- A stream of samples through the manager.
unfoldable pub run : MotionManager → List SensorData → MotionManager
run m [] = m
run m (d ∷ ds) = run (motion_manager_process d m).manager ds

-- Uptimes that never go back, below 2 ^ 32 s, from `now` on.
abbrev pub IsOrdered : ℕ → List SensorData → Type 0
IsOrdered now [] = Unit
IsOrdered now (d ∷ ds) = (now ≤ d.timestamp) × (d.timestamp < 4294967296) × IsOrdered d.timestamp ds

abbrev pub last_time : ℕ → List SensorData → ℕ
last_time now [] = now
last_time now (d ∷ ds) = last_time d.timestamp ds

run-IsTimely :
    (now : ℕ) (m : MotionManager) (ds : List SensorData)
    → IsTimely now m
    → IsOrdered now ds
    → IsTimely (last_time now ds) (run m ds)
unfolding run
run-IsTimely now m [] t h = t
run-IsTimely now m (d ∷ ds) t h =
    run-IsTimely d.timestamp (motion_manager_process d m).manager ds
      (motion_manager_process-IsTimely now d m t h.0 h.1).0 h.2

total_of_timely : (now : ℕ) (m : MotionManager) → IsTimely now m → m.total_movement_s ≤ now
total_of_timely now m t = ground arith

-- From start-up on, over any samples in order of time with uptimes below 2 ^ 32, the tag has not
-- counted more movement than the uptime of the last sample.
pub total_movement-le-uptime :
    (cfg : TagConfig) (ds : List SensorData)
    → IsOrdered 0 ds
    → (run (motion_manager_init cfg) ds).total_movement_s ≤ last_time 0 ds
unfolding motion_manager_init
total_movement-le-uptime cfg ds h =
    total_of_timely (last_time 0 ds) (run (motion_manager_init cfg) ds) (
      run-IsTimely 0 (motion_manager_init cfg) ds
        (record { while_moving = λ e. cc; at_rest = λ e. (omega arith, omega arith) }) h)
