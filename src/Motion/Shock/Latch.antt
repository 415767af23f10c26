-- ===== src/Motion/Shock/Latch.antt =====
-- One impact, one event: what src/motion/shock_detector.c reports over a stream of samples.
use nrf54l15_tag.Common.{
  All, ℕ, ◌+◌, ◌≤◌, ◌≡◌, ◌⊎◌, inl, inr, Bool, true, false, min, List, [], ◌∷◌, arith,
}
use nrf54l15_tag.SmartTag.{SensorData}
use nrf54l15_tag.Motion.Shock.{
  ShockDetector, ShockResult, rearm_deviation_mg, excursion, detect_free_fall, detect_shock,
  shock_detector_process, run,
}

abbrev pub one_if : Bool → ℕ
one_if true = 1
one_if false = 0

pub shocks : List ShockResult → ℕ
shocks [] = 0
shocks (r ∷ rs) = one_if r.shock + shocks rs

pub free_falls : List ShockResult → ℕ
free_falls [] = 0
free_falls (r ∷ rs) = one_if r.free_fall + free_falls rs

shock-step :
    (st ft : ℕ) (d : SensorData) (s : ShockDetector)
    → rearm_deviation_mg ≤ excursion d
    → one_if (shock_detector_process d st ft s).1.shock + one_if s.shock_latched
      ≡ one_if (shock_detector_process d st ft s).0.shock_latched
unfolding shock_detector_process detect_shock detect_free_fall
shock-step st ft d s h = ground arith

-- While no sample comes within 300 mg of 1 g, the shock latch is not released: a latched detector
-- reports no shock, any other reports one at most, and it ends latched exactly if it reported one
-- or began latched.
pub shocks-run :
    (st ft : ℕ) (s : ShockDetector) (ds : List SensorData)
    → All (λ d. rearm_deviation_mg ≤ excursion d) ds
    → shocks (run st ft s ds).1 + one_if s.shock_latched ≡ one_if (run st ft s ds).0.shock_latched
unfolding run shocks
shocks-run st ft s [] h = omega arith
shocks-run st ft s (d ∷ ds) h =
    omega (
      arith,
      shock-step st ft d s h.0,
      shocks-run st ft (shock_detector_process d st ft s).0 ds h.1,
    )

free_fall-step :
    (st ft : ℕ) (d : SensorData) (s : ShockDetector)
    → d.magnitude_mg ≤ ft + rearm_deviation_mg
    → one_if (shock_detector_process d st ft s).1.free_fall + one_if s.free_fall_latched
      ≡ one_if (shock_detector_process d st ft s).0.free_fall_latched
unfolding shock_detector_process detect_shock detect_free_fall
free_fall-step st ft d s h = ground arith

-- While no sample's magnitude rises more than 300 mg above the free-fall threshold, the free-fall
-- latch is not released: a latched detector reports no fall, any other reports one at most, and it
-- ends latched exactly if it reported one or began latched.
pub free_falls-run :
    (st ft : ℕ) (s : ShockDetector) (ds : List SensorData)
    → All (λ d. d.magnitude_mg ≤ ft + rearm_deviation_mg) ds
    → free_falls (run st ft s ds).1 + one_if s.free_fall_latched
      ≡ one_if (run st ft s ds).0.free_fall_latched
unfolding run free_falls
free_falls-run st ft s [] h = omega arith
free_falls-run st ft s (d ∷ ds) h = omega (
  arith,
  free_fall-step st ft d s h.0,
  free_falls-run st ft (shock_detector_process d st ft s).0 ds h.1,
)

peak-step :
    (st ft : ℕ) (d : SensorData) (s : ShockDetector)
    → let (s', r) = shock_detector_process d st ft s in
      (s.peak_mg ≤ s'.peak_mg)
      × (r.peak_mg ≤ s'.peak_mg)
      × ((excursion d ≤ st) ⊎ (min (excursion d) 65535 ≤ s'.peak_mg))
unfolding shock_detector_process detect_shock detect_free_fall
peak-step st ft d s = (ground arith, ground arith, ground arith)

peak-run :
    (st ft : ℕ) (s : ShockDetector) (ds : List SensorData) → s.peak_mg ≤ (run st ft s ds).0.peak_mg
unfolding run
peak-run st ft s [] = omega arith
peak-run st ft s (d ∷ ds) =
    omega (arith, (peak-step st ft d s).0, peak-run st ft (shock_detector_process d st ft s).0 ds)

-- The recorded peak bounds the whole stream: the excursion of every sample above the shock
-- threshold, cut off at 65535, and every reported peak are at most the peak at the end.
pub peak-covers :
    (st ft : ℕ) (s : ShockDetector) (ds : List SensorData)
    → let (s', rs) = run st ft s ds in
      All (λ d. (excursion d ≤ st) ⊎ (min (excursion d) 65535 ≤ s'.peak_mg)) ds
      × All (λ r. r.peak_mg ≤ s'.peak_mg) rs
unfolding run
peak-covers st ft s [] = (tt, tt)
peak-covers st ft s (d ∷ ds) =
    let t = (shock_detector_process d st ft s).0 in
    let (below, within) = peak-covers st ft t ds in
    let grown = peak-run st ft t ds in
    let now = peak-step st ft d s in
    (
      (elim now.2 [ inl low ↦ inl low | inr high ↦ inr (omega arith) ], below),
      (omega arith, within),
    )
