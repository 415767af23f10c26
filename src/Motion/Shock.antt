-- ===== src/Motion/Shock.antt =====
-- src/motion/shock_detector.c: shock and free fall as latched impulse events.
use nrf54l15_tag.Common.{
  ℕ, ◌+◌, ℤ, Bool, true, false, not, ◌&&◌, ltb, nat_abs, if◌then◌else◌, min, List, [], ◌∷◌,
}
use nrf54l15_tag.SmartTag.{SensorData}
use nrf54l15_tag.Motion.Classifier.{deviation}
pub mod Latch

abbrev pub rearm_deviation_mg : ℕ
rearm_deviation_mg = 300

-- The static state of the file.
pub record ShockDetector : Type 0 where
  pub shock_latched : Bool
  pub free_fall_latched : Bool
  pub peak_mg : ℕ

-- struct shock_result
pub record ShockResult : Type 0 where
  pub shock : Bool
  pub free_fall : Bool
  pub peak_mg : ℕ

-- shock_detector_init
abbrev pub shock_detector_init : ShockDetector
shock_detector_init = record { shock_latched = false; free_fall_latched = false; peak_mg = 0 }

-- The result after `memset(result, 0, sizeof(*result))`.
abbrev no_shock : ShockResult
no_shock = record { shock = false; free_fall = false; peak_mg = 0 }

-- `(uint32_t)abs(deviation)`
unfoldable pub excursion : SensorData → ℕ
unfolding deviation
excursion d = nat_abs (deviation d)

unfoldable pub detect_free_fall :
    SensorData → ℕ → ShockDetector × ShockResult → ShockDetector × ShockResult
detect_free_fall d threshold_mg (s, r) =
    if ltb d.magnitude_mg threshold_mg
    then (if not s.free_fall_latched
        then (record s { free_fall_latched = true }, record r { free_fall = true })
        else (s, r))
    else if ltb (threshold_mg + rearm_deviation_mg) d.magnitude_mg
    then (record s { free_fall_latched = false }, r)
    else (s, r)

unfoldable pub detect_shock :
    SensorData → ℕ → ShockDetector × ShockResult → ShockDetector × ShockResult
detect_shock d threshold_mg (s, r) =
    if ltb threshold_mg (excursion d)
    then (let this_peak = min (excursion d) 65535 in
        let s' = if ltb s.peak_mg this_peak then record s { peak_mg = this_peak } else s in
        if not s.shock_latched
        then (record s' { shock_latched = true }, record r { shock = true; peak_mg = this_peak })
        else if ltb r.peak_mg this_peak
        then (s', record r { peak_mg = this_peak })
        else (s', r))
    else if ltb (excursion d) rearm_deviation_mg
    then (record s { shock_latched = false }, r)
    else (s, r)

-- shock_detector_process
unfoldable pub shock_detector_process :
    SensorData → ℕ → ℕ → ShockDetector → ShockDetector × ShockResult
shock_detector_process d shock_threshold_mg free_fall_threshold_mg s =
    detect_shock d shock_threshold_mg (detect_free_fall d free_fall_threshold_mg (s, no_shock))

-- shock_detector_reset_peak
unfoldable pub shock_detector_reset_peak : ShockDetector → ShockDetector
shock_detector_reset_peak s = record s { peak_mg = 0 }

-- A stream of samples through the detector, with the results in order.
unfoldable pub run : ℕ → ℕ → ShockDetector → List SensorData → ShockDetector × List ShockResult
run st ft s [] = (s, [])
run st ft s (d ∷ ds) =
    let (s', r) = shock_detector_process d st ft s in
    let (s'', rs) = run st ft s' ds in (s'', r ∷ rs)
