-- ===== src/AppConfig/Validate.antt =====
-- Which configurations src/app/app_config.c accepts.
use nrf54l15_tag.Common.{
  ◌*◌, ◌+◌, ◌≤◌, ◌<◌, ◌≡◌, ◌<ℤ◌, ◌↔◌, ◌⊎◌, inl, inr, true, Bool-cases, refl, arith,
}
use nrf54l15_tag.SmartTag.{TagConfig, config_defaults}
use nrf54l15_tag.AppConfig.{app_config_validate, app_config_init, app_config_effective_interval_s}

-- The ranges of the documented configuration fields.
pub record IsInRange (c : TagConfig) : Type 0 where
  pub sampling_interval : (1 ≤ c.sampling_interval_s) × (c.sampling_interval_s ≤ 3600)
  pub motion_timeout : (1 ≤ c.motion_timeout_s) × (c.motion_timeout_s ≤ 3600)
  pub motion_threshold : (20 ≤ c.motion_threshold_mg) × (c.motion_threshold_mg ≤ 4000)
  pub shock_threshold : (500 ≤ c.shock_threshold_mg) × (c.shock_threshold_mg ≤ 16000)
  pub free_fall_threshold : c.free_fall_threshold_mg ≤ 900
  pub temp_window : c.temp_low_c_x100 <ℤ c.temp_high_c_x100
  pub humidity_high : c.humidity_high_x100 ≤ 10000
  pub battery_low : (1800 ≤ c.battery_low_mv) × (c.battery_low_mv ≤ 3300)
  pub report_max_interval : (60 ≤ c.report_max_interval_s) × (c.report_max_interval_s ≤ 43200)
  pub ble_service_window : (10 ≤ c.ble_service_window_s) × (c.ble_service_window_s ≤ 3600)
  pub operating_mode : c.operating_mode ≤ 2
  pub led_switch : c.led_enabled ≤ 1
  pub history_switch : c.sensor_history_enabled ≤ 1

-- Validation accepts exactly the configurations whose fields are all in their ranges.
pub app_config_validate_iff : (c : TagConfig) → (app_config_validate c ≡ true) ↔ IsInRange c
unfolding app_config_validate
app_config_validate_iff c = (λ h. ground arith, λ v. ground arith)

defaults-IsInRange : IsInRange config_defaults
defaults-IsInRange = omega arith

-- Whatever is found in storage, the configuration that start-up puts live is in range: the stored
-- one if that is in range, and the default one if not.
pub app_config_init-IsInRange :
    (stored : TagConfig)
    → IsInRange (app_config_init stored)
      × (IsInRange stored × (app_config_init stored ≡ stored)
          ⊎ (¬ IsInRange stored) × (app_config_init stored ≡ config_defaults))
unfolding app_config_init
app_config_init-IsInRange stored = elim (Bool-cases (app_config_validate stored)) [
  | inl good ↦ let v = (app_config_validate_iff stored).0 good in rw good (v, inl (v, refl))
  | inr bad ↦
      rw bad (defaults-IsInRange, inr ((λ v. cc ((app_config_validate_iff stored).1 v)), refl))
]

-- The sampling period of a configuration in range is between one second and the configured
-- interval, and the interval is less than four times the period plus four seconds.
pub effective_interval_bounds :
    (c : TagConfig)
    → IsInRange c
    → (1 ≤ app_config_effective_interval_s c)
      × (app_config_effective_interval_s c ≤ c.sampling_interval_s)
      × (c.sampling_interval_s < 4 * app_config_effective_interval_s c + 4)
unfolding app_config_effective_interval_s
effective_interval_bounds c v = (ground arith, ground arith, ground arith)
