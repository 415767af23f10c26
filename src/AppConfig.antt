-- ===== src/AppConfig.antt =====
-- src/app/app_config.c: the live configuration, its validation and its propagation.
use nrf54l15_tag.Common.{
  ◌%◌, ℕ, ◌/◌, Bool, true, false, not, ◌||◌, ltb, leb, leb_ℤ, ◌==◌, max, if◌then◌else◌, none, some,
  Status, einval,
}
use nrf54l15_tag.SmartTag.{TagConfig, config_defaults, mode_environment, mode_asset, mode_shipping}
use nrf54l15_tag.Motion.Manager.{MotionManager, motion_manager_update_config}
use nrf54l15_tag.Led.{LedManager, led_manager_set_enabled}
use nrf54l15_tag.Storage.ConfigStorage.{Settings, Persistent, config_storage_save}
pub mod Validate
pub mod Sync

-- mode_interval_divider
unfoldable pub mode_interval_divider : ℕ → ℕ
mode_interval_divider mode =
    if mode == mode_shipping then 4 else if mode == mode_asset then 2 else 1

-- app_config_validate
unfoldable pub app_config_validate : TagConfig → Bool
app_config_validate c =
    if ltb c.sampling_interval_s 1 || ltb 3600 c.sampling_interval_s
    then false
    else if ltb c.motion_timeout_s 1 || ltb 3600 c.motion_timeout_s
    then false
    else if ltb c.motion_threshold_mg 20 || ltb 4000 c.motion_threshold_mg
    then false
    else if ltb c.shock_threshold_mg 500 || ltb 16000 c.shock_threshold_mg
    then false
    else if ltb 900 c.free_fall_threshold_mg
    then false
    else if leb_ℤ c.temp_high_c_x100 c.temp_low_c_x100
    then false
    else if ltb 10000 c.humidity_high_x100
    then false
    else if ltb c.battery_low_mv 1800 || ltb 3300 c.battery_low_mv
    then false
    else if ltb c.report_max_interval_s 60 || ltb 43200 c.report_max_interval_s
    then false
    else if ltb c.ble_service_window_s 10 || ltb 3600 c.ble_service_window_s
    then false
    else if ltb mode_shipping c.operating_mode
    then false
    else if ltb 1 c.led_enabled || ltb 1 c.sensor_history_enabled
    then false
    else true

-- The live configuration, and the state of the modules that a change of it reaches. `sample_now` is
-- the count of power_manager's semaphore, which never passes 1.
pub record ConfigState (S : Type 0) : Type 0 where
  pub config : TagConfig
  pub motion : MotionManager
  pub led : LedManager
  pub sample_now : ℕ
  pub storage : Persistent S

-- app_config_init, over the configuration that config_storage_load gives.
unfoldable pub app_config_init : TagConfig → TagConfig
unfolding app_config_validate
app_config_init stored = if not (app_config_validate stored) then config_defaults else stored

-- power_manager_config_changed
unfoldable pub power_manager_config_changed : {S : Type 0} → ConfigState S → ConfigState S
power_manager_config_changed st = record st { sample_now = 1 }

-- power_manager_sample_now
unfoldable pub power_manager_sample_now : {S : Type 0} → ConfigState S → ConfigState S
power_manager_sample_now st = record st { sample_now = 1 }

-- app_config_effective_interval_s
unfoldable pub app_config_effective_interval_s : TagConfig → ℕ
unfolding mode_interval_divider
app_config_effective_interval_s c =
    max (c.sampling_interval_s / mode_interval_divider c.operating_mode) 1

module _ (settings : Settings) where
  open settings use {Store}

  -- What follows the guard of app_config_set.
  unfoldable pub apply_config : TagConfig → ConfigState Store → ConfigState Store × Status
  apply_config c st =
      let applied = power_manager_config_changed (record st {
        config = c;
        motion = motion_manager_update_config c st.motion;
        led = led_manager_set_enabled (not (c.led_enabled == 0)) st.led;
      }) in
      let (storage, status) = config_storage_save settings c applied.storage in
      (record applied { storage = storage }, status)

  unfoldable pub app_config_set : TagConfig → ConfigState Store → ConfigState Store × Status
  app_config_set c st = if not (app_config_validate c) then (st, some einval) else apply_config c st

  unfoldable pub app_config_set_mode : ℕ → ConfigState Store → ConfigState Store × Status
  unfolding app_config_set
  app_config_set_mode mode st = app_config_set (record st.config { operating_mode = mode % 256 }) st

  unfoldable pub app_config_set_sampling_interval :
      ℕ → ConfigState Store → ConfigState Store × Status
  unfolding app_config_set
  app_config_set_sampling_interval seconds st =
      app_config_set (record st.config { sampling_interval_s = seconds }) st

  unfoldable pub app_config_reset : ConfigState Store → ConfigState Store × Status
  unfolding app_config_set
  app_config_reset st = app_config_set config_defaults st
