-- ===== src/AppConfig/Sync.antt =====
-- The live configuration of src/app/app_config.c and its copies in the other modules.
use nrf54l15_tag.Common.{
  ◌%◌, ℕ, Bool, ◌≡◌, ◌⊎◌, inl, inr, not, Bool-cases, refl, ◌==◌, List, [], ◌∷◌, some, einval, arith,
}
use nrf54l15_tag.SmartTag.{TagConfig, config_defaults}
use nrf54l15_tag.Motion.Manager.{motion_manager_update_config}
use nrf54l15_tag.Led.{LedManager, led_manager_set_enabled}
use nrf54l15_tag.Storage.ConfigStorage.{Settings, Persistent, config_storage_save}
use nrf54l15_tag.AppConfig.{
  app_config_validate, ConfigState, power_manager_config_changed, apply_config, app_config_set,
  app_config_set_mode, app_config_set_sampling_interval, app_config_reset,
}
use nrf54l15_tag.AppConfig.Validate.{IsInRange, app_config_validate_iff}

-- The live configuration is in range, and the motion thresholds, the LED switch and the stored
-- configuration follow it.
pub record IsSynced {S : Type 0} (st : ConfigState S) : Type 0 where
  pub in_range : IsInRange st.config
  pub motion_follows : st.motion.config ≡ st.config
  pub led_follows : st.led.enabled ≡ not (st.config.led_enabled == 0)
  pub storage_follows : st.storage.ram.stored_config ≡ st.config

led_enabled_set :
    (value : Bool) (l : LedManager) → (led_manager_set_enabled value l).enabled ≡ value
unfolding led_manager_set_enabled
led_enabled_set value l = ground arith

module _ (settings : Settings) where
  open settings use {Store}

  stored_after_save :
      (c : TagConfig) (p : Persistent Store)
      → (config_storage_save settings c p).0.ram.stored_config ≡ c
  unfolding config_storage_save
  stored_after_save c p = ground arith

  apply-IsSynced :
      (c : TagConfig) (st : ConfigState Store)
      → IsInRange c
      → IsSynced (apply_config settings c st).0
        × ((apply_config settings c st).0.config ≡ c)
        × ((apply_config settings c st).0.sample_now ≡ 1)
  unfolding apply_config power_manager_config_changed motion_manager_update_config
  apply-IsSynced c st v = (
    record {
      in_range = v;
      motion_follows = refl;
      led_follows = led_enabled_set (not (c.led_enabled == 0)) st.led;
      storage_follows = stored_after_save c st.storage;
    },
    refl,
    refl,
  )

  status :
      (c : TagConfig) (st : ConfigState Store)
      → (apply_config settings c st).1 ≡ (config_storage_save settings c st.storage).1
  unfolding apply_config power_manager_config_changed
  status c st = refl

  -- Setting a configuration either refuses it, when a field is out of range, with -EINVAL and with
  -- no change of anything, or puts it live, wakes the sampling thread, and brings the motion
  -- thresholds, the LED switch and the stored configuration into line with it; the result is then
  -- the status of the settings write, and a failed write undoes nothing.
  pub app_config_set-cases :
      (c : TagConfig) (st : ConfigState Store)
      → (¬ IsInRange c) × (app_config_set settings c st ≡ (st, some einval))
        ⊎ IsInRange c
          × IsSynced (app_config_set settings c st).0
          × ((app_config_set settings c st).0.config ≡ c)
          × ((app_config_set settings c st).0.sample_now ≡ 1)
          × ((app_config_set settings c st).1 ≡ (config_storage_save settings c st.storage).1)
  unfolding app_config_set
  app_config_set-cases c st = elim (Bool-cases (app_config_validate c)) [
    | inl good ↦
        let v = (app_config_validate_iff c).0 good in
        let (synced, live, woken) = apply-IsSynced c st v in
        rw good (inr (v, synced, live, woken, status c st))
    | inr bad ↦ rw bad (inl ((λ v. cc ((app_config_validate_iff c).1 v)), refl))
  ]

  -- A call that changes the configuration.
  pub data ConfigCall : Type 0 where
    set : TagConfig → ConfigCall
    set_mode : ℕ → ConfigCall
    set_sampling_interval : ℕ → ConfigCall
    reset : ConfigCall

  unfoldable pub call : ConfigCall → ConfigState Store → ConfigState Store
  unfolding app_config_set_mode app_config_set_sampling_interval app_config_reset
  call (set c) st = (app_config_set settings c st).0
  call (set_mode m) st = (app_config_set_mode settings m st).0
  call (set_sampling_interval n) st = (app_config_set_sampling_interval settings n st).0
  call reset st = (app_config_reset settings st).0

  unfoldable pub calls : List ConfigCall → ConfigState Store → ConfigState Store
  calls [] st = st
  calls (c ∷ cs) st = calls cs (call c st)

  set-IsSynced :
      (c : TagConfig) (st : ConfigState Store)
      → IsSynced st
      → IsSynced (app_config_set settings c st).0
  set-IsSynced c st s = elim (app_config_set-cases c st) [
    | inl (n, same) ↦ rw same s
    | inr (v, synced, live, woken, written) ↦ synced
  ]

  call-IsSynced : (c : ConfigCall) (st : ConfigState Store) → IsSynced st → IsSynced (call c st)
  unfolding call
  call-IsSynced (set c) st s = set-IsSynced c st s
  call-IsSynced (set_mode m) st s =
      set-IsSynced (record st.config { operating_mode = m % 256 }) st s
  call-IsSynced (set_sampling_interval n) st s =
      set-IsSynced (record st.config { sampling_interval_s = n }) st s
  call-IsSynced reset st s = set-IsSynced config_defaults st s

  -- Over any sequence of configuration calls, with any arguments and whatever the settings writes
  -- return, a live configuration that is in range, with the motion thresholds, the LED switch and the
  -- stored configuration in line with it, is replaced only by such.
  pub calls-IsSynced :
      (cs : List ConfigCall) (st : ConfigState Store) → IsSynced st → IsSynced (calls cs st)
  unfolding calls
  calls-IsSynced [] st s = s
  calls-IsSynced (c ∷ cs) st s = calls-IsSynced cs (call c st) (call-IsSynced c st s)
