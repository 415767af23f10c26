-- ===== src/Ble/Config/Writes.antt =====
-- What a phone reads back of a configuration that it wrote through src/ble/ble_config.c.
use nrf54l15_tag.Common.{
  ◌≡◌, ◌⊎◌, inl, inr, true, false, Bool-cases, refl, ap, ◌∙◌, length, none, some, Status, einval,
  enodev, enoent, eio, enomem, enotsup, eacces, other_errno,
}
use nrf54l15_tag.SmartTag.{TagConfig}
use nrf54l15_tag.Storage.Layout.{IsConfig, config_bytes}
use nrf54l15_tag.Storage.Layout.RoundTrip.{config_of_bytes-config_bytes}
use nrf54l15_tag.Storage.ConfigStorage.{Settings}
use nrf54l15_tag.AppConfig.{
  ConfigState, power_manager_config_changed, app_config_validate, apply_config, app_config_set,
}
use nrf54l15_tag.AppState.Service.{Logs, App, set_config, app_raise_event}
use nrf54l15_tag.Ble.Config.{value_not_allowed, config_written, ble_config_read, ble_config_write}

length-config_bytes : (c : TagConfig) → length (config_bytes c) ≡ 40
unfolding config_bytes
length-config_bytes c = refl

module _ (settings : Settings) (logging : Logs) where
  open settings use {Store}
  open logging use {LogStore}

  written-config :
      (c : TagConfig) (r : App Store LogStore × Status)
      → (config_written settings logging c r).0.config_state.config ≡ r.0.config_state.config
  unfolding config_written app_raise_event
  written-config c (a, none) = refl
  written-config c (a, some einval) = refl
  written-config c (a, some enodev) = refl
  written-config c (a, some enoent) = refl
  written-config c (a, some eio) = refl
  written-config c (a, some enomem) = refl
  written-config c (a, some enotsup) = refl
  written-config c (a, some eacces) = refl
  written-config c (a, some (other_errno n)) = refl

  set-config :
      (a : App Store LogStore) (r : ConfigState Store × Status)
      → (set_config settings logging a r).0.config_state.config ≡ r.0.config
  unfolding set_config
  set-config a (c, status) = refl

  apply-config :
      (c : TagConfig) (st : ConfigState Store) → (apply_config settings c st).0.config ≡ c
  unfolding apply_config power_manager_config_changed
  apply-config c st = refl

  -- A phone writes the 40 bytes of a configuration whose fields fit their C types. If a field is out
  -- of range, the write is answered with VALUE_NOT_ALLOWED and nothing has changed. If none is, a
  -- read gives the same bytes back, whatever the write was answered with: the settings may fail to
  -- keep it.
  pub ble_config_write-cases :
      (c : TagConfig) (a : App Store LogStore)
      → IsConfig c
      → let w = ble_config_write settings logging 0 (config_bytes c) a in
        ((app_config_validate c ≡ false) × (w ≡ (a, value_not_allowed)))
        ⊎ ((app_config_validate c ≡ true) × (ble_config_read settings logging w.0 ≡ config_bytes c))
  unfolding ble_config_write ble_config_read app_config_set set_config
  ble_config_write-cases c a fits =
      let back = config_of_bytes-config_bytes c fits in
      elim (Bool-cases (app_config_validate c)) [
        | inl ok ↦
            let r = set_config settings logging a (apply_config settings c a.config_state) in
            let live =
              written-config c r
              ∙ set-config a (apply_config settings c a.config_state)
              ∙ apply-config c a.config_state in
            inr (ok, rw (length-config_bytes c, back, ok) (ap config_bytes live))
        | inr bad ↦ inl (bad, rw (length-config_bytes c, back, bad) refl)
      ]
