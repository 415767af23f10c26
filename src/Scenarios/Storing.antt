-- ===== src/Scenarios/Storing.antt =====
-- Runs of the storage modules, over settings that keep the last blob of each key.
use nrf54l15_tag.Common.{
  ℕ, ◌≡◌, ◌++◌, drop, ◌⊎◌, refl, length, List, [], ◌∷◌, Option, none, some, einval, arith,
}
use nrf54l15_tag.SmartTag.{TagConfig, config_defaults}
use nrf54l15_tag.Storage.Layout.{IsConfig, IsStatistics, config_bytes, config_of_bytes}
use nrf54l15_tag.Storage.Migrate.{encode, tag_config_decode, tag_config_encode}
use nrf54l15_tag.Storage.Migrate.Blobs.{framed, tag_config_decode-collision}
use nrf54l15_tag.Storage.ConfigStorage.{
  Key, config_key, stats_key, other_key, Settings, Persistent, boot_storage, settings_set,
  save_blob, config_storage_save,
}
use nrf54l15_tag.Storage.ConfigStorage.Persistence.{config_storage_save-restores}
use nrf54l15_tag.Motion.Manager.{motion_manager_init}
use nrf54l15_tag.AppConfig.{ConfigState, app_config_set}
use nrf54l15_tag.AppConfig.Validate.{IsInRange}
use nrf54l15_tag.AppConfig.Sync.{IsSynced, app_config_set-cases}
use nrf54l15_tag.Scenarios.{shipping_config, used_statistics, lit_led}

-- The last blob saved under each key.
pub record Blobs : Type 0 where
  pub config : Option (List ℕ)
  pub stats : Option (List ℕ)
  pub other : Option (List ℕ)

pub put : Key → Option (List ℕ) → Blobs → Blobs
put config_key b s = record s { config = b }
put stats_key b s = record s { stats = b }
put other_key b s = record s { other = b }

pub blob_of : Key → Blobs → Option (List ℕ)
blob_of config_key s = s.config
blob_of stats_key s = s.stats
blob_of other_key s = s.other

pub blob_of-put : (k : Key) (b : Option (List ℕ)) (s : Blobs) → blob_of k (put k b s) ≡ b
unfolding blob_of put
blob_of-put config_key b s = refl
blob_of-put stats_key b s = refl
blob_of-put other_key b s = refl

abbrev pub flash_settings : Settings
flash_settings = record {
  Store = Blobs;
  save_one = λ k b s. (put k (some b) s, none);
  delete = λ k s. (put k none s, none);
  get = blob_of;
  get-save_one = λ k b s h. blob_of-put k (some b) s;
  get-delete = λ k s h. blob_of-put k none s;
}

abbrev pub blank : Persistent Blobs
blank = record { ram = boot_storage; nvs = record { config = none; stats = none; other = none } }

abbrev pub fresh : ConfigState Blobs
fresh = record {
  config = config_defaults;
  motion = motion_manager_init config_defaults;
  led = lit_led;
  sample_now = 0;
  storage = blank;
}

abbrev padding : List ℕ
padding =
    0 ∷ 0 ∷ 0 ∷ 0 ∷ 0 ∷ 0 ∷ 0 ∷ 0 ∷ 0 ∷ 0 ∷ 0 ∷ 0 ∷ 0 ∷ 0 ∷ 0 ∷ 0 ∷ 0 ∷ 0 ∷ 0 ∷ 0 ∷ 0 ∷ 0 ∷ 0 ∷ 0
    ∷ 0 ∷ 0 ∷ 0 ∷ 0 ∷ 0 ∷ 0 ∷ 0 ∷ 0 ∷ 0 ∷ 0 ∷ []

pub shipping-IsConfig : IsConfig shipping_config
shipping-IsConfig = omega arith

used-IsStatistics : IsStatistics used_statistics
used-IsStatistics = omega arith

tag_config_decode-collision_example :
    let body : List ℕ = 30 ∷ 0 ∷ [] in
    let rest = padding in
    (c : TagConfig) × (tag_config_decode (some (framed (length body) body rest)) ≡ some c)
    × (c.sampling_interval_s ≡ 1)
    × (c.motion_timeout_s ≡ 2)
    × (tag_config_decode (some (framed (length body) body []))
        ≡ some (config_of_bytes (body ++ drop 2 (config_bytes config_defaults))))
tag_config_decode-collision_example =
    tag_config_decode-collision (30 ∷ 0 ∷ []) padding [] refl (λ e. omega (arith, e))

config_storage_save-restores_example :
    let settings = flash_settings in
    let get = blob_of in
    let c = shipping_config in
    let p = blank in
    let later = boot_storage in
    (blob : List ℕ) × (get config_key (config_storage_save settings c p).0.nvs ≡ some blob)
    × ((settings_set config_key (length blob) (some blob) later).1 ≡ none)
    × ((settings_set config_key (length blob) (some blob) later).0.stored_config ≡ c)
config_storage_save-restores_example =
    config_storage_save-restores flash_settings shipping_config blank boot_storage shipping-IsConfig
      (unfold config_storage_save save_blob tag_config_encode encode config_bytes in refl)

app_config_set-cases_example :
    let settings = flash_settings in
    let c = shipping_config in
    let st = fresh in
    (¬ IsInRange c) × (app_config_set settings c st ≡ (st, some einval))
    ⊎ IsInRange c
      × IsSynced (app_config_set settings c st).0
      × ((app_config_set settings c st).0.config ≡ c)
      × ((app_config_set settings c st).0.sample_now ≡ 1)
      × ((app_config_set settings c st).1 ≡ (config_storage_save settings c st.storage).1)
app_config_set-cases_example = app_config_set-cases flash_settings shipping_config fresh
