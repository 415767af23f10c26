-- ===== src/Storage/ConfigStorage/Persistence.antt =====
-- What src/storage/config_storage.c saves is what a boot after it restores.
use nrf54l15_tag.Common.{ℕ, ◌≡◌, length, List, none, some, arith}
use nrf54l15_tag.SmartTag.{TagConfig, TagStatistics}
use nrf54l15_tag.Storage.Layout.{IsConfig, IsStatistics}
use nrf54l15_tag.Storage.Layout.RoundTrip.{length-config_bytes, length-statistics_bytes}
use nrf54l15_tag.Storage.Migrate.{encode, tag_config_encode, tag_stats_encode}
use nrf54l15_tag.Storage.Migrate.Blobs.{tag_config_decode-encode, tag_stats_decode-encode}
use nrf54l15_tag.Storage.ConfigStorage.{
  Settings, config_key, stats_key, ConfigStorage, Persistent, restore_config, restore_stats,
  settings_set, config_storage_save, config_storage_save_statistics,
}

length-config_blob : (c : TagConfig) → length (tag_config_encode (some c) (some 64)) ≡ 44
unfolding tag_config_encode encode
length-config_blob c = ground (arith, length-config_bytes c)

length-stats_blob : (s : TagStatistics) → length (tag_stats_encode (some s) (some 64)) ≡ 46
unfolding tag_stats_encode encode
length-stats_blob s = ground (arith, length-statistics_bytes s)

module _ (settings : Settings) where
  open settings use {Store, get, get-save_one, get-delete}

  -- A configuration that was saved without an error, its fields fitting their C types, is the one
  -- that a later boot restores: the settings deliver a blob that the handler accepts and decodes to
  -- it, whatever the handler's state is.
  pub config_storage_save-restores :
      (c : TagConfig) (p : Persistent Store) (later : ConfigStorage)
      → IsConfig c
      → (config_storage_save settings c p).1 ≡ none
      → (blob : List ℕ) × (get config_key (config_storage_save settings c p).0.nvs ≡ some blob)
        × ((settings_set config_key (length blob) (some blob) later).1 ≡ none)
        × ((settings_set config_key (length blob) (some blob) later).0.stored_config ≡ c)
  unfolding config_storage_save settings_set restore_config
  config_storage_save-restores c p later v h =
      let blob = tag_config_encode (some c) (some 64) in
      let size = length-config_blob c in
      (
        blob,
        rw size (get-save_one config_key blob p.nvs (rw size at h)),
        rw size,
        rw (size, tag_config_decode-encode c 64 v (omega arith)),
      )

  -- Statistics that were saved without an error, their fields fitting their C types, are those that a
  -- later boot restores: the settings deliver a blob that the handler accepts and decodes to them.
  pub config_storage_save_statistics-restores :
      (s : TagStatistics) (p : Persistent Store) (later : ConfigStorage)
      → IsStatistics s
      → (config_storage_save_statistics settings s p).1 ≡ none
      → (blob : List ℕ) × (get stats_key (config_storage_save_statistics settings s p).0.nvs
          ≡ some blob)
        × ((settings_set stats_key (length blob) (some blob) later).1 ≡ none)
        × ((settings_set stats_key (length blob) (some blob) later).0.stored_stats ≡ s)
  unfolding config_storage_save_statistics settings_set restore_stats
  config_storage_save_statistics-restores s p later v h =
      let blob = tag_stats_encode (some s) (some 64) in
      let size = length-stats_blob s in
      (
        blob,
        rw size (get-save_one stats_key blob p.nvs (rw size at h)),
        rw size,
        rw (size, tag_stats_decode-encode s 64 v (omega arith)),
      )
