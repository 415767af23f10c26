-- ===== src/Storage/ConfigStorage.antt =====
-- src/storage/config_storage.c: the stored configuration and statistics, and their settings keys.
--
-- Zephyr's settings subsystem is not under this repository: it is the parameter `Settings`, a
-- store of its own with the two calls that this file makes and the behaviour it relies on.
use nrf54l15_tag.Common.{
  ℕ, ◌≡◌, Bool, ◌||◌, ltb, ◌==◌, if◌then◌else◌, length, List, Option, none, some, Status, enoent,
  eio, enomem,
}
use nrf54l15_tag.SmartTag.{TagConfig, TagStatistics, config_defaults, zero_statistics}
use nrf54l15_tag.Storage.Migrate.{
  tag_config_decode, tag_config_encode, tag_stats_decode, tag_stats_encode,
}
pub mod Persistence

-- The names under the settings root that the handler can be called with.
pub data Key : Type 0 where
  config_key stats_key other_key : Key

-- settings_save_one and settings_delete. `get` is what the next load would deliver for a key.
pub record Settings : Type 1 where
  pub Store : Type 0
  pub save_one : Key → List ℕ → Store → Store × Status
  pub delete : Key → Store → Store × Status
  pub get : Key → Store → Option (List ℕ)
  pub get-save_one :
      (k : Key) (b : List ℕ) (s : Store)
      → (save_one k b s).1 ≡ none
      → get k (save_one k b s).0 ≡ some b
  pub get-delete : (k : Key) (s : Store) → (delete k s).1 ≡ none → get k (delete k s).0 ≡ none

abbrev pub settings_blob_max : ℕ
settings_blob_max = 64

-- The static state of the file.
pub record ConfigStorage : Type 0 where
  pub stored_config : TagConfig
  pub stored_stats : TagStatistics

-- Its initial value.
abbrev pub boot_storage : ConfigStorage
boot_storage = record { stored_config = config_defaults; stored_stats = zero_statistics }

unfoldable pub restore_config : Option TagConfig → ConfigStorage → ConfigStorage
restore_config none s = record s { stored_config = config_defaults }
restore_config (some c) s = record s { stored_config = c }

unfoldable pub restore_stats : Option TagStatistics → ConfigStorage → ConfigStorage
restore_stats none s = record s { stored_stats = zero_statistics }
restore_stats (some c) s = record s { stored_stats = c }

unfoldable pub restore : Key → List ℕ → ConfigStorage → ConfigStorage × Status
restore config_key blob s = (restore_config (tag_config_decode (some blob)) s, none)
restore stats_key blob s = (restore_stats (tag_stats_decode (some blob)) s, none)
restore other_key blob s = (s, some enoent)

unfoldable pub settings_read : Key → Option (List ℕ) → ConfigStorage → ConfigStorage × Status
settings_read key none s = (s, some eio)
settings_read key (some blob) s = restore key blob s

-- settings_set. `read` is the outcome of read_cb: the `len` bytes, or none if it returned another
-- count.
unfoldable pub settings_set : Key → ℕ → Option (List ℕ) → ConfigStorage → ConfigStorage × Status
unfolding settings_read restore
settings_set key len read s =
    if (len == 0) || ltb settings_blob_max len then (s, none) else settings_read key read s

-- The file's state beside the settings store.
pub record Persistent (S : Type 0) : Type 0 where
  pub ram : ConfigStorage
  pub nvs : S

module _ (settings : Settings) where
  open settings use {Store, save_one, delete}

  unfoldable pub save_blob : Key → List ℕ → ConfigStorage → Store → Persistent Store × Status
  save_blob key blob ram nvs =
      if length blob == 0
      then (record { ram = ram; nvs = nvs }, some enomem)
      else (record { ram = ram; nvs = (save_one key blob nvs).0 }, (save_one key blob nvs).1)

  unfoldable pub config_storage_save : TagConfig → Persistent Store → Persistent Store × Status
  unfolding save_blob
  config_storage_save c p =
      save_blob config_key (tag_config_encode (some c) (some settings_blob_max))
        (record p.ram { stored_config = c }) p.nvs

  unfoldable pub config_storage_save_statistics :
      TagStatistics → Persistent Store → Persistent Store × Status
  unfolding save_blob
  config_storage_save_statistics c p =
      save_blob stats_key (tag_stats_encode (some c) (some settings_blob_max))
        (record p.ram { stored_stats = c }) p.nvs

  -- The errors of settings_delete are logged and not returned.
  unfoldable pub config_storage_factory_reset : Persistent Store → Persistent Store × Status
  config_storage_factory_reset p =
      (record { ram = boot_storage; nvs = (delete stats_key (delete config_key p.nvs).0).0 }, none)
