-- ===== src/Storage/Migrate.antt =====
-- src/storage/config_migrate.c: settings blobs with a schema header.
--
-- A blob is the list of its `len` bytes, and a NULL pointer is `none`. A decoder that returns
-- -EINVAL writes nothing and gives `none`; an encoder gives the bytes written, none of them when it
-- returns 0.
use nrf54l15_tag.Common.{
  drop, ℕ, zero, suc, ◌+◌, ◌-◌, ◌≤◌, Bool, ◌||◌, ltb, ◌==◌, if◌then◌else◌, length, take, min, List,
  [], ◌∷◌, ◌++◌, Option, none, some,
}
use nrf54l15_tag.SmartTag.{TagConfig, TagStatistics, config_defaults, zero_statistics}
use nrf54l15_tag.Storage.Layout.{
  le16, read16, config_bytes, config_of_bytes, statistics_bytes, statistics_of_bytes,
}
pub mod Blobs

abbrev pub config_schema : ℕ
config_schema = 1

abbrev pub stats_schema : ℕ
stats_schema = 1

abbrev pub config_v0_size : ℕ
config_v0_size = 40

abbrev pub stats_v0_size : ℕ
stats_v0_size = 40

-- sizeof(struct tag_settings_header), sizeof(tag_config_t) and sizeof(tag_statistics_t).
abbrev pub header_size : ℕ
header_size = 4

abbrev pub config_size : ℕ
config_size = 40

abbrev pub stats_size : ℕ
stats_size = 42

-- encode
unfoldable pub encode : ℕ → List ℕ → Option ℕ → List ℕ
encode schema body none = []
encode schema body (some max) =
    if ltb max (header_size + length body) then [] else le16 schema ++ (le16 (length body) ++ body)

-- copy_onto_defaults, on the bytes: the defaults, then the first bytes of the body over them.
unfoldable pub copy_onto_defaults : ℕ → List ℕ → List ℕ → List ℕ
copy_onto_defaults out_size body defaults =
    let n = min (length body) out_size in take n body ++ drop n defaults

-- What stands behind a header that is accepted.
unfoldable pub framed_body : ℕ → List ℕ → Option (List ℕ)
framed_body newest_schema blob =
    if ltb (length blob) header_size
    then none
    else if (read16 0 blob == 0) || ltb newest_schema (read16 0 blob)
    then none
    else if ltb (length blob) (header_size + read16 2 blob)
    then none
    else some (take (read16 2 blob) (drop header_size blob))

unfoldable pub decode_framed_config : Option (List ℕ) → Option TagConfig
decode_framed_config none = none
decode_framed_config (some body) =
    some (config_of_bytes (copy_onto_defaults config_size body (config_bytes config_defaults)))

-- tag_config_decode
unfoldable pub tag_config_decode : Option (List ℕ) → Option TagConfig
tag_config_decode none = none
tag_config_decode (some blob) =
    if length blob == 0
    then none
    else if length blob == config_v0_size
    then some (config_of_bytes (copy_onto_defaults config_size blob (config_bytes config_defaults)))
    else decode_framed_config (framed_body config_schema blob)

-- tag_config_encode: the argument behind `max` says whether `blob` is there to be written.
unfoldable pub tag_config_encode : Option TagConfig → Option ℕ → List ℕ
tag_config_encode none max = []
tag_config_encode (some c) max = encode config_schema (config_bytes c) max

unfoldable pub decode_framed_stats : Option (List ℕ) → Option TagStatistics
decode_framed_stats none = none
decode_framed_stats (some body) =
    some
      (statistics_of_bytes (copy_onto_defaults stats_size body (statistics_bytes zero_statistics)))

unfoldable pub clear_epoch : TagStatistics → TagStatistics
clear_epoch s = record s { boot_epoch_utc = 0 }

-- tag_stats_decode. A 40-byte blob is a tag_stats_v0, which has no boot epoch.
unfoldable pub tag_stats_decode : Option (List ℕ) → Option TagStatistics
tag_stats_decode none = none
tag_stats_decode (some blob) =
    if length blob == 0
    then none
    else if length blob == stats_v0_size
    then some (clear_epoch (statistics_of_bytes blob))
    else decode_framed_stats (framed_body stats_schema blob)

-- tag_stats_encode
unfoldable pub tag_stats_encode : Option TagStatistics → Option ℕ → List ℕ
tag_stats_encode none max = []
tag_stats_encode (some s) max = encode stats_schema (statistics_bytes s) max
