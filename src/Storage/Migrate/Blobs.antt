-- ===== src/Storage/Migrate/Blobs.antt =====
-- Round trips and refusals of the settings blobs of src/storage/config_migrate.c.
use nrf54l15_tag.Common.{
  drop, ℕ, ◌+◌, ◌*◌, ◌/◌, ◌%◌, min, false, ◌≤◌, ◌<◌, ◌≡◌, ◌≢◌, refl, ap, ◌∙◌, length, length-append,
  take, List, [], ◌∷◌, ◌++◌, some, arith, ltb,
}
use mathlib.Core.List.{append-nil}
use nrf54l15_tag.SmartTag.{TagConfig, TagStatistics, config_defaults}
use nrf54l15_tag.Storage.Layout.{
  le16, config_bytes, config_of_bytes, statistics_bytes, IsConfig, IsStatistics,
}
use nrf54l15_tag.Storage.Layout.RoundTrip.{
  config_of_bytes-config_bytes, statistics_of_bytes-statistics_bytes,
}
use nrf54l15_tag.Storage.Migrate.{
  config_schema, encode, framed_body, copy_onto_defaults, decode_framed_config, tag_config_decode,
  tag_config_encode, decode_framed_stats, tag_stats_decode, tag_stats_encode,
}

-- The test of an encoder against a buffer that is large enough.
fits : (n max : ℕ) → n ≤ max → ltb max n ≡ false
fits n max h = ground arith

-- A configuration whose fields fit their C types, written into any buffer that holds 44 bytes, is
-- read back as it was.
pub tag_config_decode-encode :
    (c : TagConfig) (max : ℕ)
    → IsConfig c
    → 44 ≤ max
    → tag_config_decode (some (tag_config_encode (some c) (some max))) ≡ some c
unfolding tag_config_decode tag_config_encode encode framed_body decode_framed_config
    copy_onto_defaults config_bytes
tag_config_decode-encode c max v h = rw (fits 44 max h) (ap some (config_of_bytes-config_bytes c v))

-- Statistics whose fields fit their C types, written into any buffer that holds 46 bytes, are read
-- back as they were.
pub tag_stats_decode-encode :
    (s : TagStatistics) (max : ℕ)
    → IsStatistics s
    → 46 ≤ max
    → tag_stats_decode (some (tag_stats_encode (some s) (some max))) ≡ some s
unfolding tag_stats_decode tag_stats_encode encode framed_body decode_framed_stats
    copy_onto_defaults statistics_bytes
tag_stats_decode-encode s max v h =
    rw (fits 46 max h) (ap some (statistics_of_bytes-statistics_bytes s v))

-- The raw struct of protocol v3, with no header, is read as it was, if its fields fit their C types.
pub tag_config_decode-raw :
    (c : TagConfig) → IsConfig c → tag_config_decode (some (config_bytes c)) ≡ some c
unfolding tag_config_decode copy_onto_defaults config_bytes
tag_config_decode-raw c v = ap some (config_of_bytes-config_bytes c v)

take_prefix {ℓ} : {A : Type ℓ} (xs ys : List A) → take (length xs) (xs ++ ys) ≡ xs
take_prefix [] ys = refl
take_prefix (x ∷ xs) ys = ap (λ l. x ∷ l) (take_prefix xs ys)

take_all {ℓ} : {A : Type ℓ} (xs : List A) → take (length xs) xs ≡ xs
take_all [] = refl
take_all (x ∷ xs) = ap (λ l. x ∷ l) (take_all xs)

-- A blob of schema 1: the header, a body of the size that it names, and bytes behind it.
abbrev pub framed : ℕ → List ℕ → List ℕ → List ℕ
framed n body rest = le16 config_schema ++ (le16 n ++ (body ++ rest))

framed_body-framed :
    (body rest : List ℕ)
    → length body < 65536
    → framed_body config_schema (framed (length body) body rest) ≡ some body
unfolding framed_body
framed_body-framed body rest h =
    let n = length body in
    let w : n % 256 + 256 * (n / 256 % 256) ≡ n = omega arith in
    ground (arith, w, length-append body rest, take_prefix body rest)

copy_short :
    (size : ℕ) (body defaults : List ℕ)
    → length body ≤ size
    → copy_onto_defaults size body defaults ≡ body ++ drop (length body) defaults
unfolding copy_onto_defaults
copy_short size body defaults h =
    let m : min (length body) size ≡ length body = omega arith in
    rw m (ap (λ l. l ++ drop (length body) defaults) (take_all body))

-- A body that an older firmware wrote shorter is laid over the defaults, and bytes behind the body
-- are ignored: the fields past its end have their default values. The blob must not be 40 bytes
-- long in all.
pub tag_config_decode-shorter :
    (body rest : List ℕ)
    → length body ≤ 40
    → length body + length rest ≢ 36
    → tag_config_decode (some (framed (length body) body rest))
      ≡ some (config_of_bytes (body ++ drop (length body) (config_bytes config_defaults)))
unfolding tag_config_decode decode_framed_config
tag_config_decode-shorter body rest h k = ground (
  arith,
  length-append body rest,
  framed_body-framed body rest (omega arith),
  copy_short 40 body (config_bytes config_defaults) h,
)

append_nil_defaults : (blob : List ℕ) → blob ++ drop 40 (config_bytes config_defaults) ≡ blob
unfolding config_bytes
append_nil_defaults blob = append-nil blob

-- A blob of exactly 40 bytes is read as a raw struct, header and all.
read_raw :
    (blob : List ℕ) → length blob ≡ 40 → tag_config_decode (some blob) ≡ some (config_of_bytes blob)
unfolding tag_config_decode
read_raw blob size = rw size (
    ap (λ l. some (config_of_bytes l))
      (copy_short 40 blob (config_bytes config_defaults) (omega (arith, size))
        ∙ rw size (append_nil_defaults blob)))

-- What the raw struct makes of a header of schema 1.
header_fields :
    (body rest : List ℕ)
    → length body < 65536
    → let c = config_of_bytes (framed (length body) body rest) in
      (c.sampling_interval_s ≡ 1) × (c.motion_timeout_s ≡ length body)
unfolding config_of_bytes
header_fields body rest h = (refl, omega arith)

-- A body of 36 bytes at most, in a frame of schema 1 with some bytes or none behind the body, means
-- two different things. If the blob is 40 bytes long in all, it is accepted as a raw struct: its schema
-- number is the sampling interval, 1 second, and the body's size is the motion timeout in seconds. With
-- any other number of bytes behind the same body, the blob is the body laid over the defaults.
pub tag_config_decode-collision :
    (body rest other : List ℕ)
    → length body + length rest ≡ 36
    → length other ≢ length rest
    → (c : TagConfig) × (tag_config_decode (some (framed (length body) body rest)) ≡ some c)
      × (c.sampling_interval_s ≡ 1)
      × (c.motion_timeout_s ≡ length body)
      × (tag_config_decode (some (framed (length body) body other))
          ≡ some (config_of_bytes (body ++ drop (length body) (config_bytes config_defaults))))
tag_config_decode-collision body rest other k differs =
    let blob = framed (length body) body rest in
    let size : length blob ≡ 40 = omega (arith, length-append body rest) in
    let (interval, timeout) = header_fields body rest (omega arith) in
    (
      config_of_bytes blob,
      read_raw blob size,
      interval,
      timeout,
      tag_config_decode-shorter body other (omega arith) (λ e. differs (omega arith)),
    )
