-- ===== src/VersionCache.antt =====
-- src/version_cache.rs: the detected version, kept in a file. The JSON library and the file system
-- are parameters.
use redoxide.Common.{ℕ, Bytes, Bool, Option, none, some, if◌then◌else◌}

pub record VersionCache : Type 0 where
  pub protocol : ℕ
  pub version : Bytes

-- `serde_json`, both ways; `none` is an error.
pub record CacheFormat : Type 0 where
  pub to_string_pretty : VersionCache → Option Bytes
  pub from_str : Bytes → Option VersionCache

-- What the file system allows in one `save`.
pub record CacheDir : Type 0 where
  pub creates_dir : Bool
  pub writes : Bool

module _ (format : CacheFormat) where
  -- The file holds nothing where it is missing or cannot be read.
  unfoldable pub load : Option Bytes → Option VersionCache
  load none = none
  load (some text) = format.from_str text

  -- The contents of the file after `save`.
  unfoldable pub save : CacheDir → Option Bytes → ℕ → Bytes → Option Bytes
  save dir file protocol version =
      if dir.creates_dir
      then elim (format.to_string_pretty (record { protocol = protocol; version = version })) [
        | none ↦ file
        | some json ↦ if dir.writes then some json else file
      ]
      else file
