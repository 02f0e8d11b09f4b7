-- ===== src/Config.antt =====
-- internal/config/config.go: the settings of a mount that the filesystem reads. `attr_full` is
-- whether `AttrMode` is `full`.
pub mod Source
pub mod Values
pub mod Settings
use remote_s3_bucket_plugin.Table.{Text}
use remote_s3_bucket_plugin.Prelude.{ℕ, Bool}

pub record Config : Type 0 where
  pub prefix : Text
  pub read_only : Bool
  pub exclusive : Bool
  pub sync_metadata : Bool
  pub attr_full : Bool
  pub async_writeback : Bool
  pub file_mode : ℕ
  pub dir_mode : ℕ
  pub uid : ℕ
  pub gid : ℕ
  pub block_size : ℕ
  pub cache_size : ℕ
  pub readahead : ℕ
  pub part_size : ℕ
  pub kernel_ttl : ℕ
