-- ===== src/Config/Settings.antt =====
-- internal/config/config.go: the settings that the command line gives, `Default`, `Validate`,
-- `DefaultCacheDir` and `MaxReadAhead`. Sizes are int64, times are in nanoseconds.
pub mod Bounds
use remote_s3_bucket_plugin.Table.{Text, text_eq}
use remote_s3_bucket_plugin.Objects.{trim_slash}
use remote_s3_bucket_plugin.Config.Source.{is_empty}
use remote_s3_bucket_plugin.Prelude.{
  ℕ, ◌*◌, ◌/◌, ◌^◌, ◌<◌, min, Bool, true, false, not, ◌||◌, Option, none, some, [], ◌∷◌, ◌++◌, ◌==◌,
  if◌then◌else◌, codes, leb_ℤ, ℤ, pos, negsuc,
}

pub record Settings : Type 0 where
  pub bucket : Text
  pub prefix : Text
  pub mountpoint : Text
  pub endpoint : Text
  pub region : Text
  pub profile : Text
  pub path_style : Bool
  pub access_key : Text
  pub secret_key : Text
  pub session_token : Text
  pub checksums : Bool
  pub storage_class : Text
  pub sse : Text
  pub kms_key_id : Text
  pub acl : Text
  pub requester_pays : Bool
  pub max_retries : ℤ
  pub request_timeout : ℤ
  pub cache_dir : Text
  pub cache_size : ℤ
  pub block_size : ℤ
  pub readahead : ℤ
  pub persist_cache : Bool
  pub uid : ℕ
  pub gid : ℕ
  pub file_mode : ℕ
  pub dir_mode : ℕ
  pub stat_ttl : ℤ
  pub list_ttl : ℤ
  pub negative_ttl : ℤ
  pub kernel_ttl : ℤ
  pub attr_mode : Text
  pub attr_workers : ℤ
  pub sync_metadata : Bool
  pub exclusive : Bool
  pub async_writeback : Bool
  pub upload_workers : ℤ
  pub dirty_timeout : ℤ
  pub multipart_threshold : ℤ
  pub part_size : ℤ
  pub upload_concurrency : ℤ
  pub read_only : Bool
  pub allow_other : Bool
  pub foreground : Bool
  pub debug : Bool
  pub fuse_debug : Bool
  pub log_file : Text
  pub list_limit : ℕ

abbrev pub attr_full : Text
attr_full = codes "full"

abbrev pub attr_fast : Text
attr_fast = codes "fast"

abbrev pub second : ℕ
second = 10 ^ 9

-- `uid` and `gid` are those of the process.
unfoldable pub default_settings : ℕ → ℕ → Settings
default_settings uid gid = record {
  bucket = [];
  prefix = [];
  mountpoint = [];
  endpoint = [];
  region = codes "us-east-1";
  profile = [];
  path_style = false;
  access_key = [];
  secret_key = [];
  session_token = [];
  checksums = false;
  storage_class = [];
  sse = [];
  kms_key_id = [];
  acl = [];
  requester_pays = false;
  max_retries = pos 5;
  request_timeout = pos (60 * second);
  cache_dir = [];
  cache_size = pos (8 * 2 ^ 30);
  block_size = pos (4 * 2 ^ 20);
  readahead = pos (16 * 2 ^ 20);
  persist_cache = true;
  uid = uid;
  gid = gid;
  file_mode = 420;
  dir_mode = 493;
  stat_ttl = pos (5 * second);
  list_ttl = pos (5 * second);
  negative_ttl = pos (5 * second);
  kernel_ttl = pos second;
  attr_mode = attr_full;
  attr_workers = pos 32;
  sync_metadata = true;
  exclusive = false;
  async_writeback = false;
  upload_workers = pos 16;
  dirty_timeout = pos (3 * second);
  multipart_threshold = pos (16 * 2 ^ 20);
  part_size = pos (16 * 2 ^ 20);
  upload_concurrency = pos 4;
  read_only = false;
  allow_other = false;
  foreground = false;
  debug = false;
  fuse_debug = false;
  log_file = [];
  list_limit = 1000;
}

-- The environment that the settings read.
pub record Environment : Type 0 where
  pub get : Text → Text
  pub home : Option Text

-- `strings.ReplaceAll(s, "/", "_")`.
unfoldable pub flat_name : Text → Text
flat_name [] = []
flat_name (x ∷ xs) = (if x == 47 then 95 else x) ∷ flat_name xs

-- `XDG_CACHE_HOME`, or `.cache` of the home directory, or `/var/cache`.
unfoldable pub cache_base : Environment → Text
cache_base env =
    let fallback = codes "/var/cache" in
    let at_home : Text = elim env.home [
      | none ↦ fallback
      | some home ↦ if is_empty home then fallback else home ++ codes "/.cache"
    ] in
    if is_empty (env.get (codes "XDG_CACHE_HOME"))
    then at_home
    else env.get (codes "XDG_CACHE_HOME")

unfoldable pub cache_name : Text → Text → Text
unfolding flat_name trim_slash
cache_name bucket prefix =
    if is_empty prefix then bucket else bucket ++ 95 ∷ flat_name (trim_slash prefix)

unfoldable pub default_cache_dir : Environment → Text → Text → Text
unfolding cache_base cache_name
default_cache_dir env bucket prefix =
    cache_base env ++ (codes "/s3disk/" ++ cache_name bucket prefix)

pub data SettingsError : Type 0 where
  no_bucket no_mountpoint bad_attr_mode small_block_size small_part_size : SettingsError

-- `if n < 1 { n = 1 }`.
unfoldable pub at_least_one : ℤ → ℤ
at_least_one n = if leb_ℤ (pos 1) n then n else pos 1

-- The settings that are derived.
unfoldable pub normalize : Environment → Settings → Settings
unfolding at_least_one default_cache_dir
normalize env g = record g {
  attr_workers = at_least_one g.attr_workers;
  upload_concurrency = at_least_one g.upload_concurrency;
  upload_workers = at_least_one g.upload_workers;
  cache_dir = if is_empty g.cache_dir then default_cache_dir env g.bucket g.prefix else g.cache_dir;
}

-- The first of the checks of `Validate` that fails.
unfoldable pub refuse_settings : Settings → Option SettingsError
refuse_settings g =
    if is_empty g.bucket
    then some no_bucket
    else if is_empty g.mountpoint
    then some no_mountpoint
    else if not (text_eq g.attr_mode attr_full || text_eq g.attr_mode attr_fast)
    then some bad_attr_mode
    else if not (leb_ℤ (pos (64 * 2 ^ 10)) g.block_size)
    then some small_block_size
    else if not (leb_ℤ (pos (5 * 2 ^ 20)) g.part_size)
    then some small_part_size
    else none

pub data Validated : Type 0 where
  valid : Settings → Validated
  invalid : SettingsError → Validated

unfoldable pub validate : Environment → Settings → Validated
unfolding refuse_settings normalize
validate env g = elim (refuse_settings g) [
  | some err ↦ invalid err
  | none ↦ valid (normalize env g)
]

-- What FUSE accepts.
unfoldable pub max_read_ahead : ℤ → ℕ
max_read_ahead (negsuc _) = 0
max_read_ahead (pos n) = min n (2 ^ 20)
