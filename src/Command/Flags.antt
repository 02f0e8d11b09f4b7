-- ===== src/Command/Flags.antt =====
-- cmd/s3disk/mount.go: `newMountFlags`, the flags of `mount` with their variables and defaults, and
-- what `FlagSet.Set` does to these; `envOr`, `envBool` and `explicit`. How the library reads integers
-- and durations is an argument.
use remote_s3_bucket_plugin.Table.{Text, lookup}
use remote_s3_bucket_plugin.Table.Laws.{any_eq}
use remote_s3_bucket_plugin.Objects.{to_lower}
use remote_s3_bucket_plugin.Config.Source.{is_empty}
use remote_s3_bucket_plugin.Config.Settings.{Settings, Environment, default_settings}
use remote_s3_bucket_plugin.Command.Args.{FlagSet}
use remote_s3_bucket_plugin.Prelude.{
  ℕ, Bool, true, false, Option, none, some, List, [], ◌∷◌, ◌++◌, if◌then◌else◌, codes, ℤ,
}

pub record MountFlags : Type 0 where
  pub cfg : Settings
  pub cache_size : Text
  pub block_size : Text
  pub readahead : Text
  pub file_mode : Text
  pub dir_mode : Text
  pub uid : Text
  pub gid : Text
  pub part_size : Text
  pub multipart : Text
  pub option_list : Text

unfoldable pub env_or : Environment → Text → Text → Text
env_or env key fallback = if is_empty (env.get key) then fallback else env.get key

abbrev pub true_words : List Text
true_words = codes "1" ∷ codes "true" ∷ codes "yes" ∷ codes "on" ∷ []

abbrev pub false_words : List Text
false_words = codes "0" ∷ codes "false" ∷ codes "no" ∷ codes "off" ∷ []

unfoldable pub env_bool : Environment → Text → Bool → Bool
unfolding any_eq to_lower
env_bool env key fallback =
    let word = to_lower (env.get key) in
    if any_eq word true_words then true else if any_eq word false_words then false else fallback

-- The defaults; `uid` and `gid` are those of the process.
unfoldable pub new_mount_flags : Environment → ℕ → ℕ → MountFlags
unfolding env_or env_bool default_settings
new_mount_flags env uid gid =
    let cfg = default_settings uid gid in
    record {
      cfg = record cfg {
        endpoint = env_or env (codes "S3DISK_ENDPOINT") (env_or env (codes "AWS_ENDPOINT_URL") []);
        region =
            env_or env (codes "AWS_REGION") (env_or env (codes "AWS_DEFAULT_REGION") cfg.region);
        profile = env.get (codes "AWS_PROFILE");
        path_style = env_bool env (codes "S3DISK_PATH_STYLE") false;
        cache_dir = env.get (codes "S3DISK_CACHE_DIR");
        exclusive = env_bool env (codes "S3DISK_EXCLUSIVE") false;
        allow_other = env_bool env (codes "S3DISK_ALLOW_OTHER") false;
        debug = env_bool env (codes "S3DISK_DEBUG") false;
        log_file = env.get (codes "S3DISK_LOG_FILE");
      };
      cache_size = codes "8G";
      block_size = codes "4M";
      readahead = codes "16M";
      file_mode = codes "0644";
      dir_mode = codes "0755";
      uid = [];
      gid = [];
      part_size = codes "16M";
      multipart = codes "16M";
      option_list = [];
    }

-- The variable of a flag.
pub data Variable : Type 0 where
  text_var : (Text → MountFlags → MountFlags) → Variable
  bool_var : (Bool → Settings → Settings) → Variable
  int_var : (ℤ → Settings → Settings) → Variable
  time_var : (ℤ → Settings → Settings) → Variable
  cfg_var : (Text → Settings → Settings) → Variable

-- The settings of the S3 client.
abbrev pub client_flags : List (Text × Variable)
client_flags =
    (codes "endpoint", cfg_var (λ v g. record g { endpoint = v }))
    ∷ (codes "region", cfg_var (λ v g. record g { region = v }))
    ∷ (codes "profile", cfg_var (λ v g. record g { profile = v }))
    ∷ (codes "path-style", bool_var (λ v g. record g { path_style = v }))
    ∷ (codes "checksums", bool_var (λ v g. record g { checksums = v }))
    ∷ (codes "storage-class", cfg_var (λ v g. record g { storage_class = v }))
    ∷ (codes "sse", cfg_var (λ v g. record g { sse = v }))
    ∷ (codes "kms-key-id", cfg_var (λ v g. record g { kms_key_id = v }))
    ∷ (codes "acl", cfg_var (λ v g. record g { acl = v }))
    ∷ (codes "max-retries", int_var (λ v g. record g { max_retries = v }))
    ∷ (codes "request-timeout", time_var (λ v g. record g { request_timeout = v }))
    ∷ []

-- The cache, and the owner and the modes of files without stored ones.
abbrev pub cache_flags : List (Text × Variable)
cache_flags =
    (codes "cache-dir", cfg_var (λ v g. record g { cache_dir = v }))
    ∷ (codes "cache-size", text_var (λ v m. record m { cache_size = v }))
    ∷ (codes "block-size", text_var (λ v m. record m { block_size = v }))
    ∷ (codes "readahead", text_var (λ v m. record m { readahead = v }))
    ∷ (codes "persist-cache", bool_var (λ v g. record g { persist_cache = v }))
    ∷ (codes "uid", text_var (λ v m. record m { uid = v }))
    ∷ (codes "gid", text_var (λ v m. record m { gid = v }))
    ∷ (codes "file-mode", text_var (λ v m. record m { file_mode = v }))
    ∷ (codes "dir-mode", text_var (λ v m. record m { dir_mode = v }))
    ∷ []

-- Times, metadata and write-back.
abbrev pub behaviour_flags : List (Text × Variable)
behaviour_flags =
    (codes "stat-ttl", time_var (λ v g. record g { stat_ttl = v }))
    ∷ (codes "list-ttl", time_var (λ v g. record g { list_ttl = v }))
    ∷ (codes "negative-ttl", time_var (λ v g. record g { negative_ttl = v }))
    ∷ (codes "kernel-ttl", time_var (λ v g. record g { kernel_ttl = v }))
    ∷ (codes "attr-mode", cfg_var (λ v g. record g { attr_mode = v }))
    ∷ (codes "attr-workers", int_var (λ v g. record g { attr_workers = v }))
    ∷ (codes "sync-metadata", bool_var (λ v g. record g { sync_metadata = v }))
    ∷ (codes "exclusive", bool_var (λ v g. record g { exclusive = v }))
    ∷ (codes "dirty-timeout", time_var (λ v g. record g { dirty_timeout = v }))
    ∷ (codes "multipart-threshold", text_var (λ v m. record m { multipart = v }))
    ∷ (codes "part-size", text_var (λ v m. record m { part_size = v }))
    ∷ (codes "upload-concurrency", int_var (λ v g. record g { upload_concurrency = v }))
    ∷ (codes "upload-workers", int_var (λ v g. record g { upload_workers = v }))
    ∷ (codes "async-writeback", bool_var (λ v g. record g { async_writeback = v }))
    ∷ []

-- The mount and the process.
abbrev pub process_flags : List (Text × Variable)
process_flags =
    (codes "read-only", bool_var (λ v g. record g { read_only = v }))
    ∷ (codes "allow-other", bool_var (λ v g. record g { allow_other = v }))
    ∷ (codes "foreground", bool_var (λ v g. record g { foreground = v }))
    ∷ (codes "debug", bool_var (λ v g. record g { debug = v }))
    ∷ (codes "debug-fuse", bool_var (λ v g. record g { fuse_debug = v }))
    ∷ (codes "log-file", cfg_var (λ v g. record g { log_file = v }))
    ∷ (codes "o", text_var (λ v m. record m { option_list = v }))
    ∷ []

unfoldable pub flag_table : List (Text × Variable)
flag_table = client_flags ++ (cache_flags ++ (behaviour_flags ++ process_flags))

-- `strconv.ParseBool`.
unfoldable pub parse_bool : Text → Option Bool
unfolding any_eq
parse_bool s =
    if any_eq s
      (codes "1" ∷ codes "t" ∷ codes "T" ∷ codes "true" ∷ codes "TRUE" ∷ codes "True" ∷ [])
    then some true
    else if any_eq s
        (codes "0" ∷ codes "f" ∷ codes "F" ∷ codes "false" ∷ codes "FALSE" ∷ codes "False" ∷ [])
    then some false
    else none

-- `strconv.ParseInt(s, 0, 64)` and `time.ParseDuration`.
pub record Readers : Type 0 where
  pub integer : Text → Option ℤ
  pub duration : Text → Option ℤ

abbrev pub on_cfg {ℓ} :
    {A : Type ℓ} → (A → Settings → Settings) → Option A → MountFlags → Option MountFlags
on_cfg f none m = none
on_cfg f (some v) m = some (record m { cfg = f v m.cfg })

-- `Value.Set`; `none` is the error.
unfoldable pub assign : Readers → Variable → Text → MountFlags → Option MountFlags
unfolding parse_bool
assign rd (text_var f) value m = some (f value m)
assign rd (cfg_var f) value m = on_cfg f (some value) m
assign rd (bool_var f) value m = on_cfg f (parse_bool value) m
assign rd (int_var f) value m = on_cfg f (rd.integer value) m
assign rd (time_var f) value m = on_cfg f (rd.duration value) m

abbrev pub is_bool_var : Variable → Bool
is_bool_var (text_var f) = false
is_bool_var (cfg_var f) = false
is_bool_var (bool_var f) = true
is_bool_var (int_var f) = false
is_bool_var (time_var f) = false

unfoldable pub value_accepted : Readers → Variable → Text → Bool
unfolding parse_bool
value_accepted rd (text_var f) value = true
value_accepted rd (cfg_var f) value = true
value_accepted rd (bool_var f) value = elim (parse_bool value) [ none ↦ false | some b ↦ true ]
value_accepted rd (int_var f) value = elim (rd.integer value) [ none ↦ false | some n ↦ true ]
value_accepted rd (time_var f) value = elim (rd.duration value) [ none ↦ false | some n ↦ true ]

-- The flag set of `mount`.
unfoldable pub mount_flag_set : Readers → FlagSet
unfolding flag_table lookup value_accepted
mount_flag_set rd = record {
  find = λ name. elim (lookup name flag_table) [ none ↦ none | some v ↦ some (is_bool_var v) ];
  accepts = λ name value. elim (lookup name flag_table) [
    | none ↦ false
    | some v ↦ value_accepted rd v value
  ];
}

-- The flags that were set, one after the other.
unfoldable pub assign_all : Readers → List (Text × Text) → MountFlags → Option MountFlags
unfolding flag_table lookup assign
assign_all rd [] m = some m
assign_all rd ((name, value) ∷ settings) m = elim (lookup name flag_table) [
  | none ↦ none
  | some v ↦ elim (assign rd v value m) [ none ↦ none | some m' ↦ assign_all rd settings m' ]
]

abbrev pub set_names : List (Text × Text) → List Text
set_names [] = []
set_names ((name, value) ∷ settings) = name ∷ set_names settings

-- Whether a flag was set at all.
unfoldable pub explicit : Text → List (Text × Text) → Bool
unfolding any_eq
explicit name settings = any_eq name (set_names settings)
