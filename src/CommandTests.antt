-- ===== src/CommandTests.antt =====
-- Runs of the command line, the settings, the cache index and the registry on small inputs.
use remote_s3_bucket_plugin.OsFile.{File}
use remote_s3_bucket_plugin.Table.{Text, text_eq, has_prefix, lookup}
use remote_s3_bucket_plugin.Table.Laws.{IsMap, any_eq}
use remote_s3_bucket_plugin.Paths.{trim_prefix}
use remote_s3_bucket_plugin.Decimal.{parse_uint, format_uint, parse_uint-format_uint}
use remote_s3_bucket_plugin.Objects.{trim_slash}
use remote_s3_bucket_plugin.Entry.{Entry, Options, cancelled, stored, done}
use remote_s3_bucket_plugin.Entry.View.{Serves}
use remote_s3_bucket_plugin.Objects.Bodies.{GetObject, streamed, S3Stats, get_range}
use remote_s3_bucket_plugin.Objects.Bodies.Ranges.{IsRange, bytes_from, get_range-Serves}
use remote_s3_bucket_plugin.Config.Values.{parse_size}
use remote_s3_bucket_plugin.Config.Values.Units.{
  ReadsNumbers, gibi_upper, in_lower, in_upper, parse_size-spelled,
}
use remote_s3_bucket_plugin.Cache.{Cache, lookup_entry}
use remote_s3_bucket_plugin.Cache.Index.{
  Disk, IndexFile, ReadIndex, missing, decoded, restore_entry, empty_cache, no_entry, new_cache,
}
use remote_s3_bucket_plugin.Cache.Index.Restored.{Filed}
use remote_s3_bucket_plugin.Cache.Index.Storable.{IsStorable, AllStored}
use remote_s3_bucket_plugin.Cache.Index.Reloaded.{
  Reloaded, reloaded, load_index-save_index, new_cache-refused,
}
use remote_s3_bucket_plugin.Config.Source.{
  source, is_space, is_space_char, space_width, trim_start, trim_end, trim_left, trim_right,
  trim_space, is_slash, trim_slashes, contains_any, cut_any, scheme, with_slash, parse_bucket,
  parse_s3_url, describe,
}
use remote_s3_bucket_plugin.Config.Source.Trim.{ends_in_space}
use remote_s3_bucket_plugin.Config.Source.Normal.{IsNormal, parse_s3_url-describe}
use remote_s3_bucket_plugin.Config.Settings.{
  Settings, default_settings, normalize, refuse_settings, validate, valid,
}
use remote_s3_bucket_plugin.Config.Settings.Bounds.{IsSound, validate-IsSound}
use remote_s3_bucket_plugin.Command.Args.{
  FlagSet, is_option, flag_body, cut_value, read_known, read_body, permute, parsed, parse,
}
use remote_s3_bucket_plugin.Command.Args.Anywhere.{parse_anywhere, starts_plain, parse-permute}
use remote_s3_bucket_plugin.Command.Options.{is_quote, split_options}
use remote_s3_bucket_plugin.Command.Options.Quoted.{
  is_special, Renders, join_options, AllRender, contents, split_options-join,
}
use remote_s3_bucket_plugin.Command.Flags.{new_mount_flags}
use remote_s3_bucket_plugin.Command.Mount.{Machine, run_mount, with_target, run_mount_helper}
use remote_s3_bucket_plugin.Command.Mount.Accepted.{Served, IsReady, run_mount-IsReady}
use remote_s3_bucket_plugin.Command.Mount.Helper.{
  AllHousekeeping, is_housekeeping, run_mount_helper-with_target,
}
use remote_s3_bucket_plugin.Mounts.Lines.{Row}
use remote_s3_bucket_plugin.Control.{MountEntry, registry_file, dashed, register, find}
use remote_s3_bucket_plugin.Control.Registered.{IsFiled, IsWritable, find-register}
use remote_s3_bucket_plugin.Utf8.{is_utf8}
use remote_s3_bucket_plugin.Prelude.{
  ℕ, zero, suc, ◌+◌, ◌-◌, ◌*◌, ◌<◌, ◌≡◌, refl, true, false, none, some, List, [], ◌∷◌, ◌++◌, arith,
  if◌then◌else◌, get_or, length, codes, pos,
}

-- A command line with an option behind the positional words.
abbrev flags : FlagSet
flags = record {
  find = λ name. if text_eq name (codes "endpoint") then some false else none;
  accepts = λ name value. true;
}

abbrev words : List Text
words = codes "s3://b" ∷ codes "/mnt" ∷ codes "--endpoint" ∷ codes "http://m:9000" ∷ []

anywhere_run :
    parse_anywhere flags none words
    ≡ parsed ((codes "endpoint", codes "http://m:9000") ∷ []) (codes "s3://b" ∷ codes "/mnt" ∷ [])
unfolding parse_anywhere is_option text_eq flag_body cut_value read_known read_body
anywhere_run = refl

plain_start : starts_plain (codes "s3://b" ∷ codes "/mnt" ∷ []) ≡ true
unfolding starts_plain is_option
plain_start = refl

parse-permute_example :
    parse flags none (permute flags words)
    ≡ parsed ((codes "endpoint", codes "http://m:9000") ∷ []) (codes "s3://b" ∷ codes "/mnt" ∷ [])
parse-permute_example =
    parse-permute flags words ((codes "endpoint", codes "http://m:9000") ∷ [])
      (codes "s3://b" ∷ codes "/mnt" ∷ []) anywhere_run plain_start

url_run : parse_s3_url (codes " s3://b//x/y/ ") ≡ source (codes "b") (codes "x/y/")
unfolding parse_s3_url trim_space trim_start trim_end trim_left trim_right space_width is_space_char
    is_space has_prefix parse_bucket cut_any contains_any with_slash trim_slashes is_slash
url_run = refl

url_tight : ends_in_space (describe (codes "b") (codes "x/y/")) ≡ false
unfolding ends_in_space is_space_char is_space describe trim_slash
url_tight = refl

parse_s3_url-describe_example :
    IsNormal (codes "b") (codes "x/y/")
    × (parse_s3_url (scheme ++ describe (codes "b") (codes "x/y/"))
        ≡ source (codes "b") (codes "x/y/"))
parse_s3_url-describe_example =
    parse_s3_url-describe (codes " s3://b//x/y/ ") (codes "b") (codes "x/y/") url_run url_tight

-- A no-break space and an ideographic space are trimmed, and a letter with such a first byte is not.
spaces_trimmed :
    trim_space (194 ∷ 160 ∷ 97 ∷ 194 ∷ 181 ∷ 227 ∷ 128 ∷ 128 ∷ 32 ∷ []) ≡ 97 ∷ 194 ∷ 181 ∷ []
unfolding trim_space trim_start trim_end space_width is_space_char is_space
spaces_trimmed = refl

-- `ro,'a,b'`.
quoted_options : AllRender ((none, codes "ro") ∷ (some 39, codes "a,b") ∷ [])
unfolding AllRender Renders is_special is_quote contains_any
quoted_options = (refl, ((refl, refl), tt))

split_options-join_example :
    split_options (join_options ((none, codes "ro") ∷ (some 39, codes "a,b") ∷ []))
    ≡ contents ((none, codes "ro") ∷ (some 39, codes "a,b") ∷ [])
split_options-join_example =
    split_options-join (none, codes "ro") ((some 39, codes "a,b") ∷ []) quoted_options

-- Sizes are whole numbers, there are no accounts, and the environment is empty.
abbrev machine : Machine
unfolding parse_uint
machine = record {
  floats = record {
    value = ℕ;
    parse = parse_uint 62;
    negative = λ n. false;
    times = λ n mult. pos (n * mult);
  };
  readers = record { integer = λ s. none; duration = λ s. none };
  accounts = record { user = λ s. none; group = λ s. none };
  env = record { get = λ name. []; home = none };
  absolute = λ path. some path;
  uid = 1000;
  gid = 1000;
}

run_mount-IsReady_example :
    Served IsReady (run_mount machine (codes "s3://b/p" ∷ codes "/mnt" ∷ []))
run_mount-IsReady_example = run_mount-IsReady machine (codes "s3://b/p" ∷ codes "/mnt" ∷ [])

two_flags : AllHousekeeping (codes "-s" ∷ codes "-n" ∷ [])
unfolding AllHousekeeping is_housekeeping text_eq
two_flags = (refl, refl, (refl, refl, tt))

source_is_plain : is_option (codes "b:p") ≡ false
unfolding is_option
source_is_plain = refl

directory_is_plain : is_option (codes "/mnt") ≡ false
unfolding is_option
directory_is_plain = refl

run_mount_helper-with_target_example :
    run_mount_helper machine (
      codes "b:p" ∷ codes "/mnt" ∷ ((codes "-s" ∷ codes "-n" ∷ []) ++ codes "-o" ∷ codes "ro" ∷ []))
    ≡ with_target machine
        ((codes "o", codes "ro") ∷ [])
        (codes "b:p")
        (codes "/mnt")
        (record (new_mount_flags machine.env machine.uid machine.gid) { option_list = codes "ro" })
run_mount_helper-with_target_example =
    run_mount_helper-with_target machine (codes "b:p") (codes "/mnt") (codes "ro")
      (codes "-s" ∷ codes "-n" ∷ []) source_is_plain directory_is_plain refl two_flags

-- Settings with the defaults, and no workers for uploads.
abbrev settings : Settings
unfolding default_settings
settings = record (default_settings 0 0) {
  bucket = codes "b";
  mountpoint = codes "/mnt";
  upload_workers = pos 0;
}

settings_run : validate machine.env settings ≡ valid (normalize machine.env settings)
unfolding validate refuse_settings text_eq settings
settings_run = refl

validate-IsSound_example :
    IsSound (normalize machine.env settings)
    × (validate machine.env (normalize machine.env settings)
        ≡ valid (normalize machine.env settings))
validate-IsSound_example =
    validate-IsSound machine.env settings (normalize machine.env settings) settings_run

-- A line of the table of mounts, for the mountpoint `/a b`.
abbrev row : Row
row = record {
  id = codes "36";
  parent = codes "35";
  device = codes "0:32";
  root = codes "/";
  path = codes "/a b";
  rest = codes "rw - fuse s3disk rw";
}

abbrev mount : MountEntry
mount = record {
  mountpoint = codes "/mnt";
  bucket = codes "b";
  prefix = [];
  cache_dir = codes "/c";
  socket = codes "/c/control.sock";
  pid = 7;
  started = 1;
}

abbrev same_path : Text → Text
same_path path = path

no_records : IsFiled same_path []
unfolding IsMap lookup
no_records = record {
  distinct = tt;
  filed = λ name e found. let bad : none ≡ some e = found in let wrong : ⊥ = cc in absurd wrong;
}

its_file : any_eq (registry_file (codes "/mnt")) (codes "mnt.json" ∷ []) ≡ true
unfolding any_eq registry_file dashed trim_prefix has_prefix text_eq
its_file = refl

mount-IsWritable : IsWritable mount
unfolding is_utf8
mount-IsWritable = record {
  mountpoint = refl;
  bucket = refl;
  prefix = refl;
  cache_dir = refl;
  socket = refl;
}

-- A library that does not keep a mountpoint that is not in UTF-8.
abbrev reread_entry : MountEntry → MountEntry
unfolding is_utf8
reread_entry e = if is_utf8 e.mountpoint then e else record e { mountpoint = 63 ∷ [] }

same_entry : (e : MountEntry) → IsWritable e → reread_entry e ≡ e
unfolding reread_entry
same_entry e v = rw v.mountpoint refl

find-register_example :
    (find same_path
      (λ s. true)
      (codes "mnt.json" ∷ [])
      (codes "/mnt")
      (register reread_entry same_path true mount [])).0
    ≡ some mount
find-register_example =
    find-register reread_entry same_path (λ s. true) (codes "mnt.json" ∷ []) mount [] same_entry
      mount-IsWritable no_records refl refl refl its_file

-- A cache with one entry of three bytes that is dirty.
abbrev three_bytes : File
three_bytes = record { len = 3; data_at = λ p. 7 }

abbrev kept_cache : Cache
unfolding empty_cache no_entry
kept_cache = record empty_cache {
  table = (codes "k", 0) ∷ [];
  store = λ id. record no_entry {
    key = codes "k";
    file = three_bytes;
    size = 3;
    dirty = true;
    new_file = true;
  };
  next = 1;
}

abbrev disk : Disk
disk = record { files = λ path. some three_bytes; opens = λ path. true }

kept_rows : IsMap kept_cache.table
unfolding IsMap lookup kept_cache
kept_rows = (refl, tt)

kept_keys : Filed kept_cache.store kept_cache.table
unfolding Filed kept_cache
kept_keys = (refl, tt)

kept_row : lookup (codes "k") kept_cache.table ≡ some 0
unfolding lookup text_eq kept_cache
kept_row = refl

kept_size : (three_bytes.len ≡ (kept_cache.store 0).size) × ((kept_cache.store 0).deleted ≡ false)
unfolding kept_cache no_entry restore_entry
kept_size = (refl, refl)

kept_stored : AllStored kept_cache.store kept_cache.table
unfolding AllStored kept_cache is_utf8 no_entry restore_entry
kept_stored = (
  record {
    key = refl;
    etag = refl;
    size = omega arith;
    obj_size = omega arith;
    mtime = omega arith;
  },
  tt,
)

-- A library that does not keep an identity that is not in UTF-8.
abbrev reread_index : IndexFile → ReadIndex
unfolding is_utf8
reread_index idx =
    if is_utf8 idx.identity then decoded idx else decoded (record idx { identity = 63 ∷ [] })

same_index : (idx : IndexFile) → IsStorable idx → reread_index idx ≡ decoded idx
unfolding reread_index
same_index idx v = rw v.identity refl

in_utf8 : is_utf8 (codes "b/") ≡ true
unfolding is_utf8
in_utf8 = refl

load_index-save_index_example :
    ((e : Entry) × (lookup_entry
          (codes "k")
          (reloaded reread_index (codes "b/") 4 1 2 same_path disk kept_cache missing)
        ≡ some e)
      × Reloaded 4 three_bytes (kept_cache.store 0) e)
    × ((k : Text)
        → lookup k kept_cache.table ≡ none
        → lookup_entry k
            (reloaded reread_index (codes "b/") 4 1 2 same_path disk kept_cache missing)
          ≡ none)
load_index-save_index_example =
    load_index-save_index reread_index (codes "b/") 4 1 2 same_path disk kept_cache missing
      kept_rows kept_keys same_index in_utf8 (omega arith) (omega arith) kept_stored (codes "k") 0
      three_bytes kept_row kept_size.1 refl refl kept_size.0

-- The index of another bucket.
abbrev foreign : IndexFile
foreign = record { version = 1; identity = codes "c/"; block_size = 4; entries = []; saved_at = 0 }

foreign_is_other :
    ¬ ((foreign.version ≡ 1) × (foreign.block_size ≡ 4) × (foreign.identity ≡ codes "b/"))
foreign_is_other (v, b, i) =
    let same : ◌≡◌ {A = Text} (99 ∷ 47 ∷ []) (98 ∷ 47 ∷ []) = i in
    let bad : ◌≡◌ {A = ℕ} 99 98 = cc in omega (arith, bad)

new_cache-refused_example :
    new_cache none true (codes "b/") 4 same_path disk 1 (decoded foreign) ≡ done (empty_cache, true)
new_cache-refused_example =
    new_cache-refused (codes "b/") 4 same_path disk 1 foreign (omega arith) foreign_is_other

numbers : ReadsNumbers machine.floats
unfolding machine
numbers = record {
  value_of = λ n. n;
  reads = λ n h. parse_uint-format_uint 62 n (omega arith);
  natural = λ n. refl;
  product = λ n m h. refl;
}

parse_size-spelled_example :
    parse_size machine.floats (((format_uint 8 ++ codes "G") ++ codes "i") ++ codes "B")
    ≡ some (pos (8 * 1073741824))
parse_size-spelled_example =
    parse_size-spelled machine.floats 8 1073741824 (codes "G") (codes "i") (codes "B") numbers
      gibi_upper in_lower in_upper (omega arith)

-- An object of sevens, from which a body breaks off after a byte.
abbrev sevens : GetObject
sevens key range = streamed (7 ∷ []) (some cancelled)

sevens-IsRange :
    (off n : ℕ) → 0 < n → IsRange (λ p. 7) off n (sevens [] (some (bytes_from off (off + n - 1))))
unfolding IsRange
sevens-IsRange off n h = (h, λ k below. only k below)
  where
    only : (k : ℕ) → k < 1 → get_or {A = ℕ} (7 ∷ []) k 0 ≡ 7
    only zero h = refl
    only (suc k) h = absurd (omega arith)

abbrev no_requests : S3Stats
no_requests = record {
  heads = 0;
  lists = 0;
  gets = 0;
  puts = 0;
  copies = 0;
  deletes = 0;
  errors = 0;
  bytes_down = 0;
  bytes_up = 0;
}

abbrev plain_options : Options
plain_options = record {
  block_size = 4;
  max_bytes = 0;
  readahead = 0;
  read_only = false;
  fetch = λ key off n. record { body = []; got = 0; failed = none };
  upload = λ key body size. stored [];
}

get_range-Serves_example :
    Serves
      (record plain_options { fetch = λ k off n. (get_range sevens no_requests k off n).0 })
      []
      (λ p. 7)
    × ((off n : ℕ) (body : List ℕ)
        → 0 < n
        → sevens [] (some (bytes_from off (off + n - 1))) ≡ streamed body none
        → (get_range sevens no_requests [] off n).0
          ≡ record { body = body; got = length body; failed = none })
get_range-Serves_example =
    get_range-Serves (λ p. 7) sevens no_requests [] sevens-IsRange plain_options
