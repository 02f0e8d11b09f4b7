-- ===== src/Command/Mount.antt =====
-- cmd/s3disk/mount.go: `runMount` up to the mount itself, with `finish`; `runMountHelper`; and
-- `checkMountpoint`. The file system, the accounts and the environment answer as arguments.
pub mod Accepted
pub mod Helper
use remote_s3_bucket_plugin.Table.{Text, text_eq}
use remote_s3_bucket_plugin.Config.Source.{SourceError, source, refused, is_empty, parse_s3_url}
use remote_s3_bucket_plugin.Config.Values.{Floats, Accounts, parse_size, parse_mode, parse_owner}
use remote_s3_bucket_plugin.Config.Settings.{
  Settings, Environment, SettingsError, validate, valid, invalid, second,
}
use remote_s3_bucket_plugin.Command.Args.{FlagSet, Parsed, parsed, rejected, permute, parse}
use remote_s3_bucket_plugin.Command.Options.{OptionError, apply_options}
use remote_s3_bucket_plugin.Command.Flags.{
  MountFlags, Readers, new_mount_flags, mount_flag_set, assign_all, explicit,
}
use remote_s3_bucket_plugin.Prelude.{
  ℕ, ◌*◌, Bool, true, false, not, ◌&&◌, ◌||◌, Option, none, some, List, [], ◌∷◌, ◌++◌,
  if◌then◌else◌, set, codes, ℤ, pos,
}

-- What the process asks of its surroundings.
pub record Machine : Type 1 where
  pub floats : Floats
  pub readers : Readers
  pub accounts : Accounts
  pub env : Environment
  pub absolute : Text → Option Text
  pub uid : ℕ
  pub gid : ℕ

infixl 5 ◌>>=◌
abbrev pub ◌>>=◌ : {A B : Type 0} → Option A → (A → Option B) → Option B
none >>= f = none
(some a) >>= f = f a

-- The number that a name or an id stands for, if there is one.
unfoldable pub owner_or : Accounts → Text → Bool → ℕ → Option ℕ
unfolding parse_owner
owner_or accounts name group id = if is_empty name then some id else parse_owner accounts name group

-- The static credentials, all or none.
unfoldable pub with_credentials : Environment → Settings → Settings
with_credentials env g =
    let key = env.get (codes "AWS_ACCESS_KEY_ID") in
    let secret = env.get (codes "AWS_SECRET_ACCESS_KEY") in
    if is_empty key || is_empty secret
    then record g { access_key = []; secret_key = []; session_token = [] }
    else (record g {
      access_key = key;
      secret_key = secret;
      session_token = env.get (codes "AWS_SESSION_TOKEN");
    })

-- The kernel may hold on to the entries of an exclusive mount.
unfoldable pub exclusive_ttl : Bool → Settings → Settings
exclusive_ttl chosen g =
    if g.exclusive && not chosen then record g { kernel_ttl = pos (60 * second) } else g

-- The values that were texts.
abbrev pub fill_in : ℤ → ℤ → ℤ → ℤ → ℤ → ℕ → ℕ → ℕ → ℕ → Settings → Settings
fill_in cache_size block_size readahead part_size multipart file_mode dir_mode uid gid g =
    record g {
      cache_size = cache_size;
      block_size = block_size;
      readahead = readahead;
      part_size = part_size;
      multipart_threshold = multipart;
      file_mode = file_mode;
      dir_mode = dir_mode;
      uid = uid;
      gid = gid;
    }

-- `chosen` is whether `kernel-ttl` was set.
unfoldable pub finish : Machine → Bool → MountFlags → Option Settings
unfolding parse_size parse_mode owner_or exclusive_ttl with_credentials
finish w chosen m = do
  cache_size ← parse_size w.floats m.cache_size
  block_size ← parse_size w.floats m.block_size
  readahead ← parse_size w.floats m.readahead
  part_size ← parse_size w.floats m.part_size
  multipart ← parse_size w.floats m.multipart
  file_mode ← parse_mode m.file_mode
  dir_mode ← parse_mode m.dir_mode
  uid ← owner_or w.accounts m.uid false m.cfg.uid
  gid ← owner_or w.accounts m.gid true m.cfg.gid
  some (
      with_credentials w.env (
        exclusive_ttl chosen (
          fill_in cache_size block_size readahead part_size multipart file_mode dir_mode uid gid
            m.cfg)))

pub data Fault : Type 0 where
  bad_source : SourceError → Fault
  bad_option_list : OptionError → Fault
  bad_settings : SettingsError → Fault
  bad_path bad_value : Fault

-- An exit with the usage text, an exit with an error, or a mount.
pub data Exit : Type 0 where
  usage : Exit
  fatal : Fault → Exit
  serve : Settings → Exit

abbrev pub target : Text → Text → Text → MountFlags → MountFlags
target bucket prefix mountpoint m = record m {
  cfg = record (m.cfg) { bucket = bucket; prefix = prefix; mountpoint = mountpoint };
}

-- From the flags, the options of the list included, to the settings.
unfoldable pub settle : Machine → Bool → MountFlags → Exit
unfolding finish validate
settle w chosen m = elim (finish w chosen m) [
  | none ↦ fatal bad_value
  | some g ↦ elim (validate w.env g) [
    | invalid err ↦ fatal (bad_settings err)
    | valid g' ↦ serve g'
  ]
]

-- The options of `-o`, after the flags `given` of the command line.
unfoldable pub with_options : Machine → List (Text × Text) → MountFlags → Exit
unfolding apply_options mount_flag_set assign_all explicit settle
with_options w given m =
    let (more, err) = apply_options (mount_flag_set w.readers) m.option_list in
    let settled : Exit = elim (assign_all w.readers more m) [
      | none ↦ fatal bad_value
      | some m' ↦ settle w (explicit (codes "kernel-ttl") (given ++ more)) m'
    ] in
    elim err [ some e ↦ fatal (bad_option_list e) | none ↦ settled ]

-- The source and the mountpoint that the positional words name.
unfoldable pub with_target : Machine → List (Text × Text) → Text → Text → MountFlags → Exit
unfolding parse_s3_url with_options
with_target w given spec dir m = elim (parse_s3_url spec) [
  | refused err ↦ fatal (bad_source err)
  | source bucket prefix ↦ elim (w.absolute dir) [
    | none ↦ fatal bad_path
    | some mountpoint ↦ with_options w given (target bucket prefix mountpoint m)
  ]
]

unfoldable pub with_words : Machine → List (Text × Text) → List Text → MountFlags → Exit
unfolding with_target
with_words w given [] m = usage
with_words w given (spec ∷ []) m = usage
with_words w given (spec ∷ dir ∷ rest) m = with_target w given spec dir m

abbrev pub after_assign : Machine → List (Text × Text) → List Text → Option MountFlags → Exit
after_assign w given rest none = usage
after_assign w given rest (some m) = with_words w given rest m

unfoldable pub after_parse : Machine → Parsed → Exit
unfolding assign_all new_mount_flags with_words
after_parse w (rejected err) = usage
after_parse w (parsed given rest) =
    after_assign w given rest (assign_all w.readers given (new_mount_flags w.env w.uid w.gid))

unfoldable pub run_mount : Machine → List Text → Exit
unfolding mount_flag_set permute parse after_parse
run_mount w args =
    let fs = mount_flag_set w.readers in after_parse w (parse fs none (permute fs args))

-- The loop of `runMountHelper`: the positional words, and the last list of options; `waiting` is
-- whether the next word is a list.
unfoldable pub helper_words : Bool → List Text → Text → List Text × Text
helper_words waiting [] opts = ([], opts)
helper_words true (list ∷ args) opts = helper_words false args list
helper_words false (arg ∷ args) opts =
    let listed = helper_words true args opts in
    let (words, last) = helper_words false args opts in
    if text_eq arg (codes "-o")
    then listed
    else if text_eq arg (codes "-s")
        || text_eq arg (codes "-f")
        || text_eq arg (codes "-n")
        || text_eq arg (codes "-v")
    then (words, last)
    else (arg ∷ words, last)

-- `none` is the usage text.
unfoldable pub forwarded : List Text × Text → Option (List Text)
forwarded ([], opts) = none
forwarded (spec ∷ [], opts) = none
forwarded (spec ∷ dir ∷ rest, opts) =
    some (spec ∷ dir ∷ (if is_empty opts then [] else codes "-o" ∷ opts ∷ []))

abbrev pub mount_words : Machine → Option (List Text) → Exit
mount_words w none = usage
mount_words w (some words) = run_mount w words

unfoldable pub run_mount_helper : Machine → List Text → Exit
unfolding helper_words forwarded run_mount
run_mount_helper w args = mount_words w (forwarded (helper_words false args []))

-- What `Stat` answers for a mountpoint.
pub data PathStat : Type 0 where
  directory other_file absent disconnected : PathStat
  stat_error : ℕ → PathStat

pub data MountpointError : Type 0 where
  stale_mount not_created not_a_directory already_mounted : MountpointError
  no_stat : ℕ → MountpointError

-- What the system answers to `checkMountpoint`; `again` is after a stale mount was cleared.
pub record MountpointIo : Type 0 where
  pub first : PathStat
  pub cleared : Bool
  pub again : PathStat
  pub created : Bool
  pub mounted : Option Bool

-- The checks of a `Stat`; `none` is success.
unfoldable pub check_stat : MountpointIo → PathStat → Option MountpointError
check_stat io absent = if io.created then none else some not_created
check_stat io disconnected = some (no_stat 107)
check_stat io (stat_error n) = some (no_stat n)
check_stat io other_file = some not_a_directory
check_stat io directory = elim io.mounted [
  | none ↦ none
  | some here ↦ if here then some already_mounted else none
]

-- A mount whose server died is cleared first.
unfoldable pub check_mountpoint : MountpointIo → Option MountpointError
unfolding check_stat
check_mountpoint io = elim io.first [
  | disconnected ↦ if io.cleared then check_stat io io.again else some stale_mount
  | absent ↦ check_stat io absent
  | directory ↦ check_stat io directory
  | other_file ↦ check_stat io other_file
  | stat_error n ↦ check_stat io (stat_error n)
]
