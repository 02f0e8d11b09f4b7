-- ===== src/Mounts.antt =====
-- internal/s3fs/mounted.go: `IsMounted` on the lines of /proc/self/mountinfo. internal/s3fs/mount.go:
-- the options that `Mount` gives to the FUSE library.
pub mod Escaped
pub mod Lines
use remote_s3_bucket_plugin.Table.{Text, text_eq, has_prefix}
use remote_s3_bucket_plugin.Config.Source.{space_width, is_empty, describe}
use remote_s3_bucket_plugin.Config.Settings.{Settings, max_read_ahead}
use remote_s3_bucket_plugin.Prelude.{
  ℕ, zero, suc, ◌-◌, Bool, false, not, ◌&&◌, ◌||◌, Option, none, some, List, [], ◌∷◌, ◌++◌, ltb,
  ◌==◌, if◌then◌else◌, codes, leb_ℤ, ℤ, pos,
}

-- The byte that the digits after a backslash stand for.
unfoldable pub escaped_byte : Text → Option ℕ
escaped_byte s =
    if has_prefix s (codes "040")
    then some 32
    else if has_prefix s (codes "011")
    then some 9
    else if has_prefix s (codes "012")
    then some 10
    else if has_prefix s (codes "134")
    then some 92
    else none

-- `skip` is how many digits of an escape are left.
unfoldable pub unescape_from : ℕ → Text → Text
unfolding escaped_byte
unescape_from skip [] = []
unescape_from (suc skip) (x ∷ s) = unescape_from skip s
unescape_from zero (x ∷ s) =
    let plain = x ∷ unescape_from 0 s in
    let digits = unescape_from 3 s in
    elim (if x == 92 then escaped_byte s else none) [ none ↦ plain | some b ↦ b ∷ digits ]

unfoldable pub unescape : Text → Text
unfolding unescape_from
unescape s = unescape_from 0 s

-- `strings.Fields`; `cur` is the field so far, and `skip` is how many bytes of a whitespace character
-- are left.
unfoldable pub fields_from : ℕ → Text → Text → List Text
unfolding space_width
fields_from skip cur [] = if is_empty cur then [] else cur ∷ []
fields_from (suc skip) cur (x ∷ s) = fields_from skip cur s
fields_from zero cur (x ∷ s) =
    let next = fields_from (space_width (x ∷ s) - 1) [] s in
    let more = fields_from 0 (cur ++ x ∷ []) s in
    if space_width (x ∷ s) == 0 then more else if is_empty cur then next else cur ∷ next

unfoldable pub fields : Text → List Text
unfolding fields_from
fields s = fields_from 0 [] s

-- The fifth field of a line, if it has one, is the mountpoint.
abbrev pub mountpoint_of : List Text → Option Text
mountpoint_of (_ ∷ _ ∷ _ ∷ _ ∷ mp ∷ _) = some mp
mountpoint_of _ = none

unfoldable pub names_path : Text → Option Text → Bool
unfolding unescape
names_path abs none = false
names_path abs (some mp) = text_eq (unescape mp) abs

unfoldable pub line_is : Text → Text → Bool
unfolding fields names_path
line_is abs line = names_path abs (mountpoint_of (fields line))

-- Whether a line of the table is for the path.
unfoldable pub is_mounted : Text → List Text → Bool
unfolding line_is
is_mounted abs [] = false
is_mounted abs (line ∷ lines) = let rest = is_mounted abs lines in line_is abs line || rest

-- What the FUSE library is told, but for the constants.
pub record KernelOptions : Type 0 where
  pub fs_name : Text
  pub entry_timeout : ℤ
  pub attr_timeout : ℤ
  pub negative_timeout : ℤ
  pub max_read_ahead : ℤ
  pub mount_options : List Text
  pub allow_other : Bool
  pub debug : Bool
  pub uid : ℕ
  pub gid : ℕ

abbrev pub lt_ℤ : ℤ → ℤ → Bool
lt_ℤ a b = not (leb_ℤ b a)

-- How long the kernel may hold on to an absent path.
unfoldable pub negative_ttl : Settings → ℤ
negative_ttl g =
    let bounded : ℤ =
      if lt_ℤ g.kernel_ttl g.negative_ttl && lt_ℤ (pos 0) g.kernel_ttl
      then g.kernel_ttl
      else g.negative_ttl in
    if g.exclusive then pos 0 else bounded

unfoldable pub kernel_options : Settings → KernelOptions
unfolding negative_ttl describe max_read_ahead
kernel_options g = record {
  fs_name = codes "s3disk#" ++ describe g.bucket g.prefix;
  entry_timeout = g.kernel_ttl;
  attr_timeout = g.kernel_ttl;
  negative_timeout = negative_ttl g;
  max_read_ahead =
      if ltb 0 (max_read_ahead g.readahead) then pos (max_read_ahead g.readahead) else g.readahead;
  mount_options = if g.read_only then codes "ro" ∷ [] else [];
  allow_other = g.allow_other;
  debug = g.fuse_debug;
  uid = g.uid;
  gid = g.gid;
}
