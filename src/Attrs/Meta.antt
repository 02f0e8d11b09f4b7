-- ===== src/Attrs/Meta.antt =====
-- internal/s3fs/attr.go, the POSIX attributes in the user metadata of objects: `attrFromObject`,
-- `metaFor`, `parseTime`, `IsDir`, `IsLink` and `Fill`. Times count nanoseconds from 1970 on, and 0
-- stands also for the zero `time.Time` and for what lies before 1970.
pub mod Stored
use remote_s3_bucket_plugin.Table.{Text, text_eq, lookup}
use remote_s3_bucket_plugin.Decimal.{format_uint, parse_uint, parse_int}
use remote_s3_bucket_plugin.Config.{Config}
use remote_s3_bucket_plugin.Attrs.{Attr}
use remote_s3_bucket_plugin.Prelude.{
  ℕ, zero, ◌+◌, ◌-◌, ◌*◌, ◌/◌, ◌%◌, bit_and, bit_or, Bool, false, ◌||◌, Option, none, some, List,
  [], ◌∷◌, map, ◌==◌, if◌then◌else◌, pos_part, neg_part, ℤ, pos,
}

-- User metadata: a map of texts.
abbrev pub Meta : Type 0
Meta = List (Text × Text)

-- The object that a HEAD describes.
pub record Object : Type 0 where
  pub key : Text
  pub size : ℕ
  pub etag : Text
  pub modified : ℕ
  pub meta : Meta

-- `S_IFMT`, `S_IFREG`, `S_IFDIR` and `S_IFLNK`.
abbrev pub fmt_bits : ℕ
fmt_bits = 61440

abbrev pub reg_bits : ℕ
reg_bits = 32768

abbrev pub dir_bits : ℕ
dir_bits = 16384

abbrev pub lnk_bits : ℕ
lnk_bits = 40960

-- 07777.
abbrev pub perm_bits : ℕ
perm_bits = 4095

abbrev pub file_type : ℕ → ℕ
file_type mode = bit_and mode fmt_bits

unfoldable pub is_dir : Attr → Bool
is_dir a = file_type a.mode == dir_bits

unfoldable pub is_link : Attr → Bool
is_link a = file_type a.mode == lnk_bits

-- The keys of the metadata.
abbrev pub mode_key : Text
mode_key = 109 ∷ 111 ∷ 100 ∷ 101 ∷ []

abbrev pub uid_key : Text
uid_key = 117 ∷ 105 ∷ 100 ∷ []

abbrev pub gid_key : Text
gid_key = 103 ∷ 105 ∷ 100 ∷ []

abbrev pub mtime_key : Text
mtime_key = 109 ∷ 116 ∷ 105 ∷ 109 ∷ 101 ∷ []

abbrev pub atime_key : Text
atime_key = 97 ∷ 116 ∷ 105 ∷ 109 ∷ 101 ∷ []

abbrev pub ctime_key : Text
ctime_key = 99 ∷ 116 ∷ 105 ∷ 109 ∷ 101 ∷ []

abbrev pub second : ℕ
second = 1000000000

unfoldable pub meta_for : Attr → Meta
meta_for a =
    (mode_key, format_uint a.mode)
    ∷ (uid_key, format_uint a.uid)
    ∷ (gid_key, format_uint a.gid)
    ∷ (mtime_key, format_uint (a.mtime / second))
    ∷ (atime_key, format_uint (a.atime / second))
    ∷ (ctime_key, format_uint (a.ctime / second))
    ∷ []

-- The text before the first full stop and what follows it.
unfoldable pub cut_dot : Text → Option (Text × Text)
cut_dot [] = none
cut_dot (x ∷ xs) =
    let rest = cut_dot xs in
    if x == 46 then some ([], xs) else elim rest [ none ↦ none | some (a, b) ↦ some (x ∷ a, b) ]

-- `strings.TrimRight(s, "0")`.
unfoldable pub trim_zeros : Text → Text
trim_zeros [] = []
trim_zeros (x ∷ xs) =
    let rest = trim_zeros xs in
    elim rest [ [] ↦ if x == 48 then [] else x ∷ [] | y ∷ ys ↦ x ∷ y ∷ ys ]

abbrev pub int_or_zero : Option ℤ → ℤ
int_or_zero none = pos 0
int_or_zero (some i) = i

-- Whole seconds.
unfoldable pub parse_seconds : Text → Option ℕ
parse_seconds s = elim (parse_int 64 s) [
  | none ↦ none
  | some i ↦ if pos_part i == 0 then none else some (pos_part i * second)
]

unfoldable pub parse_time : Text → Option ℕ
unfolding cut_dot trim_zeros parse_seconds
parse_time s =
    let whole = parse_seconds s in
    if text_eq s [] then none else elim (cut_dot s) [
      | none ↦ whole
      | some (a, b) ↦ elim (parse_int 64 a) [
        | none ↦ whole
        | some sec ↦
            let nsec = int_or_zero (parse_int 64 (trim_zeros b)) in
            some (pos_part sec * second + pos_part nsec - (neg_part sec * second + neg_part nsec))
      ]
    ]

-- `m[k]`, the empty text for a missing key.
abbrev pub value_of : Text → Meta → Text
value_of k m = elim (lookup k m) [ none ↦ [] | some v ↦ v ]

-- A number that is there and can be read, or what was there before.
unfoldable pub number_or : ℕ → Option Text → ℕ
number_or d none = d
number_or d (some v) = elim (parse_uint 32 v) [ none ↦ d | some n ↦ n ]

unfoldable pub time_or : ℕ → Text → ℕ
time_or d v = elim (parse_time v) [ none ↦ d | some t ↦ t ]

-- The metadata's mode: with file type bits it is the whole word, else it only has permissions.
unfoldable pub mode_or : ℕ → Option Text → ℕ
mode_or d none = d
mode_or d (some v) = elim (parse_uint 32 v) [
  | none ↦ d
  | some n ↦ if file_type n == 0 then bit_or (file_type d) (bit_and n perm_bits) else n
]

-- Whether the metadata's mode says, with its file type bits, that this is a directory.
unfoldable pub says_dir : Option Text → Bool
says_dir none = false
says_dir (some v) = elim (parse_uint 32 v) [ none ↦ false | some n ↦ file_type n == dir_bits ]

abbrev pub time_or_else : ℕ → ℕ → ℕ
time_or_else t d = if t == 0 then d else t

unfoldable pub attr_from_object : Config → Object → Bool → Attr
unfolding number_or time_or mode_or says_dir
attr_from_object g o dir =
    let m = o.meta in
    let mtime = time_or o.modified (value_of mtime_key m) in
    record {
      mode =
          mode_or (if dir then bit_or dir_bits g.dir_mode else bit_or reg_bits g.file_mode)
            (lookup mode_key m);
      size = if dir || says_dir (lookup mode_key m) then 4096 else o.size;
      uid = number_or g.uid (lookup uid_key m);
      gid = number_or g.gid (lookup gid_key m);
      mtime = mtime;
      atime = time_or_else (time_or 0 (value_of atime_key m)) mtime;
      ctime = time_or_else (time_or 0 (value_of ctime_key m)) mtime;
      etag = o.etag;
      symlink = [];
    }

-- A `fuse.Attr`, as `Fill` leaves it; times in seconds and nanoseconds.
pub record Stat : Type 0 where
  pub mode : ℕ
  pub size : ℕ
  pub blocks : ℕ
  pub uid : ℕ
  pub gid : ℕ
  pub nlink : ℕ
  pub blksize : ℕ
  pub mtime : ℕ × ℕ
  pub atime : ℕ × ℕ
  pub ctime : ℕ × ℕ

abbrev pub set_time : ℕ → ℕ × ℕ
set_time t = (t / second, t % second)

unfoldable pub fill : Attr → Stat
unfolding is_dir
fill a = record {
  mode = a.mode;
  size = a.size;
  blocks = (a.size + 511) / 512;
  uid = a.uid;
  gid = a.gid;
  nlink = if is_dir a then 2 else 1;
  blksize = 4096;
  mtime = set_time a.mtime;
  atime = set_time a.atime;
  ctime = set_time a.ctime;
}
