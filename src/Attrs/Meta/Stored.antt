-- ===== src/Attrs/Meta/Stored.antt =====
-- Attributes come back from the metadata that `metaFor` writes.
use remote_s3_bucket_plugin.Table.{Text, text_eq, lookup}
use remote_s3_bucket_plugin.Decimal.{
  format_uint, parse_from, parse_uint, parse_int, parse_uint-format_uint, parse_int-format_uint,
}
use remote_s3_bucket_plugin.Config.{Config}
use remote_s3_bucket_plugin.Attrs.{Attr}
use remote_s3_bucket_plugin.Attrs.Meta.{
  Object, meta_for, second, file_type, attr_from_object, cut_dot, parse_seconds, parse_time,
  number_or, mode_or, says_dir, time_or, time_or_else,
}
use remote_s3_bucket_plugin.Prelude.{
  ℕ, ◌+◌, ◌-◌, ◌*◌, ◌/◌, ◌^◌, ◌<◌, bit_or, ◌≡◌, refl, inl, inr, true, false, none, some, [], ◌∷◌,
  arith, ◌==◌, if◌then◌else◌, Bool-cases, Option-cases, pos,
}

-- A time of whole seconds after 1970 that `ParseInt` can read back.
abbrev pub WholeSeconds : ℕ → Type 0
WholeSeconds t = (s : ℕ) × (0 < s) × (s < 2 ^ 63) × (t ≡ s * second)

-- The attributes that the metadata can say: numbers of 32 bits, a file type, the size that every
-- directory has, and times of whole seconds.
pub record Storable (a : Attr) : Type 0 where
  pub mode_fits : a.mode < 2 ^ 32
  pub typed : (file_type a.mode == 0) ≡ false
  pub dir_size : (file_type a.mode == 16384) ≡ true → a.size ≡ 4096
  pub uid_fits : a.uid < 2 ^ 32
  pub gid_fits : a.gid < 2 ^ 32
  pub mtime_whole : WholeSeconds a.mtime
  pub atime_whole : WholeSeconds a.atime
  pub ctime_whole : WholeSeconds a.ctime

no_dot : (t : Text) (acc n : ℕ) → parse_from acc t ≡ some n → cut_dot t ≡ none
unfolding parse_from cut_dot
no_dot [] acc n h = refl
no_dot (x ∷ xs) acc n h = ground (arith, no_dot xs (acc * 10 + (x - 48)) n)

not_empty : (bits n : ℕ) (t : Text) → parse_uint bits t ≡ some n → text_eq t [] ≡ false
unfolding parse_uint text_eq
not_empty bits n [] h = cc
not_empty bits n (x ∷ xs) h = refl

digits : (bits n : ℕ) (t : Text) → parse_uint bits t ≡ some n → (m : ℕ) × (parse_from 0 t ≡ some m)
unfolding parse_uint
digits bits n [] h = cc
digits bits n (x ∷ xs) h = elim (Option-cases (parse_from 0 (x ∷ xs))) [
  | inl e ↦ let bad : parse_uint bits (x ∷ xs) ≡ none = rw (parse_uint, e) in cc
  | inr (m, e) ↦ (m, e)
]

positive : (s : ℕ) → 0 < s → (s == 0) ≡ false
positive s h = ground arith

parse_time-format_uint :
    (s : ℕ) → 0 < s → s < 2 ^ 63 → parse_time (format_uint s) ≡ some (s * second)
unfolding parse_time parse_seconds
parse_time-format_uint s some_s fits =
    let u : parse_uint 63 (format_uint s) ≡ some s = parse_uint-format_uint 63 s fits in
    let i : parse_int 64 (format_uint s) ≡ some (pos s) = parse_int-format_uint 64 s fits in
    let d : (m : ℕ) × (parse_from 0 (format_uint s) ≡ some m) = digits 63 s (format_uint s) u in
    rw (
      parse_time,
      not_empty 63 s (format_uint s) u,
      no_dot (format_uint s) 0 d.0 d.1,
      parse_seconds,
      i,
      positive s some_s,
    )

divided : (s : ℕ) → s * second / second ≡ s
divided s = omega arith

time_or-format_uint : (d t : ℕ) (w : WholeSeconds t) → time_or d (format_uint (t / second)) ≡ t
unfolding time_or
time_or-format_uint d t (s, some_s, fits, e) =
    rw (e, divided s, time_or, parse_time-format_uint s some_s fits)

number_or-format_uint : (d n : ℕ) → n < 2 ^ 32 → number_or d (some (format_uint n)) ≡ n
unfolding number_or
number_or-format_uint d n fits = rw (number_or, parse_uint-format_uint 32 n fits)

mode_or-format_uint :
    (d n : ℕ) → n < 2 ^ 32 → (file_type n == 0) ≡ false → mode_or d (some (format_uint n)) ≡ n
unfolding mode_or
mode_or-format_uint d n fits typed = rw (mode_or, parse_uint-format_uint 32 n fits, typed)

says_dir-format_uint :
    (n : ℕ) → n < 2 ^ 32 → says_dir (some (format_uint n)) ≡ (file_type n == 16384)
unfolding says_dir
says_dir-format_uint n fits = rw (says_dir, parse_uint-format_uint 32 n fits)

not_zero : (t d : ℕ) → WholeSeconds t → time_or_else t d ≡ t
not_zero t d (s, some_s, fits, e) = rw (positive t (omega arith))

same_size : (a : Attr) → Storable a → (if file_type a.mode == 16384 then 4096 else a.size) ≡ a.size
same_size a v = elim (Bool-cases (file_type a.mode == 16384)) [
  | inl e ↦ rw (e, v.dir_size e)
  | inr e ↦ rw e
]

-- `attrFromObject` reads the attributes back from the metadata of `metaFor`, on an object of the
-- file's size and whatever the defaults of the mount are, but for the ETag, which is the object's,
-- and the target of a link.
pub attr_from_object-meta_for :
    (g : Config) (o : Object) (a : Attr)
    → Storable a
    → o.size ≡ a.size
    → o.meta ≡ meta_for a
    → attr_from_object g o false ≡ record a { etag = o.etag; symlink = [] }
unfolding attr_from_object meta_for lookup text_eq
attr_from_object-meta_for g o a v size meta = rw (
  meta,
  size,
  mode_or-format_uint (bit_or 32768 g.file_mode) a.mode v.mode_fits v.typed,
  says_dir-format_uint a.mode v.mode_fits,
  number_or-format_uint g.uid a.uid v.uid_fits,
  number_or-format_uint g.gid a.gid v.gid_fits,
  time_or-format_uint o.modified a.mtime v.mtime_whole,
  time_or-format_uint 0 a.atime v.atime_whole,
  time_or-format_uint 0 a.ctime v.ctime_whole,
  not_zero a.atime a.mtime v.atime_whole,
  not_zero a.ctime a.mtime v.ctime_whole,
  same_size a v,
)
