-- ===== src/Node/Attributes.antt =====
-- `Getattr`, `Setattr` and `Statfs` of internal/s3fs/node.go.
use remote_s3_bucket_plugin.Table.{Text}
use remote_s3_bucket_plugin.Paths.{key}
use remote_s3_bucket_plugin.Attrs.{Attr}
use remote_s3_bucket_plugin.Attrs.Meta.{is_dir, file_type, perm_bits, Stat, fill}
use remote_s3_bucket_plugin.Entry.Access.{truncate}
use remote_s3_bucket_plugin.Cache.{on_entry, open_entry, unref_entry}
use remote_s3_bucket_plugin.Config.{Config}
use remote_s3_bucket_plugin.Fs.{
  World, Fs, M, ◌>>=◌, ◌>>◌, return, modify, writable, put_sticky, on_cache, in_cache,
}
use remote_s3_bucket_plugin.Fs.Stat.{stat}
use remote_s3_bucket_plugin.Fs.Upload.{options, flush}
use remote_s3_bucket_plugin.Fs.Rename.{persist_metadata}
use remote_s3_bucket_plugin.Entry.{done}
use remote_s3_bucket_plugin.Node.{ok, Op, counted, FileHandle}
use remote_s3_bucket_plugin.Prelude.{
  ℕ, ◌+◌, ◌-◌, ◌/◌, ◌%◌, ◌^◌, bit_and, bit_or, Bool, true, false, ◌||◌, Option, none, some, ◌==◌,
  if◌then◌else◌, ℤ, pos, negsuc,
}

-- An open handle knows the length and the time of the last change.
unfoldable pub local_attr : ℕ → Attr → Fs → Attr
local_attr id a s =
    let e = s.cache.store id in
    record a { size = e.size; mtime = if e.mtime == 0 then a.mtime else e.mtime }

unfoldable pub get_attr : Config → World → Text → Option FileHandle → Op Stat
unfolding local_attr
get_attr g w p none = counted (stat g w p >>= λ a. return (fill a))
get_attr g w p (some h) =
    counted (stat g w h.path >>= λ a s. (done (fill (local_attr h.entry a s)), s))

-- What the kernel asks to set.
pub record SetAttrIn : Type 0 where
  pub size : Option ℕ
  pub mode : Option ℕ
  pub uid : Option ℕ
  pub gid : Option ℕ
  pub mtime : Option ℕ
  pub atime : Option ℕ

abbrev pub given : Option ℕ → Bool
given none = false
given (some n) = true

abbrev pub or_else : ℕ → Option ℕ → ℕ
or_else d none = d
or_else d (some n) = n

-- chmod, chown and utimens.
unfoldable pub set_fields : SetAttrIn → Attr → Attr
set_fields i a = record a {
  mode = elim i.mode [ none ↦ a.mode | some m ↦ bit_or (file_type a.mode) (bit_and m perm_bits) ];
  uid = or_else a.uid i.uid;
  gid = or_else a.gid i.gid;
  mtime = or_else a.mtime i.mtime;
  atime = or_else a.atime i.atime;
}

-- The part of `Setattr` after a change of the size; `next` are the attributes after that.
unfoldable pub finish_set : Config → World → Text → SetAttrIn → Bool → Attr → Attr → M Stat
unfolding set_fields
finish_set g w p i resized a next s =
    let touched =
      resized || given i.mode || given i.uid || given i.gid || given i.mtime || given i.atime in
    let last = record (set_fields i next) { ctime = w.now } in
    let go = (persist_metadata g w p last >> return (fill last)) (put_sticky w p last s) in
    if touched then go else (done (fill a), s)

-- `entry.Truncate`, and what is known of the file after it.
unfoldable pub resize : Config → World → Text → Attr → ℕ → ℕ → M Attr
resize g w p a size id s =
    let next = record a { size = size; mtime = w.now } in
    (in_cache (on_entry id (truncate (options g w s) w.os.truncate_file w.now (pos size)))
        >> (modify (put_sticky w p next) >> return next))
      s

-- A deferred `Unref`.
unfoldable pub and_unref : {A : Type 0} → ℕ → M A → M A
and_unref id m s = let (r, s') = m s in (r, on_cache (unref_entry id) s')

-- `cache.Open` of the file with these attributes.
unfoldable pub open_file : Config → World → Text → Attr → M ℕ
open_file g w p a = in_cache (
    open_entry g.block_size w.os.path_for w.os.open_file w.now (key g.prefix p) a.size a.etag
      a.mtime)

unfoldable pub set_size : Config → World → Text → Option FileHandle → SetAttrIn → Attr → ℕ → M Stat
unfolding resize and_unref open_file finish_set
set_size g w p (some h) i a size = resize g w p a size h.entry >>= finish_set g w p i true a
set_size g w p none i a size = open_file g w p a >>= λ id.
    and_unref id (resize g w p a size id >>= λ next. flush g w id >> finish_set g w p i true a next)

unfoldable pub set_attr : Config → World → Text → Option FileHandle → SetAttrIn → Op Stat
unfolding set_size
set_attr g w node fh i =
    let p : Text = elim fh [ none ↦ node | some h ↦ h.path ] in
    counted (
      writable g (
        stat g w p >>= λ a. elim i.size [
          | none ↦ finish_set g w p i false a a
          | some size ↦
              if is_dir a then finish_set g w p i false a a else set_size g w p fh i a size
        ]))

pub record StatfsOut : Type 0 where
  pub blocks : ℕ
  pub bfree : ℕ
  pub bavail : ℕ
  pub files : ℕ
  pub ffree : ℕ
  pub bsize : ℕ
  pub frsize : ℕ
  pub name_len : ℕ

-- `uint64` of the total of the cache.
abbrev pub as_uint64 : ℤ → ℕ
as_uint64 (pos n) = n % 2 ^ 64
as_uint64 (negsuc n) = 2 ^ 64 - 1 - n % 2 ^ 64

unfoldable pub statfs : Op StatfsOut
statfs s =
    let blocks = 2 ^ 48 / 4096 in
    let used = as_uint64 s.cache.counters.bytes / 4096 in
    let free = (blocks + 2 ^ 64 - used) % 2 ^ 64 in
    (
      ok (record {
        blocks = blocks;
        bfree = free;
        bavail = free;
        files = 2 ^ 30;
        ffree = 2 ^ 30;
        bsize = 4096;
        frsize = 4096;
        name_len = 1024;
      }),
      s,
    )
