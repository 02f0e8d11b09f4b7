-- ===== src/Node.antt =====
-- internal/s3fs/node.go and internal/s3fs/file.go: what the kernel asks of the nodes of the tree. A
-- node is its path, and the tree of inodes, which the FUSE library keeps, is left out. An operation
-- answers with a value or the number of an error.
pub mod Attributes
pub mod Files
pub mod Names
pub mod Steps
pub mod Created
pub mod Unlinked
pub mod Emptied
use remote_s3_bucket_plugin.Table.{Text}
use remote_s3_bucket_plugin.Attrs.{Attr}
use remote_s3_bucket_plugin.Entry.{Error, Outcome, done, failed}
use remote_s3_bucket_plugin.Config.{Config}
use remote_s3_bucket_plugin.Fs.{World, Fs, M, to_errno}
use remote_s3_bucket_plugin.Prelude.{ℕ, ◌+◌, ◌||◌, Option, none, some, [], leb, ◌==◌, if◌then◌else◌}

pub data Reply {ℓ} (A : Type ℓ) : Type ℓ where
  ok : A → Reply A
  errno : ℕ → Reply A

unfoldable pub reply : {A : Type 0} → Outcome A → Reply A
reply (done a) = ok a
reply (failed err) = errno (to_errno err)

abbrev pub Op : Type 0 → Type 0
Op A = Fs → Reply A × Fs

-- `n.count()`.
abbrev pub count_op : Fs → Fs
count_op s = record s { ops = s.ops + 1 }

abbrev pub uncounted : {A : Type 0} → M A → Op A
uncounted m s = let (r, s') = m s in (reply r, s')

abbrev pub counted : {A : Type 0} → M A → Op A
counted m s = uncounted m (count_op s)

-- An open file; `entry` is the number of its entry in the cache.
pub record FileHandle : Type 0 where
  pub entry : ℕ
  pub path : Text
  pub key : Text
  pub flags : ℕ
  pub next_off : ℕ
  pub seq : ℕ

-- Also the range to be read ahead, if the reads are sequential.
unfoldable pub note_read : ℕ → ℕ → ℕ → FileHandle → FileHandle × Option (ℕ × ℕ)
note_read off n readahead h =
    let seq = if off == h.next_off then h.seq + 1 else 0 in
    let h' = record h { seq = seq; next_off = off + n } in
    if readahead == 0 || n == 0
    then (h, none)
    else (h', if leb 2 seq then some (off + n, readahead) else none)

unfoldable pub caller_owner : Config → World → ℕ × ℕ
caller_owner g w = elim w.caller [ some c ↦ c | none ↦ (g.uid, g.gid) ]

-- The attributes of what the caller creates now.
abbrev pub new_attr : Config → World → ℕ → ℕ → Text → Attr
new_attr g w mode size symlink = record {
  mode = mode;
  size = size;
  uid = (caller_owner g w).0;
  gid = (caller_owner g w).1;
  mtime = w.now;
  atime = w.now;
  ctime = w.now;
  etag = [];
  symlink = symlink;
}

-- `FOPEN_KEEP_CACHE`, or nothing.
unfoldable pub open_flags : Config → ℕ
open_flags g = if g.kernel_ttl == 0 then 0 else 2
