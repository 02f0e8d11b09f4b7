-- ===== src/Fs.antt =====
-- internal/s3fs/fs.go: the state that the nodes of one mount share, the names that are only local, and
-- the errors. An operation takes the settings and the answers of its surroundings, and gives a result
-- and the new state. What the bucket answers may depend on the requests that it took before.
pub mod Stat
pub mod Upload
pub mod Listing
pub mod Rename
pub mod Quiet
use remote_s3_bucket_plugin.Table.{Text, text_eq, in_subtree, lookup, keep, erase, store}
use remote_s3_bucket_plugin.Attrs
use remote_s3_bucket_plugin.Attrs.{AttrCache, Attr}
use remote_s3_bucket_plugin.Attrs.Meta.{Meta, reg_bits, dir_bits}
use remote_s3_bucket_plugin.Dirs
use remote_s3_bucket_plugin.Dirs.{DirCache, DirEntry}
use remote_s3_bucket_plugin.Entry.{
  Error, eof, negative_size, short_read, not_found, cancelled, timed_out, os_error, s3_error,
  Fetched, Uploaded, Outcome, done, failed, Entry,
}
use remote_s3_bucket_plugin.Entry
use remote_s3_bucket_plugin.Entry.Access.{Wrote}
use remote_s3_bucket_plugin.Cache.{Cache, on_entry}
use remote_s3_bucket_plugin.Cache.Writeback.{Answers}
use remote_s3_bucket_plugin.Config.{Config}
use remote_s3_bucket_plugin.Objects.{HeadOutput, Pages, CopyAnswers}
use remote_s3_bucket_plugin.Prelude.{
  ℕ, bit_or, Bool, true, false, not, Option, none, some, List, [], ◌∷◌, if◌then◌else◌,
}

-- The requests that change the bucket, where it answered without an error: the metadata of a copy
-- is `none` if it is that of the source.
pub data Request : Type 0 where
  put_request : Text → List ℕ → Meta → Request
  copy_request : Text → Text → Option Meta → Request
  delete_request : Text → Request
  delete_all_request : List Text → Request

-- What the bucket answers after these requests, the latest first.
pub record Bucket : Type 0 where
  pub on_head : List Request → Text → Outcome HeadOutput
  pub on_list : List Request → Text → Pages
  pub on_list_all : List Request → Text → Pages
  pub on_get : List Request → Text → ℕ → ℕ → Fetched
  pub on_get_all : List Request → Text → Outcome (List ℕ)
  pub on_put : List Request → Text → List ℕ → Meta → Uploaded
  pub on_copy : List Request → Text → Text → CopyAnswers
  pub on_delete : List Request → Text → Option Error
  pub on_delete_all : List Request → List Text → Option Error

-- What the operating system answers to the calls of the cache.
pub record Os : Type 0 where
  pub path_for : Text → Text
  pub open_file : Option Error
  pub truncate_file : Option Error
  pub read_file : Option Error
  pub write_file : Wrote
  pub flush_file : Answers
  pub rename_file : Text → Option Error

-- The surroundings of an operation: the clock, which stands still during it, the caller if the
-- kernel names one, and the order in which Go visits the keys of the two caches and the names that
-- are pending.
pub record World : Type 0 where
  pub now : ℕ
  pub caller : Option (ℕ × ℕ)
  pub attr_order : List Text
  pub dir_order : List Text
  pub bucket : Bucket
  pub os : Os

-- `started` is the time of the mount.
pub record Fs : Type 0 where
  pub attrs : AttrCache
  pub dirs : DirCache
  pub cache : Cache
  pub pending : List (Text × List Text)
  pub started : ℕ
  pub ops : ℕ
  pub requests : List Request

abbrev pub M : Type 0 → Type 0
M A = Fs → Outcome A × Fs

abbrev pub resume : {A B : Type 0} → (A → M B) → Outcome A → M B
resume f (done a) s = f a s
resume f (failed err) s = (failed err, s)

infixl 5 ◌>>=◌ ◌>>◌
abbrev pub ◌>>=◌ : {A B : Type 0} → M A → (A → M B) → M B
◌>>=◌ m f s = let (r, s') = m s in resume f r s'

abbrev pub ◌>>◌ : {A B : Type 0} → M A → M B → M B
m >> k = m >>= λ _. k

abbrev pub return : {A : Type 0} → A → M A
return a s = (done a, s)

abbrev pub fail : {A : Type 0} → Error → M A
fail err s = (failed err, s)

abbrev pub modify : (Fs → Fs) → M (Unit {0})
modify f s = (done tt, f s)

abbrev pub on_attrs : (AttrCache → AttrCache) → Fs → Fs
on_attrs f s = record s { attrs = f s.attrs }

abbrev pub on_dirs : (DirCache → DirCache) → Fs → Fs
on_dirs f s = record s { dirs = f s.dirs }

abbrev pub on_cache : (Cache → Cache) → Fs → Fs
on_cache f s = record s { cache = f s.cache }

abbrev pub in_cache : {A : Type 0} → (Cache → Outcome A × Cache) → M A
in_cache f s = let (r, c) = f s.cache in (r, record s { cache = c })

abbrev pub note_request : Request → Fs → Fs
note_request r s = record s { requests = r ∷ s.requests }

-- A request that changes the bucket.
abbrev pub send : Request → Option Error → M (Unit {0})
send r (some err) s = (failed err, s)
send r none s = (done tt, note_request r s)

-- The numbers of errors.
abbrev pub enoent : ℕ
enoent = 2

abbrev pub eintr : ℕ
eintr = 4

abbrev pub eio : ℕ
eio = 5

abbrev pub ebadf : ℕ
ebadf = 9

abbrev pub eexist : ℕ
eexist = 17

abbrev pub exdev : ℕ
exdev = 18

abbrev pub enotdir : ℕ
enotdir = 20

abbrev pub eisdir : ℕ
eisdir = 21

abbrev pub einval : ℕ
einval = 22

abbrev pub erofs : ℕ
erofs = 30

abbrev pub enotempty : ℕ
enotempty = 39

abbrev pub enotsup : ℕ
enotsup = 95

abbrev pub etimedout : ℕ
etimedout = 110

unfoldable pub to_errno : Error → ℕ
to_errno not_found = enoent
to_errno (os_error n) = n
to_errno cancelled = eintr
to_errno timed_out = etimedout
to_errno eof = eio
to_errno negative_size = eio
to_errno short_read = eio
to_errno (s3_error n) = eio

-- `readOnly`, and the return that follows it in an operation that changes something.
unfoldable pub writable : {A : Type 0} → Config → M A → M A
writable g m s = if g.read_only then (failed (os_error erofs), s) else m s

-- The names that are only local, by directory.
unfoldable pub names_in : Text → List (Text × List Text) → List Text
names_in dir t = elim (lookup dir t) [ none ↦ [] | some names ↦ names ]

unfoldable pub drop_name : Text → List Text → List Text
drop_name name [] = []
drop_name name (x ∷ xs) = let rest = drop_name name xs in if text_eq x name then rest else x ∷ rest

unfoldable pub mark_pending : Text → Text → Fs → Fs
unfolding names_in drop_name
mark_pending dir name s = record s {
  pending = store dir (name ∷ drop_name name (names_in dir s.pending)) s.pending;
}

unfoldable pub clear_pending : Text → Text → Fs → Fs
unfolding names_in drop_name
clear_pending dir name s =
    let rest = drop_name name (names_in dir s.pending) in
    record s {
      pending = elim rest [ [] ↦ erase dir s.pending | x ∷ xs ↦ store dir (x ∷ xs) s.pending ];
    }

abbrev pub pending_in : Text → Fs → List Text
pending_in dir s = names_in dir s.pending

unfoldable pub clear_pending_prefix : Text → Fs → Fs
clear_pending_prefix prefix s = record s {
  pending = keep (λ dir names. not (in_subtree prefix dir)) s.pending;
}

-- The attributes of a directory without a marker object.
unfoldable pub dir_attr : Config → Fs → Attr
dir_attr g s = record {
  mode = bit_or dir_bits g.dir_mode;
  size = 4096;
  uid = g.uid;
  gid = g.gid;
  mtime = s.started;
  atime = s.started;
  ctime = s.started;
  etag = [];
  symlink = [];
}

-- Those of a file that has no metadata.
unfoldable pub file_attr : Config → ℕ → ℕ → Text → Attr
file_attr g size mtime etag = record {
  mode = bit_or reg_bits g.file_mode;
  size = size;
  uid = g.uid;
  gid = g.gid;
  mtime = mtime;
  atime = mtime;
  ctime = mtime;
  etag = etag;
  symlink = [];
}

-- The attribute cache at this time.
abbrev pub put_attr : World → Text → Attr → Fs → Fs
put_attr w p a s = on_attrs (Attrs.put w.now w.attr_order p a) s

abbrev pub put_sticky : World → Text → Attr → Fs → Fs
put_sticky w p a s = on_attrs (Attrs.put_sticky w.now w.attr_order p a) s

abbrev pub put_negative : World → Text → Fs → Fs
put_negative w p s = on_attrs (Attrs.put_negative w.now w.attr_order p) s

abbrev pub get_attr : World → Text → Fs → Option (Option Attr × Bool) × Fs
get_attr w p s = let (r, c) = Attrs.get w.now p s.attrs in (r, record s { attrs = c })

-- What is known of a path that is not known to be absent.
abbrev pub present_attr : Option (Option Attr × Bool) → Option Attr
present_attr none = none
present_attr (some (a, true)) = none
present_attr (some (a, false)) = a

unfoldable pub refresh : Fs → Fs
refresh s = on_dirs Dirs.clear (on_attrs Attrs.refresh s)
