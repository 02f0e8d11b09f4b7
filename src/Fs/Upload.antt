-- ===== src/Fs/Upload.antt =====
-- `uploadObject` and `onUploaded` of internal/s3fs/fs.go, the hooks of the cache, and the flush of an
-- entry with them. `contentTypeFor` is left out, and so is that `uploadObject` drops an attribute that
-- has expired, where the bucket then refuses the upload.
use remote_s3_bucket_plugin.OsFile.{slice}
use remote_s3_bucket_plugin.Table.{Text}
use remote_s3_bucket_plugin.Paths.{path_of, last_index, parent_of, base_of}
use remote_s3_bucket_plugin.Attrs
use remote_s3_bucket_plugin.Attrs.{Attr}
use remote_s3_bucket_plugin.Attrs.Meta.{Meta, meta_for, reg_bits}
use remote_s3_bucket_plugin.Dirs
use remote_s3_bucket_plugin.Entry.{Options, done}
use remote_s3_bucket_plugin.Entry.Upload.{Report}
use remote_s3_bucket_plugin.Cache.Writeback.{flush_entry}
use remote_s3_bucket_plugin.Config.{Config}
use remote_s3_bucket_plugin.Fs.{
  put_request, World, Fs, M, ◌>>=◌, clear_pending, file_attr, get_attr, present_attr, on_attrs,
  on_dirs, in_cache, note_request,
}
use remote_s3_bucket_plugin.Prelude.{ℕ, Option, none, some, [], ◌∷◌, ◌==◌, if◌then◌else◌}

abbrev pub pick : ℕ → ℕ → ℕ
pick t fallback = if t == 0 then fallback else t

-- The metadata that an upload carries.
unfoldable pub upload_meta : Config → World → Text → Fs → Meta
upload_meta g w k s =
    let a : Attr = elim (present_attr (get_attr w (path_of g.prefix k) s).0) [
      | none ↦ file_attr g 0 w.now []
      | some a ↦ a
    ] in
    meta_for (record a {
      mtime = pick a.mtime w.now;
      atime = pick a.atime w.now;
      ctime = pick a.ctime w.now;
    })

-- The options of the cache, `fetchRange` and `uploadObject` among them.
unfoldable pub options : Config → World → Fs → Options
unfolding upload_meta
options g w s = record {
  block_size = g.block_size;
  max_bytes = g.cache_size;
  readahead = g.readahead;
  read_only = g.read_only;
  fetch = λ k off n. w.bucket.on_get s.requests k off n;
  upload = λ k body size. w.bucket.on_put s.requests k body (upload_meta g w k s);
}

-- `path.Dir` and `path.Base` of a path as the mount writes them: the top is a full stop.
unfoldable pub dir_of : Text → Text
dir_of p = elim (last_index 47 p) [ none ↦ 46 ∷ [] | some i ↦ parent_of p ]

-- What is known of the path as a normal one.
unfoldable pub promote : Config → World → Report → Fs → Fs
promote g w r s =
    let p = path_of g.prefix r.key in
    let (known, s') = get_attr w p s in
    elim (present_attr known) [
      | none ↦ s'
      | some a ↦ on_attrs (Attrs.unstick w.now p (record a { size = r.size; etag = r.etag })) s'
    ]

unfoldable pub on_uploaded : Config → World → Report → Fs → Fs
unfolding promote dir_of
on_uploaded g w r s =
    let p = path_of g.prefix r.key in
    let s' = clear_pending (dir_of p) (base_of p) (promote g w r s) in
    if r.created
    then on_dirs (Dirs.add (dir_of p) (record { name = base_of p; mode = reg_bits })) s'
    else s'

-- After a flush of the entry `id`: the request, then the hook.
unfoldable pub after_flush : Config → World → ℕ → Fs → Option Report → Fs → Fs
unfolding on_uploaded
after_flush g w id before none s = s
after_flush g w id before (some r) s =
    let body = slice (s.cache.store id).file 0 r.size in
    on_uploaded g w r (note_request (put_request r.key body (upload_meta g w r.key before)) s)

-- `e.Flush`.
unfoldable pub flush : Config → World → ℕ → M (Unit {0})
unfolding options after_flush
flush g w id s =
    (in_cache (flush_entry (options g w s) w.os.flush_file w.now id) >>= λ r s'.
    (done tt, after_flush g w id s r s'))
      s
