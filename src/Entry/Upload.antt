-- ===== src/Entry/Upload.antt =====
-- `Flush` of internal/cache/entry.go: the whole object is written back to S3.
pub mod Stored
use remote_s3_bucket_plugin.OsFile
use remote_s3_bucket_plugin.OsFile.{slice}
use remote_s3_bucket_plugin.Bitmap.{set_range}
use remote_s3_bucket_plugin.Entry.{
  Text, Error, stored, refused, Options, Counters, Entry, done, failed, M, ◌>>◌, nblocks, charge,
}
use remote_s3_bucket_plugin.Entry.Ensure.{ensure}
use remote_s3_bucket_plugin.Prelude.{
  ℕ, zero, suc, ◌+◌, Bool, false, not, ◌||◌, Option, none, some, if◌then◌else◌, ℤ, pos, negsuc,
}

-- The arguments of the `OnUploaded` callback.
pub record Report : Type 0 where
  pub key : Text
  pub size : ℕ
  pub etag : Text
  pub mtime : ℕ
  pub created : Bool

-- `int(nblocks(size, bs)) - 1`.
abbrev pub last_block : ℕ → ℤ
last_block zero = negsuc 0
last_block (suc n) = pos n

-- After the upload answered with `etag`.
pub finish_upload : Options → ℕ → Text → Text → Entry → Counters → Entry × Counters
finish_upload o now key etag e c =
    let e' = record e {
      etag = etag;
      obj_size = e.size;
      blocks = (set_range e.blocks (pos 0) (last_block (nblocks e.size o.block_size))).0;
    } in
    let c' = charge o e e' c in
    (
      record e' { dirty = false; new_file = false; written = false; mtime = now },
      record c' { uploads = c'.uploads + 1 },
    )

-- The upload of the whole file, which is synced.
pub send : Options → ℕ → Text → M (Option Report)
unfolding finish_upload
send o now key e c = elim (o.upload key (slice e.file 0 e.size) e.size) [
  | refused err ↦ (failed err, e, c)
  | stored etag ↦
      let (e', c') = finish_upload o now key etag e c in
      (
        done (
            some (record {
              key = key;
              size = e.size;
              etag = etag;
              mtime = now;
              created = e.new_file;
            })),
        e',
        c',
      )
]

-- The locked end of `Flush`; `cut` and `sync` are what `file.Truncate` and `file.Sync` answer.
unfoldable pub finish_flush : Options → Option Error → Option Error → ℕ → Text → M (Option Report)
unfolding send
finish_flush o cut sync now key e c =
    let e' = record e { file = OsFile.truncate e.file e.size } in
    if not e.dirty || e.deleted then (done none, e, c) else elim cut [
      | some err ↦ (failed err, e, c)
      | none ↦ elim sync [ some err ↦ (failed err, e', c) | none ↦ send o now key e' c ]
    ]

-- `some` report if the object was uploaded.
unfoldable pub flush : Options → Option Error → Option Error → ℕ → M (Option Report)
unfolding finish_flush
flush o cut sync now e c =
    if o.read_only
    then (done none, e, c)
    else if not e.dirty || e.deleted
    then (done none, e, c)
    else (do ensure o 0 e.obj_size; finish_flush o cut sync now e.key) e c
