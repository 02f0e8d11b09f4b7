-- ===== src/Node/Names.antt =====
-- Names in internal/s3fs/node.go: `Lookup`, `Readdir`, `Mkdir`, `Rmdir`, `Unlink`, `Symlink`,
-- `Readlink` and `Rename`.
use remote_s3_bucket_plugin.Table.{Text, text_eq}
use remote_s3_bucket_plugin.Paths.{join, key, dir_key}
use remote_s3_bucket_plugin.Attrs
use remote_s3_bucket_plugin.Attrs.{Attr}
use remote_s3_bucket_plugin.Attrs.Meta.{
  is_dir, is_link, dir_bits, lnk_bits, perm_bits, meta_for, Stat, fill,
}
use remote_s3_bucket_plugin.Dirs
use remote_s3_bucket_plugin.Dirs.{DirEntry}
use remote_s3_bucket_plugin.Entry.{os_error, done, failed}
use remote_s3_bucket_plugin.Cache
use remote_s3_bucket_plugin.Config.{Config}
use remote_s3_bucket_plugin.Fs.{
  World, Fs, M, ◌>>=◌, ◌>>◌, return, fail, modify, writable, clear_pending, put_attr, put_negative,
  on_attrs, on_dirs, on_cache, eexist, exdev, enotdir, eisdir, einval, enotempty,
}
use remote_s3_bucket_plugin.Fs.Stat.{stat}
use remote_s3_bucket_plugin.Fs.Listing.{list_dir, dir_empty}
use remote_s3_bucket_plugin.Fs.Rename.{put_object, delete_object, rename as rename_path}
use remote_s3_bucket_plugin.Node.{Op, counted, new_attr}
use remote_s3_bucket_plugin.Prelude.{
  ℕ, bit_and, bit_or, not, Option, none, some, List, [], ◌==◌, if◌then◌else◌, length,
}

unfoldable pub lookup_name : Config → World → Text → Text → Op Stat
lookup_name g w dir name = counted (stat g w (join dir name) >>= λ a. return (fill a))

unfoldable pub readdir : Config → World → Text → Op (List DirEntry)
readdir g w p = counted (list_dir g w p)

-- Any error of `stat` counts as an absent path.
unfoldable pub refuse_existing : Config → World → Text → M (Unit {0})
refuse_existing g w p s =
    let (r, s') = stat g w p s in
    (elim r [ done a ↦ failed (os_error eexist) | failed err ↦ done tt ], s')

-- A new directory is known to be empty.
unfoldable pub note_directory : World → Text → Text → Attr → Fs → Fs
note_directory w dir name a s =
    let p = join dir name in
    let s' = on_dirs (Dirs.add dir (record { name = name; mode = dir_bits })) (put_attr w p a s) in
    on_dirs (Dirs.seed w.now p) s'

unfoldable pub mkdir : Config → World → Text → Text → ℕ → Op Stat
unfolding refuse_existing note_directory
mkdir g w dir name mode =
    let p = join dir name in
    let a = new_attr g w (bit_or dir_bits (bit_and mode perm_bits)) 4096 [] in
    counted (
      writable g (
        refuse_existing g w p
        >> (put_object w (dir_key g.prefix p) [] (meta_for a)
            >> (modify (note_directory w dir name a) >> return (fill a)))))

unfoldable pub forget_directory : World → Text → Text → Fs → Fs
forget_directory w dir name s =
    let p = join dir name in
    let s' = put_negative w p (on_attrs (Attrs.invalidate_prefix p) s) in
    on_dirs (Dirs.remove dir name) (on_dirs (Dirs.invalidate_prefix p) s')

unfoldable pub rmdir : Config → World → Text → Text → Op (Unit {0})
unfolding forget_directory
rmdir g w dir name =
    let p = join dir name in
    counted (
      writable g (
        stat g w p >>= λ a.
        if not (is_dir a)
        then fail (os_error enotdir)
        else dir_empty g w p >>= λ empty.
            if not empty
            then fail (os_error enotempty)
            else delete_object w (dir_key g.prefix p) >> modify (forget_directory w dir name)))

unfoldable pub forget_file : World → Text → Text → Fs → Fs
forget_file w dir name s =
    on_dirs (Dirs.remove dir name) (put_negative w (join dir name) (clear_pending dir name s))

-- What is local goes first.
unfoldable pub unlink : Config → World → Text → Text → Op (Unit {0})
unfolding forget_file
unlink g w dir name =
    let p = join dir name in
    counted (
      writable g (
        stat g w p >>= λ a.
        if is_dir a
        then fail (os_error eisdir)
        else modify (on_cache (Cache.remove g.block_size (key g.prefix p)))
          >> (delete_object w (key g.prefix p) >> modify (forget_file w dir name))))

unfoldable pub note_link : World → Text → Text → Attr → Fs → Fs
note_link w dir name a s =
    on_dirs (Dirs.add dir (record { name = name; mode = lnk_bits }))
      (put_attr w (join dir name) a s)

-- 0777 is 511.
unfoldable pub symlink : Config → World → Text → Text → Text → Op Stat
unfolding note_link
symlink g w dir target name =
    let p = join dir name in
    let a = new_attr g w (bit_or lnk_bits 511) (length target) target in
    counted (
      writable g (
        put_object w (key g.prefix p) target (meta_for a)
        >> (modify (note_link w dir name a) >> return (fill a))))

-- The target in the bucket, which is then remembered.
unfoldable pub fetch_link : Config → World → Text → Attr → M Text
fetch_link g w p a s = elim (w.bucket.on_get_all s.requests (key g.prefix p)) [
  | failed err ↦ (failed err, s)
  | done body ↦ (done body, put_attr w p (record a { symlink = body }) s)
]

-- The target of a link, which what is known of it may hold.
unfoldable pub read_link : Config → World → Text → Attr → M Text
unfolding fetch_link
read_link g w p a s =
    let fetched = fetch_link g w p a s in
    if not (is_link a)
    then (failed (os_error einval), s)
    else if text_eq a.symlink []
    then fetched
    else (done a.symlink, s)

unfoldable pub readlink : Config → World → Text → Op Text
unfolding read_link
readlink g w p = counted (stat g w p >>= read_link g w p)

-- `RENAME_EXCHANGE` is 2 and `RENAME_NOREPLACE` 1. The other parent is `none` if it is not a node of
-- this filesystem.
unfoldable pub rename : Config → World → Text → Text → Option Text → Text → ℕ → Op (Unit {0})
rename g w dir name parent new_name flags =
    let old = join dir name in
    counted (
      writable g (
        if not (bit_and flags 2 == 0) then fail (os_error einval) else elim parent [
          | none ↦ fail (os_error exdev)
          | some other ↦
              if text_eq old (join other new_name)
              then return tt
              else rename_path g w old (join other new_name) (not (bit_and flags 1 == 0))
        ]))
