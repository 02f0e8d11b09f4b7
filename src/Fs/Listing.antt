-- ===== src/Fs/Listing.antt =====
-- `listDir`, `prefetchAttrs` and `mergeLocal` of internal/s3fs/fs.go, `dirEmpty` of
-- internal/s3fs/node.go. The HEADs of a listing run at once in the source; here they run in turn.
use remote_s3_bucket_plugin.Table.{Text, text_eq}
use remote_s3_bucket_plugin.Paths.{trim_prefix, join, key, dir_key}
use remote_s3_bucket_plugin.Attrs.{Attr}
use remote_s3_bucket_plugin.Attrs.Meta.{attr_from_object, reg_bits, file_type}
use remote_s3_bucket_plugin.Dirs
use remote_s3_bucket_plugin.Dirs.{DirEntry, has_name}
use remote_s3_bucket_plugin.Entry.{done, failed}
use remote_s3_bucket_plugin.Config.{Config}
use remote_s3_bucket_plugin.Objects.{ListEntry, list_children, list_all}
use remote_s3_bucket_plugin.Fs.{
  World, Fs, M, pending_in, dir_attr, file_attr, put_attr, get_attr, present_attr, on_dirs,
}
use remote_s3_bucket_plugin.Fs.Stat.{head_object}
use remote_s3_bucket_plugin.Prelude.{
  ℕ, Bool, true, false, ◌&&◌, none, some, List, [], ◌∷◌, ◌++◌, ◌==◌, if◌then◌else◌, length,
}

-- Every name among `extra` that is not there yet, with the type of the file where it is known.
unfoldable pub merge_names : World → Text → List DirEntry → List Text → Fs → List DirEntry × Fs
merge_names w dir es [] s = ([], s)
merge_names w dir es (name ∷ names) s =
    let (known, s') = get_attr w (join dir name) s in
    let mode : ℕ = elim (present_attr known) [ none ↦ reg_bits | some a ↦ file_type a.mode ] in
    let skip = merge_names w dir es names s in
    let (rest, s'') = merge_names w dir es names s' in
    if has_name name es then skip else (record { name = name; mode = mode } ∷ rest, s'')

unfoldable pub merge_local : World → Text → List DirEntry → Fs → List DirEntry × Fs
unfolding merge_names
merge_local w dir es s =
    let (extra, s') = merge_names w dir es (pending_in dir s) s in (es ++ extra, s')

-- What a HEAD says of a child.
unfoldable pub prefetch_attr : Config → World → Text → ListEntry → Fs → Fs
prefetch_attr g w child e s =
    let k = key g.prefix child in
    elim (head_object w (if e.is_dir then k ++ 47 ∷ [] else k) s).0 [
      | failed err ↦ s
      | done o ↦ put_attr w child (attr_from_object g o e.is_dir) s
    ]

unfoldable pub prefetch_attrs : Config → World → Text → List ListEntry → Fs → Fs
unfolding prefetch_attr
prefetch_attrs g w dir [] s = s
prefetch_attrs g w dir (e ∷ es) s =
    let child = join dir e.name in
    let (known, s') = get_attr w child s in
    let next : Fs = elim known [ some k ↦ s' | none ↦ prefetch_attr g w child e s' ] in
    prefetch_attrs g w dir es next

-- The attributes that the listing itself gives.
unfoldable pub listed_attr : Config → ListEntry → Fs → Attr
listed_attr g e s = if e.is_dir then dir_attr g s else file_attr g e.size e.modified e.etag

unfoldable pub list_entries : Config → World → Text → List ListEntry → Fs → List DirEntry × Fs
unfolding listed_attr
list_entries g w dir [] s = ([], s)
list_entries g w dir (e ∷ es) s =
    let child = join dir e.name in
    let (known, s') = get_attr w child s in
    let (a, next) : Attr × Fs = elim (present_attr known) [
      | some a ↦ (a, s')
      | none ↦ let a = listed_attr g e s' in (a, put_attr w child a s')
    ] in
    let (rest, last) = list_entries g w dir es next in
    (record { name = e.name; mode = file_type a.mode } ∷ rest, last)

-- A listing of the bucket, which is then remembered.
unfoldable pub list_bucket : Config → World → Text → M (List DirEntry)
unfolding list_entries prefetch_attrs merge_local
list_bucket g w p s =
    let (raw, err) =
      list_children (dir_key g.prefix p) (w.bucket.on_list s.requests (dir_key g.prefix p)) in
    let s' = if g.attr_full then prefetch_attrs g w p raw s else s in
    let (es, s'') = list_entries g w p raw s' in
    let (all, last) = merge_local w p es (on_dirs (Dirs.put w.now w.dir_order p es) s'') in
    elim err [ some e ↦ (failed e, s) | none ↦ (done all, last) ]

unfoldable pub list_dir : Config → World → Text → M (List DirEntry)
unfolding list_bucket merge_local
list_dir g w path s =
    let p = trim_prefix path (47 ∷ []) in
    let fresh = list_bucket g w p s in
    elim (Dirs.get w.now p s.dirs) [
      | some es ↦ let (all, s') = merge_local w p es s in (done all, s')
      | none ↦ fresh
    ]

-- The callback of `dirEmpty`.
unfoldable pub only_marker : Text → Bool → Text → ℕ → Bool × Bool
only_marker marker empty k size = if text_eq k marker then (empty, true) else (false, false)

-- Whether a directory has no child but its marker.
unfoldable pub dir_empty : Config → World → Text → M Bool
unfolding only_marker
dir_empty g w p s =
    let marker = dir_key g.prefix p in
    let (empty, err) =
      list_all (only_marker marker) 0 (w.bucket.on_list_all s.requests marker) true in
    elim err [ some e ↦ (failed e, s) | none ↦ (done (empty && length (pending_in p s) == 0), s) ]
