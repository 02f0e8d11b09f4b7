-- ===== src/Fs/Stat.antt =====
-- `knownAbsent`, `stat` and `probeDir` of internal/s3fs/fs.go.
use remote_s3_bucket_plugin.Table.{Text, text_eq}
use remote_s3_bucket_plugin.Paths.{trim_prefix, is_top, parent_of, base_of, key, dir_key}
use remote_s3_bucket_plugin.Attrs.{Attr}
use remote_s3_bucket_plugin.Attrs.Meta.{Object, attr_from_object}
use remote_s3_bucket_plugin.Dirs
use remote_s3_bucket_plugin.Dirs.{has_name}
use remote_s3_bucket_plugin.Entry.{not_found, os_error, done, failed}
use remote_s3_bucket_plugin.Cache.{lookup_entry}
use remote_s3_bucket_plugin.Config.{Config}
use remote_s3_bucket_plugin.Objects.{head, list_all}
use remote_s3_bucket_plugin.Fs.{
  World, Fs, M, ◌>>=◌, enoent, pending_in, dir_attr, file_attr, put_attr, put_sticky, put_negative,
  get_attr,
}
use remote_s3_bucket_plugin.Prelude.{
  ℕ, Bool, true, false, not, ◌&&◌, ◌||◌, Option, none, some, List, [], ◌∷◌, if◌then◌else◌,
}

unfoldable pub mem_name : Text → List Text → Bool
mem_name name [] = false
mem_name name (x ∷ xs) = let rest = mem_name name xs in text_eq x name || rest

unfoldable pub known_absent : Config → World → Text → Fs → Bool
unfolding mem_name
known_absent g w p s =
    let dir = parent_of p in
    let name = base_of p in
    if not g.exclusive then false else elim (Dirs.get w.now dir s.dirs) [
      | none ↦ false
      | some es ↦ not (has_name name es) && not (mem_name name (pending_in dir s))
    ]

-- A HEAD of an object.
unfoldable pub head_object : World → Text → M Object
head_object w k s = (head k (w.bucket.on_head s.requests k), s)

-- The callback of `probeDir`: what was found, and whether the marker was.
unfoldable pub probe : Text → Bool × Bool → Text → ℕ → (Bool × Bool) × Bool
probe marker (found, has_marker) k size =
    if text_eq k marker then ((true, true), true) else ((true, has_marker), false)

-- The attributes in the marker of a directory, where it can be read.
unfoldable pub marker_attr : Config → World → Text → Fs → Attr
unfolding head_object
marker_attr g w marker s = elim (head_object w marker s).0 [
  | failed err ↦ dir_attr g s
  | done o ↦ attr_from_object g o true
]

-- `none` for what is not a directory.
unfoldable pub probe_dir : Config → World → Text → M (Option Attr)
unfolding probe marker_attr
probe_dir g w p s =
    let marker = dir_key g.prefix p in
    let ((found, has_marker), err) =
      list_all (probe marker) 2 (w.bucket.on_list_all s.requests marker) (false, false) in
    elim err [
      | some e ↦ (failed e, s)
      | none ↦ (
        done (
            if not found
            then none
            else if has_marker && g.attr_full
            then some (marker_attr g w marker s)
            else some (dir_attr g s)),
        s,
      )
    ]

-- What is to be remembered of a path that is not an object.
unfoldable pub settle : World → Text → Option Attr → M Attr
settle w p none s = (failed (os_error enoent), put_negative w p s)
settle w p (some a) s = (done a, put_attr w p a s)

-- The end of `stat`: an object, or else a directory.
unfoldable pub stat_bucket : Config → World → Text → M Attr
unfolding head_object probe_dir settle
stat_bucket g w p s =
    let directory = (probe_dir g w p >>= settle w p) s in
    elim (head_object w (key g.prefix p) s).0 [
      | done o ↦ let a = attr_from_object g o false in (done a, put_attr w p a s)
      | failed not_found ↦ directory
      | failed err ↦ (failed err, s)
    ]

-- A file with writes that are not in the bucket is what it is here.
unfoldable pub stat_local : Config → World → Text → M Attr
unfolding stat_bucket
stat_local g w p s =
    let rest = stat_bucket g w p s in
    elim (lookup_entry (key g.prefix p) s.cache) [
      | none ↦ rest
      | some e ↦
          if e.dirty
          then (let a = file_attr g e.size e.mtime [] in (done a, put_sticky w p a s))
          else rest
    ]

-- An attribute that is cached is never missing where the path is not absent; the code would answer
-- with a nil pointer.
unfoldable pub stat : Config → World → Text → M Attr
unfolding known_absent stat_local
stat g w path s =
    let p = trim_prefix path (47 ∷ []) in
    let (known, s') = get_attr w p s in
    let rest =
      if known_absent g w p s'
      then (failed (os_error enoent), put_negative w p s')
      else stat_local g w p s' in
    if is_top p then (done (dir_attr g s), s) else elim known [
      | none ↦ rest
      | some (none, negative) ↦ (failed (os_error enoent), s')
      | some (some a, true) ↦ (failed (os_error enoent), s')
      | some (some a, false) ↦ (done a, s')
    ]
