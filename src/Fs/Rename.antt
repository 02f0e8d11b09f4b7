-- ===== src/Fs/Rename.antt =====
-- `rename`, `renameFile`, `renameDir`, `persistMetadata` and `noteWrite` of internal/s3fs/node.go. The
-- copies of a directory run at once in the source, each of them whatever the others answer; here they
-- run in turn, and the first error in this order is reported.
pub mod Copied
use remote_s3_bucket_plugin.Table.{Text, has_prefix, lookup}
use remote_s3_bucket_plugin.Paths.{trim_prefix, parent_of, base_of, key, dir_key}
use remote_s3_bucket_plugin.Attrs
use remote_s3_bucket_plugin.Attrs.{Attr}
use remote_s3_bucket_plugin.Attrs.Meta.{Meta, meta_for, is_dir, dir_bits, file_type}
use remote_s3_bucket_plugin.Dirs
use remote_s3_bucket_plugin.Entry.{
  Error, not_found, os_error, Outcome, done, failed, stored, refused,
}
use remote_s3_bucket_plugin.Cache
use remote_s3_bucket_plugin.Cache.{lookup_entry}
use remote_s3_bucket_plugin.Cache.Writeback.{dirty_keys}
use remote_s3_bucket_plugin.Batches.{delete_multi}
use remote_s3_bucket_plugin.Config.{Config}
use remote_s3_bucket_plugin.Objects.{copy, list_all}
use remote_s3_bucket_plugin.Fs.{
  put_request, copy_request, delete_request, delete_all_request, World, Fs, M, ◌>>=◌, ◌>>◌, modify,
  eexist, send, clear_pending, clear_pending_prefix, put_attr, put_sticky, put_negative, get_attr,
  present_attr, on_attrs, on_dirs, on_cache, note_request,
}
use remote_s3_bucket_plugin.Fs.Stat.{stat}
use remote_s3_bucket_plugin.Fs.Upload.{flush}
use remote_s3_bucket_plugin.Prelude.{
  ℕ, Bool, true, false, not, Option, none, some, List, [], ◌∷◌, ◌++◌, map, if◌then◌else◌,
}

-- `f.s3.Copy`.
unfoldable pub copy_object : Config → World → Text → Text → ℕ → Option Meta → M (Unit {0})
copy_object g w src dst size meta s =
    send (copy_request src dst meta) (copy (w.bucket.on_copy s.requests src dst) g.part_size size) s

-- `f.s3.Put`, of a body that is given.
unfoldable pub put_object : World → Text → List ℕ → Meta → M (Unit {0})
put_object w k body meta s =
    let answer : Option Error = elim (w.bucket.on_put s.requests k body meta) [
      | stored etag ↦ none
      | refused err ↦ some err
    ] in
    send (put_request k body meta) answer s

-- An object that is not there counts as deleted, or as copied onto itself later.
unfoldable pub forgive : Option Error → Option Error
forgive (some not_found) = none
forgive err = err

-- `f.s3.Delete`, where a missing object is no error.
unfoldable pub delete_object : World → Text → M (Unit {0})
unfolding forgive
delete_object w k s = send (delete_request k) (forgive (w.bucket.on_delete s.requests k)) s

-- A flush of an entry, if it is dirty.
unfoldable pub flush_dirty : Config → World → Text → M (Unit {0})
flush_dirty g w k s = elim (lookup k s.cache.table) [
  | none ↦ (done tt, s)
  | some id ↦ let r = flush g w id s in if (s.cache.store id).dirty then r else (done tt, s)
]

unfoldable pub note_write : World → Text → ℕ → Fs → Fs
note_write w p size s =
    let (known, s') = get_attr w p s in
    elim (present_attr known) [
      | none ↦ s'
      | some a ↦ put_sticky w p (record a { size = size; mtime = w.now }) s'
    ]

-- A copy of an object onto itself, with new metadata.
unfoldable pub copy_onto_itself : Config → World → Text → Attr → M (Unit {0})
unfolding copy_object
copy_onto_itself g w k a s =
    let (r, s') = copy_object g w k k a.size (some (meta_for a)) s in
    elim r [
      | failed not_found ↦ (done tt, s')
      | failed err ↦ (failed err, s')
      | done u ↦ (done u, s')
    ]

unfoldable pub persist_metadata : Config → World → Text → Attr → M (Unit {0})
unfolding put_object copy_onto_itself
persist_metadata g w p a s =
    let marker = put_object w (dir_key g.prefix p) [] (meta_for a) s in
    let file = copy_onto_itself g w (key g.prefix p) a s in
    let dirty : Bool = elim (lookup_entry (key g.prefix p) s.cache) [
      | none ↦ false
      | some e ↦ e.dirty
    ] in
    if not g.sync_metadata
    then (done tt, s)
    else if is_dir a
    then marker
    else if dirty
    then (done tt, s)
    else file

-- What the mount knows after a file has moved.
unfoldable pub moved_file : World → Text → Text → Attr → Fs → Fs
moved_file w old new a s =
    let s1 = put_negative w old (on_attrs (Attrs.invalidate old) s) in
    let s2 = clear_pending (parent_of old) (base_of old) (put_attr w new a s1) in
    let s3 = on_dirs (Dirs.remove (parent_of old) (base_of old)) s2 in
    on_dirs (Dirs.add (parent_of new) (record { name = base_of new; mode = file_type a.mode })) s3

abbrev pub rename_entry : Config → World → Text → Text → Fs → Fs
rename_entry g w old new s =
    on_cache (Cache.rename g.block_size w.os.path_for (w.os.rename_file new) old new) s

unfoldable pub rename_file : Config → World → Text → Text → Attr → M (Unit {0})
unfolding flush_dirty copy_object delete_object moved_file
rename_file g w old new a = (do
  flush_dirty g w (key g.prefix old)
  copy_object g w (key g.prefix old) (key g.prefix new) a.size none
  delete_object w (key g.prefix old)
  modify (λ s. moved_file w old new a (rename_entry g w (key g.prefix old) (key g.prefix new) s)))

-- The first loop of `renameDir`.
unfoldable pub flush_under : Config → World → Text → List Text → M (Unit {0})
flush_under g w prefix [] s = (done tt, s)
flush_under g w prefix (k ∷ ks) s =
    let rest = flush_under g w prefix ks in
    let go : Outcome (Unit {0}) × Fs = elim (lookup k s.cache.table) [
      | none ↦ rest s
      | some id ↦ (flush g w id >> rest) s
    ] in
    if has_prefix k prefix then go else rest s

-- The key of an object after the move.
abbrev pub moved_key : Text → Text → Text → Text
moved_key old new k = new ++ trim_prefix k old

-- The callback of `renameDir`.
abbrev pub collect : List (Text × ℕ) → Text → ℕ → List (Text × ℕ) × Bool
collect items k size = (items ++ (k, size) ∷ [], true)

-- The objects under a prefix.
unfoldable pub objects_under : World → Text → M (List (Text × ℕ))
objects_under w prefix s =
    let (items, err) = list_all collect 0 (w.bucket.on_list_all s.requests prefix) [] in
    elim err [ some e ↦ (failed e, s) | none ↦ (done items, s) ]

abbrev pub first_failure : Outcome (Unit {0}) → Outcome (Unit {0}) → Outcome (Unit {0})
first_failure (failed err) r = failed err
first_failure (done u) r = r

unfoldable pub copy_each : Config → World → Text → Text → List (Text × ℕ) → M (Unit {0})
copy_each g w old new [] s = (done tt, s)
copy_each g w old new ((k, size) ∷ items) s =
    let (r, s') = copy_object g w k (moved_key old new k) size none s in
    let (r', s'') = copy_each g w old new items s' in (first_failure r r', s'')

unfoldable pub all_but_last : List (List Text) → List (List Text)
all_but_last [] = []
all_but_last (b ∷ []) = []
all_but_last (b ∷ b' ∷ bs) = b ∷ all_but_last (b' ∷ bs)

unfoldable pub note_batches : List (List Text) → Fs → Fs
note_batches [] s = s
note_batches (b ∷ bs) s = note_batches bs (note_request (delete_all_request b) s)

-- `f.s3.DeleteMulti`: after an error, the bucket took every request but the last.
unfoldable pub delete_keys : World → List Text → M (Unit {0})
unfolding all_but_last note_batches
delete_keys w keys s =
    let d = delete_multi (w.bucket.on_delete_all s.requests) keys in
    elim d.error [
      | some err ↦ (failed err, note_batches (all_but_last d.batches) s)
      | none ↦ (done tt, note_batches d.batches s)
    ]

unfoldable pub rename_each : Config → World → Text → Text → List (Text × ℕ) → Fs → Fs
rename_each g w old new [] s = s
rename_each g w old new ((k, size) ∷ items) s =
    rename_each g w old new items (rename_entry g w k (moved_key old new k) s)

-- What the mount knows after a directory has moved.
unfoldable pub moved_dir : Text → Text → Fs → Fs
moved_dir old new s =
    let s1 = on_attrs (Attrs.invalidate_prefix new) (on_attrs (Attrs.invalidate_prefix old) s) in
    let s2 = on_dirs (Dirs.invalidate_prefix new) (on_dirs (Dirs.invalidate_prefix old) s1) in
    let s3 = clear_pending_prefix old s2 in
    let s4 = on_dirs (Dirs.remove (parent_of old) (base_of old)) s3 in
    on_dirs (Dirs.add (parent_of new) (record { name = base_of new; mode = dir_bits })) s4

unfoldable pub rename_dir : Config → World → Text → Text → M (Unit {0})
unfolding flush_under objects_under copy_each delete_keys rename_each moved_dir
rename_dir g w old new s =
    let from = dir_key g.prefix old in
    let to = dir_key g.prefix new in
    (flush_under g w from (dirty_keys s.cache.store s.cache.table)
        >> (objects_under w from >>= λ items.
            copy_each g w from to items
            >> (delete_keys w (map (λ i. i.0) items)
                >> modify (λ s'. moved_dir old new (rename_each g w from to items s')))))
      s

-- Whether the new name is taken, where that matters.
unfoldable pub refuse_taken : Config → World → Text → Bool → M (Unit {0})
refuse_taken g w new no_replace s =
    let (r, s') = stat g w new s in
    let taken : Outcome (Unit {0}) = elim r [
      | done a ↦ failed (os_error eexist)
      | failed err ↦ done tt
    ] in
    if no_replace then (taken, s') else (done tt, s)

unfoldable pub rename : Config → World → Text → Text → Bool → M (Unit {0})
unfolding refuse_taken rename_dir rename_file
rename g w old new no_replace = stat g w old >>= λ a.
    refuse_taken g w new no_replace
    >> (if is_dir a then rename_dir g w old new else rename_file g w old new a)
