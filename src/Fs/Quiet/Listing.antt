-- ===== src/Fs/Quiet/Listing.antt =====
-- Listings do not change the bucket.
use remote_s3_bucket_plugin.Table.{Text}
use remote_s3_bucket_plugin.Paths.{trim_prefix, join, key, dir_key}
use remote_s3_bucket_plugin.Attrs
use remote_s3_bucket_plugin.Attrs.{AttrCache}
use remote_s3_bucket_plugin.Dirs
use remote_s3_bucket_plugin.Dirs.{DirEntry, has_name}
use remote_s3_bucket_plugin.Config.{Config}
use remote_s3_bucket_plugin.Objects.{ListEntry, list_children}
use remote_s3_bucket_plugin.Fs.{World, Fs, present_attr, get_attr}
use remote_s3_bucket_plugin.Fs.Stat.{head_object}
use remote_s3_bucket_plugin.Fs.Listing.{
  merge_names, merge_local, prefetch_attr, prefetch_attrs, list_entries, list_bucket, list_dir,
}
use remote_s3_bucket_plugin.Fs.Quiet.{Quiet, Outcome-cases}
use remote_s3_bucket_plugin.Prelude.{
  ◌≡◌, refl, ◌∙◌, inl, inr, List, [], ◌∷◌, ◌++◌, if◌then◌else◌, Bool-cases, Option-cases,
}

merge_names-Quiet :
    (w : World) (dir : Text) (es : List DirEntry) (names : List Text) (s : Fs)
    → (merge_names w dir es names s).1.requests ≡ s.requests
unfolding merge_names
merge_names-Quiet w dir es [] s = refl
merge_names-Quiet w dir es (name ∷ names) s = elim (Bool-cases (has_name name es)) [
  | inl e ↦ rw (merge_names, e) (merge_names-Quiet w dir es names s)
  | inr e ↦ rw (merge_names, e) (merge_names-Quiet w dir es names (get_attr w (join dir name) s).1)
]

merge_local-Quiet :
    (w : World) (dir : Text) (es : List DirEntry) (s : Fs)
    → (merge_local w dir es s).1.requests ≡ s.requests
unfolding merge_local
merge_local-Quiet w dir es s = merge_names-Quiet w dir es _ s

-- The loops over a listing change nothing but the attribute cache.
module _ {X : Type 0} (part : Fs → X)
    (stays : (c : AttrCache) (s : Fs) → part (record s { attrs = c }) ≡ part s) where
  prefetch_attr-Keeps :
      (g : Config) (w : World) (child : Text) (e : ListEntry) (s : Fs)
      → part (prefetch_attr g w child e s) ≡ part s
  unfolding prefetch_attr
  prefetch_attr-Keeps g w child e s =
      elim (Outcome-cases
        (head_object w (if e.is_dir then key g.prefix child ++ 47 ∷ [] else key g.prefix child)
          s).0) [
            | inl (o, h) ↦ rw (prefetch_attr, h) (stays _ s)
            | inr (err, h) ↦ rw (prefetch_attr, h)
          ]

  pub prefetch_attrs-Keeps :
      (g : Config) (w : World) (dir : Text) (es : List ListEntry) (s : Fs)
      → part (prefetch_attrs g w dir es s) ≡ part s
  unfolding prefetch_attrs
  prefetch_attrs-Keeps g w dir [] s = refl
  prefetch_attrs-Keeps g w dir (e ∷ es) s =
      let s' = (get_attr w (join dir e.name) s).1 in
      elim (Option-cases (Attrs.get w.now (join dir e.name) s.attrs).0) [
        | inl h ↦
            rw (prefetch_attrs, h)
              (prefetch_attrs-Keeps g w dir es (prefetch_attr g w (join dir e.name) e s')
                ∙ prefetch_attr-Keeps g w (join dir e.name) e s'
                ∙ stays _ s)
        | inr (k, h) ↦ rw (prefetch_attrs, h) (prefetch_attrs-Keeps g w dir es s' ∙ stays _ s)
      ]

  pub list_entries-Keeps :
      (g : Config) (w : World) (dir : Text) (es : List ListEntry) (s : Fs)
      → part (list_entries g w dir es s).1 ≡ part s
  unfolding list_entries
  list_entries-Keeps g w dir [] s = refl
  list_entries-Keeps g w dir (e ∷ es) s =
      elim (Option-cases (present_attr (Attrs.get w.now (join dir e.name) s.attrs).0)) [
        | inl h ↦ rw (list_entries, h) (list_entries-Keeps g w dir es _ ∙ stays _ s)
        | inr (a, h) ↦ rw (list_entries, h) (list_entries-Keeps g w dir es _ ∙ stays _ s)
      ]

  -- What the bucket lists, with or without HEADs.
  pub listed-Keeps :
      (g : Config) (w : World) (dir : Text) (raw : List ListEntry) (s : Fs)
      → part (list_entries g w dir raw (if g.attr_full then prefetch_attrs g w dir raw s else s)).1
        ≡ part s
  listed-Keeps g w dir raw s = list_entries-Keeps g w dir raw _ ∙ elim (Bool-cases g.attr_full) [
    | inl h ↦ simp (h) (prefetch_attrs-Keeps g w dir raw s)
    | inr h ↦ simp (h)
  ]

list_bucket-Quiet : (g : Config) (w : World) (p : Text) → Quiet (list_bucket g w p)
unfolding list_bucket
list_bucket-Quiet g w p s =
    let raw =
      list_children (dir_key g.prefix p) (w.bucket.on_list s.requests (dir_key g.prefix p)) in
    elim (Option-cases raw.1) [
      | inl h ↦
          rw (list_bucket, h)
            (merge_local-Quiet w p _ _ ∙ listed-Keeps (λ t. t.requests) (λ c t. refl) g w p raw.0 s)
      | inr (err, h) ↦ rw (list_bucket, h)
    ]

pub list_dir-Quiet : (g : Config) (w : World) (p : Text) → Quiet (list_dir g w p)
unfolding list_dir
list_dir-Quiet g w path s =
    let p = trim_prefix path (47 ∷ []) in
    elim (Option-cases (Dirs.get w.now p s.dirs)) [
      | inl h ↦ rw (list_dir, h) (list_bucket-Quiet g w p s)
      | inr (es, h) ↦ rw (list_dir, h) (merge_local-Quiet w p es s)
    ]
