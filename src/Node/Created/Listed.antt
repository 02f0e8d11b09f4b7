-- ===== src/Node/Created/Listed.antt =====
-- A new file is in the listing of its directory.
use remote_s3_bucket_plugin.Table.{Text, text_eq, lookup}
use remote_s3_bucket_plugin.Table.Laws.{text_eq_refl, eq_of_text_eq}
use remote_s3_bucket_plugin.Paths.{trim_prefix, join, dir_key}
use remote_s3_bucket_plugin.Attrs.Meta.{Stat}
use remote_s3_bucket_plugin.Dirs
use remote_s3_bucket_plugin.Dirs.{DirEntry, has_name}
use remote_s3_bucket_plugin.Entry.{done, failed}
use remote_s3_bucket_plugin.Config.{Config}
use remote_s3_bucket_plugin.Objects.{list_children}
use remote_s3_bucket_plugin.Fs.{
  World, Fs, get_attr, pending_in, mark_pending, names_in, on_dirs, put_sticky,
}
use remote_s3_bucket_plugin.Fs.Stat.{mem_name}
use remote_s3_bucket_plugin.Fs.Listing.{
  merge_names, merge_local, list_entries, prefetch_attrs, list_bucket, list_dir,
}
use remote_s3_bucket_plugin.Fs.Quiet.Listing.{listed-Keeps}
use remote_s3_bucket_plugin.Node.{ok, count_op, FileHandle}
use remote_s3_bucket_plugin.Node.Files.{create, note_created}
use remote_s3_bucket_plugin.Node.Names.{readdir}
use remote_s3_bucket_plugin.Node.Created.{new_file, create-note_created, reply_ok, done_inj}
use remote_s3_bucket_plugin.Prelude.{
  ℕ, ◌≡◌, refl, sym, ap, subst, ◌∙◌, inl, inr, Bool, true, false, ◌||◌, List, [], ◌∷◌, ◌++◌, arith,
  if◌then◌else◌, Bool-cases, Option-cases,
}

has_name-append :
    (n : Text) (xs ys : List DirEntry) → has_name n (xs ++ ys) ≡ (has_name n xs || has_name n ys)
unfolding has_name
has_name-append n [] ys = refl
has_name-append n (x ∷ xs) ys = ground (arith, has_name-append n xs ys)

or_true : (b : Bool) → (b || true) ≡ true
or_true true = refl
or_true false = refl

-- A pending name is in the listing or is added to it.
merge_names-adds :
    (w : World) (dir n : Text) (es : List DirEntry) (names : List Text) (s : Fs)
    → mem_name n names ≡ true
    → (has_name n es || has_name n (merge_names w dir es names s).0) ≡ true
unfolding merge_names mem_name has_name
merge_names-adds w dir n es [] s h = cc
merge_names-adds w dir n es (x ∷ names) s h =
    let s' = (get_attr w (join dir x) s).1 in
    elim (Bool-cases (text_eq x n)) [
      | inl same ↦ elim (Bool-cases (has_name x es)) [
        | inl old ↦
            let here : has_name n es ≡ true =
              ap (λ y. has_name y es) (sym (eq_of_text_eq x n same)) ∙ old in
            rw here
        | inr new ↦ rw (new, same) (or_true (has_name n es))
      ]
      | inr other ↦
          let later : mem_name n names ≡ true = sym (ap (λ b. b || mem_name n names) other) ∙ h in
          elim (Bool-cases (has_name x es)) [
            | inl old ↦ rw old (merge_names-adds w dir n es names s later)
            | inr new ↦ rw (new, other) (merge_names-adds w dir n es names s' later)
          ]
    ]

merge_local-has_name :
    (w : World) (dir n : Text) (es : List DirEntry) (s : Fs)
    → mem_name n (pending_in dir s) ≡ true
    → has_name n (merge_local w dir es s).0 ≡ true
unfolding merge_local
merge_local-has_name w dir n es s h =
    has_name-append n es _ ∙ merge_names-adds w dir n es (pending_in dir s) s h

-- A pending name is in every listing of its directory.
list_dir-pending :
    (g : Config) (w : World) (dir n : Text) (s : Fs) (es : List DirEntry)
    → trim_prefix dir (47 ∷ []) ≡ dir
    → mem_name n (pending_in dir s) ≡ true
    → (list_dir g w dir s).0 ≡ done es
    → has_name n es ≡ true
unfolding list_dir list_bucket
list_dir-pending g w dir n s es bare h found =
    let p = trim_prefix dir (47 ∷ []) in
    let local : mem_name n (pending_in p s) ≡ true = rw bare h in
    let raw =
      list_children (dir_key g.prefix p) (w.bucket.on_list s.requests (dir_key g.prefix p)) in
    let listed =
      list_entries g w p raw.0 (if g.attr_full then prefetch_attrs g w p raw.0 s else s) in
    let t = on_dirs (Dirs.put w.now w.dir_order p listed.0) listed.1 in
    elim (Option-cases (Dirs.get w.now p s.dirs)) [
      | inr (es0, e) ↦
          let answer : (list_dir g w dir s).0 ≡ done (merge_local w p es0 s).0 = rw (list_dir, e) in
          subst (λ x. has_name n x ≡ true) (done_inj (sym answer ∙ found))
            (merge_local-has_name w p n es0 s local)
      | inl e ↦ elim (Option-cases raw.1) [
        | inl none_failed ↦
            let answer : (list_dir g w dir s).0 ≡ done (merge_local w p listed.0 t).0 =
              rw (list_dir, e, list_bucket, none_failed) in
            let kept : listed.1.pending ≡ s.pending =
              listed-Keeps (λ x. x.pending) (λ c x. refl) g w p raw.0 s in
            subst (λ x. has_name n x ≡ true) (done_inj (sym answer ∙ found))
              (merge_local-has_name w p n listed.0 t
                (ap (λ x. mem_name n (names_in p x)) kept ∙ local))
        | inr (err, some_failed) ↦
            let answer : (list_dir g w dir s).0 ≡ failed err =
              rw (list_dir, e, list_bucket, some_failed) in
            let bad : failed err ≡ done es = sym answer ∙ found in cc
      ]
    ]

mark_pending-mem_name :
    (dir name : Text) (s : Fs)
    → mem_name name (names_in dir (mark_pending dir name s).pending) ≡ true
unfolding mark_pending names_in lookup mem_name
mark_pending-mem_name dir name s =
    rw (mark_pending, names_in, lookup, text_eq_refl dir, mem_name, text_eq_refl name)

-- After `Create`, the name is in what `Readdir` answers, whether the directory is remembered or listed
-- anew, and whatever the bucket lists.
pub create-readdir :
    (g : Config) (w w' : World) (dir name : Text) (flags mode : ℕ) (s : Fs)
    (r : Stat × FileHandle × ℕ) (es : List DirEntry)
    → trim_prefix dir (47 ∷ []) ≡ dir
    → (create g w dir name flags mode s).0 ≡ ok r
    → (readdir g w' dir (create g w dir name flags mode s).1).0 ≡ ok es
    → has_name name es ≡ true
unfolding readdir note_created
create-readdir g w w' dir name flags mode s r es bare h found =
    let (t, made, fresh) = create-note_created g w dir name flags mode s r h in
    let s' = (create g w dir name flags mode s).1 in
    let local : mem_name name (pending_in dir (count_op s')) ≡ true =
      ap (λ (x : Fs). mem_name name (names_in dir x.pending)) made
      ∙ mark_pending-mem_name dir name (put_sticky w (join dir name) (new_file g w mode) t) in
    list_dir-pending g w' dir name (count_op s') es bare local (reply_ok _ es found)
