-- ===== src/Fs/Rename/Copied.antt =====
-- `renameDir` deletes nothing before it has copied everything.
use remote_s3_bucket_plugin.Table.{Text, text_eq, has_prefix, lookup}
use remote_s3_bucket_plugin.Table.Laws.{text_eq_refl}
use remote_s3_bucket_plugin.Paths.{dir_key, path_of}
use remote_s3_bucket_plugin.Attrs
use remote_s3_bucket_plugin.Attrs.{Attr}
use remote_s3_bucket_plugin.Batches.{delete_multi}
use remote_s3_bucket_plugin.Entry.{Outcome, done, failed, Error}
use remote_s3_bucket_plugin.Entry.Upload.{Report}
use remote_s3_bucket_plugin.Cache.Writeback.{flush_entry, dirty_keys}
use remote_s3_bucket_plugin.Config.{Config}
use remote_s3_bucket_plugin.Objects.{copy, list_all}
use remote_s3_bucket_plugin.Fs.{
  World, Fs, ◌>>◌, Request, put_request, copy_request, delete_request, delete_all_request,
  present_attr, in_cache, note_request, clear_pending, clear_pending_prefix, modify,
}
use remote_s3_bucket_plugin.Fs.Quiet.{Keeps, bind-Keeps, after_bind}
use remote_s3_bucket_plugin.Fs.Upload.{options, promote, on_uploaded, after_flush, flush}
use remote_s3_bucket_plugin.Fs.Rename.{
  collect, rename_entry, copy_object, first_failure, flush_under, objects_under, copy_each,
  moved_key, note_batches, all_but_last, delete_keys, rename_each, moved_dir, rename_dir,
}
use remote_s3_bucket_plugin.Prelude.{
  ℕ, ◌≡◌, refl, sym, ap, subst, ◌∙◌, ◌⊎◌, inl, inr, Bool, true, false, ◌&&◌, ◌||◌, Option, none,
  some, List, [], ◌∷◌, map, Bool-cases, Option-cases,
}

-- The keys that requests delete, the latest request first.
unfoldable pub deletes : List Request → List (List Text)
deletes [] = []
deletes (put_request k body meta ∷ rs) = deletes rs
deletes (copy_request src dst meta ∷ rs) = deletes rs
deletes (delete_request k ∷ rs) = (k ∷ []) ∷ deletes rs
deletes (delete_all_request ks ∷ rs) = ks ∷ deletes rs

-- Whether the object has been copied.
unfoldable pub has_copy : Text → Text → List Request → Bool
has_copy src dst [] = false
has_copy src dst (put_request k body meta ∷ rs) = has_copy src dst rs
has_copy src dst (copy_request a b meta ∷ rs) =
    let rest = has_copy src dst rs in (text_eq a src && text_eq b dst) || rest
has_copy src dst (delete_request k ∷ rs) = has_copy src dst rs
has_copy src dst (delete_all_request ks ∷ rs) = has_copy src dst rs

unfoldable pub AllCopied : Text → Text → List (Text × ℕ) → List Request → Type 0
AllCopied from to [] rs = Unit {0}
AllCopied from to ((k, size) ∷ items) rs =
    (has_copy k (moved_key from to k) rs ≡ true) × AllCopied from to items rs

abbrev deletes_in : Fs → List (List Text)
deletes_in s = deletes s.requests

promote-requests :
    (g : Config) (w : World) (r : Report) (s : Fs) → (promote g w r s).requests ≡ s.requests
unfolding promote
promote-requests g w r s =
    elim (Option-cases (present_attr (Attrs.get w.now (path_of g.prefix r.key) s.attrs).0)) [
      | inl h ↦ rw (promote, h)
      | inr (a, h) ↦ rw (promote, h)
    ]

on_uploaded-requests :
    (g : Config) (w : World) (r : Report) (s : Fs) → (on_uploaded g w r s).requests ≡ s.requests
unfolding on_uploaded clear_pending
on_uploaded-requests g w r s = elim (Bool-cases r.created) [
  | inl h ↦ simp (h) (promote-requests g w r s)
  | inr h ↦ simp (h) (promote-requests g w r s)
]

after_flush-deletes :
    (g : Config) (w : World) (id : ℕ) (before s : Fs) (r : Option Report)
    → deletes_in (after_flush g w id before r s) ≡ deletes_in s
unfolding after_flush deletes
after_flush-deletes g w id before s none = refl
after_flush-deletes g w id before s (some r) = ap deletes (on_uploaded-requests g w r _)

flush-deletes : (g : Config) (w : World) (id : ℕ) → Keeps deletes_in (flush g w id)
unfolding flush
flush-deletes g w id s =
    bind-Keeps deletes_in (in_cache (flush_entry (options g w s) w.os.flush_file w.now id)) _
      (λ t. refl) (λ r t. after_flush-deletes g w id s t r) s

flush_under-deletes :
    (g : Config) (w : World) (prefix : Text) (ks : List Text)
    → Keeps deletes_in (flush_under g w prefix ks)
unfolding flush_under
flush_under-deletes g w prefix [] s = refl
flush_under-deletes g w prefix (k ∷ ks) s = elim (Bool-cases (has_prefix k prefix)) [
  | inl h ↦ elim (Option-cases (lookup k s.cache.table)) [
    | inl e ↦ rw (flush_under, h, e) (flush_under-deletes g w prefix ks s)
    | inr (id, e) ↦
        rw (flush_under, h, e)
          (bind-Keeps deletes_in (flush g w id) (λ _. flush_under g w prefix ks)
            (flush-deletes g w id) (λ _. flush_under-deletes g w prefix ks) s)
  ]
  | inr h ↦ rw (flush_under, h) (flush_under-deletes g w prefix ks s)
]

or_true : (b : Bool) → (b || true) ≡ true
or_true true = refl
or_true false = refl

-- What is copied stays copied.
has_copy-later :
    (src dst : Text) (r : Request) (rs : List Request)
    → has_copy src dst rs ≡ true
    → has_copy src dst (r ∷ rs) ≡ true
unfolding has_copy
has_copy-later src dst (put_request k body meta) rs h = h
has_copy-later src dst (copy_request a b meta) rs h =
    rw h (or_true (text_eq a src && text_eq b dst))
has_copy-later src dst (delete_request k) rs h = h
has_copy-later src dst (delete_all_request ks) rs h = h

AllCopied-later :
    (from to : Text) (items : List (Text × ℕ)) (r : Request) (rs : List Request)
    → AllCopied from to items rs
    → AllCopied from to items (r ∷ rs)
unfolding AllCopied
AllCopied-later from to [] r rs h = tt
AllCopied-later from to ((k, size) ∷ items) r rs (h, more) =
    (has_copy-later k (moved_key from to k) r rs h, AllCopied-later from to items r rs more)

note_batches-AllCopied :
    (from to : Text) (items : List (Text × ℕ)) (bs : List (List Text)) (s : Fs)
    → AllCopied from to items s.requests
    → AllCopied from to items (note_batches bs s).requests
unfolding note_batches
note_batches-AllCopied from to items [] s h = h
note_batches-AllCopied from to items (b ∷ bs) s h =
    note_batches-AllCopied from to items bs (note_request (delete_all_request b) s)
      (AllCopied-later from to items (delete_all_request b) s.requests h)

-- A copy either fails or is noted.
copy_object-cases :
    (g : Config) (w : World) (src dst : Text) (size : ℕ) (s : Fs)
    → (copy_object g w src dst size none s ≡ (done tt, note_request (copy_request src dst none) s))
      ⊎ ((err : Error) × (copy_object g w src dst size none s ≡ (failed err, s)))
unfolding copy_object
copy_object-cases g w src dst size s =
    elim (Option-cases (copy (w.bucket.on_copy s.requests src dst) g.part_size size)) [
      | inl e ↦ inl (rw (copy_object, e))
      | inr (err, e) ↦ inr (err, rw (copy_object, e))
    ]

copy_object-deletes :
    (g : Config) (w : World) (src dst : Text) (size : ℕ)
    → Keeps deletes_in (copy_object g w src dst size none)
unfolding deletes
copy_object-deletes g w src dst size s = elim (copy_object-cases g w src dst size s) [
  | inl e ↦ ap (λ r. deletes_in r.1) e
  | inr (err, e) ↦ ap (λ r. deletes_in r.1) e
]

copy_each-deletes :
    (g : Config) (w : World) (from to : Text) (items : List (Text × ℕ))
    → Keeps deletes_in (copy_each g w from to items)
unfolding copy_each
copy_each-deletes g w from to [] s = refl
copy_each-deletes g w from to ((k, size) ∷ items) s =
    copy_each-deletes g w from to items (copy_object g w k (moved_key from to k) size none s).1
    ∙ copy_object-deletes g w k (moved_key from to k) size s

copy_each-keeps_copy :
    (g : Config) (w : World) (from to src dst : Text) (items : List (Text × ℕ)) (s : Fs)
    → has_copy src dst s.requests ≡ true
    → has_copy src dst (copy_each g w from to items s).1.requests ≡ true
unfolding copy_each
copy_each-keeps_copy g w from to src dst [] s h = h
copy_each-keeps_copy g w from to src dst ((k, size) ∷ items) s h =
    copy_each-keeps_copy g w from to src dst items
      (copy_object g w k (moved_key from to k) size none s).1
      (elim (copy_object-cases g w k (moved_key from to k) size s) [
        | inl e ↦
            rw e (has_copy-later src dst (copy_request k (moved_key from to k) none) s.requests h)
        | inr (err, e) ↦ rw e h
      ])

copy_each-AllCopied :
    (g : Config) (w : World) (from to : Text) (items : List (Text × ℕ)) (s : Fs)
    → (copy_each g w from to items s).0 ≡ done tt
    → AllCopied from to items (copy_each g w from to items s).1.requests
unfolding copy_each AllCopied has_copy
copy_each-AllCopied g w from to [] s h = tt
copy_each-AllCopied g w from to ((k, size) ∷ items) s h =
    let to_key = moved_key from to k in
    let first = copy_object g w k to_key size none s in
    elim (copy_object-cases g w k to_key size s) [
      | inl e ↦
          let now : has_copy k to_key first.1.requests ≡ true =
            rw (e, text_eq_refl k, text_eq_refl to_key) in
          let after : (copy_each g w from to items first.1).0 ≡ done tt =
            sym (
              ap
                (λ (x : Outcome (Unit {0}) × Fs).
                  first_failure x.0 (copy_each g w from to items first.1).0)
                e)
            ∙ h in
          (
            copy_each-keeps_copy g w from to k to_key items first.1 now,
            copy_each-AllCopied g w from to items first.1 after,
          )
      | inr (err, e) ↦
          let bad : failed err ≡ done tt =
            sym (
              ap
                (λ (x : Outcome (Unit {0}) × Fs).
                  first_failure x.0 (copy_each g w from to items first.1).0)
                e)
            ∙ h in
          cc
    ]

objects_under-state : (w : World) (prefix : Text) (s : Fs) → (objects_under w prefix s).1 ≡ s
unfolding objects_under
objects_under-state w prefix s =
    elim (Option-cases (list_all collect 0 (w.bucket.on_list_all s.requests prefix) []).1) [
      | inl e ↦ rw (objects_under, e)
      | inr (err, e) ↦ rw (objects_under, e)
    ]

rename_each-requests :
    (g : Config) (w : World) (from to : Text) (items : List (Text × ℕ)) (s : Fs)
    → (rename_each g w from to items s).requests ≡ s.requests
unfolding rename_each
rename_each-requests g w from to [] s = refl
rename_each-requests g w from to ((k, size) ∷ items) s =
    rename_each-requests g w from to items (rename_entry g w k (moved_key from to k) s)

-- The end of `renameDir` leaves what has been copied.
finish-AllCopied :
    (g : Config) (w : World) (old new from to : Text) (keys : List Text) (items : List (Text × ℕ))
    (s : Fs)
    → AllCopied from to items s.requests
    → AllCopied from to items
        ((delete_keys w keys >> modify (λ t. moved_dir old new (rename_each g w from to items t)))
          s).1.requests
unfolding delete_keys moved_dir clear_pending_prefix
finish-AllCopied g w old new from to keys items s h =
    let d = delete_multi (w.bucket.on_delete_all s.requests) keys in
    elim (Option-cases d.error) [
      | inl e ↦
          rw (delete_keys, e)
            (subst (AllCopied from to items)
              (sym (rename_each-requests g w from to items (note_batches d.batches s)))
              (note_batches-AllCopied from to items d.batches s h))
      | inr (err, e) ↦
          rw (delete_keys, e) (note_batches-AllCopied from to items (all_but_last d.batches) s h)
    ]

-- `renameDir` deletes nothing, unless it has first copied every object that it found.
pub rename_dir-copies_first :
    (g : Config) (w : World) (old new : Text) (s : Fs)
    → (deletes (rename_dir g w old new s).1.requests ≡ deletes s.requests)
      ⊎ ((items : List (Text × ℕ)) × ((objects_under w
              (dir_key g.prefix old)
              (flush_under g w
                (dir_key g.prefix old)
                (dirty_keys s.cache.store s.cache.table)
                s).1).0
            ≡ done items)
          × AllCopied
              (dir_key g.prefix old)
              (dir_key g.prefix new)
              items
              (rename_dir g w old new s).1.requests)
unfolding rename_dir
rename_dir-copies_first g w old new s =
    let from = dir_key g.prefix old in
    let to = dir_key g.prefix new in
    let flushing = flush_under g w from (dirty_keys s.cache.store s.cache.table) in
    let s1 = (flushing s).1 in
    let s2 = (objects_under w from s1).1 in
    let d1 : deletes_in s1 ≡ deletes_in s = flush_under-deletes g w from _ s in
    let d2 : deletes_in s2 ≡ deletes_in s = ap deletes_in (objects_under-state w from s1) ∙ d1 in
    let P : Fs → Type 0 = λ t.
      (deletes_in t ≡ deletes_in s)
      ⊎ ((items : List (Text × ℕ)) × ((objects_under w from s1).0 ≡ done items)
          × AllCopied from to items t.requests) in
    after_bind _ P flushing s (λ err e. inl d1)
      (λ u e.
        after_bind _ P (objects_under w from) s1 (λ err e. inl d2)
          (λ items found.
            after_bind
              (λ _.
                delete_keys w (map (λ i. i.0) items)
                >> modify (λ s'. moved_dir old new (rename_each g w from to items s')))
              P (copy_each g w from to items) s2
              (λ err e. inl (copy_each-deletes g w from to items s2 ∙ d2))
              (λ u' e. inr (
                items,
                found,
                finish-AllCopied g w old new from to _ items _
                    (copy_each-AllCopied g w from to items s2 (e ∙ ap done refl)),
              ))))
