-- ===== src/Node/Emptied.antt =====
-- `Rmdir` removes only what is empty.
use remote_s3_bucket_plugin.Table.{Text, text_eq}
use remote_s3_bucket_plugin.Paths.{join, dir_key}
use remote_s3_bucket_plugin.Attrs.{Attr}
use remote_s3_bucket_plugin.Attrs.Meta.{is_dir}
use remote_s3_bucket_plugin.Entry.{Error, Outcome, done, failed, os_error}
use remote_s3_bucket_plugin.Config.{Config}
use remote_s3_bucket_plugin.Objects.{
  Item, Pages, refused_page, last_page, more_pages, visit, list_loop, list_all,
}
use remote_s3_bucket_plugin.Fs.{
  World, Fs, M, ◌>>=◌, ◌>>◌, fail, modify, writable, enotdir, enotempty, pending_in, names_in,
}
use remote_s3_bucket_plugin.Fs.Stat.{stat}
use remote_s3_bucket_plugin.Fs.Listing.{only_marker, dir_empty}
use remote_s3_bucket_plugin.Fs.Rename.{delete_object}
use remote_s3_bucket_plugin.Fs.Quiet.{stat-Keeps}
use remote_s3_bucket_plugin.Node.{ok, count_op}
use remote_s3_bucket_plugin.Node.Names.{rmdir, forget_directory}
use remote_s3_bucket_plugin.Node.Created.{bind_done, reply_ok, writable_done, done_inj}
use remote_s3_bucket_plugin.Prelude.{
  ℕ, ◌+◌, ◌≡◌, refl, sym, ap, subst, ◌∙◌, inl, inr, Bool, true, false, not, ◌&&◌, Option, none,
  List, [], ◌∷◌, ◌==◌, bit_and, if◌then◌else◌, ==_iff, Bool-cases, Option-cases, length,
}

-- Every object of the listing is the marker, and no request of it failed.
AllMarker : Text → List Item → Type 0
AllMarker marker [] = Unit {0}
AllMarker marker (o ∷ os) = (text_eq o.key marker ≡ true) × AllMarker marker os

unfoldable pub OnlyMarker : Text → Pages → Type 0
unfolding AllMarker
OnlyMarker marker (refused_page err) = ⊥
OnlyMarker marker (last_page p) = AllMarker marker p.contents
OnlyMarker marker (more_pages p ps) = AllMarker marker p.contents × OnlyMarker marker ps

module _ (marker : Text) where
  abbrev seen : List Item → ℕ → Bool × ℕ × Bool
  seen os n = visit (only_marker marker) 0 os n true

  seen_marker :
      (o : Item) (os : List Item) (n : ℕ)
      → text_eq o.key marker ≡ true
      → seen (o ∷ os) n ≡ seen os (n + 1)
  unfolding visit only_marker
  seen_marker o os n e = rw (visit, only_marker, e)

  seen_other :
      (o : Item) (os : List Item) (n : ℕ)
      → text_eq o.key marker ≡ false
      → seen (o ∷ os) n ≡ (false, n, false)
  unfolding visit only_marker
  seen_other o os n e = rw (visit, only_marker, e)

  -- The loop over a page goes on as long as it has seen nothing else.
  seen_more : (os : List Item) (n : ℕ) → (seen os n).0 ≡ (seen os n).2
  unfolding visit
  seen_more [] n = refl
  seen_more (o ∷ os) n = elim (Bool-cases (text_eq o.key marker)) [
    | inl e ↦ rw (seen_marker o os n e) (seen_more os (n + 1))
    | inr e ↦ rw (seen_other o os n e)
  ]

  seen-AllMarker : (os : List Item) (n : ℕ) → (seen os n).2 ≡ true → AllMarker marker os
  unfolding AllMarker
  seen-AllMarker [] n h = tt
  seen-AllMarker (o ∷ os) n h = elim (Bool-cases (text_eq o.key marker)) [
    | inl e ↦ (
      e,
      seen-AllMarker os (n + 1)
          (sym (ap (λ (r : Bool × ℕ × Bool). r.2) (seen_marker o os n e)) ∙ h),
    )
    | inr e ↦
        let bad : false ≡ true =
          sym (ap (λ (r : Bool × ℕ × Bool). r.2) (seen_other o os n e)) ∙ h in
        cc
  ]

  list_loop-OnlyMarker :
      (ps : Pages) (n : ℕ)
      → (list_loop (only_marker marker) 0 ps n true).0 ≡ true
      → (list_loop (only_marker marker) 0 ps n true).1 ≡ none
      → OnlyMarker marker ps
  unfolding list_loop OnlyMarker
  list_loop-OnlyMarker (refused_page err) n h fine = cc
  list_loop-OnlyMarker (last_page p) n h fine = seen-AllMarker p.contents n h
  list_loop-OnlyMarker (more_pages p ps) n h fine =
      let r = seen p.contents n in
      elim (Bool-cases r.2) [
        | inl e ↦
            let on : list_loop (only_marker marker) 0 (more_pages p ps) n true
                ≡ list_loop (only_marker marker) 0 ps r.1 true =
              rw (list_loop, seen_more p.contents n, e) in
            (
              seen-AllMarker p.contents n e,
              list_loop-OnlyMarker ps r.1 (sym (ap (λ (x : Bool × Option Error). x.0) on) ∙ h)
                  (sym (ap (λ (x : Bool × Option Error). x.1) on) ∙ fine),
            )
        | inr e ↦
            let off : list_loop (only_marker marker) 0 (more_pages p ps) n true ≡ (false, none) =
              rw (list_loop, seen_more p.contents n, e) in
            let bad : false ≡ true = sym (ap (λ (x : Bool × Option Error). x.0) off) ∙ h in cc
      ]

-- What a directory that `dirEmpty` finds empty is.
dir_empty-OnlyMarker :
    (g : Config) (w : World) (p : Text) (s : Fs)
    → (dir_empty g w p s).0 ≡ done true
    → OnlyMarker (dir_key g.prefix p) (w.bucket.on_list_all s.requests (dir_key g.prefix p))
      × (length (pending_in p s) ≡ 0)
unfolding dir_empty list_all
dir_empty-OnlyMarker g w p s h =
    let marker = dir_key g.prefix p in
    let ps = w.bucket.on_list_all s.requests marker in
    let r = list_loop (only_marker marker) 0 ps 0 true in
    elim (Option-cases r.1) [
      | inr (err, e) ↦
          let answer : (dir_empty g w p s).0 ≡ failed err = rw (dir_empty, list_all, e) in
          let bad : failed err ≡ done true = sym answer ∙ h in cc
      | inl e ↦
          let answer : (dir_empty g w p s).0 ≡ done (r.0 && length (pending_in p s) == 0) =
            rw (dir_empty, list_all, e) in
          let both : (r.0 && length (pending_in p s) == 0) ≡ true = done_inj (sym answer ∙ h) in
          let (found, local) = both_true r.0 (length (pending_in p s) == 0) both in
          (list_loop-OnlyMarker marker ps 0 found e, (==_iff (length (pending_in p s)) 0).0 local)
    ]
  where
    both_true : (a b : Bool) → (a && b) ≡ true → (a ≡ true) × (b ≡ true)
    both_true true b h = (refl, h)
    both_true false b h = cc

-- A branch that fails is not the one that succeeded.
other_branch :
    (b : Bool) (n : ℕ) (m : M (Unit {0})) (s : Fs)
    → ((if b then fail (os_error n) else m) s).0 ≡ done tt
    → b ≡ false
other_branch true n m s h = cc
other_branch false n m s h = refl

is_dir-bits : (a : Attr) → is_dir a ≡ true → bit_and a.mode 61440 ≡ 16384
unfolding is_dir
is_dir-bits a h = (==_iff (bit_and a.mode 61440) 16384).0 h

-- `Rmdir` succeeds only where the path's attributes, as `stat` answers them, have the type bits of a
-- directory (0o040000 under the mask 0o170000), and of which every page of the bucket's listing was answered and
-- holds no object but the marker, and in which no name is only local.
pub rmdir-OnlyMarker :
    (g : Config) (w : World) (dir name : Text) (s : Fs)
    → (rmdir g w dir name s).0 ≡ ok tt
    → OnlyMarker
        (dir_key g.prefix (join dir name))
        (w.bucket.on_list_all s.requests (dir_key g.prefix (join dir name)))
      × (length (pending_in (join dir name) s) ≡ 0)
      × ((a : Attr) × ((stat g w (join dir name) (count_op s)).0 ≡ done a)
          × (bit_and a.mode 61440 ≡ 16384))
unfolding rmdir
rmdir-OnlyMarker g w dir name s h =
    let p = join dir name in
    let marker = dir_key g.prefix p in
    let go : Bool → M (Unit {0}) = λ empty.
      if not empty
      then fail (os_error enotempty)
      else delete_object w marker >> modify (forget_directory w dir name) in
    let f : Attr → M (Unit {0}) =
      λ a. if not (is_dir a) then fail (os_error enotdir) else dir_empty g w p >>= go in
    let m = stat g w p in
    let s1 = (m (count_op s)).1 in
    let ok_body : (writable g (m >>= f) (count_op s)).0 ≡ done tt = reply_ok _ tt h in
    let allowed = writable_done g (m >>= f) (count_op s) tt ok_body in
    let (a, found, rest) =
      bind_done m f (count_op s) tt
        (sym (ap (λ (x : Outcome (Unit {0}) × Fs). x.0) allowed) ∙ ok_body) in
    let chosen : (f a s1).0 ≡ done tt =
      sym (ap (λ (x : Outcome (Unit {0}) × Fs). x.0) (allowed ∙ rest)) ∙ ok_body in
    let directory : not (is_dir a) ≡ false =
      other_branch (not (is_dir a)) enotdir (dir_empty g w p >>= go) s1 chosen in
    let listed : ((dir_empty g w p >>= go) s1).0 ≡ done tt =
      sym (
        ap (λ b. ((if b then fail (os_error enotdir) else (dir_empty g w p >>= go)) s1).0)
          directory)
      ∙ chosen in
    let (empty, answer, end) = bind_done (dir_empty g w p) go s1 tt listed in
    let last : (go empty (dir_empty g w p s1).1).0 ≡ done tt =
      sym (ap (λ (x : Outcome (Unit {0}) × Fs). x.0) end) ∙ listed in
    let full : not empty ≡ false =
      other_branch (not empty) enotempty
        (delete_object w marker >> modify (forget_directory w dir name)) _ last in
    let is_empty : (dir_empty g w p s1).0 ≡ done true = answer ∙ ap done (not-false empty full) in
    let (only, local) = dir_empty-OnlyMarker g w p s1 is_empty in
    (
      subst (λ log. OnlyMarker marker (w.bucket.on_list_all log marker))
          (stat-Keeps (λ t. t.requests) (λ c t. refl) g w p (count_op s)) only,
      ap (λ t. length (names_in p t))
            (sym (stat-Keeps (λ t. t.pending) (λ c t. refl) g w p (count_op s)))
          ∙ local,
      (a, found, is_dir-bits a (not-false (is_dir a) directory)),
    )
  where
    not-false : (b : Bool) → not b ≡ false → b ≡ true
    not-false true h = refl
    not-false false h = cc
