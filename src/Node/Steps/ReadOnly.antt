-- ===== src/Node/Steps/ReadOnly.antt =====
-- A read-only mount never changes the bucket.
use remote_s3_bucket_plugin.Table.{Text, text_eq}
use remote_s3_bucket_plugin.Paths.{join, key}
use remote_s3_bucket_plugin.Attrs.Meta.{is_link, is_dir, file_type, reg_bits}
use remote_s3_bucket_plugin.Attrs.{Attr}
use remote_s3_bucket_plugin.Entry.{Outcome, done, untouched}
use remote_s3_bucket_plugin.Entry.Access.{read_at}
use remote_s3_bucket_plugin.Cache.{on_entry}
use remote_s3_bucket_plugin.Config.{Config}
use remote_s3_bucket_plugin.Fs.{World, Fs, M, writable, in_cache, refresh}
use remote_s3_bucket_plugin.Fs.Upload.{flush, options}
use remote_s3_bucket_plugin.Fs.Stat.{stat}
use remote_s3_bucket_plugin.Fs.Quiet.{Quiet, bind-Quiet, stat-Quiet, flush-Quiet, Outcome-cases}
use remote_s3_bucket_plugin.Fs.Quiet.Listing.{list_dir-Quiet}
use remote_s3_bucket_plugin.Node.{count_op}
use remote_s3_bucket_plugin.Node.Attributes.{get_attr, set_attr, statfs, open_file}
use remote_s3_bucket_plugin.Node.Files.{
  open_path, open_found, open_empty, create, mknod, read, write, flush_file, fsync, release,
  create_entry, has_flag, o_trunc, write_flags, eof_is_empty,
}
use remote_s3_bucket_plugin.Node.Names.{
  lookup_name, readdir, mkdir, rmdir, unlink, symlink, readlink, rename, fetch_link, read_link,
}
use remote_s3_bucket_plugin.Node.Steps.{
  Event, after, Reaches, stay, step, on_lookup, on_getattr, on_setattr, on_readdir, on_open,
  on_create, on_mknod, on_read, on_write, on_flush, on_fsync, on_release, on_mkdir, on_rmdir,
  on_unlink, on_symlink, on_readlink, on_rename, on_statfs, on_refresh, on_background_flush,
  on_evict,
}
use remote_s3_bucket_plugin.Prelude.{
  ℕ, ◌≡◌, refl, ◌∙◌, inl, inr, Bool, true, false, not, ◌&&◌, none, some, [], ◌==◌, if◌then◌else◌,
  Bool-cases,
}

-- What both branches of a test keep, the test keeps.
either :
    {A : Type 0} (s : Fs) (b : Bool) (x y : Outcome A × Fs)
    → x.1.requests ≡ s.requests
    → y.1.requests ≡ s.requests
    → (if b then x else y).1.requests ≡ s.requests
either s true x y p q = p
either s false x y p q = q

either_Quiet : {A : Type 0} (b : Bool) (m k : M A) → Quiet m → Quiet k → Quiet (if b then m else k)
either_Quiet true m k p q = p
either_Quiet false m k p q = q

open_empty-Quiet : (g : Config) (w : World) (p : Text) (a : Attr) → Quiet (open_empty g w p a)
unfolding open_empty
open_empty-Quiet g w p a = bind-Quiet (create_entry g w p) _ (λ s. refl) (λ id s. refl)

open_found-Quiet :
    (g : Config) (w : World) (p : Text) (flags : ℕ) (a : Attr) → Quiet (open_found g w p flags a)
unfolding open_found open_file
open_found-Quiet g w p flags a s = elim (Bool-cases (is_dir a)) [
  | inl e ↦ rw (open_found, e)
  | inr e ↦ elim (Bool-cases (has_flag flags o_trunc)) [
    | inl h ↦
        rw (open_found, e, h)
          (bind-Quiet (open_empty g w p a) _ (open_empty-Quiet g w p a) (λ id t. refl) s)
    | inr h ↦ rw (open_found, e, h) (bind-Quiet (open_file g w p a) _ (λ t. refl) (λ id t. refl) s)
  ]
]

fetch_link-Quiet : (g : Config) (w : World) (p : Text) (a : Attr) → Quiet (fetch_link g w p a)
unfolding fetch_link
fetch_link-Quiet g w p a s =
    elim (Outcome-cases (w.bucket.on_get_all s.requests (key g.prefix p))) [
      | inl (body, e) ↦ rw (fetch_link, e)
      | inr (err, e) ↦ rw (fetch_link, e)
    ]

read_link-Quiet : (g : Config) (w : World) (p : Text) (a : Attr) → Quiet (read_link g w p a)
unfolding read_link
read_link-Quiet g w p a s = elim (Bool-cases (is_link a)) [
  | inl e ↦ elim (Bool-cases (text_eq a.symlink [])) [
    | inl h ↦ rw (read_link, e, h) (fetch_link-Quiet g w p a s)
    | inr h ↦ rw (read_link, e, h)
  ]
  | inr e ↦ rw (read_link, e)
]

module _ (g : Config) (w : World) (ro : g.read_only ≡ true) where
  after-Quiet : (e : Event) (s : Fs) → (after g w e s).requests ≡ s.requests
  unfolding after lookup_name get_attr set_attr readdir create write mkdir rmdir unlink symlink
      readlink rename statfs refresh fsync open_path read flush_file release mknod writable
  after-Quiet (on_lookup dir name) s =
      bind-Quiet (stat g w (join dir name)) _ (stat-Quiet g w (join dir name)) (λ a t. refl)
        (count_op s)
  after-Quiet (on_getattr p none) s =
      bind-Quiet (stat g w p) _ (stat-Quiet g w p) (λ a t. refl) (count_op s)
  after-Quiet (on_getattr p (some h)) s =
      bind-Quiet (stat g w h.path) _ (stat-Quiet g w h.path) (λ a t. refl) (count_op s)
  after-Quiet (on_setattr p fh i) s = rw (after, ro)
  after-Quiet (on_readdir p) s = list_dir-Quiet g w p (count_op s)
  after-Quiet (on_open p flags) s = elim (Bool-cases (has_flag flags write_flags)) [
    | inl h ↦ rw (after, open_path, h) rw (after, ro)
    | inr h ↦
        rw (after, open_path, h)
          (bind-Quiet (stat g w p) (open_found g w p flags) (stat-Quiet g w p)
            (open_found-Quiet g w p flags) (count_op s))
  ]
  after-Quiet (on_create dir name flags mode) s = rw (after, ro)
  after-Quiet (on_mknod dir name mode) s =
      elim (Bool-cases (not (file_type mode == reg_bits) && not (file_type mode == 0))) [
        | inl h ↦ rw (after, mknod, h)
        | inr h ↦ rw (after, mknod, h) rw (after, ro)
      ]
  after-Quiet (on_read none n off) s = refl
  after-Quiet (on_read (some h) n off) s =
      bind-Quiet
        (λ t. (
          eof_is_empty
              (in_cache (on_entry h.entry (read_at (options g w s) w.os.read_file w.now n off))
                (count_op s)).0,
          t,
        ))
        _ (λ t. refl) (λ bytes t. refl)
        (in_cache (on_entry h.entry (read_at (options g w s) w.os.read_file w.now n off))
          (count_op s)).1
  after-Quiet (on_write none bytes off) s = rw (after, ro)
  after-Quiet (on_write (some h) bytes off) s = rw (after, ro)
  after-Quiet (on_flush none) s = refl
  after-Quiet (on_flush (some h)) s =
      either s (untouched (s.cache.store h.entry)) (done tt, count_op s)
        (if g.async_writeback then (done tt, count_op s) else flush g w h.entry (count_op s)) refl
        (either s g.async_writeback (done tt, count_op s) (flush g w h.entry (count_op s)) refl
          (flush-Quiet g w h.entry ro (count_op s)))
  after-Quiet (on_fsync none) s = refl
  after-Quiet (on_fsync (some h)) s = flush-Quiet g w h.entry ro s
  after-Quiet (on_release none) s = refl
  after-Quiet (on_release (some h)) s =
      either_Quiet g.async_writeback (λ t. (done tt, t)) (flush g w h.entry) (λ t. refl)
        (flush-Quiet g w h.entry ro) s
  after-Quiet (on_mkdir dir name mode) s = rw (after, ro)
  after-Quiet (on_rmdir dir name) s = rw (after, ro)
  after-Quiet (on_unlink dir name) s = rw (after, ro)
  after-Quiet (on_symlink dir target name) s = rw (after, ro)
  after-Quiet (on_readlink p) s =
      bind-Quiet (stat g w p) (read_link g w p) (stat-Quiet g w p) (read_link-Quiet g w p)
        (count_op s)
  after-Quiet (on_rename dir name parent new_name flags) s = rw (after, ro)
  after-Quiet on_statfs s = refl
  after-Quiet on_refresh s = refl
  after-Quiet (on_background_flush id) s = flush-Quiet g w id ro s
  after-Quiet (on_evict io) s = refl

-- A read-only mount never changes the bucket, whatever the kernel asks of it, whatever the bucket, the
-- operating system and the clock answer, and whatever the cache does by itself.
pub reaches-ReadOnly :
    (g : Config) (s t : Fs) → g.read_only ≡ true → Reaches g s t → t.requests ≡ s.requests
reaches-ReadOnly g s t ro stay = refl
reaches-ReadOnly g s t ro (step r w e) = after-Quiet g w ro e _ ∙ reaches-ReadOnly g s _ ro r
