-- ===== src/Fs/Quiet.antt =====
-- What does not change the bucket: the requests that it took stay as they are.
pub mod Listing
use remote_s3_bucket_plugin.Table.{Text}
use remote_s3_bucket_plugin.Attrs
use remote_s3_bucket_plugin.Attrs.{Attr, AttrCache}
use remote_s3_bucket_plugin.Entry.{
  Error, eof, negative_size, short_read, not_found, cancelled, timed_out, os_error, s3_error,
  Outcome, done, failed,
}
use remote_s3_bucket_plugin.Entry.Upload.{flush as flush_entry_file}
use remote_s3_bucket_plugin.Cache.{on_entry, lookup_entry}
use remote_s3_bucket_plugin.Cache.Writeback.{flush_entry}
use remote_s3_bucket_plugin.Paths.{trim_prefix, is_top, key, dir_key}
use remote_s3_bucket_plugin.Objects.{list_all}
use remote_s3_bucket_plugin.Config.{Config}
use remote_s3_bucket_plugin.Fs.{World, Fs, M, ◌>>=◌, resume, get_attr, put_negative}
use remote_s3_bucket_plugin.Fs.Stat.{
  stat, stat_local, stat_bucket, probe_dir, settle, head_object, probe, known_absent,
}
use remote_s3_bucket_plugin.Fs.Upload.{flush, options}
use remote_s3_bucket_plugin.Prelude.{
  ℕ, ◌≡◌, refl, ap, ◌∙◌, ◌⊎◌, inl, inr, true, false, not, Option, none, some, [], ◌∷◌,
  if◌then◌else◌, Bool-cases, Option-cases,
}

abbrev pub Quiet : {A : Type 0} → M A → Type 0
Quiet m = (s : Fs) → (m s).1.requests ≡ s.requests

-- What an operation does not change.
abbrev pub Keeps : {A X : Type 0} → (Fs → X) → M A → Type 0
Keeps part m = (s : Fs) → part (m s).1 ≡ part s

module _ {A B X : Type 0} (part : Fs → X) where
  resume-Keeps :
      (f : A → M B) → ((a : A) → Keeps part (f a)) → (r : Outcome A) → Keeps part (resume f r)
  resume-Keeps f q (done a) s = q a s
  resume-Keeps f q (failed err) s = refl

  pub bind-Keeps :
      (m : M A) (f : A → M B) → Keeps part m → ((a : A) → Keeps part (f a)) → Keeps part (m >>= f)
  bind-Keeps m f q r s = resume-Keeps f r (m s).0 (m s).1 ∙ q s

-- What holds of the state after both results of the first operation.
module _ {A B : Type 0} (f : A → M B) (P : Fs → Type 0) where
  after_result :
      (r : Outcome A) (s : Fs)
      → ((err : Error) → r ≡ failed err → P s)
      → ((a : A) → r ≡ done a → P (f a s).1)
      → P (resume f r s).1
  after_result (done a) s stop go = go a refl
  after_result (failed err) s stop go = stop err refl

  pub after_bind :
      (m : M A) (s : Fs)
      → ((err : Error) → (m s).0 ≡ failed err → P (m s).1)
      → ((a : A) → (m s).0 ≡ done a → P (f a (m s).1).1)
      → P ((m >>= f) s).1
  after_bind m s stop go = after_result (m s).0 (m s).1 stop go

pub bind-Quiet :
    {A B : Type 0} (m : M A) (f : A → M B) → Quiet m → ((a : A) → Quiet (f a)) → Quiet (m >>= f)
bind-Quiet m f = bind-Keeps (λ s. s.requests) m f

pub Outcome-cases :
    {A : Type 0} (r : Outcome A) → ((a : A) × (r ≡ done a)) ⊎ ((err : Error) × (r ≡ failed err))
Outcome-cases (done a) = inl (a, refl)
Outcome-cases (failed err) = inr (err, refl)

pub probe_dir-state : (g : Config) (w : World) (p : Text) (s : Fs) → (probe_dir g w p s).1 ≡ s
unfolding probe_dir
probe_dir-state g w p s =
    elim (Option-cases
      (list_all (probe (dir_key g.prefix p)) 2
        (w.bucket.on_list_all s.requests (dir_key g.prefix p)) (false, false)).1) [
          | inl e ↦ rw (probe_dir, e)
          | inr (err, e) ↦ rw (probe_dir, e)
        ]

-- `stat` changes nothing but the attribute cache.
module _ {X : Type 0} (part : Fs → X)
    (stays : (c : AttrCache) (s : Fs) → part (record s { attrs = c }) ≡ part s) where
  settle-Keeps : (w : World) (p : Text) (a : Option Attr) → Keeps part (settle w p a)
  unfolding settle
  settle-Keeps w p none s = stays _ s
  settle-Keeps w p (some a) s = stays _ s

  stat_bucket-Keeps : (g : Config) (w : World) (p : Text) → Keeps part (stat_bucket g w p)
  unfolding stat_bucket
  stat_bucket-Keeps g w p s =
      let directory : part ((probe_dir g w p >>= settle w p) s).1 ≡ part s =
        bind-Keeps part (probe_dir g w p) (settle w p) (λ t. ap part (probe_dir-state g w p t))
          (settle-Keeps w p) s in
      elim (Outcome-cases (head_object w (key g.prefix p) s).0) [
        | inl (o, e) ↦ rw (stat_bucket, e) (stays _ s)
        | inr (not_found, e) ↦ rw (stat_bucket, e) directory
        | inr (eof, e) ↦ rw (stat_bucket, e)
        | inr (negative_size, e) ↦ rw (stat_bucket, e)
        | inr (short_read, e) ↦ rw (stat_bucket, e)
        | inr (cancelled, e) ↦ rw (stat_bucket, e)
        | inr (timed_out, e) ↦ rw (stat_bucket, e)
        | inr (os_error n, e) ↦ rw (stat_bucket, e)
        | inr (s3_error n, e) ↦ rw (stat_bucket, e)
      ]

  stat_local-Keeps : (g : Config) (w : World) (p : Text) → Keeps part (stat_local g w p)
  unfolding stat_local
  stat_local-Keeps g w p s = elim (Option-cases (lookup_entry (key g.prefix p) s.cache)) [
    | inl e ↦ rw (stat_local, e) (stat_bucket-Keeps g w p s)
    | inr (x, e) ↦ elim (Bool-cases x.dirty) [
      | inl d ↦ rw (stat_local, e, d) (stays _ s)
      | inr d ↦ rw (stat_local, e, d) (stat_bucket-Keeps g w p s)
    ]
  ]

  absent_or_local :
      (g : Config) (w : World) (p : Text) (s : Fs)
      → part
          (if known_absent g w p s
            then (failed (os_error 2), put_negative w p s)
            else stat_local g w p s).1
        ≡ part s
  absent_or_local g w p s = elim (Bool-cases (known_absent g w p s)) [
    | inl e ↦ rw e (stays _ s)
    | inr e ↦ rw e (stat_local-Keeps g w p s)
  ]

  pub stat-Keeps : (g : Config) (w : World) (path : Text) → Keeps part (stat g w path)
  unfolding stat
  stat-Keeps g w path s =
      let p = trim_prefix path (47 ∷ []) in
      elim (Bool-cases (is_top p)) [
        | inl top ↦ rw (stat, top)
        | inr top ↦ elim (Option-cases (Attrs.get w.now p s.attrs).0) [
          | inl e ↦ rw (stat, top, e) (absent_or_local g w p (get_attr w p s).1 ∙ stays _ s)
          | inr ((none, b), e) ↦ rw (stat, top, e) (stays _ s)
          | inr ((some a, true), e) ↦ rw (stat, top, e) (stays _ s)
          | inr ((some a, false), e) ↦ rw (stat, top, e) (stays _ s)
        ]
      ]

pub stat-Quiet : (g : Config) (w : World) (path : Text) → Quiet (stat g w path)
stat-Quiet g w path = stat-Keeps (λ s. s.requests) (λ c s. refl) g w path

pub flush-Quiet : (g : Config) (w : World) (id : ℕ) → g.read_only ≡ true → Quiet (flush g w id)
unfolding flush options flush_entry on_entry flush_entry_file
flush-Quiet g w id ro s = rw (flush, options, flush_entry, on_entry, flush_entry_file, ro)
