-- ===== src/Config/Settings/Bounds.antt =====
-- What `Validate` guarantees of the settings that it accepts.
use remote_s3_bucket_plugin.Table.{Text, text_eq}
use remote_s3_bucket_plugin.Config.Source.{is_empty}
use remote_s3_bucket_plugin.Config.Settings.{
  Settings, attr_full, attr_fast, Environment, cache_base, cache_name, default_cache_dir,
  SettingsError, at_least_one, normalize, refuse_settings, valid, invalid, validate,
}
use remote_s3_bucket_plugin.Prelude.{
  ◌≡◌, refl, sym, ap, subst, ◌∙◌, inl, inr, true, false, ◌||◌, none, some, [], ◌∷◌, ◌++◌,
  Bool-cases, Option-cases, check_passed, not-false, set, codes, leb_ℤ, ℤ, pos,
}

-- Blocks of 64 KiB and parts of 5 MiB at least, a worker for each kind of work, and no name missing.
pub record IsSound (g : Settings) : Type 0 where
  pub bucket : is_empty g.bucket ≡ false
  pub mountpoint : is_empty g.mountpoint ≡ false
  pub attr_mode : (text_eq g.attr_mode attr_full || text_eq g.attr_mode attr_fast) ≡ true
  pub block_size : leb_ℤ (pos 65536) g.block_size ≡ true
  pub part_size : leb_ℤ (pos 5242880) g.part_size ≡ true
  pub attr_workers : leb_ℤ (pos 1) g.attr_workers ≡ true
  pub upload_concurrency : leb_ℤ (pos 1) g.upload_concurrency ≡ true
  pub upload_workers : leb_ℤ (pos 1) g.upload_workers ≡ true
  pub cache_dir : is_empty g.cache_dir ≡ false

at_least_one_lem : (n : ℤ) → leb_ℤ (pos 1) (at_least_one n) ≡ true
unfolding at_least_one
at_least_one_lem n = elim (Bool-cases (leb_ℤ (pos 1) n)) [
  | inl big ↦ rw big big
  | inr small ↦ rw small refl
]

at_least_one_twice : (n : ℤ) → at_least_one (at_least_one n) ≡ at_least_one n
unfolding at_least_one
at_least_one_twice n = elim (Bool-cases (leb_ℤ (pos 1) n)) [
  | inl big ↦ rw (big, big) refl
  | inr small ↦ rw small refl
]

inside : (a b : Text) → is_empty b ≡ false → is_empty (a ++ b) ≡ false
inside [] b h = h
inside (y ∷ a) b h = refl

default_cache_dir-named :
    (env : Environment) (b p : Text) → is_empty (default_cache_dir env b p) ≡ false
unfolding default_cache_dir
default_cache_dir-named env b p = inside (cache_base env) (codes "/s3disk/" ++ cache_name b p) refl

cache_dir_set : (env : Environment) (g : Settings) → is_empty (normalize env g).cache_dir ≡ false
unfolding normalize
cache_dir_set env g = elim (Bool-cases (is_empty g.cache_dir)) [
  | inl unset ↦ rw unset (default_cache_dir-named env g.bucket g.prefix)
  | inr set ↦ rw set set
]

pub accepted-IsSound :
    (env : Environment) (g : Settings) → refuse_settings g ≡ none → IsSound (normalize env g)
unfolding refuse_settings normalize
accepted-IsSound env g h =
    let (bucket, h1) = check_passed _ _ _ h in
    let (mountpoint, h2) = check_passed _ _ _ h1 in
    let (attr_mode, h3) = check_passed _ _ _ h2 in
    let (block_size, h4) = check_passed _ _ _ h3 in
    let (part_size, h5) = check_passed _ _ _ h4 in
    record {
      bucket = bucket;
      mountpoint = mountpoint;
      attr_mode = not-false _ attr_mode;
      block_size = not-false _ block_size;
      part_size = not-false _ part_size;
      attr_workers = at_least_one_lem g.attr_workers;
      upload_concurrency = at_least_one_lem g.upload_concurrency;
      upload_workers = at_least_one_lem g.upload_workers;
      cache_dir = cache_dir_set env g;
    }

normalize_twice :
    (env : Environment) (g : Settings) → normalize env (normalize env g) ≡ normalize env g
unfolding normalize
normalize_twice env g = simp (
  at_least_one_twice g.attr_workers,
  at_least_one_twice g.upload_concurrency,
  at_least_one_twice g.upload_workers,
  cache_dir_set env g,
)

pub validate-accepted :
    (env : Environment) (g : Settings)
    → refuse_settings g ≡ none
    → validate env g ≡ valid (normalize env g)
unfolding validate
validate-accepted env g h = rw (h, validate) refl

pub validate-refused :
    (env : Environment) (g : Settings) (err : SettingsError)
    → refuse_settings g ≡ some err
    → validate env g ≡ invalid err
unfolding validate
validate-refused env g err h = rw (h, validate) refl

same_checks :
    (env : Environment) (g : Settings) → refuse_settings (normalize env g) ≡ refuse_settings g
unfolding refuse_settings normalize
same_checks env g = refl

validate-normalize :
    (env : Environment) (g : Settings)
    → refuse_settings g ≡ none
    → IsSound (normalize env g) × (validate env (normalize env g) ≡ valid (normalize env g))
validate-normalize env g h = (
  accepted-IsSound env g h,
  validate-accepted env (normalize env g) (same_checks env g ∙ h)
      ∙ ap valid (normalize_twice env g),
)

-- The settings that `Validate` accepts are sound, and accepted again as they are.
pub validate-IsSound :
    (env : Environment) (g g' : Settings)
    → validate env g ≡ valid g'
    → IsSound g' × (validate env g' ≡ valid g')
validate-IsSound env g g' h = elim (Option-cases (refuse_settings g)) [
  | inr (err, refused) ↦
      let bad : invalid err ≡ valid g' = sym (validate-refused env g err refused) ∙ h in
      let wrong : ⊥ = cc in absurd wrong
  | inl accepted ↦
      let found : valid (normalize env g) ≡ valid g' = sym (validate-accepted env g accepted) ∙ h in
      let is : normalize env g ≡ g' = cc in
      subst (λ x. IsSound x × (validate env x ≡ valid x)) is (validate-normalize env g accepted)
]
