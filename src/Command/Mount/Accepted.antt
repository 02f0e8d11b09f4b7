-- ===== src/Command/Mount/Accepted.antt =====
-- What the settings of a mount that is served have passed.
use remote_s3_bucket_plugin.Bits.{bit_and-le_right}
use remote_s3_bucket_plugin.Table.{Text}
use remote_s3_bucket_plugin.Table.Laws.{some_inj, some_ne_none}
use remote_s3_bucket_plugin.Config.Source.{
  SourceError, Source, source, refused, is_empty, trim_space, parse_s3_url,
}
use remote_s3_bucket_plugin.Config.Values.{parse_octal, parse_mode, parse_size}
use remote_s3_bucket_plugin.Config.Settings.{Settings, Environment, normalize, refuse_settings}
use remote_s3_bucket_plugin.Config.Settings.Bounds.{
  IsSound, accepted-IsSound, validate-accepted, validate-refused,
}
use remote_s3_bucket_plugin.Command.Args.{Parsed, parsed, rejected, permute, parse}
use remote_s3_bucket_plugin.Command.Options.{apply_options}
use remote_s3_bucket_plugin.Command.Flags.{
  MountFlags, new_mount_flags, mount_flag_set, assign_all, explicit,
}
use remote_s3_bucket_plugin.Command.Mount.{
  Machine, fill_in, ◌>>=◌, owner_or, with_credentials, exclusive_ttl, finish, Exit, usage, fatal,
  serve, target, settle, with_options, with_target, with_words, after_parse, run_mount,
}
use remote_s3_bucket_plugin.Prelude.{
  ℕ, ◌-◌, ◌^◌, ◌<◌, bit_and, ◌≡◌, refl, sym, subst, ◌⊎◌, inl, inr, Bool, true, false, not, ◌&&◌,
  ◌||◌, Option, none, some, List, [], ◌∷◌, ◌++◌, arith, Bool-cases, Option-cases, set, codes,
}

-- Permission bits, with those of setuid, setgid and sticky.
pub record HasModes (g : Settings) : Type 0 where
  pub file_mode : g.file_mode < 4096
  pub dir_mode : g.dir_mode < 4096

-- Only 12 bits are left.
bit_and-lt : (m : ℕ) → bit_and m (8 ^ 4 - 1) < 4096
bit_and-lt m = omega (arith, bit_and-le_right m (8 ^ 4 - 1))

parse_mode-lt : (s : Text) (n : ℕ) → parse_mode s ≡ some n → n < 4096
unfolding parse_mode
parse_mode-lt s n h = elim (Option-cases (parse_octal (trim_space s))) [
  | inl bad ↦
      let wrong : none ≡ some n = rw (bad, parse_mode) at h in absurd (some_ne_none (sym wrong))
  | inr (m, found) ↦
      let is : some (bit_and m (8 ^ 4 - 1)) ≡ some n = rw (found, parse_mode) at h in
      omega (arith, some_inj is, bit_and-lt m)
]

-- What holds of a value, if there is one.
unfoldable Every : {B : Type 0} → (B → Type 0) → Option B → Type 0
Every P none = Unit
Every P (some b) = P b

every :
    {A B : Type 0} (P : B → Type 0) (o : Option A) (f : A → Option B)
    → ((a : A) → o ≡ some a → Every P (f a))
    → Every P (o >>= f)
unfolding Every
every P none f h = tt
every P (some a) f h = h a refl

credentials_lem :
    (env : Environment) (g : Settings)
    → ((with_credentials env g).file_mode ≡ g.file_mode)
      × ((with_credentials env g).dir_mode ≡ g.dir_mode)
unfolding with_credentials
credentials_lem env g =
    elim (Bool-cases (
      is_empty (env.get (codes "AWS_ACCESS_KEY_ID"))
      || is_empty (env.get (codes "AWS_SECRET_ACCESS_KEY")))) [
        | inl bare ↦ rw bare (refl, refl)
        | inr found ↦ rw found (refl, refl)
      ]

exclusive_lem :
    (chosen : Bool) (g : Settings)
    → ((exclusive_ttl chosen g).file_mode ≡ g.file_mode)
      × ((exclusive_ttl chosen g).dir_mode ≡ g.dir_mode)
unfolding exclusive_ttl
exclusive_lem chosen g = elim (Bool-cases (g.exclusive && not chosen)) [
  | inl longer ↦ rw longer (refl, refl)
  | inr same ↦ rw same (refl, refl)
]

moved_modes :
    (g g' : Settings)
    → (g'.file_mode ≡ g.file_mode) × (g'.dir_mode ≡ g.dir_mode)
    → HasModes g
    → HasModes g'
moved_modes g g' (file, dir) h = record {
  file_mode = omega (arith, file, h.file_mode);
  dir_mode = omega (arith, dir, h.dir_mode);
}

ready_modes :
    (env : Environment) (chosen : Bool) (g : Settings)
    → HasModes g
    → HasModes (with_credentials env (exclusive_ttl chosen g))
ready_modes env chosen g h =
    moved_modes (exclusive_ttl chosen g) (with_credentials env (exclusive_ttl chosen g))
      (credentials_lem env (exclusive_ttl chosen g))
      (moved_modes g (exclusive_ttl chosen g) (exclusive_lem chosen g) h)

finish-HasModes :
    (w : Machine) (chosen : Bool) (m : MountFlags) → Every HasModes (finish w chosen m)
unfolding finish Every
finish-HasModes w chosen m = every HasModes (parse_size w.floats m.cache_size) _ λ cache_size _.
    every HasModes (parse_size w.floats m.block_size) _ λ block_size _.
      every HasModes (parse_size w.floats m.readahead) _ λ readahead _.
        every HasModes (parse_size w.floats m.part_size) _ λ part_size _.
          every HasModes (parse_size w.floats m.multipart) _ λ multipart _.
            every HasModes (parse_mode m.file_mode) _ λ file_mode file.
              every HasModes (parse_mode m.dir_mode) _ λ dir_mode dir.
                every HasModes (owner_or w.accounts m.uid false m.cfg.uid) _ λ uid _.
                  every HasModes (owner_or w.accounts m.gid true m.cfg.gid) _ λ gid _.
                    ready_modes w.env chosen
                      (fill_in cache_size block_size readahead part_size multipart file_mode
                        dir_mode uid gid m.cfg)
                      (record {
                        file_mode = parse_mode-lt m.file_mode file_mode file;
                        dir_mode = parse_mode-lt m.dir_mode dir_mode dir;
                      })

-- What holds of the settings of a mount that is served.
unfoldable pub Served : (Settings → Type 0) → Exit → Type 0
Served P usage = Unit
Served P (fatal err) = Unit
Served P (serve g) = P g

-- The settings are sound, and the modes have no bits but those of permissions.
abbrev pub IsReady : Settings → Type 0
IsReady g = IsSound g × HasModes g

same_modes :
    (env : Environment) (g : Settings)
    → ((normalize env g).file_mode ≡ g.file_mode) × ((normalize env g).dir_mode ≡ g.dir_mode)
unfolding normalize
same_modes env g = (refl, refl)

settle-IsReady : (w : Machine) (chosen : Bool) (m : MountFlags) → Served IsReady (settle w chosen m)
unfolding settle Served Every
settle-IsReady w chosen m = elim (Option-cases (finish w chosen m)) [
  | inl bad ↦ rw (bad, Served, settle) tt
  | inr (g, done) ↦
      let modes : HasModes g = subst (Every HasModes) done (finish-HasModes w chosen m) in
      elim (Option-cases (refuse_settings g)) [
        | inr (err, wrong) ↦ rw (done, validate-refused w.env g err wrong, Served, settle) tt
        | inl ok ↦
            rw (done, validate-accepted w.env g ok, Served, settle)
              (
                accepted-IsSound w.env g ok,
                moved_modes g (normalize w.env g) (same_modes w.env g) modes,
              )
      ]
]

Source-cases :
    (s : Source)
    → ((err : SourceError) × (s ≡ refused err))
      ⊎ ((bucket : Text) × (prefix : Text) × (s ≡ source bucket prefix))
Source-cases (refused err) = inl (err, refl)
Source-cases (source bucket prefix) = inr (bucket, prefix, refl)

with_options-IsReady :
    (w : Machine) (given : List (Text × Text)) (m : MountFlags)
    → Served IsReady (with_options w given m)
unfolding with_options Served
with_options-IsReady w given m =
    let (more, err) = apply_options (mount_flag_set w.readers) m.option_list in
    elim (Option-cases err) [
      | inr (e, wrong) ↦ rw (wrong, Served, with_options) tt
      | inl fine ↦ elim (Option-cases (assign_all w.readers more m)) [
        | inl bad ↦ rw (fine, bad, Served, with_options) tt
        | inr (m', set) ↦
            rw (fine, set, Served, with_options)
              (settle-IsReady w (explicit (codes "kernel-ttl") (given ++ more)) m')
      ]
    ]

with_target-IsReady :
    (w : Machine) (given : List (Text × Text)) (spec dir : Text) (m : MountFlags)
    → Served IsReady (with_target w given spec dir m)
unfolding with_target Served
with_target-IsReady w given spec dir m = elim (Source-cases (parse_s3_url spec)) [
  | inl (err, wrong) ↦ rw (wrong, Served, with_target) tt
  | inr (bucket, prefix, found) ↦ elim (Option-cases (w.absolute dir)) [
    | inl bad ↦ rw (found, bad, Served, with_target) tt
    | inr (mountpoint, at) ↦
        rw (found, at, Served, with_target)
          (with_options-IsReady w given (target bucket prefix mountpoint m))
  ]
]

with_words-IsReady :
    (w : Machine) (given : List (Text × Text)) (words : List Text) (m : MountFlags)
    → Served IsReady (with_words w given words m)
unfolding with_words Served
with_words-IsReady w given [] m = tt
with_words-IsReady w given (spec ∷ []) m = tt
with_words-IsReady w given (spec ∷ dir ∷ rest) m = with_target-IsReady w given spec dir m

after_parse-IsReady : (w : Machine) (p : Parsed) → Served IsReady (after_parse w p)
unfolding after_parse Served
after_parse-IsReady w (rejected err) = tt
after_parse-IsReady w (parsed given rest) =
    elim (Option-cases (assign_all w.readers given (new_mount_flags w.env w.uid w.gid))) [
      | inl bad ↦ rw (bad, Served, after_parse) tt
      | inr (m, set) ↦ rw (set, Served, after_parse) (with_words-IsReady w given rest m)
    ]

-- The settings of a mount that `runMount` serves have blocks of 64 KiB and parts of 5 MiB at least,
-- a worker for each kind of work, a bucket, a mountpoint, a cache directory and a known mode of
-- attributes, and their default modes have permission bits alone, whatever the command line is.
pub run_mount-IsReady : (w : Machine) (args : List Text) → Served IsReady (run_mount w args)
unfolding run_mount
run_mount-IsReady w args =
    after_parse-IsReady w
      (parse (mount_flag_set w.readers) none (permute (mount_flag_set w.readers) args))
