-- ===== src/Command/Options.antt =====
-- cmd/s3disk/mount.go: `splitOptions` and `applyOptions`, the `-o` lists of fstab and mount(8).
pub mod Quoted
use remote_s3_bucket_plugin.Table.{Text, text_eq}
use remote_s3_bucket_plugin.Table.Laws.{any_eq}
use remote_s3_bucket_plugin.Config.Source.{is_empty, trim_space}
use remote_s3_bucket_plugin.Command.Args.{FlagSet}
use remote_s3_bucket_plugin.Prelude.{
  ℕ, Bool, true, not, ◌&&◌, ◌||◌, Option, none, some, List, [], ◌∷◌, ◌++◌, ◌==◌, if◌then◌else◌, set,
  codes,
}

-- A single or a double quote.
unfoldable pub is_quote : ℕ → Bool
is_quote c = c == 39 || c == 34

-- `quote` is the open quote, or 0; `cur` is the option so far.
unfoldable pub split_from : ℕ → Text → Text → List Text
unfolding is_quote
split_from quote cur [] = cur ∷ []
split_from quote cur (c ∷ s) =
    if not (quote == 0) && c == quote
    then split_from 0 cur s
    else if quote == 0 && is_quote c
    then split_from c cur s
    else if quote == 0 && c == 44
    then cur ∷ split_from 0 [] s
    else split_from quote (cur ++ c ∷ []) s

unfoldable pub split_options : Text → List Text
unfolding split_from
split_options s = split_from 0 [] s

-- `strings.Cut(opt, "=")`.
unfoldable pub cut_equals : Text → Text × Option Text
cut_equals [] = ([], none)
cut_equals (x ∷ xs) =
    let (name, value) = cut_equals xs in if x == 61 then ([], some xs) else (x ∷ name, value)

-- What the kernel and mount(8) pass and nothing is done about.
abbrev pub ignored : List Text
ignored =
    codes "rw"
    ∷ codes "auto"
    ∷ codes "noauto"
    ∷ codes "user"
    ∷ codes "users"
    ∷ codes "nouser"
    ∷ codes "_netdev"
    ∷ codes "defaults"
    ∷ codes "nofail"
    ∷ codes "exec"
    ∷ codes "noexec"
    ∷ codes "suid"
    ∷ codes "nosuid"
    ∷ codes "dev"
    ∷ codes "nodev"
    ∷ codes "atime"
    ∷ codes "noatime"
    ∷ []

pub data OptionError : Type 0 where
  unknown_option : Text → OptionError
  bad_option : Text → Text → OptionError

-- What one option does: nothing, an error, or a flag that is set.
pub data OptionStep : Type 0 where
  skipped : OptionStep
  stops : OptionError → OptionStep
  assigns : Text → Text → OptionStep

abbrev pub value_or_true : Option Text → Text
value_or_true none = codes "true"
value_or_true (some v) = v

unfoldable pub set_option : FlagSet → Text → Text → OptionStep
set_option fs name value = elim (fs.find name) [
  | none ↦ stops (unknown_option name)
  | some is_bool ↦
      if fs.accepts name value then assigns name value else stops (bad_option name value)
]

unfoldable pub read_option : FlagSet → Text → OptionStep
unfolding any_eq trim_space cut_equals set_option
read_option fs opt =
    let (raw, value) = cut_equals opt in
    let name = trim_space raw in
    if is_empty opt || any_eq name ignored
    then skipped
    else if text_eq name (codes "ro")
    then set_option fs (codes "read-only") (codes "true")
    else set_option fs name (value_or_true value)

-- The flags that are set, and the error that ends the list.
unfoldable pub apply_each : FlagSet → List Text → List (Text × Text) × Option OptionError
unfolding read_option
apply_each fs [] = ([], none)
apply_each fs (opt ∷ opts) =
    let (settings, err) = apply_each fs opts in
    elim (read_option fs opt) [
      | skipped ↦ (settings, err)
      | stops e ↦ ([], some e)
      | assigns name value ↦ ((name, value) ∷ settings, err)
    ]

unfoldable pub apply_options : FlagSet → Text → List (Text × Text) × Option OptionError
unfolding split_options apply_each
apply_options fs list = if is_empty list then ([], none) else apply_each fs (split_options list)
