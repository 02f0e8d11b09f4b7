-- ===== src/Command/Args.antt =====
-- cmd/s3disk/args.go, and what `mount` uses of the library `flag`: `FlagSet.Parse` and `Args`. A flag
-- set is a lookup that tells whether a flag is Boolean, and a test of the values that it takes.
pub mod Waits
pub mod Anywhere
use remote_s3_bucket_plugin.Table.{Text, text_eq}
use remote_s3_bucket_plugin.Prelude.{
  ◌-◌, Bool, true, false, not, ◌&&◌, ◌||◌, Option, none, some, List, [], ◌∷◌, ◌++◌, ◌==◌,
  if◌then◌else◌, tests, set,
}

-- `fs.Lookup(name)` and `isBoolFlag` of what it finds; `accepts` is whether `Set` succeeds.
pub record FlagSet : Type 0 where
  pub find : Text → Option Bool
  pub accepts : Text → Text → Bool

-- `len(arg) >= 2 && arg[0] == '-'`.
unfoldable pub is_option : Text → Bool
is_option [] = false
is_option (x ∷ []) = false
is_option (x ∷ y ∷ rest) = x == 45

-- `strings.TrimLeft(arg, "-")`.
unfoldable pub trim_dashes : Text → Text
trim_dashes [] = []
trim_dashes (x ∷ xs) = let rest = trim_dashes xs in if x == 45 then rest else x ∷ xs

-- `strings.Contains(name, "=")`.
unfoldable pub has_equals : Text → Bool
has_equals [] = false
has_equals (x ∷ xs) = let rest = has_equals xs in x == 61 || rest

-- `f != nil && !isBoolFlag(f)`, for a flag without an attached value.
unfoldable pub takes_value : FlagSet → Text → Bool
unfolding trim_dashes has_equals
takes_value fs arg =
    let name = trim_dashes arg in
    let known : Bool = elim (fs.find name) [ none ↦ false | some is_bool ↦ not is_bool ] in
    not (has_equals name) && known

abbrev pub add_option : Text → List Text × List Text → List Text × List Text
add_option arg (options, positional) = (arg ∷ options, positional)

abbrev pub add_positional : Text → List Text × List Text → List Text × List Text
add_positional arg (options, positional) = (options, arg ∷ positional)

-- `--`.
abbrev pub dashes : Text
dashes = 45 ∷ 45 ∷ []

-- The options and the positional words; `waiting` is whether the next word is the value of an option.
unfoldable pub sort_words : FlagSet → Bool → List Text → List Text × List Text
unfolding is_option takes_value
sort_words fs waiting [] = ([], [])
sort_words fs true (value ∷ args) = add_option value (sort_words fs false args)
sort_words fs false (arg ∷ args) =
    let plain = sort_words fs false args in
    let hoisted = sort_words fs (takes_value fs arg) args in
    if text_eq arg dashes
    then ([], args)
    else if not (is_option arg)
    then add_positional arg plain
    else add_option arg hoisted

unfoldable pub permute : FlagSet → List Text → List Text
unfolding sort_words
permute fs args = let (options, positional) = sort_words fs false args in options ++ positional

pub data FlagError : Type 0 where
  bad_syntax undefined needs_argument : Text → FlagError
  invalid_value : Text → Text → FlagError

-- The flags that were set, in order, and the words that are left.
pub data Parsed : Type 0 where
  parsed : List (Text × Text) → List Text → Parsed
  rejected : FlagError → Parsed

abbrev pub add_setting : Text → Text → Parsed → Parsed
add_setting name value (parsed settings rest) = parsed ((name, value) ∷ settings) rest
add_setting name value (rejected err) = rejected err

abbrev pub set_flag : FlagSet → Text → Text → Parsed → Parsed
set_flag fs name value next =
    if fs.accepts name value
    then add_setting name value next
    else rejected (invalid_value name value)

-- The word without its dash or two.
unfoldable pub flag_body : Text → Text
flag_body [] = []
flag_body (x ∷ []) = []
flag_body (x ∷ y ∷ rest) = if y == 45 then rest else y ∷ rest

-- A name of at least one byte, and the value after `=`.
unfoldable pub cut_value : Text → Text × Option Text
cut_value [] = ([], none)
cut_value (x ∷ xs) =
    let (name, value) = cut_value xs in if x == 61 then ([], some xs) else (x ∷ name, value)

-- What a word that starts with a dash says.
pub data Flag : Type 0 where
  wrong : FlagError → Flag
  sets : Text → Text → Flag
  waits : Text → Flag

-- What the flag that is found makes of its name and its attached value.
unfoldable pub read_known : Option Bool → Text → Option Text → Flag
read_known none name value = wrong (undefined name)
read_known (some is_bool) name (some v) = sets name v
read_known (some true) name none = sets name (116 ∷ 114 ∷ 117 ∷ 101 ∷ [])
read_known (some false) name none = waits name

-- `FlagSet.parseOne`, after the tests for the end of the flags.
unfoldable pub read_body : FlagSet → Text → Text → Flag
unfolding cut_value read_known
read_body fs arg [] = wrong (bad_syntax arg)
read_body fs arg (x ∷ xs) =
    let (name, value) = cut_value (x ∷ xs) in
    if x == 45 || x == 61 then wrong (bad_syntax arg) else read_known (fs.find name) name value

abbrev pub read_flag : FlagSet → Text → Flag
read_flag fs arg = read_body fs arg (flag_body arg)

-- A flag takes effect, and the words after it are read.
abbrev pub continue : FlagSet → (Option Text → Parsed) → Flag → Parsed
continue fs next (wrong err) = rejected err
continue fs next (sets name value) = set_flag fs name value (next none)
continue fs next (waits name) = next (some name)

-- `FlagSet.Parse`, up to the first word that is no flag; `waiting` is the flag whose value comes.
unfoldable pub parse : FlagSet → Option Text → List Text → Parsed
unfolding is_option flag_body read_body
parse fs none [] = parsed [] []
parse fs (some name) [] = rejected (needs_argument name)
parse fs (some name) (value ∷ args) = set_flag fs name value (parse fs none args)
parse fs none (arg ∷ args) =
    let next = λ (w : Option Text). parse fs w args in
    if not (is_option arg)
    then parsed [] (arg ∷ args)
    else if text_eq arg dashes
    then parsed [] args
    else continue fs next (read_flag fs arg)
