-- ===== src/Command/Args/Anywhere.antt =====
-- Options may stand anywhere on the command line: `permute` before `FlagSet.Parse` gives what a
-- parser gives that reads on after a positional word.
use remote_s3_bucket_plugin.Table.{Text, text_eq}
use remote_s3_bucket_plugin.Table.Laws.{eq_of_text_eq}
use remote_s3_bucket_plugin.Command.Args.Waits.{Agrees, agrees}
use remote_s3_bucket_plugin.Command.Args.{
  FlagSet, is_option, takes_value, add_option, dashes, sort_words, permute, needs_argument,
  invalid_value, Parsed, parsed, rejected, set_flag, flag_body, Flag, wrong, sets, waits, read_body,
  read_flag, continue, parse,
}
use remote_s3_bucket_plugin.Prelude.{
  ◌≡◌, refl, sym, ap, ◌∙◌, inl, inr, Bool, true, false, not, Option, none, some, List, [], ◌∷◌,
  ◌++◌, if◌then◌else◌, Bool-cases,
}

abbrev pub note_word : Text → Parsed → Parsed
note_word arg (parsed settings rest) = parsed settings (arg ∷ rest)
note_word arg (rejected err) = rejected err

-- The parser that reads on: the reference.
unfoldable pub parse_anywhere : FlagSet → Option Text → List Text → Parsed
unfolding is_option flag_body read_body
parse_anywhere fs none [] = parsed [] []
parse_anywhere fs (some name) [] = rejected (needs_argument name)
parse_anywhere fs (some name) (value ∷ args) = set_flag fs name value (parse_anywhere fs none args)
parse_anywhere fs none (arg ∷ args) =
    let next = λ (w : Option Text). parse_anywhere fs w args in
    if not (is_option arg)
    then note_word arg (next none)
    else if text_eq arg dashes
    then parsed [] args
    else continue fs next (read_flag fs arg)

-- No word of the list, at its start, is an option.
unfoldable pub starts_plain : List Text → Bool
unfolding is_option
starts_plain [] = true
starts_plain (arg ∷ args) = not (is_option arg)

abbrev pub is_waiting : Option Text → Bool
is_waiting none = false
is_waiting (some name) = true

-- Whether an option word waits for its value.
abbrev pub flag_waits : Flag → Bool
flag_waits (wrong err) = false
flag_waits (sets name value) = false
flag_waits (waits name) = true

parse-plain : (fs : FlagSet) (q : List Text) → starts_plain q ≡ true → parse fs none q ≡ parsed [] q
unfolding parse starts_plain is_option
parse-plain fs [] h = refl
parse-plain fs (arg ∷ args) h = rw h refl

set_flag-parsed :
    (fs : FlagSet) (name value : Text) (next : Parsed) (s : List (Text × Text)) (p : List Text)
    → set_flag fs name value next ≡ parsed s p
    → (fs.accepts name value ≡ true)
      × (s' : List (Text × Text)) × (next ≡ parsed s' p)
      × (s ≡ (name, value) ∷ s')
set_flag-parsed fs name value (parsed s' p') s p h = elim (Bool-cases (fs.accepts name value)) [
  | inl fits ↦
      let e : parsed ((name, value) ∷ s') p' ≡ parsed s p = rw fits at h in
      let words : p' ≡ p = cc in
      let settings : s ≡ (name, value) ∷ s' = cc in (fits, s', ap (parsed s') words, settings)
  | inr bad ↦
      let e : rejected (invalid_value name value) ≡ parsed s p = rw bad at h in
      let absurdity : ⊥ = cc in absurd absurdity
]
set_flag-parsed fs name value (rejected err) s p h = elim (Bool-cases (fs.accepts name value)) [
  | inl fits ↦
      let e : rejected err ≡ parsed s p = rw fits at h in let absurdity : ⊥ = cc in absurd absurdity
  | inr bad ↦
      let e : rejected (invalid_value name value) ≡ parsed s p = rw bad at h in
      let absurdity : ⊥ = cc in absurd absurdity
]

note_word-parsed :
    (arg : Text) (next : Parsed) (s : List (Text × Text)) (p : List Text)
    → note_word arg next ≡ parsed s p
    → (p' : List Text) × (next ≡ parsed s p') × (p ≡ arg ∷ p')
note_word-parsed arg (parsed s' p') s p h =
    let settings : s' ≡ s = cc in
    let words : p ≡ arg ∷ p' = cc in (p', ap (λ x. parsed x p') settings, words)
note_word-parsed arg (rejected err) s p h = let absurdity : ⊥ = cc in absurd absurdity

module _ (fs : FlagSet) where
  -- The sorted words, with other plain words behind them, are read as the words were.
  record Follows (w : Option Text) (args : List Text) (s : List (Text × Text)) (p : List Text)
      : Type 0 where
    words : (sort_words fs (is_waiting w) args).1 ≡ p
    settings :
        (q : List Text)
        → starts_plain q ≡ true
        → parse fs w ((sort_words fs (is_waiting w) args).0 ++ q) ≡ parsed s q

  abbrev Inductive : List Text → Type 0
  Inductive args =
      (w : Option Text) (s : List (Text × Text)) (p : List Text)
      → parse_anywhere fs w args ≡ parsed s p
      → Follows w args s p

  set_flag_lem :
      (name value : Text) (args : List Text) (s : List (Text × Text)) (p : List Text)
      → Inductive args
      → set_flag fs name value (parse_anywhere fs none args) ≡ parsed s p
      → ((sort_words fs false args).1 ≡ p)
        × ((q : List Text)
            → starts_plain q ≡ true
            → set_flag fs name value (parse fs none ((sort_words fs false args).0 ++ q))
              ≡ parsed s q)
  set_flag_lem name value args s p ih h =
      let (fits, s', next, is) = set_flag-parsed fs name value _ s p h in
      let f = ih none s' p next in (f.words, λ q plain. rw (fits, f.settings q plain, is) refl)

  option_lem :
      (arg : Text) (f : Flag) (args : List Text) (s : List (Text × Text)) (p : List Text)
      → Inductive args
      → Agrees fs arg f
      → continue fs (λ w. parse_anywhere fs w args) f ≡ parsed s p
      → ((sort_words fs (takes_value fs arg) args).1 ≡ p)
        × ((q : List Text)
            → starts_plain q ≡ true
            → continue fs (λ w. parse fs w ((sort_words fs (takes_value fs arg) args).0 ++ q)) f
              ≡ parsed s q)
  unfolding Agrees
  option_lem arg (wrong err) args s p ih a h = let absurdity : ⊥ = cc in absurd absurdity
  option_lem arg (sets name value) args s p ih a h = rw a (set_flag_lem name value args s p ih h)
  option_lem arg (waits name) args s p ih a h =
      let f = ih (some name) s p h in rw a (f.words, f.settings)

  plain_is_no_dashes : (arg : Text) → is_option arg ≡ false → text_eq arg dashes ≡ false
  unfolding is_option
  plain_is_no_dashes arg plain = elim (Bool-cases (text_eq arg dashes)) [
    | inr other ↦ other
    | inl same ↦
        let clash : true ≡ false = sym (ap is_option (eq_of_text_eq arg dashes same)) ∙ plain in cc
  ]

  sort-option :
      (arg : Text) (args : List Text)
      → is_option arg ≡ true
      → text_eq arg dashes ≡ false
      → sort_words fs false (arg ∷ args) ≡ add_option arg (sort_words fs (takes_value fs arg) args)
  unfolding sort_words
  sort-option arg args option flag = rw (flag, option) refl

  parse-option :
      (arg : Text) (args : List Text)
      → is_option arg ≡ true
      → text_eq arg dashes ≡ false
      → parse fs none (arg ∷ args) ≡ continue fs (λ w. parse fs w args) (read_flag fs arg)
  unfolding parse
  parse-option arg args option flag = rw (option, flag) refl

  follows : (args : List Text) → Inductive args
  unfolding parse_anywhere parse sort_words
  follows [] none s p h =
      let no_settings : [] ≡ s = cc in
      let no_words : [] ≡ p = cc in
      record {
        words = no_words;
        settings = λ q plain. parse-plain fs q plain ∙ ap (λ x. parsed x q) no_settings;
      }
  follows [] (some name) s p h = let absurdity : ⊥ = cc in absurd absurdity
  follows (value ∷ args) (some name) s p h =
      let (words, settings) = set_flag_lem name value args s p (follows args) h in
      record { words = words; settings = settings }
  follows (arg ∷ args) none s p h = elim (Bool-cases (is_option arg)) [
    | inr plain ↦
        let no_dashes = plain_is_no_dashes arg plain in
        let noted : note_word arg (parse_anywhere fs none args) ≡ parsed s p = rw plain at h in
        let (p', next, is) = note_word-parsed arg _ s p noted in
        let f = follows args none s p' next in
        record {
          words = rw (no_dashes, plain) (ap (λ x. arg ∷ x) f.words ∙ sym is);
          settings = λ q rest. rw (no_dashes, plain) (f.settings q rest);
        }
    | inl option ↦ elim (Bool-cases (text_eq arg dashes)) [
      | inl end ↦
          let ended : parsed [] args ≡ parsed s p = rw (option, end) at h in
          let no_settings : [] ≡ s = cc in
          let rest : args ≡ p = cc in
          record {
            words = rw end rest;
            settings =
                λ q plain. rw end (parse-plain fs q plain ∙ ap (λ x. parsed x q) no_settings);
          }
      | inr flag ↦
          let read : continue fs (λ w. parse_anywhere fs w args) (read_flag fs arg) ≡ parsed s p =
            rw (option, flag) at h in
          let (words, settings) =
            option_lem arg (read_flag fs arg) args s p (follows args) (agrees fs arg option) read in
          record {
            words = ap (λ r. r.1) (sort-option arg args option flag) ∙ words;
            settings = λ q plain.
                ap (λ r. parse fs none (r.0 ++ q)) (sort-option arg args option flag)
                ∙ parse-option arg ((sort_words fs (takes_value fs arg) args).0 ++ q) option flag
                ∙ settings q plain;
          }
    ]
  ]

  -- A command line that the parser that reads on accepts, and of whose positional words the first
  -- is no option, gives the same settings and the same positional words when it is permuted and
  -- read by `FlagSet.Parse`.
  pub parse-permute :
      (args : List Text) (s : List (Text × Text)) (p : List Text)
      → parse_anywhere fs none args ≡ parsed s p
      → starts_plain p ≡ true
      → parse fs none (permute fs args) ≡ parsed s p
  unfolding permute
  parse-permute args s p h plain =
      let f = follows args none s p h in rw f.words (f.settings p plain)
