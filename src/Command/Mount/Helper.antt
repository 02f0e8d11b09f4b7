-- ===== src/Command/Mount/Helper.antt =====
-- What the mount(8) helper passes on.
use remote_s3_bucket_plugin.Table.{Text, text_eq, lookup}
use remote_s3_bucket_plugin.Table.Laws.{eq_of_text_eq}
use remote_s3_bucket_plugin.Config.Source.{is_empty}
use remote_s3_bucket_plugin.Command.Args.{
  is_option, permute, parsed, parse, waits, read_flag, read_known, read_body, flag_body, cut_value,
}
use remote_s3_bucket_plugin.Command.Args.Anywhere.{starts_plain, parse_anywhere, parse-permute}
use remote_s3_bucket_plugin.Command.Flags.{
  MountFlags, Readers, flag_table, value_accepted, mount_flag_set, assign, assign_all,
  new_mount_flags,
}
use remote_s3_bucket_plugin.Command.Mount.{
  Machine, helper_words, forwarded, with_target, with_words, after_assign, after_parse, mount_words,
  run_mount, run_mount_helper,
}
use remote_s3_bucket_plugin.Prelude.{
  ◌≡◌, refl, sym, ap, ◌∙◌, inl, inr, Bool, true, false, ◌||◌, none, some, List, [], ◌∷◌, ◌++◌,
  Bool-cases, codes,
}

unfoldable pub is_housekeeping : Text → Bool
is_housekeeping arg =
    text_eq arg (codes "-s")
    || text_eq arg (codes "-f")
    || text_eq arg (codes "-n")
    || text_eq arg (codes "-v")

-- Flags of mount(8) that need nothing.
unfoldable pub AllHousekeeping : List Text → Type 0
AllHousekeeping [] = Unit
AllHousekeeping (arg ∷ args) =
    (text_eq arg (codes "-o") ≡ false) × (is_housekeeping arg ≡ true) × AllHousekeeping args

helper_words-housekeeping :
    (flags args : List Text) (opts : Text)
    → AllHousekeeping flags
    → helper_words false (flags ++ args) opts ≡ helper_words false args opts
unfolding helper_words AllHousekeeping is_housekeeping
helper_words-housekeeping [] args opts h = refl
helper_words-housekeeping (flag ∷ flags) args opts (other, h, hs) =
    rw (other, h) (helper_words-housekeeping flags args opts hs)

module _ (rd : Readers) where
  -- `-o` waits for its list.
  o_waits : read_flag (mount_flag_set rd) (codes "-o") ≡ waits (codes "o")
  unfolding mount_flag_set flag_table lookup text_eq flag_body read_body cut_value read_known
  o_waits = refl

  o_accepts : (opts : Text) → (mount_flag_set rd).accepts (codes "o") opts ≡ true
  unfolding mount_flag_set flag_table lookup text_eq value_accepted
  o_accepts opts = refl

  -- The command line that the helper forwards.
  abbrev pub line : Text → Text → Text → List Text
  line spec dir opts = spec ∷ dir ∷ codes "-o" ∷ opts ∷ []

  parse_anywhere-line :
      (spec dir opts : Text)
      → is_option spec ≡ false
      → is_option dir ≡ false
      → parse_anywhere (mount_flag_set rd) none (line spec dir opts)
        ≡ parsed ((codes "o", opts) ∷ []) (spec ∷ dir ∷ [])
  unfolding parse_anywhere is_option text_eq
  parse_anywhere-line spec dir opts h h' = rw (h, h', o_waits, o_accepts opts) refl

  parse-line :
      (spec dir opts : Text)
      → is_option spec ≡ false
      → is_option dir ≡ false
      → parse (mount_flag_set rd) none (permute (mount_flag_set rd) (line spec dir opts))
        ≡ parsed ((codes "o", opts) ∷ []) (spec ∷ dir ∷ [])
  unfolding starts_plain
  parse-line spec dir opts h h' =
      parse-permute (mount_flag_set rd) (line spec dir opts) ((codes "o", opts) ∷ [])
        (spec ∷ dir ∷ []) (parse_anywhere-line spec dir opts h h') (rw h refl)

  assign_all-list :
      (opts : Text) (m : MountFlags)
      → assign_all rd ((codes "o", opts) ∷ []) m ≡ some (record m { option_list = opts })
  unfolding assign_all flag_table lookup text_eq assign
  assign_all-list opts m = refl

other_word : (arg k : Text) → is_option arg ≡ false → is_option k ≡ true → text_eq arg k ≡ false
other_word arg k h option = elim (Bool-cases (text_eq arg k)) [
  | inr other ↦ other
  | inl same ↦
      let clash : true ≡ false = sym option ∙ sym (ap is_option (eq_of_text_eq arg k same)) ∙ h in
      cc
]

helper_words-plain :
    (arg : Text) (args : List Text) (opts : Text)
    → is_option arg ≡ false
    → helper_words false (arg ∷ args) opts
      ≡ (arg ∷ (helper_words false args opts).0, (helper_words false args opts).1)
unfolding helper_words is_option
helper_words-plain arg args opts h =
    rw
      (
        other_word arg (codes "-o") h refl,
        other_word arg (codes "-s") h refl,
        other_word arg (codes "-f") h refl,
        other_word arg (codes "-n") h refl,
        other_word arg (codes "-v") h refl,
      )
      refl

helper_words-list : (opts : Text) → helper_words false (codes "-o" ∷ opts ∷ []) [] ≡ ([], opts)
unfolding helper_words text_eq
helper_words-list opts = refl

helper_words-line :
    (spec dir opts : Text) (flags : List Text)
    → is_option spec ≡ false
    → is_option dir ≡ false
    → AllHousekeeping flags
    → helper_words false (spec ∷ dir ∷ (flags ++ codes "-o" ∷ opts ∷ [])) []
      ≡ (spec ∷ dir ∷ [], opts)
helper_words-line spec dir opts flags h h' quiet =
    let rest = flags ++ codes "-o" ∷ opts ∷ [] in
    let last : helper_words false rest [] ≡ ([], opts) =
      helper_words-housekeeping flags (codes "-o" ∷ opts ∷ []) [] quiet ∙ helper_words-list opts in
    helper_words-plain spec (dir ∷ rest) [] h
    ∙ ap (λ r. (spec ∷ r.0, r.1)) (helper_words-plain dir rest [] h')
    ∙ ap (λ r. (spec ∷ dir ∷ r.0, r.1)) last

forwarded-line :
    (rd : Readers) (spec dir opts : Text)
    → is_empty opts ≡ false
    → forwarded (spec ∷ dir ∷ [], opts) ≡ some (line rd spec dir opts)
unfolding forwarded
forwarded-line rd spec dir opts h = rw h refl

run_mount-line :
    (w : Machine) (spec dir opts : Text)
    → is_option spec ≡ false
    → is_option dir ≡ false
    → run_mount w (line w.readers spec dir opts)
      ≡ with_target w
          ((codes "o", opts) ∷ [])
          spec
          dir
          (record (new_mount_flags w.env w.uid w.gid) { option_list = opts })
unfolding run_mount after_parse with_words
run_mount-line w spec dir opts h h' =
    ap (after_parse w) (parse-line w.readers spec dir opts h h')
    ∙ ap (λ m. after_assign w ((codes "o", opts) ∷ []) (spec ∷ dir ∷ []) m)
        (assign_all-list w.readers opts (new_mount_flags w.env w.uid w.gid))

-- The helper, called as mount(8) does with a source, a directory, flags that need nothing and a list
-- of options, mounts that source on that directory, with the list as the only flag.
pub run_mount_helper-with_target :
    (w : Machine) (spec dir opts : Text) (flags : List Text)
    → is_option spec ≡ false
    → is_option dir ≡ false
    → is_empty opts ≡ false
    → AllHousekeeping flags
    → run_mount_helper w (spec ∷ dir ∷ (flags ++ codes "-o" ∷ opts ∷ []))
      ≡ with_target w
          ((codes "o", opts) ∷ [])
          spec
          dir
          (record (new_mount_flags w.env w.uid w.gid) { option_list = opts })
unfolding run_mount_helper
run_mount_helper-with_target w spec dir opts flags h h' some_opts quiet =
    ap (λ r. mount_words w (forwarded r)) (helper_words-line spec dir opts flags h h' quiet)
    ∙ ap (mount_words w) (forwarded-line w.readers spec dir opts some_opts)
    ∙ run_mount-line w spec dir opts h h'
