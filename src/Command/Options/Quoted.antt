-- ===== src/Command/Options/Quoted.antt =====
-- `splitOptions` gives back the options of a list in which they may be quoted.
use remote_s3_bucket_plugin.Table.{Text}
use remote_s3_bucket_plugin.Config.Source.{contains_any}
use remote_s3_bucket_plugin.Cache.Rows.{self_id}
use remote_s3_bucket_plugin.Command.Options.{is_quote, split_from, split_options}
use remote_s3_bucket_plugin.Prelude.{
  ℕ, ◌≡◌, refl, sym, ap, ◌∙◌, inl, inr, Bool, true, false, ◌||◌, Option, none, some, List, [], ◌∷◌,
  ◌++◌, arith, ◌==◌, Bool-cases, set, append_assoc, append_nil,
}

-- An option as it is, or between two quotes.
abbrev pub render : Option ℕ → Text → Text
render none o = o
render (some q) o = q ∷ o ++ q ∷ []

unfoldable pub is_special : ℕ → Bool
is_special c = is_quote c || c == 44

-- An option without quotes and commas may stand as it is, one without the quote between quotes.
unfoldable pub Renders : Option ℕ → Text → Type 0
unfolding is_special is_quote
Renders none o = contains_any is_special o ≡ false
Renders (some q) o = (is_quote q ≡ true) × (contains_any (λ c. c == q) o ≡ false)

-- The options with commas between them.
unfoldable pub join_options : List (Option ℕ × Text) → Text
join_options [] = []
join_options ((q, o) ∷ []) = render q o
join_options ((q, o) ∷ p ∷ ps) = render q o ++ 44 ∷ join_options (p ∷ ps)

unfoldable pub AllRender : List (Option ℕ × Text) → Type 0
unfolding Renders
AllRender [] = Unit
AllRender ((q, o) ∷ ps) = Renders q o × AllRender ps

plain_byte :
    (c : ℕ) (cur s : Text)
    → is_special c ≡ false
    → split_from 0 cur (c ∷ s) ≡ split_from 0 (cur ++ c ∷ []) s
unfolding split_from is_special
plain_byte c cur s h = elim (Bool-cases (is_quote c)) [
  | inl bad ↦ let clash : true ≡ false = rw bad at h in cc
  | inr other ↦ let plain : (c == 44) ≡ false = rw other at h in rw (other, plain) refl
]

quoted_byte :
    (q c : ℕ) (cur s : Text)
    → (q == 0) ≡ false
    → (c == q) ≡ false
    → split_from q cur (c ∷ s) ≡ split_from q (cur ++ c ∷ []) s
unfolding split_from
quoted_byte q c cur s h other = rw (h, other) refl

shift :
    (q : ℕ) (cur o s : Text) (c : ℕ)
    → split_from q ((cur ++ c ∷ []) ++ o) s ≡ split_from q (cur ++ c ∷ o) s
shift q cur o s c = ap (λ t. split_from q t s) (append_assoc cur (c ∷ []) o)

split-bare :
    (o cur rest : Text)
    → contains_any is_special o ≡ false
    → split_from 0 cur (o ++ rest) ≡ split_from 0 (cur ++ o) rest
unfolding contains_any
split-bare [] cur rest h = ap (λ t. split_from 0 t rest) (sym (append_nil cur))
split-bare (c ∷ o) cur rest h = elim (Bool-cases (is_special c)) [
  | inl bad ↦ let clash : true ≡ false = rw bad at h in cc
  | inr plain ↦
      plain_byte c cur (o ++ rest) plain
      ∙ split-bare o (cur ++ c ∷ []) rest (rw plain at h)
      ∙ shift 0 cur o rest c
]

split-quoted :
    (q : ℕ) (o cur rest : Text)
    → (q == 0) ≡ false
    → contains_any (λ c. c == q) o ≡ false
    → split_from q cur (o ++ rest) ≡ split_from q (cur ++ o) rest
unfolding contains_any
split-quoted q [] cur rest set h = ap (λ t. split_from q t rest) (sym (append_nil cur))
split-quoted q (c ∷ o) cur rest set h = elim (Bool-cases (c == q)) [
  | inl bad ↦ let clash : true ≡ false = rw bad at h in cc
  | inr plain ↦
      quoted_byte q c cur (o ++ rest) set plain
      ∙ split-quoted q o (cur ++ c ∷ []) rest set (rw plain at h)
      ∙ shift q cur o rest c
]

opens_quote : (q : ℕ) (s : Text) → is_quote q ≡ true → split_from 0 [] (q ∷ s) ≡ split_from q [] s
unfolding split_from
opens_quote q s h = rw h refl

ends_quote :
    (q : ℕ) (cur s : Text) → (q == 0) ≡ false → split_from q cur (q ∷ s) ≡ split_from 0 cur s
unfolding split_from
ends_quote q cur s set = rw (set, self_id q) refl

quote_is_set : (q : ℕ) → is_quote q ≡ true → (q == 0) ≡ false
unfolding is_quote
quote_is_set q h = ground arith

split-render :
    (q : Option ℕ) (o rest : Text)
    → Renders q o
    → split_from 0 [] (render q o ++ rest) ≡ split_from 0 o rest
unfolding Renders
split-render none o rest h = split-bare o [] rest h
split-render (some q) o rest (quote, free) =
    let set = quote_is_set q quote in
    ap (λ t. split_from 0 [] (q ∷ t)) (append_assoc o (q ∷ []) rest)
    ∙ opens_quote q (o ++ q ∷ rest) quote
    ∙ split-quoted q o [] (q ∷ rest) set free
    ∙ ends_quote q o rest set

unfoldable pub contents : List (Option ℕ × Text) → List Text
contents [] = []
contents ((q, o) ∷ ps) = o ∷ contents ps

split-end : (o : Text) → split_from 0 o [] ≡ o ∷ []
unfolding split_from
split-end o = refl

split-comma : (o s : Text) → split_from 0 o (44 ∷ s) ≡ o ∷ split_from 0 [] s
unfolding split_from is_quote
split-comma o s = refl

-- Options joined by commas, each as it is where it has no quote and no comma, or between quotes of
-- a kind that it does not have, are what `splitOptions` gives back, if there is an option at all.
pub split_options-join :
    (p : Option ℕ × Text) (ps : List (Option ℕ × Text))
    → AllRender (p ∷ ps)
    → split_options (join_options (p ∷ ps)) ≡ contents (p ∷ ps)
unfolding split_options join_options AllRender contents
split_options-join (q, o) [] (h, _) =
    ap (split_from 0 []) (sym (append_nil (render q o))) ∙ split-render q o [] h ∙ split-end o
split_options-join (q, o) (p ∷ ps) (h, hs) =
    split-render q o (44 ∷ join_options (p ∷ ps)) h
    ∙ split-comma o (join_options (p ∷ ps))
    ∙ ap (λ rest. o ∷ rest) (split_options-join p ps hs)
