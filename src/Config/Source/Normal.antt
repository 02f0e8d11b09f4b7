-- ===== src/Config/Source/Normal.antt =====
-- The bucket and the prefix that `ParseS3URL` gives, and what it makes of their description.
use remote_s3_bucket_plugin.Table.{Text, has_prefix}
use remote_s3_bucket_plugin.Objects.{trim_slash}
use remote_s3_bucket_plugin.Config.Source.Trim.{
  first_is, last_is, trim_left-first, trim_right-first, trim_right-last, trim_left-fixed,
  trim_right-fixed, cut_any-before, cut_any-none, cut_any-append, is_edge, ends_in_space,
  ends_in_space-cons, trim_space-edge,
}
use remote_s3_bucket_plugin.Config.Source.{
  SourceError, source, refused, is_space, trim_left, is_empty, trim_right, trim_space, is_slash,
  trim_slashes, contains, contains_any, cut_any, separates, is_slash_or_space, scheme, with_slash,
  parse_bucket, parse_s3_url, describe,
}
use remote_s3_bucket_plugin.Prelude.{
  ℕ, ◌≡◌, refl, sym, ap, subst, ◌∙◌, ◌⊎◌, inl, inr, true, false, [], ◌∷◌, ◌++◌, Bool-cases, drop,
}

-- A name that is not empty and has no slash at its ends.
pub record IsBare (t : Text) : Type 0 where
  pub named : is_empty t ≡ false
  pub starts : first_is is_slash t ≡ false
  pub stops : last_is is_slash t ≡ false

-- A bucket without separators and spaces, and no prefix or one that ends in its only outer slash.
pub record IsNormal (bucket prefix : Text) : Type 0 where
  pub named : is_empty bucket ≡ false
  pub whole : contains_any separates bucket ≡ false
  pub plain : contains_any is_slash_or_space bucket ≡ false
  pub shape : (prefix ≡ []) ⊎ ((t : Text) × (prefix ≡ t ++ 47 ∷ []) × IsBare t)

-- The prefix with its slash, or nothing.
with_slash-shape :
    (s : Text)
    → (with_slash (trim_slashes s) ≡ [])
      ⊎ ((t : Text) × (with_slash (trim_slashes s) ≡ t ++ 47 ∷ []) × IsBare t)
unfolding with_slash trim_slashes
with_slash-shape s =
    let t = trim_right is_slash (trim_left is_slash s) in
    elim (Bool-cases (is_empty t)) [
      | inl nothing ↦ inl (rw nothing refl)
      | inr named ↦ inr (
        t,
        rw named refl,
        record {
          named = named;
          starts = trim_right-first is_slash (trim_left is_slash s) (trim_left-first is_slash s);
          stops = trim_right-last is_slash (trim_left is_slash s);
        },
      )
    ]

no_source : {err : SourceError} {b p : Text} {A : Type 0} → refused err ≡ source b p → A
no_source h = let bad : ⊥ = cc in absurd bad

subst2 : (P : Text → Text → Type 0) {a b c d : Text} → a ≡ b → c ≡ d → P a c → P b d
subst2 P {a} {b} {c} {d} e e' x = subst (λ t. P b t) e' (subst (λ t. P t c) e x)

parse_bucket-IsNormal :
    (raw bucket prefix : Text) → parse_bucket raw ≡ source bucket prefix → IsNormal bucket prefix
unfolding parse_bucket
parse_bucket-IsNormal raw bucket prefix h =
    let (b, p) = cut_any separates raw in
    elim (Bool-cases (is_empty b)) [
      | inl nothing ↦ no_source (rw (nothing) at h)
      | inr named ↦ elim (Bool-cases (contains_any is_slash_or_space b)) [
        | inl bad ↦ no_source (rw (named, bad) at h)
        | inr plain ↦
            let found : source b (with_slash (trim_slashes p)) ≡ source bucket prefix =
              rw (named, plain) at h in
            let same : b ≡ bucket = cc in
            let same' : with_slash (trim_slashes p) ≡ prefix = cc in
            subst2 IsNormal same same' (record {
              named = named;
              whole = cut_any-before separates raw;
              plain = plain;
              shape = with_slash-shape p;
            })
      ]
    ]

parse_s3_url-IsNormal :
    (s bucket prefix : Text) → parse_s3_url s ≡ source bucket prefix → IsNormal bucket prefix
unfolding parse_s3_url
parse_s3_url-IsNormal s bucket prefix h =
    let raw = trim_space s in
    elim (Bool-cases (is_empty raw)) [
      | inl nothing ↦ no_source (rw nothing at h)
      | inr some_text ↦ elim (Bool-cases (has_prefix raw scheme)) [
        | inl url ↦ elim (Bool-cases (is_empty (drop 5 raw))) [
          | inl nothing ↦ no_source (rw (some_text, url, nothing) at h)
          | inr more ↦
              parse_bucket-IsNormal (drop 5 raw) bucket prefix (rw (some_text, url, more) at h)
        ]
        | inr plain ↦ elim (Bool-cases (contains raw (58 ∷ 47 ∷ 47 ∷ []))) [
          | inl bad ↦ no_source (rw (some_text, plain, bad) at h)
          | inr fine ↦ parse_bucket-IsNormal raw bucket prefix (rw (some_text, plain, fine) at h)
        ]
      ]
    ]

trim_slash-append : (t : Text) → trim_slash (t ++ 47 ∷ []) ≡ t
unfolding trim_slash
trim_slash-append [] = refl
trim_slash-append (x ∷ []) = refl
trim_slash-append (x ∷ y ∷ t) = ap (λ r. x ∷ r) (trim_slash-append (y ∷ t))

is_empty-append : (t : Text) (x : ℕ) → is_empty (t ++ x ∷ []) ≡ false
is_empty-append [] x = refl
is_empty-append (y ∷ t) x = refl

describe-slash : (bucket t : Text) → describe bucket (t ++ 47 ∷ []) ≡ bucket ++ 47 ∷ t
unfolding describe
describe-slash bucket t =
    rw (is_empty-append t 47) (ap (λ r. bucket ++ 47 ∷ r) (trim_slash-append t))

trim_slashes-IsBare : (t : Text) → IsBare t → trim_slashes t ≡ t
unfolding trim_slashes
trim_slashes-IsBare t bare =
    ap (trim_right is_slash) (trim_left-fixed is_slash t bare.starts)
    ∙ trim_right-fixed is_slash t bare.stops

with_slash-IsBare : (t : Text) → IsBare t → with_slash t ≡ t ++ 47 ∷ []
unfolding with_slash
with_slash-IsBare t bare = rw bare.named refl

parse_bucket-slash :
    (bucket prefix t : Text)
    → IsNormal bucket prefix
    → IsBare t
    → parse_bucket (bucket ++ 47 ∷ t) ≡ source bucket (t ++ 47 ∷ [])
unfolding parse_bucket
parse_bucket-slash bucket prefix t n bare =
    rw (cut_any-append separates bucket 47 t n.whole refl, n.named, n.plain)
      (ap (source bucket) (ap with_slash (trim_slashes-IsBare t bare) ∙ with_slash-IsBare t bare))

describe-IsNormal :
    (bucket prefix : Text)
    → IsNormal bucket prefix
    → parse_bucket (describe bucket prefix) ≡ source bucket prefix
unfolding describe parse_bucket trim_slashes with_slash
describe-IsNormal bucket prefix n = elim n.shape [
  | inl nothing ↦ rw nothing (rw (cut_any-none separates bucket n.whole, n.named, n.plain) refl)
  | inr (t, is, bare) ↦
      ap (λ p. parse_bucket (describe bucket p)) is
      ∙ ap parse_bucket (describe-slash bucket t)
      ∙ parse_bucket-slash bucket prefix t n bare
      ∙ ap (source bucket) (sym is)
]

describe-named :
    (bucket prefix : Text) → is_empty bucket ≡ false → is_empty (describe bucket prefix) ≡ false
unfolding describe
describe-named [] prefix h = let bad : true ≡ false = h in cc
describe-named (x ∷ bucket) prefix h = elim (Bool-cases (is_empty prefix)) [
  | inl nothing ↦ rw nothing refl
  | inr more ↦ rw more refl
]

-- `s3://` and a description without a space at its end.
scheme-trimmed :
    (x : ℕ) (d : Text)
    → ends_in_space (x ∷ d) ≡ false
    → trim_space (scheme ++ x ∷ d) ≡ scheme ++ x ∷ d
unfolding is_edge is_space first_is
scheme-trimmed x d tight = trim_space-edge (scheme ++ x ∷ d) refl (
    ends_in_space-cons 115 _ refl
    ∙ ends_in_space-cons 51 _ refl
    ∙ ends_in_space-cons 58 _ refl
    ∙ ends_in_space-cons 47 _ refl
    ∙ ends_in_space-cons 47 _ refl
    ∙ tight)

parse-scheme :
    (d : Text)
    → is_empty d ≡ false
    → ends_in_space d ≡ false
    → parse_s3_url (scheme ++ d) ≡ parse_bucket d
unfolding parse_s3_url has_prefix
parse-scheme [] named tight = let bad : true ≡ false = named in cc
parse-scheme (x ∷ d) named tight = rw (scheme-trimmed x d tight) refl

-- A bucket and a prefix that `ParseS3URL` gives are well-formed, and what `Describe` makes of them,
-- with `s3://` before it and if it does not end in a whitespace character of Unicode, is read as the same bucket and prefix.
pub parse_s3_url-describe :
    (s bucket prefix : Text)
    → parse_s3_url s ≡ source bucket prefix
    → ends_in_space (describe bucket prefix) ≡ false
    → IsNormal bucket prefix
      × (parse_s3_url (scheme ++ describe bucket prefix) ≡ source bucket prefix)
parse_s3_url-describe s bucket prefix h tight =
    let n = parse_s3_url-IsNormal s bucket prefix h in
    (
      n,
      parse-scheme (describe bucket prefix) (describe-named bucket prefix n.named) tight
          ∙ describe-IsNormal bucket prefix n,
    )
