-- ===== src/Config/Source.antt =====
-- internal/config/config.go: `ParseS3URL`, `Identity` and `Describe`, with `TrimSpace` of
-- Go's strings. An error carries no text.
pub mod Trim
pub mod Normal
use remote_s3_bucket_plugin.Table.{Text, has_prefix}
use remote_s3_bucket_plugin.Objects.{trim_slash}
use remote_s3_bucket_plugin.Prelude.{
  ℕ, zero, suc, ◌-◌, ◌/◌, Bool, true, false, ◌&&◌, ◌||◌, [], ◌∷◌, ◌++◌, leb, ◌==◌, if◌then◌else◌,
  set, take, drop,
}

pub data SourceError : Type 0 where
  empty_source not_a_bucket missing_bucket invalid_bucket : SourceError

pub data Source : Type 0 where
  source : Text → Text → Source
  refused : SourceError → Source

-- The whitespace of ASCII.
unfoldable pub is_space : ℕ → Bool
is_space x = x == 32 || (leb 9 x && leb x 13)

-- Whether the bytes are one character of `unicode.IsSpace` in UTF-8: one of ASCII, U+0085, U+00A0,
-- U+1680, U+2000 to U+200A, U+2028, U+2029, U+202F, U+205F or U+3000.
unfoldable pub is_space_char : Text → Bool
unfolding is_space
is_space_char (a ∷ []) = is_space a
is_space_char (a ∷ b ∷ []) = a == 194 && (b == 133 || b == 160)
is_space_char (a ∷ b ∷ c ∷ []) =
    (a == 225 && b == 154 && c == 128)
    || (a == 226 && b == 128 && ((leb 128 c && leb c 138) || c == 168 || c == 169 || c == 175))
    || (a == 226 && b == 129 && c == 159)
    || (a == 227 && b == 128 && c == 128)
is_space_char _ = false

-- How many bytes the whitespace character has that the text starts with, 0 if it starts with none.
unfoldable pub space_width : Text → ℕ
unfolding is_space_char
space_width s =
    if is_space_char (take 1 s)
    then 1
    else if is_space_char (take 2 s)
    then 2
    else if is_space_char (take 3 s)
    then 3
    else 0

-- `strings.TrimLeftFunc` and `strings.TrimRightFunc`.
unfoldable pub trim_left : (ℕ → Bool) → Text → Text
trim_left f [] = []
trim_left f (x ∷ xs) = let rest = trim_left f xs in if f x then rest else x ∷ xs

abbrev pub is_empty : Text → Bool
is_empty [] = true
is_empty (x ∷ xs) = false

unfoldable pub trim_right : (ℕ → Bool) → Text → Text
trim_right f [] = []
trim_right f (x ∷ xs) = let rest = trim_right f xs in if f x && is_empty rest then [] else x ∷ rest

-- `skip` is how many bytes of a whitespace character are left.
unfoldable pub trim_start : ℕ → Text → Text
unfolding space_width
trim_start skip [] = []
trim_start (suc skip) (x ∷ s) = trim_start skip s
trim_start zero (x ∷ s) =
    let gone = trim_start (space_width (x ∷ s) - 1) s in
    if space_width (x ∷ s) == 0 then x ∷ s else gone

unfoldable pub trim_end : Text → Text
unfolding is_space_char
trim_end [] = []
trim_end (x ∷ s) = let kept = x ∷ trim_end s in if is_space_char kept then [] else kept

-- `strings.TrimSpace`.
unfoldable pub trim_space : Text → Text
unfolding trim_start trim_end
trim_space s = trim_end (trim_start 0 s)

unfoldable pub is_slash : ℕ → Bool
is_slash x = x == 47

-- `strings.Trim(prefix, "/")`.
unfoldable pub trim_slashes : Text → Text
unfolding trim_left trim_right
trim_slashes s = trim_right is_slash (trim_left is_slash s)

-- `strings.Contains(s, sub)`.
unfoldable pub contains : Text → Text → Bool
contains s sub = any_suffix s
  where
    any_suffix : Text → Bool
    any_suffix [] = has_prefix [] sub
    any_suffix (x ∷ xs) = let rest = any_suffix xs in has_prefix (x ∷ xs) sub || rest

-- `strings.ContainsAny`.
unfoldable pub contains_any : (ℕ → Bool) → Text → Bool
contains_any f [] = false
contains_any f (x ∷ xs) = let rest = contains_any f xs in f x || rest

-- What is before and behind the first byte of a set.
unfoldable pub cut_any : (ℕ → Bool) → Text → Text × Text
cut_any f [] = ([], [])
cut_any f (x ∷ xs) =
    let (before, behind) = cut_any f xs in if f x then ([], xs) else (x ∷ before, behind)

abbrev pub separates : ℕ → Bool
separates x = x == 58 || x == 47

abbrev pub is_slash_or_space : ℕ → Bool
is_slash_or_space x = x == 47 || x == 32

-- `s3://`.
abbrev pub scheme : Text
scheme = 115 ∷ 51 ∷ 58 ∷ 47 ∷ 47 ∷ []

-- `prefix += "/"`, unless it is empty.
unfoldable pub with_slash : Text → Text
with_slash prefix = if is_empty prefix then [] else prefix ++ 47 ∷ []

-- `BUCKET`, `BUCKET:PREFIX` or `BUCKET/PREFIX`.
unfoldable pub parse_bucket : Text → Source
unfolding cut_any contains_any trim_slashes with_slash
parse_bucket raw =
    let (bucket, prefix) = cut_any separates raw in
    if is_empty bucket
    then refused missing_bucket
    else if contains_any is_slash_or_space bucket
    then refused invalid_bucket
    else source bucket (with_slash (trim_slashes prefix))

unfoldable pub parse_s3_url : Text → Source
unfolding trim_space contains parse_bucket
parse_s3_url s =
    let raw = trim_space s in
    let after = drop 5 raw in
    if is_empty raw
    then refused empty_source
    else if has_prefix raw scheme
    then if is_empty after then refused empty_source else parse_bucket after
    else if contains raw (58 ∷ 47 ∷ 47 ∷ [])
    then refused not_a_bucket
    else parse_bucket raw

unfoldable pub identity : Text → Text → Text
identity bucket prefix = bucket ++ 47 ∷ prefix

unfoldable pub describe : Text → Text → Text
unfolding trim_slash
describe bucket prefix = if is_empty prefix then bucket else bucket ++ 47 ∷ trim_slash prefix
