-- ===== src/Mounts/Escaped.antt =====
-- How the kernel writes the path of a mountpoint, and `unescape`.
use remote_s3_bucket_plugin.Table.{Text, has_prefix}
use remote_s3_bucket_plugin.Cache.Rows.{same_id}
use remote_s3_bucket_plugin.Mounts.{escaped_byte, unescape_from, unescape}
use remote_s3_bucket_plugin.Prelude.{
  ℕ, ◌≡◌, refl, sym, ap, ◌∙◌, inl, inr, false, [], ◌∷◌, ◌++◌, ◌==◌, if◌then◌else◌, Bool-cases,
  codes,
}

-- How the kernel writes a byte of a path: space, tab, line feed and backslash in octal.
unfoldable pub escape_byte : ℕ → Text
escape_byte x =
    if x == 32
    then codes "\\040"
    else if x == 9
    then codes "\\011"
    else if x == 10
    then codes "\\012"
    else if x == 92
    then codes "\\134"
    else x ∷ []

unfoldable pub escape : Text → Text
unfolding escape_byte
escape [] = []
escape (x ∷ s) = escape_byte x ++ escape s

unescape-plain :
    (x : ℕ) (s : Text) → (x == 92) ≡ false → unescape_from 0 (x ∷ s) ≡ x ∷ unescape_from 0 s
unfolding unescape_from
unescape-plain x s h = rw (h, unescape_from) refl

unescape-escape_byte :
    (x : ℕ) (s : Text) → unescape_from 0 (escape_byte x ++ s) ≡ x ∷ unescape_from 0 s
unfolding escape_byte unescape_from escaped_byte has_prefix
unescape-escape_byte x s = elim (Bool-cases (x == 32)) [
  | inl e ↦ rw e (ap (λ n. n ∷ unescape_from 0 s) (sym (same_id x 32 e)))
  | inr a ↦ elim (Bool-cases (x == 9)) [
    | inl e ↦ rw (a, e) (ap (λ n. n ∷ unescape_from 0 s) (sym (same_id x 9 e)))
    | inr b ↦ elim (Bool-cases (x == 10)) [
      | inl e ↦ rw (a, b, e) (ap (λ n. n ∷ unescape_from 0 s) (sym (same_id x 10 e)))
      | inr c ↦ elim (Bool-cases (x == 92)) [
        | inl e ↦ rw (a, b, c, e) (ap (λ n. n ∷ unescape_from 0 s) (sym (same_id x 92 e)))
        | inr d ↦ rw (a, b, c, d) (unescape-plain x s d)
      ]
    ]
  ]
]

pub unescape-escape : (s : Text) → unescape (escape s) ≡ s
unfolding unescape escape unescape_from
unescape-escape [] = refl
unescape-escape (x ∷ s) = unescape-escape_byte x (escape s) ∙ ap (λ t. x ∷ t) (unescape-escape s)
