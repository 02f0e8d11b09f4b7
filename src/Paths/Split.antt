-- ===== src/Paths/Split.antt =====
-- Paths put together and taken apart.
use remote_s3_bucket_plugin.Table.{Text, has_prefix}
use remote_s3_bucket_plugin.Paths.{
  last_index, trim_prefix, is_top, join, parent_of, base_of, key, path_of,
}
use remote_s3_bucket_plugin.Prelude.{
  ℕ, suc, ◌+◌, ◌≡◌, refl, ap, ◌∙◌, inl, inr, true, false, none, some, [], ◌∷◌, ◌++◌, arith,
  if◌then◌else◌, Bool-cases, length, take, drop,
}

-- The last slash of `d/n` is the one after `d` if there is none in `n`.
last_index-append :
    (d n : Text) → last_index 47 n ≡ none → last_index 47 (d ++ 47 ∷ n) ≡ some (length d)
unfolding last_index
last_index-append [] n h = rw h refl
last_index-append (x ∷ d) n h = rw (last_index-append d n h) refl

take-length : (d n : Text) → take (length d) (d ++ n) ≡ d
take-length [] n = refl
take-length (x ∷ d) n = ap (λ t. x ∷ t) (take-length d n)

drop-length : (d n : Text) → drop (length d) (d ++ n) ≡ n
drop-length [] n = refl
drop-length (x ∷ d) n = drop-length d n

drop-past : (d n : Text) → drop (length d + 1) (d ++ 47 ∷ n) ≡ n
drop-past [] n = refl
drop-past (x ∷ d) n =
    let step : suc (length d) + 1 ≡ suc (length d + 1) = omega arith in rw step (drop-past d n)

has_prefix-append : (a b : Text) → has_prefix (a ++ b) a ≡ true
unfolding has_prefix
has_prefix-append [] [] = refl
has_prefix-append [] (y ∷ b) = refl
has_prefix-append (x ∷ a) b = ground (arith, has_prefix-append a b)

whole : (p : Text) → last_index 47 p ≡ none → (parent_of p ≡ []) × (base_of p ≡ p)
unfolding parent_of base_of
whole p h = (
  ap (λ o. elim o [ none ↦ [] | some i ↦ take i p ]) h,
  ap (λ o. elim o [ none ↦ p | some i ↦ drop (i + 1) p ]) h,
)

split :
    (p : Text) (i : ℕ)
    → last_index 47 p ≡ some i
    → (parent_of p ≡ take i p) × (base_of p ≡ drop (i + 1) p)
unfolding parent_of base_of
split p i h = (
  ap (λ o. elim o [ none ↦ [] | some i ↦ take i p ]) h,
  ap (λ o. elim o [ none ↦ p | some i ↦ drop (i + 1) p ]) h,
)

-- `parentOf` and `baseOf` take apart what `join` puts together, for a name without a slash. A
-- directory that is spelled "." is the top.
pub parts-join :
    (dir name : Text)
    → last_index 47 name ≡ none
    → (parent_of (join dir name) ≡ (if is_top dir then [] else dir))
      × (base_of (join dir name) ≡ name)
unfolding join
parts-join dir name h = elim (Bool-cases (is_top dir)) [
  | inl top ↦ simp top (whole name h)
  | inr below ↦
      let (parent, base) = split (dir ++ 47 ∷ name) (length dir) (last_index-append dir name h) in
      simp below (parent ∙ take-length dir (47 ∷ name), base ∙ drop-past dir name)
]

-- `PathOf` undoes `Key` for a path without a leading slash, whatever the prefix of the mount is.
pub path_of-key :
    (prefix path : Text)
    → has_prefix path (47 ∷ []) ≡ false
    → path_of prefix (key prefix path) ≡ path
unfolding path_of key trim_prefix
path_of-key prefix path h = rw h (rw (has_prefix-append prefix path) (drop-length prefix path))
