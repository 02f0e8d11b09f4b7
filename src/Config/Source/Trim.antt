-- ===== src/Config/Source/Trim.antt =====
-- Trimming and cutting at the bytes of a set.
use remote_s3_bucket_plugin.Table.{Text}
use remote_s3_bucket_plugin.Config.Source.{
  trim_left, is_empty, trim_right, contains_any, cut_any, is_space, is_space_char, space_width,
  trim_start, trim_end, trim_space,
}
use remote_s3_bucket_plugin.Prelude.{
  ℕ, ◌≡◌, refl, ap, ◌∙◌, inl, inr, Bool, true, false, ◌||◌, [], ◌∷◌, ◌++◌, arith, leb, take,
  Bool-cases,
}

unfoldable pub first_is : (ℕ → Bool) → Text → Bool
first_is f [] = false
first_is f (x ∷ xs) = f x

unfoldable pub last_is : (ℕ → Bool) → Text → Bool
last_is f [] = false
last_is f (x ∷ []) = f x
last_is f (x ∷ y ∷ xs) = last_is f (y ∷ xs)

module _ (f : ℕ → Bool) where
  pub trim_left-first : (s : Text) → first_is f (trim_left f s) ≡ false
  unfolding trim_left first_is
  trim_left-first [] = refl
  trim_left-first (x ∷ xs) = elim (Bool-cases (f x)) [
    | inl goes ↦ rw goes (trim_left-first xs)
    | inr stays ↦ rw stays stays
  ]

  pub trim_right-first : (s : Text) → first_is f s ≡ false → first_is f (trim_right f s) ≡ false
  unfolding trim_right first_is
  trim_right-first [] h = refl
  trim_right-first (x ∷ xs) h = rw h h

  last-cons : (x : ℕ) (s : Text) → is_empty s ≡ false → last_is f (x ∷ s) ≡ last_is f s
  unfolding last_is
  last-cons x [] h = let bad : true ≡ false = h in cc
  last-cons x (y ∷ s) h = refl

  is_empty-nil : (s : Text) → is_empty s ≡ true → s ≡ []
  is_empty-nil [] h = refl
  is_empty-nil (x ∷ xs) h = let bad : false ≡ true = h in cc

  trim_right-cons :
      (x : ℕ) (xs : Text)
      → is_empty (trim_right f xs) ≡ false
      → trim_right f (x ∷ xs) ≡ x ∷ trim_right f xs
  unfolding trim_right
  trim_right-cons x xs more = elim (Bool-cases (f x)) [
    | inl sep ↦ rw (sep, more) refl
    | inr other ↦ rw other refl
  ]

  pub trim_right-last : (s : Text) → last_is f (trim_right f s) ≡ false
  unfolding trim_right last_is
  trim_right-last [] = refl
  trim_right-last (x ∷ xs) = elim (Bool-cases (is_empty (trim_right f xs))) [
    | inr more ↦
        ap (last_is f) (trim_right-cons x xs more)
        ∙ last-cons x (trim_right f xs) more
        ∙ trim_right-last xs
    | inl over ↦
        let nothing = is_empty-nil (trim_right f xs) over in
        elim (Bool-cases (f x)) [
          | inl sep ↦ rw (nothing, sep) refl
          | inr other ↦ rw (nothing, other) other
        ]
  ]

  pub trim_left-fixed : (s : Text) → first_is f s ≡ false → trim_left f s ≡ s
  unfolding trim_left first_is
  trim_left-fixed [] h = refl
  trim_left-fixed (x ∷ xs) h = rw h refl

  pub trim_right-fixed : (s : Text) → last_is f s ≡ false → trim_right f s ≡ s
  unfolding trim_right last_is
  trim_right-fixed [] h = refl
  trim_right-fixed (x ∷ []) h = rw h refl
  trim_right-fixed (x ∷ y ∷ xs) h =
      let rest = trim_right-fixed (y ∷ xs) h in
      trim_right-cons x (y ∷ xs) (ap is_empty rest) ∙ ap (λ t. x ∷ t) rest

  pub cut_any-before : (s : Text) → contains_any f (cut_any f s).0 ≡ false
  unfolding cut_any contains_any
  cut_any-before [] = refl
  cut_any-before (x ∷ xs) = elim (Bool-cases (f x)) [
    | inl here ↦ rw here refl
    | inr other ↦ rw (other, other) (cut_any-before xs)
  ]

  pub cut_any-none : (s : Text) → contains_any f s ≡ false → cut_any f s ≡ (s, [])
  unfolding cut_any contains_any
  cut_any-none [] h = refl
  cut_any-none (x ∷ xs) h =
      let other : f x ≡ false = ground arith in rw (other, cut_any-none xs (ground arith)) refl

  pub cut_any-append :
      (s : Text) (x : ℕ) (t : Text)
      → contains_any f s ≡ false
      → f x ≡ true
      → cut_any f (s ++ x ∷ t) ≡ (s, t)
  unfolding cut_any contains_any
  cut_any-append [] x t h sep = rw sep refl
  cut_any-append (y ∷ s) x t h sep =
      let other : f y ≡ false = ground arith in
      rw (other, cut_any-append s x t (ground arith) sep) refl

-- A byte with which a whitespace character can start or end.
unfoldable pub is_edge : ℕ → Bool
unfolding is_space
is_edge x = is_space x || leb 128 x

edge_first : (a : ℕ) (s : Text) → is_edge a ≡ false → is_space_char (a ∷ s) ≡ false
unfolding is_edge is_space_char is_space
edge_first a [] h = ground (arith, h)
edge_first a (b ∷ []) h = ground (arith, h)
edge_first a (b ∷ c ∷ []) h = ground (arith, h)
edge_first a (b ∷ c ∷ d ∷ s) h = refl

edge_last : (a : ℕ) (s : Text) → last_is is_edge (a ∷ s) ≡ false → is_space_char (a ∷ s) ≡ false
unfolding is_edge is_space_char is_space last_is
edge_last a [] h = ground (arith, h)
edge_last a (b ∷ []) h = ground (arith, h)
edge_last a (b ∷ c ∷ []) h = ground (arith, h)
edge_last a (b ∷ c ∷ d ∷ s) h = refl

space_width-edge : (a : ℕ) (s : Text) → is_edge a ≡ false → space_width (a ∷ s) ≡ 0
unfolding space_width
space_width-edge a s h =
    rw (edge_first a [] h, edge_first a (take 1 s) h, edge_first a (take 2 s) h) refl

pub trim_start-edge : (s : Text) → first_is is_edge s ≡ false → trim_start 0 s ≡ s
unfolding trim_start first_is
trim_start-edge [] h = refl
trim_start-edge (x ∷ s) h = rw (space_width-edge x s h) refl

-- Whether the text ends in a whitespace character.
unfoldable pub ends_in_space : Text → Bool
ends_in_space [] = false
ends_in_space (x ∷ s) = let rest = ends_in_space s in is_space_char (x ∷ s) || rest

pub ends_in_space-cons :
    (x : ℕ) (s : Text) → is_edge x ≡ false → ends_in_space (x ∷ s) ≡ ends_in_space s
unfolding ends_in_space
ends_in_space-cons x s h = rw (edge_first x s h) refl

pub ends_in_space-edge : (s : Text) → last_is is_edge s ≡ false → ends_in_space s ≡ false
unfolding ends_in_space last_is
ends_in_space-edge [] h = refl
ends_in_space-edge (x ∷ []) h = rw (edge_last x [] h) refl
ends_in_space-edge (x ∷ y ∷ s) h = rw (edge_last x (y ∷ s) h) (ends_in_space-edge (y ∷ s) h)

pub trim_end-fixed : (s : Text) → ends_in_space s ≡ false → trim_end s ≡ s
unfolding trim_end ends_in_space
trim_end-fixed [] h = refl
trim_end-fixed (x ∷ s) h =
    let plain : is_space_char (x ∷ s) ≡ false = ground arith in
    let rest : trim_end s ≡ s = trim_end-fixed s (ground arith) in rw rest (rw plain refl)

pub trim_space-edge :
    (s : Text) → first_is is_edge s ≡ false → ends_in_space s ≡ false → trim_space s ≡ s
unfolding trim_space
trim_space-edge s h k = ap trim_end (trim_start-edge s h) ∙ trim_end-fixed s k
