-- ===== src/Config/Values/Ends.antt =====
-- The ends of a text: bytes that may be there, and the digits of a number.
use remote_s3_bucket_plugin.Table.{Text}
use remote_s3_bucket_plugin.Decimal.{format_loop, format_uint}
use remote_s3_bucket_plugin.Config.Source.{is_empty, trim_space}
use remote_s3_bucket_plugin.Config.Source.Trim.{
  first_is, last_is, is_edge, ends_in_space-edge, trim_space-edge,
}
use remote_s3_bucket_plugin.Config.Values.{strip_last}
use remote_s3_bucket_plugin.Prelude.{
  ℕ, zero, suc, ◌+◌, ◌/◌, ◌%◌, ◌<◌, ◌≡◌, refl, ap, subst, ◌∙◌, inl, inr, Bool, true, false, [], ◌∷◌,
  ◌++◌, arith, lt→ltb, le→ltb_false, ℕ-cases, append_nil,
}

-- Nothing, or one byte of a set.
unfoldable pub IsOptional : (ℕ → Bool) → Text → Type 0
IsOptional f [] = Unit
IsOptional f (x ∷ []) = f x ≡ true
IsOptional f (x ∷ y ∷ xs) = ⊥

-- No digit is of the set.
abbrev pub Spares : (ℕ → Bool) → Type 0
Spares f = (d : ℕ) → d < 10 → f (48 + d) ≡ false

module _ (f : ℕ → Bool) where
  pub last-append : (s : Text) (x : ℕ) → last_is f (s ++ x ∷ []) ≡ f x
  unfolding last_is
  last-append [] x = refl
  last-append (y ∷ []) x = refl
  last-append (y ∷ z ∷ s) x = last-append (z ∷ s) x

  first-append :
      (s t : Text) → first_is f s ≡ false → first_is f t ≡ false → first_is f (s ++ t) ≡ false
  unfolding first_is
  first-append [] t h k = k
  first-append (x ∷ s) t h k = h

  strip_last-append : (s : Text) (x : ℕ) → f x ≡ true → strip_last f (s ++ x ∷ []) ≡ s
  unfolding strip_last
  strip_last-append [] x h = rw h refl
  strip_last-append (y ∷ []) x h = rw h refl
  strip_last-append (y ∷ z ∷ s) x h = ap (λ r. y ∷ r) (strip_last-append (z ∷ s) x h)

  strip_last-fixed : (s : Text) → last_is f s ≡ false → strip_last f s ≡ s
  unfolding strip_last last_is
  strip_last-fixed [] h = refl
  strip_last-fixed (x ∷ []) h = rw h refl
  strip_last-fixed (x ∷ y ∷ s) h = ap (λ r. x ∷ r) (strip_last-fixed (y ∷ s) h)

  -- A byte at the end that may be there is taken off.
  pub strip_last-optional :
      (s t : Text) → IsOptional f t → last_is f s ≡ false → strip_last f (s ++ t) ≡ s
  unfolding IsOptional
  strip_last-optional s [] o h = ap (strip_last f) (append_nil s) ∙ strip_last-fixed s h
  strip_last-optional s (x ∷ []) o h = strip_last-append s x o
  strip_last-optional s (x ∷ y ∷ xs) o h = absurd o

  pub last-optional :
      (g : ℕ → Bool) (s t : Text)
      → ((x : ℕ) → g x ≡ true → f x ≡ false)
      → IsOptional g t
      → last_is f s ≡ false
      → last_is f (s ++ t) ≡ false
  unfolding IsOptional
  last-optional g s [] apart o h = ap (last_is f) (append_nil s) ∙ h
  last-optional g s (x ∷ []) apart o h = last-append s x ∙ apart x o
  last-optional g s (x ∷ y ∷ xs) apart o h = absurd o

  pub format_loop-ends :
      (fuel n : ℕ)
      → Spares f
      → (last_is f (format_loop fuel n) ≡ false) × (first_is f (format_loop fuel n) ≡ false)
  unfolding format_loop last_is first_is
  format_loop-ends zero n h = (refl, refl)
  format_loop-ends (suc fuel) n h = elim (ℕ-cases n 10) [
    | inl small ↦ rw (lt→ltb n 10 small) (h n small, h n small)
    | inr big ↦
        let digit : n % 10 < 10 = omega arith in
        let (_, start) = format_loop-ends fuel (n / 10) h in
        rw (le→ltb_false n 10 big) (
          last-append (format_loop fuel (n / 10)) (48 + n % 10) ∙ h (n % 10) digit,
          first-append (format_loop fuel (n / 10)) ((48 + n % 10) ∷ []) start (h (n % 10) digit),
        )
  ]

-- Text whose first byte is no space, and whose last is none.
pub trim_space-tight :
    (s : Text) → first_is is_edge s ≡ false → last_is is_edge s ≡ false → trim_space s ≡ s
trim_space-tight s h k = trim_space-edge s h (ends_in_space-edge s k)

pub named-append : (s t : Text) → is_empty s ≡ false → is_empty (s ++ t) ≡ false
named-append [] t h = let clash : true ≡ false = h in cc
named-append (x ∷ s) t h = refl

pub first_is-named :
    (f : ℕ → Bool) (s t : Text)
    → is_empty s ≡ false
    → first_is f s ≡ false
    → first_is f (s ++ t) ≡ false
unfolding first_is
first_is-named f [] t named h = let clash : true ≡ false = named in cc
first_is-named f (x ∷ s) t named h = h

pub format_uint-named : (n : ℕ) → is_empty (format_uint n) ≡ false
unfolding format_uint format_loop
format_uint-named n =
    subst (λ k. is_empty (format_loop k n) ≡ false) {x = suc n} (omega arith) (starts n)
  where
    starts : (n : ℕ) → is_empty (format_loop (suc n) n) ≡ false
    starts n = elim (ℕ-cases n 10) [
      | inl small ↦ rw (lt→ltb n 10 small) refl
      | inr big ↦ rw (le→ltb_false n 10 big) (ends (format_loop n (n / 10)) (48 + n % 10))
    ]
      where
        ends : (s : Text) (x : ℕ) → is_empty (s ++ x ∷ []) ≡ false
        ends [] x = refl
        ends (y ∷ s) x = refl

pub format_uint-ends :
    (f : ℕ → Bool) (n : ℕ)
    → Spares f
    → (last_is f (format_uint n) ≡ false) × (first_is f (format_uint n) ≡ false)
unfolding format_uint
format_uint-ends f n h = format_loop-ends f (n + 1) n h
