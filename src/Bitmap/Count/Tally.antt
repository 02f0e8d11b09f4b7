-- ===== src/Bitmap/Count/Tally.antt =====
-- How many numbers below a bound pass a test.
use native.Mathlib.Nat.{add-zero, add-suc}
use remote_s3_bucket_plugin.Prelude.{
  ℕ, zero, suc, ◌+◌, ◌<◌, ◌≡◌, refl, ap, inl, inr, Bool, true, false, arith, ◌==◌, if◌then◌else◌,
  ℕ-cases,
}

unfoldable pub tally : (ℕ → Bool) → ℕ → ℕ
tally p zero = 0
tally p (suc n) = (if p n then 1 else 0) + tally p n

pub tally_ext : (p q : ℕ → Bool) (n : ℕ) → ((i : ℕ) → i < n → p i ≡ q i) → tally p n ≡ tally q n
unfolding tally
tally_ext p q zero h = refl
tally_ext p q (suc n) h = rw (h n (omega arith), tally_ext p q n (λ i less. h i (omega arith)))

pub tally_add : (p : ℕ → Bool) (a n : ℕ) → tally p (a + n) ≡ tally p a + tally (λ i. p (a + i)) n
unfolding tally
tally_add p a zero = rw add-zero (omega arith)
tally_add p a (suc n) = rw add-suc (omega (arith, tally_add p a n))

-- Counted from the front.
pub tally_front :
    (p : ℕ → Bool) (n : ℕ) → tally p (suc n) ≡ (if p 0 then 1 else 0) + tally (λ i. p (suc i)) n
unfolding tally
tally_front p zero = refl
tally_front p (suc n) = omega (arith, tally_front p n)

pub tally_none : (p : ℕ → Bool) (n : ℕ) → ((i : ℕ) → i < n → p i ≡ false) → tally p n ≡ 0
unfolding tally
tally_none p zero h = refl
tally_none p (suc n) h =
    rw (h n (omega arith)) (omega (arith, tally_none p n (λ i less. h i (omega arith))))

pub tally_set :
    (p q : ℕ → Bool) (n i : ℕ)
    → i < n
    → ((j : ℕ) → q j ≡ (if i == j then true else p j))
    → tally q n ≡ tally p n + (if p i then 0 else 1)
unfolding tally
tally_set p q zero i less h = elim less [ ]
tally_set p q (suc n) i less h = elim (ℕ-cases i n) [
  | inl below ↦ ground (arith, h n, tally_set p q n i below h)
  | inr top ↦
      let same = tally_ext p q n (λ j lt. ground (arith, h j)) in
      ground (arith, h n, same, ap p {x = i} {y = n})
]

pub tally_clear :
    (p q : ℕ → Bool) (n i : ℕ)
    → i < n
    → ((j : ℕ) → q j ≡ (if i == j then false else p j))
    → tally q n + (if p i then 1 else 0) ≡ tally p n
unfolding tally
tally_clear p q zero i less h = elim less [ ]
tally_clear p q (suc n) i less h = elim (ℕ-cases i n) [
  | inl below ↦ ground (arith, h n, tally_clear p q n i below h)
  | inr top ↦
      let same = tally_ext p q n (λ j lt. ground (arith, h j)) in
      ground (arith, h n, same, ap p {x = i} {y = n})
]
