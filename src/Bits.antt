-- ===== src/Bits.antt =====
-- Binary digits of a machine word, as internal/cache/bitmap.go uses them: `w & (1 << k) != 0`,
-- `w |= 1 << k` and `w &^= 1 << k` on a uint64.
mod Step
use Step.{bit_or_step, bit_and_step}
use remote_s3_bucket_plugin.Prelude.{
  ℕ, zero, suc, ◌+◌, ◌-◌, ◌*◌, ◌/◌, ◌%◌, ◌^◌, ◌≤◌, ◌<◌, bit_and, bit_or, ◌≡◌, refl, Bool, true,
  false, not, ◌&&◌, ◌||◌, arith, ◌==◌, leb, ltb, if◌then◌else◌, Bool-cases, inl, inr, ◌≢◌, ◌∙◌, ap,
  sym, ◌≡⟨◌⟩◌, ◌∎,
}
use Prim.Native.Nat.{bit_and-bitwise}
use native.Mathlib.Nat.{
  pow-suc, suc-add, div-div-eq-div-mul, div-add-mod, mod-lt, mod-eq_of_lt, add-mul-mod_self_right,
}
use Prim.Native.Nat.add

-- Digit `k` of `x`: the meaning of a mask test.
unfoldable pub digit : ℕ → ℕ → Bool
digit x zero = x % 2 == 1
digit x (suc k) = digit (x / 2) k

half-bit_and : (a b : ℕ) → bit_and a b / 2 ≡ bit_and (a / 2) (b / 2)
half-bit_and a b = omega (arith, bit_and_step a b)

half-bit_or : (a b : ℕ) → bit_or a b / 2 ≡ bit_or (a / 2) (b / 2)
half-bit_or a b = omega (arith, bit_or_step a b)

pub digit-bit_and : (a b k : ℕ) → digit (bit_and a b) k ≡ (digit a k && digit b k)
unfolding digit
digit-bit_and a b zero = ground (arith, bit_and_step a b)
digit-bit_and a b (suc k) = rw (half-bit_and a b) (digit-bit_and (a / 2) (b / 2) k)

pub digit-bit_or : (a b k : ℕ) → digit (bit_or a b) k ≡ (digit a k || digit b k)
unfolding digit
digit-bit_or a b zero = ground (arith, bit_or_step a b)
digit-bit_or a b (suc k) = rw (half-bit_or a b) (digit-bit_or (a / 2) (b / 2) k)

half-pow : (k : ℕ) → 2 ^ suc k / 2 ≡ 2 ^ k
half-pow k = omega (arith, pow-suc 2 k)

pub digit-zero : (k : ℕ) → digit 0 k ≡ false
unfolding digit
digit-zero zero = refl
digit-zero (suc k) = digit-zero k

pub digit-pow : (k j : ℕ) → digit (2 ^ k) j ≡ (k == j)
unfolding digit
digit-pow zero zero = refl
digit-pow zero (suc j) = digit-zero j ∙ ground arith
digit-pow (suc k) zero = ground (arith, pow-suc 2 k)
digit-pow (suc k) (suc j) = rw (half-pow k) (digit-pow k j ∙ ground arith)

zero-bit_and : (b : ℕ) → bit_and 0 b ≡ 0
zero-bit_and b = bit_and-bitwise 0 b

bit_and-zero : (a : ℕ) → bit_and a 0 ≡ 0
bit_and-zero a = below a a (omega arith)
  where
    below : (n a : ℕ) → a ≤ n → bit_and a 0 ≡ 0
    below n zero h = omega (arith, bit_and_step 0 0)
    below zero (suc a) h = absurd (omega arith)
    below (suc n) (suc a) h =
        omega (arith, bit_and_step (suc a) 0, below n (suc a / 2) (omega arith))

bit_and-pow : (a k : ℕ) → bit_and a (2 ^ k) ≡ (if digit a k then 2 ^ k else 0)
unfolding digit
bit_and-pow a zero = ground (arith, bit_and_step a 1, bit_and-zero (a / 2))
bit_and-pow a (suc k) =
    ground (arith, bit_and_step a (2 ^ suc k), half-pow k, pow-suc 2 k, bit_and-pow (a / 2) k)

-- `x & (1 << k) != 0`.
unfoldable pub mask_test : ℕ → ℕ → Bool
mask_test x k = not (bit_and x (2 ^ k) == 0)

pub pow-pos : (k : ℕ) → 0 < 2 ^ k
pow-pos zero = omega arith
pow-pos (suc k) = omega (arith, pow-suc 2 k, pow-pos k)

pub mask_test-digit : (x k : ℕ) → mask_test x k ≡ digit x k
unfolding mask_test
mask_test-digit x k = ground (arith, bit_and-pow x k, pow-pos k)

-- `^b` on a word of w bits.
abbrev pub complement : ℕ → ℕ → ℕ
complement w b = 2 ^ w - 1 - b

pub digit-complement : (w b j : ℕ) → b < 2 ^ w → j < w → digit (complement w b) j ≡ not (digit b j)
unfolding digit
digit-complement zero b j fits below = elim below [ ]
digit-complement (suc w) b zero fits below = ground (arith, pow-suc 2 w)
digit-complement (suc w) b (suc j) fits below =
    let half : complement (suc w) b / 2 ≡ complement w (b / 2) = omega (arith, pow-suc 2 w) in
    rw half (digit-complement w (b / 2) j (omega (arith, pow-suc 2 w)) (omega arith))

bit_or-zero : (a b : ℕ) → a ≡ 0 → b ≡ 0 → bit_or a b ≡ 0
bit_or-zero a b p q = rw (p, q)

pub bit_or-lt : (w a b : ℕ) → a < 2 ^ w → b < 2 ^ w → bit_or a b < 2 ^ w
bit_or-lt zero a b p q =
    let none_set : bit_or a b ≡ 0 = bit_or-zero a b (omega arith) (omega arith) in omega arith
bit_or-lt (suc w) a b p q = omega (
  arith,
  bit_or_step a b,
  pow-suc 2 w,
  bit_or-lt w (a / 2) (b / 2) (omega (arith, pow-suc 2 w)) (omega (arith, pow-suc 2 w)),
)

pub bit_and-le : (a b : ℕ) → bit_and a b ≤ a
bit_and-le a b = below a a b (omega arith)
  where
    below : (n a b : ℕ) → a ≤ n → bit_and a b ≤ a
    below n zero b h = rw (zero-bit_and b) (omega arith)
    below zero (suc a) b h = absurd (omega arith)
    below (suc n) (suc a) b h =
        omega (arith, bit_and_step (suc a) b, below n (suc a / 2) (b / 2) (omega arith))

bit_and_self : (a : ℕ) → bit_and a a ≡ a
bit_and_self a = below a a (omega arith)
  where
    below : (n a : ℕ) → a ≤ n → bit_and a a ≡ a
    below n zero h = zero-bit_and 0
    below zero (suc a) h = absurd (omega arith)
    below (suc n) (suc a) h =
        omega (arith, bit_and_step (suc a) (suc a), below n (suc a / 2) (omega arith))

-- `x & (x - 1)`, from the lowest digit up.
pub bit_and-pred_odd : (x : ℕ) → x % 2 ≡ 1 → bit_and x (x - 1) ≡ x / 2 * 2
bit_and-pred_odd x odd =
    let half : (x - 1) / 2 ≡ x / 2 = omega arith in
    omega (arith, bit_and_step x (x - 1), ap (bit_and (x / 2)) half, bit_and_self (x / 2))

pub bit_and-pred_even :
    (x : ℕ) → x % 2 ≡ 0 → 0 < x → bit_and x (x - 1) ≡ bit_and (x / 2) (x / 2 - 1) * 2
bit_and-pred_even x even p =
    let half : (x - 1) / 2 ≡ x / 2 - 1 = omega arith in
    omega (arith, bit_and_step x (x - 1), ap (bit_and (x / 2)) half)

-- A word has no digit at or above its width.
pub digit_above : (w x k : ℕ) → x < 2 ^ w → w ≤ k → digit x k ≡ false
unfolding digit
digit_above zero x k h le = let e : x ≡ 0 = omega arith in rw e (digit-zero k)
digit_above (suc w) x zero h le = absurd (omega arith)
digit_above (suc w) x (suc k) h le =
    digit_above w (x / 2) k (omega (arith, pow-suc 2 w)) (omega arith)

pub eq_of_digits :
    (w x y : ℕ) → x < 2 ^ w → y < 2 ^ w → ((k : ℕ) → k < w → digit x k ≡ digit y k) → x ≡ y
unfolding digit
eq_of_digits zero x y p q same = omega arith
eq_of_digits (suc w) x y p q same = ground (
  arith,
  same 0 (omega arith),
  eq_of_digits w (x / 2) (y / 2) (omega (arith, pow-suc 2 w)) (omega (arith, pow-suc 2 w))
      (λ k h. same (suc k) (omega arith)),
)

div-pow-suc : (x s : ℕ) → x / 2 ^ suc s ≡ x / 2 / 2 ^ s
div-pow-suc x s =
    ap (λ d. x / d) (omega (arith, pow-suc 2 s)) ∙ sym (div-div-eq-div-mul x 2 (2 ^ s))

-- Shifts move digits: `x >> s`.
pub digit-div : (s x k : ℕ) → digit (x / 2 ^ s) k ≡ digit x (s + k)
unfolding digit
digit-div zero x k = rw (add.zero k) (ap (λ y. digit y k) (omega arith))
digit-div (suc s) x k =
    rw (suc-add s k) (ap (λ y. digit y k) (div-pow-suc x s) ∙ digit-div s (x / 2) k)

-- `x << s`, before the result is cut to the word.
mul-pow-suc : (x s : ℕ) → x * 2 ^ suc s ≡ x * 2 ^ s * 2
mul-pow-suc x s = omega (arith, ap (λ t. x * t) (pow-suc 2 s))

pub digit-mul : (s x k : ℕ) → digit (x * 2 ^ s) (s + k) ≡ digit x k
unfolding digit
digit-mul zero x k = rw (add.zero k) (ap (λ y. digit y k) (omega arith))
digit-mul (suc s) x k =
    rw (suc-add s k) (ap (λ y. digit y (s + k)) (omega (arith, mul-pow-suc x s)) ∙ digit-mul s x k)

pub digit-mul_below : (s x k : ℕ) → k < s → digit (x * 2 ^ s) k ≡ false
unfolding digit
digit-mul_below zero x k h = elim h [ ]
digit-mul_below (suc s) x zero h = ground (arith, even)
  where
    even : (x * 2 ^ suc s) % 2 ≡ 0
    even = omega (arith, mul-pow-suc x s)
digit-mul_below (suc s) x (suc k) h =
    ap (λ y. digit y k) (omega (arith, mul-pow-suc x s)) ∙ digit-mul_below s x k (omega arith)

-- The digits of a remainder by `2 * m`: the lowest one, and those of the half.
mod_halves : (x m : ℕ) → 0 < m → x % (m * 2) ≡ x / 2 % m * 2 + x % 2
mod_halves x m h = sym (
    x / 2 % m * 2 + x % 2
    ≡⟨ sym (mod-eq_of_lt small) ⟩ (x / 2 % m * 2 + x % 2) % (m * 2)
    ≡⟨ sym (add-mul-mod_self_right _ _ _) ⟩ (x / 2 % m * 2 + x % 2 + x / 2 / m * (m * 2)) % (m * 2)
    ≡⟨ ap (λ y. y % (m * 2)) (omega (arith, div-add-mod (x / 2) m)) ⟩ x % (m * 2) ∎)
  where
    small : x / 2 % m * 2 + x % 2 < m * 2
    small = omega (arith, mod-lt (x / 2) h)

-- The cast to a narrower word keeps its digits.
pub digit-mod : (w x k : ℕ) → k < w → digit (x % 2 ^ w) k ≡ digit x k
unfolding digit
digit-mod zero x k h = elim h [ ]
digit-mod (suc w) x zero h = rw (pow-suc 2 w) (ground (arith, mod_halves x (2 ^ w) (pow-pos w)))
digit-mod (suc w) x (suc k) h = ap (λ y. digit y k) half ∙ digit-mod w (x / 2) k (omega arith)
  where
    half : x % 2 ^ suc w / 2 ≡ x / 2 % 2 ^ w
    half = rw (pow-suc 2 w) (omega (arith, mod_halves x (2 ^ w) (pow-pos w)))

pub bit_and-le_right : (a b : ℕ) → bit_and a b ≤ b
bit_and-le_right a b = below a a b (omega arith)
  where
    below : (n a b : ℕ) → a ≤ n → bit_and a b ≤ b
    below n zero b h = rw (zero-bit_and b) (omega arith)
    below zero (suc a) b h = absurd (omega arith)
    below (suc n) (suc a) b h =
        omega (arith, bit_and_step (suc a) b, below n (suc a / 2) (b / 2) (omega arith))
