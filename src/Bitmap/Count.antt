-- ===== src/Bitmap/Count.antt =====
-- `count` adds up the present blocks: each round of its loop clears the lowest bit of a word.
pub mod Tally
use Tally.{tally, tally_ext, tally_add, tally_front, tally_none}
use native.Mathlib.Nat.{pow-suc}
use remote_s3_bucket_plugin.Bits.{
  digit, bit_and-pred_odd, bit_and-pred_even, bit_and-le, digit-zero,
}
use remote_s3_bucket_plugin.Bitmap.{Bitmap, count, count_words, ones_loop}
use remote_s3_bucket_plugin.Bitmap.Access.{IsValid, has}
use remote_s3_bucket_plugin.Prelude.{
  ℕ, zero, suc, ◌+◌, ◌-◌, ◌*◌, ◌/◌, ◌%◌, ◌^◌, ◌≤◌, ◌<◌, bit_and, ◌≡◌, refl, sym, ap, inl, inr, Bool,
  false, List, [], ◌∷◌, arith, ℕ-cases, length, set, get_or,
}

-- The number of bits set among the `k` lowest of `w`.
ones : ℕ → ℕ → ℕ
ones zero w = 0
ones (suc k) w = w % 2 + ones k (w / 2)

ones-zero : (k : ℕ) → ones k 0 ≡ 0
unfolding ones
ones-zero zero = refl
ones-zero (suc k) = omega (arith, ones-zero k)

ones-le : (k w : ℕ) → ones k w ≤ k
unfolding ones
ones-le zero w = omega arith
ones-le (suc k) w = omega (arith, ones-le k (w / 2))

mul-div_self : (x : ℕ) → x * 2 / 2 ≡ x
mul-div_self x = omega arith

-- `w & (w - 1)` drops the lowest bit that is set.
ones-bit_and : (k w : ℕ) → 0 < w → w < 2 ^ k → ones k (bit_and w (w - 1)) + 1 ≡ ones k w
unfolding ones
ones-bit_and zero w p q = absurd (omega arith)
ones-bit_and (suc k) w p q = elim (ℕ-cases 0 (w % 2)) [
  | inl odd ↦ omega (
    arith,
    ap (λ y. ones k (y / 2)) (bit_and-pred_odd w (omega arith)),
    bit_and-pred_odd w (omega arith),
    ap (ones k) (mul-div_self (w / 2)),
  )
  | inr even ↦ omega (
    arith,
    bit_and-pred_even w (omega arith) p,
    ap (λ y. ones k (y / 2)) (bit_and-pred_even w (omega arith) p),
    ap (ones k) (mul-div_self (bit_and (w / 2) (w / 2 - 1))),
    ones-bit_and k (w / 2) (omega arith) (omega (arith, pow-suc 2 k)),
  )
]

ones_loop_lem : (fuel w n : ℕ) → w < 2 ^ 64 → ones 64 w ≤ fuel → ones_loop fuel w n ≡ n + ones 64 w
unfolding ones_loop
ones_loop_lem zero zero n fits enough = omega (arith, ones-zero 64)
ones_loop_lem zero (suc w) n fits enough =
    absurd (omega (arith, ones-bit_and 64 (suc w) (omega arith) fits))
ones_loop_lem (suc fuel) zero n fits enough = omega (arith, ones-zero 64)
ones_loop_lem (suc fuel) (suc w) n fits enough =
    let less = ones-bit_and 64 (suc w) (omega arith) fits in
    let rest =
      ones_loop_lem fuel (bit_and (suc w) (suc w - 1)) (n + 1)
        (omega (arith, bit_and-le (suc w) (suc w - 1))) (omega (arith, less)) in
    ground (arith, rest, less)

ones-tally : (k w : ℕ) → ones k w ≡ tally (digit w) k
unfolding ones tally digit
ones-tally zero w = refl
ones-tally (suc k) w = ground (arith, tally_front (digit w) k, ones-tally k (w / 2))

-- The words as one row of bits.
bit_at : List ℕ → ℕ → Bool
bit_at ws i = digit (get_or ws (i / 64) 0) (i % 64)

bit_at-first : (w : ℕ) (ws : List ℕ) (i : ℕ) → i < 64 → bit_at (w ∷ ws) i ≡ digit w i
unfolding bit_at
bit_at-first w ws i h =
    let word : i / 64 ≡ 0 = omega arith in let place : i % 64 ≡ i = omega arith in rw (word, place)

bit_at-later : (w : ℕ) (ws : List ℕ) (i : ℕ) → bit_at (w ∷ ws) (64 + i) ≡ bit_at ws i
unfolding bit_at
bit_at-later w ws i =
    let word : (64 + i) / 64 ≡ suc (i / 64) = omega arith in
    let place : (64 + i) % 64 ≡ i % 64 = omega arith in rw (word, place)

tally_past :
    (p : ℕ → Bool) (n bound : ℕ)
    → n ≤ bound
    → ((i : ℕ) → n ≤ i → p i ≡ false)
    → tally p bound ≡ tally p n
tally_past p n bound h empty =
    let more : bound ≡ n + (bound - n) = omega arith in
    rw more (
      omega (
        arith,
        tally_add p n (bound - n),
        tally_none (λ i. p (n + i)) (bound - n) (λ i _. empty (n + i) (omega arith)),
      ))

count_words_lem :
    (ws : List ℕ) (n : ℕ)
    → ((k : ℕ) → get_or ws k 0 < 2 ^ 64)
    → count_words ws n ≡ n + tally (bit_at ws) (64 * length ws)
unfolding count_words
count_words_lem [] n fits = omega (arith, tally_none (bit_at []) 0 (λ i h. elim h [ ]))
count_words_lem (w ∷ ws) n fits =
    let all = bit_at (w ∷ ws) in
    let split = tally_add all 64 (64 * length ws) in
    let first = tally_ext (digit w) all 64 (λ i h. sym (bit_at-first w ws i h)) in
    let later = tally_ext _ (bit_at ws) (64 * length ws) (λ i h. bit_at-later w ws i) in
    let size : 64 * suc (length ws) ≡ 64 + 64 * length ws = omega arith in
    rw size (
      omega (
        arith,
        count_words_lem ws (ones_loop 64 w n) (λ k. fits (suc k)),
        ones_loop_lem 64 w n (fits 0) (ones-le 64 w),
        ones-tally 64 w,
        split,
        first,
        later,
      ))

-- `count` is the number of present blocks, up to any bound past the last word.
pub count-tally : (b : Bitmap) (bound : ℕ) → IsValid b → b.n ≤ bound → count b ≡ tally (has b) bound
unfolding count bit_at
count-tally b bound v h = omega (
  arith,
  count_words_lem b.words 0 v.fits,
  tally_past (has b) b.n bound h v.bounded,
  tally_past (has b) b.n (64 * length b.words) v.covers v.bounded,
)
