-- ===== src/Bitmap/Codec.antt =====
-- The bitmap in the cache index: eight little-endian bytes a word.
use remote_s3_bucket_plugin.Bits.{
  digit, digit-zero, digit-mod, digit-div, digit-mul, digit-mul_below, digit_above, digit-bit_or,
  mask_test-digit,
}
use remote_s3_bucket_plugin.Bitmap.{
  Bitmap, new_bitmap, get, load_byte, bytes, words_bytes, word_bytes, load_bytes, bitmap_from_bytes,
}
use remote_s3_bucket_plugin.Bitmap.Access.{IsValid, has, get_or-set}
use remote_s3_bucket_plugin.Prelude.{
  ℕ, zero, suc, ◌+◌, ◌-◌, ◌*◌, ◌/◌, ◌%◌, ◌^◌, ◌≤◌, ◌<◌, bit_or, ◌≡◌, refl, ap, ◌∙◌, inl, inr, false,
  ◌&&◌, ◌||◌, List, [], ◌∷◌, ◌++◌, arith, ltb, leb, ◌==◌, if◌then◌else◌, lt→ltb, le→ltb_false,
  ℕ-cases, length, length-set, get_or, replicate, length-replicate, pos,
}

get_or-replicate : (k i : ℕ) → get_or {A = ℕ} (replicate k 0) i 0 ≡ 0
get_or-replicate zero i = refl
get_or-replicate (suc k) zero = refl
get_or-replicate (suc k) (suc i) = get_or-replicate k i

get_or-word_bytes :
    (w j r q : ℕ) (rest : List ℕ)
    → get_or (word_bytes w j r ++ rest) q 0
      ≡ (if ltb q r then w / 2 ^ (8 * (j + q)) % 2 ^ 8 else get_or rest (q - r) 0)
unfolding word_bytes
get_or-word_bytes w j zero q rest =
    ground (arith, ap (λ k. get_or rest k 0) {x = q - 0} {y = q} (omega arith))
get_or-word_bytes w j (suc r) zero rest =
    ground (arith, ap (λ k. w / 2 ^ (8 * k) % 2 ^ 8) {x = j} {y = j + 0} (omega arith))
get_or-word_bytes w j (suc r) (suc q) rest = ground (
  arith,
  get_or-word_bytes w (j + 1) r q rest,
  ap (λ k. w / 2 ^ (8 * k) % 2 ^ 8) {x = j + 1 + q} {y = j + suc q} (omega arith),
  ap (λ k. get_or rest k 0) {x = suc q - suc r} {y = q - r} (omega arith),
)

-- Bit `p` of the words is bit `p % 8` of byte `p / 8`.
bytes_bit :
    (ws : List ℕ) (p : ℕ)
    → digit (get_or (words_bytes ws) (p / 8) 0) (p % 8) ≡ digit (get_or ws (p / 64) 0) (p % 64)
unfolding words_bytes
bytes_bit [] p = rw (digit-zero (p % 8), digit-zero (p % 64))
bytes_bit (w ∷ ws) p = elim (ℕ-cases p 64) [
  | inl low ↦
      let word : p / 64 ≡ 0 = omega arith in
      let place : p % 64 ≡ p = omega arith in
      let same : 8 * (0 + p / 8) + p % 8 ≡ p = omega arith in
      ground (
        arith,
        get_or-word_bytes w 0 8 (p / 8) (words_bytes ws),
        digit-mod 8 (w / 2 ^ (8 * (0 + p / 8))) (p % 8) (omega arith),
        digit-div (8 * (0 + p / 8)) w (p % 8),
        ap (digit w) same,
        ap (digit w) place,
        ap (λ k. get_or (w ∷ ws) k 0) word,
      )
  | inr high ↦
      let rest = p - 64 in
      let byte : p / 8 - 8 ≡ rest / 8 = omega arith in
      let word : p / 64 ≡ suc (rest / 64) = omega arith in
      let place : p % 8 ≡ rest % 8 = omega arith in
      let place' : p % 64 ≡ rest % 64 = omega arith in
      ground (
        arith,
        get_or-word_bytes w 0 8 (p / 8) (words_bytes ws),
        bytes_bit ws rest,
        ap (λ k. get_or (words_bytes ws) k 0) byte,
        ap (digit (get_or (words_bytes ws) (p / 8 - 8) 0)) place,
        ap (λ k. get_or (w ∷ ws) k 0) word,
        ap (digit (get_or (w ∷ ws) (p / 64) 0)) place',
      )
]

bytes_small : (ws : List ℕ) (q : ℕ) → get_or (words_bytes ws) q 0 < 2 ^ 8
unfolding words_bytes
bytes_small [] q = omega arith
bytes_small (w ∷ ws) q =
    ground (arith, get_or-word_bytes w 0 8 q (words_bytes ws), bytes_small ws (q - 8))

-- A byte shifted into its place in a word.
digit-shl :
    (x s t : ℕ)
    → x < 2 ^ 8
    → t < 64
    → digit (x * 2 ^ s % 2 ^ 64) t ≡ (leb s t && ltb t (s + 8) && digit x (t - s))
digit-shl x s t small h = digit-mod 64 (x * 2 ^ s) t h ∙ elim (ℕ-cases t s) [
  | inl below ↦ ground (arith, digit-mul_below s x t below)
  | inr le ↦
      let e : s + (t - s) ≡ t = omega arith in
      ground (
        arith,
        digit-mul s x (t - s),
        ap (digit (x * 2 ^ s)) e,
        λ (far : 8 ≤ t - s). digit_above 8 x (t - s) small far,
      )
]

has-load_byte :
    (b : Bitmap) (k x p : ℕ)
    → x < 2 ^ 8
    → k / 8 < length b.words
    → has (load_byte b k x) p ≡ (has b p || (k == p / 8 && digit x (p % 8)))
unfolding load_byte
has-load_byte b k x p small h = ground (
  arith,
  get_or-set b.words (k / 8) (p / 64)
      (bit_or (get_or b.words (k / 8) 0) (x * 2 ^ (8 * (k % 8)) % 2 ^ 64)) h,
  digit-bit_or (get_or b.words (k / 8) 0) (x * 2 ^ (8 * (k % 8)) % 2 ^ 64) (p % 64),
  digit-shl x (8 * (k % 8)) (p % 64) small (omega arith),
  ap (λ i. digit (get_or b.words i 0) (p % 64)) {x = k / 8} {y = p / 64},
  ap (digit x) {x = p % 64 - 8 * (k % 8)} {y = p % 8},
)

length-load_byte : (b : Bitmap) (k x : ℕ) → length (load_byte b k x).words ≡ length b.words
unfolding load_byte
length-load_byte b k x = length-set b.words _ _

n-load_byte : (b : Bitmap) (k x : ℕ) → (load_byte b k x).n ≡ b.n
unfolding load_byte
n-load_byte b k x = refl

load_bytes-has :
    (xs : List ℕ) (b : Bitmap) (k p : ℕ)
    → ((q : ℕ) → get_or xs q 0 < 2 ^ 8)
    → p / 64 < length b.words
    → has (load_bytes b k xs) p
      ≡ (has b p || (leb k (p / 8) && digit (get_or xs (p / 8 - k) 0) (p % 8)))
unfolding load_bytes
load_bytes-has [] b k p small h = ground (arith, digit-zero (p % 8))
load_bytes-has (x ∷ xs) b k p small h = elim (ℕ-cases (k / 8) (length b.words)) [
  | inr full ↦ rw (le→ltb_false (k / 8) (length b.words) full) (ground arith)
  | inl room ↦ rw (lt→ltb (k / 8) (length b.words) room) (
      ground (
        arith,
        has-load_byte b k x p (small 0) room,
        load_bytes-has xs (load_byte b k x) (k + 1) p (λ q. small (suc q))
            (omega (arith, length-load_byte b k x)),
        ap (λ q. get_or (x ∷ xs) q 0) {x = p / 8 - k} {y = suc (p / 8 - (k + 1))},
        ap (λ q. get_or (x ∷ xs) q 0) {x = p / 8 - k} {y = 0},
      ))
]

load_bytes-n : (xs : List ℕ) (b : Bitmap) (k : ℕ) → (load_bytes b k xs).n ≡ b.n
unfolding load_bytes
load_bytes-n [] b k = refl
load_bytes-n (x ∷ xs) b k =
    ground (arith, n-load_byte b k x, load_bytes-n xs (load_byte b k x) (k + 1))

has-replicate : (k i : ℕ) → digit (get_or {A = ℕ} (replicate k 0) (i / 64) 0) (i % 64) ≡ false
has-replicate k i = rw (get_or-replicate k (i / 64)) (digit-zero (i % 64))

-- What was present among the first `n` blocks is present after a round trip through the index,
-- and nothing else.
pub get-bitmap_from_bytes :
    (b : Bitmap) (n i : ℕ)
    → get (bitmap_from_bytes (bytes b) (pos n)) (pos i) ≡ (ltb i n && has b i)
unfolding get bitmap_from_bytes bytes new_bitmap
get-bitmap_from_bytes b n i = elim (ℕ-cases i n) [
  | inr out ↦ rw (load_bytes-n (words_bytes b.words) (new_bitmap (pos n)) 0) (ground arith)
  | inl h ↦ ground (
    arith,
    load_bytes-n (words_bytes b.words) (new_bitmap (pos n)) 0,
    mask_test-digit
        (get_or (load_bytes (new_bitmap (pos n)) 0 (words_bytes b.words)).words (i / 64) 0)
        (i % 64),
    load_bytes-has (words_bytes b.words) (new_bitmap (pos n)) 0 i (bytes_small b.words)
        (omega (arith, length-replicate {A = ℕ} ((n + 63) / 64) 0)),
    has-replicate ((n + 63) / 64) i,
    bytes_bit b.words i,
  )
]

-- A new bitmap is well-formed, and no block is present.
pub new_bitmap-IsValid :
    (n : ℕ) → IsValid (new_bitmap (pos n)) × ((i : ℕ) → has (new_bitmap (pos n)) i ≡ false)
unfolding new_bitmap
new_bitmap-IsValid n = (
  record {
    fits = λ k. rw (get_or-replicate ((n + 63) / 64) k) (omega arith);
    covers = rw (length-replicate {A = ℕ} ((n + 63) / 64) 0) (omega arith);
    bounded = λ i _. has-replicate ((n + 63) / 64) i;
  },
  has-replicate ((n + 63) / 64),
)
