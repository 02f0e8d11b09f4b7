-- ===== src/Bitmap/Access.antt =====
-- The single-block operations of the bitmap against the set of present blocks that they stand for.
use remote_s3_bucket_plugin.Bits.{
  digit, complement, mask_test-digit, digit-bit_or, digit-bit_and, digit-pow, digit-complement,
  pow-pos, bit_or-lt, bit_and-le,
}
use native.Mathlib.Nat.{pow-le-pow_right, pow-suc}
use remote_s3_bucket_plugin.Bitmap.{
  Bitmap, append_zeros, grow, get, set, set_grown, clear, word_of, bit_of, set_word, and_not,
}
use remote_s3_bucket_plugin.Prelude.{
  ℕ, zero, suc, ◌+◌, ◌-◌, ◌*◌, ◌/◌, ◌%◌, ◌^◌, ◌≤◌, ◌<◌, bit_or, ◌≡◌, refl, inl, inr, Bool, true,
  false, not, ◌&&◌, List, [], ◌∷◌, ◌++◌, pos, arith, leb, ◌==◌, if◌then◌else◌, length, get_or,
  length-append, length-set, set as list_set, Bool-cases, ◌∙◌, ap, ℕ-cases, le→leb, lt→leb_false,
  sym,
}

-- Block `i` of the set that the words stand for.
abbrev pub has : Bitmap → ℕ → Bool
has b i = digit (word_of b i) (i % 64)

-- Every word has 64 bits, there is a word for each of the `n` blocks, and no block from `n` on is
-- present.
pub record IsValid (b : Bitmap) : Type 0 where
  pub fits : (k : ℕ) → get_or b.words k 0 < 2 ^ 64
  pub covers : b.n ≤ 64 * length b.words
  pub bounded : (i : ℕ) → b.n ≤ i → has b i ≡ false

append_zeros-length : (r : ℕ) (ws : List ℕ) → length (append_zeros r ws) ≡ length ws + r
unfolding append_zeros
append_zeros-length zero ws = omega arith
append_zeros-length (suc r) ws =
    omega (arith, append_zeros-length r (ws ++ 0 ∷ []), length-append ws (0 ∷ []))

get_or-append_zero : (ws : List ℕ) (k : ℕ) → get_or (ws ++ 0 ∷ []) k 0 ≡ get_or ws k 0
get_or-append_zero [] zero = refl
get_or-append_zero [] (suc k) = refl
get_or-append_zero (w ∷ ws) zero = refl
get_or-append_zero (w ∷ ws) (suc k) = get_or-append_zero ws k

get_or-append_zeros : (r : ℕ) (ws : List ℕ) (k : ℕ) → get_or (append_zeros r ws) k 0 ≡ get_or ws k 0
unfolding append_zeros
get_or-append_zeros zero ws k = refl
get_or-append_zeros (suc r) ws k = get_or-append_zeros r (ws ++ 0 ∷ []) k ∙ get_or-append_zero ws k

pub get_or-set :
    (ws : List ℕ) (i j v : ℕ)
    → i < length ws
    → get_or (list_set ws i v) j 0 ≡ (if i == j then v else get_or ws j 0)
get_or-set [] i j v h = elim h [ ]
get_or-set (w ∷ ws) zero zero v h = refl
get_or-set (w ∷ ws) zero (suc j) v h = ground arith
get_or-set (w ∷ ws) (suc i) zero v h = ground arith
get_or-set (w ∷ ws) (suc i) (suc j) v h = get_or-set ws i j v (omega arith) ∙ ground arith

pub bit_of-has : (b : Bitmap) (i : ℕ) → bit_of b i ≡ has b i
bit_of-has b i = mask_test-digit (word_of b i) (i % 64)

-- A valid bitmap answers `get` from its words alone.
pub get-has : (b : Bitmap) (i : ℕ) → IsValid b → get b (pos i) ≡ has b i
unfolding get
get-has b i v = ground (arith, mask_test-digit (word_of b i) (i % 64), v.bounded i)

grown :
    (b : Bitmap) (n : ℕ)
    → IsValid b
    → b.n ≤ n
    → IsValid (record { words = append_zeros ((n + 63) / 64 - length b.words) b.words; n = n })
grown b n v le = record {
  fits = λ k. rw (get_or-append_zeros _ b.words k) (v.fits k);
  covers = omega (arith, append_zeros-length ((n + 63) / 64 - length b.words) b.words);
  bounded = λ i h. rw (get_or-append_zeros _ b.words (i / 64)) (v.bounded i (omega arith));
}

-- Growing makes room and changes no block.
pub grow-IsValid : (b : Bitmap) (n : ℕ) → IsValid b → IsValid (grow b n)
unfolding grow
grow-IsValid b n v = elim (Bool-cases (leb n b.n)) [
  | inl h ↦ rw h v
  | inr h ↦ rw h (grown b n v (ground arith))
]

pub grow-n : (b : Bitmap) (n : ℕ) → (n ≤ (grow b n).n) × (b.n ≤ (grow b n).n)
unfolding grow
grow-n b n = ground arith

pub has-grow : (b : Bitmap) (n i : ℕ) → has (grow b n) i ≡ has b i
unfolding grow
has-grow b n i =
    ground (arith, get_or-append_zeros ((n + 63) / 64 - length b.words) b.words (i / 64))

has-set_word :
    (b : Bitmap) (i w j : ℕ)
    → i < b.n
    → IsValid b
    → has (set_word b i w) j ≡ (if i / 64 == j / 64 then digit w (j % 64) else has b j)
has-set_word b i w j h v =
    ground (arith, v.covers, get_or-set b.words (i / 64) (j / 64) w (omega (arith, v.covers)))

set_word-IsValid :
    (b : Bitmap) (i w : ℕ)
    → i < b.n
    → w < 2 ^ 64
    → IsValid b
    → ((j : ℕ) → b.n ≤ j → i / 64 ≡ j / 64 → digit w (j % 64) ≡ false)
    → IsValid (set_word b i w)
set_word-IsValid b i w h small v low = record {
  fits = λ k.
      rw (get_or-set b.words (i / 64) k w (omega (arith, v.covers))) (ground (arith, v.fits k));
  covers = rw (length-set b.words (i / 64) w) v.covers;
  bounded = λ j le. ground (arith, has-set_word b i w j h v, v.bounded j, low j le);
}

same_place : (i j : ℕ) → (i == j) ≡ (i / 64 == j / 64 && i % 64 == j % 64)
same_place i j = ground arith

-- The word of block `i` with its bit set.
or_bit : Bitmap → ℕ → ℕ
or_bit b i = bit_or (word_of b i) (2 ^ (i % 64))

pow_lt : (k : ℕ) → k < 64 → 2 ^ k < 2 ^ 64
pow_lt k h =
    omega
      (arith, pow-le-pow_right {n = 2} (omega arith) {i = suc k} {j = 64} h, pow-suc 2 k, pow-pos k)

has-or_bit :
    (b : Bitmap) (i j : ℕ)
    → IsValid b
    → i < b.n
    → has (set_word b i (or_bit b i)) j ≡ (if i == j then true else has b j)
unfolding or_bit
has-or_bit b i j v h = ground (
  arith,
  has-set_word b i (or_bit b i) j h v,
  digit-bit_or (word_of b i) (2 ^ (i % 64)) (j % 64),
  digit-pow (i % 64) (j % 64),
  same_place i j,
  ap (λ k. digit (get_or b.words k 0) (j % 64)) {x = i / 64} {y = j / 64},
)

or_bit-IsValid : (b : Bitmap) (i : ℕ) → IsValid b → i < b.n → IsValid (set_word b i (or_bit b i))
unfolding or_bit
or_bit-IsValid b i v h =
    set_word-IsValid b i _ h (bit_or-lt 64 _ _ (v.fits _) (pow_lt (i % 64) (omega arith))) v
      λ j le e. ground (
        arith,
        v.bounded j le,
        digit-bit_or (word_of b i) (2 ^ (i % 64)) (j % 64),
        digit-pow (i % 64) (j % 64),
        ap (λ k. digit (get_or b.words k 0) (j % 64)) e,
      )

-- The word of block `i` with its bit cleared.
abbrev pub and_not_bit : Bitmap → ℕ → ℕ
and_not_bit b i = and_not (word_of b i) (i % 64)

digit-and_not :
    (w k j : ℕ) → k < 64 → j < 64 → digit (and_not w k) j ≡ (if k == j then false else digit w j)
digit-and_not w k j hk hj = ground (
  arith,
  digit-bit_and w (complement 64 (2 ^ k)) j,
  digit-complement 64 (2 ^ k) j (pow_lt k hk) hj,
  digit-pow k j,
)

pub has-and_not_bit :
    (b : Bitmap) (i j : ℕ)
    → IsValid b
    → i < b.n
    → has (set_word b i (and_not_bit b i)) j ≡ (if i == j then false else has b j)
has-and_not_bit b i j v h = ground (
  arith,
  has-set_word b i (and_not_bit b i) j h v,
  digit-and_not (word_of b i) (i % 64) (j % 64) (omega arith) (omega arith),
  same_place i j,
  ap (λ k. digit (get_or b.words k 0) (j % 64)) {x = i / 64} {y = j / 64},
)

pub and_not_bit-IsValid :
    (b : Bitmap) (i : ℕ) → IsValid b → i < b.n → IsValid (set_word b i (and_not_bit b i))
and_not_bit-IsValid b i v h =
    set_word-IsValid b i _ h
      (omega (arith, bit_and-le (word_of b i) (complement 64 (2 ^ (i % 64))), v.fits (i / 64))) v
      λ j le e. ground (
        arith,
        v.bounded j le,
        digit-and_not (word_of b i) (i % 64) (j % 64) (omega arith) (omega arith),
        ap (λ k. digit (get_or b.words k 0) (j % 64)) e,
      )

set_grown_lem :
    (b : Bitmap) (i : ℕ)
    → IsValid b
    → i < b.n
    → IsValid (set_grown b i).0
      × ((j : ℕ) → has (set_grown b i).0 j ≡ (if i == j then true else has b j))
      × ((set_grown b i).1 ≡ not (has b i))
unfolding set_grown or_bit
set_grown_lem b i v h = elim (Bool-cases (bit_of b i)) [
  | inl on ↦
      let hit = sym (mask_test-digit (word_of b i) (i % 64)) ∙ on in
      rw on (v, λ j. ground (arith, hit, ap (has b) {x = i} {y = j}), rw hit)
  | inr off ↦ rw off (
    or_bit-IsValid b i v h,
    λ j. has-or_bit b i j v h,
    rw (sym (mask_test-digit (word_of b i) (i % 64)) ∙ off),
  )
]

-- `set` makes block `i` present and changes no other, and says whether it was absent.
pub set_lem :
    (b : Bitmap) (i : ℕ)
    → IsValid b
    → IsValid (set b (pos i)).0
      × ((j : ℕ) → has (set b (pos i)).0 j ≡ (if i == j then true else has b j))
      × ((set b (pos i)).1 ≡ not (has b i))
unfolding set set_grown
set_lem b i v =
    let g = grow b (i + 1) in
    let (valid, row, flag) =
      set_grown_lem g i (grow-IsValid b (i + 1) v) (omega (arith, grow-n b (i + 1))) in
    (valid, λ j. row j ∙ rw (has-grow b (i + 1) j), flag ∙ rw (has-grow b (i + 1) i))

-- `clear` makes block `i` absent and changes no other, and says whether it was present.
pub clear_lem :
    (b : Bitmap) (i : ℕ)
    → IsValid b
    → IsValid (clear b (pos i)).0
      × ((j : ℕ) → has (clear b (pos i)).0 j ≡ (if i == j then false else has b j))
      × ((clear b (pos i)).1 ≡ has b i)
unfolding clear
clear_lem b i v = elim (ℕ-cases i b.n) [
  | inr le ↦
      rw (le→leb b.n i le)
        (v, λ j. ground (arith, v.bounded i le, ap (has b) {x = i} {y = j}), sym (v.bounded i le))
  | inl h ↦ elim (Bool-cases (bit_of b i)) [
    | inl on ↦
        rw (lt→leb_false i b.n h, on)
          (
            and_not_bit-IsValid b i v h,
            λ j. has-and_not_bit b i j v h,
            sym on ∙ mask_test-digit (word_of b i) (i % 64),
          )
    | inr off ↦
        rw (lt→leb_false i b.n h, off)
          (
            v,
            λ j. ground (
              arith,
              (sym (mask_test-digit (word_of b i) (i % 64)) ∙ off),
              ap (has b) {x = i} {y = j},
            ),
            sym (sym (mask_test-digit (word_of b i) (i % 64)) ∙ off),
          )
  ]
]
