-- ===== src/Bitmap/Range.antt =====
-- The loops over ranges of blocks: which blocks they change, and that they count the changes.
use remote_s3_bucket_plugin.Bitmap.{
  Bitmap, clear, bit_of, set, set_range, set_loop, clear_from, clear_loop, clear_step, count,
  set_word,
}
use remote_s3_bucket_plugin.Bitmap.Access.{
  IsValid, has, set_lem, clear_lem, has-and_not_bit, and_not_bit, and_not_bit-IsValid, bit_of-has,
}
use remote_s3_bucket_plugin.Bitmap.Count.{count-tally}
use remote_s3_bucket_plugin.Bitmap.Count.Tally.{tally, tally_set, tally_clear}
use remote_s3_bucket_plugin.Prelude.{
  ℕ, zero, suc, ◌+◌, ◌-◌, ◌≤◌, ◌≡◌, refl, Bool, true, not, ◌&&◌, ◌||◌, arith, ltb, leb,
  if◌then◌else◌, steps_to, pos,
}

-- Block `j` lies in [lo, hi).
abbrev pub within : ℕ → ℕ → ℕ → Bool
within lo hi j = leb lo j && ltb j hi

-- What a loop that made the blocks of [lo, hi) present has done, with `n` of them new.
pub record Filled (lo hi n : ℕ) (b b' : Bitmap) : Type 0 where
  pub valid : IsValid b'
  pub present : (j : ℕ) → has b' j ≡ (within lo hi j || has b j)
  pub changed : (bound : ℕ) → hi ≤ bound → tally (has b') bound ≡ tally (has b) bound + n

set_loop-Filled :
    (r : ℕ) (b : Bitmap) (i n : ℕ)
    → IsValid b
    → (m : ℕ) × ((set_loop r b (pos i) n).1 ≡ n + m)
      × Filled i (i + r) m b (set_loop r b (pos i) n).0
unfolding set_loop
set_loop-Filled zero b i n v = (
  0,
  omega arith,
  record { valid = v; present = λ j. ground arith; changed = λ bound h. omega arith },
)
set_loop-Filled (suc r) b i n v =
    let (valid, row, flag) = set_lem b i v in
    let b' = (set b (pos i)).0 in
    let (m, total, rest) =
      set_loop-Filled r b' (suc i) (if (set b (pos i)).1 then n + 1 else n) valid in
    (
      (if has b i then 0 else 1) + m,
      ground (arith, total, flag),
      record {
        valid = rest.valid;
        present = λ j. ground (arith, rest.present j, row j);
        changed = λ bound h. ground (
          arith,
          rest.changed bound (omega arith),
          tally_set (has b) (has b') bound i (omega arith) row,
        );
      },
    )

-- `set_range lo hi` makes blocks lo to hi present, changes no other block, and returns by how much
-- the count grew.
pub set_range_lem :
    (b : Bitmap) (lo hi : ℕ)
    → IsValid b
    → IsValid (set_range b (pos lo) (pos hi)).0
      × ((j : ℕ) → has (set_range b (pos lo) (pos hi)).0 j ≡ (within lo (suc hi) j || has b j))
      × (count (set_range b (pos lo) (pos hi)).0 ≡ count b + (set_range b (pos lo) (pos hi)).1)
unfolding set_range
set_range_lem b lo hi v =
    let r = steps_to (pos lo) (pos (suc hi)) in
    let (m, total, filled) = set_loop-Filled r b lo 0 v in
    let b' = (set_loop r b (pos lo) 0).0 in
    let bound = suc hi + lo + b.n + b'.n in
    (
      filled.valid,
      λ j. ground (arith, filled.present j),
      omega (
        arith,
        total,
        count-tally b bound v (omega arith),
        count-tally b' bound filled.valid (omega arith),
        filled.changed bound (omega arith),
      ),
    )

-- What a loop that dropped the blocks of [lo, hi) has done, with `n` of them present before.
pub record Emptied (lo hi n : ℕ) (b b' : Bitmap) : Type 0 where
  pub valid : IsValid b'
  pub size : b'.n ≡ b.n
  pub present : (j : ℕ) → has b' j ≡ (not (within lo hi j) && has b j)
  pub changed : (bound : ℕ) → hi ≤ bound → tally (has b') bound + n ≡ tally (has b) bound

clear_loop-Emptied :
    (r : ℕ) (b : Bitmap) (i n : ℕ)
    → r ≤ b.n - i
    → IsValid b
    → (m : ℕ) × ((clear_loop r b (pos i) n).1 ≡ n + m)
      × Emptied i (i + r) m b (clear_loop r b (pos i) n).0
unfolding clear_loop clear_step
clear_loop-Emptied zero b i n h v = (
  0,
  omega arith,
  record { valid = v; size = refl; present = λ j. ground arith; changed = λ bound h. omega arith },
)
clear_loop-Emptied (suc r) b i n h v =
    let b' = set_word b i (and_not_bit b i) in
    let row = λ (j : ℕ). has-and_not_bit b i j v (omega arith) in
    let (m, total, rest) =
      clear_loop-Emptied r b' (suc i) (if bit_of b i then n + 1 else n) (omega arith)
        (and_not_bit-IsValid b i v (omega arith)) in
    (
      (if has b i then 1 else 0) + m,
      ground (arith, total, bit_of-has b i),
      record {
        valid = rest.valid;
        size = rest.size;
        present = λ j. ground (arith, rest.present j, row j);
        changed = λ bound le. ground (
          arith,
          rest.changed bound (omega arith),
          tally_clear (has b) (has b') bound i (omega arith) row,
        );
      },
    )

-- `clear_from i` drops every block from `i` on, keeps the others, and returns by how much the
-- count fell.
pub clear_from_lem :
    (b : Bitmap) (i : ℕ)
    → IsValid b
    → IsValid (clear_from b (pos i)).0
      × ((j : ℕ) → has (clear_from b (pos i)).0 j ≡ (ltb j i && has b j))
      × (count (clear_from b (pos i)).0 + (clear_from b (pos i)).1 ≡ count b)
unfolding clear_from
clear_from_lem b i v =
    let r = steps_to (pos i) (pos b.n) in
    let (m, total, emptied) = clear_loop-Emptied r b i 0 (omega arith) v in
    let b' = (clear_loop r b (pos i) 0).0 in
    let bound = b.n + i in
    (
      emptied.valid,
      λ j. ground (arith, emptied.present j, v.bounded j),
      omega (
        arith,
        total,
        count-tally b bound v (omega arith),
        count-tally b' bound emptied.valid (omega (arith, emptied.size)),
        emptied.changed bound (omega arith),
      ),
    )

-- Dropping a present block lowers the count by one.
pub count-clear :
    (b : Bitmap) (i : ℕ) → IsValid b → has b i ≡ true → count (clear b (pos i)).0 + 1 ≡ count b
count-clear b i v on =
    let (valid, row, _) = clear_lem b i v in
    let b' = (clear b (pos i)).0 in
    let bound = b.n + b'.n + i + 1 in
    ground (
      arith,
      count-tally b bound v (omega arith),
      count-tally b' bound valid (omega arith),
      tally_clear (has b) (has b') bound i (omega arith) row,
    )
