-- ===== src/Bitmap.antt =====
-- internal/cache/bitmap.go: which fixed-size blocks of a file are on the local disk, one bit each
-- in a slice of 64-bit words. `int` arguments are ℤ, as the code tests their sign.
pub mod Access
pub mod Range
pub mod Count
pub mod Codec
use remote_s3_bucket_plugin.Bits.{mask_test, complement}
use remote_s3_bucket_plugin.Prelude.{
  ℕ, zero, suc, ◌+◌, ◌-◌, ◌*◌, ◌/◌, ◌%◌, ◌^◌, bit_and, bit_or, Bool, true, false, not, List, [],
  ◌∷◌, ◌++◌, ℤ, pos, negsuc, suc_ℤ, steps_to, ltb, leb, ◌==◌, if◌then◌else◌, length, get_or,
  replicate, map, set as list_set,
}

pub record Bitmap : Type 0 where
  pub words : List ℕ
  pub n : ℕ

-- A negative size is taken as 0.
unfoldable pub new_bitmap : ℤ → Bitmap
new_bitmap (pos n) = record { words = replicate ((n + 63) / 64) 0; n = n }
new_bitmap (negsuc _) = record { words = []; n = 0 }

-- The loop of `grow`: `rounds` words are missing.
pub append_zeros : ℕ → List ℕ → List ℕ
append_zeros zero words = words
append_zeros (suc rounds) words = append_zeros rounds (words ++ 0 ∷ [])

unfoldable pub grow : Bitmap → ℕ → Bitmap
unfolding append_zeros
grow b n =
    if leb n b.n
    then b
    else (record { words = append_zeros ((n + 63) / 64 - length b.words) b.words; n = n })

-- `b.words[i/64]`. The code never indexes out of range (Bitmap.Access).
abbrev pub word_of : Bitmap → ℕ → ℕ
word_of b i = get_or b.words (i / 64) 0

-- `b.words[i/64]&(1<<uint(i%64)) != 0`.
abbrev pub bit_of : Bitmap → ℕ → Bool
bit_of b i = mask_test (word_of b i) (i % 64)

abbrev pub set_word : Bitmap → ℕ → ℕ → Bitmap
set_word b i w = record b { words = list_set b.words (i / 64) w }

unfoldable pub get : Bitmap → ℤ → Bool
get b (pos i) = if leb b.n i then false else bit_of b i
get b (negsuc _) = false

-- The part of `set` after `grow`.
set_grown : Bitmap → ℕ → Bitmap × Bool
set_grown b i =
    if bit_of b i then (b, false) else (set_word b i (bit_or (word_of b i) (2 ^ (i % 64))), true)

-- Also whether the block was not present before.
unfoldable pub set : Bitmap → ℤ → Bitmap × Bool
unfolding set_grown
set b (pos i) = set_grown (grow b (i + 1)) i
set b (negsuc _) = (b, false)

set_loop : ℕ → Bitmap → ℤ → ℕ → Bitmap × ℕ
set_loop zero b i n = (b, n)
set_loop (suc rounds) b i n =
    let (b', added) = set b i in set_loop rounds b' (suc_ℤ i) (if added then n + 1 else n)

-- Blocks [lo, hi], and how many of them changed.
unfoldable pub set_range : Bitmap → ℤ → ℤ → Bitmap × ℕ
unfolding set_loop
set_range b lo hi = set_loop (steps_to lo (suc_ℤ hi)) b lo 0

-- `w &^= 1 << k` on a 64-bit word.
abbrev pub and_not : ℕ → ℕ → ℕ
and_not w k = bit_and w (complement 64 (2 ^ k))

unfoldable pub clear : Bitmap → ℤ → Bitmap × Bool
clear b (negsuc _) = (b, false)
clear b (pos i) =
    if leb b.n i
    then (b, false)
    else if not (bit_of b i)
    then (b, false)
    else (set_word b i (and_not (word_of b i) (i % 64)), true)

-- One round of `clear_from`: a negative index is skipped.
clear_step : Bitmap → ℤ → ℕ → Bitmap × ℕ
clear_step b (negsuc _) n = (b, n)
clear_step b (pos j) n =
    (set_word b j (and_not (word_of b j) (j % 64)), if bit_of b j then n + 1 else n)

clear_loop : ℕ → Bitmap → ℤ → ℕ → Bitmap × ℕ
clear_loop zero b j n = (b, n)
clear_loop (suc rounds) b j n = let (b', n') = clear_step b j n in clear_loop rounds b' (suc_ℤ j) n'

-- Drops every block from `i` onwards, and counts those that were present.
unfoldable pub clear_from : Bitmap → ℤ → Bitmap × ℕ
unfolding clear_loop clear_step
clear_from b i = clear_loop (steps_to i (pos b.n)) b i 0

unfoldable pub clear_all : Bitmap → Bitmap
clear_all b = record b { words = map (λ w. 0) b.words }

-- `for ; w != 0; w &= w - 1 { n++ }`, on fuel: a word of 64 bits takes at most 64 rounds.
ones_loop : ℕ → ℕ → ℕ → ℕ
ones_loop zero w n = n
ones_loop (suc fuel) w n =
    let rest = ones_loop fuel (bit_and w (w - 1)) (n + 1) in if w == 0 then n else rest

count_words : List ℕ → ℕ → ℕ
count_words [] n = n
count_words (w ∷ ws) n = count_words ws (ones_loop 64 w n)

unfoldable pub count : Bitmap → ℕ
unfolding count_words ones_loop
count b = count_words b.words 0

-- `byte(w >> uint(8*j))` for j from 0 to 7.
word_bytes : ℕ → ℕ → ℕ → List ℕ
word_bytes w j zero = []
word_bytes w j (suc rounds) = (w / 2 ^ (8 * j) % 2 ^ 8) ∷ word_bytes w (j + 1) rounds

words_bytes : List ℕ → List ℕ
words_bytes [] = []
words_bytes (w ∷ ws) = word_bytes w 0 8 ++ words_bytes ws

-- Little endian, word by word.
unfoldable pub bytes : Bitmap → List ℕ
unfolding words_bytes word_bytes
bytes b = words_bytes b.words

-- `b.words[i/8] |= uint64(x) << uint(8*(i%8))`.
load_byte : Bitmap → ℕ → ℕ → Bitmap
load_byte b i x = record b {
  words =
      list_set b.words (i / 8) (bit_or (get_or b.words (i / 8) 0) (x * 2 ^ (8 * (i % 8)) % 2 ^ 64));
}

-- The loop of `bitmapFromBytes` at byte `i`.
load_bytes : Bitmap → ℕ → List ℕ → Bitmap
load_bytes b i [] = b
load_bytes b i (x ∷ xs) =
    let rest = load_bytes (load_byte b i x) (i + 1) xs in
    if ltb (i / 8) (length b.words) then rest else b

unfoldable pub bitmap_from_bytes : List ℕ → ℤ → Bitmap
unfolding load_bytes load_byte
bitmap_from_bytes xs n = load_bytes (new_bitmap n) 0 xs
