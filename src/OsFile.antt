-- ===== src/OsFile.antt =====
-- What internal/cache uses of `*os.File` and `fallocate`: a sparse local file. Bytes past the end
-- and bytes of a hole read as zeros. A read or write names its offset; errors are arguments of the
-- operations that call these.
use remote_s3_bucket_plugin.Prelude.{
  ℕ, zero, suc, ◌+◌, ◌-◌, ◌<◌, min, max, ◌≡◌, refl, ap, ◌∙◌, ◌&&◌, List, [], ◌∷◌, arith, ltb, leb,
  ◌==◌, if◌then◌else◌, length, get_or,
}

pub record File : Type 0 where
  pub len : ℕ
  pub data_at : ℕ → ℕ

-- A byte of the file, or of what an extension would show.
abbrev pub byte_at : File → ℕ → ℕ
byte_at f p = if ltb p f.len then f.data_at p else 0

unfoldable pub write_at : File → List ℕ → ℕ → File
write_at f xs off = record {
  len = if length xs == 0 then f.len else max f.len (off + length xs);
  data_at =
      λ p. if leb off p && ltb p (off + length xs) then get_or xs (p - off) 0 else byte_at f p;
}

unfoldable pub truncate : File → ℕ → File
truncate f n = record { len = n; data_at = λ p. if ltb p n then byte_at f p else 0 }

unfoldable pub punch_hole : File → ℕ → ℕ → File
punch_hole f off n = record f {
  data_at = λ p. if leb off p && ltb p (off + n) then 0 else f.data_at p;
}

-- The `n` bytes from `off` on.
unfoldable pub slice : File → ℕ → ℕ → List ℕ
slice f off zero = []
slice f off (suc n) = byte_at f off ∷ slice f (off + 1) n

-- `ReadAt` stops at the end of the file.
unfoldable pub read_at : File → ℕ → ℕ → List ℕ
unfolding slice
read_at f off n = slice f off (min n (f.len - off))

pub get_or-slice :
    (n : ℕ) (f : File) (off k : ℕ) → k < n → get_or (slice f off n) k 0 ≡ byte_at f (off + k)
unfolding slice
get_or-slice zero f off k h = elim h [ ]
get_or-slice (suc n) f off zero h = ap (byte_at f) (omega arith)
get_or-slice (suc n) f off (suc k) h =
    get_or-slice n f (off + 1) k (omega arith) ∙ ap (byte_at f) (omega arith)

pub length-slice : (n : ℕ) (f : File) (off : ℕ) → length (slice f off n) ≡ n
unfolding slice
length-slice zero f off = refl
length-slice (suc n) f off = ap suc (length-slice n f (off + 1))

pub byte_at-write_at :
    (f : File) (xs : List ℕ) (off p : ℕ)
    → byte_at (write_at f xs off) p
      ≡ (if leb off p && ltb p (off + length xs) then get_or xs (p - off) 0 else byte_at f p)
unfolding write_at
byte_at-write_at f xs off p = ground arith

pub byte_at-truncate :
    (f : File) (n p : ℕ) → byte_at (truncate f n) p ≡ (if ltb p n then byte_at f p else 0)
unfolding truncate
byte_at-truncate f n p = ground arith

pub byte_at-punch_hole :
    (f : File) (off n p : ℕ)
    → byte_at (punch_hole f off n) p ≡ (if leb off p && ltb p (off + n) then 0 else byte_at f p)
unfolding punch_hole
byte_at-punch_hole f off n p = ground arith
