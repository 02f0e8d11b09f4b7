-- ===== src/Utf8.antt =====
-- What is valid UTF-8. A Go string is any bytes, and what Go writes as JSON keeps only these as they
-- are: `encoding/json` puts U+FFFD in the place of a byte that is no part of a character.
use remote_s3_bucket_plugin.Table.{Text}
use remote_s3_bucket_plugin.Prelude.{
  ℕ, zero, suc, Bool, true, false, ◌&&◌, [], ◌∷◌, ltb, leb, ◌==◌, if◌then◌else◌,
}

abbrev between : ℕ → ℕ → ℕ → Bool
between lo hi x = leb lo x && leb x hi

-- `n` bytes of a character are left, of which the next is from `lo` to `hi`.
unfoldable utf8_from : ℕ → ℕ → ℕ → Text → Bool
utf8_from zero lo hi [] = true
utf8_from (suc n) lo hi [] = false
utf8_from (suc n) lo hi (x ∷ s) = let rest = utf8_from n 128 191 s in between lo hi x && rest
utf8_from zero lo hi (x ∷ s) =
    let one = utf8_from 0 0 0 s in
    let two = utf8_from 1 128 191 s in
    let three = utf8_from 2 (if x == 224 then 160 else 128) (if x == 237 then 159 else 191) s in
    let four = utf8_from 3 (if x == 240 then 144 else 128) (if x == 244 then 143 else 191) s in
    if ltb x 128
    then one
    else if between 194 223 x
    then two
    else if between 224 239 x
    then three
    else if between 240 244 x
    then four
    else false

unfoldable pub is_utf8 : Text → Bool
unfolding utf8_from
is_utf8 s = utf8_from 0 0 0 s
