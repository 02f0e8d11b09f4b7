-- ===== src/Decimal.antt =====
-- What the code uses of `strconv` in base 10: `FormatUint`, `FormatInt` of a number that is not
-- negative, `ParseUint` and `ParseInt` with a width in bits.
use remote_s3_bucket_plugin.Table.{Text}
use remote_s3_bucket_plugin.Prelude.{
  ℕ, zero, suc, ◌+◌, ◌-◌, ◌*◌, ◌/◌, ◌%◌, ◌^◌, ◌≤◌, ◌<◌, ◌≡◌, sym, ap, subst, ◌∙◌, inl, inr, false,
  ◌&&◌, Option, none, some, [], ◌∷◌, ◌++◌, arith, ltb, leb, ◌==◌, if◌then◌else◌, lt→ltb, le→leb,
  le→ltb_false, ℕ-cases, length, length-append, append_assoc, append_nil, ◌-ℤ◌, ℤ, pos,
}

-- Each round takes a digit off.
unfoldable pub format_loop : ℕ → ℕ → Text
format_loop zero n = []
format_loop (suc fuel) n =
    let rest = format_loop fuel (n / 10) in
    if ltb n 10 then (48 + n) ∷ [] else rest ++ (48 + n % 10) ∷ []

unfoldable pub format_uint : ℕ → Text
unfolding format_loop
format_uint n = format_loop (n + 1) n

-- The digits that follow those of `acc`; `none` at a byte that is not a digit.
unfoldable pub parse_from : ℕ → Text → Option ℕ
parse_from acc [] = some acc
parse_from acc (x ∷ xs) =
    let rest = parse_from (acc * 10 + (x - 48)) xs in if leb 48 x && leb x 57 then rest else none

-- `none` is the error, also of a number that is out of range.
unfoldable pub parse_uint : ℕ → Text → Option ℕ
unfolding parse_from
parse_uint bits [] = none
parse_uint bits (x ∷ xs) = elim (parse_from 0 (x ∷ xs)) [
  | none ↦ none
  | some n ↦ if ltb n (2 ^ bits) then some n else none
]

-- What follows a minus sign.
negated : ℕ → Text → Option ℤ
negated bits xs = elim (parse_uint bits xs) [
  | none ↦ none
  | some n ↦ if leb n (2 ^ (bits - 1)) then some (pos 0 -ℤ pos n) else none
]

-- A sign may come first.
unfoldable pub parse_int : ℕ → Text → Option ℤ
unfolding negated
parse_int bits [] = none
parse_int bits (x ∷ xs) =
    let plus : Option ℤ = elim (parse_uint (bits - 1) xs) [ none ↦ none | some n ↦ some (pos n) ] in
    let bare : Option ℤ = elim (parse_uint (bits - 1) (x ∷ xs)) [
      | none ↦ none
      | some n ↦ some (pos n)
    ] in
    if x == 43 then plus else if x == 45 then negated bits xs else bare

parse_from-digit :
    (acc d : ℕ) (rest : Text)
    → d < 10
    → parse_from acc ((48 + d) ∷ rest) ≡ parse_from (acc * 10 + d) rest
unfolding parse_from
parse_from-digit acc d rest h =
    rw (le→leb 48 (48 + d) (omega arith), le→leb (48 + d) 57 (omega arith))
      (ap (λ k. parse_from (acc * 10 + k) rest) (omega arith))

parse_from-format_loop :
    (fuel n : ℕ) (rest : Text)
    → n < fuel
    → parse_from 0 (format_loop fuel n ++ rest) ≡ parse_from n rest
unfolding parse_from format_loop
parse_from-format_loop zero n rest h = elim h [ ]
parse_from-format_loop (suc fuel) n rest h = elim (ℕ-cases n 10) [
  | inl small ↦
      rw (lt→ltb n 10 small)
        (parse_from-digit 0 n rest small ∙ ap (λ k. parse_from k rest) (omega arith))
  | inr big ↦
      rw
        (
          le→ltb_false n 10 big,
          append_assoc (format_loop fuel (n / 10)) ((48 + n % 10) ∷ []) rest,
          parse_from-format_loop fuel (n / 10) ((48 + n % 10) ∷ rest) (omega arith),
          parse_from-digit (n / 10) (n % 10) rest (omega arith),
        )
        (ap (λ k. parse_from k rest) (omega arith))
]

format_loop-length : (fuel n : ℕ) → 0 < length (format_loop (suc fuel) n)
unfolding format_loop
format_loop-length fuel n = elim (ℕ-cases n 10) [
  | inl small ↦ rw (lt→ltb n 10 small) (omega arith)
  | inr big ↦
      rw (le→ltb_false n 10 big)
        (omega (arith, length-append (format_loop fuel (n / 10)) ((48 + n % 10) ∷ [])))
]

parse_uint_found :
    (bits n : ℕ) (t : Text)
    → 0 < length t
    → parse_from 0 t ≡ some n
    → n < 2 ^ bits
    → parse_uint bits t ≡ some n
unfolding parse_uint
parse_uint_found bits n [] long h fits = elim long [ ]
parse_uint_found bits n (x ∷ xs) long h fits = rw (parse_uint, h, lt→ltb n (2 ^ bits) fits)

from_start : (n : ℕ) → parse_from 0 (format_loop (n + 1) n) ≡ some n
unfolding parse_from
from_start n =
    ap (parse_from 0) (sym (append_nil (format_loop (n + 1) n)))
    ∙ parse_from-format_loop (n + 1) n [] (omega arith)

-- `ParseUint` reads back what `FormatUint` prints, for a number of that width.
pub parse_uint-format_uint : (bits n : ℕ) → n < 2 ^ bits → parse_uint bits (format_uint n) ≡ some n
unfolding format_uint parse_from
parse_uint-format_uint bits n fits =
    parse_uint_found bits n (format_loop (n + 1) n)
      (subst (λ k. 0 < length (format_loop k n)) {x = suc n} (omega arith) (format_loop-length n n))
      (from_start n) fits

starts_with_digit : (bits n x : ℕ) (xs : Text) → parse_uint bits (x ∷ xs) ≡ some n → 48 ≤ x
unfolding parse_uint parse_from
starts_with_digit bits n x xs h = ground arith

no_sign : (x y : ℕ) → 48 ≤ x → y < 48 → (x == y) ≡ false
no_sign x y lo hi = ground arith

parse_int_found :
    (bits n : ℕ) (t : Text) → parse_uint (bits - 1) t ≡ some n → parse_int bits t ≡ some (pos n)
unfolding parse_int parse_uint
parse_int_found bits n [] h = cc
parse_int_found bits n (x ∷ xs) h =
    let lo : 48 ≤ x = starts_with_digit (bits - 1) n x xs h in
    rw (parse_int, no_sign x 43 lo (omega arith), no_sign x 45 lo (omega arith), h)

-- So does `ParseInt`.
pub parse_int-format_uint :
    (bits n : ℕ) → n < 2 ^ (bits - 1) → parse_int bits (format_uint n) ≡ some (pos n)
parse_int-format_uint bits n fits =
    parse_int_found bits n (format_uint n) (parse_uint-format_uint (bits - 1) n fits)
