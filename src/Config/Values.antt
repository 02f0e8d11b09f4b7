-- ===== src/Config/Values.antt =====
-- internal/config/config.go: `ParseSize`, `ParseMode` and `ParseOwner`. `strconv.ParseFloat` and the
-- floating-point product are an interface, and the tables of users and groups are arguments.
pub mod Ends
pub mod Units
use remote_s3_bucket_plugin.Table.{Text}
use remote_s3_bucket_plugin.Decimal.{parse_from, parse_uint}
use remote_s3_bucket_plugin.Config.Source.{is_empty, trim_space}
use remote_s3_bucket_plugin.Prelude.{
  ℕ, ◌+◌, ◌-◌, ◌*◌, ◌^◌, ◌<◌, min, bit_and, Bool, not, ◌&&◌, ◌||◌, Option, none, some, [], ◌∷◌, ltb,
  leb, ◌==◌, if◌then◌else◌, set, ℤ,
}

-- `ParseFloat(s, 64)`, `value < 0` and `int64(value * float64(mult))`.
pub record Floats : Type 1 where
  pub value : Type 0
  pub parse : Text → Option value
  pub negative : value → Bool
  pub times : value → ℕ → ℤ

-- `s[:n-1]` if the last byte is of the set.
unfoldable pub strip_last : (ℕ → Bool) → Text → Text
strip_last f [] = []
strip_last f (x ∷ []) = if f x then [] else x ∷ []
strip_last f (x ∷ y ∷ xs) = x ∷ strip_last f (y ∷ xs)

unfoldable pub last_byte : Text → Option ℕ
last_byte [] = none
last_byte (x ∷ []) = some x
last_byte (x ∷ y ∷ xs) = last_byte (y ∷ xs)

unfoldable pub is_b : ℕ → Bool
is_b x = x == 98 || x == 66

unfoldable pub is_i : ℕ → Bool
is_i x = x == 105 || x == 73

-- `k`, `m`, `g` or `t`, in either case, as a power of 2.
unfoldable pub unit_exponent : ℕ → ℕ
unit_exponent x =
    if x == 107 || x == 75
    then 10
    else if x == 109 || x == 77
    then 20
    else if x == 103 || x == 71
    then 30
    else if x == 116 || x == 84
    then 40
    else 0

unfoldable pub is_unit : ℕ → Bool
unfolding unit_exponent
is_unit x = not (unit_exponent x == 0)

unfoldable pub exponent_of : Option ℕ → ℕ
unfolding unit_exponent
exponent_of none = 0
exponent_of (some x) = unit_exponent x

-- The number before the unit, and the multiplier.
unfoldable pub split_size : Text → Text × ℕ
unfolding strip_last last_byte is_b is_i is_unit exponent_of
split_size s =
    let t = strip_last is_i (strip_last is_b s) in
    (strip_last is_unit t, 2 ^ exponent_of (last_byte t))

abbrev pub scaled : (fl : Floats) → ℕ → Option fl.value → Option ℤ
scaled fl mult none = none
scaled fl mult (some v) = if fl.negative v then none else some (fl.times v mult)

unfoldable pub parse_number : Floats → Text × ℕ → Option ℤ
unfolding trim_space
parse_number fl (number, mult) = scaled fl mult (fl.parse (trim_space number))

-- `none` is the error.
unfoldable pub parse_size : Floats → Text → Option ℤ
unfolding trim_space split_size parse_number
parse_size fl text =
    let s = trim_space text in
    let read = parse_number fl (split_size s) in if is_empty s then none else read

-- The octal digits that follow those of `acc`.
unfoldable pub parse_octal_from : ℕ → Text → Option ℕ
parse_octal_from acc [] = some acc
parse_octal_from acc (x ∷ xs) =
    let rest = parse_octal_from (acc * 8 + (x - 48)) xs in
    if leb 48 x && leb x 55 then rest else none

-- `strconv.ParseUint(s, 8, 32)`.
unfoldable pub parse_octal : Text → Option ℕ
unfolding parse_octal_from
parse_octal [] = none
parse_octal (x ∷ xs) = elim (parse_octal_from 0 (x ∷ xs)) [
  | none ↦ none
  | some n ↦ if ltb n (2 ^ 32) then some n else none
]

unfoldable pub parse_mode : Text → Option ℕ
unfolding trim_space parse_octal
parse_mode s = elim (parse_octal (trim_space s)) [
  | none ↦ none
  | some n ↦ some (bit_and n (8 ^ 4 - 1))
]

-- `n, _ := strconv.ParseUint(id, 10, 32)`: 0, or the largest number where the id is out of range.
unfoldable pub id_or_limit : Text → ℕ
unfolding parse_from
id_or_limit [] = 0
id_or_limit (x ∷ xs) = elim (parse_from 0 (x ∷ xs)) [ none ↦ 0 | some n ↦ min n (2 ^ 32 - 1) ]

-- The ids that the tables of users and of groups have for a name.
pub record Accounts : Type 0 where
  pub user : Text → Option Text
  pub group : Text → Option Text

unfoldable pub parse_owner : Accounts → Text → Bool → Option ℕ
unfolding trim_space parse_uint id_or_limit
parse_owner accounts s group =
    let named : Option ℕ = elim (if group then accounts.group s else accounts.user s) [
      | none ↦ none
      | some id ↦ some (id_or_limit id)
    ] in
    elim (parse_uint 32 (trim_space s)) [ some n ↦ some n | none ↦ named ]
