-- ===== src/Config/Values/Units.antt =====
-- The spellings of a size: a number, a unit, and what may follow it.
use remote_s3_bucket_plugin.Table.{Text}
use remote_s3_bucket_plugin.Decimal.{format_uint}
use remote_s3_bucket_plugin.Config.Source.{is_space, is_empty, trim_space}
use remote_s3_bucket_plugin.Config.Source.Trim.{last_is, is_edge}
use remote_s3_bucket_plugin.Config.Values.Ends.{
  IsOptional, Spares, strip_last-optional, last-optional, trim_space-tight, named-append,
  first_is-named, format_uint-named, format_uint-ends,
}
use remote_s3_bucket_plugin.Bits.{pow-pos}
use remote_s3_bucket_plugin.Config.Values.{
  Floats, strip_last, last_byte, is_b, is_i, unit_exponent, is_unit, exponent_of, split_size,
  scaled, parse_number, parse_size,
}
use remote_s3_bucket_plugin.Prelude.{
  ℕ, ◌*◌, ◌^◌, ◌<◌, ◌≡◌, refl, sym, subst, ap, ◌∙◌, true, false, some, [], ◌∷◌, ◌++◌, arith,
  append_nil, pos, codes,
}

-- What is relied on of floating-point numbers: they hold the numbers below 2 ^ 53.
pub record ReadsNumbers (fl : Floats) : Type 0 where
  pub value_of : (n : ℕ) → fl.value
  pub reads : (n : ℕ) → n < 2 ^ 53 → fl.parse (format_uint n) ≡ some (value_of n)
  pub natural : (n : ℕ) → fl.negative (value_of n) ≡ false
  pub product : (n m : ℕ) → n * m < 2 ^ 53 → fl.times (value_of n) m ≡ pos (n * m)

no_b_digit : Spares is_b
unfolding is_b
no_b_digit d h = ground arith

no_i_digit : Spares is_i
unfolding is_i
no_i_digit d h = ground arith

no_space_digit : Spares is_edge
unfolding is_edge is_space
no_space_digit d h = ground arith

no_unit_digit : Spares is_unit
unfolding is_unit unit_exponent
no_unit_digit d h = ground arith

unit_or_b : (x : ℕ) → is_unit x ≡ true → (is_b x ≡ false) × (is_i x ≡ false) × (is_edge x ≡ false)
unfolding is_unit unit_exponent is_b is_i is_edge is_space
unit_or_b x h = (ground arith, ground arith, ground arith)

i_or_b : (x : ℕ) → is_i x ≡ true → (is_b x ≡ false) × (is_edge x ≡ false)
unfolding is_i is_b is_edge is_space
i_or_b x h = (ground arith, ground arith)

b_or_space : (x : ℕ) → is_b x ≡ true → is_edge x ≡ false
unfolding is_b is_edge is_space
b_or_space x h = ground arith

-- The power of 2 that a unit stands for.
unfoldable exponent : Text → ℕ
unfolding unit_exponent
exponent [] = 0
exponent (x ∷ xs) = unit_exponent x

no_exponent : (s : Text) → last_is is_unit s ≡ false → exponent_of (last_byte s) ≡ 0
unfolding last_is last_byte exponent_of is_unit
no_exponent [] h = refl
no_exponent (x ∷ []) h = ground arith
no_exponent (x ∷ y ∷ s) h = no_exponent (y ∷ s) h

last_byte-append : (s : Text) (x : ℕ) → last_byte (s ++ x ∷ []) ≡ some x
unfolding last_byte
last_byte-append [] x = refl
last_byte-append (y ∷ []) x = refl
last_byte-append (y ∷ z ∷ s) x = last_byte-append (z ∷ s) x

exponent_lem :
    (s u : Text)
    → IsOptional is_unit u
    → last_is is_unit s ≡ false
    → exponent_of (last_byte (s ++ u)) ≡ exponent u
unfolding IsOptional exponent exponent_of
exponent_lem s [] o h = ap (λ t. exponent_of (last_byte t)) (append_nil s) ∙ no_exponent s h
exponent_lem s (x ∷ []) o h = ap exponent_of (last_byte-append s x)
exponent_lem s (x ∷ y ∷ xs) o h = absurd o

module _ (n : ℕ) (u i b : Text) (unit : IsOptional is_unit u) (after : IsOptional is_i i)
    (bytes : IsOptional is_b b) where
  split_size-spelled :
      split_size (((format_uint n ++ u) ++ i) ++ b) ≡ (format_uint n, 2 ^ exponent u)
  unfolding split_size
  split_size-spelled =
      let d = format_uint n in
      let unit_tail =
        last-optional is_b is_unit d u (λ x h. (unit_or_b x h).0) unit
          (format_uint-ends is_b n no_b_digit).0 in
      let whole =
        strip_last-optional is_b ((d ++ u) ++ i) b bytes
          (last-optional is_b is_i (d ++ u) i (λ x h. (i_or_b x h).0) after unit_tail) in
      let bare = strip_last-optional is_i (d ++ u) i after (
        last-optional is_i is_unit d u (λ x h. (unit_or_b x h).1) unit
          (format_uint-ends is_i n no_i_digit).0) in
      let none_left = (format_uint-ends is_unit n no_unit_digit).0 in
      let t = ap (strip_last is_i) whole ∙ bare in
      ap (λ s. (strip_last is_unit s, 2 ^ exponent_of (last_byte s))) t
      ∙ ap (λ s. (s, 2 ^ exponent_of (last_byte (d ++ u))))
          (strip_last-optional is_unit d u unit none_left)
      ∙ ap (λ e. (d, 2 ^ e)) (exponent_lem d u unit none_left)

  spelled-tight : trim_space (((format_uint n ++ u) ++ i) ++ b) ≡ ((format_uint n ++ u) ++ i) ++ b
  spelled-tight =
      let d = format_uint n in
      let (end, start) = format_uint-ends is_edge n no_space_digit in
      let named = format_uint-named n in
      let named' = named-append d u named in
      trim_space-tight (((d ++ u) ++ i) ++ b)
        (first_is-named is_edge ((d ++ u) ++ i) b (named-append (d ++ u) i named')
          (first_is-named is_edge (d ++ u) i named' (first_is-named is_edge d u named start)))
        (last-optional is_edge is_b ((d ++ u) ++ i) b b_or_space bytes (
          last-optional is_edge is_i (d ++ u) i (λ x h. (i_or_b x h).1) after
            (last-optional is_edge is_unit d u (λ x h. (unit_or_b x h).2) unit end)))

  number-read :
      (fl : Floats)
      → ReadsNumbers fl
      → n * 2 ^ exponent u < 2 ^ 53
      → n < 2 ^ 53
      → parse_number fl (format_uint n, 2 ^ exponent u) ≡ some (pos (n * 2 ^ exponent u))
  unfolding parse_number
  number-read fl r product small =
      let (end, start) = format_uint-ends is_edge n no_space_digit in
      ap (λ t. scaled fl (2 ^ exponent u) (fl.parse t)) (trim_space-tight (format_uint n) start end)
      ∙ ap (scaled fl (2 ^ exponent u)) (r.reads n small)
      ∙ rw (r.natural n) (ap some (r.product n (2 ^ exponent u) product))

  parse_size-exponent :
      (fl : Floats)
      → ReadsNumbers fl
      → n * 2 ^ exponent u < 2 ^ 53
      → parse_size fl (((format_uint n ++ u) ++ i) ++ b) ≡ some (pos (n * 2 ^ exponent u))
  unfolding parse_size
  parse_size-exponent fl r product =
      let small : n < 2 ^ 53 = grind (arith, pow-pos (exponent u)) in
      let d = format_uint n in
      let named : is_empty (((d ++ u) ++ i) ++ b) ≡ false =
        named-append ((d ++ u) ++ i) b
          (named-append (d ++ u) i (named-append d u (format_uint-named n))) in
      rw (spelled-tight, named)
        (ap (parse_number fl) split_size-spelled ∙ number-read fl r product small)

-- What the letters of a unit stand for, in bytes.
pub data IsUnit : Text → ℕ → Type 0 where
  bytes_only : IsUnit [] 1
  kibi : IsUnit (codes "k") 1024
  kibi_upper : IsUnit (codes "K") 1024
  mebi : IsUnit (codes "m") 1048576
  mebi_upper : IsUnit (codes "M") 1048576
  gibi : IsUnit (codes "g") 1073741824
  gibi_upper : IsUnit (codes "G") 1073741824
  tebi : IsUnit (codes "t") 1099511627776
  tebi_upper : IsUnit (codes "T") 1099511627776

-- Nothing, or one letter in either case.
pub data IsLetter (lower upper : ℕ) : Text → Type 0 where
  left_out : IsLetter lower upper []
  in_lower : IsLetter lower upper (lower ∷ [])
  in_upper : IsLetter lower upper (upper ∷ [])

IsUnit_lem : {u : Text} {m : ℕ} → IsUnit u m → IsOptional is_unit u × (2 ^ exponent u ≡ m)
unfolding IsOptional is_unit exponent unit_exponent
IsUnit_lem bytes_only = (tt, refl)
IsUnit_lem kibi = (refl, refl)
IsUnit_lem kibi_upper = (refl, refl)
IsUnit_lem mebi = (refl, refl)
IsUnit_lem mebi_upper = (refl, refl)
IsUnit_lem gibi = (refl, refl)
IsUnit_lem gibi_upper = (refl, refl)
IsUnit_lem tebi = (refl, refl)
IsUnit_lem tebi_upper = (refl, refl)

letter_i : {t : Text} → IsLetter 105 73 t → IsOptional is_i t
unfolding IsOptional is_i
letter_i left_out = tt
letter_i in_lower = refl
letter_i in_upper = refl

letter_b : {t : Text} → IsLetter 98 66 t → IsOptional is_b t
unfolding IsOptional is_b
letter_b left_out = tt
letter_b in_lower = refl
letter_b in_upper = refl

-- A decimal number with nothing or one of the letters k, m, g and t behind it, then nothing or an
-- `i`, and then nothing or a `b`, in either case, is read as that many times 1, 1024, 1024 ^ 2,
-- 1024 ^ 3 or 1024 ^ 4 bytes, if the size is below 2 ^ 53.
pub parse_size-spelled :
    (fl : Floats) (n m : ℕ) (u i b : Text)
    → ReadsNumbers fl
    → IsUnit u m
    → IsLetter 105 73 i
    → IsLetter 98 66 b
    → n * m < 2 ^ 53
    → parse_size fl (((format_uint n ++ u) ++ i) ++ b) ≡ some (pos (n * m))
parse_size-spelled fl n m u i b r unit after bytes small =
    let (known, value) = IsUnit_lem unit in
    let fits : n * 2 ^ exponent u < 2 ^ 53 = subst (λ k. n * k < 2 ^ 53) (sym value) small in
    parse_size-exponent n u i b known (letter_i after) (letter_b bytes) fl r fits
    ∙ ap (λ k. some (pos (n * k))) value
