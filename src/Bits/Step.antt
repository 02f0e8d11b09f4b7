-- ===== src/Bits/Step.antt =====
-- One equation for the lowest digit of `bit_and` and `bit_or`, whose meaning is a recursion on
-- digits with fuel.
use Prim.Native.Nat.{min, max, digits, bitwise, bit_and-bitwise, bit_or-bitwise}
use remote_s3_bucket_plugin.Prelude.{
  ℕ, zero, suc, ◌+◌, ◌-◌, ◌*◌, ◌/◌, ◌%◌, ◌≤◌, bit_and, bit_or, ◌≡◌, refl, arith, ◌∙◌, ap,
}

-- A further round makes no difference once there is one for each unit of `x`,
one_more :
    (rest : ℕ → ℕ) (op : ℕ → ℕ → ℕ) (rounds x y : ℕ)
    → x ≤ rounds
    → digits rest op (suc rounds) x y ≡ digits rest op rounds x y
one_more rest op zero zero y h = refl
one_more rest op zero (suc x) y h = absurd (omega arith)
one_more rest op (suc rounds) zero y h = refl
one_more rest op (suc rounds) (suc x) y h =
    let deeper = one_more rest op rounds (suc x / 2) (y / 2) (omega arith) in
    ap (λ (d : ℕ). d * 2 + op (suc x % 2) (y % 2)) deeper

-- and so do `extra` rounds.
no_matter :
    (rest : ℕ → ℕ) (op : ℕ → ℕ → ℕ) (extra rounds x y : ℕ)
    → rounds ≡ x + extra
    → digits rest op rounds x y ≡ bitwise rest op x y
no_matter rest op zero rounds x y h = let same : rounds ≡ x = omega arith in rw same refl
no_matter rest op (suc extra) rounds x y h =
    let peeled : rounds ≡ suc (x + extra) = omega arith in
    rw peeled (
      one_more rest op (x + extra) x y (omega arith) ∙ no_matter rest op extra (x + extra) x y refl)

abbrev halves : (ℕ → ℕ) → (ℕ → ℕ → ℕ) → ℕ → ℕ → ℕ
halves rest op x y = bitwise rest op (x / 2) (y / 2) * 2 + op (x % 2) (y % 2)

lowest :
    (rest : ℕ → ℕ) (op : ℕ → ℕ → ℕ) (x y : ℕ) → bitwise rest op (suc x) y ≡ halves rest op (suc x) y
lowest rest op x y =
    ap (λ (d : ℕ). d * 2 + op (suc x % 2) (y % 2))
      (no_matter rest op (x - suc x / 2) x (suc x / 2) (y / 2) (omega arith))

pub bit_and_step : (a b : ℕ) → bit_and a b ≡ bit_and (a / 2) (b / 2) * 2 + min (a % 2) (b % 2)
bit_and_step (suc x) y = simp bit_and-bitwise (lowest (λ _. 0) min x y)
bit_and_step zero y = simp bit_and-bitwise (omega arith)

pub bit_or_step : (a b : ℕ) → bit_or a b ≡ bit_or (a / 2) (b / 2) * 2 + max (a % 2) (b % 2)
bit_or_step (suc x) y = simp bit_or-bitwise (lowest (λ y'. y') max x y)
bit_or_step zero y = simp bit_or-bitwise (omega arith)
