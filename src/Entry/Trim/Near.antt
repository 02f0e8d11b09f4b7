-- ===== src/Entry/Trim/Near.antt =====
-- Which blocks `trim` keeps around the reader.
use native.Mathlib.Nat.{mul-le-mul_right}
use remote_s3_bucket_plugin.Entry.{Options, Entry}
use remote_s3_bucket_plugin.Entry.View.{in_block_lo, in_block_hi, block_start, block_stop}
use remote_s3_bucket_plugin.Entry.Trim.{quot_ℤ, kept}
use remote_s3_bucket_plugin.Prelude.{
  ℕ, ◌+◌, ◌-◌, ◌*◌, ◌/◌, ◌≤◌, ◌<◌, ◌≡◌, refl, sym, ap, ◌∙◌, ◌⊎◌, inl, inr, Bool, true, false, ◌&&◌,
  arith, ltb, leb, lt→ltb, le→ltb_false, if◌then◌else◌, ℕ-cases, Bool-cases, ℤ, pos, negsuc, ◌-ℤ◌,
  leb_ℤ,
}

-- A block is near the reader if it reaches past one block before `read_off` at most and starts no
-- further ahead of it than the readahead or than one block.
unfoldable pub Near : ℕ → ℕ → ℕ → ℕ → Type 0
Near bs readahead read_off i =
    (read_off < (i + 2) * bs) × ((i * bs ≤ read_off + readahead) ⊎ (i * bs ≤ read_off + bs))

-- The first block that is kept.
abbrev first : ℕ → ℕ → ℤ
unfolding quot_ℤ
first bs r = quot_ℤ (pos r -ℤ pos bs) bs

first_inside : (bs r : ℕ) → bs ≤ r → first bs r ≡ pos ((r - bs) / bs)
unfolding quot_ℤ ◌-ℤ◌
first_inside bs r h =
    let e : (pos r -ℤ pos bs) ≡ pos (r - bs) = ground arith in ap (λ z. quot_ℤ z bs) e

first_before : (bs r : ℕ) → r < bs → first bs r ≡ pos 0 -ℤ pos ((bs - r - 1 + 1) / bs)
unfolding quot_ℤ ◌-ℤ◌
first_before bs r h =
    let e : (pos r -ℤ pos bs) ≡ negsuc (bs - r - 1) = ground arith in ap (λ z. quot_ℤ z bs) e

not_after : (m i : ℕ) → leb_ℤ (pos 0 -ℤ pos m) (pos i) ≡ true
unfolding ◌-ℤ◌
not_after m i = ground arith

first_lem :
    (bs r i : ℕ)
    → 0 < bs
    → (leb_ℤ (first bs r) (pos i) ≡ true → r < (i + 2) * bs)
      × (r < (i + 2) * bs → leb_ℤ (first bs r) (pos i) ≡ true)
first_lem bs r i h = elim (ℕ-cases r bs) [
  | inl before ↦ (
    λ _.
        let one : 1 * bs ≤ (i + 2) * bs = mul-le-mul_right bs (omega arith) in
        omega (arith, one, before),
    λ _. ap (λ z. leb_ℤ z (pos i)) (first_before bs r before) ∙ not_after _ i,
  )
  | inr inside ↦
      let e = ap (λ z. leb_ℤ z (pos i)) (first_inside bs r inside) in
      let stop = block_stop bs (r - bs) h in
      (
        λ k.
            let le : (r - bs) / bs ≤ i = ground (arith, sym e ∙ k) in
            let up : ((r - bs) / bs + 1) * bs ≤ (i + 1) * bs = mul-le-mul_right bs (omega arith) in
            omega (arith, stop, up),
        λ k.
            e
            ∙ (let le : (r - bs) / bs ≤ i = in_block_hi bs i (r - bs) h (omega arith) in
                ground arith),
      )
]

-- The last block that is kept.
last_lem :
    (bs x i : ℕ)
    → 0 < bs
    → (leb i (x / bs) ≡ true → i * bs ≤ x) × (i * bs ≤ x → leb i (x / bs) ≡ true)
last_lem bs x i h = (
  λ k.
      let le : i ≤ x / bs = ground arith in
      let down : i * bs ≤ x / bs * bs = mul-le-mul_right bs le in
      omega (arith, block_start bs x, down),
  λ k. let le : i ≤ x / bs = in_block_lo bs i x h k in ground arith,
)

keep_lem :
    (bs ra r m : ℕ)
    → (m ≤ r + (if ltb ra bs then bs else ra) → (m ≤ r + ra) ⊎ (m ≤ r + bs))
      × ((m ≤ r + ra) ⊎ (m ≤ r + bs) → m ≤ r + (if ltb ra bs then bs else ra))
keep_lem bs ra r m = elim (ℕ-cases ra bs) [
  | inl less ↦ rw (lt→ltb ra bs less) (λ h. inr h, λ h. elim h [ inl a ↦ omega arith | inr b ↦ b ])
  | inr more ↦
      rw (le→ltb_false ra bs more) (λ h. inl h, λ h. elim h [ inl a ↦ a | inr b ↦ omega arith ])
]

both : (a b : Bool) → (a && b) ≡ true → (a ≡ true) × (b ≡ true)
both true b h = (refl, h)
both false b h = cc

both_back : (a b : Bool) → a ≡ true → b ≡ true → (a && b) ≡ true
both_back a b h k = rw (h, k) refl

module _ (o : Options) (e : Entry) (i : ℕ) (h : 0 < o.block_size) where
  pub kept-Near : kept o e i ≡ true → Near o.block_size o.readahead e.read_off i
  unfolding kept Near
  kept-Near k =
      let (low, high) = both _ _ k in
      (
        (first_lem o.block_size e.read_off i h).0 low,
        (keep_lem o.block_size o.readahead e.read_off (i * o.block_size)).0
            ((last_lem o.block_size _ i h).0 high),
      )

  pub Near-kept : Near o.block_size o.readahead e.read_off i → kept o e i ≡ true
  unfolding kept Near
  Near-kept (low, high) = both_back _ _ ((first_lem o.block_size e.read_off i h).1 low) (
      (last_lem o.block_size _ i h).1
        ((keep_lem o.block_size o.readahead e.read_off (i * o.block_size)).1 high))

  pub kept-far : ¬ Near o.block_size o.readahead e.read_off i → kept o e i ≡ false
  kept-far far = elim (Bool-cases (kept o e i)) [
    | inl on ↦ absurd (far (kept-Near on))
    | inr off ↦ off
  ]
