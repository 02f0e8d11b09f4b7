-- ===== src/Cache/Rows.antt =====
-- Where the entries of the cache are: each row of the table has an entry of its own.
use remote_s3_bucket_plugin.Table.{Text, text_eq}
use remote_s3_bucket_plugin.Prelude.{
  ℕ, ◌≡◌, sym, ap, ◌∙◌, inl, inr, Bool, true, false, List, [], ◌∷◌, arith, ◌==◌, Bool-cases,
}

-- Neither the key nor the entry is that of any of the rows.
unfoldable pub Apart : Text → ℕ → List (Text × ℕ) → Type 0
Apart k id [] = Unit
Apart k id ((k', id') ∷ rows) = (text_eq k k' ≡ false) × ((id == id') ≡ false) × Apart k id rows

pub same_id : (a b : ℕ) → (a == b) ≡ true → a ≡ b
same_id a b h = ground arith

pub self_id : (a : ℕ) → (a == a) ≡ true
self_id a = ground arith

-- Numbers of entries that differ in a test differ.
pub ne_of_test :
    {E : Type 0} (f : E → Bool) (store : ℕ → E) (a b : ℕ)
    → f (store a) ≡ false
    → f (store b) ≡ true
    → (a == b) ≡ false
ne_of_test f store a b out inside = elim (Bool-cases (a == b)) [
  | inr other ↦ other
  | inl same ↦
      let clash : false ≡ true = sym out ∙ ap (λ i. f (store i)) (same_id a b same) ∙ inside in cc
]
