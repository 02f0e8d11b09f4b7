-- ===== src/Table.antt =====
-- Texts, and the Go maps with text keys that the caches are: association lists with distinct keys.
-- `range` over a map visits the keys in any order, so a loop that stops early takes the order.
pub mod Laws
use remote_s3_bucket_plugin.Prelude.{
  ℕ, ◌/◌, Bool, true, false, not, ◌&&◌, ◌||◌, Option, none, some, List, [], ◌∷◌, ◌++◌, map, leb,
  ◌==◌, if◌then◌else◌, length,
}

-- A text: its bytes.
abbrev pub Text : Type 0
Text = List ℕ

-- `a == b` on strings.
unfoldable pub text_eq : Text → Text → Bool
text_eq [] [] = true
text_eq [] (y ∷ ys) = false
text_eq (x ∷ xs) [] = false
text_eq (x ∷ xs) (y ∷ ys) = let rest = text_eq xs ys in x == y && rest

-- `strings.HasPrefix(s, prefix)`.
unfoldable pub has_prefix : Text → Text → Bool
has_prefix s [] = true
has_prefix [] (y ∷ ys) = false
has_prefix (x ∷ xs) (y ∷ ys) = let rest = has_prefix xs ys in x == y && rest

-- `k == p || strings.HasPrefix(k, p+"/")`.
unfoldable pub in_subtree : Text → Text → Bool
in_subtree p k = text_eq k p || has_prefix k (p ++ 47 ∷ [])

module _ {ℓ} {V : Type ℓ} where
  unfoldable pub lookup : Text → List (Text × V) → Option V
  lookup k [] = none
  lookup k ((k', v) ∷ t) = let rest = lookup k t in if text_eq k' k then some v else rest

  -- `for k, v := range m { if !f(k, v) { delete(m, k) } }`.
  unfoldable pub keep : (Text → V → Bool) → List (Text × V) → List (Text × V)
  keep f [] = []
  keep f ((k, v) ∷ t) = let rest = keep f t in if f k v then (k, v) ∷ rest else rest

  -- `delete(m, p)`.
  abbrev pub erase : Text → List (Text × V) → List (Text × V)
  erase p t = keep (λ k v. not (text_eq k p)) t

  -- `m[p] = v`.
  abbrev pub store : Text → V → List (Text × V) → List (Text × V)
  store p v t = (p, v) ∷ erase p t

  -- `for k := range m { if len(m) <= bound { return }; delete(m, k) }`, the keys in this order.
  unfoldable pub drop_until : ℕ → List Text → List (Text × V) → List (Text × V)
  drop_until bound [] t = t
  drop_until bound (k ∷ ks) t =
      let rest = drop_until bound ks (erase k t) in if leb (length t) bound then t else rest
