-- ===== src/Table/Laws.antt =====
-- The laws of the maps.
use remote_s3_bucket_plugin.Table.{Text, text_eq, lookup, keep, erase, store, drop_until}
use remote_s3_bucket_plugin.Prelude.{
  ℕ, ◌≤◌, ◌≡◌, refl, sym, ap, subst, ◌∙◌, inl, inr, Bool, true, false, not, ◌||◌, Option, none,
  some, List, [], ◌∷◌, arith, leb, if◌then◌else◌, le→leb, lt→leb_false, Bool-cases, ℕ-cases, length,
}

pub text_eq_refl : (a : Text) → text_eq a a ≡ true
unfolding text_eq
text_eq_refl [] = refl
text_eq_refl (x ∷ xs) = ground (arith, text_eq_refl xs)

pub eq_of_text_eq : (a b : Text) → text_eq a b ≡ true → a ≡ b
unfolding text_eq
eq_of_text_eq [] [] h = refl
eq_of_text_eq [] (y ∷ ys) h = cc
eq_of_text_eq (x ∷ xs) [] h = cc
eq_of_text_eq (x ∷ xs) (y ∷ ys) h =
    let head : x ≡ y = ground arith in
    let tail = eq_of_text_eq xs ys (ground arith) in rw (head, tail) refl

pub text_eq_sym : (a b : Text) → text_eq a b ≡ text_eq b a
unfolding text_eq
text_eq_sym [] [] = refl
text_eq_sym [] (y ∷ ys) = refl
text_eq_sym (x ∷ xs) [] = refl
text_eq_sym (x ∷ xs) (y ∷ ys) = ground (arith, text_eq_sym xs ys)

pub text_eq_join : (a b c : Text) → text_eq a c ≡ true → text_eq b c ≡ true → text_eq a b ≡ true
text_eq_join a b c h k = rw (eq_of_text_eq b c k) h

pub some_ne_none {ℓ} : {A : Type ℓ} {a : A} → ¬ (some a ≡ none)
some_ne_none h = cc

pub some_inj {ℓ} : {A : Type ℓ} {a b : A} → some a ≡ some b → a ≡ b
some_inj h = cc

-- `slices.Contains`.
unfoldable pub any_eq : Text → List Text → Bool
any_eq k [] = false
any_eq k (x ∷ xs) = let rest = any_eq k xs in text_eq k x || rest

module _ {ℓ} {V : Type ℓ} where
  -- The keys of a map are distinct.
  unfoldable pub IsMap : List (Text × V) → Type ℓ
  IsMap [] = Unit
  IsMap ((k, v) ∷ t) = (lookup k t ≡ none) × IsMap t

  -- What is kept of a found value.
  abbrev pub screened : (Text → V → Bool) → Text → Option V → Option V
  screened f k none = none
  screened f k (some v) = if f k v then some v else none

  pub lookup-keep :
      (f : Text → V → Bool) (k : Text) (t : List (Text × V))
      → IsMap t
      → lookup k (keep f t) ≡ screened f k (lookup k t)
  unfolding lookup keep IsMap
  lookup-keep f k [] d = refl
  lookup-keep f k ((k', v) ∷ t) (fresh, d) = elim (Bool-cases (text_eq k' k)) [
    | inl same ↦
        let eq = eq_of_text_eq k' k same in
        elim (Bool-cases (f k' v)) [
          | inl stays ↦ rw (stays, same) (rw (sym (ap (λ x. f x v) eq) ∙ stays) refl)
          | inr goes ↦
              rw (goes, same)
                (rw (sym (ap (λ x. f x v) eq) ∙ goes)
                  (lookup-keep f k t d ∙ ap (screened f k) (sym (ap (λ x. lookup x t) eq) ∙ fresh)))
        ]
    | inr other ↦ elim (Bool-cases (f k' v)) [
      | inl stays ↦ rw (stays, other) (lookup-keep f k t d)
      | inr goes ↦ rw (goes, other) (lookup-keep f k t d)
    ]
  ]

  pub length-keep : (f : Text → V → Bool) (t : List (Text × V)) → length (keep f t) ≤ length t
  unfolding keep
  length-keep f [] = omega arith
  length-keep f ((k, v) ∷ t) = elim (Bool-cases (f k v)) [
    | inl stays ↦ rw stays (omega (arith, length-keep f t))
    | inr goes ↦ rw goes (omega (arith, length-keep f t))
  ]

  pub keep-IsMap : (f : Text → V → Bool) (t : List (Text × V)) → IsMap t → IsMap (keep f t)
  unfolding keep IsMap
  keep-IsMap f [] d = tt
  keep-IsMap f ((k, v) ∷ t) (fresh, d) = elim (Bool-cases (f k v)) [
    | inl stays ↦ rw stays (lookup-keep f k t d ∙ ap (screened f k) fresh, keep-IsMap f t d)
    | inr goes ↦ rw goes (keep-IsMap f t d)
  ]

  pub lookup-erase :
      (p k : Text) (t : List (Text × V))
      → IsMap t
      → lookup k (erase p t) ≡ (if text_eq k p then none else lookup k t)
  lookup-erase p k t d = lookup-keep (λ k v. not (text_eq k p)) k t d ∙ step (lookup k t)
    where
      step :
          (o : Option V)
          → screened (λ k v. not (text_eq k p)) k o ≡ (if text_eq k p then none else o)
      step none = elim (Bool-cases (text_eq k p)) [
        | inl same ↦ rw same refl
        | inr other ↦ rw other refl
      ]
      step (some v) = elim (Bool-cases (text_eq k p)) [
        | inl same ↦ rw same refl
        | inr other ↦ rw other refl
      ]

  pub lookup-store :
      (p k : Text) (v : V) (t : List (Text × V))
      → IsMap t
      → lookup k (store p v t) ≡ (if text_eq k p then some v else lookup k t)
  unfolding lookup
  lookup-store p k v t d = elim (Bool-cases (text_eq k p)) [
    | inl same ↦ rw (text_eq_sym p k, same) refl
    | inr other ↦ rw (text_eq_sym p k, other) (lookup-erase p k t d ∙ rw other refl)
  ]

  pub store-IsMap : (p : Text) (v : V) (t : List (Text × V)) → IsMap t → IsMap (store p v t)
  unfolding IsMap
  store-IsMap p v t d =
      (lookup-erase p p t d ∙ rw (text_eq_refl p) refl, keep-IsMap (λ k v. not (text_eq k p)) t d)

  -- Every key is in the list.
  abbrev pub Covers : List Text → List (Text × V) → Type ℓ
  Covers order t = (k : Text) → any_eq k order ≡ false → lookup k t ≡ none

  no_keys : (t : List (Text × V)) → ((k : Text) → lookup k t ≡ none) → length t ≡ 0
  unfolding lookup
  no_keys [] h = refl
  no_keys ((k, v) ∷ t) h =
      let found : some v ≡ none =
        subst (λ b. (if b then some v else lookup k t) ≡ none) (text_eq_refl k) (h k) in
      cc

  pub drop_until-length :
      (bound : ℕ) (order : List Text) (t : List (Text × V))
      → IsMap t
      → Covers order t
      → length (drop_until bound order t) ≤ bound
  unfolding drop_until any_eq
  drop_until-length bound [] t d covers = omega (arith, no_keys t (λ k. covers k refl))
  drop_until-length bound (k ∷ ks) t d covers = elim (ℕ-cases bound (length t)) [
    | inr small ↦ rw (le→leb (length t) bound small) small
    | inl big ↦ rw (lt→leb_false bound (length t) big) (
        drop_until-length bound ks (erase k t) (keep-IsMap (λ k' v. not (text_eq k' k)) t d)
          (λ k' out. lookup-erase k k' t d ∙ elim (Bool-cases (text_eq k' k)) [
            | inl same ↦ rw same refl
            | inr other ↦ rw other (covers k' (rw (other, out) refl))
          ]))
  ]

  pub drop_until-IsMap :
      (bound : ℕ) (order : List Text) (t : List (Text × V))
      → IsMap t
      → IsMap (drop_until bound order t)
  unfolding drop_until
  drop_until-IsMap bound [] t d = d
  drop_until-IsMap bound (k ∷ ks) t d = elim (Bool-cases (leb (length t) bound)) [
    | inl small ↦ rw small d
    | inr big ↦
        rw big (drop_until-IsMap bound ks (erase k t) (keep-IsMap (λ k' v. not (text_eq k' k)) t d))
  ]

  pub lookup-head :
      (k k' : Text) (v : V) (t : List (Text × V))
      → text_eq k' k ≡ true
      → lookup k ((k', v) ∷ t) ≡ some v
  unfolding lookup
  lookup-head k k' v t h = rw h refl

  pub lookup-tail :
      (k k' : Text) (v : V) (t : List (Text × V))
      → text_eq k' k ≡ false
      → lookup k ((k', v) ∷ t) ≡ lookup k t
  unfolding lookup
  lookup-tail k k' v t h = rw h refl

  -- A key that is not found is no row's.
  pub lookup-none :
      (k k' : Text) (v : V) (t : List (Text × V))
      → lookup k ((k', v) ∷ t) ≡ none
      → (text_eq k' k ≡ false) × (lookup k t ≡ none)
  lookup-none k k' v t h = elim (Bool-cases (text_eq k' k)) [
    | inl same ↦
        let found : some v ≡ none = sym (lookup-head k k' v t same) ∙ h in
        absurd (some_ne_none found)
    | inr other ↦ (other, sym (lookup-tail k k' v t other) ∙ h)
  ]
