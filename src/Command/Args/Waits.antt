-- ===== src/Command/Args/Waits.antt =====
-- Which options wait for their value: `permute` against the parser.
use remote_s3_bucket_plugin.Table.{Text}
use remote_s3_bucket_plugin.Command.Args.{
  FlagSet, is_option, trim_dashes, has_equals, takes_value, flag_body, cut_value, Flag, wrong, sets,
  waits, read_known, read_body, read_flag,
}
use remote_s3_bucket_plugin.Prelude.{
  ℕ, ◌≡◌, refl, subst, inl, inr, Bool, true, false, ◌||◌, Option, none, some, [], ◌∷◌, arith, ◌==◌,
  Bool-cases, Option-cases,
}

-- The value is attached exactly if the word has an equals sign.
cut_value-equals :
    (xs : Text)
    → (has_equals xs ≡ false → cut_value xs ≡ (xs, none))
      × (has_equals xs ≡ true → (v : Text) × ((cut_value xs).1 ≡ some v))
unfolding cut_value has_equals
cut_value-equals [] = (λ h. refl, λ h. let bad : false ≡ true = h in cc)
cut_value-equals (x ∷ xs) = elim (Bool-cases (x == 61)) [
  | inl here ↦ rw here (λ h. let bad : true ≡ false = h in cc, λ h. (xs, refl))
  | inr other ↦
      let (without, attached) = cut_value-equals xs in
      rw other (λ h. rw (without h) refl, λ h. attached h)
]

-- A word with a name after its dashes.
body_lem :
    (arg : Text)
    → is_option arg ≡ true
    → (x : ℕ) (xs : Text) → flag_body arg ≡ x ∷ xs
    → (x == 45) ≡ false
    → trim_dashes arg ≡ x ∷ xs
unfolding is_option flag_body trim_dashes
body_lem [] h x xs e other = let bad : false ≡ true = h in cc
body_lem (d ∷ []) h x xs e other = let bad : false ≡ true = h in cc
body_lem (d ∷ y ∷ rest) h x xs e other =
    let dash : (d == 45) ≡ true = h in
    elim (Bool-cases (y == 45)) [
      | inl second ↦
          let tail : rest ≡ x ∷ xs = rw second at e in rw (dash, second, tail) (rw other refl)
      | inr one ↦ let whole : y ∷ rest ≡ x ∷ xs = rw one at e in rw (dash, one) whole
    ]

-- `permute` and the parser agree on who waits for a value, for a word that is not refused.
unfoldable pub Agrees : FlagSet → Text → Flag → Type 0
Agrees fs arg (wrong err) = Unit
Agrees fs arg (sets name value) = takes_value fs arg ≡ false
Agrees fs arg (waits name) = takes_value fs arg ≡ true

attached_value :
    (fs : FlagSet) (arg name v : Text) (found : Option Bool)
    → takes_value fs arg ≡ false
    → Agrees fs arg (read_known found name (some v))
unfolding Agrees read_known
attached_value fs arg name v none h = tt
attached_value fs arg name v (some b) h = h

bare_flag :
    (fs : FlagSet) (arg : Text)
    → has_equals (trim_dashes arg) ≡ false
    → Agrees fs arg (read_known (fs.find (trim_dashes arg)) (trim_dashes arg) none)
unfolding Agrees read_known takes_value
bare_flag fs arg h = elim (Option-cases (fs.find (trim_dashes arg))) [
  | inl out ↦ rw out tt
  | inr (true, found) ↦ rw found (rw (h, found) refl)
  | inr (false, found) ↦ rw found (rw (h, found) refl)
]

takes-attached :
    (fs : FlagSet) (arg : Text) → has_equals (trim_dashes arg) ≡ true → takes_value fs arg ≡ false
unfolding takes_value
takes-attached fs arg h = rw h refl

any_body :
    (fs : FlagSet) (arg : Text) (body : Text)
    → ((x : ℕ) (xs : Text) → body ≡ x ∷ xs → (x == 45) ≡ false → trim_dashes arg ≡ x ∷ xs)
    → Agrees fs arg (read_body fs arg body)
unfolding Agrees read_body
any_body fs arg [] h = tt
any_body fs arg (x ∷ xs) h = elim (Bool-cases (x == 45 || x == 61)) [
  | inl bad ↦ rw bad tt
  | inr fine ↦
      let name : trim_dashes arg ≡ x ∷ xs = h x xs refl (ground arith) in
      let (without, attached) = cut_value-equals (x ∷ xs) in
      elim (Bool-cases (has_equals (x ∷ xs))) [
        | inl more ↦
            let (v, is) = attached more in
            rw (fine, is) (attached_value fs arg _ v _ (takes-attached fs arg (rw name more)))
        | inr bare ↦
            rw (fine, without bare)
              (subst (λ n. Agrees fs arg (read_known (fs.find n) n none)) name
                (bare_flag fs arg (rw name bare)))
      ]
]

pub agrees : (fs : FlagSet) (arg : Text) → is_option arg ≡ true → Agrees fs arg (read_flag fs arg)
agrees fs arg h = any_body fs arg (flag_body arg) (body_lem arg h)
