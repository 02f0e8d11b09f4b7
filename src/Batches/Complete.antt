-- ===== src/Batches/Complete.antt =====
-- The requests of `DeleteMulti` together.
use remote_s3_bucket_plugin.Table.{Text}
use remote_s3_bucket_plugin.Entry.{Error}
use remote_s3_bucket_plugin.Entry.Ensure.Faults.{ne_zero}
use remote_s3_bucket_plugin.Batches.{Deleted, request, delete_loop, delete_multi}
use remote_s3_bucket_plugin.Prelude.{
  ℕ, zero, suc, ◌≤◌, ◌<◌, ◌≡◌, refl, sym, ap, ◌∙◌, inl, inr, Option, none, some, List, [], ◌∷◌,
  ◌++◌, arith, Option-cases, ℕ-cases, length, length-append, take, drop, take-append-drop,
  length-take, length-drop, append_assoc,
}

unfoldable pub joined : List (List Text) → List Text
joined [] = []
joined (b ∷ bs) = b ++ joined bs

-- Every request names one key at least and 1000 at most.
unfoldable pub Sized : List (List Text) → Type 0
Sized [] = Unit
Sized (b ∷ bs) = ((0 < length b) × (length b ≤ 1000)) × Sized bs

-- Every request but the last was answered without an error, and the last with `err`.
unfoldable pub Answered : (List Text → Option Error) → List (List Text) → Option Error → Type 0
Answered send [] err = err ≡ none
Answered send (b ∷ []) err = send b ≡ err
Answered send (b ∷ b' ∷ bs) err = (send b ≡ none) × Answered send (b' ∷ bs) err

-- The requests name the keys in order, each once, up to those that an error left.
pub record Ordered (send : List Text → Option Error) (keys : List Text) (r : Deleted) : Type 0 where
  pub left : List Text
  pub split : joined r.batches ++ left ≡ keys
  pub all : r.error ≡ none → left ≡ []
  pub answered : Answered send r.batches r.error
  pub sized : Sized r.batches
  pub counted : r.deletes ≡ length (joined r.batches)

append-nil : (xs : List Text) → xs ++ [] ≡ xs
append-nil [] = refl
append-nil (x ∷ xs) = ap (λ t. x ∷ t) (append-nil xs)

cons-Answered :
    (send : List Text → Option Error) (b : List Text) (bs : List (List Text)) (err : Option Error)
    → send b ≡ none
    → Answered send bs err
    → Answered send (b ∷ bs) err
unfolding Answered
cons-Answered send b [] err ok rest = ok ∙ sym rest
cons-Answered send b (b' ∷ bs) err ok rest = (ok, rest)

request-Ordered :
    (send : List Text → Option Error) (keys : List Text) (r : Deleted)
    → 0 < length keys
    → send (take 1000 keys) ≡ none
    → Ordered send (drop 1000 keys) r
    → Ordered send keys (request (take 1000 keys) r)
unfolding joined Sized
request-Ordered send keys r some_keys ok v = record {
  left = v.left;
  split =
      append_assoc (take 1000 keys) (joined r.batches) v.left
      ∙ ap (λ t. take 1000 keys ++ t) v.split
      ∙ take-append-drop 1000 keys;
  all = v.all;
  answered = cons-Answered send (take 1000 keys) r.batches r.error ok v.answered;
  sized = ((omega (arith, length-take 1000 keys), omega (arith, length-take 1000 keys)), v.sized);
  counted = omega (arith, v.counted, length-append (take 1000 keys) (joined r.batches));
}

-- The request that was answered with an error is the last one.
failed-Ordered :
    (send : List Text → Option Error) (keys : List Text) (err : Error)
    → 0 < length keys
    → send (take 1000 keys) ≡ some err
    → Ordered send keys
        (request (take 1000 keys) (record { batches = []; deletes = 0; error = some err }))
unfolding joined Sized Answered
failed-Ordered send keys err some_keys bad = record {
  left = drop 1000 keys;
  split = ap (λ t. t ++ drop 1000 keys) (append-nil (take 1000 keys)) ∙ take-append-drop 1000 keys;
  all = λ h. cc;
  answered = bad;
  sized = ((omega (arith, length-take 1000 keys), omega (arith, length-take 1000 keys)), tt);
  counted = omega (arith, ap length (append-nil (take 1000 keys)));
}

nothing-Ordered :
    (send : List Text → Option Error) (keys : List Text)
    → length keys ≡ 0
    → Ordered send keys (record { batches = []; deletes = 0; error = none })
unfolding joined Sized Answered
nothing-Ordered send [] h = record {
  left = [];
  split = refl;
  all = λ _. refl;
  answered = refl;
  sized = tt;
  counted = refl;
}
nothing-Ordered send (k ∷ ks) h = absurd (omega arith)

delete_loop-Ordered :
    (fuel : ℕ) (send : List Text → Option Error) (keys : List Text)
    → length keys ≤ fuel
    → Ordered send keys (delete_loop fuel send keys)
unfolding delete_loop
delete_loop-Ordered zero send keys enough = nothing-Ordered send keys (omega arith)
delete_loop-Ordered (suc fuel) send keys enough = elim (ℕ-cases 0 (length keys)) [
  | inr empty ↦
      let zero_length : length keys ≡ 0 = omega arith in
      rw zero_length (nothing-Ordered send keys zero_length)
  | inl more ↦ elim (Option-cases (send (take 1000 keys))) [
    | inr (err, bad) ↦ rw (ne_zero (length keys) more, bad) (failed-Ordered send keys err more bad)
    | inl ok ↦
        rw (ne_zero (length keys) more, ok)
          (request-Ordered send keys (delete_loop fuel send (drop 1000 keys)) more ok
            (delete_loop-Ordered fuel send (drop 1000 keys) (omega (arith, length-drop 1000 keys))))
  ]
]

-- `DeleteMulti` asks for every key once and in order, in requests of 1 to 1000 keys. Every request
-- but the last was answered without an error; the answer to the last is the result, so that the first
-- error ends the loop and is returned. Without an error no key is left. The counter grows by the
-- number of keys asked for.
pub delete_multi-Ordered :
    (send : List Text → Option Error) (keys : List Text)
    → Ordered send keys (delete_multi send keys)
unfolding delete_multi
delete_multi-Ordered send keys = delete_loop-Ordered (length keys) send keys (omega arith)
