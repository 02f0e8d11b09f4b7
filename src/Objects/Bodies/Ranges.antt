-- ===== src/Objects/Bodies/Ranges.antt =====
-- A client whose bucket answers ranged requests is a source of blocks for the cache.
use remote_s3_bucket_plugin.Table.{Text}
use remote_s3_bucket_plugin.Decimal.{format_uint}
use remote_s3_bucket_plugin.Table.Laws.{some_ne_none}
use remote_s3_bucket_plugin.Entry.{Options, Fetched}
use remote_s3_bucket_plugin.Entry.View.{Serves}
use remote_s3_bucket_plugin.Objects.Bodies.{
  S3Stats, GetAnswer, denied, streamed, range_header, GetObject, count_get, copied, get_range,
}
use remote_s3_bucket_plugin.Prelude.{
  ℕ, zero, suc, ◌+◌, ◌-◌, ◌≤◌, ◌<◌, ◌≡◌, refl, sym, ap, ◌∙◌, subst, false, none, some, List, [],
  ◌∷◌, ◌++◌, codes, arith, ◌==◌, length, get_or,
}

-- What S3 promises of a body for `n` bytes from `off` on: no more bytes than asked for, and those of
-- the object.
unfoldable pub IsRange : (ℕ → ℕ) → ℕ → ℕ → GetAnswer → Type 0
IsRange remote off n (denied err) = Unit
IsRange remote off n (streamed body err) =
    (length body ≤ n) × ((k : ℕ) → k < length body → get_or body k 0 ≡ remote (off + k))

module _ (remote : ℕ → ℕ) (off n : ℕ) where
  copied-bounded :
      (a : GetAnswer) (st : S3Stats) → IsRange remote off n a → length (copied a st).0.body ≤ n
  unfolding copied IsRange
  copied-bounded (denied err) st h = omega arith
  copied-bounded (streamed body none) st (few, _) = few
  copied-bounded (streamed body (some err)) st (few, _) = few

  copied-whole :
      (a : GetAnswer) (st : S3Stats)
      → IsRange remote off n a
      → (copied a st).0.failed ≡ none
      → (copied a st).0.got ≡ n
      → (length (copied a st).0.body ≡ n)
        × ((k : ℕ) → k < n → get_or (copied a st).0.body k 0 ≡ remote (off + k))
  unfolding copied IsRange
  copied-whole (denied err) st h fine all = absurd (some_ne_none fine)
  copied-whole (streamed body none) st (few, same) fine all = (all, λ k h. same k (omega arith))
  copied-whole (streamed body (some err)) st h fine all = absurd (some_ne_none fine)

module _ (get : GetObject) (st : S3Stats) (key : Text) where
  get_range-empty :
      (off : ℕ) → (get_range get st key off 0).0 ≡ record { body = []; got = 0; failed = none }
  unfolding get_range
  get_range-empty off = refl

  get_range-copied :
      (off n : ℕ)
      → (get_range get st key off (suc n)).0
        ≡ (copied (get key (some (range_header off (off + suc n - 1)))) (count_get st)).0
  unfolding get_range
  get_range-copied off n = rw (get_range, suc_is_set n) refl
    where
      suc_is_set : (n : ℕ) → (suc n == 0) ≡ false
      suc_is_set n = ground arith

-- What `Serves` asks of the blocks that a cache fetches.
record IsServed (remote : ℕ → ℕ) (off n : ℕ) (f : Fetched) : Type 0 where
  bounded : length f.body ≤ n
  whole :
      f.failed ≡ none
      → f.got ≡ n
      → (length f.body ≡ n) × ((k : ℕ) → k < n → get_or f.body k 0 ≡ remote (off + k))

-- How RFC 9110 writes a range of bytes, the last one included.
abbrev pub bytes_from : ℕ → ℕ → Text
bytes_from first last = codes "bytes=" ++ (format_uint first ++ 45 ∷ format_uint last)

header_lem : (first last : ℕ) → range_header first last ≡ bytes_from first last
unfolding range_header
header_lem first last = refl

-- An answer of `n` bytes that does not break off is passed on.
copied_all :
    (a : GetAnswer) (st : S3Stats) (body : List ℕ)
    → a ≡ streamed body none
    → (copied a st).0 ≡ record { body = body; got = length body; failed = none }
unfolding copied
copied_all a st body h = ap (λ x. (copied x st).0) h

module _ (remote : ℕ → ℕ) (get : GetObject) (st : S3Stats) (key : Text)
    (ranges : (off n : ℕ)
      → 0 < n
      → IsRange remote off n (get key (some (bytes_from off (off + n - 1))))) where
  get_range-IsServed : (off n : ℕ) → IsServed remote off n (get_range get st key off n).0
  get_range-IsServed off zero =
      subst (IsServed remote off 0) (sym (get_range-empty get st key off))
        (record { bounded = omega arith; whole = λ fine all. (refl, λ k h. elim h [ ]) })
  get_range-IsServed off (suc n) =
      let a = get key (some (range_header off (off + suc n - 1))) in
      let h : IsRange remote off (suc n) a =
        subst (λ t. IsRange remote off (suc n) (get key (some t)))
          (sym (header_lem off (off + suc n - 1))) (ranges off (suc n) (omega arith)) in
      subst (IsServed remote off (suc n)) (sym (get_range-copied get st key off n)) (record {
        bounded = copied-bounded remote off (suc n) a (count_get st) h;
        whole = copied-whole remote off (suc n) a (count_get st) h;
      })

  get_range-passed :
      (off n : ℕ) (body : List ℕ)
      → 0 < n
      → get key (some (bytes_from off (off + n - 1))) ≡ streamed body none
      → (get_range get st key off n).0 ≡ record { body = body; got = length body; failed = none }
  get_range-passed off zero body h answer = absurd (omega arith)
  get_range-passed off (suc n) body h answer =
      get_range-copied get st key off n
      ∙ copied_all _ (count_get st) body
          (ap (λ t. get key (some t)) (header_lem off (off + suc n - 1)) ∙ answer)

  -- Where S3 answers a GET with the header `bytes=first-last` with an error, or with no more bytes
  -- than asked for that are those of that part of the object, `GetRange` is what the cache relies on
  -- to fetch its blocks: what it reports as read without an error is the part of the object that was
  -- asked for. A body that does not break off is passed on whole and without an error.
  pub get_range-Serves :
      (o : Options)
      → Serves (record o { fetch = λ k off n. (get_range get st k off n).0 }) key remote
        × ((off n : ℕ) (body : List ℕ)
            → 0 < n
            → get key (some (bytes_from off (off + n - 1))) ≡ streamed body none
            → (get_range get st key off n).0
              ≡ record { body = body; got = length body; failed = none })
  get_range-Serves o = (
    record {
      bounded = λ off n. (get_range-IsServed off n).bounded;
      whole = λ off n. (get_range-IsServed off n).whole;
    },
    get_range-passed,
  )
