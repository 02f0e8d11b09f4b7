-- ===== src/Multipart/Tiles.antt =====
-- The ranges of a multipart copy.
use remote_s3_bucket_plugin.Table.{Text}
use remote_s3_bucket_plugin.Entry.{Error, Uploaded, stored, refused}
use remote_s3_bucket_plugin.Entry.Upload.Stored.{Uploaded-cases}
use remote_s3_bucket_plugin.Multipart.{Part, Copied, part_size, part_at, copy_loop, copy_multipart}
use remote_s3_bucket_plugin.Prelude.{
  ℕ, zero, suc, ◌+◌, ◌≤◌, ◌<◌, ◌≡◌, refl, ap, subst, ◌∙◌, ◌⊎◌, inl, inr, true, false, Option, none,
  some, List, [], ◌∷◌, arith, le→leb, lt→leb_false, Option-cases, ℕ-cases,
}

-- The parts from number `num` on are ranges of 1 to `n` bytes, each where the one before ended, from
-- `off` to `stop`.
unfoldable pub Tiled : ℕ → ℕ → ℕ → ℕ → List Part → Type 0
Tiled n num off stop [] = off ≡ stop
Tiled n num off stop (p ∷ ps) =
    (p.number ≡ num)
    × (p.first ≡ off)
    × (off ≤ p.last)
    × (p.last < off + n)
    × Tiled n (num + 1) (p.last + 1) stop ps

-- The parts of the completion are those that were asked for, with the ETags that were answered.
unfoldable pub Numbered : (Part → Uploaded) → List Part → List (Text × ℕ) → Type 0
Numbered send [] [] = Unit
Numbered send [] (y ∷ ys) = ⊥
Numbered send (p ∷ ps) [] = ⊥
Numbered send (p ∷ ps) (y ∷ ys) = (y.1 ≡ p.number) × (send p ≡ stored y.0) × Numbered send ps ys

-- Every part but the last that was asked for was stored, and the last was refused with `err`.
unfoldable pub Refused : (Part → Uploaded) → Error → List Part → Type 0
Refused send err [] = ⊥
Refused send err (p ∷ []) = send p ≡ refused err
Refused send err (p ∷ p' ∷ ps) =
    ((etag : Text) × (send p ≡ stored etag)) × Refused send err (p' ∷ ps)

abbrev Good : (Part → Uploaded) → ℕ → ℕ → ℕ → ℕ → Copied → Type 0
Good send n num off size c =
    (c.error ≡ none → Tiled n num off size c.asked × Numbered send c.asked c.parts)
    × ((err : Error) → c.error ≡ some err → Refused send err c.asked)

nothing : Copied
nothing = record { asked = []; parts = []; error = none }

copy_loop-past :
    (fuel : ℕ) (send : Part → Uploaded) (size n off num : ℕ)
    → size ≤ off
    → copy_loop fuel send size n off num ≡ nothing
unfolding copy_loop nothing
copy_loop-past zero send size n off num past = refl
copy_loop-past (suc fuel) send size n off num past = rw (le→leb size off past) refl

nothing-Good : (send : Part → Uploaded) (n num size : ℕ) → Good send n num size size nothing
unfolding nothing Tiled Numbered
nothing-Good send n num size = (λ ok. (refl, tt), λ err h. cc)

-- One part, and then the rest.
cons-Refused :
    (send : Part → Uploaded) (err : Error) (p : Part) (etag : Text) (ps : List Part)
    → send p ≡ stored etag
    → Refused send err ps
    → Refused send err (p ∷ ps)
unfolding Refused
cons-Refused send err p etag [] fine h = absurd h
cons-Refused send err p etag (p' ∷ ps) fine h = ((etag, fine), h)

cons-Good :
    (send : Part → Uploaded) (n num off size last : ℕ) (etag : Text) (rest : Copied)
    → off ≤ last
    → last < off + n
    → send (record { number = num; first = off; last = last }) ≡ stored etag
    → Good send n (num + 1) (last + 1) size rest
    → Good send n num off size (record {
      asked = record { number = num; first = off; last = last } ∷ rest.asked;
      parts = (etag, num) ∷ rest.parts;
      error = rest.error;
    })
unfolding Tiled Numbered
cons-Good send n num off size last etag rest lo hi fine (good, bad) = (
  λ ok. ((refl, refl, lo, hi, (good ok).0), (refl, fine, (good ok).1)),
  λ err h. cons-Refused send err _ etag rest.asked fine (bad err h),
)

copy_loop-Good :
    (fuel : ℕ) (send : Part → Uploaded) (size n off num : ℕ)
    → 0 < n
    → off < size
    → size ≤ off + fuel
    → Good send n num off size (copy_loop fuel send size n off num)
unfolding copy_loop Refused
copy_loop-Good zero send size n off num h more enough = absurd (omega arith)
copy_loop-Good (suc fuel) send size n off num h more enough =
    elim (Uploaded-cases (send (part_at size n off num))) [
      | inl (err, bad) ↦
          rw (lt→leb_false off size more, bad)
            (λ ok. cc, λ x h. let same : err ≡ x = cc in bad ∙ ap refused same)
      | inr (etag, fine) ↦
          rw (lt→leb_false off size more, fine)
            (cons-Good send n num off size (part_at size n off num).last etag
              (copy_loop fuel send size n (off + n) (num + 1)) (ground arith) (ground arith) fine
              (elim (ℕ-cases (off + n) size) [
                | inl inside ↦
                    let next : (part_at size n off num).last + 1 ≡ off + n = ground arith in
                    rw next
                      (copy_loop-Good fuel send size n (off + n) (num + 1) h inside (omega arith))
                | inr past ↦
                    let next : (part_at size n off num).last + 1 ≡ size = ground arith in
                    rw (copy_loop-past fuel send size n (off + n) (num + 1) past)
                      (rw next (nothing-Good send n (num + 1) size))
              ]))
    ]

part_size_pos : (configured : ℕ) → 0 < part_size configured
unfolding part_size
part_size_pos configured = ground arith

-- A multipart copy of an object that is not empty asks for its completion only with parts that are the
-- whole object, each byte once and in order, in ranges of 1 byte to the part size, numbered from 1
-- and each with the ETag that the bucket answered for it; the answer to that request is the result,
-- and nothing is aborted after it, whatever the answer. Where the completion is not asked for, either
-- the upload could not be opened, or the last part asked for was refused, and then the upload is
-- aborted; the refusal is the result.
pub copy_multipart-Tiled :
    (create : Option Error) (send : Part → Uploaded) (complete : List (Text × ℕ) → Option Error)
    (configured size : ℕ)
    → 0 < size
    → let r = copy_multipart create send complete configured size in
      ((parts : List (Text × ℕ))
        → r.completing ≡ some parts
        → Tiled (part_size configured) 1 0 size r.asked
          × Numbered send r.asked parts
          × (r.error ≡ complete parts)
          × (r.aborted ≡ false))
      × (r.completing ≡ none
          → (err : Error) × (r.error ≡ some err)
            × (((r.aborted ≡ true) × Refused send err r.asked)
                ⊎ ((create ≡ some err) × (r.asked ≡ []))))
unfolding copy_multipart
copy_multipart-Tiled (some err) send complete configured size more =
    (λ parts h. cc, λ h. (err, refl, inr (refl, refl)))
copy_multipart-Tiled none send complete configured size more =
    let c = copy_loop size send size (part_size configured) 0 1 in
    let (good, refusal) =
      copy_loop-Good size send size (part_size configured) 0 1 (part_size_pos configured) more
        (omega arith) in
    elim (Option-cases c.error) [
      | inr (err, bad) ↦
          rw (bad, copy_multipart) (λ parts h. cc, λ h. (err, refl, inl (refl, refusal err bad)))
      | inl ok ↦
          rw (ok, copy_multipart)
            (
              λ parts h.
                  let same : c.parts ≡ parts = cc in
                  let (tiled, numbered) = good ok in
                  (tiled, subst (Numbered send c.asked) same numbered, ap complete same, refl),
              λ h. cc,
            )
    ]
