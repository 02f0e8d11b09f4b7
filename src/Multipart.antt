-- ===== src/Multipart.antt =====
-- `copyMultipart` of internal/s3io/s3io.go: a large object is copied in ranges. What the bucket answers,
-- after `mapError`, is an argument; the options of the new object and the counter are left out.
pub mod Tiles
use remote_s3_bucket_plugin.Table.{Text}
use remote_s3_bucket_plugin.Entry.{Error, Uploaded, stored, refused}
use remote_s3_bucket_plugin.Prelude.{
  ℕ, zero, suc, ◌+◌, ◌-◌, ◌^◌, Bool, true, false, Option, none, some, List, [], ◌∷◌, ltb, leb,
  if◌then◌else◌,
}

-- Part `number` is `bytes=first-last`.
pub record Part : Type 0 where
  pub number : ℕ
  pub first : ℕ
  pub last : ℕ

-- The parts asked for, those completed with their ETags, and the error that ended the loop.
pub record Copied : Type 0 where
  pub asked : List Part
  pub parts : List (Text × ℕ)
  pub error : Option Error

-- How the upload ended: the list of parts with which its completion was asked for, if it was, and
-- whether it was aborted. A completion that fails is not aborted.
pub record Ending : Type 0 where
  pub asked : List Part
  pub completing : Option (List (Text × ℕ))
  pub aborted : Bool
  pub error : Option Error

unfoldable pub part_size : ℕ → ℕ
part_size configured = if ltb configured (2 ^ 26) then 2 ^ 26 else configured

abbrev pub part_at : ℕ → ℕ → ℕ → ℕ → Part
part_at size n off num = record {
  number = num;
  first = off;
  last = if leb size (off + n - 1) then size - 1 else off + n - 1;
}

-- Each round passes one byte at least.
copy_loop : ℕ → (Part → Uploaded) → ℕ → ℕ → ℕ → ℕ → Copied
copy_loop zero send size n off num = record { asked = []; parts = []; error = none }
copy_loop (suc fuel) send size n off num =
    let p = part_at size n off num in
    let rest = copy_loop fuel send size n (off + n) (num + 1) in
    if leb size off then record { asked = []; parts = []; error = none } else elim (send p) [
      | refused err ↦ record { asked = p ∷ []; parts = []; error = some err }
      | stored etag ↦ record {
        asked = p ∷ rest.asked;
        parts = (etag, num) ∷ rest.parts;
        error = rest.error;
      }
    ]

-- `create` and `complete` are the answers to the requests that open and close the upload.
unfoldable pub copy_multipart :
    Option Error → (Part → Uploaded) → (List (Text × ℕ) → Option Error) → ℕ → ℕ → Ending
unfolding copy_loop
copy_multipart create send complete configured size =
    let c = copy_loop size send size (part_size configured) 0 1 in
    elim create [
      | some err ↦ record { asked = []; completing = none; aborted = false; error = some err }
      | none ↦ elim c.error [
        | some err ↦ record { asked = c.asked; completing = none; aborted = true; error = some err }
        | none ↦ record {
          asked = c.asked;
          completing = some c.parts;
          aborted = false;
          error = complete c.parts;
        }
      ]
    ]
