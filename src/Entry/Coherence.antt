-- ===== src/Entry/Coherence.antt =====
-- What keeps a clean entry in step with its object: binding it to a new version and faulting in
-- blocks.
use remote_s3_bucket_plugin.OsFile.{truncate, byte_at}
use remote_s3_bucket_plugin.Bitmap.Codec.{new_bitmap-IsValid}
use remote_s3_bucket_plugin.Bitmap.Access.{has}
use remote_s3_bucket_plugin.Entry.{Text, Options, Counters, Entry, nblocks, invalidate}
use remote_s3_bucket_plugin.Entry.View.{view, Serves}
use remote_s3_bucket_plugin.Entry.Ensure.{ensure}
use remote_s3_bucket_plugin.Entry.Ensure.Faults.{obj_size-Kept, ensure_lem}
use remote_s3_bucket_plugin.Entry.Trim.Punch.{IsClean}
use remote_s3_bucket_plugin.Prelude.{ℕ, ◌/◌, ◌<◌, ◌≡◌, refl, sym, ap, ◌∙◌, true, false, arith}

-- Binding an entry to a new version of its object drops every local byte: the entry is clean and
-- its file is the object, whatever the local file held.
pub invalidate_lem :
    (bs : ℕ) (remote : ℕ → ℕ) (size : ℕ) (etag : Text) (mtime : ℕ) (e : Entry)
    → 0 < bs
    → let e' = invalidate bs size etag mtime e in
      IsClean bs remote e'
      × (e'.etag ≡ etag)
      × (e'.dirty ≡ false)
      × ((p : ℕ) → p < size → view bs remote e' p ≡ remote p)
unfolding invalidate truncate view
invalidate_lem bs remote size etag mtime e h =
    let (valid, empty) = new_bitmap-IsValid (nblocks size bs) in
    (
      record {
        valid = record {
          positive = h;
          blocks = valid;
          file_length = refl;
          object_fits = omega arith;
        };
        same_size = refl;
        agrees = λ p _ on. ground (arith, empty (p / bs));
      },
      refl,
      refl,
      λ p inside. ground (arith, empty (p / bs)),
    )

view_on :
    (bs : ℕ) (remote : ℕ → ℕ) (e : Entry) (p : ℕ)
    → has e.blocks (p / bs) ≡ true
    → byte_at e.file p ≡ view bs remote e p
unfolding view
view_on bs remote e p on = ground (arith, on)

view_object :
    (bs : ℕ) (remote : ℕ → ℕ) (e : Entry) (p : ℕ)
    → IsClean bs remote e
    → p < e.obj_size
    → view bs remote e p ≡ remote p
unfolding view
view_object bs remote e p v inside = ground (arith, v.agrees p)

-- Faulting in blocks keeps a clean entry in step with its object, whatever the GETs answer.
pub ensure-IsClean :
    (o : Options) (remote : ℕ → ℕ) (off n : ℕ) (e : Entry) (c : Counters)
    → Serves o e.key remote
    → IsClean o.block_size remote e
    → IsClean o.block_size remote (ensure o off n e c).1
ensure-IsClean o remote off n e c s v =
    let kept = (ensure_lem o remote off n e c v.valid s).0 in
    record {
      valid = kept.valid;
      same_size =
          ap (λ (x : Entry). x.size) kept.same_rest
          ∙ v.same_size
          ∙ sym (ap (λ (x : Entry). x.obj_size) kept.same_rest);
      agrees = λ p inside on.
          view_on o.block_size remote (ensure o off n e c).1 p on
          ∙ kept.same_view p
          ∙ view_object o.block_size remote e p v (omega (arith, obj_size-Kept kept));
    }
