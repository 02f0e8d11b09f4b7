-- ===== src/Entry/Access/Resize.antt =====
-- `Truncate` against the file that the entry stands for: what is cut off is gone from the object's
-- part too, so that a later extension reads as zeros.
use remote_s3_bucket_plugin.OsFile
use remote_s3_bucket_plugin.OsFile.{byte_at, byte_at-truncate}
use remote_s3_bucket_plugin.Bitmap.Range.{clear_from_lem}
use remote_s3_bucket_plugin.Entry.{Error, Options, Counters, Entry, done, failed, nblocks}
use remote_s3_bucket_plugin.Entry.View.{view, IsValid, in_block_lo, block_start}
use remote_s3_bucket_plugin.Entry.Ensure.Faults.{ne_zero}
use remote_s3_bucket_plugin.Entry.Access.{truncate, shrink}
use remote_s3_bucket_plugin.Prelude.{
  ℕ, ◌+◌, ◌-◌, ◌/◌, ◌<◌, ◌≡◌, refl, inl, inr, true, Option, none, some, arith, ltb, if◌then◌else◌,
  Bool-cases, pos_part, ℤ, pos, negsuc,
}

-- A byte of a file of `size` bytes lies in one of its `nblocks size` blocks.
pub block-nblocks : (bs size p : ℕ) → 0 < bs → p < size → p / bs < nblocks size bs
unfolding nblocks
block-nblocks bs size p h inside =
    rw (ne_zero size (omega arith)) (
      omega
        (arith, in_block_lo bs (p / bs + 1) (size + bs - 1) h (omega (arith, block_start bs p))))

-- The state after a successful `Truncate`, but for the times and the flags.
cut : ℕ → ℕ → Entry → Entry
cut bs size e = record (shrink bs size (record e { file = OsFile.truncate e.file size })) {
  size = size;
}

module _ (bs : ℕ) (remote : ℕ → ℕ) (size : ℕ) (e : Entry) (v : IsValid bs e) where
  cut-IsValid : IsValid bs (cut bs size e)
  unfolding cut shrink OsFile.truncate
  cut-IsValid = elim (Bool-cases (ltb size e.obj_size)) [
    | inl less ↦ rw less (record {
      positive = v.positive;
      blocks = (clear_from_lem e.blocks (nblocks size bs) v.blocks).0;
      file_length = refl;
      object_fits = omega arith;
    })
    | inr same ↦ rw same (record {
      positive = v.positive;
      blocks = v.blocks;
      file_length = refl;
      object_fits = ground arith;
    })
  ]

  view-cut :
      (p : ℕ) → view bs remote (cut bs size e) p ≡ (if ltb p size then view bs remote e p else 0)
  unfolding cut view shrink
  view-cut p = elim (Bool-cases (ltb size e.obj_size)) [
    | inl less ↦ rw less (
        ground (
          arith,
          (clear_from_lem e.blocks (nblocks size bs) v.blocks).1 (p / bs),
          block-nblocks bs size p v.positive,
          byte_at-truncate e.file size p,
        ))
    | inr same ↦ rw same (ground (arith, byte_at-truncate e.file size p))
  ]

-- `Truncate` to `size`: it fails for a negative size, and with the error of the operating system if
-- there is one, and succeeds otherwise. A failure changes nothing. After a success the file is the old one up to `size`, followed by zeros where it was extended.
pub truncate_lem :
    (o : Options) (remote : ℕ → ℕ) (io : Option Error) (now : ℕ) (size : ℤ) (e : Entry)
    (c : Counters)
    → IsValid o.block_size e
    → let r = truncate o io now size e c in
      ((n : ℕ) → size ≡ negsuc n → (err : Error) × (r.0 ≡ failed err))
      × ((n : ℕ) → size ≡ pos n → (err : Error) → io ≡ some err → r.0 ≡ failed err)
      × ((n : ℕ) → size ≡ pos n → io ≡ none → r.0 ≡ done tt)
      × ((err : Error) → r.0 ≡ failed err → r.1 ≡ e)
      × (r.0 ≡ done tt
          → IsValid o.block_size r.1
            × (pos r.1.size ≡ size)
            × (r.1.dirty ≡ true)
            × ((p : ℕ)
                → view o.block_size remote r.1 p
                  ≡ (if ltb p (pos_part size) then view o.block_size remote e p else 0)))
unfolding truncate view cut
truncate_lem o remote io now (negsuc n) e c v =
    (λ m h. (_, refl), λ m h. cc, λ m h. cc, λ err h. refl, λ h. cc)
truncate_lem o remote (some x) now (pos n) e c v =
    (λ m h. cc, λ m h err bad. cc, λ m h ok. cc, λ err h. refl, λ h. cc)
truncate_lem o remote none now (pos n) e c v = (
  λ m h. cc,
  λ m h err bad. cc,
  λ m h ok. refl,
  λ err h. cc,
  λ h.
      let valid = cut-IsValid o.block_size remote n e v in
      (
        record {
          positive = valid.positive;
          blocks = valid.blocks;
          file_length = valid.file_length;
          object_fits = valid.object_fits;
        },
        refl,
        refl,
        view-cut o.block_size remote n e v,
      ),
)
