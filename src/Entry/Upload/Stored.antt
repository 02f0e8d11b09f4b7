-- ===== src/Entry/Upload/Stored.antt =====
-- What `Flush` puts into the bucket, and what the entry knows of it afterwards.
use remote_s3_bucket_plugin.OsFile
use remote_s3_bucket_plugin.OsFile.{byte_at, byte_at-truncate, slice, get_or-slice, length-slice}
use remote_s3_bucket_plugin.Bitmap.{Bitmap, set_range}
use remote_s3_bucket_plugin.Bitmap.Access
use remote_s3_bucket_plugin.Bitmap.Access.{has}
use remote_s3_bucket_plugin.Bitmap.Range.{set_range_lem}
use remote_s3_bucket_plugin.Entry.{
  Text, Error, Uploaded, stored, refused, Options, Counters, Entry, Outcome, done, failed, resume,
  nblocks,
}
use remote_s3_bucket_plugin.Entry.View.{view, IsValid, Serves, Kept, Kept-refl, Kept-trans}
use remote_s3_bucket_plugin.Entry.Ensure.{ensure}
use remote_s3_bucket_plugin.Entry.Ensure.Faults.{obj_size-Kept, ensure_lem, ensure-done, IsReliable}
use remote_s3_bucket_plugin.Entry.Access.Resize.{block-nblocks}
use remote_s3_bucket_plugin.Entry.Upload.{
  Report, last_block, finish_upload, send, finish_flush, flush,
}
use remote_s3_bucket_plugin.Prelude.{
  ℕ, zero, suc, ◌/◌, ◌<◌, ◌≡◌, refl, sym, ap, subst, ◌∙◌, ◌⊎◌, inl, inr, Bool, true, false, not,
  ◌||◌, Option, none, some, List, arith, ltb, Bool-cases, length, get_or, pos,
}

-- `setRange(0, n-1)` makes blocks 0 to n - 1 present, and none for n = 0.
fill :
    (b : Bitmap) (n : ℕ)
    → Access.IsValid b
    → Access.IsValid (set_range b (pos 0) (last_block n)).0
      × ((j : ℕ) → has (set_range b (pos 0) (last_block n)).0 j ≡ (ltb j n || has b j))
unfolding set_range
fill b zero v = (v, λ j. ground arith)
fill b (suc n) v =
    let (valid, row, _) = set_range_lem b 0 n v in (valid, λ j. ground (arith, row j))

-- A reader sees the file as it was, and what is not its content is as it was.
pub record Unsent (bs : ℕ) (remote : ℕ → ℕ) (e e' : Entry) : Type 0 where
  pub valid : IsValid bs e'
  pub same_view : (p : ℕ) → view bs remote e' p ≡ view bs remote e p
  pub same_rest : e' ≡ record e { file = e'.file; blocks = e'.blocks }

pub Uploaded-cases :
    (u : Uploaded) → ((err : Error) × (u ≡ refused err)) ⊎ ((etag : Text) × (u ≡ stored etag))
Uploaded-cases (stored etag) = inr (etag, refl)
Uploaded-cases (refused err) = inl (err, refl)

-- The bucket stored the file `e` under its key, as `report` says, and `e'` is the clean entry of it,
-- wholly on the local disk: whatever the bucket holds later, a reader sees that file.
pub record Sent (o : Options) (remote : ℕ → ℕ) (e e' : Entry) (report : Report) : Type 0 where
  pub valid : IsValid o.block_size e'
  pub body : List ℕ
  pub body_length : length body ≡ e.size
  pub body_bytes : (k : ℕ) → k < e.size → get_or body k 0 ≡ view o.block_size remote e k
  pub accepted : o.upload e.key body e.size ≡ stored report.etag
  pub named : (report.key ≡ e.key) × (report.size ≡ e.size) × (report.created ≡ e.new_file)
  pub clean : (e'.dirty ≡ false) × (e'.new_file ≡ false) × (e'.written ≡ false)
  pub known : (e'.etag ≡ report.etag) × (e'.obj_size ≡ e.size) × (e'.size ≡ e.size)
  pub same_view :
      (later : ℕ → ℕ) (p : ℕ) → view o.block_size later e' p ≡ view o.block_size remote e p

-- There is nothing to upload, or it may not be uploaded.
unfoldable pub idle : Options → Entry → Bool
idle o e = o.read_only || not e.dirty || e.deleted

read_only-idle : (o : Options) (e : Entry) → o.read_only ≡ true → idle o e ≡ true
unfolding idle
read_only-idle o e h = rw h refl

settled-idle : (o : Options) (e : Entry) → (not e.dirty || e.deleted) ≡ true → idle o e ≡ true
unfolding idle
settled-idle o e h = ground (arith, h)

abbrev pub Flushed : Options → (ℕ → ℕ) → Entry → Outcome (Option Report) × Entry × Counters → Type 0
Flushed o remote e r =
    ((err : Error) → r.0 ≡ failed err → Unsent o.block_size remote e r.1)
    × (r.0 ≡ done none → Unsent o.block_size remote e r.1 × (idle o e ≡ true))
    × ((report : Report) → r.0 ≡ done (some report) → Sent o remote e r.1 report)

abbrev report_of : Entry → ℕ → Text → Report
report_of e now etag = record {
  key = e.key;
  size = e.size;
  etag = etag;
  mtime = now;
  created = e.new_file;
}

unsent : {bs : ℕ} {remote : ℕ → ℕ} {e e' : Entry} → Kept bs remote e e' → Unsent bs remote e e'
unsent k = record { valid = k.valid; same_view = k.same_view; same_rest = k.same_rest }

module _ (o : Options) (remote : ℕ → ℕ) (e : Entry) (v : IsValid o.block_size e) where
  -- `file.Truncate(size)` before the upload changes nothing.
  resized : Entry
  resized = record e { file = OsFile.truncate e.file e.size }

  resized-byte : (p : ℕ) → byte_at resized.file p ≡ byte_at e.file p
  unfolding resized
  resized-byte p = ground (arith, byte_at-truncate e.file e.size p, v.file_length)

  resized-Kept : Kept o.block_size remote e resized
  unfolding resized view OsFile.truncate
  resized-Kept = record {
    valid = record {
      positive = v.positive;
      blocks = v.blocks;
      file_length = refl;
      object_fits = v.object_fits;
    };
    same_view = λ p. ground (arith, resized-byte p);
    same_rest = refl;
    still = λ i h. h;
  }

  module _ (whole : (p : ℕ) → p < e.obj_size → has e.blocks (p / o.block_size) ≡ true) where
    local : (p : ℕ) → byte_at e.file p ≡ view o.block_size remote e p
    unfolding view
    local p = ground (arith, whole p)

    finish_upload-Sent :
        (now : ℕ) (etag : Text) (c : Counters)
        → o.upload e.key (slice e.file 0 e.size) e.size ≡ stored etag
        → Sent o remote e (finish_upload o now e.key etag e c).0 (report_of e now etag)
    unfolding finish_upload view
    finish_upload-Sent now etag c ok =
        let (valid, row) = fill e.blocks (nblocks e.size o.block_size) v.blocks in
        record {
          valid = record {
            positive = v.positive;
            blocks = valid;
            file_length = v.file_length;
            object_fits = omega arith;
          };
          body = slice e.file 0 e.size;
          body_length = length-slice e.size e.file 0;
          body_bytes =
              λ k h. get_or-slice e.size e.file 0 k h ∙ ap (byte_at e.file) (omega arith) ∙ local k;
          accepted = ok;
          named = (refl, refl, refl);
          clean = (refl, refl, refl);
          known = (refl, refl, refl);
          same_view = λ later p. ground (
            arith,
            row (p / o.block_size),
            local p,
            v.file_length,
            block-nblocks o.block_size e.size p v.positive,
          );
        }

Sent-Kept :
    {o : Options} {remote : ℕ → ℕ} {e e' e'' : Entry} {report : Report}
    → Kept o.block_size remote e e'
    → Sent o remote e' e'' report
    → Sent o remote e e'' report
Sent-Kept {o} {remote} {e} {e'} {e''} {report} k s =
    let same_size : e'.size ≡ e.size = ap (λ (x : Entry). x.size) k.same_rest in
    let same_key : e'.key ≡ e.key = ap (λ (x : Entry). x.key) k.same_rest in
    let same_new : e'.new_file ≡ e.new_file = ap (λ (x : Entry). x.new_file) k.same_rest in
    record {
      valid = s.valid;
      body = s.body;
      body_length = s.body_length ∙ same_size;
      body_bytes = λ i h. s.body_bytes i (omega (arith, same_size)) ∙ k.same_view i;
      accepted = rw (sym same_key, sym same_size) s.accepted;
      named = (s.named.0 ∙ same_key, s.named.1 ∙ same_size, s.named.2 ∙ same_new);
      clean = s.clean;
      known = (s.known.0, s.known.1 ∙ same_size, s.known.2 ∙ same_size);
      same_view = λ later p. s.same_view later p ∙ k.same_view p;
    }

-- The end of a flush that got as far as to upload `e'`, the entry `e` with every block present.
send-Flushed :
    (o : Options) (remote : ℕ → ℕ) (now : ℕ) (e e' : Entry) (c : Counters)
    → Kept o.block_size remote e e'
    → ((p : ℕ) → p < e'.obj_size → has e'.blocks (p / o.block_size) ≡ true)
    → Flushed o remote e (send o now e'.key e' c)
unfolding send
send-Flushed o remote now e e' c k whole =
    elim (Uploaded-cases (o.upload e'.key (slice e'.file 0 e'.size) e'.size)) [
      | inl (err, bad) ↦ rw (bad, send) (λ _ _. unsent k, λ h. cc, λ report h. cc)
      | inr (etag, ok) ↦
          rw (ok, send)
            (
              λ err h. cc,
              λ h. cc,
              λ report h.
                  let same : report_of e' now etag ≡ report = cc in
                  subst (Sent o remote e (finish_upload o now e'.key etag e' c).0) same
                    (Sent-Kept k (finish_upload-Sent o remote e' k.valid whole now etag c ok)),
            )
    ]

still_busy :
    {bs : ℕ} {remote : ℕ → ℕ} {e e' : Entry}
    → Kept bs remote e e'
    → (not e.dirty || e.deleted) ≡ false
    → (not e'.dirty || e'.deleted) ≡ false
still_busy k busy = ap (λ (x : Entry). not x.dirty || x.deleted) k.same_rest ∙ busy

ensured-Flushed :
    (o : Options) (remote : ℕ → ℕ) (cut sync : Option Error) (now : ℕ) (e e' : Entry)
    (c' : Counters) (r : Outcome (Unit {0}))
    → Kept o.block_size remote e e'
    → (r ≡ done tt → (p : ℕ) → p < e'.obj_size → has e'.blocks (p / o.block_size) ≡ true)
    → o.read_only ≡ false
    → (not e.dirty || e.deleted) ≡ false
    → Flushed o remote e (resume (λ _. finish_flush o cut sync now e.key) r e' c')
unfolding finish_flush resized
ensured-Flushed o remote cut sync now e e' c' (failed x) k whole wr busy =
    (λ err h. unsent k, λ h. cc, λ report h. cc)
ensured-Flushed o remote (some x) sync now e e' c' (done _) k whole wr busy =
    rw (still_busy k busy, finish_flush) (λ err h. unsent k, λ h. cc, λ report h. cc)
ensured-Flushed o remote none (some x) now e e' c' (done _) k whole wr busy =
    rw (still_busy k busy, finish_flush)
      (λ err h. unsent (Kept-trans k (resized-Kept o remote e' k.valid)), λ h. cc, λ report h. cc)
ensured-Flushed o remote none none now e e' c' (done _) k whole wr busy =
    rw (still_busy k busy, finish_flush)
      (subst (λ key. Flushed o remote e (send o now key (resized o remote e' k.valid) c'))
        (ap (λ (x : Entry). x.key) k.same_rest)
        (send-Flushed o remote now e (resized o remote e' k.valid) c'
          (Kept-trans k (resized-Kept o remote e' k.valid)) (whole refl)))

-- `Flush` writes back exactly the file. On success the bucket accepted a body that is the file as a
-- reader saw it, under the entry's key, and the entry is clean, wholly local, and stands for that
-- same file whatever the object becomes later. Nothing is uploaded only for a read-only mount or an
-- entry that is clean or deleted. In that case, and after an error of a GET, of the operating system
-- or of the upload, the file and the dirty flag are what they were.
pub flush_lem :
    (o : Options) (remote : ℕ → ℕ) (cut sync : Option Error) (now : ℕ) (e : Entry) (c : Counters)
    → IsValid o.block_size e
    → Serves o e.key remote
    → Flushed o remote e (flush o cut sync now e c)
unfolding flush
flush_lem o remote cut sync now e c v s = elim (Bool-cases o.read_only) [
  | inl ro ↦ simp ro (
    λ err h. unsent (Kept-refl v),
    λ h. (unsent (Kept-refl v), read_only-idle o e ro),
    λ report h. cc,
  )
  | inr wr ↦ elim (Bool-cases (not e.dirty || e.deleted)) [
    | inl rest ↦
        simp (wr, rest)
          (λ err h. cc, λ h. (unsent (Kept-refl v), settled-idle o e rest), λ report h. cc)
    | inr busy ↦
        simp (wr, busy)
          (let (kept, here) = ensure_lem o remote 0 e.obj_size e c v s in
            let r = ensure o 0 e.obj_size e c in
            ensured-Flushed o remote cut sync now e r.1 r.2 r.0 kept
              (λ ok p h.
                here ok p (omega arith) (omega (arith, obj_size-Kept kept))
                  (omega (arith, obj_size-Kept kept)))
              wr busy)
  ]
]

-- A `Flush` that has something to upload uploads it, with a bucket that answers every GET and
-- accepts every upload and an operating system without errors.
pub flush-done :
    (o : Options) (remote : ℕ → ℕ) (now : ℕ) (e : Entry) (c : Counters)
    → IsValid o.block_size e
    → Serves o e.key remote
    → IsReliable o
    → ((key : Text) (body : List ℕ) (n : ℕ) → (etag : Text) × (o.upload key body n ≡ stored etag))
    → idle o e ≡ false
    → (report : Report) × ((flush o none none now e c).0 ≡ done (some report))
unfolding flush finish_flush send idle
flush-done o remote now e c v s reliable stores h =
    let wr : o.read_only ≡ false = ground arith in
    let busy : (not e.dirty || e.deleted) ≡ false = ground arith in
    let kept = (ensure_lem o remote 0 e.obj_size e c v s).0 in
    let e' = (ensure o 0 e.obj_size e c).1 in
    let (etag, ok) = stores e.key (slice (OsFile.truncate e'.file e'.size) 0 e'.size) e'.size in
    simp (wr, busy)
      (rw (ensure-done o 0 e.obj_size e c reliable)
        (simp (still_busy kept busy) (rw (ok, send) (_, refl))))
