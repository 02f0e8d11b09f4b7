-- ===== src/Tests.antt =====
-- Runs of the cache on small inputs: a bucket with one object of ten bytes, in blocks of four.
use remote_s3_bucket_plugin.Bitmap.{
  Bitmap, new_bitmap, get, set, set_range, count, bytes, bitmap_from_bytes,
}
use remote_s3_bucket_plugin.Bitmap.Access
use remote_s3_bucket_plugin.Bitmap.Access.{has, set_lem, clear_lem}
use remote_s3_bucket_plugin.Bitmap.Range.{within, set_range_lem}
use remote_s3_bucket_plugin.Bitmap.Codec.{new_bitmap-IsValid, get-bitmap_from_bytes}
use remote_s3_bucket_plugin.Entry.{
  Error, stored, Options, Counters, Entry, done, failed, invalidate, touch,
}
use remote_s3_bucket_plugin.Entry.View.{view, IsValid, Serves, Kept}
use remote_s3_bucket_plugin.Entry.Ensure.{ensure}
use remote_s3_bucket_plugin.Entry.Ensure.Faults.{ensure_lem, ensure-IsReliable, IsReliable}
use remote_s3_bucket_plugin.Entry.Access.{read_at, write_at, truncate}
use remote_s3_bucket_plugin.Entry.Access.Read.{IsRead, read_at-IsRead}
use remote_s3_bucket_plugin.Entry.Access.Write.{IsWritten, write_at-IsWritten}
use remote_s3_bucket_plugin.Entry.Access.Resize.{truncate_lem}
use remote_s3_bucket_plugin.Entry.Upload.{Report, flush}
use remote_s3_bucket_plugin.Entry.Upload.Stored.{Flushed, idle, flush_lem, flush-done}
use remote_s3_bucket_plugin.Entry.Trim.{trim}
use remote_s3_bucket_plugin.Entry.Trim.Punch.{IsClean, Trimmed}
use remote_s3_bucket_plugin.Entry.Trim.Reclaim.{pinned, Exhausted, trim_lem}
use remote_s3_bucket_plugin.Entry.Coherence.{invalidate_lem, ensure-IsClean}
use remote_s3_bucket_plugin.Prelude.{
  ℕ, zero, suc, ◌+◌, ◌/◌, ◌≤◌, ◌<◌, ◌≡◌, refl, ap, true, false, ◌&&◌, ◌||◌, Option, none, some,
  List, [], ◌∷◌, arith, ltb, if◌then◌else◌, length, get_or, pos, negsuc,
}

-- Byte `p` of the object is p + 1.
abbrev object : ℕ → ℕ
object p = p + 1

sent : ℕ → ℕ → List ℕ
sent off zero = []
sent off (suc n) = (off + 1) ∷ sent (off + 1) n

length-sent : (n off : ℕ) → length (sent off n) ≡ n
unfolding sent
length-sent zero off = refl
length-sent (suc n) off = ap suc (length-sent n (off + 1))

get_or-sent : (n off k : ℕ) → k < n → get_or (sent off n) k 0 ≡ off + k + 1
unfolding sent
get_or-sent zero off k h = elim h [ ]
get_or-sent (suc n) off zero h = omega arith
get_or-sent (suc n) off (suc k) h = omega (arith, get_or-sent n (off + 1) k (omega arith))

abbrev options : Options
options = record {
  block_size = 4;
  max_bytes = 0;
  readahead = 0;
  read_only = false;
  fetch = λ key off n. record { body = sent off n; got = n; failed = none };
  upload = λ key body n. stored (7 ∷ []);
}

abbrev counters : Counters
counters = record {
  bytes = pos 0;
  evicting = false;
  hits = 0;
  misses = 0;
  evictions = 0;
  uploads = 0;
  blocks_fetched = 0;
}

-- An entry whose file holds other bytes, bound to the object.
abbrev blank : Entry
blank = record {
  path = 1 ∷ [];
  key = 2 ∷ [];
  file = record { len = 3; data_at = λ p. 99 };
  size = 3;
  obj_size = 0;
  etag = [];
  mtime = 0;
  blocks = new_bitmap (pos 1);
  dirty = false;
  dirty_since = 0;
  written = false;
  new_file = false;
  deleted = false;
  refs = 1;
  used = 0;
  read_off = 0;
}

abbrev opened : Entry
opened = invalidate 4 10 (5 ∷ []) 6 blank

serves : Serves options opened.key object
unfolding invalidate
serves = record {
  bounded = λ off n. omega (arith, length-sent n off);
  whole = λ off n _ _. (length-sent n off, λ k h. get_or-sent n off k h);
}

reliable : IsReliable options
reliable key off n = (refl, refl)

-- The object has been read up to byte 8.
abbrev warm : Entry
warm = (ensure options 0 8 opened counters).1

opened-IsClean : IsClean 4 object opened
opened-IsClean = (invalidate_lem 4 object 10 (5 ∷ []) 6 blank (omega arith)).0

opened-IsValid : IsValid 4 opened
opened-IsValid = opened-IsClean.valid

warm-IsClean : IsClean 4 object warm
warm-IsClean = ensure-IsClean options object 0 8 opened counters serves opened-IsClean

-- A bitmap of 70 blocks, of which 3 and 66 are present.
abbrev sparse : Bitmap
sparse = (set (set (new_bitmap (pos 70)) (pos 3)).0 (pos 66)).0

sparse-IsValid : Access.IsValid sparse
sparse-IsValid =
    (set_lem (set (new_bitmap (pos 70)) (pos 3)).0 66
      (set_lem (new_bitmap (pos 70)) 3 (new_bitmap-IsValid 70).0).0).0

set_range_lem_example :
    Access.IsValid (set_range sparse (pos 62) (pos 67)).0
    × ((j : ℕ) → has (set_range sparse (pos 62) (pos 67)).0 j ≡ (within 62 68 j || has sparse j))
    × (count (set_range sparse (pos 62) (pos 67)).0
        ≡ count sparse + (set_range sparse (pos 62) (pos 67)).1)
set_range_lem_example = set_range_lem sparse 62 67 sparse-IsValid

get-bitmap_from_bytes_example :
    get (bitmap_from_bytes (bytes sparse) (pos 70)) (pos 66) ≡ (ltb 66 70 && has sparse 66)
get-bitmap_from_bytes_example = get-bitmap_from_bytes sparse 70 66

ensure_lem_example :
    Kept 4 object opened (ensure options 3 4 opened counters).1
    × ((ensure options 3 4 opened counters).0 ≡ done tt
        → (p : ℕ) → 3 ≤ p
        → p < 7
        → p < opened.obj_size
        → has (ensure options 3 4 opened counters).1.blocks (p / 4) ≡ true)
ensure_lem_example = ensure_lem options object 3 4 opened counters opened-IsValid serves

ensure-IsReliable_example :
    ((ensure options 3 4 opened counters).0 ≡ done tt)
    × ((p : ℕ)
        → 3 ≤ p
        → p < 7
        → p < opened.obj_size
        → has (ensure options 3 4 opened counters).1.blocks (p / 4) ≡ true)
ensure-IsReliable_example =
    ensure-IsReliable options object 3 4 opened counters opened-IsValid serves reliable

read_at-IsRead_example : IsRead 4 object 3 5 opened (read_at options none 9 5 3 opened counters)
read_at-IsRead_example =
    read_at-IsRead options object none 9 5 3 opened counters opened-IsValid serves

write_at-IsWritten_example :
    IsWritten 4 object (70 ∷ 71 ∷ 72 ∷ []) 9 opened (
      write_at options (record { wrote = 3; error = none }) 8 (70 ∷ 71 ∷ 72 ∷ []) 9 opened counters)
write_at-IsWritten_example =
    write_at-IsWritten options object (record { wrote = 3; error = none }) 8 (70 ∷ 71 ∷ 72 ∷ []) 9
      opened counters opened-IsValid serves (omega arith) (omega arith)

truncate_lem_example :
    ((n : ℕ)
      → pos 6 ≡ negsuc n
      → (err : Error) × ((truncate options none 9 (pos 6) opened counters).0 ≡ failed err))
    × ((n : ℕ)
        → pos 6 ≡ pos n
        → (err : Error) → ◌≡◌ {A = Option Error} none (some err)
        → (truncate options none 9 (pos 6) opened counters).0 ≡ failed err)
    × ((n : ℕ)
        → pos 6 ≡ pos n
        → ◌≡◌ {A = Option Error} none none
        → (truncate options none 9 (pos 6) opened counters).0 ≡ done tt)
    × ((err : Error)
        → (truncate options none 9 (pos 6) opened counters).0 ≡ failed err
        → (truncate options none 9 (pos 6) opened counters).1 ≡ opened)
    × ((truncate options none 9 (pos 6) opened counters).0 ≡ done tt
        → IsValid 4 (truncate options none 9 (pos 6) opened counters).1
          × (pos (truncate options none 9 (pos 6) opened counters).1.size ≡ pos 6)
          × ((truncate options none 9 (pos 6) opened counters).1.dirty ≡ true)
          × ((p : ℕ)
              → view 4 object (truncate options none 9 (pos 6) opened counters).1 p
                ≡ (if ltb p 6 then view 4 object opened p else 0)))
truncate_lem_example = truncate_lem options object none 9 (pos 6) opened counters opened-IsValid

-- The entry that was opened, marked as changed.
abbrev changed : Entry
changed = touch 3 opened

changed-IsValid : IsValid 4 changed
changed-IsValid = record {
  positive = opened-IsValid.positive;
  blocks = opened-IsValid.blocks;
  file_length = opened-IsValid.file_length;
  object_fits = opened-IsValid.object_fits;
}

flush_lem_example : Flushed options object changed (flush options none none 9 changed counters)
flush_lem_example = flush_lem options object none none 9 changed counters changed-IsValid serves

changed_busy : idle options changed ≡ false
unfolding idle invalidate
changed_busy = refl

flush-done_example :
    (report : Report) × ((flush options none none 9 changed counters).0 ≡ done (some report))
flush-done_example =
    flush-done options object 9 changed counters changed-IsValid serves reliable
      (λ key body n. (7 ∷ [], refl)) changed_busy

trim_lem_example :
    Trimmed options object warm
      (trim options (λ off. none) (pos 4) warm counters).0
      (trim options (λ off. none) (pos 4) warm counters).2
    × ((p : ℕ)
        → view 4 object (trim options (λ off. none) (pos 4) warm counters).0 p
          ≡ view 4 object warm p)
    × (pinned warm ≡ false
        → Exhausted options
            (λ off. none)
            4
            0
            warm.blocks.n
            warm
            (
              (trim options (λ off. none) (pos 4) warm counters).0,
              (trim options (λ off. none) (pos 4) warm counters).2,
            ))
trim_lem_example = trim_lem options object (λ off. none) (pos 4) warm counters warm-IsClean
