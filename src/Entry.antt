-- ===== src/Entry.antt =====
-- internal/cache/entry.go: one locally materialised object, and `nblocks`, `account` and the types
-- that it shares with internal/cache/cache.go. Each operation returns the new state; what the
-- operating system, the bucket and the clock answer is an argument. Sizes and offsets are the
-- non-negative int64 values, without wrap-around.
pub mod Ensure
pub mod Access
pub mod Upload
pub mod Trim
pub mod View
pub mod Coherence
pub mod Accounts
pub use remote_s3_bucket_plugin.Table.{Text}
use remote_s3_bucket_plugin.OsFile.{File, truncate}
use remote_s3_bucket_plugin.Bitmap.{Bitmap, new_bitmap, get, count}
use remote_s3_bucket_plugin.Prelude.{
  ℕ, zero, suc, ◌+◌, ◌-◌, ◌*◌, ◌/◌, Bool, true, false, not, ◌&&◌, ◌||◌, Option, List, leb, ◌==◌,
  if◌then◌else◌, pos_part, neg_part, ◌+ℤ◌, ◌-ℤ◌, leb_ℤ, ℤ, pos,
}

pub data Error : Type 0 where
  eof negative_size short_read not_found cancelled timed_out : Error
  os_error : ℕ → Error
  s3_error : ℕ → Error

-- What `opts.Fetch` reports for one ranged GET: the bytes that reached `dst`, the count that it
-- returned, and its error.
pub record Fetched : Type 0 where
  pub body : List ℕ
  pub got : ℕ
  pub failed : Option Error

-- `opts.Upload` answers with an ETag or an error.
pub data Uploaded : Type 0 where
  stored : Text → Uploaded
  refused : Error → Uploaded

-- The options of the cache that its entries read.
pub record Options : Type 0 where
  pub block_size : ℕ
  pub max_bytes : ℕ
  pub readahead : ℕ
  pub read_only : Bool
  pub fetch : Text → ℕ → ℕ → Fetched
  pub upload : Text → List ℕ → ℕ → Uploaded

-- The atomic counters of the cache, and whether an eviction has been started.
pub record Counters : Type 0 where
  pub bytes : ℤ
  pub evicting : Bool
  pub hits : ℕ
  pub misses : ℕ
  pub evictions : ℕ
  pub uploads : ℕ
  pub blocks_fetched : ℕ

pub record Entry : Type 0 where
  pub path : Text
  pub key : Text
  pub file : File
  pub size : ℕ
  pub obj_size : ℕ
  pub etag : Text
  pub mtime : ℕ
  pub blocks : Bitmap
  pub dirty : Bool
  pub dirty_since : ℕ
  pub written : Bool
  pub new_file : Bool
  pub deleted : Bool
  pub refs : ℕ
  pub used : ℕ
  pub read_off : ℕ

unfoldable pub nblocks : ℕ → ℕ → ℕ
nblocks size bs = if size == 0 then 0 else (size + bs - 1) / bs

-- By how much the last block of the file, if there is one and it is present, exceeds the file.
pub tail_gap : ℕ → Entry → ℕ → ℕ
tail_gap bs e zero = 0
tail_gap bs e (suc last) = if get e.blocks (pos last) then (last + 1) * bs - e.size else 0

-- `-` stops at 0, as the code's last test makes the total do.
unfoldable pub disk_bytes : ℕ → Entry → ℕ
unfolding tail_gap
disk_bytes bs e =
    let n = count e.blocks in if n == 0 then 0 else n * bs - tail_gap bs e (nblocks e.size bs)

-- `c.account(delta)`: the total, and whether an eviction starts.
unfoldable pub account : ℕ → ℤ → Counters → Counters
account max_bytes delta c =
    let total = c.bytes +ℤ delta in
    if pos_part delta == 0 && neg_part delta == 0
    then c
    else if max_bytes == 0 || leb_ℤ total (pos max_bytes)
    then record c { bytes = total }
    else record c { bytes = total; evicting = true }

-- The difference that the operations pass to `account`.
abbrev pub charge : Options → Entry → Entry → Counters → Counters
charge o before after =
    account o.max_bytes
      (pos (disk_bytes o.block_size after) -ℤ pos (disk_bytes o.block_size before))

unfoldable pub ref : ℕ → Entry → Entry
ref now e = record e { refs = e.refs + 1; used = now }

-- Also whether the entry is now to be destroyed: it was the last reference of a deleted entry.
unfoldable pub unref : Entry → Entry × Bool
unref e =
    let e' = record e { refs = if e.refs == 0 then 0 else e.refs - 1 } in
    (e', e'.refs == 0 && e'.deleted)

unfoldable pub untouched : Entry → Bool
untouched e = not e.written && e.size == 0

unfoldable pub set_clean : ℕ → Text → ℕ → Entry → Entry
set_clean size etag mtime e = record e {
  obj_size = size;
  etag = etag;
  mtime = mtime;
  dirty = false;
  new_file = false;
}

unfoldable pub set_mtime : ℕ → Entry → Entry
set_mtime t e = record e { mtime = t }

-- Drops all cached content and binds the entry to a new version of the object.
unfoldable pub invalidate : ℕ → ℕ → Text → ℕ → Entry → Entry
invalidate bs obj_size etag mtime e = record e {
  blocks = new_bitmap (pos (nblocks obj_size bs));
  size = obj_size;
  obj_size = obj_size;
  etag = etag;
  mtime = mtime;
  dirty = false;
  new_file = false;
  written = false;
  file = truncate e.file obj_size;
}

-- Whether block `i` can be read without S3. Past the object's content there is a local hole.
unfoldable pub block_present : ℕ → Entry → ℕ → Bool
block_present bs e i = if leb e.obj_size (i * bs) then true else get e.blocks (pos i)

-- `e.dirty`, `e.dirtySince`, `e.written`, `e.mtime` and `e.used` after a change at time `now`.
abbrev pub touch : ℕ → Entry → Entry
touch now e = record e {
  dirty = true;
  dirty_since = if e.dirty then e.dirty_since else now;
  written = true;
  mtime = now;
  used = now;
}

-- The result of an operation on an entry: a value or an error, and the state in any case.
pub data Outcome {ℓ} (A : Type ℓ) : Type ℓ where
  done : A → Outcome A
  failed : Error → Outcome A

abbrev pub M : Type 0 → Type 0
M A = Entry → Counters → Outcome A × Entry × Counters

-- An error ends the operation, in the state that it was met in.
abbrev pub resume : {A B : Type 0} → (A → M B) → Outcome A → M B
resume f (done a) e c = f a e c
resume f (failed err) e c = (failed err, e, c)

infixl 5 ◌>>=◌ ◌>>◌
abbrev pub ◌>>=◌ : {A B : Type 0} → M A → (A → M B) → M B
◌>>=◌ m f e c = let (r, e', c') = m e c in resume f r e' c'

abbrev pub ◌>>◌ : {B : Type 0} → M (Unit {0}) → M B → M B
m >> k = m >>= λ _. k

abbrev pub return : {A : Type 0} → A → M A
return a e c = (done a, e, c)

abbrev pub fail : {A : Type 0} → Error → M A
fail err e c = (failed err, e, c)
