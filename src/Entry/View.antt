-- ===== src/Entry/View.antt =====
-- The file that an entry stands for: its own bytes where they are present, and those of the object
-- in S3 elsewhere. `Kept` is what faulting in blocks leaves as it was.
use native.Mathlib.Nat.{le-div_iff_mul-le, div-lt_iff_lt-mul, div-mul-le_self}
use remote_s3_bucket_plugin.OsFile.{byte_at}
use remote_s3_bucket_plugin.Bitmap.Access.{has, get-has}
use remote_s3_bucket_plugin.Bitmap.Access
use remote_s3_bucket_plugin.Entry.{Text, Options, Entry, block_present}
use remote_s3_bucket_plugin.Prelude.{
  ℕ, ◌+◌, ◌*◌, ◌/◌, ◌≤◌, ◌<◌, ◌≡◌, refl, ap, ◌∙◌, true, false, not, ◌&&◌, none, arith, ltb,
  if◌then◌else◌, length, get_or,
}

-- Byte `p` as a reader of the file sees it.
unfoldable pub view : ℕ → (ℕ → ℕ) → Entry → ℕ → ℕ
view bs remote e p =
    if ltb p e.obj_size && not (has e.blocks (p / bs)) then remote p else byte_at e.file p

pub record IsValid (bs : ℕ) (e : Entry) : Type 0 where
  pub positive : 0 < bs
  pub blocks : Access.IsValid e.blocks
  pub file_length : e.file.len ≡ e.size
  pub object_fits : e.obj_size ≤ e.size

-- What the code relies on of a ranged GET: it streams no more than was asked for, and a GET that
-- reports no error and the whole length has streamed that part of the object.
pub record Serves (o : Options) (key : Text) (remote : ℕ → ℕ) : Type 0 where
  pub bounded : (off n : ℕ) → length (o.fetch key off n).body ≤ n
  pub whole :
      (off n : ℕ)
      → (o.fetch key off n).failed ≡ none
      → (o.fetch key off n).got ≡ n
      → (length (o.fetch key off n).body ≡ n)
        × ((k : ℕ) → k < n → get_or (o.fetch key off n).body k 0 ≡ remote (off + k))

pub record Kept (bs : ℕ) (remote : ℕ → ℕ) (e e' : Entry) : Type 0 where
  pub valid : IsValid bs e'
  pub same_view : (p : ℕ) → view bs remote e' p ≡ view bs remote e p
  pub same_rest : e' ≡ record e { file = e'.file; blocks = e'.blocks }
  pub still : (i : ℕ) → has e.blocks i ≡ true → has e'.blocks i ≡ true

pub Kept-refl : {bs : ℕ} {remote : ℕ → ℕ} {e : Entry} → IsValid bs e → Kept bs remote e e
Kept-refl v = record { valid = v; same_view = λ p. refl; same_rest = refl; still = λ i h. h }

pub Kept-trans :
    {bs : ℕ} {remote : ℕ → ℕ} {e e' e'' : Entry}
    → Kept bs remote e e'
    → Kept bs remote e' e''
    → Kept bs remote e e''
Kept-trans {e} {e'} {e''} a b = record {
  valid = b.valid;
  same_view = λ p. b.same_view p ∙ a.same_view p;
  same_rest =
      b.same_rest
      ∙ ap (λ (x : Entry). record x { file = e''.file; blocks = e''.blocks }) a.same_rest;
  still = λ i h. b.still i (a.still i h);
}

-- A block that is not present holds no byte that a reader sees.
pub missing_block :
    (bs : ℕ) (e : Entry) (i : ℕ)
    → IsValid bs e
    → block_present bs e i ≡ false
    → (i * bs < e.obj_size) × (has e.blocks i ≡ false)
unfolding block_present
missing_block bs e i v h = ground (arith, get-has e.blocks i v.blocks)

pub present_block :
    (bs : ℕ) (e : Entry) (i : ℕ)
    → IsValid bs e
    → block_present bs e i ≡ true
    → i * bs < e.obj_size
    → has e.blocks i ≡ true
unfolding block_present
present_block bs e i v h less = ground (arith, get-has e.blocks i v.blocks)

-- Blocks are intervals of `bs` bytes.
pub in_block_lo : (bs i p : ℕ) → 0 < bs → i * bs ≤ p → i ≤ p / bs
in_block_lo bs i p h le = (le-div_iff_mul-le h).1 le

pub in_block_hi : (bs i p : ℕ) → 0 < bs → p < (i + 1) * bs → p / bs ≤ i
in_block_hi bs i p h lt = omega (arith, (div-lt_iff_lt-mul h).1 lt)

pub block_start : (bs p : ℕ) → p / bs * bs ≤ p
block_start bs p = div-mul-le_self p bs

pub block_stop : (bs p : ℕ) → 0 < bs → p < (p / bs + 1) * bs
block_stop bs p h = (div-lt_iff_lt-mul h).0 (omega arith)
