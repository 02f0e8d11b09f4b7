-- ===== src/Entry/Trim/Punch.antt =====
-- One block of a clean entry punched out by `trim`.
use native.Mathlib.Nat.{mul-le-mul_right}
use remote_s3_bucket_plugin.OsFile.{byte_at, punch_hole, byte_at-punch_hole}
use remote_s3_bucket_plugin.Bitmap.{count, clear}
use remote_s3_bucket_plugin.Bitmap.Access.{has, clear_lem}
use remote_s3_bucket_plugin.Bitmap.Range.{count-clear}
use remote_s3_bucket_plugin.Entry.{Options, Entry, disk_bytes}
use remote_s3_bucket_plugin.Entry.View.{
  view, IsValid, in_block_lo, in_block_hi, block_start, block_stop,
}
use remote_s3_bucket_plugin.Entry.Trim.{kept, block_length}
use remote_s3_bucket_plugin.Entry.Trim.Near.{Near, Near-kept}
use remote_s3_bucket_plugin.Entry.Trim.Space.{
  gap, last_of, disk_bytes-gap, count_pos, self_eq, paid_last, paid_before,
}
use remote_s3_bucket_plugin.Prelude.{
  ℕ, ◌+◌, ◌-◌, ◌*◌, ◌/◌, ◌≤◌, ◌<◌, ◌≡◌, refl, sym, ap, subst, ◌∙◌, inl, inr, true, false, arith,
  ltb, ◌==◌, if◌then◌else◌, ℕ-cases, pos,
}

-- A clean entry: it is as long as its object, and what is present agrees with the object.
pub record IsClean (bs : ℕ) (remote : ℕ → ℕ) (e : Entry) : Type 0 where
  pub valid : IsValid bs e
  pub same_size : e.size ≡ e.obj_size
  pub agrees : (p : ℕ) → p < e.obj_size → has e.blocks (p / bs) ≡ true → byte_at e.file p ≡ remote p

-- `e'` is the clean entry `e` with `m` bytes of blocks away from the reader dropped.
pub record Trimmed (o : Options) (remote : ℕ → ℕ) (e e' : Entry) (m : ℕ) : Type 0 where
  pub clean : IsClean o.block_size remote e'
  pub same_rest : e' ≡ record e { file = e'.file; blocks = e'.blocks }
  pub fewer : (i : ℕ) → has e'.blocks i ≡ true → has e.blocks i ≡ true
  pub near : (i : ℕ) → Near o.block_size o.readahead e.read_off i → has e'.blocks i ≡ has e.blocks i
  pub paid : disk_bytes o.block_size e' + m ≡ disk_bytes o.block_size e

-- A clean entry stands for the object.
pub view-clean :
    (bs : ℕ) (remote : ℕ → ℕ) (e : Entry) (p : ℕ)
    → IsClean bs remote e
    → view bs remote e p ≡ (if ltb p e.size then remote p else 0)
unfolding view
view-clean bs remote e p v = ground (arith, v.agrees p, v.same_size, v.valid.file_length)

-- The entry after block `i` was punched out.
unfoldable pub punched : ℕ → ℕ → Entry → Entry
punched bs i e = record e {
  file = punch_hole e.file (i * bs) (block_length bs e i);
  blocks = (clear e.blocks (pos i)).0;
}

module _ (bs : ℕ) (remote : ℕ → ℕ) (e : Entry) (i : ℕ) (v : IsClean bs remote e) where
  punched-len : (punched bs i e).file.len ≡ e.size
  unfolding punched punch_hole
  punched-len = v.valid.file_length

  pub punched-IsClean : IsClean bs remote (punched bs i e)
  unfolding punched
  punched-IsClean =
      let (valid, row, _) = clear_lem e.blocks i v.valid.blocks in
      record {
        valid = record {
          positive = v.valid.positive;
          blocks = valid;
          file_length = punched-len;
          object_fits = v.valid.object_fits;
        };
        same_size = v.same_size;
        agrees = λ p inside on. ground (
          arith,
          row (p / bs),
          byte_at-punch_hole e.file (i * bs) (block_length bs e i) p,
          v.agrees p inside,
          in_block_lo bs i p v.valid.positive,
          in_block_hi bs i p v.valid.positive,
        );
      }

  -- The last block may be shorter than the others.
  punched-paid :
      has e.blocks i ≡ true
      → 0 < block_length bs e i
      → disk_bytes bs (punched bs i e) + block_length bs e i ≡ disk_bytes bs e
  unfolding punched gap last_of
  punched-paid on room =
      let last = (e.size - 1) / bs in
      let e' = punched bs i e in
      let one_less = count-clear e.blocks i v.valid.blocks on in
      let (_, row, _) = clear_lem e.blocks i v.valid.blocks in
      let i_last : i ≤ last = in_block_lo bs i (e.size - 1) v.valid.positive (ground arith) in
      let start = block_start bs (e.size - 1) in
      let stop = block_stop bs (e.size - 1) v.valid.positive in
      let left = count (clear e.blocks (pos i)).0 in
      rw
        (
          disk_bytes-gap bs e v.valid (ground arith),
          disk_bytes-gap bs e' punched-IsClean.valid (ground arith),
          sym one_less,
        )
        (elim (ℕ-cases i last) [
          | inr at_end ↦
              let same : last ≡ i = omega arith in
              rw (row last) (
                rw same (
                  rw (on, self_eq i)
                    (paid_last bs e.size i left (ground arith)
                      (subst (λ (k : ℕ). e.size ≤ (k + 1) * bs) same (omega (arith, stop))))))
          | inl before ↦
              let other : (i == last) ≡ false = ground arith in
              rw (row last, other)
                (paid_before bs e.size i left (gap bs e last)
                  (ground (arith, mul-le-mul_right bs before)) (ground arith)
                  (ground (arith, row last, count_pos bs e' last punched-IsClean.valid)))
        ])

pub Trimmed-refl :
    {o : Options} {remote : ℕ → ℕ} {e : Entry}
    → IsClean o.block_size remote e
    → Trimmed o remote e e 0
Trimmed-refl v = record {
  clean = v;
  same_rest = refl;
  fewer = λ i h. h;
  near = λ i h. refl;
  paid = omega arith;
}

pub kept-punched :
    (o : Options) (i : ℕ) (e : Entry) (j : ℕ) → kept o (punched o.block_size i e) j ≡ kept o e j
unfolding punched kept
kept-punched o i e j = refl

pub length-punched :
    (bs i : ℕ) (e : Entry) (j : ℕ) → block_length bs (punched bs i e) j ≡ block_length bs e j
unfolding punched
length-punched bs i e j = refl

pub Trimmed-punched :
    (o : Options) (remote : ℕ → ℕ) (e e' : Entry) (i m : ℕ)
    → IsClean o.block_size remote e
    → kept o e i ≡ false
    → has e.blocks i ≡ true
    → 0 < block_length o.block_size e i
    → Trimmed o remote (punched o.block_size i e) e' m
    → Trimmed o remote e e' (block_length o.block_size e i + m)
unfolding punched
Trimmed-punched o remote e e' i m v far on room t =
    let (_, row, _) = clear_lem e.blocks i v.valid.blocks in
    record {
      clean = t.clean;
      same_rest = t.same_rest;
      fewer = λ j h. ground (arith, row j, t.fewer j h);
      near = λ j h.
          let close : kept o e j ≡ true = Near-kept o e j v.valid.positive h in
          t.near j h ∙ ground (arith, close, row j, ap (kept o e) {x = i} {y = j});
      paid = omega (arith, t.paid, punched-paid o.block_size remote e i v on room);
    }
