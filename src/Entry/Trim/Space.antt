-- ===== src/Entry/Trim/Space.antt =====
-- The space on disk of an entry, by its number of blocks and the part of the last one past the end.
use native.Mathlib.Nat.{mul-le-mul_right, add-div_right}
use remote_s3_bucket_plugin.Bitmap.{count}
use remote_s3_bucket_plugin.Bitmap.Access.{has, get-has}
use remote_s3_bucket_plugin.Bitmap.Range.{count-clear}
use remote_s3_bucket_plugin.Entry.{Entry, nblocks, tail_gap, disk_bytes}
use remote_s3_bucket_plugin.Entry.View.{IsValid}
use remote_s3_bucket_plugin.Entry.Ensure.Faults.{ne_zero}
use remote_s3_bucket_plugin.Prelude.{
  ℕ, suc, ◌+◌, ◌-◌, ◌*◌, ◌/◌, ◌≤◌, ◌<◌, ◌≡◌, refl, inl, inr, true, arith, ltb, ◌==◌, if◌then◌else◌,
  ℕ-cases,
}

-- The bytes past the end of the file in its last block `last`, if that is present.
unfoldable pub gap : ℕ → Entry → ℕ → ℕ
gap bs e last = if has e.blocks last then (last + 1) * bs - e.size else 0

-- The block that holds the last byte.
unfoldable pub last_of : ℕ → Entry → ℕ
last_of bs e = (e.size - 1) / bs

nblocks_pos : (size bs : ℕ) → 0 < size → 0 < bs → nblocks size bs ≡ suc ((size - 1) / bs)
unfolding nblocks
nblocks_pos size bs h b =
    let same : size + bs - 1 ≡ (size - 1) + bs = omega arith in
    rw (ne_zero size h) (rw same (omega (arith, add-div_right (size - 1) b)))

pub disk_bytes-gap :
    (bs : ℕ) (e : Entry)
    → IsValid bs e
    → 0 < e.size
    → disk_bytes bs e
      ≡ (if count e.blocks == 0 then 0 else count e.blocks * bs - gap bs e (last_of bs e))
unfolding disk_bytes tail_gap gap last_of
disk_bytes-gap bs e v h =
    rw (nblocks_pos e.size bs h v.positive)
      (rw (get-has e.blocks ((e.size - 1) / bs) v.blocks) refl)

pub count_pos :
    (bs : ℕ) (e : Entry) (i : ℕ) → IsValid bs e → has e.blocks i ≡ true → 0 < count e.blocks
count_pos bs e i v on = omega (arith, count-clear e.blocks i v.blocks on)

pub self_eq : (i : ℕ) → (i == i) ≡ true
self_eq i = ground arith

-- The accounts balance if the last block goes,
pub paid_last :
    (bs size i m : ℕ)
    → i * bs < size
    → size ≤ (i + 1) * bs
    → (if m == 0 then 0 else m * bs - 0) + (if ltb size (i * bs + bs) then size - i * bs else bs)
      ≡ (if m + 1 == 0 then 0 else (m + 1) * bs - ((i + 1) * bs - size))
paid_last bs size i m lo hi = ground arith

-- and if an earlier one goes.
pub paid_before :
    (bs size i m g : ℕ)
    → (i + 1) * bs < size
    → g ≤ bs
    → (0 < g → 0 < m)
    → (if m == 0 then 0 else m * bs - g) + (if ltb size (i * bs + bs) then size - i * bs else bs)
      ≡ (if m + 1 == 0 then 0 else (m + 1) * bs - g)
paid_before bs size i m g room small some_left = elim (ℕ-cases 0 m) [
  | inl more ↦ let fits : 1 * bs ≤ m * bs = mul-le-mul_right bs more in ground (arith, fits)
  | inr m_zero ↦ ground arith
]
