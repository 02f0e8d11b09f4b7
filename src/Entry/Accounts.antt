-- ===== src/Entry/Accounts.antt =====
-- The byte counter of the cache follows the disk space of the entry that an operation changes.
use remote_s3_bucket_plugin.Entry.{
  Options, Counters, Entry, nblocks, tail_gap, disk_bytes, account, charge,
}
use remote_s3_bucket_plugin.Prelude.{
  ℕ, zero, suc, ◌+◌, ◌≡◌, refl, arith, pos_part, neg_part, ◌-ℤ◌, +ℤ_parts, -ℤ_parts, ℤ, pos,
}

pub tail_gap_ext :
    (bs n : ℕ) (e e' : Entry)
    → e.size ≡ e'.size
    → e.blocks ≡ e'.blocks
    → tail_gap bs e n ≡ tail_gap bs e' n
unfolding tail_gap
tail_gap_ext bs zero e e' s b = refl
tail_gap_ext bs (suc n) e e' s b = rw (s, b) refl

-- Only the size and the blocks matter.
pub disk_bytes_ext :
    (bs : ℕ) (e e' : Entry)
    → e.size ≡ e'.size
    → e.blocks ≡ e'.blocks
    → disk_bytes bs e ≡ disk_bytes bs e'
unfolding disk_bytes
disk_bytes_ext bs e e' s b = rw (tail_gap_ext bs (nblocks e.size bs) e e' s b) (rw (s, b) refl)

pub account-bytes :
    (m : ℕ) (d : ℤ) (k : Counters)
    → pos_part (account m d k).bytes + neg_part k.bytes + neg_part d
      ≡ neg_part (account m d k).bytes + pos_part k.bytes + pos_part d
unfolding account
account-bytes m d k = ground (arith, +ℤ_parts k.bytes d)

-- The counter grew by what the entry takes more, written without differences.
abbrev pub Pays : ℕ → Entry → Counters → Entry → Counters → Type 0
Pays bs e k e' k' =
    pos_part k'.bytes + neg_part k.bytes + disk_bytes bs e
    ≡ neg_part k'.bytes + pos_part k.bytes + disk_bytes bs e'

pub Pays-charge :
    (o : Options) (e e' : Entry) (k : Counters) → Pays o.block_size e k e' (charge o e e' k)
Pays-charge o e e' k =
    let a = disk_bytes o.block_size e in
    let b = disk_bytes o.block_size e' in
    omega (arith, account-bytes o.max_bytes (pos b -ℤ pos a) k, -ℤ_parts (pos b) (pos a))

-- Nothing that counts has changed.
pub Pays-same :
    (bs : ℕ) (e e' : Entry) (k k' : Counters)
    → e'.size ≡ e.size
    → e'.blocks ≡ e.blocks
    → k'.bytes ≡ k.bytes
    → Pays bs e k e' k'
Pays-same bs e e' k k' s b h = rw h (omega (arith, disk_bytes_ext bs e' e s b))
