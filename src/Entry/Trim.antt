-- ===== src/Entry/Trim.antt =====
-- `trim` of internal/cache/entry.go: gives disk back by punching cached blocks out of an open file.
pub mod Space
pub mod Near
pub mod Punch
pub mod Reclaim
pub mod Rest
use remote_s3_bucket_plugin.OsFile.{punch_hole}
use remote_s3_bucket_plugin.Bitmap.{get, clear}
use remote_s3_bucket_plugin.Entry.{Error, Options, Counters, Entry, account}
use remote_s3_bucket_plugin.Prelude.{
  ℕ, zero, suc, ◌+◌, ◌-◌, ◌*◌, ◌/◌, Bool, not, ◌&&◌, ◌||◌, Option, none, some, ltb, leb, ◌==◌,
  if◌then◌else◌, pos_part, ◌-ℤ◌, leb_ℤ, ℤ, pos, negsuc,
}

-- Go's `/` on int64 cuts towards 0.
unfoldable pub quot_ℤ : ℤ → ℕ → ℤ
quot_ℤ (pos a) b = pos (a / b)
quot_ℤ (negsuc a) b = pos 0 -ℤ pos ((a + 1) / b)

-- Whether block `i` is near the reader.
pub kept : Options → Entry → ℕ → Bool
unfolding quot_ℤ ◌-ℤ◌
kept o e i =
    let bs = o.block_size in
    let keep = if ltb o.readahead bs then bs else o.readahead in
    let keep_lo = quot_ℤ (pos e.read_off -ℤ pos bs) bs in
    let keep_hi = (e.read_off + keep) / bs in leb_ℤ keep_lo (pos i) && leb i keep_hi

-- The bytes of block `i` that lie in the file.
abbrev pub block_length : ℕ → Entry → ℕ → ℕ
block_length bs e i = if ltb e.size (i * bs + bs) then e.size - i * bs else bs

-- `io` is what `punchHole` answers at an offset. The loop over the blocks from `i` on, with `freed`
-- bytes reclaimed so far.
pub trim_loop : ℕ → Options → (ℕ → Option Error) → ℕ → ℕ → ℕ → Entry → Entry × ℕ
trim_loop zero o io need i freed e = (e, freed)
trim_loop (suc rounds) o io need i freed e =
    let off = i * o.block_size in
    let n = block_length o.block_size e i in
    let skip = trim_loop rounds o io need (i + 1) freed e in
    let punched = record e {
      file = punch_hole e.file off n;
      blocks = (clear e.blocks (pos i)).0;
    } in
    let go = trim_loop rounds o io need (i + 1) (freed + n) punched in
    if leb need freed
    then (e, freed)
    else if kept o e i || not (get e.blocks (pos i)) || n == 0
    then skip
    else elim (io off) [ some err ↦ (e, freed) | none ↦ go ]

-- The entry, the counters, and how many bytes were reclaimed.
unfoldable pub trim : Options → (ℕ → Option Error) → ℤ → Entry → Counters → Entry × Counters × ℕ
unfolding trim_loop kept
trim o io need e c =
    let (e', freed) = trim_loop e.blocks.n o io (pos_part need) 0 0 e in
    let c' = if freed == 0 then c else account o.max_bytes (pos 0 -ℤ pos freed) c in
    if pos_part need == 0
    then (e, c, 0)
    else if e.dirty || e.new_file || e.deleted
    then (e, c, 0)
    else (e', c', freed)
