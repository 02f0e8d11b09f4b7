-- ===== src/Entry/Ensure.antt =====
-- `ensure` of internal/cache/entry.go: faults in every missing block of a range with ranged GETs,
-- one for each run of missing blocks.
pub mod Runs
pub mod Faults
pub mod Paid
use remote_s3_bucket_plugin.OsFile.{write_at}
use remote_s3_bucket_plugin.Bitmap.{set_range}
use remote_s3_bucket_plugin.Entry.{
  short_read, Fetched, Options, Counters, Entry, done, failed, M, ◌>>◌, block_present, charge,
}
use remote_s3_bucket_plugin.Prelude.{
  ℕ, zero, suc, ◌+◌, ◌-◌, ◌*◌, ◌/◌, Bool, true, false, not, ◌&&◌, none, some, ltb, leb, ◌==◌,
  if◌then◌else◌, pos,
}

-- The first loop: whether one of the `rounds` blocks from `i` on is missing.
pub missing_loop : ℕ → ℕ → Entry → ℕ → Bool
missing_loop bs zero e i = false
missing_loop bs (suc rounds) e i =
    let rest = missing_loop bs rounds e (i + 1) in if block_present bs e i then rest else true

-- The last block of the run of missing blocks from `j` on, with at most `rounds` more.
pub run_end : ℕ → ℕ → Entry → ℕ → ℕ
run_end bs zero e j = j
run_end bs (suc rounds) e j =
    let rest = run_end bs rounds e (j + 1) in
    if not (block_present bs e (j + 1)) && ltb ((j + 1) * bs) e.obj_size then rest else j

-- `min((j+1)*bs, objSize)`, the end of the GET for blocks up to `j`.
abbrev pub fetch_end : ℕ → Entry → ℕ → ℕ
fetch_end bs e j = if ltb e.obj_size ((j + 1) * bs) then e.obj_size else (j + 1) * bs

-- The GET streams into the file at `start`, whatever it reports.
abbrev pub fetch_into : Entry → ℕ → Fetched → Entry
fetch_into e start r = record e { file = write_at e.file r.body start }

-- The locked part after a GET: the result counts only if the object's size is as it was.
pub finish_fetch : Options → ℕ → ℕ → ℕ → Entry → Counters → Entry × Counters
finish_fetch o snapshot i j e c =
    if not (e.obj_size == snapshot)
    then (e, c)
    else (let (blocks, added) = set_range e.blocks (pos i) (pos j) in
        let e' = record e { blocks = blocks } in
        (e', charge o e e' (record c { blocks_fetched = c.blocks_fetched + added })))

-- One GET, for blocks i to j. What it streamed stays in the file also when it fails.
pub fetch_run : Options → ℕ → ℕ → M (Unit {0})
unfolding finish_fetch
fetch_run o i j e c =
    let bs = o.block_size in
    let start = i * bs in
    let end = fetch_end bs e j in
    let r = o.fetch e.key start (end - start) in
    let e' = fetch_into e start r in
    elim r.failed [
      | some err ↦ (failed err, e', c)
      | none ↦
          if not (r.got == end - start)
          then (failed short_read, e', c)
          else (let (e'', c') = finish_fetch o e.obj_size i j e' c in (done tt, e'', c'))
    ]

-- The second loop, over the blocks from `i` up to, not including, `stop`. Each round passes one
-- block at least, so `stop - i` rounds are enough.
pub fetch_loop : ℕ → Options → ℕ → ℕ → M (Unit {0})
fetch_loop zero o stop i e c = (done tt, e, c)
fetch_loop (suc fuel) o stop i e c =
    let bs = o.block_size in
    let j = run_end bs (stop - 1 - i) e i in
    let skip = fetch_loop fuel o stop (i + 1) e c in
    let go = (do fetch_run o i j; fetch_loop fuel o stop (j + 1)) e c in
    if leb stop i
    then (done tt, e, c)
    else if leb e.obj_size (i * bs)
    then (done tt, e, c)
    else if block_present bs e i
    then skip
    else go

-- `n` is cut to the object's content before the blocks are found.
unfoldable pub ensure : Options → ℕ → ℕ → M (Unit {0})
unfolding missing_loop run_end fetch_run fetch_loop
ensure o off n e c =
    let bs = o.block_size in
    let limit = e.obj_size in
    let n' = if ltb limit (off + n) then limit - off else n in
    let first = off / bs in
    let stop = (off + n' - 1) / bs + 1 in
    if n == 0
    then (done tt, e, c)
    else if leb limit off
    then (done tt, e, c)
    else if not (missing_loop bs (stop - first) e first)
    then (done tt, e, c)
    else fetch_loop (stop - first) o stop first e c
