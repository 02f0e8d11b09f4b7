-- ===== src/Cache/Evict.antt =====
-- `evict` of internal/cache/cache.go: clean entries that nobody has open go first, then ranges of those
-- that are open, the least recently used first.
use remote_s3_bucket_plugin.Bitmap.{count}
use remote_s3_bucket_plugin.Table.{Text}
use remote_s3_bucket_plugin.Entry.{Error, Options, Counters, Entry}
use remote_s3_bucket_plugin.Entry.Trim.{trim}
use remote_s3_bucket_plugin.Cache.{Cache, drop, put_entry, set_counters}
use remote_s3_bucket_plugin.Prelude.{
  ℕ, ◌+◌, ◌*◌, ◌/◌, Bool, not, ◌&&◌, Option, List, [], ◌∷◌, ltb, ◌==◌, if◌then◌else◌, ◌-ℤ◌, leb_ℤ,
  ℤ, pos,
}

unfoldable pub evictable : Entry → Bool
evictable e = e.refs == 0 && not e.dirty && not e.new_file && not (count e.blocks == 0)

unfoldable pub trimmable : Entry → Bool
trimmable e = not e.dirty && not e.new_file && not (count e.blocks == 0)

-- The rows whose entries pass a test.
unfoldable pub rows_with : (Entry → Bool) → (ℕ → Entry) → List (Text × ℕ) → List (Text × ℕ)
rows_with f store [] = []
rows_with f store ((k, id) ∷ t) =
    let rest = rows_with f store t in if f (store id) then (k, id) ∷ rest else rest

-- `sort.Slice` by the time of the last use.
unfoldable pub insert_by_used : (ℕ → Entry) → Text × ℕ → List (Text × ℕ) → List (Text × ℕ)
insert_by_used store r [] = r ∷ []
insert_by_used store r (x ∷ xs) =
    let rest = insert_by_used store r xs in
    if ltb (store x.1).used (store r.1).used then x ∷ rest else r ∷ x ∷ xs

unfoldable pub sort_by_used : (ℕ → Entry) → List (Text × ℕ) → List (Text × ℕ)
sort_by_used store [] = []
sort_by_used store (r ∷ rs) = insert_by_used store r (sort_by_used store rs)

abbrev pub note_eviction : Counters → Counters
note_eviction k = record k { evictions = k.evictions + 1 }

-- `c.bytes.Load() <= target`.
abbrev pub within_budget : ℕ → Cache → Bool
within_budget target c = leb_ℤ c.counters.bytes (pos target)

-- The first loop.
unfoldable pub drop_each : ℕ → ℕ → List (Text × ℕ) → Cache → Cache
drop_each bs target [] c = c
drop_each bs target ((k, id) ∷ rows) c =
    let c' = drop bs id k c in
    let rest = drop_each bs target rows (set_counters (note_eviction c'.counters) c') in
    if within_budget target c then c else rest

-- `e.trim(over)`.
unfoldable pub trim_entry : Options → (ℕ → Option Error) → ℤ → ℕ → Cache → Cache
trim_entry o io over id c =
    let (e, k, freed) = trim o io over (c.store id) c.counters in
    set_counters (if freed == 0 then k else note_eviction k) (put_entry id e c)

-- The second loop; `io` is what punching a hole into an entry at an offset answers.
unfoldable pub trim_each : Options → (ℕ → ℕ → Option Error) → ℕ → List (Text × ℕ) → Cache → Cache
trim_each o io target [] c = c
trim_each o io target ((k, id) ∷ rows) c =
    let over = c.counters.bytes -ℤ pos target in
    let rest = trim_each o io target rows (trim_entry o (io id) over id c) in
    if within_budget target c then c else rest

-- The parts after the check of the budget, down to `target`.
unfoldable pub reclaim : Options → (ℕ → ℕ → Option Error) → ℕ → Cache → Cache
reclaim o io target c =
    let c' =
      drop_each o.block_size target (sort_by_used c.store (rows_with evictable c.store c.table))
        c in
    if within_budget target c'
    then c'
    else trim_each o io target (sort_by_used c'.store (rows_with trimmable c'.store c'.table)) c'

unfoldable pub evict : Options → (ℕ → ℕ → Option Error) → Cache → Cache
evict o io c =
    if o.max_bytes == 0
    then c
    else if within_budget o.max_bytes c
    then c
    else reclaim o io (o.max_bytes * 9 / 10) c
