-- ===== src/Cache/Writeback.antt =====
-- Write-back of internal/cache/cache.go and internal/cache/index.go: `DirtyKeys`, `FlushAll`,
-- `Recover`, the rounds of `flushLoop`, `Stats` and `Close`. Uploads run at once in the source; here
-- they run in an order that is an argument.
use remote_s3_bucket_plugin.Table.{Text, lookup}
use remote_s3_bucket_plugin.Entry.{Error, Options, Entry, Outcome, done, failed}
use remote_s3_bucket_plugin.Entry.Upload.{Report, flush}
use remote_s3_bucket_plugin.Cache.{Cache, on_entry}
use remote_s3_bucket_plugin.Prelude.{
  ℕ, ◌+◌, ◌-◌, Bool, true, ◌||◌, Option, none, some, List, [], ◌∷◌, ltb, ◌==◌, if◌then◌else◌,
  length, ℤ,
}

unfoldable pub dirty_keys : (ℕ → Entry) → List (Text × ℕ) → List Text
dirty_keys store [] = []
dirty_keys store ((k, id) ∷ t) =
    let rest = dirty_keys store t in if (store id).dirty then k ∷ rest else rest

-- What the operating system answers to `Truncate` and `Sync` of the file of an entry.
pub record Answers : Type 0 where
  pub cut : ℕ → Option Error
  pub sync : ℕ → Option Error

unfoldable pub flush_entry : Options → Answers → ℕ → ℕ → Cache → Outcome (Option Report) × Cache
flush_entry o io now id c = on_entry id (flush o (io.cut id) (io.sync id) now) c

-- What the flushes reported, the errors in the order that they arrived in, and the cache.
pub record Flushes : Type 0 where
  pub reports : List Report
  pub errors : List Error
  pub cache : Cache

abbrev pub note_flush : Outcome (Option Report) → Flushes → Flushes
note_flush (failed err) f = record f { errors = err ∷ f.errors }
note_flush (done none) f = f
note_flush (done (some report)) f = record f { reports = report ∷ f.reports }

unfoldable pub flush_each : Options → Answers → ℕ → List ℕ → Cache → Flushes
flush_each o io now [] c = record { reports = []; errors = []; cache = c }
flush_each o io now (id ∷ ids) c =
    let (r, c') = flush_entry o io now id c in note_flush r (flush_each o io now ids c')

abbrev pub first_error : List Error → Option Error
first_error [] = none
first_error (err ∷ _) = some err

-- `order` lists the entries of the table.
unfoldable pub flush_all : Options → Answers → ℕ → List ℕ → Cache → Option Error × Flushes
flush_all o io now order c = let f = flush_each o io now order c in (first_error f.errors, f)

-- `Recover`: in turn, up to the first error; how many keys were flushed.
unfoldable pub recover_keys : Options → Answers → ℕ → List Text → ℕ → Cache → Outcome ℕ × Cache
recover_keys o io now [] n c = (done n, c)
recover_keys o io now (k ∷ ks) n c = elim (lookup k c.table) [
  | none ↦ recover_keys o io now ks n c
  | some id ↦
      let (r, c') = flush_entry o io now id c in
      elim r [ failed err ↦ (failed err, c') | done _ ↦ recover_keys o io now ks (n + 1) c' ]
]

unfoldable pub recover : Options → Answers → ℕ → Cache → Outcome ℕ × Cache
recover o io now c = recover_keys o io now (dirty_keys c.store c.table) 0 c

-- The scan of a round of `flushLoop`: who is due, in any case only dirty entries, and how many are
-- dirty.
unfoldable pub scan : ℕ → (ℕ → Entry) → List (Text × ℕ) → List ℕ × ℕ
scan cutoff store [] = ([], 0)
scan cutoff store ((k, id) ∷ t) =
    let (due, dirty) = scan cutoff store t in
    let e = store id in
    if e.dirty
    then (if ltb e.dirty_since cutoff then id ∷ due else due, dirty + 1)
    else (due, dirty)

-- A round, at time `now`. There are none on a read-only mount or without a timeout.
unfoldable pub flush_round : Options → Answers → ℕ → ℕ → Cache → Flushes
flush_round o io dirty_timeout now c =
    let due = (scan (now - dirty_timeout) c.store c.table).0 in
    if o.read_only || dirty_timeout == 0
    then record { reports = []; errors = []; cache = c }
    else flush_each o io now due c

pub record Stats : Type 0 where
  pub entries : ℕ
  pub dirty : ℕ
  pub bytes : ℤ
  pub max_bytes : ℕ
  pub hits : ℕ
  pub misses : ℕ
  pub evictions : ℕ
  pub uploads : ℕ
  pub blocks_fetched : ℕ

unfoldable pub stats : Options → Cache → Stats
stats o c = record {
  entries = length c.table;
  dirty = length (dirty_keys c.store c.table);
  bytes = c.counters.bytes;
  max_bytes = o.max_bytes;
  hits = c.counters.hits;
  misses = c.counters.misses;
  evictions = c.counters.evictions;
  uploads = c.counters.uploads;
  blocks_fetched = c.counters.blocks_fetched;
}

-- `Close`, but for the saving of the index, whose error is `index`; a second call does nothing.
unfoldable pub close :
    Options → Bool → Option Error → Answers → ℕ → List ℕ → Cache → Option Error × Cache
close o persist index io now order c =
    let (err, f) = flush_all o io now order (record c { closed = true }) in
    let err' : Option Error = elim err [
      | some e ↦ some e
      | none ↦ if persist then index else none
    ] in
    if c.closed then (none, c) else (err', f.cache)
