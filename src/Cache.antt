-- ===== src/Cache.antt =====
-- internal/cache/cache.go: the entries by object key. An entry outlives its row of the table while it
-- is open, so entries live in a store and the table holds their numbers. What the operating system
-- answers and the clock are arguments. A new entry gets a file of its own: that a deleted entry, open
-- at the same path, shares it is not modelled.
pub mod Writeback
pub mod Evict
pub mod Spared
pub mod Keys
pub mod Rows
pub mod Index
use remote_s3_bucket_plugin.OsFile.{File, truncate}
use remote_s3_bucket_plugin.Bitmap.{new_bitmap, count}
use remote_s3_bucket_plugin.Table.{Text, text_eq, has_prefix, lookup, erase, store as insert}
use remote_s3_bucket_plugin.Entry.{
  Error, Options, Counters, Entry, Outcome, done, failed, M, nblocks, disk_bytes, ref, unref,
  invalidate,
}
use remote_s3_bucket_plugin.Entry.Upload.{Report, flush}
use remote_s3_bucket_plugin.Entry.Trim.{trim}
use remote_s3_bucket_plugin.Prelude.{
  ℕ, ◌+◌, Bool, true, false, not, ◌&&◌, ◌||◌, Option, none, some, List, [], ◌∷◌, ◌==◌,
  if◌then◌else◌, ◌-ℤ◌, pos,
}

-- `removed` lists the data files that were closed and unlinked.
pub record Cache : Type 0 where
  pub table : List (Text × ℕ)
  pub store : ℕ → Entry
  pub next : ℕ
  pub counters : Counters
  pub removed : List Text
  pub closed : Bool

unfoldable pub put_entry : ℕ → Entry → Cache → Cache
put_entry id e c = record c { store = λ k. if k == id then e else c.store k }

abbrev pub set_counters : Counters → Cache → Cache
set_counters k c = record c { counters = k }

-- `c.bytes.Add(-e.diskBytesLocked())`.
unfoldable pub release_bytes : ℕ → Entry → Counters → Counters
release_bytes bs e k = record k { bytes = k.bytes -ℤ pos (disk_bytes bs e) }

abbrev pub hit : Counters → Counters
hit k = record k { hits = k.hits + 1 }

abbrev pub miss : Counters → Counters
miss k = record k { misses = k.misses + 1 }

-- Whether a cached entry is still that of the object with this ETag.
unfoldable pub same_version : Text → Entry → Bool
same_version etag e = not (text_eq etag []) && not (text_eq e.etag []) && text_eq e.etag etag

-- `Open` of an entry that is there.
unfoldable pub open_cached : ℕ → ℕ → ℕ → Text → ℕ → Entry → Counters → Entry × Counters
open_cached bs now obj_size etag mtime e k =
    if e.dirty || e.new_file
    then (ref now e, hit k)
    else if same_version etag e
    then (ref now e, hit k)
    else (ref now (invalidate bs obj_size etag mtime e), miss (release_bytes bs e k))

-- The entry of an empty file, as `newEntryLocked` and its caller leave it.
unfoldable pub fresh_entry : ℕ → ℕ → Text → Text → ℕ → Text → ℕ → Bool → Entry
fresh_entry bs now path key obj_size etag mtime fresh = record {
  path = path;
  key = key;
  file = truncate (record { len = 0; data_at = λ p. 0 }) (if fresh then 0 else obj_size);
  size = if fresh then 0 else obj_size;
  obj_size = if fresh then 0 else obj_size;
  etag = etag;
  mtime = mtime;
  blocks = new_bitmap (pos (nblocks obj_size bs));
  dirty = fresh;
  dirty_since = if fresh then now else 0;
  written = false;
  new_file = fresh;
  deleted = false;
  refs = 1;
  used = now;
  read_off = 0;
}

-- A new row of the table.
unfoldable pub add_entry : Text → Entry → Cache → Cache
add_entry key e c = record c {
  table = insert key c.next c.table;
  store = λ k. if k == c.next then e else c.store k;
  next = c.next + 1;
}

-- `io` is the error of the first operation on the new data file that fails.
unfoldable pub open_entry :
    ℕ → (Text → Text) → Option Error → ℕ → Text → ℕ → Text → ℕ → Cache → Outcome ℕ × Cache
unfolding lookup
open_entry bs path_for io now key obj_size etag mtime c = elim (lookup key c.table) [
  | some id ↦
      let (e, k) = open_cached bs now obj_size etag mtime (c.store id) c.counters in
      (done id, set_counters k (put_entry id e c))
  | none ↦ elim io [
    | some err ↦ (failed err, c)
    | none ↦ (
      done c.next,
      set_counters (miss c.counters)
          (add_entry key (fresh_entry bs now (path_for key) key obj_size etag mtime false) c),
    )
  ]
]

-- An entry emptied by `Create`.
unfoldable pub emptied : ℕ → ℕ → Entry → Entry
emptied bs now e =
    let e' = record (invalidate bs 0 [] now e) {
      size = 0;
      obj_size = 0;
      new_file = true;
      dirty = true;
      written = false;
      dirty_since = now;
    } in
    ref now (record e' { file = truncate e'.file 0 })

unfoldable pub create : ℕ → (Text → Text) → Option Error → ℕ → Text → Cache → Outcome ℕ × Cache
create bs path_for io now key c = elim (lookup key c.table) [
  | some id ↦ (
    done id,
    set_counters (release_bytes bs (c.store id) c.counters)
        (put_entry id (emptied bs now (c.store id)) c),
  )
  | none ↦ elim io [
    | some err ↦ (failed err, c)
    | none ↦ (done c.next, add_entry key (fresh_entry bs now (path_for key) key 0 [] now true) c)
  ]
]

unfoldable pub lookup_entry : Text → Cache → Option Entry
lookup_entry key c = elim (lookup key c.table) [ none ↦ none | some id ↦ some (c.store id) ]

-- `destroy` for an entry without references: its file is closed and unlinked.
abbrev pub destroy_if : Bool → Entry → List Text → List Text
destroy_if b e removed = if b then e.path ∷ removed else removed

-- `dropLocked(e, key)`: the entry lives on while it is open.
unfoldable pub drop : ℕ → ℕ → Text → Cache → Cache
drop bs id key c =
    let e = c.store id in
    let c' = put_entry id (record e { deleted = true; dirty = false }) c in
    record c' {
      table = erase key c.table;
      counters = release_bytes bs e c.counters;
      removed = destroy_if (e.refs == 0) e c.removed;
    }

-- `Unref`, with the row of the table that a deleted entry may still have.
unfoldable pub unref_entry : ℕ → Cache → Cache
unref_entry id c =
    let (e, last) = unref (c.store id) in
    let c' = put_entry id e c in
    let mine : Bool = elim (lookup e.key c.table) [ none ↦ false | some other ↦ other == id ] in
    if last
    then record c' {
      table = if mine then erase e.key c.table else c.table;
      removed = e.path ∷ c.removed;
    }
    else c'

-- The entry and its data file move to the new key, where `io` is the first error met.
unfoldable pub move : ℕ → (Text → Text) → Option Error → ℕ → Text → Text → Cache → Cache
unfolding drop
move bs path_for io id old new c = elim io [
  | some err ↦ drop bs id old c
  | none ↦
      let e = record (c.store id) { key = new; path = path_for new } in
      record (put_entry id e c) { table = insert new id (erase old c.table) }
]

unfoldable pub rename : ℕ → (Text → Text) → Option Error → Text → Text → Cache → Cache
unfolding move drop
rename bs path_for io old new c = elim (lookup old c.table) [
  | none ↦ c
  | some id ↦ elim (lookup new c.table) [
    | none ↦ move bs path_for io id old new c
    | some victim ↦
        if victim == id
        then move bs path_for io id old new c
        else move bs path_for io id old new (drop bs victim new c)
  ]
]

unfoldable pub remove : ℕ → Text → Cache → Cache
unfolding drop
remove bs key c = elim (lookup key c.table) [ none ↦ c | some id ↦ drop bs id key c ]

unfoldable pub remove_keys : ℕ → List Text → Cache → Cache
remove_keys bs [] c = c
remove_keys bs (k ∷ ks) c = remove_keys bs ks (remove bs k c)

unfoldable pub keys_with : Text → List (Text × ℕ) → List Text
keys_with prefix [] = []
keys_with prefix ((k, id) ∷ t) =
    let rest = keys_with prefix t in if has_prefix k prefix then k ∷ rest else rest

unfoldable pub remove_prefix : ℕ → Text → Cache → Cache
remove_prefix bs prefix c = remove_keys bs (keys_with prefix c.table) c

-- An operation on the entry `id`, and on the counters.
unfoldable pub on_entry : {A : Type 0} → ℕ → M A → Cache → Outcome A × Cache
on_entry id m c =
    let (r, e, k) = m (c.store id) c.counters in (r, set_counters k (put_entry id e c))
