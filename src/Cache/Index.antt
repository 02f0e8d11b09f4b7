-- ===== src/Cache/Index.antt =====
-- internal/cache/index.go, with `New` and `wipe` of internal/cache/cache.go: the index that carries
-- the entries from one mount to the next. index.json is represented by what decoding its text gives,
-- and what the JSON library makes of an index that is written and read again is an argument; the
-- blocks are the bytes that base64 stands for. `Extra` is never set.
pub mod Restored
pub mod Storable
pub mod Reloaded
use remote_s3_bucket_plugin.OsFile.{File}
use remote_s3_bucket_plugin.Bitmap.{bytes, bitmap_from_bytes}
use remote_s3_bucket_plugin.Table.{Text, text_eq}
use remote_s3_bucket_plugin.Entry.{
  Error, Counters, Entry, Outcome, done, failed, nblocks, disk_bytes,
}
use remote_s3_bucket_plugin.Cache.{Cache, add_entry, set_counters}
use remote_s3_bucket_plugin.Prelude.{
  ℕ, ◌*◌, ◌%◌, ◌^◌, Bool, true, false, not, Option, none, some, List, [], ◌∷◌, ◌==◌, if◌then◌else◌,
  set, ◌+ℤ◌, pos,
}

pub record IndexEntry : Type 0 where
  pub key : Text
  pub size : ℕ
  pub obj_size : ℕ
  pub etag : Text
  pub mtime : ℕ
  pub dirty : Bool
  pub new_file : Bool
  pub blocks : List ℕ

pub record IndexFile : Type 0 where
  pub version : ℕ
  pub identity : Text
  pub block_size : ℕ
  pub entries : List IndexEntry
  pub saved_at : ℕ

abbrev pub index_version : ℕ
index_version = 1

-- `UnixNano` is an int64; its 64 bits.
unfoldable pub index_entry : Entry → IndexEntry
index_entry e = record {
  key = e.key;
  size = e.size;
  obj_size = e.obj_size;
  etag = e.etag;
  mtime = e.mtime % 2 ^ 64;
  dirty = e.dirty;
  new_file = e.new_file;
  blocks = bytes e.blocks;
}

-- The rows in the order of `range`.
unfoldable pub index_entries : (ℕ → Entry) → List (Text × ℕ) → List IndexEntry
index_entries store [] = []
index_entries store ((k, id) ∷ rows) =
    let rest = index_entries store rows in
    if (store id).deleted then rest else index_entry (store id) ∷ rest

-- The errors of the temporary file: of opening, encoding into, syncing and renaming it.
pub record SaveFaults : Type 0 where
  pub opening : Option Error
  pub encoding : Option Error
  pub syncing : Option Error
  pub renaming : Option Error

abbrev pub first_fault : SaveFaults → Option Error
first_fault io = elim io.opening [
  | some err ↦ some err
  | none ↦ elim io.encoding [
    | some err ↦ some err
    | none ↦ elim io.syncing [ some err ↦ some err | none ↦ io.renaming ]
  ]
]

-- What reading and decoding index.json gives.
pub data ReadIndex : Type 0 where
  missing malformed : ReadIndex
  unreadable : Error → ReadIndex
  decoded : IndexFile → ReadIndex

unfoldable pub index_of : Text → ℕ → ℕ → Cache → IndexFile
unfolding index_entries
index_of identity bs now c = record {
  version = index_version;
  identity = identity;
  block_size = bs;
  entries = index_entries c.store c.table;
  saved_at = now;
}

-- The error, and what is then to be read in place of `old`. `reread` is what decoding gives of the
-- JSON of an index.
unfoldable pub save_index :
    (IndexFile → ReadIndex)
    → Text
    → ℕ
    → SaveFaults
    → ℕ
    → Cache
    → ReadIndex
    → Option Error × ReadIndex
unfolding index_of
save_index reread identity bs io now c old = elim (first_fault io) [
  | some err ↦ (some err, old)
  | none ↦ (none, reread (index_of identity bs now c))
]

-- The data files: their content, and whether they open.
pub record Disk : Type 0 where
  pub files : Text → Option File
  pub opens : Text → Bool

-- `time.Unix` of the 64 bits, for times from 1970 on.
unfoldable pub restore_entry : ℕ → ℕ → Text → File → IndexEntry → Entry
restore_entry bs now path f ie = record {
  path = path;
  key = ie.key;
  file = f;
  size = ie.size;
  obj_size = ie.obj_size;
  etag = ie.etag;
  mtime = ie.mtime;
  blocks = bitmap_from_bytes ie.blocks (pos (nblocks ie.obj_size bs));
  dirty = ie.dirty;
  dirty_since = if ie.dirty then now else 0;
  written = false;
  new_file = ie.new_file;
  deleted = false;
  refs = 0;
  used = now;
  read_off = 0;
}

abbrev pub add_bytes : ℕ → Counters → Counters
add_bytes n k = record k { bytes = k.bytes +ℤ pos n }

-- A round of the loop of `loadIndex`. A file that is missing or has another size is removed.
unfoldable pub restore : ℕ → (Text → Text) → Disk → ℕ → IndexEntry → Cache → Cache
unfolding restore_entry
restore bs path_for disk now ie c =
    let p = path_for ie.key in
    elim (disk.files p) [
      | none ↦ record c { removed = p ∷ c.removed }
      | some f ↦
          let e = restore_entry bs now p f ie in
          if f.len == ie.size
          then if disk.opens p
            then set_counters (add_bytes (disk_bytes bs e) c.counters) (add_entry ie.key e c)
            else c
          else (record c { removed = p ∷ c.removed })
    ]

unfoldable pub restore_all : ℕ → (Text → Text) → Disk → ℕ → List IndexEntry → Cache → Cache
restore_all bs path_for disk now [] c = c
restore_all bs path_for disk now (ie ∷ ies) c =
    restore_all bs path_for disk now ies (restore bs path_for disk now ie c)

pub data IndexError : Type 0 where
  bad_json bad_version bad_block_size bad_identity : IndexError
  bad_read : Error → IndexError

-- The checks of `loadIndex`.
unfoldable pub refuse_index : Text → ℕ → IndexFile → Option IndexError
refuse_index identity bs idx =
    if not (idx.version == index_version)
    then some bad_version
    else if not (idx.block_size == bs)
    then some bad_block_size
    else if not (text_eq idx.identity identity)
    then some bad_identity
    else none

unfoldable pub load_index :
    Text → ℕ → (Text → Text) → Disk → ℕ → ReadIndex → Cache → Option IndexError × Cache
load_index identity bs path_for disk now missing c = (none, c)
load_index identity bs path_for disk now malformed c = (some bad_json, c)
load_index identity bs path_for disk now (unreadable err) c = (some (bad_read err), c)
load_index identity bs path_for disk now (decoded idx) c = elim (refuse_index identity bs idx) [
  | some err ↦ (some err, c)
  | none ↦ (none, restore_all bs path_for disk now idx.entries c)
]

-- The record that the entries without a row stand for is never read.
unfoldable pub no_entry : Entry
unfolding restore_entry
no_entry =
    restore_entry 1 0 [] (record { len = 0; data_at = λ p. 0 })
      (record {
        key = [];
        size = 0;
        obj_size = 0;
        etag = [];
        mtime = 0;
        dirty = false;
        new_file = false;
        blocks = [];
      })

unfoldable pub empty_cache : Cache
unfolding no_entry
empty_cache = record {
  table = [];
  store = λ id. no_entry;
  next = 0;
  counters = record {
    bytes = pos 0;
    evicting = false;
    hits = 0;
    misses = 0;
    evictions = 0;
    uploads = 0;
    blocks_fetched = 0;
  };
  removed = [];
  closed = false;
}

-- `opts.BlockSize`, 4 MiB if it is not set.
unfoldable pub block_size_or : ℕ → ℕ
block_size_or n = if n == 0 then 4 * 2 ^ 20 else n

-- An index that cannot be used is wiped.
unfoldable pub after_load : Option IndexError × Cache → Cache × Bool
after_load (some err, c) = (c, true)
after_load (none, c) = (c, false)

-- A new cache, and whether the data directory and the index were wiped. `io` is the error of
-- `MkdirAll`.
unfoldable pub new_cache :
    Option Error → Bool → Text → ℕ → (Text → Text) → Disk → ℕ → ReadIndex → Outcome (Cache × Bool)
unfolding load_index after_load
new_cache io persist identity block_size path_for disk now index =
    let loaded =
      after_load
        (load_index identity (block_size_or block_size) path_for disk now index empty_cache) in
    elim io [
      | some err ↦ failed err
      | none ↦ if persist then done loaded else done (empty_cache, true)
    ]
