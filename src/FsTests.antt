-- ===== src/FsTests.antt =====
-- Inputs that meet the conditions of the theorems on the cache of entries, the filesystem and its
-- operations.
use remote_s3_bucket_plugin.Table.{Text, text_eq, has_prefix, lookup, store, keep}
use remote_s3_bucket_plugin.Table.Laws.{IsMap, store-IsMap}
use remote_s3_bucket_plugin.Paths.{dir_key, join, is_top, trim_prefix, key}
use remote_s3_bucket_plugin.Attrs.{Attr, new_attr_cache, get, set}
use remote_s3_bucket_plugin.Attrs.Meta.{Object, meta_for, attr_from_object, Stat, fill, is_dir}
use remote_s3_bucket_plugin.Attrs.Meta.Stored.{Storable, attr_from_object-meta_for}
use remote_s3_bucket_plugin.Dirs
use remote_s3_bucket_plugin.Dirs.{new_dir_cache, DirEntry, has_name}
use remote_s3_bucket_plugin.Entry.{
  Error, not_found, stored, Counters, Entry, Options, done, failed, Outcome,
}
use remote_s3_bucket_plugin.Entry.Ensure.{ensure}
use remote_s3_bucket_plugin.Entry.Ensure.Paid.{PaysAfter, ensure-Pays}
use remote_s3_bucket_plugin.Entry.Upload.{finish_flush}
use remote_s3_bucket_plugin.Bitmap.{count}
use remote_s3_bucket_plugin.Cache
use remote_s3_bucket_plugin.Cache.{Cache, lookup_entry, fresh_entry, open_entry, remove, rename}
use remote_s3_bucket_plugin.Cache.Evict.{evict}
use remote_s3_bucket_plugin.Cache.Spared.{Safe, evict-Safe}
use remote_s3_bucket_plugin.Cache.Keys.{Opened, open_entry-Opened, rename_lem}
use remote_s3_bucket_plugin.Cache.Writeback.{dirty_keys}
use remote_s3_bucket_plugin.Config.{Config}
use remote_s3_bucket_plugin.Objects.{head, list_children, last_page}
use remote_s3_bucket_plugin.Fs.{
  Bucket, Os, World, Fs, mark_pending, clear_pending, writable, enoent,
}
use remote_s3_bucket_plugin.Fs.Upload.{options, flush}
use remote_s3_bucket_plugin.Fs.Rename.{delete_object, rename_dir, objects_under, flush_under}
use remote_s3_bucket_plugin.Fs.Rename.Copied.{deletes, AllCopied, rename_dir-copies_first}
use remote_s3_bucket_plugin.Fs.Listing.{list_dir, list_bucket}
use remote_s3_bucket_plugin.Fs.Stat.{stat, stat_local}
use remote_s3_bucket_plugin.Node.{ok, errno, reply, FileHandle, count_op, open_flags}
use remote_s3_bucket_plugin.Node.Files.{create, create_file, check_exclusive, new_handle}
use remote_s3_bucket_plugin.Fs.{pending_in, names_in, dir_attr}
use remote_s3_bucket_plugin.Fs.Listing.{dir_empty}
use remote_s3_bucket_plugin.Objects.{list_all}
use remote_s3_bucket_plugin.Node.Emptied.{OnlyMarker, rmdir-OnlyMarker}
use remote_s3_bucket_plugin.Node.Names.{rmdir, lookup_name, readdir, unlink}
use remote_s3_bucket_plugin.Node.Steps.{Reaches, stay, step, after, on_lookup, on_unlink}
use remote_s3_bucket_plugin.Node.Steps.ReadOnly.{reaches-ReadOnly}
use remote_s3_bucket_plugin.Node.Created.{new_file, create-lookup_name}
use remote_s3_bucket_plugin.Node.Created.Listed.{create-readdir}
use remote_s3_bucket_plugin.Node.Unlinked.{unlink-stays_gone, unlink-lookup_name}
use remote_s3_bucket_plugin.Prelude.{
  ℕ, ◌+◌, ◌≡◌, refl, ◌⊎◌, true, false, not, ◌&&◌, ◌||◌, Option, none, some, List, [], ◌∷◌, arith,
  leb, ◌==◌, bit_and, if◌then◌else◌, length, pos,
}

-- "d" and "f".
abbrev dir_name : Text
dir_name = 100 ∷ []

abbrev file_name : Text
file_name = 102 ∷ []

abbrev file_path : Text
file_path = 100 ∷ 47 ∷ 102 ∷ []

abbrev config : Config
config = record {
  prefix = [];
  read_only = false;
  exclusive = true;
  sync_metadata = true;
  attr_full = false;
  async_writeback = false;
  file_mode = 420;
  dir_mode = 493;
  uid = 1000;
  gid = 1000;
  block_size = 4;
  cache_size = 8;
  readahead = 0;
  part_size = 0;
  kernel_ttl = 0;
}

-- Every object is one of 10 bytes, and every request succeeds.
abbrev bucket : Bucket
bucket = record {
  on_head = λ log k.
      done
        (record { etag = 5 ∷ []; content_length = some 10; last_modified = some 3; metadata = [] });
  on_list = λ log p. last_page (record { common_prefixes = []; contents = [] });
  on_list_all = λ log p. last_page (record {
    common_prefixes = [];
    contents = record { key = file_path; size = some 10; etag = 5 ∷ []; modified = some 3 } ∷ [];
  });
  on_get = λ log k off n. record { body = []; got = 0; failed = some not_found };
  on_get_all = λ log k. failed not_found;
  on_put = λ log k body meta. stored (6 ∷ []);
  on_copy = λ log src dst. record {
    single = none;
    create = none;
    send = λ p. stored [];
    complete = λ parts. none;
  };
  on_delete = λ log k. none;
  on_delete_all = λ log ks. none;
}

abbrev os : Os
os = record {
  path_for = λ k. k;
  open_file = none;
  truncate_file = none;
  read_file = none;
  write_file = record { wrote = 0; error = none };
  flush_file = record { cut = λ id. none; sync = λ id. none };
  rename_file = λ k. none;
}

abbrev at : ℕ → World
at now = record {
  now = now;
  caller = none;
  attr_order = [];
  dir_order = [];
  bucket = bucket;
  os = os;
}

abbrev counters : Counters
counters = record {
  bytes = pos 0;
  evicting = false;
  hits = 0;
  misses = 0;
  evictions = 0;
  uploads = 0;
  blocks_fetched = 0;
}

-- The file is open.
abbrev open_file : Entry
open_file = fresh_entry 4 1 file_path file_path 10 (5 ∷ []) 3 false

abbrev cache : Cache
cache = record {
  table = store file_path 0 [];
  store = λ id. open_file;
  next = 1;
  counters = counters;
  removed = [];
  closed = false;
}

cache-IsMap : IsMap cache.table
unfolding IsMap
cache-IsMap = store-IsMap file_path 0 [] tt

cache_row : lookup file_path cache.table ≡ some 0
unfolding lookup text_eq
cache_row = refl

abbrev fs : Fs
fs = record {
  attrs = new_attr_cache 5 5 true;
  dirs = new_dir_cache 5 true;
  cache = cache;
  pending = [];
  started = 1;
  ops = 0;
  requests = [];
}

pinned :
    (open_file.refs == 0
      && not open_file.dirty
      && not open_file.new_file
      && not (count open_file.blocks == 0))
    ≡ false
unfolding fresh_entry
pinned = refl

evict-Safe_example :
    Safe file_path 0 cache (evict (options config (at 2) fs) (λ id off. none) cache)
evict-Safe_example =
    evict-Safe (options config (at 2) fs) (λ id off. none) file_path 0 cache cache-IsMap cache_row
      pinned

abbrev opening : Outcome ℕ × Cache
opening = open_entry 4 (λ k. k) none 2 file_path 12 (7 ∷ []) 4 cache

open_entry-Opened_example :
    ((id : ℕ) → opening.0 ≡ done id → Opened 4 (λ p. p) 2 12 file_path (7 ∷ []) id cache opening.1)
    × ((err : Error) → opening.0 ≡ failed err → opening.1 ≡ cache)
open_entry-Opened_example =
    open_entry-Opened 4 (λ p. p) (λ k. k) none 2 file_path 12 (7 ∷ []) 4 cache (omega arith)
      cache-IsMap

abbrev renamed : Cache
renamed = rename 4 (λ k. k) none file_path dir_name cache

names_differ : text_eq file_path dir_name ≡ false
unfolding text_eq
names_differ = refl

no_victim : (victim : ℕ) → lookup dir_name cache.table ≡ some victim → (victim == 0) ≡ false
unfolding lookup text_eq keep
no_victim victim h = let none_there : none ≡ some victim = h in cc

rename_lem_example :
    ((k : Text)
      → lookup k renamed.table ≡ (
          if text_eq k dir_name
          then some 0
          else if text_eq k file_path
          then none
          else lookup k cache.table))
    × (renamed.store 0 ≡ record open_file { key = dir_name; path = dir_name })
    × ((victim : ℕ)
        → lookup dir_name cache.table ≡ some victim
        → (renamed.store victim).deleted ≡ true)
rename_lem_example =
    rename_lem 4 (λ k. k) file_path dir_name 0 cache cache-IsMap names_differ cache_row no_victim

ensure-Pays_example :
    PaysAfter 4 open_file counters (ensure (options config (at 2) fs) 0 8 open_file counters)
unfolding options
ensure-Pays_example = ensure-Pays (options config (at 2) fs) 0 8 open_file counters

-- "g", a new name.
abbrev new_name : Text
new_name = 103 ∷ []

abbrev made : Fs
made = (create config (at 2) dir_name new_name 0 420 fs).1

abbrev answer : Stat × FileHandle × ℕ
answer = (fill (new_file config (at 2) 420), new_handle config (join dir_name new_name) 0 1, 0)

made_ok : (create config (at 2) dir_name new_name 0 420 fs).0 ≡ ok answer
unfolding create create_file check_exclusive writable reply lookup text_eq Cache.create open_flags
    key trim_prefix has_prefix join keep
made_ok = refl

not_top : is_top (join dir_name new_name) ≡ false
unfolding join text_eq
not_top = refl

bare_path : trim_prefix (join dir_name new_name) (47 ∷ []) ≡ join dir_name new_name
unfolding join text_eq trim_prefix has_prefix
bare_path = refl

bare_dir : trim_prefix dir_name (47 ∷ []) ≡ dir_name
unfolding trim_prefix has_prefix
bare_dir = refl

create-lookup_name_example :
    lookup_name config (at 9) dir_name new_name made
    ≡ (ok (fill (new_file config (at 2) 420)), count_op made)
create-lookup_name_example =
    create-lookup_name config (at 2) (at 9) dir_name new_name 0 420 fs answer not_top bare_path
      made_ok

-- What a listing of the directory answers: the name in the bucket, and the new one.
abbrev listing : List DirEntry
listing = record { name = new_name; mode = 32768 } ∷ []

listed : (readdir config (at 9) dir_name made).0 ≡ ok listing
unfolding readdir create create_file check_exclusive writable reply lookup text_eq Cache.create key
    trim_prefix has_prefix join keep list_dir list_bucket Dirs.get Dirs.add mark_pending
    new_dir_cache list_children get set
listed = refl

create-readdir_example : has_name new_name listing ≡ true
create-readdir_example =
    create-readdir config (at 2) (at 9) dir_name new_name 0 420 fs answer listing bare_dir made_ok
      listed

unlinked_ok : (unlink config (at 2) dir_name file_name fs).0 ≡ ok tt
unfolding unlink writable reply stat stat_local join lookup text_eq key trim_prefix has_prefix keep
    delete_object get new_attr_cache Dirs.get new_dir_cache lookup_entry fresh_entry head is_dir
    attr_from_object
unlinked_ok = refl

abbrev after_unlink : Fs
after_unlink = (unlink config (at 2) dir_name file_name fs).1

row_of_path : lookup (key config.prefix (join dir_name file_name)) cache.table ≡ some 0
unfolding lookup text_eq key trim_prefix has_prefix join
row_of_path = refl

file_not_top : is_top (join dir_name file_name) ≡ false
unfolding join text_eq
file_not_top = refl

bare_file : trim_prefix (join dir_name file_name) (47 ∷ []) ≡ join dir_name file_name
unfolding join text_eq trim_prefix has_prefix
bare_file = refl

still_exclusive : (after_unlink.attrs.exclusive || leb 900 (2 + after_unlink.attrs.neg_ttl)) ≡ true
unfolding unlink writable stat stat_local join lookup text_eq key trim_prefix has_prefix keep
    delete_object get new_attr_cache Dirs.get new_dir_cache lookup_entry fresh_entry head is_dir
    attr_from_object set clear_pending
still_exclusive = refl

unlink-stays_gone_example :
    (lookup (key config.prefix (join dir_name file_name)) after_unlink.cache.table ≡ none)
    × ((w : World) → (flush config w 0 after_unlink).1.requests ≡ after_unlink.requests)
    × ((o : Options) (cut sync : Option Error) (now : ℕ) (k : Text) (c : Counters)
        → finish_flush o cut sync now k (after_unlink.cache.store 0) c
          ≡ (done none, after_unlink.cache.store 0, c))
unlink-stays_gone_example =
    unlink-stays_gone config (at 2) dir_name file_name fs 0 cache-IsMap row_of_path unlinked_ok

unlink-lookup_name_example :
    (lookup_name config (at 900) dir_name file_name after_unlink).0 ≡ errno enoent
unlink-lookup_name_example =
    unlink-lookup_name config (at 2) (at 900) dir_name file_name fs file_not_top bare_file
      unlinked_ok still_exclusive

-- A read-only mount.
abbrev locked : Config
locked = record config { read_only = true }

-- It looks a name up, and is asked to delete it.
abbrev run : Reaches locked fs (
    after locked
      (at 3)
      (on_unlink dir_name file_name)
      (after locked (at 2) (on_lookup dir_name file_name) fs))
run = step (step stay (at 2) (on_lookup dir_name file_name)) (at 3) (on_unlink dir_name file_name)

reaches-ReadOnly_example :
    (after locked
      (at 3)
      (on_unlink dir_name file_name)
      (after locked (at 2) (on_lookup dir_name file_name) fs)).requests
    ≡ []
reaches-ReadOnly_example = reaches-ReadOnly locked fs _ refl run

abbrev moved : Fs
moved = (rename_dir config (at 2) dir_name new_name fs).1

rename_dir-copies_first_example :
    (deletes moved.requests ≡ deletes fs.requests)
    ⊎ ((items : List (Text × ℕ)) × ((objects_under
            (at 2)
            (dir_key config.prefix dir_name)
            (flush_under config
              (at 2)
              (dir_key config.prefix dir_name)
              (dirty_keys fs.cache.store fs.cache.table)
              fs).1).0
          ≡ done items)
        × AllCopied
            (dir_key config.prefix dir_name)
            (dir_key config.prefix new_name)
            items
            moved.requests)
rename_dir-copies_first_example = rename_dir-copies_first config (at 2) dir_name new_name fs

-- A regular file of 10 bytes, with whole seconds.
abbrev attr : Attr
attr = record {
  mode = 33188;
  size = 10;
  uid = 1000;
  gid = 1000;
  mtime = 3000000000;
  atime = 4000000000;
  ctime = 5000000000;
  etag = [];
  symlink = [];
}

attr-Storable : Storable attr
attr-Storable = record {
  mode_fits = omega arith;
  typed = refl;
  dir_size = λ h. cc;
  uid_fits = omega arith;
  gid_fits = omega arith;
  mtime_whole = (3, omega arith, omega arith, omega arith);
  atime_whole = (4, omega arith, omega arith, omega arith);
  ctime_whole = (5, omega arith, omega arith, omega arith);
}

abbrev object : Object
object = record { key = file_path; size = 10; etag = 5 ∷ []; modified = 9; meta = meta_for attr }

attr_from_object-meta_for_example :
    attr_from_object config object false ≡ record attr { etag = 5 ∷ []; symlink = [] }
attr_from_object-meta_for_example =
    attr_from_object-meta_for config object attr attr-Storable refl refl

-- A bucket with nothing but the marker "d/".
abbrev marker_only : World
marker_only = record (at 2) {
  bucket = record bucket {
    on_head = λ log k. failed not_found;
    on_list_all = λ log p. last_page (record {
      common_prefixes = [];
      contents = record { key = 100 ∷ 47 ∷ []; size = none; etag = []; modified = none } ∷ [];
    });
  };
}

removed_ok : (rmdir config marker_only [] dir_name fs).0 ≡ ok tt
unfolding rmdir writable reply stat stat_local join lookup text_eq key trim_prefix has_prefix keep
    delete_object get new_attr_cache Dirs.get new_dir_cache lookup_entry head is_dir list_all
    dir_key dir_attr dir_empty names_in
removed_ok = refl

rmdir-OnlyMarker_example :
    OnlyMarker
      (dir_key config.prefix (join [] dir_name))
      (marker_only.bucket.on_list_all [] (dir_key config.prefix (join [] dir_name)))
    × (length (pending_in (join [] dir_name) fs) ≡ 0)
    × ((a : Attr) × ((stat config marker_only (join [] dir_name) (count_op fs)).0 ≡ done a)
        × (bit_and a.mode 61440 ≡ 16384))
rmdir-OnlyMarker_example = rmdir-OnlyMarker config marker_only [] dir_name fs removed_ok
