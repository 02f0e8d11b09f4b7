-- ===== src/Cache/Index/Reloaded.antt =====
-- What a mount finds of the cache of the mount before it.
use remote_s3_bucket_plugin.OsFile.{File}
use remote_s3_bucket_plugin.Bitmap.{get}
use remote_s3_bucket_plugin.Bitmap.Access.{has}
use remote_s3_bucket_plugin.Bitmap.Codec.{get-bitmap_from_bytes}
use remote_s3_bucket_plugin.Table.{Text, text_eq, lookup}
use remote_s3_bucket_plugin.Table.Laws.{
  IsMap, text_eq_refl, eq_of_text_eq, some_inj, some_ne_none, lookup-head, lookup-tail,
}
use remote_s3_bucket_plugin.Entry.{Entry, done, nblocks}
use remote_s3_bucket_plugin.Cache.{Cache, lookup_entry}
use remote_s3_bucket_plugin.Cache.Index.Restored.{
  IsTable, Filed, restored, saved, restore_all-saved,
}
use remote_s3_bucket_plugin.Cache.Index.{
  IndexEntry, IndexFile, IndexError, SaveFaults, Disk, ReadIndex, decoded, index_entry,
  index_entries, save_index, restore_entry, restore_all, load_index, new_cache, after_load,
  block_size_or, empty_cache, refuse_index, index_of,
}
use remote_s3_bucket_plugin.Cache.Index.Storable.{
  IsStorable, AllStored, int64_lem, row-IsStored, index_of-IsStorable,
}
use remote_s3_bucket_plugin.Utf8.{is_utf8}
use remote_s3_bucket_plugin.Cache.Rows.{self_id, same_id}
use remote_s3_bucket_plugin.Prelude.{
  ℕ, ◌^◌, ◌<◌, ◌≡◌, refl, sym, ap, ◌∙◌, inl, inr, true, false, ◌&&◌, Option, none, some, List, [],
  ◌∷◌, arith, ltb, ◌==◌, Bool-cases, Option-cases, check_passed, not-false, pos,
}

-- The entry of the next mount, on a data file `f`, for the entry of this one.
pub record Reloaded (bs : ℕ) (f : File) (e e' : Entry) : Type 0 where
  pub same_file : e'.file ≡ f
  pub same_key : e'.key ≡ e.key
  pub same_size : (e'.size ≡ e.size) × (e'.obj_size ≡ e.obj_size)
  pub same_object : (e'.etag ≡ e.etag) × (e'.mtime ≡ e.mtime)
  pub same_changes : (e'.dirty ≡ e.dirty) × (e'.new_file ≡ e.new_file)
  pub same_blocks :
      (i : ℕ) → get e'.blocks (pos i) ≡ (ltb i (nblocks e.obj_size bs) && has e.blocks i)

restore_entry-Reloaded :
    (bs now : ℕ) (path : Text) (f : File) (e : Entry)
    → e.mtime < 2 ^ 63
    → Reloaded bs f e (restore_entry bs now path f (index_entry e))
unfolding restore_entry index_entry
restore_entry-Reloaded bs now path f e recent = record {
  same_file = refl;
  same_key = refl;
  same_size = (refl, refl);
  same_object = (refl, int64_lem e.mtime recent);
  same_changes = (refl, refl);
  same_blocks = λ i. get-bitmap_from_bytes e.blocks (nblocks e.obj_size bs) i;
}

abbrev pub no_faults : SaveFaults
no_faults = record { opening = none; encoding = none; syncing = none; renaming = none }

empty-IsTable : IsTable [] 0
unfolding IsMap lookup
empty-IsTable = record { distinct = tt; older = λ k id found. absurd (some_ne_none (sym found)) }

row_key :
    (store : ℕ → Entry) (k : Text) (rows : List (Text × ℕ)) (id : ℕ)
    → Filed store rows
    → lookup k rows ≡ some id
    → (store id).key ≡ k
unfolding Filed lookup
row_key store k [] id f found = absurd (some_ne_none (sym found))
row_key store k ((k', id') ∷ rows) id (at, f) found = elim (Bool-cases (text_eq k' k)) [
  | inl same ↦
      let is : some id' ≡ some id = sym (lookup-head k k' id' rows same) ∙ found in
      ap (λ i. (store i).key) (sym (some_inj is)) ∙ at ∙ eq_of_text_eq k' k same
  | inr other ↦ row_key store k rows id f (sym (lookup-tail k k' id' rows other) ∙ found)
]

refuse-own :
    (identity : Text) (bs saved_at : ℕ) (entries : List IndexEntry)
    → refuse_index identity bs (record {
      version = 1;
      identity = identity;
      block_size = bs;
      entries = entries;
      saved_at = saved_at;
    })
      ≡ none
unfolding refuse_index
refuse-own identity bs saved_at entries = rw (self_id bs, text_eq_refl identity) refl

module _ (reread : IndexFile → ReadIndex) (identity : Text) (bs now later : ℕ)
    (path_for : Text → Text) (disk : Disk) (c : Cache) (old : ReadIndex) where
  -- The cache of the next mount.
  abbrev pub reloaded : Cache
  reloaded =
      (load_index identity bs path_for disk later
        (save_index reread identity bs no_faults now c old).1 empty_cache).1

  reloaded-restore_all :
      reread (index_of identity bs now c) ≡ decoded (index_of identity bs now c)
      → reloaded ≡ restore_all bs path_for disk later (index_entries c.store c.table) empty_cache
  unfolding load_index save_index index_of
  reloaded-restore_all json =
      rw (json, reloaded)
        (rw (refuse-own identity bs now (index_entries c.store c.table), reloaded) refl)

  restored_lem :
      (ie : IndexEntry) (f : File) (before : Option Entry)
      → disk.files (path_for ie.key) ≡ some f
      → disk.opens (path_for ie.key) ≡ true
      → (f.len == ie.size) ≡ true
      → restored bs path_for disk later ie before
        ≡ some (restore_entry bs later (path_for ie.key) f ie)
  unfolding restored
  restored_lem ie f before here opens fits = simp (here, fits, opens, restored)

  alive_saved :
      (id : ℕ) (f : File)
      → (c.store id).deleted ≡ false
      → disk.files (path_for (c.store id).key) ≡ some f
      → disk.opens (path_for (c.store id).key) ≡ true
      → f.len ≡ (c.store id).size
      → saved bs path_for disk later c.store (some id) none
        ≡ some (restore_entry bs later (path_for (c.store id).key) f (index_entry (c.store id)))
  unfolding saved index_entry
  alive_saved id f alive here opens fits =
      let same : (f.len == (c.store id).size) ≡ true =
        ap (λ n. n == (c.store id).size) fits ∙ self_id (c.store id).size in
      simp (alive) (restored_lem (index_entry (c.store id)) f none here opens same)

  module _ (d : IsMap c.table) (filed : Filed c.store c.table)
      (json : (idx : IndexFile) → IsStorable idx → reread idx ≡ decoded idx)
      (text : is_utf8 identity ≡ true) (small : bs < 2 ^ 63) (soon : now < 2 ^ 63)
      (stored : AllStored c.store c.table) where
    -- What the next mount has under a key.
    reloaded-saved :
        (k : Text)
        → lookup_entry k reloaded ≡ saved bs path_for disk later c.store (lookup k c.table) none
    unfolding empty_cache lookup_entry lookup
    reloaded-saved k =
        ap (lookup_entry k) (
          reloaded-restore_all
            (json _ (index_of-IsStorable identity bs now c text small soon stored)))
        ∙ restore_all-saved bs path_for disk later c.store c.table k empty_cache d filed
            empty-IsTable

    -- On an index of valid UTF-8 and of numbers within an int64 that was saved without an error, the next mount with the same identity and block
    -- size finds under the key of a row, whose entry is not deleted and whose data file opens and has
    -- the size of the entry, an entry with that file and with the recorded sizes, version, time,
    -- changes and blocks, as far as the object reaches. Under a key without a row it finds nothing.
    -- It is relied on that the JSON library reads such an index as it was written.
    pub load_index-save_index :
        (key : Text) (id : ℕ) (f : File)
        → lookup key c.table ≡ some id
        → (c.store id).deleted ≡ false
        → disk.files (path_for key) ≡ some f
        → disk.opens (path_for key) ≡ true
        → f.len ≡ (c.store id).size
        → ((e : Entry) × (lookup_entry key reloaded ≡ some e) × Reloaded bs f (c.store id) e)
          × ((k : Text) → lookup k c.table ≡ none → lookup_entry k reloaded ≡ none)
    unfolding saved restored
    load_index-save_index key id f row alive here opens fits =
        let path : (c.store id).key ≡ key = row_key c.store key c.table id filed row in
        (
          (
            restore_entry bs later (path_for (c.store id).key) f (index_entry (c.store id)),
            reloaded-saved key
                ∙ rw row (alive_saved id f alive (rw path here) (rw path opens) fits),
            restore_entry-Reloaded bs later (path_for (c.store id).key) f (c.store id)
                (row-IsStored c.store key c.table id stored row).mtime,
          ),
          λ k out. reloaded-saved k ∙ rw out refl,
        )

accepted :
    (identity : Text) (bs : ℕ) (idx : IndexFile)
    → refuse_index identity bs idx ≡ none
    → (idx.version ≡ 1) × (idx.block_size ≡ bs) × (idx.identity ≡ identity)
unfolding refuse_index
accepted identity bs idx ok =
    let (version, h) = check_passed _ _ _ ok in
    let (block_size, h') = check_passed _ _ _ h in
    let (same, _) = check_passed _ _ _ h' in
    (
      same_id idx.version 1 (not-false _ version),
      same_id idx.block_size bs (not-false _ block_size),
      eq_of_text_eq idx.identity identity (not-false _ same),
    )

load_refused :
    (identity : Text) (bs : ℕ) (path_for : Text → Text) (disk : Disk) (now : ℕ) (idx : IndexFile)
    (c : Cache) (err : IndexError)
    → refuse_index identity bs idx ≡ some err
    → load_index identity bs path_for disk now (decoded idx) c ≡ (some err, c)
unfolding load_index
load_refused identity bs path_for disk now idx c err refused = rw (refused, load_index) refl

-- A decoded index of another version, block size or identity gives a mount with no entry and with
-- the data wiped.
pub new_cache-refused :
    (identity : Text) (bs : ℕ) (path_for : Text → Text) (disk : Disk) (now : ℕ) (idx : IndexFile)
    → 0 < bs
    → ¬ ((idx.version ≡ 1) × (idx.block_size ≡ bs) × (idx.identity ≡ identity))
    → new_cache none true identity bs path_for disk now (decoded idx) ≡ done (empty_cache, true)
unfolding new_cache after_load block_size_or
new_cache-refused identity bs path_for disk now idx h other =
    let set : (bs == 0) ≡ false = ground arith in
    elim (Option-cases (refuse_index identity bs idx)) [
      | inl ok ↦ absurd (other (accepted identity bs idx ok))
      | inr (err, refused) ↦ rw set (
          ap (λ r. done (after_load r))
            (load_refused identity bs path_for disk now idx empty_cache err refused))
    ]
