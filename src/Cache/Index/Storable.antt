-- ===== src/Cache/Index/Storable.antt =====
-- What JSON can hold of an index.
use remote_s3_bucket_plugin.Utf8.{is_utf8}
use remote_s3_bucket_plugin.Table.{Text, lookup, text_eq}
use remote_s3_bucket_plugin.Table.Laws.{some_inj, some_ne_none, lookup-head, lookup-tail}
use remote_s3_bucket_plugin.Entry.{Entry}
use remote_s3_bucket_plugin.Cache.{Cache}
use remote_s3_bucket_plugin.Cache.Index.{
  IndexEntry, IndexFile, index_entry, index_entries, index_of,
}
use remote_s3_bucket_plugin.Prelude.{
  ℕ, ◌%◌, ◌^◌, ◌<◌, ◌≡◌, sym, subst, ◌∙◌, inl, inr, true, some, List, [], ◌∷◌, arith, Bool-cases,
}

-- Texts in UTF-8 and numbers in an int64.
pub record IsStorableEntry (ie : IndexEntry) : Type 0 where
  pub key : is_utf8 ie.key ≡ true
  pub etag : is_utf8 ie.etag ≡ true
  pub size : ie.size < 2 ^ 63
  pub obj_size : ie.obj_size < 2 ^ 63
  pub mtime : ie.mtime < 2 ^ 63

unfoldable pub AllStorable : List IndexEntry → Type 0
AllStorable [] = Unit
AllStorable (ie ∷ ies) = IsStorableEntry ie × AllStorable ies

pub record IsStorable (idx : IndexFile) : Type 0 where
  pub identity : is_utf8 idx.identity ≡ true
  pub block_size : idx.block_size < 2 ^ 63
  pub saved_at : idx.saved_at < 2 ^ 63
  pub entries : AllStorable idx.entries

-- An entry of which all that the index records can be stored.
pub record IsStored (e : Entry) : Type 0 where
  pub key : is_utf8 e.key ≡ true
  pub etag : is_utf8 e.etag ≡ true
  pub size : e.size < 2 ^ 63
  pub obj_size : e.obj_size < 2 ^ 63
  pub mtime : e.mtime < 2 ^ 63

unfoldable pub AllStored : (ℕ → Entry) → List (Text × ℕ) → Type 0
AllStored store [] = Unit
AllStored store ((k, id) ∷ rows) = IsStored (store id) × AllStored store rows

pub int64_lem : (n : ℕ) → n < 2 ^ 63 → n % 2 ^ 64 ≡ n
int64_lem n h = omega arith

index_entry-IsStored : (e : Entry) → IsStored e → IsStorableEntry (index_entry e)
unfolding index_entry
index_entry-IsStored e v = record {
  key = v.key;
  etag = v.etag;
  size = v.size;
  obj_size = v.obj_size;
  mtime = subst (λ n. n < 2 ^ 63) (sym (int64_lem e.mtime v.mtime)) v.mtime;
}

index_entries-AllStored :
    (store : ℕ → Entry) (rows : List (Text × ℕ))
    → AllStored store rows
    → AllStorable (index_entries store rows)
unfolding index_entries index_entry AllStored AllStorable
index_entries-AllStored store [] v = tt
index_entries-AllStored store ((k, id) ∷ rows) (v, vs) =
    let rest = index_entries-AllStored store rows vs in
    elim (Bool-cases (store id).deleted) [
      | inl gone ↦ rw gone rest
      | inr alive ↦ rw alive (index_entry-IsStored (store id) v, rest)
    ]

-- The entry of a row is one of those.
pub row-IsStored :
    (store : ℕ → Entry) (k : Text) (rows : List (Text × ℕ)) (id : ℕ)
    → AllStored store rows
    → lookup k rows ≡ some id
    → IsStored (store id)
unfolding AllStored lookup
row-IsStored store k [] id v found = absurd (some_ne_none (sym found))
row-IsStored store k ((k', id') ∷ rows) id (v, vs) found = elim (Bool-cases (text_eq k' k)) [
  | inl same ↦
      let is : some id' ≡ some id = sym (lookup-head k k' id' rows same) ∙ found in
      subst (λ i. IsStored (store i)) (some_inj is) v
  | inr other ↦ row-IsStored store k rows id vs (sym (lookup-tail k k' id' rows other) ∙ found)
]

pub index_of-IsStorable :
    (identity : Text) (bs now : ℕ) (c : Cache)
    → is_utf8 identity ≡ true
    → bs < 2 ^ 63
    → now < 2 ^ 63
    → AllStored c.store c.table
    → IsStorable (index_of identity bs now c)
unfolding index_of
index_of-IsStorable identity bs now c text small soon v = record {
  identity = text;
  block_size = small;
  saved_at = soon;
  entries = index_entries-AllStored c.store c.table v;
}
