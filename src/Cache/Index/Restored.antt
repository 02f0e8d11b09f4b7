-- ===== src/Cache/Index/Restored.antt =====
-- The loop of `loadIndex` over the entries of a saved index.
use remote_s3_bucket_plugin.Table.{Text, text_eq, lookup}
use remote_s3_bucket_plugin.Table.Laws.{
  IsMap, text_eq_sym, eq_of_text_eq, lookup-store, store-IsMap, some_inj,
}
use remote_s3_bucket_plugin.Entry.{Entry, Counters, disk_bytes}
use remote_s3_bucket_plugin.Cache.{Cache, lookup_entry, add_entry, set_counters}
use remote_s3_bucket_plugin.Cache.Index.{
  IndexEntry, Disk, index_entry, index_entries, restore_entry, restore, restore_all, add_bytes,
}
use remote_s3_bucket_plugin.Prelude.{
  ℕ, ◌<◌, ◌≡◌, refl, sym, ap, ◌∙◌, inl, inr, Bool, true, false, ◌&&◌, Option, none, some, List, [],
  ◌∷◌, arith, ◌==◌, if◌then◌else◌, Bool-cases, Option-cases,
}

-- Each row has the key of its entry.
unfoldable pub Filed : (ℕ → Entry) → List (Text × ℕ) → Type 0
Filed store [] = Unit
Filed store ((k, id) ∷ rows) = ((store id).key ≡ k) × Filed store rows

-- The rows are of entries that were made before.
pub record IsTable (table : List (Text × ℕ)) (next : ℕ) : Type 0 where
  pub distinct : IsMap table
  pub older : (k : Text) (id : ℕ) → lookup k table ≡ some id → id < next

abbrev pub Fits : Cache → Type 0
Fits c = IsTable c.table c.next

add_entry-Fits : (key : Text) (e : Entry) (c : Cache) → Fits c → Fits (add_entry key e c)
unfolding add_entry
add_entry-Fits key e c t = record {
  distinct = store-IsMap key c.next c.table t.distinct;
  older = λ k id found. elim (Bool-cases (text_eq k key)) [
    | inl same ↦
        let here : some c.next ≡ some id =
          sym (lookup-store key k c.next c.table t.distinct ∙ rw same refl) ∙ found in
        let at : c.next ≡ id = some_inj here in omega (arith, at)
    | inr other ↦
        let there : lookup k c.table ≡ some id =
          sym (lookup-store key k c.next c.table t.distinct ∙ rw other refl) ∙ found in
        omega (arith, t.older k id there)
  ];
}

found_entry :
    (k : Text) (id : ℕ) (c : Cache)
    → lookup k c.table ≡ some id
    → lookup_entry k c ≡ some (c.store id)
unfolding lookup_entry
found_entry k id c found = rw (found, lookup_entry) refl

no_row : (k : Text) (c : Cache) → lookup k c.table ≡ none → lookup_entry k c ≡ none
unfolding lookup_entry
no_row k c out = rw (out, lookup_entry) refl

new_entry : (key : Text) (e : Entry) (c : Cache) → (add_entry key e c).store c.next ≡ e
unfolding add_entry
new_entry key e c = ground arith

old_entry :
    (key : Text) (e : Entry) (c : Cache) (id : ℕ)
    → id < c.next
    → (add_entry key e c).store id ≡ c.store id
unfolding add_entry
old_entry key e c id h = ground arith

new_table :
    (key k : Text) (e : Entry) (c : Cache)
    → Fits c
    → lookup k (add_entry key e c).table ≡ (if text_eq k key then some c.next else lookup k c.table)
unfolding add_entry
new_table key k e c t = lookup-store key k c.next c.table t.distinct

-- The entry under a key after a new one under `key`.
lookup_entry-add :
    (key k : Text) (e : Entry) (c : Cache)
    → Fits c
    → lookup_entry k (add_entry key e c) ≡ (if text_eq k key then some e else lookup_entry k c)
lookup_entry-add key k e c t = elim (Bool-cases (text_eq k key)) [
  | inl same ↦
      found_entry k c.next (add_entry key e c) (new_table key k e c t ∙ rw same refl)
      ∙ ap some (new_entry key e c)
      ∙ rw same refl
  | inr other ↦ elim (Option-cases (lookup k c.table)) [
    | inl out ↦
        no_row k (add_entry key e c) (new_table key k e c t ∙ rw other out)
        ∙ sym (rw other (no_row k c out))
    | inr (id, found) ↦
        found_entry k id (add_entry key e c) (new_table key k e c t ∙ rw other found)
        ∙ ap some (old_entry key e c id (t.older k id found))
        ∙ sym (rw other (found_entry k id c found))
  ]
]

module _ (bs : ℕ) (path_for : Text → Text) (disk : Disk) (now : ℕ) where
  -- What a round of the loop leaves under a key.
  unfoldable pub restored : IndexEntry → Option Entry → Option Entry
  restored ie before = elim (disk.files (path_for ie.key)) [
    | none ↦ before
    | some f ↦
        if f.len == ie.size && disk.opens (path_for ie.key)
        then some (restore_entry bs now (path_for ie.key) f ie)
        else before
  ]

  -- The list of removed files and the counters are no part of the rows.
  same_rows :
      (k : Text) (c : Cache) (paths : List Text)
      → lookup_entry k (record c { removed = paths }) ≡ lookup_entry k c
  unfolding lookup_entry
  same_rows k c paths = refl

  recounted :
      (k : Text) (c : Cache) (counters : Counters)
      → lookup_entry k (set_counters counters c) ≡ lookup_entry k c
  unfolding lookup_entry
  recounted k c counters = refl

  same_either : (b : Bool) (x : Option Entry) → x ≡ (if b then x else x)
  same_either true x = refl
  same_either false x = refl

  restore_lem :
      (ie : IndexEntry) (c : Cache)
      → Fits c
      → Fits (restore bs path_for disk now ie c)
        × ((k : Text)
            → lookup_entry k (restore bs path_for disk now ie c)
              ≡ (if text_eq k ie.key then restored ie (lookup_entry k c) else lookup_entry k c))
  unfolding restore restored
  restore_lem ie c t = elim (Option-cases (disk.files (path_for ie.key))) [
    | inl out ↦
        rw (out, restore, restored)
          (
            t,
            λ k.
                same_rows k c (path_for ie.key ∷ c.removed)
                ∙ same_either (text_eq k ie.key) (lookup_entry k c),
          )
    | inr (f, found) ↦ elim (Bool-cases (f.len == ie.size)) [
      | inr differs ↦
          rw (found, restore, restored, differs)
            (
              t,
              λ k.
                  same_rows k c (path_for ie.key ∷ c.removed)
                  ∙ same_either (text_eq k ie.key) (lookup_entry k c),
            )
      | inl fits ↦ elim (Bool-cases (disk.opens (path_for ie.key))) [
        | inr shut ↦
            rw (found, restore, restored, fits, shut)
              (t, λ k. same_either (text_eq k ie.key) (lookup_entry k c))
        | inl opens ↦
            let e = restore_entry bs now (path_for ie.key) f ie in
            rw (found, restore, restored, fits, opens)
              (
                add_entry-Fits ie.key e c t,
                λ k.
                    recounted k (add_entry ie.key e c) (add_bytes (disk_bytes bs e) c.counters)
                    ∙ lookup_entry-add ie.key k e c t,
              )
      ]
    ]
  ]

  -- What a mount leaves under a key whose row is `row`.
  unfoldable pub saved : (ℕ → Entry) → Option ℕ → Option Entry → Option Entry
  unfolding restored
  saved store none before = before
  saved store (some id) before =
      if (store id).deleted then before else restored (index_entry (store id)) before

  saved-text :
      (store : ℕ → Entry) (k : Text) (id : ℕ) (before : Option Entry)
      → text_eq k (store id).key ≡ true
      → (store id).deleted ≡ false
      → (if text_eq k (store id).key then restored (index_entry (store id)) before else before)
        ≡ saved store (some id) before
  unfolding saved restored
  saved-text store k id before same alive = rw (same, alive) refl

  pub restore_all-saved :
      (store : ℕ → Entry) (rows : List (Text × ℕ)) (k : Text) (c : Cache)
      → IsMap rows
      → Filed store rows
      → Fits c
      → lookup_entry k (restore_all bs path_for disk now (index_entries store rows) c)
        ≡ saved store (lookup k rows) (lookup_entry k c)
  unfolding restore_all index_entries IsMap Filed saved lookup index_entry
  restore_all-saved store [] k c d f t = refl
  restore_all-saved store ((k', id) ∷ rows) k c (fresh, d) (at, f) t =
      let e = store id in
      let (t', after) = restore_lem (index_entry e) c t in
      let here : text_eq k e.key ≡ text_eq k' k = ap (text_eq k) at ∙ text_eq_sym k k' in
      elim (Bool-cases (text_eq k' k)) [
        | inl same ↦
            let out : lookup k rows ≡ none =
              sym (ap (λ x. lookup x rows) (eq_of_text_eq k' k same)) ∙ fresh in
            elim (Bool-cases e.deleted) [
              | inl gone ↦
                  rw (gone, same, saved, gone)
                    (restore_all-saved store rows k c d f t ∙ rw out refl)
              | inr alive ↦
                  rw (alive, same)
                    (restore_all-saved store rows k (restore bs path_for disk now (index_entry e) c)
                        d f t'
                      ∙ rw out
                          (after k ∙ saved-text store k id (lookup_entry k c) (here ∙ same) alive))
            ]
        | inr other ↦ elim (Bool-cases e.deleted) [
          | inl gone ↦ rw (gone, other) (restore_all-saved store rows k c d f t)
          | inr alive ↦
              rw (alive, other)
                (restore_all-saved store rows k (restore bs path_for disk now (index_entry e) c) d f
                    t'
                  ∙ ap (saved store (lookup k rows)) (after k ∙ rw (here ∙ other) refl))
        ]
      ]
