-- ===== src/Cache/Keys.antt =====
-- What `Open`, `Remove` and `Rename` make of the table and of the entries.
use remote_s3_bucket_plugin.OsFile.{truncate}
use remote_s3_bucket_plugin.Bitmap.Codec.{new_bitmap-IsValid}
use remote_s3_bucket_plugin.Table.{Text, text_eq, lookup, erase, store as insert}
use remote_s3_bucket_plugin.Table.Laws.{
  IsMap, text_eq_refl, lookup-erase, lookup-store, keep-IsMap, some_inj, some_ne_none,
}
use remote_s3_bucket_plugin.Entry.{Error, Entry, done, failed, nblocks, ref, invalidate}
use remote_s3_bucket_plugin.Entry.Trim.Punch.{IsClean}
use remote_s3_bucket_plugin.Entry.Coherence.{invalidate_lem}
use remote_s3_bucket_plugin.Cache.{
  Cache, put_entry, same_version, open_cached, fresh_entry, add_entry, open_entry, drop, move,
  rename, remove,
}
use remote_s3_bucket_plugin.Cache.Rows.{self_id}
use remote_s3_bucket_plugin.Prelude.{
  ℕ, ◌+◌, ◌/◌, ◌<◌, ◌≡◌, refl, sym, ap, subst, ◌∙◌, inl, inr, Bool, true, false, not, ◌||◌, Option,
  none, some, List, ◌∷◌, arith, ◌==◌, if◌then◌else◌, Bool-cases, Option-cases,
}

true_ne_false : ¬ (true ≡ false)
true_ne_false h = cc

-- The cached entry holds local changes or the version of the object.
unfoldable pub current : Text → Entry → Bool
current etag e = e.dirty || e.new_file || same_version etag e

-- The local changes and the version that `Open` finds in the cache count, if there are any.
unfoldable pub known : Text → Text → Cache → Bool
known key etag c = elim (lookup key c.table) [ none ↦ false | some id ↦ current etag (c.store id) ]

-- What `Open` gives for an object of `size` bytes.
pub record Opened (bs : ℕ) (remote : ℕ → ℕ) (now size : ℕ) (key etag : Text) (id : ℕ) (c c' : Cache)
    : Type 0 where
  pub row : lookup key c'.table ≡ some id
  pub others : (k : Text) → text_eq k key ≡ false → lookup k c'.table ≡ lookup k c.table
  pub kept : known key etag c ≡ true → c'.store id ≡ ref now (c.store id)
  pub renewed :
      known key etag c ≡ false
      → IsClean bs remote (c'.store id) × ((c'.store id).etag ≡ etag) × ((c'.store id).size ≡ size)
  pub first : lookup key c.table ≡ none → (c'.store id).refs ≡ 1
  pub again :
      (i : ℕ) → lookup key c.table ≡ some i → (i ≡ id) × ((c'.store id).refs ≡ (c.store i).refs + 1)

ref-IsClean :
    (bs : ℕ) (remote : ℕ → ℕ) (now : ℕ) (e : Entry)
    → IsClean bs remote e
    → IsClean bs remote (ref now e)
unfolding ref
ref-IsClean bs remote now e v = record {
  valid = record {
    positive = v.valid.positive;
    blocks = v.valid.blocks;
    file_length = v.valid.file_length;
    object_fits = v.valid.object_fits;
  };
  same_size = v.same_size;
  agrees = v.agrees;
}

fresh-IsClean :
    (bs : ℕ) (remote : ℕ → ℕ) (now : ℕ) (path key : Text) (size : ℕ) (etag : Text) (mtime : ℕ)
    → 0 < bs
    → IsClean bs remote (fresh_entry bs now path key size etag mtime false)
unfolding fresh_entry truncate
fresh-IsClean bs remote now path key size etag mtime h =
    let (valid, empty) = new_bitmap-IsValid (nblocks size bs) in
    record {
      valid = record {
        positive = h;
        blocks = valid;
        file_length = refl;
        object_fits = omega arith;
      };
      same_size = refl;
      agrees = λ p _ on. ground (arith, empty (p / bs));
    }

module _ (bs : ℕ) (remote : ℕ → ℕ) (path_for : Text → Text) (io : Option Error) (now : ℕ)
    (key : Text) (size : ℕ) (etag : Text) (mtime : ℕ) (c : Cache) (h : 0 < bs)
    (d : IsMap c.table) where
  open_cached-kept :
      (e : Entry)
      → current etag e ≡ true
      → (open_cached bs now size etag mtime e c.counters).0 ≡ ref now e
  unfolding open_cached current
  open_cached-kept e cur = elim (Bool-cases (e.dirty || e.new_file)) [
    | inl local ↦ simp local refl
    | inr synced ↦
        let same : same_version etag e ≡ true = ground (arith, cur, synced) in
        simp (synced, same) refl
  ]

  open_cached-renewed :
      (e : Entry)
      → current etag e ≡ false
      → (open_cached bs now size etag mtime e c.counters).0
        ≡ ref now (invalidate bs size etag mtime e)
  unfolding open_cached current
  open_cached-renewed e old =
      let synced : (e.dirty || e.new_file) ≡ false = ground (arith, old) in
      let differs : same_version etag e ≡ false = ground (arith, old) in simp (synced, differs) refl

  open_cached-refs :
      (e : Entry) → (open_cached bs now size etag mtime e c.counters).0.refs ≡ e.refs + 1
  unfolding ref invalidate
  open_cached-refs e = elim (Bool-cases (current etag e)) [
    | inl cur ↦ rw (open_cached-kept e cur) refl
    | inr old ↦ rw (open_cached-renewed e old) refl
  ]

  cur_at :
      (id : ℕ)
      → lookup key c.table ≡ some id
      → known key etag c ≡ true
      → current etag (c.store id) ≡ true
  unfolding known
  cur_at id row cur =
      sym (ap (λ o. elim o as (λ _. Bool) [ none ↦ false | some i ↦ current etag (c.store i) ]) row)
      ∙ cur

  old_at :
      (id : ℕ)
      → lookup key c.table ≡ some id
      → known key etag c ≡ false
      → current etag (c.store id) ≡ false
  unfolding known
  old_at id row old =
      sym (ap (λ o. elim o as (λ _. Bool) [ none ↦ false | some i ↦ current etag (c.store i) ]) row)
      ∙ old

  not_known : lookup key c.table ≡ none → known key etag c ≡ false
  unfolding known
  not_known gone =
      ap (λ o. elim o as (λ _. Bool) [ none ↦ false | some i ↦ current etag (c.store i) ]) gone

  open_row :
      (id : ℕ)
      → lookup key c.table ≡ some id
      → Opened bs remote now size key etag id c
          (open_entry bs path_for io now key size etag mtime c).1
  unfolding open_entry put_entry ref invalidate
  open_row id row =
      rw (row, open_entry)
        (record {
          row = row;
          others = λ k other. refl;
          kept = λ cur. rw (self_id id) (open_cached-kept (c.store id) (cur_at id row cur));
          renewed = λ old. rw (self_id id) (
              let now_e = open_cached-renewed (c.store id) (old_at id row old) in
              let (clean, _, _, _) = invalidate_lem bs remote size etag mtime (c.store id) h in
              rw now_e (
                ref-IsClean bs remote now (invalidate bs size etag mtime (c.store id)) clean,
                refl,
                refl,
              ));
          first = λ gone. absurd (some_ne_none (sym row ∙ gone));
          again = λ i there.
              let same : id ≡ i = some_inj (sym row ∙ there) in
              (
                sym same,
                rw (self_id id)
                    (open_cached-refs (c.store id) ∙ ap (λ x. (c.store x).refs + 1) same),
              );
        })

  open_new :
      lookup key c.table ≡ none
      → io ≡ none
      → Opened bs remote now size key etag c.next c
          (open_entry bs path_for io now key size etag mtime c).1
  unfolding open_entry add_entry fresh_entry
  open_new gone ok =
      rw (gone, open_entry)
        (rw (ok, open_entry)
          (record {
            row = lookup-store key key c.next c.table d ∙ rw (text_eq_refl key) refl;
            others = λ k other. lookup-store key k c.next c.table d ∙ rw other refl;
            kept = λ cur. absurd (true_ne_false (sym cur ∙ not_known gone));
            renewed = λ _.
                rw (self_id c.next)
                  (fresh-IsClean bs remote now (path_for key) key size etag mtime h, refl, refl);
            first = λ _. rw (self_id c.next) refl;
            again = λ i there. absurd (some_ne_none (sym there ∙ gone));
          }))

  outcome_row :
      (i : ℕ)
      → lookup key c.table ≡ some i
      → (open_entry bs path_for io now key size etag mtime c).0 ≡ done i
  unfolding open_entry
  outcome_row i row = rw (row, open_entry) refl

  outcome_new :
      lookup key c.table ≡ none
      → io ≡ none
      → (open_entry bs path_for io now key size etag mtime c).0 ≡ done c.next
  unfolding open_entry
  outcome_new gone ok = rw (gone, open_entry) (rw (ok, open_entry) refl)

  outcome_bad :
      lookup key c.table ≡ none
      → (e : Error) → io ≡ some e
      → open_entry bs path_for io now key size etag mtime c ≡ (failed e, c)
  unfolding open_entry
  outcome_bad gone e bad = rw (gone, open_entry) (rw (bad, open_entry) refl)

done_inj : {a b : ℕ} → done a ≡ done b → a ≡ b
done_inj x = cc

done_ne_failed : {a : ℕ} {err : Error} → ¬ (done a ≡ failed err)
done_ne_failed x = cc

-- `Open` of an object: an error changes nothing. On success the key has the entry that it returns, no
-- other key has changed, and the entry is open: a new one has one reference, and one that was in the
-- cache is the same entry with one reference more. If the cache held local changes or the version of the object under this
-- key, the entry is that one with a reference more and nothing else but the time changed; otherwise it is clean, of the object's size and
-- ETag, and stands for the object.
pub open_entry-Opened :
    (bs : ℕ) (remote : ℕ → ℕ) (path_for : Text → Text) (io : Option Error) (now : ℕ) (key : Text)
    (size : ℕ) (etag : Text) (mtime : ℕ) (c : Cache)
    → 0 < bs
    → IsMap c.table
    → let r = open_entry bs path_for io now key size etag mtime c in
      ((id : ℕ) → r.0 ≡ done id → Opened bs remote now size key etag id c r.1)
      × ((err : Error) → r.0 ≡ failed err → r.1 ≡ c)
open_entry-Opened bs remote path_for io now key size etag mtime c h d =
    elim (Option-cases (lookup key c.table)) [
      | inr (i, row) ↦ (
        λ id ok.
            let same : i ≡ id =
              done_inj (
                sym (outcome_row bs remote path_for io now key size etag mtime c h d i row) ∙ ok) in
            subst
              (λ j.
                Opened bs remote now size key etag j c
                  (open_entry bs path_for io now key size etag mtime c).1)
              same (open_row bs remote path_for io now key size etag mtime c h d i row),
        λ err bad. absurd (
            done_ne_failed
              (sym (outcome_row bs remote path_for io now key size etag mtime c h d i row) ∙ bad)),
      )
      | inl gone ↦ elim (Option-cases io) [
        | inl ok_io ↦ (
          λ id ok.
              let same : c.next ≡ id = done_inj (
                sym (outcome_new bs remote path_for io now key size etag mtime c h d gone ok_io)
                ∙ ok) in
              subst
                (λ j.
                  Opened bs remote now size key etag j c
                    (open_entry bs path_for io now key size etag mtime c).1)
                same (open_new bs remote path_for io now key size etag mtime c h d gone ok_io),
          λ err bad. absurd (
              done_ne_failed (
                sym (outcome_new bs remote path_for io now key size etag mtime c h d gone ok_io)
                ∙ bad)),
        )
        | inr (e, bad_io) ↦ (
          λ id ok. absurd (
              done_ne_failed (
                sym ok
                ∙ ap (λ r. r.0)
                    (outcome_bad bs remote path_for io now key size etag mtime c h d gone e
                      bad_io))),
          λ err bad.
              ap (λ r. r.1)
                (outcome_bad bs remote path_for io now key size etag mtime c h d gone e bad_io),
        )
      ]
    ]

-- `Remove` of a key: no row is left under it, no other row changes. The entry that it had is deleted,
-- with the data that its open files read; its file is unlinked at once if nobody has it open, and is
-- not touched if somebody has.
pub remove-drop :
    (bs : ℕ) (key : Text) (id : ℕ) (c : Cache)
    → IsMap c.table
    → lookup key c.table ≡ some id
    → let c' = remove bs key c in
      let e = c.store id in
      ((k : Text) → lookup k c'.table ≡ (if text_eq k key then none else lookup k c.table))
      × (c'.store id ≡ record e { deleted = true; dirty = false })
      × (c'.removed ≡ (if e.refs == 0 then e.path ∷ c.removed else c.removed))
unfolding remove drop put_entry
remove-drop bs key id c d row =
    rw (row, remove) (λ k. lookup-erase key k c.table d, rw (self_id id) refl, refl)

moved_row :
    (old new : Text) (id : ℕ) (k : Text) (t : List (Text × ℕ))
    → IsMap t
    → lookup k (insert new id (erase old t))
      ≡ (if text_eq k new then some id else if text_eq k old then none else lookup k t)
moved_row old new id k t d =
    lookup-store new k id (erase old t) (keep-IsMap (λ x v. not (text_eq x old)) t d)
    ∙ ap (λ o. if text_eq k new then some id else o) (lookup-erase old k t d)

-- The same with an entry under the new key.
moved_over :
    (old new : Text) (id : ℕ) (k : Text) (t : List (Text × ℕ))
    → IsMap t
    → lookup k (insert new id (erase old (erase new t)))
      ≡ (if text_eq k new then some id else if text_eq k old then none else lookup k t)
moved_over old new id k t d =
    moved_row old new id k (erase new t) (keep-IsMap (λ x v. not (text_eq x new)) t d)
    ∙ elim (Bool-cases (text_eq k new)) [
      | inl same ↦ rw same refl
      | inr other ↦ rw other (rw (lookup-erase new k t d) (rw other refl))
    ]

other_id : (a b : ℕ) → (a == b) ≡ false → (b == a) ≡ false
other_id a b h = ground (arith, h)

-- `Rename` to another key that the operating system carries out: the entry is now under the new key,
-- with the data that it had and at the path of that key, nothing is left under the old one, an entry
-- that was under the new key is deleted, and no other key has changed.
pub rename_lem :
    (bs : ℕ) (path_for : Text → Text) (old new : Text) (id : ℕ) (c : Cache)
    → IsMap c.table
    → text_eq old new ≡ false
    → lookup old c.table ≡ some id
    → ((victim : ℕ) → lookup new c.table ≡ some victim → (victim == id) ≡ false)
    → let c' = rename bs path_for none old new c in
      ((k : Text)
        → lookup k c'.table
          ≡ (if text_eq k new then some id else if text_eq k old then none else lookup k c.table))
      × (c'.store id ≡ record (c.store id) { key = new; path = path_for new })
      × ((victim : ℕ) → lookup new c.table ≡ some victim → (c'.store victim).deleted ≡ true)
unfolding rename move drop put_entry
rename_lem bs path_for old new id c d differ row apart = elim (Option-cases (lookup new c.table)) [
  | inl free ↦
      rw (row, rename)
        (rw (free, rename)
          (
            λ k. moved_row old new id k c.table d,
            rw (self_id id) refl,
            λ victim there. absurd (some_ne_none (sym there)),
          ))
  | inr (v, taken) ↦
      rw (row, rename)
        (rw (taken, rename)
          (rw (apart v taken) (
            λ k. moved_over old new id k c.table d,
            rw (self_id id, other_id v id (apart v taken)) refl,
            λ victim there.
                let same : v ≡ victim = some_inj there in
                subst
                  (λ i.
                    ((if i == id
                      then record (if id == v
                          then record (c.store v) { deleted = true; dirty = false }
                          else c.store id) { key = new; path = path_for new }
                      else if i == v
                      then record (c.store v) { deleted = true; dirty = false }
                      else c.store i).deleted)
                    ≡ true)
                  same (rw (apart v taken, self_id v) refl),
          )))
]
