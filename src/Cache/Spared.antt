-- ===== src/Cache/Spared.antt =====
-- What `evict` never takes: unsaved data and open files.
use remote_s3_bucket_plugin.Bitmap.{count}
use remote_s3_bucket_plugin.Table.{Text, text_eq, lookup}
use remote_s3_bucket_plugin.Table.Laws.{
  IsMap, eq_of_text_eq, text_eq_sym, lookup-erase, keep-IsMap, lookup-none, lookup-head,
  lookup-tail, some_inj,
}
use remote_s3_bucket_plugin.Entry.{Error, Options, Entry}
use remote_s3_bucket_plugin.Entry.Trim.Rest.{trim-rest}
use remote_s3_bucket_plugin.Cache.{Cache, drop, put_entry}
use remote_s3_bucket_plugin.Cache.Evict.{
  evictable, trimmable, rows_with, insert_by_used, sort_by_used, drop_each, trim_entry, trim_each,
  within_budget, reclaim, evict,
}
use remote_s3_bucket_plugin.Cache.Rows.{Apart, same_id, ne_of_test}
use remote_s3_bucket_plugin.Prelude.{
  ℕ, ◌*◌, ◌/◌, ◌≡◌, refl, sym, ap, ◌∙◌, inl, inr, Bool, true, false, not, ◌&&◌, ◌||◌, Option, none,
  some, List, [], ◌∷◌, arith, ltb, ◌==◌, Bool-cases, ◌-ℤ◌, ℤ, pos,
}

rows_with-Apart-none :
    (f : Entry → Bool) (store : ℕ → Entry) (k : Text) (id : ℕ) (t : List (Text × ℕ))
    → lookup k t ≡ none
    → f (store id) ≡ false
    → Apart k id (rows_with f store t)
unfolding rows_with Apart
rows_with-Apart-none f store k id [] h out = tt
rows_with-Apart-none f store k id ((k', id') ∷ t) h out =
    let (other, rest) = lookup-none k k' id' t h in
    elim (Bool-cases (f (store id'))) [
      | inr goes ↦ rw goes (rows_with-Apart-none f store k id t rest out)
      | inl stays ↦ rw stays (
        text_eq_sym k k' ∙ other,
        ne_of_test f store id id' out stays,
        rows_with-Apart-none f store k id t rest out,
      )
    ]

-- An entry that fails the test is apart from those that pass it.
rows_with-Apart :
    (f : Entry → Bool) (store : ℕ → Entry) (k : Text) (id : ℕ) (t : List (Text × ℕ))
    → IsMap t
    → lookup k t ≡ some id
    → f (store id) ≡ false
    → Apart k id (rows_with f store t)
unfolding rows_with Apart IsMap
rows_with-Apart f store k id [] d h out = tt
rows_with-Apart f store k id ((k', id') ∷ t) (fresh, d) h out = elim (Bool-cases (text_eq k' k)) [
  | inl same ↦
      let mine : id' ≡ id = some_inj (sym (lookup-head k k' id' t same) ∙ h) in
      rw (ap (λ i. f (store i)) mine ∙ out) (
        rows_with-Apart-none f store k id t
          (sym (ap (λ x. lookup x t) (eq_of_text_eq k' k same)) ∙ fresh) out)
  | inr other ↦
      let rest = rows_with-Apart f store k id t d (sym (lookup-tail k k' id' t other) ∙ h) out in
      elim (Bool-cases (f (store id'))) [
        | inr goes ↦ rw goes rest
        | inl stays ↦ rw stays (text_eq_sym k k' ∙ other, ne_of_test f store id id' out stays, rest)
      ]
]

insert-Apart :
    (store : ℕ → Entry) (k : Text) (id : ℕ) (r : Text × ℕ) (rows : List (Text × ℕ))
    → Apart k id (r ∷ rows)
    → Apart k id (insert_by_used store r rows)
unfolding insert_by_used Apart
insert-Apart store k id r [] h = h
insert-Apart store k id r (x ∷ xs) (a, b, (c, d, rest)) =
    elim (Bool-cases (ltb (store x.1).used (store r.1).used)) [
      | inl later ↦ rw later (c, d, insert-Apart store k id r xs (a, b, rest))
      | inr first ↦ rw first (a, b, (c, d, rest))
    ]

sort-Apart :
    (store : ℕ → Entry) (k : Text) (id : ℕ) (rows : List (Text × ℕ))
    → Apart k id rows
    → Apart k id (sort_by_used store rows)
unfolding sort_by_used Apart
sort-Apart store k id [] h = tt
sort-Apart store k id (r ∷ rs) (a, b, rest) =
    insert-Apart store k id r (sort_by_used store rs) (a, b, sort-Apart store k id rs rest)

-- The row of `k` is as it was, and its entry is `e`.
pub record Spared (k : Text) (id : ℕ) (e : Entry) (c : Cache) : Type 0 where
  pub distinct : IsMap c.table
  pub row : lookup k c.table ≡ some id
  pub entry : c.store id ≡ e

drop-Spared :
    (bs : ℕ) (k k' : Text) (id id' : ℕ) (e : Entry) (c : Cache)
    → Spared k id e c
    → text_eq k k' ≡ false
    → (id == id') ≡ false
    → Spared k id e (drop bs id' k' c)
unfolding drop put_entry
drop-Spared bs k k' id id' e c s other apart = record {
  distinct = keep-IsMap (λ x v. not (text_eq x k')) c.table s.distinct;
  row = lookup-erase k' k c.table s.distinct ∙ rw other s.row;
  entry = rw apart s.entry;
}

drop_each-Spared :
    (bs target : ℕ) (k : Text) (id : ℕ) (e : Entry) (rows : List (Text × ℕ)) (c : Cache)
    → Apart k id rows
    → Spared k id e c
    → Spared k id e (drop_each bs target rows c)
unfolding drop_each Apart
drop_each-Spared bs target k id e [] c a s = s
drop_each-Spared bs target k id e ((k', id') ∷ rows) c (other, apart, rest) s =
    elim (Bool-cases (within_budget target c)) [
      | inl small ↦ rw small s
      | inr big ↦
          let s' = drop-Spared bs k k' id id' e c s other apart in
          rw big (
            drop_each-Spared bs target k id e rows _ rest
              (record { distinct = s'.distinct; row = s'.row; entry = s'.entry }))
    ]

-- The table as it was, and of each entry all but the file and the blocks.
pub record Rest (c c' : Cache) : Type 0 where
  pub table : c'.table ≡ c.table
  pub entries :
      (id : ℕ)
      → c'.store id
        ≡ record (c.store id) { file = (c'.store id).file; blocks = (c'.store id).blocks }

trim_entry-Rest :
    (o : Options) (io : ℕ → Option Error) (over : ℤ) (id : ℕ) (c : Cache)
    → Rest c (trim_entry o io over id c)
unfolding trim_entry put_entry
trim_entry-Rest o io over id c = record {
  table = refl;
  entries = λ k. elim (Bool-cases (k == id)) [
    | inr other ↦ rw other refl
    | inl same ↦
        let eq = same_id k id same in
        rw (same) (rw eq (trim-rest o io over (c.store id) c.counters))
  ];
}

Rest-trans : {a b c : Cache} → Rest a b → Rest b c → Rest a c
Rest-trans {a} {b} {c} x y = record {
  table = y.table ∙ x.table;
  entries = λ id.
      y.entries id
      ∙ ap (λ (e : Entry). record e { file = (c.store id).file; blocks = (c.store id).blocks })
          (x.entries id);
}

trim_each-Rest :
    (o : Options) (io : ℕ → ℕ → Option Error) (target : ℕ) (rows : List (Text × ℕ)) (c : Cache)
    → Rest c (trim_each o io target rows c)
unfolding trim_each
trim_each-Rest o io target [] c = record { table = refl; entries = λ id. refl }
trim_each-Rest o io target ((k, id) ∷ rows) c = elim (Bool-cases (within_budget target c)) [
  | inl small ↦ rw small (record { table = refl; entries = λ id. refl })
  | inr big ↦
      let over = c.counters.bytes -ℤ pos target in
      rw big (
        Rest-trans (trim_entry-Rest o (io id) over id c)
          (trim_each-Rest o io target rows (trim_entry o (io id) over id c)))
]

-- An entry that may not be trimmed is not even in the rows.
trim_each-Spared :
    (o : Options) (io : ℕ → ℕ → Option Error) (target : ℕ) (k : Text) (id : ℕ) (e : Entry)
    (rows : List (Text × ℕ)) (c : Cache)
    → Apart k id rows
    → c.store id ≡ e
    → (trim_each o io target rows c).store id ≡ e
unfolding trim_each Apart trim_entry put_entry
trim_each-Spared o io target k id e [] c a s = s
trim_each-Spared o io target k id e ((k', id') ∷ rows) c (other, apart, rest) s =
    elim (Bool-cases (within_budget target c)) [
      | inl small ↦ rw small s
      | inr big ↦ rw big (trim_each-Spared o io target k id e rows _ rest (rw apart s))
    ]

-- What a reclaim or an eviction leaves of the entry that `k` had.
abbrev pub Safe : Text → ℕ → Cache → Cache → Type 0
Safe k id c c' =
    (lookup k c'.table ≡ some id)
    × (c'.store id
        ≡ record (c.store id) { file = (c'.store id).file; blocks = (c'.store id).blocks })
    × (((c.store id).dirty || (c.store id).new_file) ≡ true → c'.store id ≡ c.store id)

same_but : (a b : Entry) → a ≡ b → a ≡ record b { file = a.file; blocks = a.blocks }
same_but a b h = h ∙ ap (λ (x : Entry). record b { file = x.file; blocks = x.blocks }) (sym h)

unsaved-trimmable : (e : Entry) → (e.dirty || e.new_file) ≡ true → trimmable e ≡ false
unfolding trimmable
unsaved-trimmable e h = ground (arith, h)

reclaim-Safe :
    (o : Options) (io : ℕ → ℕ → Option Error) (target : ℕ) (k : Text) (id : ℕ) (c : Cache)
    → IsMap c.table
    → lookup k c.table ≡ some id
    → evictable (c.store id) ≡ false
    → Safe k id c (reclaim o io target c)
unfolding reclaim
reclaim-Safe o io target k id c d h out =
    let rows = sort_by_used c.store (rows_with evictable c.store c.table) in
    let apart =
      sort-Apart c.store k id (rows_with evictable c.store c.table)
        (rows_with-Apart evictable c.store k id c.table d h out) in
    let s =
      drop_each-Spared o.block_size target k id (c.store id) rows c apart
        (record { distinct = d; row = h; entry = refl }) in
    let c' = drop_each o.block_size target rows c in
    elim (Bool-cases (within_budget target c')) [
      | inl small ↦ rw small (s.row, same_but _ _ s.entry, λ _. s.entry)
      | inr big ↦
          let rows' = rows_with trimmable c'.store c'.table in
          let t = trim_each-Rest o io target (sort_by_used c'.store rows') c' in
          let last = trim_each o io target (sort_by_used c'.store rows') c' in
          rw big (
            ap (lookup k) t.table ∙ s.row,
            t.entries id
                ∙ ap
                    (λ (e : Entry). record e {
                      file = (last.store id).file;
                      blocks = (last.store id).blocks;
                    })
                    s.entry,
            λ unsaved.
                trim_each-Spared o io target k id (c.store id) (sort_by_used c'.store rows') c'
                  (sort-Apart c'.store k id rows' (
                    rows_with-Apart trimmable c'.store k id c'.table s.distinct s.row
                      (ap trimmable s.entry ∙ unsaved-trimmable (c.store id) unsaved)))
                  s.entry,
          )
    ]

-- An eviction never takes unsaved data or a file that is open: an entry that is dirty, new, referenced
-- or without blocks keeps its row, and all of it but the local blocks of a clean one.
pub evict-Safe :
    (o : Options) (io : ℕ → ℕ → Option Error) (k : Text) (id : ℕ) (c : Cache)
    → IsMap c.table
    → lookup k c.table ≡ some id
    → (let e = c.store id in
        e.refs == 0 && not e.dirty && not e.new_file && not (count e.blocks == 0))
      ≡ false
    → Safe k id c (evict o io c)
unfolding evict evictable
evict-Safe o io k id c d h out = elim (Bool-cases (o.max_bytes == 0)) [
  | inl unlimited ↦ simp unlimited (h, refl, λ _. refl)
  | inr limited ↦ elim (Bool-cases (within_budget o.max_bytes c)) [
    | inl small ↦ simp (limited, small) (h, refl, λ _. refl)
    | inr big ↦ simp (limited, big) (reclaim-Safe o io (o.max_bytes * 9 / 10) k id c d h out)
  ]
]
