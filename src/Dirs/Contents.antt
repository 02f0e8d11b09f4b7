-- ===== src/Dirs/Contents.antt =====
-- What the remembered listings say, and how many there are.
use remote_s3_bucket_plugin.Table.{Text, text_eq, lookup, keep, store}
use remote_s3_bucket_plugin.Table.Laws.{
  text_eq_refl, text_eq_join, eq_of_text_eq, IsMap, Covers, screened, lookup-keep, lookup-store,
  store-IsMap, keep-IsMap, length-keep, drop_until-length, drop_until-IsMap,
}
use remote_s3_bucket_plugin.Dirs.{
  DirEntry, Listing, DirCache, get, put, trim, add, remove, has_name, without,
}
use remote_s3_bucket_plugin.Prelude.{
  ℕ, ◌+◌, ◌/◌, ◌≤◌, ◌≡◌, refl, sym, ap, ◌∙◌, inl, inr, Bool, true, false, not, ◌&&◌, ◌||◌, Option,
  none, some, List, [], ◌∷◌, ◌++◌, arith, ltb, if◌then◌else◌, lt→ltb, le→ltb_false, Bool-cases,
  Option-cases, ℕ-cases, length,
}

-- Whether the names of a listing are distinct.
unfoldable pub Distinct : List DirEntry → Type 0
Distinct [] = Unit
Distinct (x ∷ xs) = (has_name x.name xs ≡ false) × Distinct xs

has_name-append :
    (n : Text) (xs : List DirEntry) (y : DirEntry)
    → has_name n (xs ++ y ∷ []) ≡ (has_name n xs || text_eq y.name n)
unfolding has_name
has_name-append n [] y = ground arith
has_name-append n (x ∷ xs) y = ground (arith, has_name-append n xs y)

has_name-without :
    (n k : Text) (xs : List DirEntry)
    → has_name k (without n xs) ≡ (not (text_eq n k) && has_name k xs)
unfolding has_name without
has_name-without n k [] = ground arith
has_name-without n k (x ∷ xs) = elim (Bool-cases (text_eq x.name n)) [
  | inl same ↦
      let eq = eq_of_text_eq x.name n same in
      rw same (has_name-without n k xs ∙ rw (sym eq) (ground arith))
  | inr other ↦ rw other (ground (arith, has_name-without n k xs, text_eq_join x.name n k))
]

-- The names that a directory is remembered to have, if it is remembered.
abbrev pub names : Text → DirCache → Text → Option Bool
names p c n = elim (lookup p c.m) [ none ↦ none | some e ↦ some (has_name n e.entries) ]

-- What `f` makes of the names of `q`, if they are remembered.
abbrev pub after : Option Bool → (Bool → Bool) → Option Bool
after o f = elim o [ none ↦ none | some b ↦ some (f b) ]

after-same : (o : Option Bool) (f : Bool → Bool) → ((b : Bool) → f b ≡ b) → o ≡ after o f
after-same none f h = refl
after-same (some b) f h = rw (h b) refl

has_name-eq : (a n : Text) (xs : List DirEntry) → text_eq a n ≡ true → has_name a xs ≡ has_name n xs
has_name-eq a n xs h = ap (λ x. has_name x xs) (eq_of_text_eq a n h)

-- The directory itself, where its listing is `e`.
add_self :
    (p : Text) (entry : DirEntry) (c : DirCache) (n : Text) (e : Listing)
    → IsMap c.m
    → lookup p c.m ≡ some e
    → names p (add p entry c) n ≡ some (has_name n e.entries || text_eq entry.name n)
unfolding add
add_self p entry c n e d h = elim (Bool-cases (has_name entry.name e.entries)) [
  | inl there ↦
      rw (h, add, there)
        (rw (h, names) (ap some (ground (arith, there, has_name-eq entry.name n e.entries))))
  | inr absent ↦
      let grown : Listing = record e { entries = e.entries ++ entry ∷ [] } in
      rw (h, add, absent)
        (rw (lookup-store p p grown c.m d, names, text_eq_refl p)
          (ap some (has_name-append n e.entries entry)))
]

add_other :
    (p : Text) (entry : DirEntry) (c : DirCache) (q : Text)
    → IsMap c.m
    → text_eq q p ≡ false
    → lookup q (add p entry c).m ≡ lookup q c.m
unfolding add
add_other p entry c q d other = elim (Option-cases (lookup p c.m)) [
  | inl h ↦ rw (h, add) refl
  | inr (e, h) ↦ elim (Bool-cases (has_name entry.name e.entries)) [
    | inl there ↦ rw (h, add, there) refl
    | inr absent ↦
        let grown : Listing = record e { entries = e.entries ++ entry ∷ [] } in
        rw (h, add, absent) (lookup-store p q grown c.m d ∙ rw other refl)
  ]
]

add-none : (p : Text) (entry : DirEntry) (c : DirCache) → lookup p c.m ≡ none → add p entry c ≡ c
unfolding add
add-none p entry c h = rw (h, add) refl

-- With `add` the directory is remembered to have the new child besides those that it had, no other
-- directory changes, and nothing is remembered of a directory that was not.
add_lem :
    (p : Text) (entry : DirEntry) (c : DirCache) (q n : Text)
    → IsMap c.m
    → names q (add p entry c) n
      ≡ after (names q c n) (λ b. b || text_eq q p && text_eq entry.name n)
add_lem p entry c q n d = elim (Bool-cases (text_eq q p)) [
  | inr other ↦
      rw (add_other p entry c q d other, names)
        (after-same (names q c n) _ (λ b. ground (arith, other)))
  | inl same ↦
      let eq = eq_of_text_eq q p same in
      rw same (
        rw eq (elim (Option-cases (lookup p c.m)) [
          | inl h ↦ rw (add-none p entry c h) (rw (h, names) refl)
          | inr (e, h) ↦ add_self p entry c n e d h ∙ rw (h, names) refl
        ]))
]

-- With `remove` the directory is no longer remembered to have the child, whatever else it has stays,
-- and no other directory changes.
remove_lem :
    (p name : Text) (c : DirCache) (q n : Text)
    → IsMap c.m
    → names q (remove p name c) n
      ≡ after (names q c n) (λ b. b && not (text_eq q p && text_eq name n))
unfolding remove
remove_lem p name c q n d = elim (Option-cases (lookup p c.m)) [
  | inl h ↦
      rw (h, remove)
        (elim (Bool-cases (text_eq q p)) [
          | inr other ↦ after-same (names q c n) _ (λ b. ground (arith, other))
          | inl same ↦ rw (eq_of_text_eq q p same) (rw (h, names) refl)
        ])
  | inr (e, h) ↦
      let left : Listing = record e { entries = without name e.entries } in
      rw (h, remove)
        (rw (lookup-store p q left c.m d, names)
          (elim (Bool-cases (text_eq q p)) [
            | inr other ↦ rw other (after-same (names q c n) _ (λ b. ground (arith, other)))
            | inl same ↦ rw same (
                rw (eq_of_text_eq q p same)
                  (rw (h, names) (ap some (ground (arith, has_name-without name n e.entries)))))
          ]))
]

-- `trim` halves the cache, if the loop can visit every directory.
trim_half :
    (now : ℕ) (order : List Text) (c : DirCache)
    → IsMap c.m
    → Covers order c.m
    → IsMap (trim now order c).m × (length (trim now order c).m ≤ c.max_size / 2)
unfolding trim
trim_half now order c d covers = elim (Bool-cases c.exclusive) [
  | inl alone ↦ simp alone (
    drop_until-IsMap (c.max_size / 2) order c.m d,
    drop_until-length (c.max_size / 2) order c.m d covers,
  )
  | inr shared ↦
      let fresh : Text → Listing → Bool = λ k v. not (ltb v.expires now) in
      let d' = keep-IsMap fresh c.m d in
      simp shared (
        drop_until-IsMap (c.max_size / 2) order (keep fresh c.m) d',
        drop_until-length (c.max_size / 2) order (keep fresh c.m) d'
            (λ k out. lookup-keep fresh k c.m d ∙ ap (screened fresh k) (covers k out)),
      )
]

abbrev found : ℕ → Bool → Option Listing → Option (List DirEntry)
found later ex none = none
found later ex (some e) = if not ex && ltb e.expires later then none else some e.entries

-- What `put` stores in the map that it has made room in.
stored :
    (t : List (Text × Listing)) (p : Text) (entries : List DirEntry) (bound expires : ℕ) (ex : Bool)
    → IsMap t
    → length t ≤ bound
    → let t' = store p (record { entries = entries; expires = expires }) t in
      IsMap t'
      × (length t' ≤ bound + 1)
      × ((later : ℕ) → later ≤ expires → found later ex (lookup p t') ≡ some entries)
stored t p entries bound expires ex d small =
    let v : Listing = record { entries = entries; expires = expires } in
    (
      store-IsMap p v t d,
      omega (arith, length-keep (λ k v'. not (text_eq k p)) t),
      λ later soon. rw (lookup-store p p v t d) (rw (text_eq_refl p) (ground arith)),
    )

-- However large the cache was, `put` leaves at most one listing more than the limit, if the loop can
-- visit every directory, and the new listing is there until it expires.
pub put_lem :
    (now : ℕ) (order : List Text) (p : Text) (entries : List DirEntry) (c : DirCache)
    → IsMap c.m
    → Covers order c.m
    → let c' = put now order p entries c in
      IsMap c'.m
      × (length c'.m ≤ c.max_size + 1)
      × ((later : ℕ) → later ≤ now + c.ttl → get later p c' ≡ some entries)
unfolding put get
put_lem now order p entries c d covers = elim (ℕ-cases c.max_size (length c.m)) [
  | inl full ↦
      let (d', small) = trim_half now order c d covers in
      rw (lt→ltb c.max_size (length c.m) full) (
        stored (trim now order c).m p entries c.max_size (now + c.ttl) c.exclusive d' (omega arith))
  | inr room ↦
      rw (le→ltb_false c.max_size (length c.m) room)
        (stored c.m p entries c.max_size (now + c.ttl) c.exclusive d room)
]
